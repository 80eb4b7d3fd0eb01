-- ===== src/Ai/Agent.antt =====
-- pkg/ai/agent.go: sub-agents that answer one after the other, each with the answers before it at
-- hand. The JSON of ParseAgents is outside the repository: `decode`, which yields nothing for an
-- empty text. `order` is the order in which Go visits a map, and `shown` the text of an error.
use Prim.Native.Nat.{ℕ, zero, suc, ◌-◌}
use Prim.Native.String.{String, ◌++◌ as append}
use text.Mathlib.Text.{starts_with}
use bpmn_ai.Base.{List, [], ◌∷◌, false, is_empty, if◌then◌else◌}
use bpmn_ai.Base.Text.{characters}
use bpmn_ai.Base.Dict.{Dict, put}
use bpmn_ai.Errors.{Error, Result, ok, err, context}
use bpmn_ai.Ai.Float.{Floats}
use bpmn_ai.Ai.Gateway.{Request, Response, Gateway}
use bpmn_ai.Ai.Gateway

-- What is left of a text of which the first `n` characters are passed over. At an occurrence of
-- `old` its own characters are.
unfoldable pub replace_after : String → String → ℕ → String → String
unfolding characters
replace_after old new n String.[] = ""
replace_after old new (suc n) (String.◌∷◌ x s) = replace_after old new n s
replace_after old new zero (String.◌∷◌ x s) =
    let hit = starts_with (String.◌∷◌ x s) old in
    let rest = replace_after old new (if hit then characters old - 1 else 0) s in
    if hit then append new rest else String.◌∷◌ x rest

-- `strings.ReplaceAll` for a text `old` that is not empty.
unfoldable pub replace_all : String → String → String → String
unfolding replace_after
replace_all old new s = replace_after old new 0 s

abbrev pub braced : String → String
braced k = append "{{" (append k "}}")

unfoldable pub fill_all : Dict String → String → String
unfolding replace_all
fill_all [] prompt = prompt
fill_all ((k, v) ∷ vs) prompt = fill_all vs (replace_all (braced k) v prompt)

pub record SubAgentTask : Type 0 where
  pub name : String
  pub prompt : String
  pub model : String
  pub system_prompt : String
  pub output_key : String

-- A request of which only these fields are set.
unfoldable pub plain_request : {F T : Type 0} → Floats F → String → String → String → Request F T
plain_request x model system prompt = record {
  model = model;
  system = system;
  messages =
      record { role = Gateway.Role.user; content = prompt; tool_call_id = ""; tool_calls = [] }
      ∷ [];
  max_tokens = 0;
  temperature = x.of_int 0;
  tools = [];
  max_tool_rounds = 0;
  output_schema = "";
  stream = false;
}

-- What an agent leaves under its key: its answer, or the error.
unfoldable pub agent_result : (Error → String) → Result Response → String
agent_result shown (ok r) = r.text
agent_result shown (err e) = append "error: " (shown e)

unfoldable pub agent_prompt :
    (Dict String → Dict String) → Dict String → Dict String → SubAgentTask → String
unfolding fill_all
agent_prompt order vars results a = fill_all (order results) (fill_all (order vars) a.prompt)

unfoldable pub ask_agent :
    {F T W : Type 0}
    → Floats F
    → (Dict String → Dict String)
    → Gateway F T W
    → Dict String
    → Dict String
    → SubAgentTask
    → W
    → Result Response × W
unfolding agent_prompt plain_request
ask_agent x order g vars results a = g (
    plain_request x (if is_empty a.model then "gpt-4o" else a.model) a.system_prompt
      (agent_prompt order vars results a))

unfoldable pub run_agents :
    {F T W : Type 0}
    → Floats F
    → (Dict String → Dict String)
    → (Error → String)
    → Gateway F T W
    → Dict String
    → List SubAgentTask
    → Dict String
    → W
    → Dict String × W
unfolding ask_agent agent_result
run_agents x order shown g vars [] results w = (results, w)
run_agents x order shown g vars (a ∷ rest) results w =
    let answer = ask_agent x order g vars results a w in
    run_agents x order shown g vars rest (put a.output_key (agent_result shown answer.0) results)
      answer.1

-- The executor's error is always nil.
unfoldable pub execute_agents :
    {F T W : Type 0}
    → Floats F
    → (Dict String → Dict String)
    → (Error → String)
    → Gateway F T W
    → List SubAgentTask
    → Dict String
    → W
    → Dict String × W
unfolding run_agents
execute_agents x order shown g agents vars w = run_agents x order shown g vars agents [] w

unfoldable pub parse_agents :
    (String → Result (List SubAgentTask)) → String → Result (List SubAgentTask)
parse_agents decode text = if is_empty text then ok [] else context "parse agents" (decode text)
