-- ===== src/Element/AiTask/Execute.antt =====
-- internal/element/activities/ai_task.go: Execute, executeMultiAgent and setOutputVariables. A message
-- that names the task is wrapped around an error. The callback of a stream is called with each chunk
-- before the answer is there.
use Prim.Native.String.{◌++◌ as append}
use bpmn_ai.Base.{
  String, Bool, true, false, not, List, [], ◌∷◌, Option, none, some, is_empty, if◌then◌else◌,
}
use bpmn_ai.Base.Dict.{Dict, put}
use bpmn_ai.Errors.{Error, Result, ok, err, wrap}
use bpmn_ai.Model.{Value, text}
use bpmn_ai.Records
use bpmn_ai.Process.Instance.{Instance}
use bpmn_ai.Element.{
  ExecutionContext, ExecutionResult, route, error, set, variable, completed, mark, result,
}
use bpmn_ai.Ai.Gateway.{Request, Response, ToolCall}
use bpmn_ai.Ai.Gateway
use bpmn_ai.Ai.Agent.{SubAgentTask, parse_agents, execute_agents}
use bpmn_ai.Ai.Rag.{RagSystem, enrich_prompt}
use bpmn_ai.Ai.Schema.{validate}
use bpmn_ai.Ai.Router.{ModelRouter, resolve}
use bpmn_ai.Element.AiTask.{
  Outside, AiTask, build_prompt, resolve_model, resolve_profile, resolve_system_prompt,
  resolve_tools,
}
use bpmn_ai.Element.AiTask.Names.{extract_var_names}
use bpmn_ai.Element.AiTask.Cost.{estimate_cost}

module _ {F T G S V W : Type 0} (o : Outside F T G W) (t : AiTask F T G S V W) where
  abbrev key : String → String
  key suffix = append t.id suffix

  unfoldable pub fails : Error → ExecutionContext → Instance × ExecutionResult
  fails e c = (
    c.instance,
    record (result error (mark Records.FlowStatus.error c.flow)) {
      error = some (wrap (append "ai_task " t.id) e);
    },
  )

  unfoldable pub succeeds : ExecutionContext → Instance × ExecutionResult
  succeeds c = (c.instance, result route (completed c.flow))

  unfoldable pub set_validated : Result Value → ExecutionContext → ExecutionContext
  set_validated (err e) c = set (key "_validation_error") (text (o.shown_error e)) c
  set_validated (ok v) c = set (key "_parsed") v c

  unfoldable pub set_parsed : Response → ExecutionContext → ExecutionContext
  unfolding set_validated
  set_parsed r c =
      let validated = validate o.unmarshal o.violations t.output_schema r.text in
      if is_empty t.output_schema then c else set_validated validated c

  previous_cost : ExecutionContext → F
  previous_cost c = elim (variable "ai_total_cost" c) [
    | none ↦ o.floats.of_int 0
    | some v ↦ elim (o.as_float v) [ none ↦ o.floats.of_int 0 | some x ↦ x ]
  ]

  unfoldable pub set_cost : F → ExecutionContext → ExecutionContext
  unfolding previous_cost
  set_cost cost c =
      set (key "_cost") (o.of_float cost)
        (set "ai_total_cost" (o.of_float (o.floats.plus (previous_cost c) cost)) c)

  unfoldable pub set_tool_calls : List ToolCall → ExecutionContext → ExecutionContext
  set_tool_calls [] c = c
  set_tool_calls (a ∷ rest) c = set (key "_tool_calls") (text (o.tool_calls_json (a ∷ rest))) c

  unfoldable pub set_answer : Response → ExecutionContext → ExecutionContext
  set_answer r c = set (key "_tokens_out") (o.of_int r.tokens_out) (
      set (key "_tokens_in") (o.of_int r.tokens_in)
        (set (key "_model") (text r.model) (set (key "_result") (text r.text) c)))

  unfoldable pub set_output_variables : Response → ExecutionContext → ExecutionContext
  unfolding set_parsed set_answer set_cost set_tool_calls
  set_output_variables r c =
      set_tool_calls r.tool_calls
        (set_cost (estimate_cost o.floats o.order_prices r) (set_answer r (set_parsed r c)))

  -- The variable that holds what has been streamed so far.
  unfoldable pub on_chunks : String → List String → ExecutionContext → ExecutionContext
  on_chunks partial [] c = c
  on_chunks partial (s ∷ ss) c =
      on_chunks (append partial s) ss (set (key "_partial") (text (append partial s)) c)

  unfoldable pub streamed : List String → ExecutionContext → ExecutionContext
  unfolding on_chunks
  streamed chunks c = if t.stream then on_chunks "" chunks c else c

  unfoldable pub answered :
      Result Response → List String → ExecutionContext → Instance × ExecutionResult
  unfolding streamed fails succeeds set_output_variables
  answered (err e) chunks c = fails e (streamed chunks c)
  answered (ok r) chunks c = succeeds (set_output_variables r (streamed chunks c))

  unfoldable pub enriched : Option (RagSystem S V W) → String → W → String × W
  enriched none prompt w = (prompt, w)
  enriched (some r) prompt w =
      let found = enrich_prompt o.decimal r t.rag_collection prompt 5 w in
      if is_empty t.rag_collection
      then (prompt, w)
      else (elim found.0 [ err e ↦ prompt | ok p ↦ p ], found.1)

  some_tools : {A : Type 0} → List A → Bool
  some_tools [] = false
  some_tools (a ∷ rest) = true

  unfoldable pub chosen_gateway : Option (ModelRouter F G) → Bool → String → String → G × String
  chosen_gateway none tools profile model = (t.ai_gateway, model)
  chosen_gateway (some r) tools profile model =
      if is_empty profile
      then (t.ai_gateway, model)
      else elim (resolve o.floats o.order_models profile model tools
          (not (is_empty t.output_schema)) r) [ err e ↦ (t.ai_gateway, model) | ok (g, m) ↦ (g, m) ]

  unfoldable pub task_request : ExecutionContext → String → String → Request F T
  task_request c model prompt = record {
    model = model;
    system = resolve_system_prompt o t c;
    messages =
        record { role = Gateway.Role.user; content = prompt; tool_call_id = ""; tool_calls = [] }
        ∷ [];
    max_tokens = 4096;
    temperature = o.floats.literal "0.7";
    tools = resolve_tools o t t.tool_registry t.tool_names;
    max_tool_rounds = 0;
    output_schema = t.output_schema;
    stream = t.stream;
  }

  unfoldable pub execute_single : ExecutionContext → W → Instance × ExecutionResult × W
  unfolding enriched chosen_gateway task_request some_tools answered
  execute_single c w =
      let built = build_prompt o t c in
      let prompt = enriched t.rag_system built.0 w in
      let gateway =
        chosen_gateway t.model_router (some_tools (resolve_tools o t t.tool_registry t.tool_names))
          (resolve_profile o t built.1) (resolve_model o t built.1) in
      let answer = o.ask gateway.0 (task_request built.1 gateway.1 prompt.0) prompt.1 in
      let done = answered answer.0 answer.2 built.1 in (done.0, done.1, answer.1)

  unfoldable pub global_vars : List String → ExecutionContext → Dict String → Dict String
  global_vars [] c vs = vs
  global_vars (n ∷ ns) c vs =
      global_vars ns c (elim (variable n c) [ none ↦ vs | some v ↦ put n (o.shown_value v) vs ])

  unfoldable pub set_results : Dict String → ExecutionContext → ExecutionContext
  set_results [] c = c
  set_results ((k, v) ∷ vs) c = set_results vs (set (key (append "_agent_" k)) (text v) c)

  unfoldable pub agent_results : List SubAgentTask → ExecutionContext → W → Dict String × W
  unfolding global_vars
  agent_results agents c w =
      execute_agents o.floats o.order_texts o.shown_error
        (λ r v. let a = o.ask t.ai_gateway r v in (a.0, a.1)) agents
        (global_vars (extract_var_names t.prompt) c []) w

  -- After the agents have answered.
  unfoldable pub reported : Dict String × W → ExecutionContext → Instance × ExecutionResult × W
  unfolding set_results succeeds
  reported (results, w) c =
      let done = succeeds (set_results (o.order_texts results) c) in (done.0, done.1, w)

  unfoldable pub execute_multi_agent :
      Result (List SubAgentTask) → ExecutionContext → W → Instance × ExecutionResult × W
  unfolding fails agent_results reported
  execute_multi_agent (err e) c w =
      let done = fails (wrap "parse agents" e) c in (done.0, done.1, w)
  execute_multi_agent (ok agents) c w = reported (agent_results agents c w) c

  unfoldable pub execute : ExecutionContext → W → Instance × ExecutionResult × W
  unfolding execute_single execute_multi_agent
  execute c w =
      if not (is_empty t.agent_defs)
      then execute_multi_agent (parse_agents o.decode_agents t.agent_defs) c w
      else execute_single c w
