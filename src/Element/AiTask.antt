-- ===== src/Element/AiTask.antt =====
-- internal/element/activities/ai_task.go: a task that a language model does. A gateway is a value of
-- a type `G`, and `Outside` holds what is asked of it and what else is outside the repository: fmt,
-- encoding/json, gojsonschema, SHA-256 and the order in which Go visits maps.
pub mod Names
pub mod Cost
pub mod Execute
pub mod Frame
use Prim.Native.String.{◌++◌ as append}
use bpmn_ai.Base.{
  ℕ, String, Bool, false, true, ◌&&◌, not, List, [], ◌∷◌, Option, none, some, ◌==◌, is_empty, keep,
  map, if◌then◌else◌,
}
use bpmn_ai.Base.Dict.{Dict, get, put}
use bpmn_ai.Base.Text.{split, trim_space}
use bpmn_ai.Errors.{Error, Result, ok, err, wrap}
use bpmn_ai.Model.{Value, text}
use bpmn_ai.Model
use bpmn_ai.Records
use bpmn_ai.Element.{
  ExecutionContext, ExecutionResult, route, error, set, variable, completed, mark, result,
}
use bpmn_ai.Ai.Float.{Floats}
use bpmn_ai.Ai.Gateway.{Request, Response, ToolCall, ToolDefinition}
use bpmn_ai.Ai.Gateway
use bpmn_ai.Ai.Agent.{SubAgentTask, replace_all, braced, parse_agents, execute_agents}
use bpmn_ai.Ai.Rag.{RagSystem, enrich_prompt}
use bpmn_ai.Ai.Schema.{validate}
use bpmn_ai.Ai.Tools.{ToolRegistry, get_functions}
use bpmn_ai.Ai.Prompt.{PromptManager, resolve_prompt}
use bpmn_ai.Ai.Router.{ModelRouter, Order, resolve}
use bpmn_ai.Element.AiTask.Names.{extract_var_names}
use bpmn_ai.Element.AiTask.Cost.{estimate_cost, Price}

-- `ask` also yields the chunks that a gateway streams. `as_float` is the number of a variable that is
-- a float64 or an int.
pub record Outside (F T G W : Type 0) : Type 0 where
  pub floats : Floats F
  pub ask : G → Request F T → W → Result Response × W × List String
  pub decode_agents : String → Result (List SubAgentTask)
  pub order_texts : Dict String → Dict String
  pub order_names : List String → List String
  pub order_prices : Dict (Price F) → Dict (Price F)
  pub order_models : Order
  pub shown_error : Error → String
  pub shown_value : Value → String
  pub decimal : ℕ → String
  pub scan_version : String → ℕ
  pub as_float : Value → Option F
  pub of_float : F → Value
  pub of_int : ℕ → Value
  pub tool_calls_json : List ToolCall → String
  pub unmarshal : String → Result Value
  pub violations : String → Value → Result (List String)

pub record AiTask (F T G S V W : Type 0) : Type 0 where
  pub id : String
  pub name : String
  pub task_type : Model.TaskType
  pub model : String
  pub profile : String
  pub system_prompt : String
  pub output_schema : String
  pub prompt : String
  pub prompt_ref : String
  pub stream : Bool
  pub tool_names : List String
  pub rag_collection : String
  pub agent_defs : String
  pub ai_gateway : G
  pub tool_registry : Option (ToolRegistry T)
  pub model_router : Option (ModelRouter F G)
  pub rag_system : Option (RagSystem S V W)
  pub prompt_manager : Option PromptManager

abbrev extension : String → Model.Element → String
extension key e = elim (get key e.extension_data) [ none ↦ "" | some s ↦ s ]

unfoldable pub tool_list : String → List String
tool_list tools = keep (λ n. not (is_empty n)) (map trim_space (split b',' tools))

module _ {F T G S V W : Type 0} where
  unfoldable pub new_ai_task :
      G
      → Option (ToolRegistry T)
      → Option (ModelRouter F G)
      → Option (RagSystem S V W)
      → Option PromptManager
      → Model.Element
      → AiTask F T G S V W
  unfolding tool_list
  new_ai_task g tools router rag prompts e =
      let prompt = extension "scriptBody" e in
      let ref = extension "promptRef" e in
      record {
        id = e.id;
        name = e.name;
        task_type = e.task_type;
        model = extension "model" e;
        profile = extension "profile" e;
        system_prompt = extension "systemPrompt" e;
        output_schema = extension "outputSchema" e;
        prompt = if is_empty prompt && is_empty ref then e.name else prompt;
        prompt_ref = ref;
        stream = extension "stream" e == "true";
        tool_names = tool_list (extension "tools" e);
        rag_collection = extension "rag" e;
        agent_defs = extension "agents" e;
        ai_gateway = g;
        tool_registry = tools;
        model_router = router;
        rag_system = rag;
        prompt_manager = prompts;
      }

module _ {F T G S V W : Type 0} (o : Outside F T G W) (t : AiTask F T G S V W) where
  abbrev key : String → String
  key suffix = append t.id suffix

  -- A variable that holds a text, or something else.
  text_or : String → Option Value → String
  text_or d (some (text s)) = s
  text_or d v = d

  abbrev unless_empty : String → String → String
  unless_empty s d = if is_empty s then d else s

  unfoldable pub resolve_model : ExecutionContext → String
  unfolding text_or
  resolve_model c =
      unless_empty t.model (unless_empty (text_or "" (variable "ai_model" c)) "gpt-4o")

  unfoldable pub resolve_profile : ExecutionContext → String
  unfolding text_or
  resolve_profile c =
      unless_empty t.profile (unless_empty (text_or "" (variable "ai_profile" c)) "auto")

  unfoldable pub resolve_system_prompt : ExecutionContext → String
  unfolding text_or
  resolve_system_prompt c =
      unless_empty t.system_prompt (text_or "" (variable "ai_system_prompt" c))

  unfoldable pub resolve_tools : Option (ToolRegistry T) → List String → List (ToolDefinition T)
  resolve_tools none names = []
  resolve_tools (some r) [] = []
  resolve_tools (some r) (n ∷ ns) = elim (get_functions o.order_names (n ∷ ns) r) [
    | err e ↦ []
    | ok ds ↦ ds
  ]

  unfoldable pub fill_names : List String → ExecutionContext → String → String
  fill_names [] c prompt = prompt
  fill_names (n ∷ ns) c prompt = fill_names ns c (elim (variable n c) [
    | none ↦ prompt
    | some v ↦ replace_all (braced n) (o.shown_value v) prompt
  ])

  -- The body and the hash of the referenced prompt.
  referenced : Option PromptManager → Option (String × String)
  referenced none = none
  referenced (some m) =
      if is_empty t.prompt_ref
      then none
      else resolve_prompt o.scan_version o.order_names t.prompt_ref m

  -- The prompt before its variables are filled in, and the variables that tell where it comes from.
  unfoldable pub prompt_source :
      Option (String × String) → ExecutionContext → String × ExecutionContext
  prompt_source none c = (t.prompt, c)
  prompt_source (some (body, hash)) c =
      (body, set (key "_prompt_ref") (text t.prompt_ref) (set (key "_prompt_hash") (text hash) c))

  unfoldable pub build_prompt : ExecutionContext → String × ExecutionContext
  unfolding referenced prompt_source fill_names
  build_prompt c =
      let from = prompt_source (referenced t.prompt_manager) c in
      let body = if not (is_empty t.prompt_ref) && is_empty from.0 then t.name else from.0 in
      (fill_names (extract_var_names body) from.1 body, from.1)
