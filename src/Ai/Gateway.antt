-- ===== src/Ai/Gateway.antt =====
-- pkg/ai/gateway.go: requests, responses and the interface of a provider. A provider is outside the
-- repository: a function of the request and of the world `W` that it may change. The callback for
-- streamed chunks is left out, and a tool's function is a value of an unknown type `T`; the JSON of
-- a schema or of arguments is held as text.
use bpmn_ai.Base.{ℕ, String, Bool, List, Option, none, leb, if◌then◌else◌}
use bpmn_ai.Errors.{Result}
use bpmn_ai.Ai.Float.{Floats}

pub data Role : Type 0 where
  system user assistant tool : Role

pub record ToolCall : Type 0 where
  pub id : String
  pub name : String
  pub arguments : String

pub record Message : Type 0 where
  pub role : Role
  pub content : String
  pub tool_call_id : String
  pub tool_calls : List ToolCall

pub record ToolDefinition (T : Type 0) : Type 0 where
  pub name : String
  pub description : String
  pub parameters : String
  pub function : Option T

unfoldable pub without_function : {T : Type 0} → ToolDefinition T → ToolDefinition T
without_function t = record t { function = none }

pub record Request (F T : Type 0) : Type 0 where
  pub model : String
  pub system : String
  pub messages : List Message
  pub max_tokens : ℕ
  pub temperature : F
  pub tools : List (ToolDefinition T)
  pub max_tool_rounds : ℕ
  pub output_schema : String
  pub stream : Bool

pub record Response : Type 0 where
  pub text : String
  pub model : String
  pub tokens_in : ℕ
  pub tokens_out : ℕ
  pub duration_ms : ℕ
  pub tool_calls : List ToolCall

abbrev pub Gateway : Type 0 → Type 0 → Type 0 → Type 0
Gateway F T W = Request F T → W → Result Response × W

unfoldable pub with_defaults : {F T : Type 0} → Floats F → Request F T → Request F T
with_defaults x r = record r {
  max_tokens = if leb r.max_tokens 0 then 4096 else r.max_tokens;
  temperature = if x.at_most r.temperature (x.of_int 0) then x.literal "0.7" else r.temperature;
  max_tool_rounds = if leb r.max_tool_rounds 0 then 5 else r.max_tool_rounds;
}
