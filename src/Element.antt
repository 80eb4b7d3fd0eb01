-- ===== src/Element.antt =====
-- internal/element/element.go: what the engine hands an element and what it gets back. A call of
-- `Execute` takes the context and returns the instance with the variables that it set, and its
-- result; the flow record, a shared pointer in the source, travels in the result. The field
-- `FlowID` of the result is never set, and is left out.
pub mod Gateways
pub mod Events
pub mod Activities
pub mod AiTask
use bpmn_ai.Base.{ℕ, String, List, [], Option, none, some, ◌≡◌, ◌==◌, if◌then◌else◌}
use bpmn_ai.Base.Dict.{get, get-put}
use bpmn_ai.Errors.{Error, Result}
use bpmn_ai.Model.{Element, Value}
use bpmn_ai.Process.Instance.{Instance, get_variable, set_variable}
use bpmn_ai.Records.{FlowRecord, FlowStatus}
use bpmn_ai.Records

pub data Action : Type 0 where
  route wait form error complete skip queue terminate throw_error call_activity : Action

pub record ExecutionResult : Type 0 where
  pub action : Action
  pub flow_data : FlowRecord
  pub flow_filters : List String
  pub error : Option Error
  pub duration_ms : ℕ
  pub continue_at : Option ℕ
  pub called_element : String

-- `flows_by_instance` is the store's `GetFlowsByInstance`, and `now` the clock.
pub record ExecutionContext : Type 0 where
  pub now : ℕ
  pub instance : Instance
  pub flow : FlowRecord
  pub flows_by_instance : String → Result (List FlowRecord)

unfoldable pub element : ExecutionContext → Option Element
element c = get c.flow.element_id c.instance.process.elements

unfoldable pub variable : String → ExecutionContext → Option Value
unfolding get_variable
variable key c = get_variable key c.instance

unfoldable pub set : String → Value → ExecutionContext → ExecutionContext
unfolding set_variable
set key value c = record c { instance = set_variable c.now key value c.instance }

pub variable-set :
    (k j : String) (v : Value) (c : ExecutionContext)
    → variable j (set k v c) ≡ (if k == j then some v else variable j c)
unfolding variable set
variable-set k j v c = get-put k j v c.instance.variables

-- `flow.Status = status`.
abbrev pub mark : FlowStatus → FlowRecord → FlowRecord
mark status f = record f { status = status }

abbrev pub completed : FlowRecord → FlowRecord
completed = mark Records.FlowStatus.completed

abbrev pub result : Action → FlowRecord → ExecutionResult
result a f = record {
  action = a;
  flow_data = f;
  flow_filters = [];
  error = none;
  duration_ms = 0;
  continue_at = none;
  called_element = "";
}

abbrev pub Execute : Type 0
Execute = ExecutionContext → Instance × ExecutionResult
