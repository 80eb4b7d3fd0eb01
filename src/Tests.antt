-- ===== src/Tests.antt =====
-- Concrete processes, engines and stores, on which the witnesses in the children run the code.
pub mod Parsing
pub mod Processes
pub mod Gateways
pub mod Loops
pub mod Timers
pub mod Models
pub mod Tasks
pub mod Stores
pub mod Jobs
pub mod Calls
use bpmn_ai.Base.{false, ℕ, zero, suc, String, List, [], ◌∷◌, Option, none, some, ◌==◌}
use bpmn_ai.Base.Dict.{Dict, keys}
use bpmn_ai.Element.{ExecutionContext}
use bpmn_ai.Engine.Registry.{Registry, default_table}
use bpmn_ai.Engine.State.{Engine, Loop}
use bpmn_ai.Errors.{Result, ok}
use bpmn_ai.Govaluate.{Govaluate, good}
use bpmn_ai.Model.{
  Element, ElementType, EventDefinition, Flow, Process, Value, bool, GatewayDirection, start_event,
  end_event, exclusive_gateway, inclusive_gateway, parallel_gateway, service_task, error_catch,
  sub_process, error_end,
}
use bpmn_ai.Model
use bpmn_ai.Process.Instance.{Instance}
use bpmn_ai.Process.State.{State}
use bpmn_ai.Process.State
use bpmn_ai.Records.{FlowRecord, FlowStatus}
use bpmn_ai.Records
use bpmn_ai.Store.Memory.{Store, memory_store}

abbrev pub no_event : EventDefinition
no_event = record {
  type = Model.EventType.unset;
  timer_type = Model.TimerType.unset;
  timer_value = "";
  message_ref = "";
  error_code = "";
  signal_ref = "";
}

abbrev pub node : String → ElementType → List String → List String → Element
node id type incoming outgoing = record {
  id = id;
  name = id;
  type = type;
  incoming_flows = incoming;
  outgoing_flows = outgoing;
  incoming = [];
  outgoing = [];
  event_definition = no_event;
  gateway_type = Model.GatewayType.unset;
  gateway_direction = Model.GatewayDirection.unset;
  default_flow_id = "";
  conditions = [];
  task_type = Model.TaskType.unset;
  assignee = "";
  candidate_users = [];
  candidate_groups = [];
  duration = "";
  attached_to_ref = "";
  cancel_activity = false;
  has_sub_process = false;
  sub_process_end = "";
  called_element = "";
  extension_data = [];
}

abbrev pub arrow : String → String → String → String × Flow
arrow id source target = (
  id,
  record {
    id = id;
    name = "";
    source_ref = source;
    target_ref = target;
    condition = "";
    is_default = false;
  },
)

abbrev pub definition : String → String → Dict Element → Dict Flow → Process
definition id start elements flows = record {
  id = id;
  name = id;
  version = 1;
  start_event_id = start;
  elements = elements;
  flows = flows;
  target_namespace = "";
  created_at = 0;
}

-- A start event and an end event.
abbrev pub straight : Process
straight =
    definition "straight" "start"
      (("start", node "start" start_event [] ("f" ∷ []))
        ∷ ("end", node "end" end_event ("f" ∷ []) [])
        ∷ [])
      (arrow "f" "start" "end" ∷ [])

-- A gateway between two flows.
abbrev pub gateway : ElementType → Element
gateway type = record (node "g" type ("in" ∷ []) ("a" ∷ "b" ∷ [])) {
  conditions = ("a", "no") ∷ ("b", "yes") ∷ [];
}

abbrev pub branching : ElementType → Process
branching type =
    definition "branching" "g"
      (("g", gateway type)
        ∷ ("t", node "t" end_event ("a" ∷ []) [])
        ∷ ("u", node "u" end_event ("b" ∷ []) [])
        ∷ [])
      (arrow "a" "g" "t" ∷ arrow "b" "g" "u" ∷ [])

abbrev pub case_of : Process → Instance
case_of p = record {
  id = "case";
  process_id = p.id;
  process = p;
  title = "";
  state = State.created;
  variables = [];
  pin = "1234";
  started_at = 0;
  updated_at = 0;
  finished_at = none;
  once_done = false;
  completed_ok = false;
  thread_seq = 1;
}

abbrev pub flow_at : String → ElementType → FlowRecord
flow_at id type = record {
  id = "flow";
  instance_id = "case";
  element_id = id;
  element_type = type;
  thread_id = 1;
  previous_id = "";
  status = Records.FlowStatus.active;
  started_at = none;
  finished_at = none;
  duration_ms = none;
}

abbrev pub at_gateway : ElementType → ExecutionContext
at_gateway type = record {
  now = 0;
  instance = case_of (branching type);
  flow = flow_at "g" type;
  flows_by_instance = λ id. ok [];
}

-- An expression holds if it reads "yes".
abbrev pub readings : Govaluate
readings = record {
  Expression = String;
  parse = λ s. good s;
  vars = λ s. [];
  evaluate = λ s vs. good (bool (s == "yes"));
}

abbrev pub identifiers : ℕ → String
identifiers zero = "u0"
identifiers (suc zero) = "u1"
identifiers (suc (suc n)) = "u2"

abbrev pub stored : Process → Store
stored p = record {
  processes = (p.id, p) ∷ [];
  instances = [];
  flows = [];
  threads = [];
  jobs = [];
  dead_letters = [];
  logs = [];
  thread_seq = 0;
  uuid = identifiers;
  uuids = 0;
  clock = 0;
}

abbrev pub engine : Engine Store
engine = record {
  ops = memory_store;
  queue = none;
  calculate_schedule = λ type value. none;
  uuid = "u";
  worker_count = 2;
  decimal = λ n. "1";
  visits = λ p. (keys p.elements, keys p.flows);
  now = 0;
  done = false;
}

abbrev pub registry : Registry
registry = default_table readings (λ type value. none) (λ n. "") none

abbrev pub idle : Process → Loop Store
idle p = record {
  instance = case_of p;
  store = stored p;
  pending = 0;
  work = [];
  errors = [];
  events = [];
}
