-- ===== src/Model.antt =====
-- pkg/bpmn/model.go: a parsed process definition. `ElementType` and its like are Go strings; a
-- data type lists their constants, and `unset` is the empty string, the zero value that a read of
-- a missing key gives. `has_sub_process` is whether the pointer SubProcess is set: no code reads
-- what it points to, since the parser copies the nested elements into the process.
use bpmn_ai.Base.{ℕ, String, Bool, List}
use bpmn_ai.Base.Dict.{Dict}

pub data ElementType : Type 0 where
  unset : ElementType
  start_event end_event terminate_event timer_event message_throw message_catch : ElementType
  exclusive_gateway parallel_gateway inclusive_gateway event_based_gateway : ElementType
  user_task script_task service_task sequence_flow sub_process : ElementType
  error_catch error_end call_activity signal_throw signal_catch ai_task : ElementType

pub ElementType-discrete : Discrete ElementType
ElementType-discrete = hlevel

pub data TimerType : Type 0 where
  unset duration date cycle : TimerType

pub data EventType : Type 0 where
  unset no_event timer message terminate error signal : EventType

pub data GatewayType : Type 0 where
  unset exclusive parallel inclusive event_based : GatewayType

pub data TaskType : Type 0 where
  unset user script service ai : TaskType

pub data GatewayDirection : Type 0 where
  unset diverging converging mixed : GatewayDirection

pub record EventDefinition : Type 0 where
  pub type : EventType
  pub timer_type : TimerType
  pub timer_value : String
  pub message_ref : String
  pub error_code : String
  pub signal_ref : String

pub record Element : Type 0 where
  pub id : String
  pub name : String
  pub type : ElementType
  pub incoming_flows : List String
  pub outgoing_flows : List String
  pub incoming : List String
  pub outgoing : List String
  pub event_definition : EventDefinition
  pub gateway_type : GatewayType
  pub gateway_direction : GatewayDirection
  pub default_flow_id : String
  pub conditions : Dict String
  pub task_type : TaskType
  pub assignee : String
  pub candidate_users : List String
  pub candidate_groups : List String
  pub duration : String
  pub attached_to_ref : String
  pub cancel_activity : Bool
  pub has_sub_process : Bool
  pub sub_process_end : String
  pub called_element : String
  pub extension_data : Dict String

pub record Flow : Type 0 where
  pub id : String
  pub name : String
  pub source_ref : String
  pub target_ref : String
  pub condition : String
  pub is_default : Bool

pub record Process : Type 0 where
  pub id : String
  pub name : String
  pub version : ℕ
  pub start_event_id : String
  pub elements : Dict Element
  pub flows : Dict Flow
  pub target_namespace : String
  pub created_at : ℕ

-- A Go value of type `any`. A number is held by its literal, since the code only copies it;
-- `other` is a value of a type that no type switch of the code names, held by its `%v` print.
mutual
  pub data Value : Type 0 where
    null : Value
    text : String → Value
    bool : Bool → Value
    number : String → Value
    slice : Values → Value
    dict : Fields → Value
    other : String → Value

  pub data Values : Type 0 where
    nil : Values
    cons : Value → Values → Values

  pub data Fields : Type 0 where
    end : Fields
    field : String → Value → Fields → Fields
