-- ===== src/Records.antt =====
-- pkg/store/store.go: the records that the engine and the queue keep in a store. Times are natural
-- numbers of nanoseconds, 0 the zero time; a pointer that may be nil is an `Option`.
use bpmn_ai.Base.{ℕ, String, Option}
use bpmn_ai.Base.Dict.{Dict}
use bpmn_ai.Model.{ElementType, Value}
use bpmn_ai.Process.State.{State}

pub data FlowStatus : Type 0 where
  pending active completed skipped error : FlowStatus

pub record FlowRecord : Type 0 where
  pub id : String
  pub instance_id : String
  pub element_id : String
  pub element_type : ElementType
  pub thread_id : ℕ
  pub previous_id : String
  pub status : FlowStatus
  pub started_at : Option ℕ
  pub finished_at : Option ℕ
  pub duration_ms : Option ℕ

pub record InstanceRecord : Type 0 where
  pub id : String
  pub process_id : String
  pub title : String
  pub status : State
  pub current_user : String
  pub variables : Dict Value
  pub pin : String
  pub started_at : ℕ
  pub updated_at : ℕ
  pub finished_at : Option ℕ

pub data ThreadStatus : Type 0 where
  active closed : ThreadStatus

pub record ThreadRecord : Type 0 where
  pub id : ℕ
  pub instance_id : String
  pub thread_index : ℕ
  pub parent_index : Option ℕ
  pub flow_id : String
  pub status : ThreadStatus
  pub created_at : ℕ

pub data JobStatus : Type 0 where
  unset pending running completed failed dead : JobStatus

pub record JobRecord : Type 0 where
  pub id : String
  pub instance_id : String
  pub flow_id : String
  pub type : String
  pub payload : Dict Value
  pub status : JobStatus
  pub retry_count : ℕ
  pub max_retries : ℕ
  pub scheduled_at : ℕ
  pub executed_at : Option ℕ
  pub error_message : String
  pub created_at : ℕ

pub record DeadLetterRecord : Type 0 where
  pub id : String
  pub job_id : String
  pub instance_id : String
  pub type : String
  pub payload : Dict Value
  pub error_message : String
  pub retry_count : ℕ
  pub created_at : ℕ

pub record ExecutionLogEntry : Type 0 where
  pub id : String
  pub instance_id : String
  pub element_id : String
  pub element_type : ElementType
  pub action : String
  pub duration_ms : ℕ
  pub created_at : ℕ
