-- ===== src/Store.antt =====
-- The persistence interfaces of internal/engine/store.go and internal/queue/store.go, which the
-- engine and the queue take as a parameter. An operation that fails leaves the store as it was.
-- A create fills in the record that it is handed, and so returns it. `share` is what becomes of the
-- store when a caller changes a process definition that the store handed out, and `share_flow` when
-- it changes a flow record that the store was handed: a store of shared pointers now holds the
-- changed one, a store that keeps copies is unaffected. `hands_out_pointers` says which of the two it is
-- for process definitions.
pub mod Memory
use bpmn_ai.Base.{ℕ, String, Bool, List, Option}
use bpmn_ai.Errors.{Result}
use bpmn_ai.Model.{Process}
use bpmn_ai.Process.State.{State}
use bpmn_ai.Records.{
  FlowRecord, InstanceRecord, ThreadRecord, JobRecord, DeadLetterRecord, ExecutionLogEntry,
}

pub record EngineStore (S : Type 0) : Type 0 where
  pub get_process : String → S → Result Process
  pub hands_out_pointers : Bool
  pub share : Process → S → S
  pub share_flow : FlowRecord → S → S
  pub get_instance : String → S → Result InstanceRecord
  pub update_instance : InstanceRecord → S → Result S
  pub list_instances : S → Result (List InstanceRecord)
  pub create_flow : FlowRecord → S → Result (FlowRecord × S)
  pub update_flow : FlowRecord → S → Result S
  pub get_flow : String → S → Result FlowRecord
  pub get_flows_by_instance : String → S → Result (List FlowRecord)
  pub create_thread : ThreadRecord → S → Result (ThreadRecord × S)
  pub get_threads_by_instance : String → S → Result (List ThreadRecord)
  pub close_thread : String → ℕ → S → Result S
  pub create_job : JobRecord → S → Result (JobRecord × S)
  pub log_execution : ExecutionLogEntry → S → Result S

pub record JobStore (S : Type 0) : Type 0 where
  pub create_job : JobRecord → S → Result (JobRecord × S)
  pub update_job : JobRecord → S → Result S
  pub get_pending_jobs : ℕ → S → Result (List JobRecord)
  pub get_job : String → S → Result JobRecord

pub record DeadLetterStore (S : Type 0) : Type 0 where
  pub create_dead_letter : DeadLetterRecord → S → Result (DeadLetterRecord × S)
  pub get_dead_letters : String → S → Result (List DeadLetterRecord)
