-- ===== src/Engine/Handle.antt =====
-- internal/engine/engine.go, `handleResult` and the steps that it is made of. A result always has
-- its flow record. Where the source dereferences a missing error, none is missing: each failing
-- element reports one.
pub mod Balance
pub mod Sends
pub mod Pending
pub mod Lifecycle
use Prim.Native.String.{◌++◌ as append}
use bpmn_ai.Base.{
  ℕ, ◌+◌, String, Bool, true, false, not, ◌&&◌, ◌==◌, List, [], ◌∷◌, ◌++◌, Option, none, some,
  nat_eq, is_empty, if◌then◌else◌,
}
use bpmn_ai.Base.Dict.{Dict, get, values}
use bpmn_ai.Element.{
  ExecutionResult, Action, route as routes, wait, form, error, complete, skip, queue, terminate,
  throw_error, call_activity,
}
use bpmn_ai.Engine.CallActivity.Own.{flatten_own}
use bpmn_ai.Engine.CallActivity.{flatten, called_after, prefix_of}
use bpmn_ai.Engine.Catch.{find_error_catch, is_end_event}
use bpmn_ai.Engine.Router.{NextFlow, route, create_flow_record}
use bpmn_ai.Engine.State.{
  WorkItem, Event, process_completed, process_terminated, process_error, job_queued, Loop, Engine,
  M, ◌>>=◌, ◌>>◌, pure, raise, lift, modify, create, attempt, emit, update, tag,
}
use bpmn_ai.Errors.{Error, Result, ok, err, message, not_found, context_done}
use bpmn_ai.Model.{
  Element, ElementType, Process, Value, text, bool, number, timer_event, message_catch, error_catch,
  start_event,
}
use bpmn_ai.Model
use bpmn_ai.Process.Instance.{Instance, transition, try_complete, next_thread_id, new_thread}
use bpmn_ai.Process.State
use bpmn_ai.Queue.{WorkerPool, enqueue}
use bpmn_ai.Records.{FlowRecord, ThreadRecord, JobRecord, ExecutionLogEntry}
use bpmn_ai.Records
use bpmn_ai.Engine.Send.{
  send, create_and_send, with_instance, enqueue_flow, enqueue_all, fork, completes, ignoring, when,
}
use bpmn_ai.Engine.Jobs.{new_job, ignore, schedule_continuation, boundary_timers}

abbrev pub action_name : Action → String
action_name routes = "ROUTE"
action_name wait = "WAIT"
action_name form = "FORM"
action_name error = "ERROR"
action_name complete = "COMPLETE"
action_name skip = "SKIP"
action_name queue = "QUEUE"
action_name terminate = "TERMINATE"
action_name throw_error = "THROW_ERROR"
action_name call_activity = "CALL_ACTIVITY"

abbrev pub type_name : ElementType → String
type_name Model.ElementType.start_event = "startEvent"
type_name Model.ElementType.end_event = "endEvent"
type_name Model.ElementType.terminate_event = "terminateEvent"
type_name Model.ElementType.timer_event = "timerEvent"
type_name Model.ElementType.message_throw = "messageThrow"
type_name Model.ElementType.message_catch = "messageCatch"
type_name Model.ElementType.exclusive_gateway = "exclusiveGateway"
type_name Model.ElementType.parallel_gateway = "parallelGateway"
type_name Model.ElementType.inclusive_gateway = "inclusiveGateway"
type_name Model.ElementType.event_based_gateway = "eventBasedGateway"
type_name Model.ElementType.user_task = "userTask"
type_name Model.ElementType.script_task = "scriptTask"
type_name Model.ElementType.service_task = "serviceTask"
type_name Model.ElementType.sequence_flow = "sequenceFlow"
type_name Model.ElementType.sub_process = "subProcess"
type_name Model.ElementType.error_catch = "errorCatch"
type_name Model.ElementType.error_end = "errorEnd"
type_name Model.ElementType.call_activity = "callActivity"
type_name Model.ElementType.signal_throw = "signalThrow"
type_name Model.ElementType.signal_catch = "signalCatch"
type_name Model.ElementType.ai_task = "aiTask"
type_name Model.ElementType.unset = ""

module _ {S : Type 0} (E : Engine S) where
  open E use {ops, now}

  pub follow : List NextFlow → FlowRecord → M S (Unit {0})
  unfolding fork
  follow [] f =
      with_instance E λ i. when E (is_end_event f.element_id i.process) (ignoring E (completes E))
  follow (n ∷ []) f = enqueue_flow E n f.thread_id f.id
  follow (n ∷ m ∷ ns) f = fork E (n ∷ m ∷ ns) f

  pub handle_route : ExecutionResult → M S (Unit {0})
  unfolding follow
  handle_route r = with_instance E λ i. follow (route r i.process r.flow_data.thread_id) r.flow_data

  pub handle_wait : ExecutionResult → M S (Unit {0})
  unfolding schedule_continuation boundary_timers
  handle_wait r = do
    update "transition to waiting" (transition now State.waiting)
    schedule_continuation E r r.continue_at
    emit (process_completed State.in_progress State.waiting)
    with_instance E λ i. boundary_timers E i r.flow_data (values i.process.elements)

  pub push_error : Option Error → M S (Unit {0})
  push_error none = pure tt
  push_error (some e) = modify λ l. record l { errors = l.errors ++ e ∷ [] }

  pub handle_error : ExecutionResult → M S (Unit {0})
  handle_error r = do
    update "transition to error" (transition now State.error)
    emit process_error
    push_error r.error

  unfoldable pub completion : M S (Unit {0})
  unfolding completes when
  completion = do
    done_now ← completes E
    when E done_now (emit (process_completed State.in_progress State.completed))

  unfoldable pub handle_complete : ExecutionResult → M S (Unit {0})
  unfolding completion
  handle_complete r =
      with_instance E λ i. when E (is_end_event r.flow_data.element_id i.process) completion

  pub caught : ExecutionResult → String → Option (String × Element) → M S (Unit {0})
  caught r code none = do
    update "transition to error" (transition now State.error)
    push_error (
        some (
          message (
            append "uncaught error: code="
              (append code (append " element=" r.flow_data.element_id)))))
    emit process_error
  caught r code (some (id, e)) = with_instance E λ i.
      create_and_send E "create error catch flow"
        (create_flow_record i.id id error_catch r.flow_data.thread_id r.flow_data.id)
        r.flow_data.thread_id

  pub thrown : ExecutionResult → Instance → Option Element → M S (Unit {0})
  unfolding caught
  thrown r i none = raise (not_found r.flow_data.element_id)
  thrown r i (some e) =
      caught r e.event_definition.error_code
        (find_error_catch r.flow_data.element_id e.event_definition.error_code i.process)

  pub handle_throw : ExecutionResult → M S (Unit {0})
  unfolding thrown
  handle_throw r = with_instance E λ i. thrown r i (get r.flow_data.element_id i.process.elements)

  pub close_threads : String → List ThreadRecord → M S (Unit {0})
  close_threads id [] = pure tt
  close_threads id (t ∷ ts) = do attempt (ops.close_thread id t.thread_index); close_threads id ts

  pub threads_or_none : Result (List ThreadRecord) → List ThreadRecord
  threads_or_none (ok ts) = ts
  threads_or_none (err e) = []

  pub close_all : M S (Unit {0})
  unfolding close_threads threads_or_none
  close_all l =
      close_threads l.instance.id
        (threads_or_none (ops.get_threads_by_instance l.instance.id l.store)) l

  pub handle_terminate : ExecutionResult → M S (Unit {0})
  unfolding close_all
  handle_terminate r = do
    update "transition to terminated" (transition now State.terminated)
    emit process_terminated
    close_all
    raise (message (append "process terminated by element " r.flow_data.element_id))

  -- The store handed out the process of the instance itself, which it has under its identifier.
  abbrev is_own : Process → Process → Bool
  is_own called own = ops.hands_out_pointers && called.id == own.id

  -- The definitions that the flattening changes, in the instance and behind the store's pointers.
  pub adopt : String → Process → M S (Unit {0})
  adopt caller called = modify λ l.
      let own = l.instance.process in
      let flat =
        if is_own called own
        then flatten_own (E.visits own).0 (E.visits own).1 caller own
        else flatten caller called own in
      let before =
        if is_own called own then l.store else ops.share (called_after caller called own) l.store in
      record l { store = ops.share flat before; instance = record l.instance { process = flat } }

  pub load : String → M S Process
  load id l = (l, tag "load called process" (ops.get_process id l.store))

  pub pass_through : ExecutionResult → M S (Unit {0})
  unfolding enqueue_all
  pass_through r = with_instance E λ i.
      enqueue_all E (route r i.process r.flow_data.thread_id) r.flow_data.thread_id r.flow_data.id

  pub enter_called : FlowRecord → Process → M S (Unit {0})
  enter_called f called = do
    adopt f.element_id called
    with_instance E λ i.
        create_and_send E "create called process entry flow"
          (create_flow_record i.id (append (prefix_of f.element_id) called.start_event_id)
            start_event f.thread_id f.id)
          f.thread_id

  pub start_called : FlowRecord → Process → M S (Unit {0})
  unfolding enter_called
  start_called f called =
      if is_empty called.start_event_id
      then raise (message "called process has no start event")
      else enter_called f called

  pub handle_call : ExecutionResult → M S (Unit {0})
  unfolding pass_through start_called
  handle_call r =
      if is_empty r.called_element
      then pass_through r
      else load r.called_element >>= start_called r.flow_data

  -- Without a queue the engine fills in the job itself.
  pub queue_job : JobRecord → M S (Unit {0})
  queue_job j = attempt λ s. elim E.queue [
    | none ↦ ignore (
        ops.create_job
          (record j {
            id = E.uuid;
            status = Records.JobStatus.pending;
            scheduled_at = now;
            max_retries = 3;
          })
          s)
    | some wp ↦ ignore (enqueue now wp j s)
  ]

  pub handle_queue : ExecutionResult → M S (Unit {0})
  unfolding queue_job pass_through
  handle_queue r = with_instance E λ i. do
    queue_job (
        new_job i.id r.flow_data.id (type_name r.flow_data.element_type) 0 (
          ("element_id", text r.flow_data.element_id)
          ∷ ("thread_id", number (E.decimal r.flow_data.thread_id))
          ∷ []))
    emit job_queued
    pass_through r

  -- The `switch` on the action.
  unfoldable pub dispatch : Action → ExecutionResult → M S (Unit {0})
  unfolding handle_route handle_wait handle_error handle_complete handle_throw handle_terminate
      handle_call handle_queue
  dispatch routes r = handle_route r
  dispatch wait r = handle_wait r
  dispatch form r = handle_wait r
  dispatch error r = handle_error r
  dispatch complete r = handle_complete r
  dispatch throw_error r = handle_throw r
  dispatch terminate r = handle_terminate r
  dispatch call_activity r = handle_call r
  dispatch queue r = handle_queue r
  dispatch skip r = pure tt

  pub log_execution : ExecutionResult → M S (Unit {0})
  log_execution r = with_instance E λ i. attempt (
      ops.log_execution (record {
        id = "";
        instance_id = i.id;
        element_id = r.flow_data.element_id;
        element_type = r.flow_data.element_type;
        action = action_name r.action;
        duration_ms = r.duration_ms;
        created_at = 0;
      }))

  unfoldable pub handle_result : ExecutionResult → M S (Unit {0})
  unfolding log_execution
  handle_result r = do dispatch r.action r; log_execution r
