-- ===== src/Engine/Resume.antt =====
-- internal/engine/engine.go: `Run`, `Continue` and `SendMessage`. Each prepares the items with which
-- `runLoop` starts; a loop's `instance` is the one that the call works on. The moves of the
-- goroutines are an argument. A panic is the error "panic".
pub mod Started
pub mod Bounds
use bpmn_ai.Base.{
  ℕ, String, Bool, true, false, not, ◌&&◌, ◌||◌, ◌==◌, List, [], ◌∷◌, Option, none, some, length,
  is_empty, find?, if◌then◌else◌,
}
use bpmn_ai.Base.Dict.{Dict, get}
use bpmn_ai.Element.{ExecutionResult, ExecutionContext, result, route as routes}
use bpmn_ai.Element.Gateways.{check_and_resolve}
use bpmn_ai.Engine.Catch.{is_end_event}
use bpmn_ai.Engine.FailSafe
use bpmn_ai.Engine.Send.{completes, with_instance, when}
use bpmn_ai.Engine.Loop.{Running, Moment, Move, run_moves, running, ended, finalize_instance}
use bpmn_ai.Engine.Registry.{Registry}
use bpmn_ai.Engine.Router.{NextFlow, route, create_flow_record}
use bpmn_ai.Engine.State.{
  WorkItem, process_started, Loop, Engine, M, ◌>>=◌, ◌>>◌, pure, raise, modify, create, attempt,
  emit, update, tag,
}
use bpmn_ai.Errors.{Result, ok, err, message}
use bpmn_ai.Model.{Element, ElementType, Process, Value, start_event, message_catch}
use bpmn_ai.Process.Instance.{Instance, new_instance, transition, set_variable, new_thread}
use bpmn_ai.Process.State.{in_progress, same}
use bpmn_ai.Records.{FlowRecord, InstanceRecord, FlowStatus}
use bpmn_ai.Records

abbrev pub is_active : FlowStatus → Bool
is_active Records.FlowStatus.active = true
is_active _ = false

abbrev pub set_all : ℕ → Dict Value → Instance → Instance
set_all now [] i = i
set_all now ((k, v) ∷ vs) i = set_all now vs (set_variable now k v i)

module _ {S : Type 0} (E : Engine S) where
  open E use {ops, now}

  unfoldable pub begin_instance : M S (Unit {0})
  begin_instance = with_instance E λ i.
      when E (not (same i.state in_progress))
        (update "transition to in_progress" (transition now in_progress))

  -- The part of `Run` before the loop: the items that the loop starts with.
  unfoldable pub start : M S (List WorkItem)
  start = with_instance E λ i.
      if is_empty i.process.start_event_id
      then raise (message "process has no start event")
      else (begin_instance >> (do
        f ←
            create "create initial flow"
              (ops.create_flow (create_flow_record i.id i.process.start_event_id start_event 1 ""))
        t ← create "create thread" (ops.create_thread (new_thread now i.id 1 none f.id))
        emit process_started
        pure (record { flow = f; thread_id = 1 } ∷ [])))

  -- `NewInstance` draws a new PIN; the rest comes from the record.
  unfoldable pub restored : InstanceRecord → Process → Instance
  restored rec proc = record (new_instance rec.id E.uuid now proc rec.variables) {
    state = rec.status;
    title = rec.title;
    started_at = rec.started_at;
    updated_at = rec.updated_at;
    finished_at = rec.finished_at;
  }

  pub cancel_each : String → List FlowRecord → M S (Unit {0})
  cancel_each attached [] = pure tt
  cancel_each attached (f ∷ fs) = do
    when E (f.element_id == attached && is_active f.status) (
        attempt (
          ops.update_flow
            (record f { status = Records.FlowStatus.completed; finished_at = some now })))
    cancel_each attached fs

  pub cancel_listed : String → Result (List FlowRecord) → M S (Unit {0})
  cancel_listed attached (err e) = pure tt
  cancel_listed attached (ok fs) = cancel_each attached fs

  unfoldable pub cancel_attached_flows : String → M S (Unit {0})
  unfolding cancel_listed cancel_each
  cancel_attached_flows attached l =
      cancel_listed attached (ops.get_flows_by_instance l.instance.id l.store) l

  unfoldable pub cancel_boundary : Option Element → M S (Unit {0})
  cancel_boundary none = pure tt
  cancel_boundary (some e) =
      when E (not (is_empty e.attached_to_ref) && e.cancel_activity)
        (cancel_attached_flows e.attached_to_ref)

  pub read : {A : Type 0} → String → (S → Result A) → M S A
  read s f l = (l, tag s (f l.store))

  pub resolution : Option (ExecutionContext × Bool) → M S Bool
  resolution none l = (l, err (message "panic"))
  resolution (some (c, b)) l = (record l { instance = c.instance }, ok b)

  -- `CheckAndResolve` on the loop's instance.
  unfoldable pub resolve : FlowRecord → M S Bool
  unfolding resolution
  resolve f l =
      resolution
        (check_and_resolve f.element_id
          (record { now = now; instance = l.instance; flow = f; flows_by_instance = λ id. ok [] }))
        l

  unfoldable pub create_items : String → String → List NextFlow → M S (List WorkItem)
  create_items id prev [] = pure []
  create_items id prev (n ∷ ns) = do
    f ←
        create "create flow"
          (ops.create_flow (create_flow_record id n.element_id n.element_type n.thread_id prev))
    ws ← create_items id prev ns
    pure (record { flow = f; thread_id = n.thread_id } ∷ ws)

  pub proceed : FlowRecord → List NextFlow → M S (List WorkItem)
  proceed f [] =
      with_instance E
        λ i. when E (is_end_event f.element_id i.process) (completes E >>= λ b. pure tt) >> pure []
  proceed f (n ∷ ns) = with_instance E λ i. create_items i.id f.id (n ∷ ns)

  pub decided : FlowRecord → Bool → M S (List WorkItem)
  decided f false = pure []
  decided f true = with_instance E λ i. proceed f (route (result routes f) i.process f.thread_id)

  -- The part of `Continue` before the loop. No item means that the instance is only stored.
  unfoldable pub resume : String → String → Dict Value → M S (List WorkItem)
  unfolding read decided proceed
  resume instance_id flow_id variables = do
    rec ← read "get instance" (ops.get_instance instance_id)
    proc ← read "get process" (ops.get_process rec.process_id)
    modify λ l. record l { instance = set_all now variables (restored rec proc) }
    update "transition to in_progress" (transition now in_progress)
    f ← read "get completed flow" (ops.get_flow flow_id)
    cancel_boundary (get f.element_id proc.elements)
    b ← resolve f
    decided f b

  abbrev is_message_catch : ElementType → Bool
  is_message_catch message_catch = true
  is_message_catch _ = false

  -- An active flow at a message catch that expects the message.
  unfoldable pub awaits : String → Process → FlowRecord → Bool
  awaits message_ref proc f = is_active f.status && elim (get f.element_id proc.elements) [
    | none ↦ false
    | some e ↦ is_message_catch e.type && e.event_definition.message_ref == message_ref
  ]

  pub deliver : String → Dict Value → Option FlowRecord → M S (List WorkItem)
  deliver instance_id variables none = raise (message "no waiting MessageCatch found")
  deliver instance_id variables (some f) = store_completed f >> resume instance_id f.id variables
    where
      stored_flow : Loop S → Result S → Loop S × Result (Unit {0})
      stored_flow l (ok s) = (record l { store = s }, ok tt)
      stored_flow l (err e) = (l, err e)

      store_completed : FlowRecord → M S (Unit {0})
      store_completed f l = stored_flow l (
          tag "update flow" (
            ops.update_flow
              (record f { status = Records.FlowStatus.completed; finished_at = some now }) l.store))

  unfoldable pub send_message : String → String → Dict Value → M S (List WorkItem)
  unfolding deliver
  send_message instance_id message_ref variables = do
    rec ← read "get instance" (ops.get_instance instance_id)
    proc ← read "get process" (ops.get_process rec.process_id)
    flows ← read "get instance flows" (ops.get_flows_by_instance instance_id)
    deliver instance_id variables (find? (awaits message_ref proc) flows)

module _ {S : Type 0} (engine : Engine S) (registry : Registry) (max_timeout max_loops : ℕ) where
  -- The loop at its start.
  unfoldable pub begin : List WorkItem → Loop S → Running S
  begin ws l = record {
    loop = record l { pending = length ws; work = ws; errors = [] };
    in_flight = [];
    results = [];
    failsafe = FailSafe.new engine.now max_timeout max_loops;
    status = running;
  }

  pub begin_started : Loop S × Result (List WorkItem) → Running S
  unfolding begin
  begin_started (l, ok ws) = begin ws l
  begin_started (l, err e) = record (begin [] l) { status = ended (err e) }

  pub begin_resumed : Loop S × Result (List WorkItem) → Running S
  unfolding begin
  begin_resumed (l, ok []) = finalize_instance engine registry (begin [] l)
  begin_resumed (l, ok (w ∷ ws)) = begin (w ∷ ws) l
  begin_resumed (l, err e) = record (begin [] l) { status = ended (err e) }

  -- `Run` with the moves of its loop.
  unfoldable pub run : List (Moment × Move) → Loop S → Running S
  unfolding begin_started
  run vs l = run_moves engine registry vs (begin_started (start engine l))

  -- `Continue` with the moves of its loop.
  unfoldable pub continue : List (Moment × Move) → String → String → Dict Value → Loop S → Running S
  unfolding begin_resumed
  continue vs instance_id flow_id variables l =
      run_moves engine registry vs (begin_resumed (resume engine instance_id flow_id variables l))

  -- `SendMessage` with the moves of the loop that it starts.
  unfoldable pub send : List (Moment × Move) → String → String → Dict Value → Loop S → Running S
  unfolding begin_resumed
  send vs instance_id message_ref variables l =
      run_moves engine registry vs
        (begin_resumed (send_message engine instance_id message_ref variables l))
