-- ===== src/Engine/Jobs.antt =====
-- internal/engine/engine.go: the jobs that a step schedules, and `scheduleBoundaryTimers`.
use bpmn_ai.Base.{
  ℕ, String, ◌==◌, List, [], ◌∷◌, Option, none, some, nat_eq, is_empty, if◌then◌else◌,
}
use bpmn_ai.Base.Dict.{Dict}
use bpmn_ai.Element.{ExecutionResult}
use bpmn_ai.Engine.Router.{create_flow_record}
use bpmn_ai.Engine.State.{job_queued, Engine, M, ◌>>◌, pure, attempt, emit}
use bpmn_ai.Errors.{Result, ok, err}
use bpmn_ai.Model.{Element, ElementType, Value, text, bool, timer_event, message_catch}
use bpmn_ai.Process.Instance.{Instance}
use bpmn_ai.Queue.{enqueue}
use bpmn_ai.Records.{FlowRecord, ThreadRecord, JobRecord, ExecutionLogEntry}
use bpmn_ai.Records
use bpmn_ai.Engine.Send.{with_instance, when}

-- A job of an instance's flow, before the store fills it in.
abbrev pub new_job : String → String → String → ℕ → Dict Value → JobRecord
new_job instance_id flow_id type at payload = record {
  id = "";
  instance_id = instance_id;
  flow_id = flow_id;
  type = type;
  payload = payload;
  status = Records.JobStatus.unset;
  retry_count = 0;
  max_retries = 0;
  scheduled_at = at;
  executed_at = none;
  error_message = "";
  created_at = 0;
}

abbrev pub ignore : {S : Type 0} → Result (JobRecord × S) → Result S
ignore (ok (j, s)) = ok s
ignore (err e) = err e

abbrev created : {S : Type 0} → Result (FlowRecord × S) → Result S
created (ok (f, s)) = ok s
created (err e) = err e

module _ {S : Type 0} (E : Engine S) where
  open E use {ops, now}

  -- `Enqueue` of the queue if the engine has one, else `CreateJob`; an error is logged or dropped.
  unfoldable pub schedule : JobRecord → M S (Unit {0})
  schedule j = attempt λ s. elim E.queue [
    | none ↦ ignore (ops.create_job j s)
    | some wp ↦ ignore (enqueue now wp j s)
  ]

  unfoldable pub schedule_continuation : ExecutionResult → Option ℕ → M S (Unit {0})
  unfolding schedule
  schedule_continuation r none = pure tt
  schedule_continuation r (some at) =
      if nat_eq at 0
      then pure tt
      else with_instance E λ i. do
        schedule (
            new_job i.id r.flow_data.id "timer_continue" at (
              ("element_id", text r.flow_data.element_id)
              ∷ ("instance_id", text i.id)
              ∷ ("flow_id", text r.flow_data.id)
              ∷ []))
        emit job_queued

  abbrev pub boundary_flow : Instance → Element → FlowRecord → FlowRecord
  boundary_flow i e f = create_flow_record i.id e.id e.type f.thread_id f.id

  unfoldable pub schedule_timer :
      Instance → Element → FlowRecord → Result (FlowRecord × S) → ℕ → M S (Unit {0})
  unfolding schedule
  schedule_timer i e f (err x) at l = (l, ok tt)
  schedule_timer i e f (ok (g, s)) at l =
      schedule
        (new_job i.id g.id "timer_continue" at (
          ("element_id", text e.id)
          ∷ ("instance_id", text i.id)
          ∷ ("flow_id", text g.id)
          ∷ ("attached_to", text f.element_id)
          ∷ ("cancel_on_fire", bool e.cancel_activity)
          ∷ []))
        (record l { store = s })

  unfoldable pub schedule_at : Instance → Element → FlowRecord → Option ℕ → M S (Unit {0})
  unfolding schedule_timer
  schedule_at i e f none l = (l, ok tt)
  schedule_at i e f (some at) l =
      schedule_timer i e f (ops.create_flow (boundary_flow i e f) l.store) at l

  -- The body of the loop for a boundary event that is attached to the element.
  unfoldable pub schedule_boundary : ElementType → Instance → Element → FlowRecord → M S (Unit {0})
  unfolding schedule_at
  schedule_boundary timer_event i e f =
      if is_empty e.event_definition.timer_value
      then pure tt
      else schedule_at i e f
          (E.calculate_schedule e.event_definition.timer_type e.event_definition.timer_value)
  schedule_boundary message_catch i e f =
      attempt λ s. created (ops.create_flow (boundary_flow i e f) s)
  schedule_boundary _ i e f = pure tt

  unfoldable pub boundary_timers : Instance → FlowRecord → List Element → M S (Unit {0})
  unfolding schedule_boundary
  boundary_timers i f [] = pure tt
  boundary_timers i f (e ∷ es) = do
    when E (e.attached_to_ref == f.element_id) (schedule_boundary e.type i e f)
    boundary_timers i f es
