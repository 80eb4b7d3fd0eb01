-- ===== src/Engine/Handle/Sends.antt =====
-- internal/engine/engine.go: the count that the steps keep which make flows, items and jobs.
use bpmn_ai.Base.{ℕ, String, Bool, true, false, List, [], ◌∷◌, Option, none, some, refl}
use bpmn_ai.Element.{ExecutionResult}
use bpmn_ai.Engine.Jobs
use bpmn_ai.Engine.Send
use bpmn_ai.Engine.Handle.Balance.{
  Balanced, counted, failed, IsBalanced, bind-IsBalanced, then-IsBalanced, pure-IsBalanced,
  emit-IsBalanced, create-IsBalanced, attempt-IsBalanced, if-IsBalanced, sent,
}
use bpmn_ai.Engine.Router.{NextFlow}
use bpmn_ai.Engine.State.{WorkItem, Loop, Engine, M, attempt}
use bpmn_ai.Errors.{Result, ok, err}
use bpmn_ai.Model.{Element, ElementType, timer_event, message_catch}
use bpmn_ai.Process.Instance.{Instance}
use bpmn_ai.Records.{FlowRecord, JobRecord}

module _ {S : Type 0} (E : Engine S) where
  pub when-IsBalanced :
      (b : Bool) (m : M S (Unit {0})) → IsBalanced m → IsBalanced (Send.when E b m)
  unfolding Send.when
  when-IsBalanced true m h = h
  when-IsBalanced false m h = pure-IsBalanced tt

  pub with_instance-IsBalanced :
      {A : Type 0} (f : Instance → M S A)
      → ((i : Instance) → IsBalanced (f i))
      → IsBalanced (Send.with_instance E f)
  unfolding Send.with_instance
  with_instance-IsBalanced f h = record { at = λ l. (h l.instance).at l }

  pub sent-Balanced : (b : Bool) (w : WorkItem) (l : Loop S) → Balanced l (Send.sent E b w l)
  unfolding Send.sent
  sent-Balanced true w l = failed
  sent-Balanced false w l = counted (sent w l)

  pub send-IsBalanced : (w : WorkItem) → IsBalanced (Send.send E w)
  unfolding Send.send
  send-IsBalanced w = record { at = λ l. sent-Balanced E.done w l }

  pub create_and_send-IsBalanced :
      (s : String) (f : FlowRecord) (k : ℕ) → IsBalanced (Send.create_and_send E s f k)
  unfolding Send.create_and_send
  create_and_send-IsBalanced s f k =
      bind-IsBalanced _ _ (create-IsBalanced s _) (λ flow. send-IsBalanced _)

  pub enqueue_flow-IsBalanced :
      (n : NextFlow) (k : ℕ) (prev : String) → IsBalanced (Send.enqueue_flow E n k prev)
  unfolding Send.enqueue_flow
  enqueue_flow-IsBalanced n k prev =
      with_instance-IsBalanced _ (λ i. create_and_send-IsBalanced _ _ _)

  pub enqueue_all-IsBalanced :
      (ns : List NextFlow) (k : ℕ) (prev : String) → IsBalanced (Send.enqueue_all E ns k prev)
  unfolding Send.enqueue_all
  enqueue_all-IsBalanced [] k prev = pure-IsBalanced tt
  enqueue_all-IsBalanced (n ∷ ns) k prev =
      then-IsBalanced _ _ (enqueue_flow-IsBalanced n k prev) (enqueue_all-IsBalanced ns k prev)

  pub number_thread-IsBalanced : IsBalanced (Send.number_thread E)
  unfolding Send.number_thread
  number_thread-IsBalanced = record { at = λ l. counted refl }

  pub completes-IsBalanced : IsBalanced (Send.completes E)
  unfolding Send.completes
  completes-IsBalanced = record { at = λ l. counted refl }

  pub store_thread-IsBalanced :
      (k : ℕ) (parent : Option ℕ) (flow_id : String)
      → IsBalanced (Send.store_thread E k parent flow_id)
  unfolding Send.store_thread
  store_thread-IsBalanced k parent flow_id =
      with_instance-IsBalanced _
        (λ i. bind-IsBalanced _ _ (create-IsBalanced _ _) (λ t. pure-IsBalanced tt))

  pub fork-IsBalanced : (ns : List NextFlow) (f : FlowRecord) → IsBalanced (Send.fork E ns f)
  unfolding Send.fork
  fork-IsBalanced [] f = pure-IsBalanced tt
  fork-IsBalanced (n ∷ ns) f = bind-IsBalanced _ _ number_thread-IsBalanced (λ k.
      then-IsBalanced _ _ (store_thread-IsBalanced k (some f.thread_id) n.flow_id)
        (then-IsBalanced _ _ (enqueue_flow-IsBalanced n k f.id) (fork-IsBalanced ns f)))

  pub schedule-IsBalanced : (j : JobRecord) → IsBalanced (Jobs.schedule E j)
  unfolding Jobs.schedule
  schedule-IsBalanced j = attempt-IsBalanced _

  pub schedule_timer-IsBalanced :
      (i : Instance) (e : Element) (f : FlowRecord) (r : Result (FlowRecord × S)) (at : ℕ)
      (l : Loop S)
      → Balanced l (Jobs.schedule_timer E i e f r at l)
  unfolding Jobs.schedule_timer Jobs.schedule attempt
  schedule_timer-IsBalanced i e f (err x) at l = counted refl
  schedule_timer-IsBalanced i e f (ok (g, s)) at l = counted refl

  pub schedule_at-IsBalanced :
      (i : Instance) (e : Element) (f : FlowRecord) (at : Option ℕ)
      → IsBalanced (Jobs.schedule_at E i e f at)
  unfolding Jobs.schedule_at
  schedule_at-IsBalanced i e f none = record { at = λ l. counted refl }
  schedule_at-IsBalanced i e f (some at) = record {
    at = λ l. schedule_timer-IsBalanced i e f _ at l;
  }

  pub schedule_boundary-IsBalanced :
      (t : ElementType) (i : Instance) (e : Element) (f : FlowRecord)
      → IsBalanced (Jobs.schedule_boundary E t i e f)
  unfolding Jobs.schedule_boundary
  schedule_boundary-IsBalanced timer_event i e f =
      if-IsBalanced _ _ _ (pure-IsBalanced tt) (schedule_at-IsBalanced i e f _)
  schedule_boundary-IsBalanced message_catch i e f = attempt-IsBalanced _
  schedule_boundary-IsBalanced _ i e f = pure-IsBalanced tt

  pub boundary_timers-IsBalanced :
      (i : Instance) (f : FlowRecord) (es : List Element)
      → IsBalanced (Jobs.boundary_timers E i f es)
  unfolding Jobs.boundary_timers
  boundary_timers-IsBalanced i f [] = pure-IsBalanced tt
  boundary_timers-IsBalanced i f (e ∷ es) =
      then-IsBalanced _ _ (when-IsBalanced _ _ (schedule_boundary-IsBalanced e.type i e f))
        (boundary_timers-IsBalanced i f es)

  pub schedule_continuation-IsBalanced :
      (r : ExecutionResult) (at : Option ℕ) → IsBalanced (Jobs.schedule_continuation E r at)
  unfolding Jobs.schedule_continuation
  schedule_continuation-IsBalanced r none = pure-IsBalanced tt
  schedule_continuation-IsBalanced r (some at) = if-IsBalanced _ _ _ (pure-IsBalanced tt) (
      with_instance-IsBalanced _
        (λ i. then-IsBalanced _ _ (schedule-IsBalanced _) (emit-IsBalanced _)))
