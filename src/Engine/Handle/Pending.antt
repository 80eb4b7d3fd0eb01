-- ===== src/Engine/Handle/Pending.antt =====
-- internal/engine/engine.go: the count of pending work that `handleResult` and its steps keep.
use bpmn_ai.Base.{String, List, [], ◌∷◌, Option, none, some, refl}
use bpmn_ai.Element.{
  ExecutionResult, Action, route as routes, wait, form, error, complete, skip, queue, terminate,
  throw_error, call_activity,
}
use bpmn_ai.Engine.Handle
use bpmn_ai.Engine.Send
use bpmn_ai.Engine.Handle.Balance.{
  Balanced, counted, failed, IsBalanced, bind-IsBalanced, then-IsBalanced, pure-IsBalanced,
  raise-IsBalanced, emit-IsBalanced, update-IsBalanced, attempt-IsBalanced, if-IsBalanced,
}
use bpmn_ai.Engine.Router.{NextFlow}
use bpmn_ai.Engine.State.{Loop, Engine, modify}
use bpmn_ai.Errors.{Error, Result, ok, err}
use bpmn_ai.Model.{Element, Process}
use bpmn_ai.Process.Instance.{Instance}
use bpmn_ai.Records.{FlowRecord, ThreadRecord}
use bpmn_ai.Engine.Handle.Sends.{
  when-IsBalanced, with_instance-IsBalanced, create_and_send-IsBalanced, enqueue_flow-IsBalanced,
  enqueue_all-IsBalanced, completes-IsBalanced, fork-IsBalanced, boundary_timers-IsBalanced,
  schedule_continuation-IsBalanced,
}

module _ {S : Type 0} (E : Engine S) where
  follow-IsBalanced : (ns : List NextFlow) (f : FlowRecord) → IsBalanced (Handle.follow E ns f)
  unfolding Handle.follow Send.ignoring
  follow-IsBalanced [] f = with_instance-IsBalanced E _ (λ i.
      when-IsBalanced E _ _
        (bind-IsBalanced _ _ (completes-IsBalanced E) (λ b. pure-IsBalanced tt)))
  follow-IsBalanced (n ∷ []) f = enqueue_flow-IsBalanced E n f.thread_id f.id
  follow-IsBalanced (n ∷ m ∷ ns) f = fork-IsBalanced E (n ∷ m ∷ ns) f

  handle_route-IsBalanced : (r : ExecutionResult) → IsBalanced (Handle.handle_route E r)
  unfolding Handle.handle_route
  handle_route-IsBalanced r = with_instance-IsBalanced E _ (λ i. follow-IsBalanced _ r.flow_data)

  handle_wait-IsBalanced : (r : ExecutionResult) → IsBalanced (Handle.handle_wait E r)
  unfolding Handle.handle_wait
  handle_wait-IsBalanced r = then-IsBalanced _ _ (update-IsBalanced _ _) (
      then-IsBalanced _ _ (schedule_continuation-IsBalanced E r r.continue_at) (
        then-IsBalanced _ _ (emit-IsBalanced _)
          (with_instance-IsBalanced E _ (λ i. boundary_timers-IsBalanced E i r.flow_data _))))

  push_error-IsBalanced : (e : Option Error) → IsBalanced (Handle.push_error E e)
  unfolding Handle.push_error modify
  push_error-IsBalanced none = pure-IsBalanced tt
  push_error-IsBalanced (some e) = record { at = λ l. counted refl }

  handle_error-IsBalanced : (r : ExecutionResult) → IsBalanced (Handle.handle_error E r)
  unfolding Handle.handle_error
  handle_error-IsBalanced r =
      then-IsBalanced _ _ (update-IsBalanced _ _)
        (then-IsBalanced _ _ (emit-IsBalanced _) (push_error-IsBalanced r.error))

  completion-IsBalanced : IsBalanced (Handle.completion E)
  unfolding Handle.completion
  completion-IsBalanced =
      bind-IsBalanced _ _ (completes-IsBalanced E) (λ b. when-IsBalanced E b _ (emit-IsBalanced _))

  handle_complete-IsBalanced : (r : ExecutionResult) → IsBalanced (Handle.handle_complete E r)
  unfolding Handle.handle_complete
  handle_complete-IsBalanced r =
      with_instance-IsBalanced E _ (λ i. when-IsBalanced E _ _ completion-IsBalanced)

  caught-IsBalanced :
      (r : ExecutionResult) (code : String) (c : Option (String × Element))
      → IsBalanced (Handle.caught E r code c)
  unfolding Handle.caught
  caught-IsBalanced r code none =
      then-IsBalanced _ _ (update-IsBalanced _ _)
        (then-IsBalanced _ _ (push_error-IsBalanced _) (emit-IsBalanced _))
  caught-IsBalanced r code (some (id, e)) =
      with_instance-IsBalanced E _ (λ i. create_and_send-IsBalanced E _ _ _)

  thrown-IsBalanced :
      (r : ExecutionResult) (i : Instance) (e : Option Element) → IsBalanced (Handle.thrown E r i e)
  unfolding Handle.thrown
  thrown-IsBalanced r i none = raise-IsBalanced _
  thrown-IsBalanced r i (some e) = caught-IsBalanced r _ _

  handle_throw-IsBalanced : (r : ExecutionResult) → IsBalanced (Handle.handle_throw E r)
  unfolding Handle.handle_throw
  handle_throw-IsBalanced r = with_instance-IsBalanced E _ (λ i. thrown-IsBalanced r i _)

  pass_through-IsBalanced : (r : ExecutionResult) → IsBalanced (Handle.pass_through E r)
  unfolding Handle.pass_through
  pass_through-IsBalanced r = with_instance-IsBalanced E _ (λ i. enqueue_all-IsBalanced E _ _ _)

  adopt-IsBalanced : (id : String) (p : Process) → IsBalanced (Handle.adopt E id p)
  unfolding Handle.adopt modify
  adopt-IsBalanced id p = record { at = λ l. counted refl }

  start_called-IsBalanced : (f : FlowRecord) (p : Process) → IsBalanced (Handle.start_called E f p)
  unfolding Handle.start_called Handle.enter_called
  start_called-IsBalanced f p = if-IsBalanced _ _ _ (raise-IsBalanced _) (
      then-IsBalanced _ _ (adopt-IsBalanced f.element_id p)
        (with_instance-IsBalanced E _ (λ i. create_and_send-IsBalanced E _ _ _)))

  kept-Balanced : {A : Type 0} (l : Loop S) (r : Result A) → Balanced l (l, r)
  kept-Balanced l (ok a) = counted refl
  kept-Balanced l (err e) = failed

  load-IsBalanced : (id : String) → IsBalanced (Handle.load E id)
  unfolding Handle.load
  load-IsBalanced id = record { at = λ l. kept-Balanced l _ }

  handle_call-IsBalanced : (r : ExecutionResult) → IsBalanced (Handle.handle_call E r)
  unfolding Handle.handle_call
  handle_call-IsBalanced r =
      if-IsBalanced _ _ _ (pass_through-IsBalanced r) (
        bind-IsBalanced _ _ (load-IsBalanced r.called_element)
          (start_called-IsBalanced r.flow_data))

  handle_queue-IsBalanced : (r : ExecutionResult) → IsBalanced (Handle.handle_queue E r)
  unfolding Handle.handle_queue Handle.queue_job
  handle_queue-IsBalanced r = with_instance-IsBalanced E _ (λ i.
      then-IsBalanced _ _ (attempt-IsBalanced _)
        (then-IsBalanced _ _ (emit-IsBalanced _) (pass_through-IsBalanced r)))

  close_threads-IsBalanced :
      (id : String) (ts : List ThreadRecord) → IsBalanced (Handle.close_threads E id ts)
  unfolding Handle.close_threads
  close_threads-IsBalanced id [] = pure-IsBalanced tt
  close_threads-IsBalanced id (t ∷ ts) =
      then-IsBalanced _ _ (attempt-IsBalanced _) (close_threads-IsBalanced id ts)

  close_all-IsBalanced : IsBalanced (Handle.close_all E)
  unfolding Handle.close_all
  close_all-IsBalanced = record { at = λ l. (close_threads-IsBalanced l.instance.id _).at l }

  handle_terminate-IsBalanced : (r : ExecutionResult) → IsBalanced (Handle.handle_terminate E r)
  unfolding Handle.handle_terminate
  handle_terminate-IsBalanced r = then-IsBalanced _ _ (update-IsBalanced _ _) (
      then-IsBalanced _ _ (emit-IsBalanced _)
        (then-IsBalanced _ _ close_all-IsBalanced (raise-IsBalanced _)))

  dispatch-IsBalanced : (a : Action) (r : ExecutionResult) → IsBalanced (Handle.dispatch E a r)
  unfolding Handle.dispatch
  dispatch-IsBalanced routes r = handle_route-IsBalanced r
  dispatch-IsBalanced wait r = handle_wait-IsBalanced r
  dispatch-IsBalanced form r = handle_wait-IsBalanced r
  dispatch-IsBalanced error r = handle_error-IsBalanced r
  dispatch-IsBalanced complete r = handle_complete-IsBalanced r
  dispatch-IsBalanced throw_error r = handle_throw-IsBalanced r
  dispatch-IsBalanced terminate r = handle_terminate-IsBalanced r
  dispatch-IsBalanced call_activity r = handle_call-IsBalanced r
  dispatch-IsBalanced queue r = handle_queue-IsBalanced r
  dispatch-IsBalanced skip r = pure-IsBalanced tt

  -- For every action and on every path, a handled result that returns no error has counted each item
  -- that it sent.
  pub handle_result-IsBalanced : (r : ExecutionResult) → IsBalanced (Handle.handle_result E r)
  unfolding Handle.handle_result Handle.log_execution
  handle_result-IsBalanced r =
      then-IsBalanced _ _ (dispatch-IsBalanced r.action r)
        (with_instance-IsBalanced E _ (λ i. attempt-IsBalanced _))
