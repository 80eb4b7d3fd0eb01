-- ===== src/Engine/Loop.antt =====
-- internal/engine/engine.go, `runLoop` and `worker`. The goroutines are a list of moves: a worker
-- takes the next item, a worker finishes one, the loop receives a result or an error, or the
-- context ends. A move that is not possible does nothing, and nothing moves once the loop has
-- returned; what the workers still do while it waits for them then is left out. A worker that finds
-- the context done drops its item: such an item is one that it never finishes. A result waits for
-- room in its channel of 1024, with a worker that takes no other item meanwhile. The work channel is
-- a list without its bound of 1024: a send that would wait for room is taken to happen at once, so
-- that a run in which the loop and the workers wait for each other is none of the model's.
pub mod Counting
pub mod Progress
use bpmn_ai.Base.{
  ℕ, zero, suc, ◌+◌, ◌-◌, String, Bool, true, false, List, [], ◌∷◌, ◌++◌, Option, none, some,
  length, ltb, nat_eq, if◌then◌else◌,
}
use bpmn_ai.Element.{ExecutionResult, Action, error}
use bpmn_ai.Engine.Execute.{execute_element}
use bpmn_ai.Engine.FailSafe.{FailSafe, check}
use bpmn_ai.Engine.Handle.{handle_result}
use bpmn_ai.Engine.Registry.{Registry}
use bpmn_ai.Engine.State.{WorkItem, Loop, Engine}
use bpmn_ai.Errors.{Error, Result, ok, err, after, execution_timeout, context_done}
use bpmn_ai.Process.Instance.{Instance, transition, to_record}
use bpmn_ai.Process.State

pub data Status : Type 0 where
  running blocked : Status
  ended : Result (Unit {0}) → Status

pub record Running (S : Type 0) : Type 0 where
  pub loop : Loop S
  pub in_flight : List WorkItem
  pub results : List ExecutionResult
  pub failsafe : FailSafe
  pub status : Status

-- What the outside gives a move: the time, whether the context is done, an identifier, and the
-- duration of an execution.
pub record Moment : Type 0 where
  pub now : ℕ
  pub done : Bool
  pub uuid : String
  pub duration : ℕ

pub data Move : Type 0 where
  take receive receive_error time_out cancel : Move
  finish : ℕ → Move

abbrev pub kept : WorkItem → Option (WorkItem × List WorkItem) → Option (WorkItem × List WorkItem)
kept w none = none
kept w (some (v, vs)) = some (v, w ∷ vs)

-- The item at a position, and the others.
abbrev pub pick : ℕ → List WorkItem → Option (WorkItem × List WorkItem)
pick n [] = none
pick zero (w ∷ ws) = some (w, ws)
pick (suc n) (w ∷ ws) = kept w (pick n ws)

abbrev pub is_error : Action → Bool
is_error error = true
is_error _ = false

module _ {S : Type 0} (engine : Engine S) (registry : Registry) where
  -- The engine as a move finds it.
  abbrev at : Moment → Engine S
  at m = record engine { now = m.now; done = m.done; uuid = m.uuid }

  pub take_next : Running S → List WorkItem → Running S
  take_next r [] = r
  take_next r (w ∷ ws) =
      if ltb (length r.in_flight) engine.worker_count
      then record r { loop = record r.loop { work = ws }; in_flight = r.in_flight ++ w ∷ [] }
      else r

  pub finished : List WorkItem → Running S → Loop S × ExecutionResult → Running S
  finished rest r (l, x) = record r { loop = l; in_flight = rest; results = r.results ++ x ∷ [] }

  pub finish_picked : Moment → Running S → Option (WorkItem × List WorkItem) → Running S
  unfolding finished
  finish_picked m r none = r
  finish_picked m r (some (w, rest)) =
      if ltb (length r.results) 1024
      then finished rest r (execute_element (at m) registry m.duration w.flow r.loop)
      else r

  abbrev pub stop : Result (Unit {0}) → Running S → Running S
  stop e r = record r { status = ended e }

  -- `instance.Transition(process.StateError)`, whose error is dropped.
  pub to_error : ℕ → Running S → Running S
  to_error now r =
      let i = r.loop.instance in
      record r { loop = record r.loop { instance = after i (transition now State.error i) } }

  pub finalized : Running S → Result S → Running S
  finalized r (ok s) = stop (ok tt) (record r { loop = record r.loop { store = s } })
  finalized r (err e) = stop (err e) r

  pub finalize_instance : Running S → Running S
  unfolding finalized
  finalize_instance r =
      finalized r (engine.ops.update_instance (to_record r.loop.instance) r.loop.store)

  -- `err := <-errCh`, which waits if there is none.
  pub return_error : Running S → List Error → Running S
  return_error r [] = record r { status = blocked }
  return_error r (e ∷ es) = stop (err e) (record r { loop = record r.loop { errors = es } })

  pub settle : Action → Running S → Running S
  unfolding return_error finalize_instance
  settle a r =
      if is_error a
      then return_error r r.loop.errors
      else if nat_eq r.loop.pending 0
      then finalize_instance r
      else r

  pub handled : Action → Running S → Loop S × Result (Unit {0}) → Running S
  unfolding settle
  handled a r (l, ok u) = settle a (record r { loop = l })
  handled a r (l, err e) = stop (err e) (record r { loop = l })

  pub checked : Moment → ExecutionResult → Running S → FailSafe × Option Error → Running S
  unfolding handled to_error
  checked m x r (f, some e) = stop (err e) (to_error m.now (record r { failsafe = f }))
  checked m x r (f, none) =
      handled x.action (record r { failsafe = f }) (handle_result (at m) x r.loop)

  pub receive_next : Moment → Running S → List ExecutionResult → Running S
  unfolding checked
  receive_next m r [] = r
  receive_next m r (x ∷ xs) =
      checked m x (record r { results = xs; loop = record r.loop { pending = r.loop.pending - 1 } })
        (check m.now x.flow_data.element_id r.failsafe)

  pub receive_next_error : Running S → List Error → Running S
  receive_next_error r [] = r
  receive_next_error r (e ∷ es) = stop (err e) (record r { loop = record r.loop { errors = es } })

  pub timed_out : Moment → Running S → Running S
  unfolding to_error
  timed_out m r =
      stop (err (execution_timeout r.failsafe.max_timeout r.failsafe.max_timeout))
        (to_error m.now r)

  pub move : Moment → Move → Running S → Running S
  unfolding take_next finish_picked receive_next receive_next_error timed_out
  move m take r = take_next r r.loop.work
  move m (finish n) r = finish_picked m r (pick n r.in_flight)
  move m receive r = receive_next m r r.results
  move m receive_error r = receive_next_error r r.loop.errors
  move m time_out r = timed_out m r
  move m cancel r = stop (err context_done) r

  unfoldable pub step : Status → Moment → Move → Running S → Running S
  unfolding move
  step running m v r = move m v r
  step blocked m v r = r
  step (ended e) m v r = r

  unfoldable pub run_moves : List (Moment × Move) → Running S → Running S
  unfolding step
  run_moves [] r = r
  run_moves ((m, v) ∷ vs) r = run_moves vs (step r.status m v r)
