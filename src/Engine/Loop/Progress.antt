-- ===== src/Engine/Loop/Progress.antt =====
-- internal/engine/engine.go, `runLoop`: what its checks have let pass.
use bpmn_ai.Base.{
  ℕ, ◌-◌, String, List, [], ◌∷◌, Option, none, some, length, ltb, ◌≡◌, refl, sym, arith, ◌⊎◌, inl,
  inr, Bool-cases, ◌≢◌, ◌++◌, nat_eq,
}
use mathlib.Core.Path.{subst}
use bpmn_ai.Element.{ExecutionResult, Action}
use bpmn_ai.Engine.FailSafe.{FailSafe, check, check_all}
use bpmn_ai.Engine.Loop
use bpmn_ai.Engine.Loop.{
  Status, running, blocked, ended, Running, Moment, Move, take, receive, receive_error, time_out,
  cancel, finish,
}
use bpmn_ai.Engine.Registry.{Registry}
use bpmn_ai.Engine.State.{WorkItem, Loop as Data, Engine}
use bpmn_ai.Errors.{Error, Result, ok, err}

running-cases : (t : Status) → (t ≡ running) ⊎ (t ≢ running)
running-cases running = inl refl
running-cases blocked = inr (λ h. ground arith)
running-cases (ended e) = inr (λ h. ground arith)

check_all-cons :
    (now : ℕ) (id : String) (rest : List (ℕ × String)) (f g : FailSafe)
    → check now id f ≡ (g, none)
    → (check_all rest g).1 ≡ none
    → (check_all ((now, id) ∷ rest) f).1 ≡ none
unfolding check_all
check_all-cons now id rest f g h k = rw (check_all, h, h) k

abbrev first_of : ℕ → List ExecutionResult → List (ℕ × String)
first_of now [] = []
first_of now (x ∷ xs) = (now, x.flow_data.element_id) ∷ []

-- The element of the result that a move makes the loop receive, with the time.
abbrev pub heard : {S : Type 0} → Moment → Move → Running S → List (ℕ × String)
heard m receive r = first_of m.now r.results
heard m take r = []
heard m (finish n) r = []
heard m receive_error r = []
heard m time_out r = []
heard m cancel r = []

module _ {S : Type 0} (engine : Engine S) (registry : Registry) where
  -- The elements of the results that the loop receives while it runs.
  unfoldable pub received : List (Moment × Move) → Running S → List (ℕ × String)
  received [] r = []
  received ((m, v) ∷ vs) r = heard m v r ++ received vs (Loop.step engine registry r.status m v r)

  step-running :
      (t : Status) (m : Moment) (v : Move) (r : Running S)
      → t ≡ running
      → Loop.step engine registry t m v r ≡ Loop.move engine registry m v r
  unfolding Loop.step
  step-running running m v r h = refl
  step-running blocked m v r h = ground arith
  step-running (ended e) m v r h = ground arith

  step-stopped :
      (t : Status) (m : Moment) (v : Move) (r : Running S)
      → t ≢ running
      → Loop.step engine registry t m v r ≡ r
  unfolding Loop.step
  step-stopped running m v r h = ground arith
  step-stopped blocked m v r h = refl
  step-stopped (ended e) m v r h = refl

  run_moves-stopped :
      (vs : List (Moment × Move)) (r : Running S)
      → r.status ≢ running
      → (Loop.run_moves engine registry vs r).status ≢ running
  unfolding Loop.run_moves
  run_moves-stopped [] r h = h
  run_moves-stopped ((m, v) ∷ vs) r h =
      subst (λ q. (Loop.run_moves engine registry vs q).status ≢ running)
        (sym (step-stopped r.status m v r h)) (run_moves-stopped vs r h)

  take_next-failsafe :
      (r : Running S) (ws : List WorkItem)
      → (Loop.take_next engine registry r ws).failsafe ≡ r.failsafe
  unfolding Loop.take_next
  take_next-failsafe r [] = refl
  take_next-failsafe r (w ∷ ws) = elim (Bool-cases (ltb (length r.in_flight) engine.worker_count)) [
    | inl e ↦ rw e
    | inr e ↦ rw e
  ]

  finish_picked-failsafe :
      (m : Moment) (r : Running S) (p : Option (WorkItem × List WorkItem))
      → (Loop.finish_picked engine registry m r p).failsafe ≡ r.failsafe
  unfolding Loop.finish_picked Loop.finished
  finish_picked-failsafe m r none = refl
  finish_picked-failsafe m r (some (w, rest)) = elim (Bool-cases (ltb (length r.results) 1024)) [
    | inl e ↦ rw e
    | inr e ↦ rw e
  ]

  receive_next_error-failsafe :
      (r : Running S) (es : List Error)
      → (Loop.receive_next_error engine registry r es).failsafe ≡ r.failsafe
  unfolding Loop.receive_next_error
  receive_next_error-failsafe r [] = refl
  receive_next_error-failsafe r (e ∷ es) = refl

  finalized-failsafe :
      (r : Running S) (s : Result S) → (Loop.finalized engine registry r s).failsafe ≡ r.failsafe
  unfolding Loop.finalized
  finalized-failsafe r (ok s) = refl
  finalized-failsafe r (err e) = refl

  return_error-failsafe :
      (r : Running S) (es : List Error)
      → (Loop.return_error engine registry r es).failsafe ≡ r.failsafe
  unfolding Loop.return_error
  return_error-failsafe r [] = refl
  return_error-failsafe r (e ∷ es) = refl

  settle-failsafe :
      (a : Action) (r : Running S) → (Loop.settle engine registry a r).failsafe ≡ r.failsafe
  unfolding Loop.settle Loop.finalize_instance
  settle-failsafe a r = elim (Bool-cases (Loop.is_error a)) [
    | inl e ↦ rw e (return_error-failsafe r r.loop.errors)
    | inr e ↦ elim (Bool-cases (nat_eq r.loop.pending 0)) [
      | inl z ↦ rw (e, z) (finalized-failsafe r _)
      | inr z ↦ rw (e, z)
    ]
  ]

  handled-failsafe :
      (a : Action) (r : Running S) (l : Data S × Result (Unit {0}))
      → (Loop.handled engine registry a r l).failsafe ≡ r.failsafe
  unfolding Loop.handled
  handled-failsafe a r (l, ok u) = settle-failsafe a (record r { loop = l })
  handled-failsafe a r (l, err e) = refl

  abbrev Passes : List (ℕ × String) → FailSafe → Type 0
  Passes rs f = (check_all rs f).1 ≡ none

  checked-Passes :
      (m : Moment) (x : ExecutionResult) (r : Running S) (f : FailSafe)
      (c : FailSafe × Option Error) (rest : List (ℕ × String))
      → check m.now x.flow_data.element_id f ≡ c
      → (Loop.checked engine registry m x r c).status ≡ running
      → Passes rest (Loop.checked engine registry m x r c).failsafe
      → Passes ((m.now, x.flow_data.element_id) ∷ rest) f
  unfolding Loop.checked
  checked-Passes m x r f (g, some e) rest h s k = ground arith
  checked-Passes m x r f (g, none) rest h s k =
      check_all-cons m.now x.flow_data.element_id rest f g h (
        subst (Passes rest)
          (handled-failsafe x.action (record r { failsafe = g })
            (Loop.handle_result (Loop.at engine registry m) x r.loop))
          k)

  receive_next-Passes :
      (m : Moment) (r : Running S) (xs : List ExecutionResult) (rest : List (ℕ × String))
      → (Loop.receive_next engine registry m r xs).status ≡ running
      → Passes rest (Loop.receive_next engine registry m r xs).failsafe
      → Passes (first_of m.now xs ++ rest) r.failsafe
  unfolding Loop.receive_next
  receive_next-Passes m r [] rest s k = k
  receive_next-Passes m r (x ∷ xs) rest s k =
      checked-Passes m x
        (record r { results = xs; loop = record r.loop { pending = r.loop.pending - 1 } })
        r.failsafe _ rest refl s k

  move-Passes :
      (m : Moment) (v : Move) (r : Running S) (rest : List (ℕ × String))
      → (Loop.move engine registry m v r).status ≡ running
      → Passes rest (Loop.move engine registry m v r).failsafe
      → Passes (heard m v r ++ rest) r.failsafe
  unfolding Loop.move
  move-Passes m take r rest s k = subst (Passes rest) (take_next-failsafe r r.loop.work) k
  move-Passes m (finish n) r rest s k = subst (Passes rest) (finish_picked-failsafe m r _) k
  move-Passes m receive r rest s k = receive_next-Passes m r r.results rest s k
  move-Passes m receive_error r rest s k =
      subst (Passes rest) (receive_next_error-failsafe r r.loop.errors) k
  move-Passes m time_out r rest s k = ground arith
  move-Passes m cancel r rest s k = ground arith

  step-Passes :
      (t : Status) (m : Moment) (v : Move) (r : Running S) (rest : List (ℕ × String))
      → t ≡ running
      → (Loop.step engine registry t m v r).status ≡ running
      → Passes rest (Loop.step engine registry t m v r).failsafe
      → Passes (heard m v r ++ rest) r.failsafe
  unfolding Loop.step
  step-Passes running m v r rest t s k = move-Passes m v r rest s k
  step-Passes blocked m v r rest t s k = ground arith
  step-Passes (ended e) m v r rest t s k = ground arith

  pub run_moves-Passes :
      (vs : List (Moment × Move)) (r : Running S)
      → r.status ≡ running
      → (Loop.run_moves engine registry vs r).status ≡ running
      → Passes (received vs r) r.failsafe
  unfolding Loop.run_moves received check_all
  run_moves-Passes [] r s h = refl
  run_moves-Passes ((m, v) ∷ vs) r s h =
      let q = Loop.step engine registry r.status m v r in
      elim (running-cases q.status) [
        | inl p ↦ step-Passes r.status m v r (received vs q) s p (run_moves-Passes vs q p h)
        | inr n ↦ ground (arith, run_moves-stopped vs q n h)
      ]
