-- ===== src/Engine/Loop/Counting.antt =====
-- internal/engine/engine.go, `runLoop`: the count of pending work over any sequence of moves.
use bpmn_ai.Base.{
  Bool-cases, ltb, inl, inr, ℕ, zero, suc, ◌+◌, ◌-◌, ◌≤◌, Bool, true, false, List, [], ◌∷◌, Option,
  none, some, length, length-append, nat_eq, if◌then◌else◌, ◌≡◌, refl, sym, ap, ◌∙◌, arith,
}
use bpmn_ai.Element.{ExecutionResult, Action, Execute}
use bpmn_ai.Engine.Execute
use bpmn_ai.Engine.FailSafe.{FailSafe}
use bpmn_ai.Engine.Handle.Balance.{Balanced, counted, failed}
use bpmn_ai.Engine.Handle.Pending.{handle_result-IsBalanced}
use bpmn_ai.Engine.Loop
use bpmn_ai.Engine.Loop.{
  Status, running, blocked, ended, Running, Moment, Move, take, receive, receive_error, time_out,
  cancel, finish,
}
use bpmn_ai.Engine.Registry.{Registry}
use bpmn_ai.Engine.State.{WorkItem, Loop as Data, Engine}
use bpmn_ai.Model.{Element}
use bpmn_ai.Records.{FlowRecord}
use bpmn_ai.Errors.{Error, Result, ok, err}

-- While the loop runs, `pending` counts the items that are left, and there is one; when it has
-- returned no error, none is left.
pub data Accounts (pending total : ℕ) : Status → Type 0 where
  open_count : pending ≡ total → 1 ≤ pending → Accounts pending total running
  closed : total ≡ 0 → Accounts pending total (ended (ok tt))
  cut : {e : Error} → Accounts pending total (ended (err e))
  stuck : Accounts pending total blocked

-- The items that wait for a worker, are with one, or are done and wait for the loop.
abbrev pub left : {S : Type 0} → Running S → ℕ
left r = length r.loop.work + length r.in_flight + length r.results

abbrev pub IsCounted : {S : Type 0} → Running S → Type 0
IsCounted r = Accounts r.loop.pending (left r) r.status

data Picked (n : ℕ) : Option (WorkItem × List WorkItem) → Type 0 where
  missed : Picked n none
  taken : {w : WorkItem} {rest : List WorkItem} → n ≡ suc (length rest) → Picked n (some (w, rest))

kept-Picked :
    (w : WorkItem) (n : ℕ) (p : Option (WorkItem × List WorkItem))
    → Picked n p
    → Picked (suc n) (Loop.kept w p)
kept-Picked w n none missed = missed
kept-Picked w n (some (v, vs)) (taken h) = taken (omega arith)

pick-Picked : (n : ℕ) (ws : List WorkItem) → Picked (length ws) (Loop.pick n ws)
pick-Picked n [] = missed
pick-Picked zero (w ∷ ws) = taken refl
pick-Picked (suc n) (w ∷ ws) = kept-Picked w _ (Loop.pick n ws) (pick-Picked n ws)

recount : {p q t u : ℕ} {s : Status} → p ≡ q → t ≡ u → Accounts p t s → Accounts q u s
recount h k (open_count c n) = open_count (omega arith) (omega arith)
recount h k (closed z) = closed (omega arith)
recount h k cut = cut
recount h k stuck = stuck

pub opened : {p t : ℕ} (s : Status) → s ≡ running → Accounts p t s → (p ≡ t) × (1 ≤ p)
opened running h (open_count c n) = (c, n)
opened (ended e) h c = ground arith
opened blocked h c = ground arith

zero_test : (n : ℕ) → nat_eq n 0 ≡ true → n ≡ 0
zero_test n h = ground arith

zero_test_fails : (n : ℕ) → nat_eq n 0 ≡ false → 1 ≤ n
zero_test_fails n h = ground arith

running_count : {p t : ℕ} (s : Status) → s ≡ running → p ≡ t → 1 ≤ p → Accounts p t s
running_count running h c n = open_count c n
running_count (ended e) h c n = ground arith
running_count blocked h c n = stuck

if_IsCounted :
    {S : Type 0} (b : Bool) (r q : Running S)
    → IsCounted r
    → IsCounted q
    → IsCounted (if b then r else q)
if_IsCounted true r q h k = h
if_IsCounted false r q h k = k

module _ {S : Type 0} (engine : Engine S) (registry : Registry) where
  abbrev Keeps : Data S → Data S × ExecutionResult → Type 0
  Keeps l (m, x) = (m.pending ≡ l.pending) × (length m.work ≡ length l.work)

  execute_with-Keeps :
      (E : Engine S) (d : ℕ) (f : FlowRecord) (e : Element) (c : Result (Element → Execute))
      (l : Data S)
      → Keeps l (Execute.execute_with E registry d f e c l)
  unfolding Execute.execute_with
  execute_with-Keeps E d f e (err x) l = (refl, refl)
  execute_with-Keeps E d f e (ok ctor) l = (refl, refl)

  execute_found-Keeps :
      (E : Engine S) (d : ℕ) (f : FlowRecord) (e : Option Element) (l : Data S)
      → Keeps l (Execute.execute_found E registry d f e l)
  unfolding Execute.execute_found
  execute_found-Keeps E d f none l = (refl, refl)
  execute_found-Keeps E d f (some e) l = execute_with-Keeps E d f e _ l

  execute_element-Keeps :
      (E : Engine S) (d : ℕ) (f : FlowRecord) (l : Data S)
      → Keeps l (Execute.execute_element E registry d f l)
  unfolding Execute.execute_element
  execute_element-Keeps E d f l = execute_found-Keeps E d f _ l

  take_next-IsCounted :
      (r : Running S) (ws : List WorkItem)
      → r.loop.work ≡ ws
      → IsCounted r
      → IsCounted (Loop.take_next engine registry r ws)
  unfolding Loop.take_next
  take_next-IsCounted r [] h c = c
  take_next-IsCounted r (w ∷ ws) h c =
      elim (Bool-cases (ltb (length r.in_flight) engine.worker_count)) [
        | inl e ↦
            rw e (recount refl (omega (arith, ap length h, length-append r.in_flight (w ∷ []))) c)
        | inr e ↦ rw e c
      ]

  finished-IsCounted :
      (r : Running S) (rest : List WorkItem) (p : Data S × ExecutionResult)
      → length r.in_flight ≡ suc (length rest)
      → Keeps r.loop p
      → IsCounted r
      → IsCounted (Loop.finished engine registry rest r p)
  unfolding Loop.finished
  finished-IsCounted r rest (l, x) h (k, w) c =
      recount (sym k) (omega (arith, length-append r.results (x ∷ []))) c

  finish_picked-IsCounted :
      (m : Moment) (r : Running S) (p : Option (WorkItem × List WorkItem))
      → Picked (length r.in_flight) p
      → IsCounted r
      → IsCounted (Loop.finish_picked engine registry m r p)
  unfolding Loop.finish_picked
  finish_picked-IsCounted m r none h c = c
  finish_picked-IsCounted m r (some (w, rest)) (taken h) c =
      if_IsCounted _ _ r
        (finished-IsCounted r rest
          (Loop.execute_element (Loop.at engine registry m) registry m.duration w.flow r.loop) h
          (execute_element-Keeps _ m.duration w.flow r.loop) c)
        c

  return_error-IsCounted :
      (r : Running S) (es : List Error) → IsCounted (Loop.return_error engine registry r es)
  unfolding Loop.return_error
  return_error-IsCounted r [] = stuck
  return_error-IsCounted r (e ∷ es) = cut

  finalized-IsCounted :
      (r : Running S) (s : Result S) → left r ≡ 0 → IsCounted (Loop.finalized engine registry r s)
  unfolding Loop.finalized
  finalized-IsCounted r (ok s) h = closed h
  finalized-IsCounted r (err e) h = cut

  pub finalize_instance-IsCounted :
      (r : Running S) → left r ≡ 0 → IsCounted (Loop.finalize_instance engine registry r)
  unfolding Loop.finalize_instance
  finalize_instance-IsCounted r h = finalized-IsCounted r _ h

  settle_count-IsCounted :
      (b : Bool) (r : Running S)
      → nat_eq r.loop.pending 0 ≡ b
      → r.status ≡ running
      → r.loop.pending ≡ left r
      → IsCounted (if b then Loop.finalize_instance engine registry r else r)
  settle_count-IsCounted true r z s h =
      finalize_instance-IsCounted r (sym h ∙ zero_test r.loop.pending z)
  settle_count-IsCounted false r z s h =
      running_count r.status s h (zero_test_fails r.loop.pending z)

  settle-IsCounted :
      (a : Action) (r : Running S)
      → r.status ≡ running
      → r.loop.pending ≡ left r
      → IsCounted (Loop.settle engine registry a r)
  unfolding Loop.settle
  settle-IsCounted a r s h =
      if_IsCounted (Loop.is_error a) _ _ (return_error-IsCounted r r.loop.errors)
        (settle_count-IsCounted _ r refl s h)

  handled-IsCounted :
      (a : Action) (r : Running S) (l : Data S × Result (Unit {0}))
      → r.status ≡ running
      → r.loop.pending ≡ left r
      → Balanced r.loop l
      → IsCounted (Loop.handled engine registry a r l)
  unfolding Loop.handled
  handled-IsCounted a r (l, ok u) s h (counted b) =
      settle-IsCounted a (record r { loop = l }) s (omega arith)
  handled-IsCounted a r (l, err e) s h failed = cut

  checked-IsCounted :
      (m : Moment) (x : ExecutionResult) (r : Running S) (c : FailSafe × Option Error)
      → r.status ≡ running
      → r.loop.pending ≡ left r
      → IsCounted (Loop.checked engine registry m x r c)
  unfolding Loop.checked
  checked-IsCounted m x r (f, some e) s h = cut
  checked-IsCounted m x r (f, none) s h =
      handled-IsCounted x.action _ _ s h ((handle_result-IsBalanced _ x).at r.loop)

  receive_next-IsCounted :
      (m : Moment) (r : Running S) (xs : List ExecutionResult)
      → r.results ≡ xs
      → r.status ≡ running
      → IsCounted r
      → IsCounted (Loop.receive_next engine registry m r xs)
  unfolding Loop.receive_next
  receive_next-IsCounted m r [] e s c = c
  receive_next-IsCounted m r (x ∷ xs) e s c =
      let (k, n) = opened r.status s c in
      checked-IsCounted m x
        (record r { results = xs; loop = record r.loop { pending = r.loop.pending - 1 } }) _ s
        (omega (arith, ap length e))

  receive_next_error-IsCounted :
      (r : Running S) (es : List Error)
      → IsCounted r
      → IsCounted (Loop.receive_next_error engine registry r es)
  unfolding Loop.receive_next_error
  receive_next_error-IsCounted r [] c = c
  receive_next_error-IsCounted r (e ∷ es) c = cut

  move-IsCounted :
      (m : Moment) (v : Move) (r : Running S)
      → r.status ≡ running
      → IsCounted r
      → IsCounted (Loop.move engine registry m v r)
  unfolding Loop.move
  move-IsCounted m take r s c = take_next-IsCounted r r.loop.work refl c
  move-IsCounted m (finish n) r s c = finish_picked-IsCounted m r _ (pick-Picked n r.in_flight) c
  move-IsCounted m receive r s c = receive_next-IsCounted m r r.results refl s c
  move-IsCounted m receive_error r s c = receive_next_error-IsCounted r r.loop.errors c
  move-IsCounted m time_out r s c = cut
  move-IsCounted m cancel r s c = cut

  step-IsCounted :
      (t : Status) (m : Moment) (v : Move) (r : Running S)
      → r.status ≡ t
      → IsCounted r
      → IsCounted (Loop.step engine registry t m v r)
  unfolding Loop.step
  step-IsCounted running m v r s c = move-IsCounted m v r s c
  step-IsCounted blocked m v r s c = c
  step-IsCounted (ended e) m v r s c = c

  -- Any sequence of moves keeps the count: while the loop runs, `pending` is the number of items that
  -- wait for a worker, are with one, or wait for the loop, and at least one is left; once it has
  -- returned without an error, none is left.
  pub run_moves-IsCounted :
      (vs : List (Moment × Move)) (r : Running S)
      → IsCounted r
      → IsCounted (Loop.run_moves engine registry vs r)
  unfolding Loop.run_moves
  run_moves-IsCounted [] r c = c
  run_moves-IsCounted ((m, v) ∷ vs) r c =
      run_moves-IsCounted vs _ (step-IsCounted r.status m v r refl c)
