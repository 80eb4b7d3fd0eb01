-- ===== src/Engine/Resume/Started.antt =====
-- internal/engine/engine.go: the loops that `Run`, `Continue` and `SendMessage` start.
use bpmn_ai.Base.{
  ℕ, ◌≤◌, String, Bool, true, false, List, [], ◌∷◌, length, if◌then◌else◌, refl, arith,
}
use bpmn_ai.Base.Dict.{Dict}
use bpmn_ai.Engine.Send.{with_instance}
use bpmn_ai.Engine.Loop.{Moment, Move, Running}
use bpmn_ai.Engine.Loop.Counting.{
  open_count, cut, IsCounted, finalize_instance-IsCounted, run_moves-IsCounted,
}
use bpmn_ai.Engine.Registry.{Registry}
use bpmn_ai.Engine.Resume
use bpmn_ai.Engine.State.{WorkItem, Loop, Engine, M, ◌>>=◌, ◌>>◌, chain, pure, raise}
use bpmn_ai.Errors.{Error, Result, ok, err}
use bpmn_ai.Model.{Value}
use bpmn_ai.Process.Instance.{Instance}

-- A step that succeeds yields an item.
data Sends {S : Type 0} : Loop S × Result (List WorkItem) → Type 0 where
  one : {l : Loop S} {ws : List WorkItem} → 1 ≤ length ws → Sends (l, ok ws)
  failing : {l : Loop S} {e : Error} → Sends (l, err e)

chain-Sends :
    {S A : Type 0} (r : Loop S × Result A) (f : A → M S (List WorkItem))
    → ((a : A) (l : Loop S) → Sends (f a l))
    → Sends (chain r f)
chain-Sends (l, ok a) f h = h a l
chain-Sends (l, err e) f h = failing

record Yields {S : Type 0} (m : M S (List WorkItem)) : Type 0 where
  pub at : (l : Loop S) → Sends (m l)

bind-Yields :
    {S A : Type 0} (m : M S A) (f : A → M S (List WorkItem))
    → ((a : A) → Yields (f a))
    → Yields (m >>= f)
unfolding ◌>>=◌
bind-Yields m f h = record { at = λ l. chain-Sends (m l) f (λ a. (h a).at) }

then-Yields :
    {S : Type 0} (m : M S (Unit {0})) (k : M S (List WorkItem)) → Yields k → Yields (m >> k)
unfolding ◌>>◌
then-Yields m k h = bind-Yields m (λ _. k) (λ _. h)

pure-Yields : {S : Type 0} (w : WorkItem) → Yields {S = S} (pure (w ∷ []))
unfolding pure
pure-Yields w = record { at = λ l. one (omega arith) }

raise-Yields : {S : Type 0} (e : Error) → Yields {S = S} (raise e)
unfolding raise
raise-Yields e = record { at = λ l. failing }

if-Yields :
    {S : Type 0} (b : Bool) (m k : M S (List WorkItem))
    → Yields m
    → Yields k
    → Yields (if b then m else k)
if-Yields true m k h j = h
if-Yields false m k h j = j

with_instance-Yields :
    {S : Type 0} (E : Engine S) (f : Instance → M S (List WorkItem))
    → ((i : Instance) → Yields (f i))
    → Yields (with_instance E f)
unfolding with_instance
with_instance-Yields E f h = record { at = λ l. (h l.instance).at l }

start-Yields : {S : Type 0} (E : Engine S) → Yields (Resume.start E)
unfolding Resume.start
start-Yields E = with_instance-Yields E _ (λ i. if-Yields _ _ _ (raise-Yields _) (
    then-Yields _ _
      (bind-Yields _ _ (λ f. bind-Yields _ _ (λ t. then-Yields _ _ (pure-Yields _))))))

module _ {S : Type 0} (engine : Engine S) (registry : Registry) (max_timeout max_loops : ℕ) where
  begin_started-IsCounted :
      (r : Loop S × Result (List WorkItem))
      → Sends r
      → IsCounted (Resume.begin_started engine registry max_timeout max_loops r)
  unfolding Resume.begin_started
  begin_started-IsCounted (l, ok ws) (one n) = open_count (omega arith) n
  begin_started-IsCounted (l, err e) failing = cut

  begin_resumed-IsCounted :
      (r : Loop S × Result (List WorkItem))
      → IsCounted (Resume.begin_resumed engine registry max_timeout max_loops r)
  unfolding Resume.begin_resumed Resume.begin
  begin_resumed-IsCounted (l, ok []) = finalize_instance-IsCounted engine registry _ refl
  begin_resumed-IsCounted (l, ok (w ∷ ws)) = open_count (omega arith) (omega arith)
  begin_resumed-IsCounted (l, err e) = cut

  -- Whatever the goroutines do, a run counts its work: while it goes on, `pending` is the number of
  -- items that wait for a worker, are with one, or wait for the loop, and is not 0; a run that
  -- returns no error has left none of them.
  pub run-IsCounted :
      (vs : List (Moment × Move)) (l : Loop S)
      → IsCounted (Resume.run engine registry max_timeout max_loops vs l)
  unfolding Resume.run
  run-IsCounted vs l =
      run_moves-IsCounted engine registry vs _
        (begin_started-IsCounted _ ((start-Yields engine).at l))

  -- Whatever the goroutines do after `Continue`, while the loop goes on `pending` is the number of items
  -- that are left, and is not 0; a call that returns no error has left none.
  pub continue-IsCounted :
      (vs : List (Moment × Move)) (instance_id flow_id : String) (variables : Dict Value)
      (l : Loop S)
      → IsCounted
          (Resume.continue engine registry max_timeout max_loops vs instance_id flow_id variables l)
  unfolding Resume.continue
  continue-IsCounted vs instance_id flow_id variables l =
      run_moves-IsCounted engine registry vs _
        (begin_resumed-IsCounted (Resume.resume engine instance_id flow_id variables l))

  -- Whatever the goroutines do after `SendMessage`, while the loop goes on `pending` is the number of
  -- items that are left, and is not 0; a call that returns no error has left none.
  pub send-IsCounted :
      (vs : List (Moment × Move)) (instance_id message_ref : String) (variables : Dict Value)
      (l : Loop S)
      → IsCounted
          (Resume.send engine registry max_timeout max_loops vs instance_id message_ref variables l)
  unfolding Resume.send
  send-IsCounted vs instance_id message_ref variables l =
      run_moves-IsCounted engine registry vs _
        (begin_resumed-IsCounted (Resume.send_message engine instance_id message_ref variables l))

-- The ways in which a loop is started.
pub data Entry : Type 0 where
  running : Entry
  continuing : String → String → Dict Value → Entry
  sending : String → String → Dict Value → Entry

module _ {S : Type 0} (engine : Engine S) (registry : Registry) (max_timeout max_loops : ℕ) where
  unfoldable pub enter : Entry → List (Moment × Move) → Loop S → Running S
  unfolding Resume.run Resume.continue Resume.send
  enter running vs l = Resume.run engine registry max_timeout max_loops vs l
  enter (continuing instance_id flow_id variables) vs l =
      Resume.continue engine registry max_timeout max_loops vs instance_id flow_id variables l
  enter (sending instance_id message_ref variables) vs l =
      Resume.send engine registry max_timeout max_loops vs instance_id message_ref variables l

  -- Whether `Run`, `Continue` or `SendMessage` starts the loop, and whatever the goroutines do then
  -- and in whatever order: while the loop goes on, `pending` is the number of items that wait for a
  -- worker, are with one, or wait for the loop, and is not 0; a call that returns no error has left
  -- none of them.
  pub enter-IsCounted :
      (entry : Entry) (vs : List (Moment × Move)) (l : Loop S) → IsCounted (enter entry vs l)
  unfolding enter
  enter-IsCounted running vs l = run-IsCounted engine registry max_timeout max_loops vs l
  enter-IsCounted (continuing instance_id flow_id variables) vs l =
      continue-IsCounted engine registry max_timeout max_loops vs instance_id flow_id variables l
  enter-IsCounted (sending instance_id message_ref variables) vs l =
      send-IsCounted engine registry max_timeout max_loops vs instance_id message_ref variables l
