-- ===== src/Process/Lifecycle.antt =====
-- internal/process/state.go: what holds of an instance over any sequence of its operations.
use bpmn_ai.Base.{
  ℕ, String, Bool, true, false, none, List, [], ◌∷◌, ◌≡◌, refl, ◌≢◌, ◌⊎◌, arith, ◌||◌,
}
use bpmn_ai.Errors.{after}
use bpmn_ai.Model.{Value}
use bpmn_ai.Model
use bpmn_ai.Process.State.{State, created, in_progress, completed, error, terminated, same}
use bpmn_ai.Process.Instance.{
  Instance, new_instance, transition, try_complete, next_thread_id, set_variable,
}

-- A call on an instance, with the time that it reads.
pub data Call : Type 0 where
  transitions : ℕ → State → Call
  completes : ℕ → Call
  numbers : Call
  sets : ℕ → String → Value → Call

-- An error of `Transition` leaves the instance as it was.
unfoldable pub step : Instance → Call → Instance
unfolding transition try_complete next_thread_id set_variable
step i (transitions now next) = after i (transition now next i)
step i (completes now) = (try_complete now i).0
step i numbers = (next_thread_id i).0
step i (sets now key value) = set_variable now key value i

unfoldable pub run : Instance → List Call → Instance
run i [] = i
run i (c ∷ cs) = run (step i c) cs

abbrev pub is_final : State → Bool
is_final s = same s completed || same s terminated

pub record IsWellFormed (i : Instance) : Type 0 where
  pub final_dated : is_final i.state ≡ true → i.finished_at ≢ none
  pub open_undated : is_final i.state ≡ false → i.finished_at ≡ none
  pub ok_completed : i.completed_ok ≡ true → (i.once_done ≡ true) × (i.state ≡ completed)

-- A new instance is well formed.
pub new_instance-IsWellFormed :
    (id pin : String) (now : ℕ) (p : Model.Process) (vs : List (String × Value))
    → IsWellFormed (new_instance id pin now p vs)
unfolding new_instance
new_instance-IsWellFormed id pin now p vs = ground arith

-- Every call keeps an instance well formed.
pub step-IsWellFormed : (i : Instance) (c : Call) → IsWellFormed i → IsWellFormed (step i c)
unfolding step
step-IsWellFormed i (transitions now next) v = ground arith
step-IsWellFormed i (completes now) v = ground arith
step-IsWellFormed i numbers v = ground arith
step-IsWellFormed i (sets now key value) v = ground arith

pub run-IsWellFormed : (i : Instance) (cs : List Call) → IsWellFormed i → IsWellFormed (run i cs)
unfolding run
run-IsWellFormed i [] v = v
run-IsWellFormed i (c ∷ cs) v = run-IsWellFormed (step i c) cs (step-IsWellFormed i c v)

-- Whatever is done to a new instance, it has a finish time exactly when it is COMPLETED or
-- TERMINATED, and `TryComplete` has succeeded only if it is COMPLETED.
pub run-new_instance-IsWellFormed :
    (id pin : String) (now : ℕ) (p : Model.Process) (vs : List (String × Value)) (cs : List Call)
    → IsWellFormed (run (new_instance id pin now p vs) cs)
run-new_instance-IsWellFormed id pin now p vs cs =
    run-IsWellFormed _ cs (new_instance-IsWellFormed id pin now p vs)

step_final :
    (i : Instance) (c : Call)
    → is_final i.state ≡ true
    → ((step i c).state ≡ i.state) × ((step i c).finished_at ≡ i.finished_at)
unfolding step
step_final i (transitions now next) h = ground arith
step_final i (completes now) h = ground arith
step_final i numbers h = ground arith
step_final i (sets now key value) h = ground arith

-- No sequence of calls takes an instance out of COMPLETED or TERMINATED, or moves its finish time.
pub run_final :
    (i : Instance) (cs : List Call)
    → is_final i.state ≡ true
    → ((run i cs).state ≡ i.state) × ((run i cs).finished_at ≡ i.finished_at)
unfolding run
run_final i [] h = (refl, refl)
run_final i (c ∷ cs) h = ground (arith, step_final i c, run_final (step i c) cs)

step_once :
    (i : Instance) (c : Call)
    → i.once_done ≡ true
    → ((step i c).once_done ≡ true) × ((step i c).completed_ok ≡ i.completed_ok)
unfolding step
step_once i (transitions now next) h = ground arith
step_once i (completes now) h = ground arith
step_once i numbers h = ground arith
step_once i (sets now key value) h = ground arith

run_once :
    (i : Instance) (cs : List Call)
    → i.once_done ≡ true
    → ((run i cs).once_done ≡ true) × ((run i cs).completed_ok ≡ i.completed_ok)
unfolding run
run_once i [] h = (h, refl)
run_once i (c ∷ cs) h = ground (arith, step_once i c, run_once (step i c) cs)

-- `TryComplete` decides once: whatever is called in between, every later call returns what the
-- first one did and leaves the instance alone. A first call that fails, because the instance waits,
-- thus rules out that a later one completes the instance.
pub try_complete_once :
    (i : Instance) (t u : ℕ) (cs : List Call)
    → let first = try_complete t i in let j = run first.0 cs in try_complete u j ≡ (j, first.1)
unfolding try_complete
try_complete_once i t u cs = ground (arith, run_once (try_complete t i).0 cs)

abbrev pub is_start : Call → Bool
is_start (transitions now next) = same next in_progress
is_start _ = false

abbrev pub any_start : List Call → Bool
any_start [] = false
any_start (c ∷ cs) = is_start c || any_start cs

abbrev pub is_idle : State → Bool
is_idle s = same s created || same s error

step_idle :
    (i : Instance) (c : Call)
    → is_idle i.state ≡ true
    → (is_start c ≡ true) ⊎ (is_idle (step i c).state ≡ true)
unfolding step
step_idle i (transitions now next) h = ground arith
step_idle i (completes now) h = ground arith
step_idle i numbers h = ground arith
step_idle i (sets now key value) h = ground arith

-- Without a transition to IN_PROGRESS, an instance that is CREATED or in ERROR stays in one of these
-- two states, whatever else is called.
pub needs_start :
    (i : Instance) (cs : List Call)
    → is_idle i.state ≡ true
    → any_start cs ≡ false
    → is_idle (run i cs).state ≡ true
unfolding run
needs_start i [] h n = h
needs_start i (c ∷ cs) h n = ground (arith, step_idle i c h, needs_start (step i c) cs)
