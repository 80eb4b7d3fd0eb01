-- ===== src/Engine/State.antt =====
-- internal/engine/engine.go: what the loop acts on, and the monad of its steps. The two channels of
-- the loop that it writes itself are lists, oldest first: a send that has to wait for room is one
-- that happens later. `done` says that a select in the step takes the context's Done case instead.
use bpmn_ai.Base.{ℕ, String, Bool, List, [], ◌∷◌, ◌++◌, Option}
use bpmn_ai.Errors.{Error, Result, ok, err, wrap}
use bpmn_ai.Model.{TimerType, Process}
use bpmn_ai.Process.Instance.{Instance}
use bpmn_ai.Process.State.{State}
use bpmn_ai.Queue.{WorkerPool}
use bpmn_ai.Records.{FlowRecord}
use bpmn_ai.Store.{EngineStore}

pub record WorkItem : Type 0 where
  pub flow : FlowRecord
  pub thread_id : ℕ

-- The dispatched events, without their payload but for the states between which a case moves.
pub data Event : Type 0 where
  process_started process_terminated process_error job_queued : Event
  process_completed : State → State → Event
  element_executed element_error : String → Event

pub record Loop (S : Type 0) : Type 0 where
  pub instance : Instance
  pub store : S
  pub pending : ℕ
  pub work : List WorkItem
  pub errors : List Error
  pub events : List Event

-- The engine's parts that a step uses. `uuid` is what `uuid.New` yields in the step,
-- `calculate_schedule` the function of timer.go, and `decimal` the print of a number. `visits` is the
-- keys that the loops over the elements and the flows of a process that calls itself come to.
pub record Engine (S : Type 0) : Type 0 where
  pub ops : EngineStore S
  pub queue : Option (WorkerPool S)
  pub calculate_schedule : TimerType → String → Option ℕ
  pub uuid : String
  pub worker_count : ℕ
  pub decimal : ℕ → String
  pub visits : Process → List String × List String
  pub now : ℕ
  pub done : Bool

abbrev pub M : Type 0 → Type 0 → Type 0
M S A = Loop S → Loop S × Result A

abbrev pub chain : {S A B : Type 0} → Loop S × Result A → (A → M S B) → Loop S × Result B
chain (l, ok a) f = f a l
chain (l, err e) f = (l, err e)

infixl 5 ◌>>=◌ ◌>>◌
unfoldable pub ◌>>=◌ : {S A B : Type 0} → M S A → (A → M S B) → M S B
◌>>=◌ m f l = chain (m l) f

unfoldable pub ◌>>◌ : {S B : Type 0} → M S (Unit {0}) → M S B → M S B
unfolding ◌>>=◌
m >> k = m >>= λ _. k

unfoldable pub pure : {S A : Type 0} → A → M S A
pure a l = (l, ok a)

unfoldable pub raise : {S A : Type 0} → Error → M S A
raise e l = (l, err e)

abbrev pub lift : {S A : Type 0} → Result A → M S A
lift r l = (l, r)

-- `fmt.Errorf("…: %w", err)`.
abbrev pub tag : {A : Type 0} → String → Result A → Result A
tag s (ok a) = ok a
tag s (err e) = err (wrap s e)

unfoldable pub modify : {S : Type 0} → (Loop S → Loop S) → M S (Unit {0})
modify f l = (f l, ok tt)

abbrev pub stored : {S A : Type 0} → Loop S → Result (A × S) → Loop S × Result A
stored l (ok (a, s)) = (record l { store = s }, ok a)
stored l (err e) = (l, err e)

-- A call of the store that returns a record.
unfoldable pub create : {S A : Type 0} → String → (S → Result (A × S)) → M S A
create s f l = stored l (tag s (f l.store))

abbrev pub kept : {S : Type 0} → S → Result S → S
kept s (ok t) = t
kept s (err e) = s

-- A call of the store whose error is dropped.
unfoldable pub attempt : {S : Type 0} → (S → Result S) → M S (Unit {0})
attempt f l = (record l { store = kept l.store (f l.store) }, ok tt)

unfoldable pub emit : {S : Type 0} → Event → M S (Unit {0})
unfolding modify
emit e = modify (λ l. record l { events = l.events ++ e ∷ [] })

abbrev pub settled : {S : Type 0} → Loop S → Result Instance → Loop S × Result (Unit {0})
settled l (ok i) = (record l { instance = i }, ok tt)
settled l (err e) = (l, err e)

unfoldable pub update : {S : Type 0} → String → (Instance → Result Instance) → M S (Unit {0})
update s f l = settled l (tag s (f l.instance))
