-- ===== src/Errors.antt =====
-- Go's `error` values: the error types of internal/process/state.go and internal/engine/failsafe.go,
-- a message made by `fmt.Errorf`, and one that wraps its cause by `%w`. `Result` is a pair
-- (value, error) of which the code uses the value only where the error is nil.
use bpmn_ai.Base.{ℕ, String, Option, none, some}
use bpmn_ai.Process.State.{State}

pub data Error : Type 0 where
  invalid_transition : State → State → Error
  execution_timeout : ℕ → ℕ → Error
  nested_loop : String → ℕ → ℕ → Error
  not_found : String → Error
  context_done : Error
  message : String → Error
  wrap : String → Error → Error

pub data Result {ℓ} (A : Type ℓ) : Type ℓ where
  ok : A → Result A
  err : Error → Result A

infixl 5 ◌>>=◌
abbrev pub ◌>>=◌ {ℓ κ} : {A : Type ℓ} {B : Type κ} → Result A → (A → Result B) → Result B
ok a >>= f = f a
err e >>= f = err e

-- `if err != nil { return fmt.Errorf("…: %w", err) }`.
abbrev pub context {ℓ} : {A : Type ℓ} → String → Result A → Result A
context s (ok a) = ok a
context s (err e) = err (wrap s e)

abbrev pub or_fail {ℓ} : {A : Type ℓ} → Option A → Error → Result A
or_fail none e = err e
or_fail (some a) e = ok a

-- The state after a call whose error is dropped.
abbrev pub after {ℓ} : {A : Type ℓ} → A → Result A → A
after a (ok b) = b
after a (err e) = a
