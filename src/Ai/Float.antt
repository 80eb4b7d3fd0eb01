-- ===== src/Ai/Float.antt =====
-- Go's float64, which no code of the repository defines: its type, its literals, and the operations
-- and the comparisons `>` and `<=` that pkg/ai uses. Laws that a theorem needs are its hypotheses.
use bpmn_ai.Base.{ℕ, String, Bool, false, true, ◌≡◌}

pub record Floats (F : Type 0) : Type 0 where
  pub literal : String → F
  pub of_int : ℕ → F
  pub plus : F → F → F
  pub times : F → F → F
  pub over : F → F → F
  pub above : F → F → Bool
  pub at_most : F → F → Bool

-- No number is above itself, and what is above a number is above those below it.
abbrev pub IsOrdered : {F : Type 0} → Floats F → Type 0
IsOrdered {F} x =
    ((a : F) → x.above a a ≡ false)
    × ((a b c : F) → x.above a b ≡ true → x.above b c ≡ true → x.above a c ≡ true)
