-- ===== src/Element/AiTask/Cost.antt =====
-- internal/element/activities/ai_task.go, estimateCost. `order` is the order in which Go visits the
-- map of prices.
use text.Mathlib.Text.{find?}
use bpmn_ai.Base.{String, [], ◌∷◌, none, some}
use bpmn_ai.Base.Dict.{Dict}
use bpmn_ai.Ai.Float.{Floats}
use bpmn_ai.Ai.Gateway.{Response}

pub record Price (F : Type 0) : Type 0 where
  pub in_price : F
  pub out_price : F

abbrev entry : {F : Type 0} → Floats F → String → String → String → String × Price F
entry x name a b = (name, record { in_price = x.literal a; out_price = x.literal b })

unfoldable pub pricing : {F : Type 0} → Floats F → Dict (Price F)
pricing x =
    entry x "gpt-4o" "0.01" "0.03"
    ∷ entry x "gpt-4o-mini" "0.0015" "0.006"
    ∷ entry x "gpt-5.5" "0.03" "0.18"
    ∷ entry x "gpt-5.4" "0.022" "0.14"
    ∷ entry x "gpt-5.4-mini" "0.0068" "0.04"
    ∷ entry x "gpt-5.4-nano" "0.0018" "0.011"
    ∷ entry x "claude-sonnet-4-6" "0.03" "0.15"
    ∷ entry x "claude-haiku-4-5" "0.008" "0.04"
    ∷ entry x "claude-opus-4-8" "0.0429" "0.2146"
    ∷ []

unfoldable pub cost_at : {F : Type 0} → Floats F → Response → Dict (Price F) → F
cost_at x r [] = x.of_int 0
cost_at x r ((name, p) ∷ ps) = elim (find? r.model name) [
  | none ↦ cost_at x r ps
  | some i ↦
      x.plus (x.times (x.over (x.of_int r.tokens_in) (x.of_int 1000)) p.in_price)
        (x.times (x.over (x.of_int r.tokens_out) (x.of_int 1000)) p.out_price)
]

unfoldable pub estimate_cost :
    {F : Type 0} → Floats F → (Dict (Price F) → Dict (Price F)) → Response → F
unfolding cost_at pricing
estimate_cost x order r = cost_at x r (order (pricing x))
