-- ===== src/Ai/Guardrail.antt =====
-- pkg/ai/guardrail.go: the guards that are asked before and after a call. The context of a call is
-- whether it has a deadline. A pattern of the redactor is the replacement that its regular
-- expression does, a parameter; so are the amounts of money, as float64, and the confidence
-- function of a caller. The texts of the errors leave the amounts out.
pub mod Chain
use Prim.Native.String.{◌++◌ as append}
use bpmn_ai.Base.{
  ℕ, ◌+◌, ◌/◌, String, Bool, true, false, not, ◌&&◌, ◌||◌, List, [], ◌∷◌, ◌++◌, map, Option, none,
  some, leb, ltb, if◌then◌else◌, length,
}
use bpmn_ai.Errors.{Result, ok, err, Error, message, ◌>>=◌}
use bpmn_ai.Ai.Float.{Floats}
use bpmn_ai.Ai.Gateway.{Request, Response, Message}

pub record CostEstimator (F : Type 0) : Type 0 where
  pub price_per_1k_input : F
  pub price_per_1k_output : F

unfoldable pub default_cost_estimator : {F : Type 0} → Floats F → CostEstimator F
default_cost_estimator x = record {
  price_per_1k_input = x.literal "0.01";
  price_per_1k_output = x.literal "0.03";
}

-- `len` of a text is a number of bytes.
pub data Guard (F T : Type 0) : Type 0 where
  timeout : ℕ → Guard F T
  token_limit : ℕ → Guard F T
  cost_limiter : F → CostEstimator F → Guard F T
  pii_redactor : List (String → String) → Guard F T
  human_in_the_loop : F → (Request F T → Response → Result F) → Guard F T

unfoldable pub new_human_in_the_loop :
    {F T : Type 0} → Floats F → F → (Request F T → Response → Result F) → Guard F T
new_human_in_the_loop x threshold confidence =
    human_in_the_loop (if x.at_most threshold (x.of_int 0) then x.literal "0.8" else threshold)
      confidence

unfoldable pub redact : List (String → String) → String → String
redact [] s = s
redact (p ∷ ps) s = redact ps (p s)

unfoldable pub redact_request : {F T : Type 0} → List (String → String) → Request F T → Request F T
unfolding redact
redact_request ps r = record r {
  system = redact ps r.system;
  messages = map {A = Message} (λ m. record m { content = redact ps m.content }) r.messages;
}

unfoldable pub total_content : (String → ℕ) → List Message → ℕ
total_content len [] = 0
total_content len (m ∷ ms) = len m.content + total_content len ms

unfoldable pub estimated_tokens : {F T : Type 0} → (String → ℕ) → Request F T → ℕ
unfolding total_content
estimated_tokens len r =
    let n = (len r.system + total_content len r.messages) / 4 in if ltb n 1 then 1 else n

-- The cost of a response, or the estimate of a request that has none.
unfoldable pub cost :
    {F T : Type 0} → Floats F → (String → ℕ) → CostEstimator F → Request F T → Option Response → F
unfolding estimated_tokens
cost x len p r none =
    x.times (x.over (x.of_int (estimated_tokens len r)) (x.of_int 1000)) p.price_per_1k_input
cost x len p r (some a) =
    x.plus (x.times (x.over (x.of_int a.tokens_in) (x.of_int 1000)) p.price_per_1k_input)
      (x.times (x.over (x.of_int a.tokens_out) (x.of_int 1000)) p.price_per_1k_output)

abbrev pub timeout_check : {F T : Type 0} → Bool → ℕ → Request F T → Result (Request F T)
timeout_check deadline d r =
    if leb d 0 || deadline
    then ok r
    else err (message "context has no deadline, timeout guardrail requires one")

abbrev pub token_limit_check : {F T : Type 0} → ℕ → Request F T → Result (Request F T)
token_limit_check n r =
    if ltb n r.max_tokens then err (message "request max_tokens exceeds limit") else ok r

abbrev pub cost_check : {F T : Type 0} → Floats F → F → F → Request F T → Result (Request F T)
cost_check x spent most r = if x.above spent most then err (message "cost exceeds limit") else ok r

-- The confidence is asked for only where there is a response.
abbrev pub human_check :
    {F T : Type 0}
    → Floats F
    → F
    → (Request F T → Response → Result F)
    → Request F T
    → Option Response
    → Result (Request F T)
human_check x t f r none = ok r
human_check x t f r (some a) =
    f r a >>= λ c. if x.above t c then err (message "confidence below threshold") else ok r

-- Check of each guard: the request that it leaves, or its error.
unfoldable pub check :
    {F T : Type 0}
    → Floats F
    → (String → ℕ)
    → Bool
    → Guard F T
    → Request F T
    → Option Response
    → Result (Request F T)
unfolding cost redact_request
check x len deadline (timeout d) r a = timeout_check deadline d r
check x len deadline (token_limit n) r a = token_limit_check n r
check x len deadline (cost_limiter most p) r a = cost_check x (cost x len p r a) most r
check x len deadline (pii_redactor ps) r a = ok (redact_request ps r)
check x len deadline (human_in_the_loop t f) r a = human_check x t f r a

-- Before, where there is no response, and After: the guards in order up to the first error.
unfoldable pub run_chain :
    {F T : Type 0}
    → Floats F
    → (String → ℕ)
    → Bool
    → List (Guard F T)
    → Request F T
    → Option Response
    → Result (Request F T)
unfolding check
run_chain x len deadline [] r a = ok r
run_chain x len deadline (g ∷ gs) r a =
    check x len deadline g r a >>= λ q. run_chain x len deadline gs q a

unfoldable pub add_guard : {F T : Type 0} → Guard F T → List (Guard F T) → List (Guard F T)
add_guard g gs = gs ++ g ∷ []

-- LowConfidenceChecker; `contains` and `fields` are strings.Contains and strings.Fields.
unfoldable pub low_confidence :
    {F : Type 0}
    → Floats F
    → (String → ℕ)
    → (String → String → Bool)
    → (String → List String)
    → Response
    → F
low_confidence x len contains fields a =
    let n = len a.text in
    if leb n 0
    then x.literal "0.0"
    else if ltb n 3
    then x.literal "0.3"
    else if contains a.text "I'm not sure" || contains a.text "I don't know"
    then x.literal "0.4"
    else if ltb 20 n && ltb (length (fields a.text)) 3
    then x.literal "0.5"
    else x.literal "0.9"
