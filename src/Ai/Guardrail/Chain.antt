-- ===== src/Ai/Guardrail/Chain.antt =====
-- pkg/ai/guardrail.go: what a chain of guards does to a request that it lets pass.
use mathlib.Core.Path.{subst}
use bpmn_ai.Base.{
  ℕ, ◌≤◌, String, Bool, true, false, ◌||◌, List, [], ◌∷◌, ◌++◌, map, Option, none, some, leb, ltb,
  ◌≡◌, refl, ap, sym, ◌∙◌, arith, inl, inr, Bool-cases, if◌then◌else◌,
}
use bpmn_ai.Errors.{Result, ok, err, Error, ◌>>=◌}
use bpmn_ai.Ai.Float.{Floats}
use bpmn_ai.Ai.Gateway.{Request, Response, Message}
use bpmn_ai.Ai.Guardrail.{
  Guard, timeout, token_limit, cost_limiter, pii_redactor, human_in_the_loop, check, run_chain,
  cost, redact, redact_request,
}

redact-append :
    (ps qs : List (String → String)) (s : String) → redact (ps ++ qs) s ≡ redact qs (redact ps s)
unfolding redact
redact-append [] qs s = refl
redact-append (p ∷ ps) qs s = redact-append ps qs (p s)

abbrev clean : List (String → String) → Message → Message
clean ps m = record m { content = redact ps m.content }

map-clean-append :
    (ps qs : List (String → String)) (ms : List Message)
    → map (clean (ps ++ qs)) ms ≡ map (clean qs) (map (clean ps) ms)
map-clean-append ps qs [] = refl
map-clean-append ps qs (m ∷ ms) = rw (redact-append ps qs m.content, map-clean-append ps qs ms) refl

map-clean_nil : (ms : List Message) → map (clean []) ms ≡ ms
unfolding redact
map-clean_nil [] = refl
map-clean_nil (m ∷ ms) = ap (◌∷◌ m) (map-clean_nil ms)

module _ {F T : Type 0} where
  redact_request-append :
      (ps qs : List (String → String)) (r : Request F T)
      → redact_request (ps ++ qs) r ≡ redact_request qs (redact_request ps r)
  unfolding redact_request
  redact_request-append ps qs r =
      rw (redact-append ps qs r.system, map-clean-append ps qs r.messages) refl

  redact_request_nil : (r : Request F T) → redact_request [] r ≡ r
  unfolding redact_request redact
  redact_request_nil r = rw (map-clean_nil r.messages) refl

  -- The patterns of a guard, and those of a chain.
  abbrev patterns_of : Guard F T → List (String → String)
  patterns_of (pii_redactor ps) = ps
  patterns_of (timeout d) = []
  patterns_of (token_limit n) = []
  patterns_of (cost_limiter c p) = []
  patterns_of (human_in_the_loop t f) = []

  abbrev pub patterns : List (Guard F T) → List (String → String)
  patterns [] = []
  patterns (g ∷ gs) = patterns_of g ++ patterns gs

  -- A number of tokens keeps to a guard, and to a chain.
  abbrev Allows : Guard F T → ℕ → Type 0
  Allows (token_limit n) k = k ≤ n
  Allows (pii_redactor ps) k = Unit
  Allows (timeout d) k = Unit
  Allows (cost_limiter c p) k = Unit
  Allows (human_in_the_loop t f) k = Unit

  abbrev pub AllAllow : List (Guard F T) → ℕ → Type 0
  AllAllow [] k = Unit
  AllAllow (g ∷ gs) k = Allows g k × AllAllow gs k

  -- What is let pass, if anything: the request redacted by these patterns, if its number of tokens
  -- is allowed.
  abbrev Passes : List (String → String) → Type 0 → Request F T → Result (Request F T) → Type 0
  Passes ps Allowed r (ok q) = (q ≡ redact_request ps r) × Allowed
  Passes ps Allowed r (err e) = Unit

  if-Passes :
      (r : Request F T) (b : Bool) (e : Error) → Passes [] Unit r (if b then err e else ok r)
  if-Passes r true e = tt
  if-Passes r false e = (sym (redact_request_nil r), tt)

  confident-Passes :
      (x : Floats F) (r : Request F T) (t : F) (e : Error) (c : Result F)
      → Passes [] Unit r (c >>= λ c. if x.above t c then err e else ok r)
  confident-Passes x r t e (err f) = tt
  confident-Passes x r t e (ok c) = if-Passes r (x.above t c) e

  check-Passes :
      (x : Floats F) (len : String → ℕ) (deadline : Bool) (g : Guard F T) (r : Request F T)
      (a : Option Response)
      → Passes (patterns_of g) (Allows g r.max_tokens) r (check x len deadline g r a)
  unfolding check
  check-Passes x len deadline (timeout d) r a = elim (Bool-cases (leb d 0 || deadline)) [
    | inl h ↦ rw h (sym (redact_request_nil r), tt)
    | inr h ↦ rw h tt
  ]
  check-Passes x len deadline (token_limit n) r a = elim (Bool-cases (ltb n r.max_tokens)) [
    | inl h ↦ rw h tt
    | inr h ↦ rw h (sym (redact_request_nil r), ground arith)
  ]
  check-Passes x len deadline (cost_limiter c p) r a = if-Passes r (x.above (cost x len p r a) c) _
  check-Passes x len deadline (pii_redactor ps) r a = (refl, tt)
  check-Passes x len deadline (human_in_the_loop t f) r none = (sym (redact_request_nil r), tt)
  check-Passes x len deadline (human_in_the_loop t f) r (some a) = confident-Passes x r t _ (f r a)

  append-Passes :
      (g : Guard F T) (gs : List (Guard F T)) (r p : Request F T) (last : Result (Request F T))
      → p ≡ redact_request (patterns_of g) r
      → Allows g r.max_tokens
      → Passes (patterns gs) (AllAllow gs p.max_tokens) p last
      → Passes (patterns (g ∷ gs)) (AllAllow (g ∷ gs) r.max_tokens) r last
  unfolding redact_request
  append-Passes g gs r p (err e) same allowed h = tt
  append-Passes g gs r p (ok q) same allowed (h, within) = (
    h
        ∙ ap (redact_request (patterns gs)) same
        ∙ sym (redact_request-append (patterns_of g) (patterns gs) r),
    (allowed, subst (AllAllow gs) (ap (λ z. z.max_tokens) same) within),
  )

  then-Passes :
      (g : Guard F T) (gs : List (Guard F T)) (r : Request F T) (first : Result (Request F T))
      (rest : Request F T → Result (Request F T))
      → Passes (patterns_of g) (Allows g r.max_tokens) r first
      → ((q : Request F T) → Passes (patterns gs) (AllAllow gs q.max_tokens) q (rest q))
      → Passes (patterns (g ∷ gs)) (AllAllow (g ∷ gs) r.max_tokens) r (first >>= rest)
  then-Passes g gs r (err e) rest h k = tt
  then-Passes g gs r (ok p) rest (same, allowed) k =
      append-Passes g gs r p (rest p) same allowed (k p)

  chain-Passes :
      (x : Floats F) (len : String → ℕ) (deadline : Bool) (gs : List (Guard F T)) (r : Request F T)
      (a : Option Response)
      → Passes (patterns gs) (AllAllow gs r.max_tokens) r (run_chain x len deadline gs r a)
  unfolding run_chain
  chain-Passes x len deadline [] r a = (sym (redact_request_nil r), tt)
  chain-Passes x len deadline (g ∷ gs) r a =
      then-Passes g gs r (check x len deadline g r a) (λ q. run_chain x len deadline gs q a)
        (check-Passes x len deadline g r a) (λ q. chain-Passes x len deadline gs q a)

  -- A request that a chain of guards lets pass, before or after the call, keeps to every token limit
  -- of the chain, and has been changed by nothing but the patterns of its redactors, in their order.
  pub run_chain_passes :
      (x : Floats F) (len : String → ℕ) (deadline : Bool) (gs : List (Guard F T))
      (r q : Request F T) (a : Option Response)
      → run_chain x len deadline gs r a ≡ ok q
      → (q ≡ redact_request (patterns gs) r) × AllAllow gs r.max_tokens
  run_chain_passes x len deadline gs r q a e =
      subst (Passes (patterns gs) (AllAllow gs r.max_tokens) r) e
        (chain-Passes x len deadline gs r a)
