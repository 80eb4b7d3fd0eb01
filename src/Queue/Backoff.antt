-- ===== src/Queue/Backoff.antt =====
-- internal/queue/retry.go: when a job is retried.
use native.Mathlib.Nat.{mod-eq_of_lt}
use bpmn_ai.Base.{
  ℕ, ◌+◌, ◌-◌, ◌*◌, ◌/◌, ◌^◌, ◌%◌, lt→ltb, Option-cases, inl, inr, ◌≤◌, ◌<◌, Option, some, ◌≡◌,
  arith, ltb, if◌then◌else◌,
}
use bpmn_ai.Queue.{
  RetryPolicy, power, capped_delay, jittered_delay, next_retry_at, int64_mod, int64_sign,
  is_negative, or_zero,
}

-- The delay that the policy means: doubled for each retry, up to the maximum if there is one.
abbrev pub backoff : RetryPolicy → ℕ → ℕ
backoff p n =
    let d = p.base_delay * 2 ^ n in
    if ltb 0 p.max_delay then (if ltb p.max_delay d then p.max_delay else d) else d

next_of :
    (now d j : ℕ)
    → (d ≤ j) × (j ≤ d + d / 4)
    → d + d / 4 < int64_sign
    → let at : ℕ = if is_negative j then now - (int64_mod - j) else now + j in
      (now + d ≤ at) × (at ≤ now + d + d / 4)
next_of now d j b h = ground arith

module _ (p : RetryPolicy) (n : ℕ) (small : n < 63) (fits : p.base_delay * 2 ^ n < int64_sign) where
  product-eq : (p.base_delay * power n) % int64_mod ≡ p.base_delay * 2 ^ n
  unfolding power
  product-eq = rw (lt→ltb n 63 small) (mod-eq_of_lt (omega arith))

  -- Without overflow the delay is what the policy means.
  pub capped_delay-backoff : capped_delay p n ≡ backoff p n
  unfolding capped_delay
  capped_delay-backoff = rw product-eq (ground arith)

  backoff-lt : backoff p n < int64_sign
  backoff-lt = ground arith

  module _ (random : ℕ → Option ℕ) (now : ℕ)
      (below : (range r : ℕ) → random range ≡ some r → r < range) where
    or_zero-le : (range : ℕ) → or_zero (random range) ≤ range
    or_zero-le range = elim (Option-cases (random range)) [
      | inl e ↦ rw e (omega arith)
      | inr (r, e) ↦ rw e (omega (arith, below range r e))
    ]

    jittered_delay_bounds :
        (d : ℕ)
        → capped_delay p n ≡ d
        → d + d / 4 < int64_sign
        → (d ≤ jittered_delay p random n) × (jittered_delay p random n ≤ d + d / 4)
    unfolding jittered_delay
    jittered_delay_bounds d e h = rw e (
        ground (
          arith,
          or_zero-le (d / 4),
          mod-eq_of_lt {n = d + or_zero (random (d / 4))} {m = int64_mod}
              (omega (arith, or_zero-le (d / 4))),
        ))

    -- If the doubled delay fits in an int64, a retry comes no sooner than the policy's delay, and
    -- later than that by at most a quarter, the jitter.
    pub next_retry_at_bounds :
        backoff p n + backoff p n / 4 < int64_sign
        → (now + backoff p n ≤ next_retry_at p random now n)
          × (next_retry_at p random now n ≤ now + backoff p n + backoff p n / 4)
    unfolding next_retry_at
    next_retry_at_bounds h =
        let j = jittered_delay_bounds (backoff p n) capped_delay-backoff h in
        next_of now (backoff p n) (jittered_delay p random n) j h

    -- If the base delay doubled for each retry fits in an int64, and so does the delay with a quarter
    -- of it, the delay is the base delay doubled per retry and cut at the maximum, and a retry comes
    -- no sooner than that, and later by at most a quarter.
    pub next_retry_at_lem :
        backoff p n + backoff p n / 4 < int64_sign
        → (capped_delay p n ≡ backoff p n)
          × (now + backoff p n ≤ next_retry_at p random now n)
          × (next_retry_at p random now n ≤ now + backoff p n + backoff p n / 4)
    next_retry_at_lem h =
        let (early, late) = next_retry_at_bounds h in (capped_delay-backoff, early, late)
