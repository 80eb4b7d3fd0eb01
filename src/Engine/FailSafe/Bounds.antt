-- ===== src/Engine/FailSafe/Bounds.antt =====
-- internal/engine/failsafe.go: how long a run that passes its checks can be.
use Prim.Native.Nat.{ℕ}
use bpmn_ai.Base.{
  ◌+◌, ◌-◌, ◌*◌, ◌≤◌, String, Bool, true, false, not, ◌==◌, List, [], ◌∷◌, none, ◌≡◌, refl, eq_iff,
  arith, ltb, is_empty, if◌then◌else◌, length, count, any, all, Bool-cases, inl, inr,
}
use bpmn_ai.Base.Dict.{get, get-put}
use bpmn_ai.Engine.FailSafe.{FailSafe, new, count_of, check, check_all}

-- How often an element occurs in a run.
abbrev pub runs_of : String → List (ℕ × String) → ℕ
runs_of id = count (λ r. r.1 == id)

count_of-check :
    (now : ℕ) (x id : String) (f : FailSafe)
    → is_empty id ≡ false
    → (check now x f).1 ≡ none
    → (count_of id (check now x f).0 ≡ count_of id f + (if x == id then 1 else 0))
      × ((check now x f).0.max_loops ≡ f.max_loops)
unfolding check count_of
count_of-check now x id f h p = ground (
  arith,
  get-put x id (count_of x f + 1) f.element_counts,
  eq_iff x id,
  eq_iff x "",
  eq_iff id "",
)

-- a step that passes keeps every count within the limit
count_of-le :
    (now : ℕ) (x id : String) (f : FailSafe)
    → is_empty id ≡ false
    → count_of id f ≤ f.max_loops
    → (check now x f).1 ≡ none
    → count_of id (check now x f).0 ≤ f.max_loops
unfolding check count_of
count_of-le now x id f h b p = ground (
  arith,
  get-put x id (count_of x f + 1) f.element_counts,
  eq_iff x id,
  eq_iff x "",
  eq_iff id "",
)

check_all-count :
    (rs : List (ℕ × String)) (id : String) (f : FailSafe)
    → is_empty id ≡ false
    → count_of id f ≤ f.max_loops
    → (check_all rs f).1 ≡ none
    → count_of id f + runs_of id rs ≤ f.max_loops
unfolding check_all
check_all-count [] id f h b p = omega arith
check_all-count ((now, x) ∷ rs) id f h b p = ground (
  arith,
  count_of-check now x id f h,
  count_of-le now x id f h b,
  check_all-count rs id (check now x f).0 h,
)

-- A run whose checks all pass has executed each element at most `MaxLoops` times.
check_all-runs_of :
    (start timeout loops : ℕ) (rs : List (ℕ × String)) (id : String)
    → is_empty id ≡ false
    → (check_all rs (new start timeout loops)).1 ≡ none
    → runs_of id rs ≤ loops
unfolding new count_of get
check_all-runs_of start timeout loops rs id h p =
    omega (arith, check_all-count rs id (new start timeout loops) h (omega arith) p)

-- How often the elements of a list occur in a run, together.
abbrev total_runs : List String → List (ℕ × String) → ℕ
total_runs [] rs = 0
total_runs (id ∷ ids) rs = runs_of id rs + total_runs ids rs

abbrev pub knows : List String → String → Bool
knows ids x = any (λ id. id == x) ids

abbrev pub all_known : List String → List (ℕ × String) → Bool
all_known ids = all (λ r. knows ids r.1)

total_runs-cons :
    (ids : List String) (now : ℕ) (x : String) (rs : List (ℕ × String))
    → total_runs ids rs + (if knows ids x then 1 else 0) ≤ total_runs ids ((now, x) ∷ rs)
total_runs-cons [] now x rs = omega arith
total_runs-cons (id ∷ ids) now x rs =
    ground (arith, total_runs-cons ids now x rs, eq_iff x id, eq_iff id x)

length-le-total_runs :
    (ids : List String) (rs : List (ℕ × String))
    → all_known ids rs ≡ true
    → length rs ≤ total_runs ids rs
length-le-total_runs ids [] h = omega arith
length-le-total_runs ids ((now, x) ∷ rs) h =
    ground (arith, total_runs-cons ids now x rs, length-le-total_runs ids rs)

abbrev pub named : List String → Bool
named = all (λ id. not (is_empty id))

total_runs-le :
    (ids : List String) (start timeout loops : ℕ) (rs : List (ℕ × String))
    → named ids ≡ true
    → (check_all rs (new start timeout loops)).1 ≡ none
    → total_runs ids rs ≤ length ids * loops
total_runs-le [] start timeout loops rs h p = omega arith
total_runs-le (id ∷ ids) start timeout loops rs h p = omega (
  arith,
  total_runs-le ids start timeout loops rs (ground arith) p,
  check_all-runs_of start timeout loops rs id (ground arith) p,
)

-- A run over named elements whose checks all pass has at most `MaxLoops` results for each of them.
check_all-length :
    (ids : List String) (start timeout loops : ℕ) (rs : List (ℕ × String))
    → named ids ≡ true
    → all_known ids rs ≡ true
    → (check_all rs (new start timeout loops)).1 ≡ none
    → length rs ≤ length ids * loops
check_all-length ids start timeout loops rs h k p =
    omega (arith, length-le-total_runs ids rs k, total_runs-le ids start timeout loops rs h p)

-- No result came later than the limit allows.
abbrev pub in_time : ℕ → ℕ → List (ℕ × String) → Bool
in_time start timeout = all (λ r. not (ltb timeout (r.0 - start)))

check_step :
    (now : ℕ) (x : String) (f : FailSafe)
    → ltb f.max_timeout (now - f.start_time) ≡ false
    → (is_empty x ≡ false → count_of x f + 1 ≤ f.max_loops)
    → ((check now x f).1 ≡ none)
      × ((check now x f).0.max_loops ≡ f.max_loops)
      × ((check now x f).0.max_timeout ≡ f.max_timeout)
      × ((check now x f).0.start_time ≡ f.start_time)
unfolding check count_of
check_step now x f h b = elim (Bool-cases (is_empty x)) [
  | inl e ↦ ground arith
  | inr e ↦ ground (arith, b e)
]

runs_of-cons :
    (now : ℕ) (x id : String) (rs : List (ℕ × String))
    → runs_of id ((now, x) ∷ rs) ≡ runs_of id rs + (if x == id then 1 else 0)
runs_of-cons now x id rs = ground arith

runs_of-cons_self : (now : ℕ) (x : String) (rs : List (ℕ × String)) → 1 ≤ runs_of x ((now, x) ∷ rs)
runs_of-cons_self now x rs = ground (arith, eq_iff x x)

check_all-none :
    (rs : List (ℕ × String)) (f : FailSafe)
    → in_time f.start_time f.max_timeout rs ≡ true
    → ((id : String) → is_empty id ≡ false → count_of id f + runs_of id rs ≤ f.max_loops)
    → (check_all rs f).1 ≡ none
unfolding check_all
check_all-none [] f h b = refl
check_all-none ((now, x) ∷ rs) f h b =
    let s =
      check_step now x f (ground arith) (λ e. omega (arith, b x e, runs_of-cons_self now x rs)) in
    ground (
      arith,
      s,
      check_all-none rs (check now x f).0 (ground (arith, s)) (λ id e.
          omega (arith, s, count_of-check now x id f e s.0, b id e, runs_of-cons now x id rs)),
    )

-- The checks stop no run that keeps to the limits: if every result is in time and no element
-- occurs more than `MaxLoops` times, all of them pass.
pub check_all_passes :
    (start timeout loops : ℕ) (rs : List (ℕ × String))
    → in_time start timeout rs ≡ true
    → ((id : String) → is_empty id ≡ false → runs_of id rs ≤ loops)
    → (check_all rs (new start timeout loops)).1 ≡ none
unfolding new count_of get
check_all_passes start timeout loops rs t b =
    check_all-none rs (new start timeout loops) t (λ id e. omega (arith, b id e))

-- A run over named elements whose checks all pass has at most `MaxLoops` results for each of them
-- together, and no named element occurs in it more often than `MaxLoops`.
pub check_all_bounds :
    (ids : List String) (start timeout loops : ℕ) (rs : List (ℕ × String)) (id : String)
    → named ids ≡ true
    → all_known ids rs ≡ true
    → is_empty id ≡ false
    → (check_all rs (new start timeout loops)).1 ≡ none
    → (length rs ≤ length ids * loops) × (runs_of id rs ≤ loops)
check_all_bounds ids start timeout loops rs id h k n p = (
  check_all-length ids start timeout loops rs h k p,
  check_all-runs_of start timeout loops rs id n p,
)
