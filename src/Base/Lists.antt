-- ===== src/Base/Lists.antt =====
-- Lists measured by native numbers, with Boolean predicates.
use Prim.Native.Nat.{ℕ, suc, ◌+◌, ◌≤◌}
use mathlib.Core.Path.{◌≡◌, refl, ap}
use mathlib.Core.Logic.{◌⊎◌, inl, inr}
use mathlib.Core.Bool.{Bool, true, false, ◌||◌, ◌&&◌}
use mathlib.Core.List.{List, [], ◌∷◌, ◌++◌}
use mathlib.Core.Option.{Option, none, some}
use native.Mathlib.Omega.{arith}
use bpmn_ai.Base.Tests.{if◌then◌else◌, Bool-cases}

module _ {ℓ} {A : Type ℓ} where
  abbrev pub length : List A → ℕ
  length [] = 0
  length (x ∷ xs) = suc (length xs)

  pub length-append : (xs ys : List A) → length (xs ++ ys) ≡ length xs + length ys
  length-append [] ys = omega arith
  length-append (x ∷ xs) ys = omega (arith, length-append xs ys)

  -- The elements that pass a test, in order.
  abbrev pub keep : (A → Bool) → List A → List A
  keep p [] = []
  keep p (x ∷ xs) = let rest = keep p xs in if p x then x ∷ rest else rest

  abbrev pub count : (A → Bool) → List A → ℕ
  count p [] = 0
  count p (x ∷ xs) = let rest = count p xs in if p x then suc rest else rest

  abbrev pub any : (A → Bool) → List A → Bool
  any p [] = false
  any p (x ∷ xs) = p x || any p xs

  abbrev pub all : (A → Bool) → List A → Bool
  all p [] = true
  all p (x ∷ xs) = p x && all p xs

  -- The first element that passes a test.
  abbrev pub find? : (A → Bool) → List A → Option A
  find? p [] = none
  find? p (x ∷ xs) = let rest = find? p xs in if p x then some x else rest

  pub count-le-length : (p : A → Bool) (xs : List A) → count p xs ≤ length xs
  count-le-length p [] = omega arith
  count-le-length p (x ∷ xs) = ground (arith, count-le-length p xs)

  pub length-keep : (p : A → Bool) (xs : List A) → length (keep p xs) ≡ count p xs
  length-keep p [] = refl
  length-keep p (x ∷ xs) = ground (arith, length-keep p xs)

  pub count-append : (p : A → Bool) (xs ys : List A) → count p (xs ++ ys) ≡ count p xs + count p ys
  count-append p [] ys = omega arith
  count-append p (x ∷ xs) ys = ground (arith, count-append p xs ys)

  -- Where `find?` stops: nothing before it passes the test.
  abbrev pub Found : (A → Bool) → List A → Type ℓ
  Found p xs =
      (before : List A) × (f : A) × (after : List A) × (xs ≡ before ++ f ∷ after)
      × (any p before ≡ false)
      × (p f ≡ true)
      × (find? p xs ≡ some f)

  pub find?-cases :
      (p : A → Bool) (xs : List A) → ((any p xs ≡ false) × (find? p xs ≡ none)) ⊎ Found p xs
  find?-cases p [] = inl (refl, refl)
  find?-cases p (x ∷ xs) = elim (Bool-cases (p x)) [
    | inl e ↦ inr ([], x, xs, refl, refl, e, rw e)
    | inr e ↦ elim (find?-cases p xs) [
      | inl (n, h) ↦ inl (rw e n, rw e h)
      | inr (before, f, after, split, n, h, r) ↦
          inr (x ∷ before, f, after, ap (◌∷◌ x) split, rw e n, h, rw e r)
    ]
  ]

  pub all-mid : (p : A → Bool) (xs ys : List A) (x : A) → all p (xs ++ x ∷ ys) ≡ true → p x ≡ true
  all-mid p [] ys x h = ground arith
  all-mid p (z ∷ xs) ys x h = all-mid p xs ys x (ground arith)
