-- ===== src/Base/Dict.antt =====
-- A Go map as an association list: `put` replaces the entry of a key, or appends one. A loop over
-- the map runs in the list's order; Go leaves that order open, so theorems range over every list.
use Prim.Native.String.{String}
use mathlib.Core.Path.{◌≡◌, refl, sym, ap, ◌∙◌}
use mathlib.Core.List.{List, [], ◌∷◌}
use mathlib.Core.Option.{Option, none, some, some-injective, none-ne-some}
use mathlib.Core.Option
use native.Mathlib.Omega.{arith}
use text.Mathlib.Text.{◌==◌}
use text.Mathlib.TextEquality.{eq_iff}
use text.Mathlib.TextPositions.{eq_refl}
use mathlib.Core.Logic.{inl, inr}
use bpmn_ai.Base.Tests.{if◌then◌else◌, Option-cases, Bool-cases}
use bpmn_ai.Base.Lists.{any}
use mathlib.Core.Bool.{Bool, true, false}

abbrev pub Dict {ℓ} : Type ℓ → Type ℓ
Dict V = List (String × V)

module _ {ℓ} {V : Type ℓ} where
  unfoldable pub get : String → Dict V → Option V
  get k [] = none
  get k ((j, v) ∷ m) = let rest = get k m in if j == k then some v else rest

  unfoldable pub put : String → V → Dict V → Dict V
  put k v [] = (k, v) ∷ []
  put k v ((j, w) ∷ m) = let rest = put k v m in if j == k then (k, v) ∷ m else (j, w) ∷ rest

  unfoldable pub remove : String → Dict V → Dict V
  remove k [] = []
  remove k ((j, w) ∷ m) = let rest = remove k m in if j == k then rest else (j, w) ∷ rest

  unfoldable pub values : Dict V → List V
  values [] = []
  values ((j, w) ∷ m) = w ∷ values m

  pub get-put :
      (k j : String) (v : V) (m : Dict V) → get j (put k v m) ≡ (if k == j then some v else get j m)
  unfolding get put
  get-put k j v [] = refl
  get-put k j v ((i, w) ∷ m) = ground (arith, eq_iff k j, eq_iff i k, eq_iff i j, get-put k j v m)

  pub get-put_self : (k : String) (v : V) (m : Dict V) → get k (put k v m) ≡ some v
  get-put_self k v m = rw (get-put k k v m, eq_refl k)

  pub get-remove :
      (k j : String) (m : Dict V) → get j (remove k m) ≡ (if k == j then none else get j m)
  unfolding get remove
  get-remove k j [] = ground arith
  get-remove k j ((i, w) ∷ m) = ground (arith, eq_iff k j, eq_iff i k, eq_iff i j, get-remove k j m)

  unfoldable pub keys : Dict V → List String
  keys [] = []
  keys ((j, w) ∷ m) = j ∷ keys m

  -- The entry of a key is changed, if there is one.
  unfoldable pub modify : String → (V → V) → Dict V → Dict V
  modify k f m = elim (get k m) [ none ↦ m | some v ↦ put k (f v) m ]

  pub get-modify :
      (k j : String) (f : V → V) (m : Dict V)
      → get j (modify k f m) ≡ (if k == j then Option.map f (get j m) else get j m)
  unfolding modify
  get-modify k j f m = elim (Option-cases (get k m)) [
    | inl e ↦ ground (arith, eq_iff k j)
    | inr (v, e) ↦ ground (arith, eq_iff k j, get-put k j (f v) m)
  ]

  -- A loop over keys that changes the entry of each.
  unfoldable pub modify_each : (String → V → V) → List String → Dict V → Dict V
  unfolding modify
  modify_each f [] m = m
  modify_each f (k ∷ ks) m = modify_each f ks (modify k (f k) m)

  map_idem :
      (f : V → V)
      → ((v : V) → f (f v) ≡ f v)
      → (b : Bool) (o : Option V)
      → (if b then Option.map f (Option.map f o) else Option.map f o) ≡ Option.map f o
  map_idem f h true none = refl
  map_idem f h true (some v) = ap some (h v)
  map_idem f h false o = refl

  -- Where a second change does nothing, the loop has changed the entries of its keys once.
  pub get-modify_each :
      (f : String → V → V) (k : String)
      → ((v : V) → f k (f k v) ≡ f k v)
      → (ks : List String) (m : Dict V)
      → get k (modify_each f ks m)
        ≡ (if any (λ j. j == k) ks then Option.map (f k) (get k m) else get k m)
  unfolding modify_each
  get-modify_each f k h [] m = refl
  get-modify_each f k h (j ∷ ks) m = elim (Bool-cases (j == k)) [
    | inl e ↦
        get-modify_each f k h ks (modify j (f j) m)
        ∙ rw (get-modify j k (f j) m, e, (eq_iff j k).0 e)
            (map_idem (f k) h (any (λ i. i == k) ks) (get k m))
    | inr e ↦ get-modify_each f k h ks (modify j (f j) m) ∙ rw (get-modify j k (f j) m, e) refl
  ]

  -- Every entry stands under the key that its value names.
  abbrev pub IsKeyed : (V → String) → Dict V → Type ℓ
  IsKeyed id_of m = (k : String) (v : V) → get k m ≡ some v → id_of v ≡ k

  pub nil-IsKeyed : (id_of : V → String) → IsKeyed id_of []
  unfolding get
  nil-IsKeyed id_of k v e = absurd (none-ne-some v e)

  pub put-IsKeyed :
      (id_of : V → String) (k : String) (v : V) (m : Dict V)
      → id_of v ≡ k
      → IsKeyed id_of m
      → IsKeyed id_of (put k v m)
  put-IsKeyed id_of k v m e h j w g = elim (Bool-cases (k == j)) [
    | inl i ↦
        ap id_of (sym (some-injective v w (sym (rw (get-put k j v m, i) refl) ∙ g)))
        ∙ e
        ∙ (eq_iff k j).0 i
    | inr i ↦ h j w (sym (rw (get-put k j v m, i) refl) ∙ g)
  ]

  pub modify-IsKeyed :
      (id_of : V → String) (k : String) (f : V → V) (m : Dict V)
      → ((v : V) → id_of (f v) ≡ id_of v)
      → IsKeyed id_of m
      → IsKeyed id_of (modify k f m)
  modify-IsKeyed id_of k f m e h j w g = elim (Bool-cases (k == j)) [
    | inl i ↦ elim (Option-cases (get j m)) [
      | inl n ↦ h j w (n ∙ sym (rw (get-modify k j f m, i, n) refl) ∙ g)
      | inr (v, n) ↦
          ap id_of (sym (some-injective (f v) w (sym (rw (get-modify k j f m, i, n) refl) ∙ g)))
          ∙ e v
          ∙ h j v n
    ]
    | inr i ↦ h j w (sym (rw (get-modify k j f m, i) refl) ∙ g)
  ]

  pub modify_each-IsKeyed :
      (id_of : V → String) (f : String → V → V) (ks : List String) (m : Dict V)
      → ((k : String) (v : V) → id_of (f k v) ≡ id_of v)
      → IsKeyed id_of m
      → IsKeyed id_of (modify_each f ks m)
  unfolding modify_each
  modify_each-IsKeyed id_of f [] m e h = h
  modify_each-IsKeyed id_of f (k ∷ ks) m e h =
      modify_each-IsKeyed id_of f ks (modify k (f k) m) e (modify-IsKeyed id_of k (f k) m (e k) h)
