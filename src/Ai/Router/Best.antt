-- ===== src/Ai/Router/Best.antt =====
-- pkg/ai/router.go: findBestMatch finds a model that is eligible and of no lower score than another.
use bpmn_ai.Base.{
  String, Bool, true, false, List, [], ◌∷◌, none, some, ◌==◌, any, if◌then◌else◌, ◌≡◌, refl, ap,
  sym, ◌∙◌, ◌⊎◌, inl, inr, Bool-cases, Option-cases, eq_iff, arith,
}
use mathlib.Core.Bool.{true≢false}
use mathlib.Core.Path.{subst}
use mathlib.Core.Option.{none-ne-some, some-injective}
use bpmn_ai.Base.Dict.{Dict, get, keys}
use bpmn_ai.Ai.Float.{Floats, IsOrdered}
use bpmn_ai.Ai.Router.{ModelRouter, Order, search_best, find_best_match, is_eligible, score}
use bpmn_ai.Ai.Router.Tables.{ModelInfo}

module _ {F : Type 0} (x : Floats F) (tools json : Bool) (exclude : String)
    (catalog : Dict (ModelInfo F)) where
  -- The key of an eligible model and its score; or no key, with 0.
  abbrev pub Scores : String → F → Type 0
  Scores k top =
      ((k ≡ "") × (top ≡ x.of_int 0))
      ⊎ ((i : ModelInfo F) × (get k catalog ≡ some i)
          × (is_eligible tools json exclude i ≡ true)
          × (top ≡ score x i))

  -- Of the models under these keys, no eligible one scores higher.
  abbrev pub Tops : List String → F → Type 0
  Tops ks top =
      (k : String) (i : ModelInfo F)
      → any (λ j. j == k) ks ≡ true
      → get k catalog ≡ some i
      → is_eligible tools json exclude i ≡ true
      → x.above (score x i) top ≡ false

  raise : IsOrdered x → (a b c : F) → x.above b a ≡ true → x.above c a ≡ false → x.above c b ≡ false
  raise (irrefl, trans) a b c h n = elim (Bool-cases (x.above c b)) [
    | inl t ↦ absurd (true≢false (sym (trans c b a t h) ∙ n))
    | inr t ↦ t
  ]

  -- What the loop yields from a key of this score.
  abbrev Improves : F → List String → String → Type 0
  Improves top ks best =
      (high : F) × Scores best high
      × ((c : F) → x.above c top ≡ false → x.above c high ≡ false)
      × Tops ks high

  Tops-cons :
      (k : String) (ks : List String) (high : F)
      → ((i : ModelInfo F)
          → get k catalog ≡ some i
          → is_eligible tools json exclude i ≡ true
          → x.above (score x i) high ≡ false)
      → Tops ks high
      → Tops (k ∷ ks) high
  Tops-cons k ks high here later j i e g t = elim (Bool-cases (k == j)) [
    | inl s ↦ here i (ap (λ z. get z catalog) ((eq_iff k j).0 s) ∙ g) t
    | inr s ↦ later j i (ground arith) g t
  ]

  skip :
      (k : String) (ks : List String) (top : F) (best : String)
      → ((i : ModelInfo F)
          → get k catalog ≡ some i
          → is_eligible tools json exclude i ≡ true
          → x.above (score x i) top ≡ false)
      → Improves top ks best
      → Improves top (k ∷ ks) best
  skip k ks top best here (high, s, up, tops) =
      (high, s, up, Tops-cons k ks high (λ i g t. up (score x i) (here i g t)) tops)

  abbrev find : List String → String → F → String
  find ks best top = search_best x tools json exclude "" ks catalog best top

  find_missing :
      (k : String) (ks : List String) (best : String) (top : F)
      → get k catalog ≡ none
      → find (k ∷ ks) best top ≡ find ks best top
  unfolding search_best
  find_missing k ks best top n = rw (search_best, n) refl

  find_ineligible :
      (k : String) (ks : List String) (best : String) (top : F) (i : ModelInfo F)
      → get k catalog ≡ some i
      → is_eligible tools json exclude i ≡ false
      → find (k ∷ ks) best top ≡ find ks best top
  unfolding search_best
  find_ineligible k ks best top i g e = rw (search_best, g, e) refl

  find_compared :
      (k : String) (ks : List String) (best : String) (top : F) (i : ModelInfo F) (b : Bool)
      → get k catalog ≡ some i
      → is_eligible tools json exclude i ≡ true
      → x.above (score x i) top ≡ b
      → find (k ∷ ks) best top ≡ (if b then find ks k (score x i) else find ks best top)
  unfolding search_best
  find_compared k ks best top i true g e a = rw (search_best, g, e, a) refl
  find_compared k ks best top i false g e a = rw (search_best, g, e, a) refl

  climb :
      IsOrdered x
      → (k : String) (ks : List String) (top : F) (best : String) (i : ModelInfo F)
      → get k catalog ≡ some i
      → x.above (score x i) top ≡ true
      → Improves (score x i) ks best
      → Improves top (k ∷ ks) best
  climb (irrefl, trans) k ks top best i g a (high, s, up, tops) = (
    high,
    s,
    λ c n. up c (raise (irrefl, trans) top (score x i) c a n),
    Tops-cons k ks high
        (λ j h t. up (score x j) (
          ap (λ m. x.above (score x m) (score x i)) (some-injective j i (sym h ∙ g))
          ∙ irrefl (score x i)))
        tops,
  )

  search_best-Improves :
      IsOrdered x
      → (ks : List String) (best : String) (top : F) → Scores best top
      → Improves top ks (find ks best top)
  unfolding search_best
  search_best-Improves o [] best top s =
      (top, s, λ c n. n, λ k i e g t. absurd (true≢false (sym e)))
  search_best-Improves o (k ∷ ks) best top s = elim (Option-cases (get k catalog)) [
    | inl n ↦ subst (Improves top (k ∷ ks)) (sym (find_missing k ks best top n)) (
        skip k ks top _ (λ i g t. absurd (none-ne-some i (sym n ∙ g)))
          (search_best-Improves o ks best top s))
    | inr (i, g) ↦ elim (Bool-cases (is_eligible tools json exclude i)) [
      | inr e ↦ subst (Improves top (k ∷ ks)) (sym (find_ineligible k ks best top i g e)) (
          skip k ks top _
            (λ j h t. absurd (
              true≢false
                (sym t ∙ ap (is_eligible tools json exclude) (some-injective j i (sym h ∙ g)) ∙ e)))
            (search_best-Improves o ks best top s))
      | inl e ↦ elim (Bool-cases (x.above (score x i) top)) [
        | inr a ↦ subst (Improves top (k ∷ ks)) (sym (find_compared k ks best top i false g e a)) (
            skip k ks top _
              (λ j h t. ap (λ m. x.above (score x m) top) (some-injective j i (sym h ∙ g)) ∙ a)
              (search_best-Improves o ks best top s))
        | inl a ↦ subst (Improves top (k ∷ ks)) (sym (find_compared k ks best top i true g e a)) (
            climb o k ks top _ i g a
              (search_best-Improves o ks k (score x i) (inr (i, g, e, refl))))
      ]
    ]
  ]

-- Without a hint, findBestMatch yields the key of a model that has the capabilities asked for, is
-- not of the excluded provider, and than which no such model of the catalog has a higher score, in
-- whatever order the catalog is visited; it yields no key only if none scores above 0.
pub find_best_match-Tops :
    {F G : Type 0} (x : Floats F) (o : Order) (tools json : Bool) (exclude : String)
    (r : ModelRouter F G)
    → IsOrdered x
    → (high : F) × Scores x tools json exclude r.catalog
        (find_best_match x o tools json exclude "" r)
        high
      × Tops x tools json exclude r.catalog (o.catalog (keys r.catalog)) high
unfolding find_best_match
find_best_match-Tops x o tools json exclude r h =
    let (high, s, up, tops) =
      search_best-Improves x tools json exclude r.catalog h (o.catalog (keys r.catalog)) ""
        (x.of_int 0) (inl (refl, refl)) in
    (high, s, tops)
