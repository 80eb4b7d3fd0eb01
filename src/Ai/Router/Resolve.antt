-- ===== src/Ai/Router/Resolve.antt =====
-- pkg/ai/router.go: Resolve answers with a provider of the pool, whatever it is asked for.
use bpmn_ai.Base.{
  String, Bool, List, ◌∷◌, Option, none, some, is_empty, ◌≡◌, refl, inl, inr, Bool-cases,
}
use bpmn_ai.Base.Dict.{get, keys}
use bpmn_ai.Errors.{ok}
use bpmn_ai.Ai.Float.{Floats}
use bpmn_ai.Ai.Router
use bpmn_ai.Ai.Router.{
  ModelRouter, ProviderPool, Order, provided, find_best_match, from_catalog, in_catalog,
  from_prefix, resolve_any, resolve, lacks_capability, expanded, split_model_name, hint_name,
}
use bpmn_ai.Ai.Router.Tables.{ModelInfo, lab_aliases}

module _ {G : Type 0} (pool : ProviderPool G) where
  -- The pool has this provider.
  abbrev pub Has : G → Type 0
  Has g = (n : String) × (get n pool ≡ some g)

  -- If there is an answer, its provider is in the pool.
  abbrev AllHas : Option (G × String) → Type 0
  AllHas none = Unit
  AllHas (some (g, m)) = Has g

  found :
      (n m : String) (o : Option G)
      → get n pool ≡ o
      → AllHas (elim o [ none ↦ none | some g ↦ some (g, m) ])
  found n m none e = tt
  found n m (some g) e = (n, e)

  or_default-Has :
      (o : Option (G × String)) (g : G) (m : String)
      → AllHas o
      → Has g
      → Has (Router.or_default o (g, m)).0
  or_default-Has none g m h d = d
  or_default-Has (some (a, n)) g m h d = h

  or_else-Has : (o p : Option (G × String)) → AllHas o → AllHas p → AllHas (Router.or_else o p)
  or_else-Has none p h k = k
  or_else-Has (some (a, n)) p h k = h

  lab_alias-Has :
      (model : String) (o : Option String)
      → AllHas (elim o [
        | none ↦ none
        | some a ↦ elim (get a pool) [ none ↦ none | some g ↦ some (g, model) ]
      ])
  lab_alias-Has model none = tt
  lab_alias-Has model (some a) = found a model (get a pool) refl

  prefix_found-Has :
      (provider model : String) (o : Option G)
      → get provider pool ≡ o
      → AllHas (elim o [
        | some g ↦ some (g, model)
        | none ↦ elim (get provider lab_aliases) [
          | none ↦ none
          | some a ↦ elim (get a pool) [ none ↦ none | some g ↦ some (g, model) ]
        ]
      ])
  prefix_found-Has provider model none e = lab_alias-Has model (get provider lab_aliases)
  prefix_found-Has provider model (some g) e = (provider, e)

  from_prefix-Has : (provider model : String) → AllHas (from_prefix provider model pool)
  unfolding from_prefix
  from_prefix-Has provider model = elim (Bool-cases (is_empty provider)) [
    | inl e ↦ rw e tt
    | inr e ↦ rw e (prefix_found-Has provider model (get provider pool) refl)
  ]

  -- The answer of Resolve from its two parts and the first provider of the list.
  or_any-Has :
      (o : Option (G × String)) (n : String) (ns : List String) (h : G) (model : String)
      → AllHas o
      → get n pool ≡ some h
      → (g : G) × (m : String) × (Router.or_any o (resolve_any (n ∷ ns) model pool) ≡ ok (g, m))
        × Has g
  unfolding resolve_any
  or_any-Has none n ns h model k e = (h, hint_name model, rw (resolve_any, e) refl, (n, e))
  or_any-Has (some (g, m)) n ns h model k e = (g, m, refl, k)

module _ {F G : Type 0} (x : Floats F) (o : Order) (tools json : Bool) (r : ModelRouter F G) where
  provided-Has : (k : String) → AllHas r.pool (provided k r)
  unfolding provided
  provided-Has k = elim (Bool-cases (is_empty k)) [
    | inl e ↦ rw e tt
    | inr e ↦ rw e (found r.pool _ k _ refl)
  ]

  from_catalog-Has :
      (name : String) (i : ModelInfo F) (p : Option G)
      → get i.provider r.pool ≡ p
      → AllHas r.pool (from_catalog x o tools json name i p r)
  unfolding from_catalog
  from_catalog-Has name i none e = provided-Has (find_best_match x o tools json "" name r)
  from_catalog-Has name i (some g) e = elim (Bool-cases (lacks_capability tools json i)) [
    | inl l ↦ rw l (
        or_default-Has r.pool (provided (find_best_match x o tools json i.provider "" r) r) g name
          (provided-Has (find_best_match x o tools json i.provider "" r)) (i.provider, e))
    | inr l ↦ rw l (i.provider, e)
  ]

  in_catalog-Has :
      (name : String) (i : Option (ModelInfo F))
      → AllHas r.pool (in_catalog x o tools json name i r)
  unfolding in_catalog
  in_catalog-Has name none = tt
  in_catalog-Has name (some i) = from_catalog-Has name i (get i.provider r.pool) refl

  -- If a provider is registered, Resolve finds an answer for every profile, model and demand, also
  -- for those that it does not know, and the provider that it answers with is registered.
  pub resolve_total :
      (profile name n : String) (ns : List String) (h : G)
      → o.pool (keys r.pool) ≡ n ∷ ns
      → get n r.pool ≡ some h
      → (g : G) × (m : String) × (resolve x o profile name tools json r ≡ ok (g, m)) × Has r.pool g
  unfolding resolve
  resolve_total profile name n ns h order e =
      let model = expanded profile name r in
      let parts = split_model_name model in
      rw order (
        or_any-Has r.pool
          (Router.or_else (in_catalog x o tools json model (get model r.catalog) r)
            (from_prefix parts.0 parts.1 r.pool))
          n ns h model
          (or_else-Has r.pool _ _ (in_catalog-Has model (get model r.catalog))
            (from_prefix-Has r.pool parts.0 parts.1))
          e)
