-- ===== src/Ai/Router.antt =====
-- pkg/ai/router.go: the pool of providers and the choice of a provider and a model. A provider is a
-- value of a type `G`. `order` says in which order Go visits a map: `catalog` for findBestMatch and
-- `pool` for List.
pub mod Tables
pub mod Best
pub mod Resolve
use bpmn_ai.Base.{
  ℕ, String, Bool, true, false, not, ◌&&◌, ◌||◌, List, [], ◌∷◌, Option, none, some, ◌==◌, is_empty,
  if◌then◌else◌, ◌≡◌, refl,
}
use bpmn_ai.Base.Dict.{Dict, get, put, keys, values}
use bpmn_ai.Base.Text.{cut}
use Prim.Native.String.{◌++◌ as append}
use bpmn_ai.Errors.{Result, ok, err, message}
use bpmn_ai.Ai.Float.{Floats}
use bpmn_ai.Ai.Router.Tables.{
  ModelInfo, Profile, default_catalog, model_aliases, lab_aliases, default_profiles,
}

abbrev pub ProviderPool : Type 0 → Type 0
ProviderPool G = Dict G

unfoldable pub add_provider : {G : Type 0} → String → G → ProviderPool G → ProviderPool G
add_provider name g p = put name g p

pub record ModelRouter (F G : Type 0) : Type 0 where
  pub pool : ProviderPool G
  pub catalog : Dict (ModelInfo F)
  pub aliases : Dict String
  pub profiles : Dict Profile

unfoldable pub new_model_router : {F G : Type 0} → Floats F → ProviderPool G → ModelRouter F G
new_model_router x pool = record {
  pool = pool;
  catalog = default_catalog x;
  aliases = model_aliases;
  profiles = default_profiles;
}

unfoldable pub add_model : {F G : Type 0} → ModelInfo F → ModelRouter F G → ModelRouter F G
add_model i r = record r { catalog = put (append i.provider (append "/" i.name)) i r.catalog }

unfoldable pub add_alias : {F G : Type 0} → String → String → ModelRouter F G → ModelRouter F G
add_alias short qualified r = record r { aliases = put short qualified r.aliases }

unfoldable pub add_profile : {F G : Type 0} → String → Profile → ModelRouter F G → ModelRouter F G
add_profile name p r = record r { profiles = put name p r.profiles }

unfoldable pub put_all : Dict Profile → Dict Profile → Dict Profile
put_all [] m = m
put_all ((k, p) ∷ ps) m = put_all ps (put k p m)

unfoldable pub set_profiles : {F G : Type 0} → Dict Profile → ModelRouter F G → ModelRouter F G
unfolding put_all
set_profiles ps r = record r { profiles = put_all ps r.profiles }

unfoldable pub list_models : {F G : Type 0} → ModelRouter F G → List (ModelInfo F)
list_models r = values r.catalog

-- The provider and the model around the first slash, if something stands before it.
unfoldable pub split_model_name : String → String × String
split_model_name s = elim (cut b'/' s) [
  | none ↦ ("", s)
  | some (provider, model) ↦ if is_empty provider then ("", s) else (provider, model)
]

abbrev no_profile : Profile
no_profile = record { model = ""; max_tokens = 0; priority = "" }

abbrev or_zero : Option Profile → Profile
or_zero none = no_profile
or_zero (some p) = p

unfoldable pub resolve_profile : {F G : Type 0} → String → ModelRouter F G → Profile
resolve_profile name r = elim (get (if is_empty name then "auto" else name) r.profiles) [
  | none ↦ or_zero (get "auto" r.profiles)
  | some p ↦ p
]

abbrev named_or : String → String → String
named_or model whole = if is_empty model then whole else model

-- What findBestMatch asks of a model before it looks at the hint.
unfoldable pub is_eligible : {F : Type 0} → Bool → Bool → String → ModelInfo F → Bool
is_eligible tools json exclude i =
    not (not (is_empty exclude) && i.provider == exclude)
    && not (tools && not i.supports_tools)
    && not (json && not i.supports_json)

unfoldable pub score : {F : Type 0} → Floats F → ModelInfo F → F
score x i =
    let base = x.over (x.of_int i.context_win) (x.of_int 1000) in
    let with_tools = if i.supports_tools then x.plus base (x.of_int 50) else base in
    if i.supports_json then x.plus with_tools (x.of_int 20) else with_tools

abbrev pub hint_name : String → String
hint_name hint = named_or (split_model_name hint).1 hint

-- The loop over the catalog: `best` and `top` are the best key so far and its score. A model of the
-- name that the hint asks for ends it.
unfoldable pub search_best :
    {F : Type 0}
    → Floats F
    → Bool
    → Bool
    → String
    → String
    → List String
    → Dict (ModelInfo F)
    → String
    → F
    → String
unfolding is_eligible score
search_best x tools json exclude hint [] catalog best top = best
search_best x tools json exclude hint (k ∷ ks) catalog best top = elim (get k catalog) [
  | none ↦ search_best x tools json exclude hint ks catalog best top
  | some i ↦ elim (is_eligible tools json exclude i) [
    | false ↦ search_best x tools json exclude hint ks catalog best top
    | true ↦ elim (not (is_empty hint) && i.name == hint_name hint) [
      | true ↦ k
      | false ↦ elim (x.above (score x i) top) [
        | true ↦ search_best x tools json exclude hint ks catalog k (score x i)
        | false ↦ search_best x tools json exclude hint ks catalog best top
      ]
    ]
  ]
]

pub record Order : Type 0 where
  pub catalog : List String → List String
  pub pool : List String → List String

unfoldable pub find_best_match :
    {F G : Type 0} → Floats F → Order → Bool → Bool → String → String → ModelRouter F G → String
unfolding search_best
find_best_match x o tools json exclude hint r =
    search_best x tools json exclude hint (o.catalog (keys r.catalog)) r.catalog "" (x.of_int 0)

-- The provider of a model of the catalog, if the pool has it, with the model's key.
unfoldable pub provided : {F G : Type 0} → String → ModelRouter F G → Option (G × String)
provided k r =
    if is_empty k
    then none
    else elim (get (elim (get k r.catalog) [ none ↦ "" | some i ↦ i.provider ]) r.pool) [
      | none ↦ none
      | some g ↦ some (g, k)
    ]

abbrev or_default : {A : Type 0} → Option A → A → A
or_default none a = a
or_default (some b) a = b

abbrev or_else : {A : Type 0} → Option A → Option A → Option A
or_else none b = b
or_else (some a) b = some a

abbrev pub lacks_capability : {F : Type 0} → Bool → Bool → ModelInfo F → Bool
lacks_capability tools json i = (tools && not i.supports_tools) || (json && not i.supports_json)

-- The part of Resolve for a model that the catalog has; `p` is what the pool has for its provider.
unfoldable pub from_catalog :
    {F G : Type 0}
    → Floats F
    → Order
    → Bool
    → Bool
    → String
    → ModelInfo F
    → Option G
    → ModelRouter F G
    → Option (G × String)
unfolding find_best_match provided
from_catalog x o tools json name i (some g) r =
    if lacks_capability tools json i
    then some (or_default (provided (find_best_match x o tools json i.provider "" r) r) (g, name))
    else some (g, name)
from_catalog x o tools json name i none r = provided (find_best_match x o tools json "" name r) r

-- The part of Resolve for a name with a provider before its slash.
unfoldable pub from_prefix : {G : Type 0} → String → String → ProviderPool G → Option (G × String)
from_prefix provider model pool = if is_empty provider then none else elim (get provider pool) [
  | some g ↦ some (g, model)
  | none ↦ elim (get provider lab_aliases) [
    | none ↦ none
    | some a ↦ elim (get a pool) [ none ↦ none | some g ↦ some (g, model) ]
  ]
]

-- resolveAnyProvider, with the names that List yields.
unfoldable pub resolve_any :
    {G : Type 0} → List String → String → ProviderPool G → Result (G × String)
resolve_any [] name pool = err (message "no AI providers configured")
resolve_any (n ∷ ns) name pool = elim (get n pool) [
  | none ↦ err (message "provider not found")
  | some g ↦ ok (g, hint_name name)
]

abbrev or_any : {G : Type 0} → Option (G × String) → Result (G × String) → Result (G × String)
or_any none d = d
or_any (some a) d = ok a

-- The name that is asked for, or that of the profile, with its alias expanded.
unfoldable pub expanded : {F G : Type 0} → String → String → ModelRouter F G → String
unfolding resolve_profile
expanded profile name r =
    let asked = if is_empty name then (resolve_profile profile r).model else name in
    or_default (get asked r.aliases) asked

unfoldable pub in_catalog :
    {F G : Type 0}
    → Floats F
    → Order
    → Bool
    → Bool
    → String
    → Option (ModelInfo F)
    → ModelRouter F G
    → Option (G × String)
unfolding from_catalog
in_catalog x o tools json name none r = none
in_catalog x o tools json name (some i) r =
    from_catalog x o tools json name i (get i.provider r.pool) r

unfoldable pub resolve :
    {F G : Type 0}
    → Floats F
    → Order
    → String
    → String
    → Bool
    → Bool
    → ModelRouter F G
    → Result (G × String)
unfolding in_catalog from_prefix resolve_any expanded split_model_name
resolve x o profile name tools json r =
    let model = expanded profile name r in
    let parts = split_model_name model in
    or_any
      (or_else (in_catalog x o tools json model (get model r.catalog) r)
        (from_prefix parts.0 parts.1 r.pool))
      (resolve_any (o.pool (keys r.pool)) model r.pool)
