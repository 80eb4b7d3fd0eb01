-- ===== src/Ai/Prompt.antt =====
-- pkg/ai/prompt.go: prompts with numbered versions. `hash` is hashPrompt, which stands on SHA-256;
-- `scan` is what `fmt.Sscanf` leaves in the version, 0 if nothing is scanned, or below; `order` is
-- the order in which Go visits the map, and `sort` is `sort.Strings`.
pub mod Versions
use bpmn_ai.Base.{
  ℕ, suc, ◌+◌, String, Bool, true, false, List, [], ◌∷◌, ◌++◌, Option, none, some, ◌==◌, find?,
  is_empty, leb, nat_eq, if◌then◌else◌,
}
use bpmn_ai.Base.Dict.{Dict, get, put, keys}
use bpmn_ai.Base.Text.{cut}

pub record PromptTemplate : Type 0 where
  pub name : String
  pub version : ℕ
  pub body : String
  pub sha256 : String

unfoldable pub new_prompt_template : (String → String) → String → String → ℕ → PromptTemplate
new_prompt_template hash name body version = record {
  name = name;
  version = version;
  body = body;
  sha256 = hash body;
}

abbrev pub PromptManager : Type 0
PromptManager = Dict (List PromptTemplate)

unfoldable pub last : {A : Type 0} → List A → Option A
last [] = none
last (x ∷ []) = some x
last (x ∷ y ∷ ys) = last (y ∷ ys)

abbrev pub or_empty : Option (List PromptTemplate) → List PromptTemplate
or_empty none = []
or_empty (some ts) = ts

-- A missing name has no versions.
unfoldable pub versions_of : String → PromptManager → List PromptTemplate
versions_of name m = or_empty (get name m)

-- What Register makes of the versions so far and the latest of them.
unfoldable pub add_version :
    (String → String)
    → String
    → String
    → List PromptTemplate
    → Option PromptTemplate
    → Option (List PromptTemplate)
unfolding new_prompt_template
add_version hash name body versions none =
    some (versions ++ new_prompt_template hash name body 1 ∷ [])
add_version hash name body versions (some t) =
    if t.body == body
    then none
    else some (versions ++ new_prompt_template hash name body (t.version + 1) ∷ [])

abbrev put_versions : String → Option (List PromptTemplate) → PromptManager → PromptManager
put_versions name none m = m
put_versions name (some ts) m = put name ts m

unfoldable pub register_prompt : (String → String) → String → String → PromptManager → PromptManager
unfolding add_version versions_of last
register_prompt hash name body m =
    let versions = versions_of name m in
    put_versions name (add_version hash name body versions (last versions)) m

-- A name has at least one version, so that the latest one is there.
unfoldable pub get_prompt : String → ℕ → PromptManager → Option PromptTemplate
unfolding last
get_prompt name version m = elim (get name m) [
  | none ↦ none
  | some ts ↦ if leb version 0 then last ts else find? (λ t. nat_eq t.version version) ts
]

unfoldable pub get_latest : String → PromptManager → Option PromptTemplate
unfolding get_prompt
get_latest name m = get_prompt name 0 m

abbrev or_rest : Option PromptTemplate → Option PromptTemplate → Option PromptTemplate
or_rest none rest = rest
or_rest (some t) rest = some t

unfoldable pub find_hash : String → List String → PromptManager → Option PromptTemplate
unfolding versions_of
find_hash h [] m = none
find_hash h (name ∷ names) m =
    or_rest (find? (λ t. t.sha256 == h) (versions_of name m)) (find_hash h names m)

unfoldable pub get_by_hash :
    (List String → List String) → String → PromptManager → Option PromptTemplate
unfolding find_hash
get_by_hash order h m = find_hash h (order (keys m)) m

unfoldable pub list_prompts :
    (List String → List String) → (List String → List String) → PromptManager → List String
list_prompts sort order m = sort (order (keys m))

abbrev body_and_hash : Option PromptTemplate → Option (String × String)
body_and_hash none = none
body_and_hash (some t) = some (t.body, t.sha256)

-- Where a text has the separator, and not at its start.
abbrev split_at : ℕ → String → Option (String × String)
split_at c s = elim (cut c s) [
  | none ↦ none
  | some (name, rest) ↦ if is_empty name then none else some (name, rest)
]

unfoldable pub resolve_prompt :
    (String → ℕ) → (List String → List String) → String → PromptManager → Option (String × String)
unfolding get_prompt get_by_hash
resolve_prompt scan order ref m = elim (split_at b'@' ref) [
  | some (name, version) ↦ body_and_hash (get_prompt name (scan version) m)
  | none ↦ elim (split_at b'#' ref) [
    | some (name, h) ↦ body_and_hash (get_by_hash order h m)
    | none ↦ body_and_hash (get_prompt ref 0 m)
  ]
]
