-- ===== src/Ai/Rag.antt =====
-- pkg/ai/rag.go: prompts enriched with the documents of a collection. The embedder and the stores of
-- vectors are values of interfaces, here functions; `V` is a vector and `S` a store. `decimal` prints
-- a number.
use Prim.Native.String.{◌++◌ as append}
use bpmn_ai.Base.{ℕ, ◌+◌, String, List, [], ◌∷◌, map, Option, none, some, is_empty, if◌then◌else◌}
use bpmn_ai.Base.Dict.{Dict, get, put}
use bpmn_ai.Errors.{Error, Result, ok, err, message}

pub record Document : Type 0 where
  pub id : String
  pub content : String

pub record RagSystem (S V W : Type 0) : Type 0 where
  pub embed : List String → String → W → Result (List V) × W
  pub model : String
  pub stores : Dict S
  pub search : S → V → ℕ → Result (List Document)
  pub insert : S → List Document → List V → Result S

unfoldable pub list_documents : (ℕ → String) → ℕ → List Document → String
list_documents decimal n [] = ""
list_documents decimal n (d ∷ ds) =
    append (append "\n[" (append (decimal n) (append "] " (append d.content "\n"))))
      (list_documents decimal (n + 1) ds)

unfoldable pub with_documents : (ℕ → String) → String → Result (List Document) → Result String
unfolding list_documents
with_documents decimal prompt (err e) = err e
with_documents decimal prompt (ok []) = ok prompt
with_documents decimal prompt (ok (d ∷ ds)) =
    ok (append prompt (append "\n\nRelevant context:\n" (list_documents decimal 1 (d ∷ ds))))

module _ {S V W : Type 0} where
  unfoldable pub add_collection : String → S → RagSystem S V W → RagSystem S V W
  add_collection name s r = record r { stores = put name s r.stores }

  unfoldable pub search_first : RagSystem S V W → S → ℕ → Result (List V) → Result (List Document)
  search_first r s k (err e) = err (Error.wrap "query embedding" e)
  search_first r s k (ok []) = ok []
  search_first r s k (ok (v ∷ vs)) = r.search s v k

  unfoldable pub search_found :
      RagSystem S V W → String → ℕ → Option S → W → Result (List Document) × W
  unfolding search_first
  search_found r query k none w = (ok [], w)
  search_found r query k (some s) w =
      let answer = r.embed (query ∷ []) r.model w in (search_first r s k answer.0, answer.1)

  unfoldable pub retrieve : RagSystem S V W → String → String → ℕ → W → Result (List Document) × W
  unfolding search_found
  retrieve r collection query k w = search_found r query k (get collection r.stores) w

  unfoldable pub enrich_prompt :
      (ℕ → String) → RagSystem S V W → String → String → ℕ → W → Result String × W
  unfolding retrieve with_documents
  enrich_prompt decimal r collection prompt k w =
      let found = retrieve r collection prompt k w in
      if is_empty collection
      then (ok prompt, w)
      else (with_documents decimal prompt found.0, found.1)

  unfoldable pub insert_embedded :
      String → S → List Document → RagSystem S V W → Result (List V) → Result (RagSystem S V W)
  insert_embedded collection s ds r (err e) = err (Error.wrap "embedding" e)
  insert_embedded collection s ds r (ok vs) = elim (r.insert s ds vs) [
    | err e ↦ err e
    | ok t ↦ ok (record r { stores = put collection t r.stores })
  ]

  unfoldable pub index_found :
      String → List Document → RagSystem S V W → Option S → W → Result (RagSystem S V W) × W
  unfolding insert_embedded
  index_found collection ds r none w = (err (message "collection not found"), w)
  index_found collection ds r (some s) w =
      let answer = r.embed (map (λ d. d.content) ds) r.model w in
      (insert_embedded collection s ds r answer.0, answer.1)

  unfoldable pub index_documents :
      String → List Document → RagSystem S V W → W → Result (RagSystem S V W) × W
  unfolding index_found
  index_documents collection ds r w = index_found collection ds r (get collection r.stores) w
