-- ===== src/Engine/CallActivity/Own.antt =====
-- internal/engine/engine.go, the flattening in `handleResult` where the store hands out the process
-- of the instance itself. Its maps grow while the loops visit them, so the keys that a loop comes to
-- are an argument, and so may be those that it adds. An element and its copies share their lists of
-- flows and their extension data: a copy is known by the prefixes before the same identifier.
use Prim.Native.Nat.{ℕ, zero, suc}
use Prim.Native.String.{◌++◌ as append}
use text.Mathlib.Text.{starts_with}
use bpmn_ai.Base.{◌-◌, String, List, [], ◌∷◌, Option, none, some, ◌==◌, if◌then◌else◌}
use bpmn_ai.Base.Dict.{Dict, get, put}
use bpmn_ai.Base.Text.{characters, join}
use bpmn_ai.Engine.CallActivity.{
  prefix_of, rename_flows, rename_flow, is_end_event, entry_flow, set_exits, exit_flows,
  outgoing_of, not_nil,
}
use bpmn_ai.Model.{Element, Flow, Process}

-- What is left of a text after `n` characters and the prefixes that follow them.
unfoldable pub strip_after : String → ℕ → String → String
strip_after prefix n String.[] = ""
strip_after prefix (suc n) (String.◌∷◌ x s) = strip_after prefix n s
strip_after prefix zero (String.◌∷◌ x s) =
    let rest = strip_after prefix (characters prefix - 1) s in
    if starts_with (String.◌∷◌ x s) prefix then rest else String.◌∷◌ x s

unfoldable pub origin : String → String → String
unfolding strip_after
origin prefix id = strip_after prefix 0 id

-- A change through what an element and its copies share.
unfoldable pub change_copies : String → String → (Element → Element) → Dict Element → Dict Element
unfolding origin
change_copies prefix id f [] = []
change_copies prefix id f ((k, e) ∷ rest) =
    let others = change_copies prefix id f rest in
    if origin prefix k == origin prefix id then (k, f e) ∷ others else (k, e) ∷ others

-- The loop over the elements.
unfoldable pub copy_own_elements : String → List String → Dict Element → Dict Element
unfolding change_copies
copy_own_elements prefix [] es = es
copy_own_elements prefix (id ∷ ids) es = copy_own_elements prefix ids (elim (get id es) [
  | none ↦ es
  | some e ↦
      put (append prefix id) (record (rename_flows prefix e) { id = append prefix id })
        (change_copies prefix id (rename_flows prefix) es)
])

-- The first end event that the loop comes to; an element and its copies are of one type.
unfoldable pub first_end : List String → Dict Element → Option String
first_end [] es = none
first_end (id ∷ ids) es =
    let later = first_end ids es in
    elim (get id es) [ none ↦ later | some e ↦ if is_end_event e.type then some id else later ]

-- The loop over the flows.
unfoldable pub copy_own_flows : String → List String → Dict Flow → Dict Flow
copy_own_flows prefix [] fs = fs
copy_own_flows prefix (id ∷ ids) fs =
    copy_own_flows prefix ids (elim (get id fs) [
      | none ↦ fs
      | some f ↦ put (append prefix id) (rename_flow prefix id f) fs
    ])

-- Extension data that is not nil is one map for all copies.
unfoldable pub note_exits : String → List String → Option String → Dict Element → Dict Element
unfolding change_copies
note_exits prefix exits none es = es
note_exits prefix exits (some id) es =
    change_copies prefix id
      (λ e.
        if not_nil e.extension_data
        then record e {
          extension_data = put "subprocess_exit_flows" (join "," exits) e.extension_data;
        }
        else e)
      es

unfoldable pub flatten_own : List String → List String → String → Process → Process
unfolding copy_own_elements first_end copy_own_flows note_exits
flatten_own elements flows caller own =
    let prefix = prefix_of caller in
    let copied = copy_own_elements prefix elements own.elements in
    let end = first_end elements copied in
    let exits = exit_flows prefix (outgoing_of (get caller copied)) in
    let noted = note_exits prefix exits end copied in
    set_exits prefix caller end (record own {
      elements = noted;
      flows =
          put (append prefix "entry") (entry_flow caller own)
            (copy_own_flows prefix flows own.flows);
    })
