-- ===== src/Engine/CallActivity.antt =====
-- internal/engine/engine.go, the flattening of a called process in `handleResult`. The elements of
-- the called process share their lists of flows, and their extension data where it is not nil (here:
-- not empty), with the definition that the store handed out; so the changes made through them are
-- computed for that definition too. A process that calls itself is in CallActivity.Own.
pub mod Own
use Prim.Native.String.{◌++◌ as append}
use text.Mathlib.Text.{starts_with}
use bpmn_ai.Base.{
  String, Bool, true, false, not, ◌&&◌, List, [], ◌∷◌, ◌++◌, Option, none, some, map, keep,
  if◌then◌else◌,
}
use bpmn_ai.Base.Dict.{Dict, get, put}
use bpmn_ai.Base.Text.{join, has_suffix}
use bpmn_ai.Model.{Element, Flow, Process, ElementType, end_event}

unfoldable pub prefix_of : String → String
prefix_of element_id = append "ca-" (append element_id ".")

-- The flows of an element, renamed in place.
unfoldable pub rename_flows : String → Element → Element
rename_flows prefix e = record e {
  incoming_flows = map (append prefix) e.incoming_flows;
  outgoing_flows = map (append prefix) e.outgoing_flows;
}

unfoldable pub rename_element : String → String → Element → Element
rename_element prefix id e = record (rename_flows prefix e) { id = append prefix id }

unfoldable pub rename_flow : String → String → Flow → Flow
rename_flow prefix id f = record f {
  id = append prefix id;
  source_ref = append prefix f.source_ref;
  target_ref = append prefix f.target_ref;
}

unfoldable pub add_elements : String → Dict Element → Dict Element → Dict Element
add_elements prefix [] own = own
add_elements prefix ((id, e) ∷ rest) own =
    add_elements prefix rest (put (append prefix id) (rename_element prefix id e) own)

unfoldable pub add_flows : String → Dict Flow → Dict Flow → Dict Flow
add_flows prefix [] own = own
add_flows prefix ((id, f) ∷ rest) own =
    add_flows prefix rest (put (append prefix id) (rename_flow prefix id f) own)

abbrev pub is_end_event : ElementType → Bool
is_end_event end_event = true
is_end_event _ = false

-- The first end event, by its own identifier.
unfoldable pub end_event_of : Dict Element → Option String
end_event_of [] = none
end_event_of ((id, e) ∷ rest) =
    let later = end_event_of rest in if is_end_event e.type then some id else later

-- The caller's flows that the called process's end leads to.
unfoldable pub exit_flows : String → List String → List String
exit_flows prefix flows =
    keep (λ f. not (has_suffix "_sp_entry" f) && not (starts_with f prefix)) flows

unfoldable pub with_exits : List String → Element → Element
with_exits exits e = record e {
  outgoing_flows = e.outgoing_flows ++ exits;
  extension_data = put "subprocess_exit_flows" (join "," exits) e.extension_data;
}

abbrev pub outgoing_of : Option Element → List String
outgoing_of none = []
outgoing_of (some e) = e.outgoing_flows

unfoldable pub set_exits : String → String → Option String → Process → Process
set_exits prefix caller none own = own
set_exits prefix caller (some id) own =
    let exits = exit_flows prefix (outgoing_of (get caller own.elements)) in
    elim (get (append prefix id) own.elements) [
      | none ↦ own
      | some e ↦ record own { elements = put (append prefix id) (with_exits exits e) own.elements }
    ]

abbrev pub entry_flow : String → Process → Flow
entry_flow caller called = record {
  id = append (prefix_of caller) "entry";
  name = "";
  source_ref = caller;
  target_ref = append (prefix_of caller) called.start_event_id;
  condition = "";
  is_default = false;
}

-- The instance's process with the called one in it, which is another, behind a synthetic entry flow.
unfoldable pub flatten : String → Process → Process → Process
unfolding set_exits
flatten caller called own =
    let prefix = prefix_of caller in
    set_exits prefix caller (end_event_of called.elements) (record own {
      elements = add_elements prefix called.elements own.elements;
      flows =
          put (append prefix "entry") (entry_flow caller called)
            (add_flows prefix called.flows own.flows);
    })

abbrev pub not_nil : Dict String → Bool
not_nil [] = false
not_nil (x ∷ xs) = true

rename_all : String → Dict Element → Dict Element
rename_all prefix [] = []
rename_all prefix ((id, e) ∷ rest) = (id, rename_flows prefix e) ∷ rename_all prefix rest

-- The end event's extension data is the called definition's own map, unless that was nil.
share_exits : List String → Option String → Dict Element → Dict Element
share_exits exits none es = es
share_exits exits (some id) es = elim (get id es) [
  | none ↦ es
  | some e ↦
      if not_nil e.extension_data
      then put id
          (record e {
            extension_data = put "subprocess_exit_flows" (join "," exits) e.extension_data;
          })
          es
      else es
]

-- What the call leaves of the definition that the store handed out.
unfoldable pub called_after : String → Process → Process → Process
unfolding rename_all share_exits
called_after caller called own =
    let prefix = prefix_of caller in
    let exits = exit_flows prefix (outgoing_of (get caller own.elements)) in
    record called {
      elements =
          share_exits exits (end_event_of called.elements) (rename_all prefix called.elements);
    }
