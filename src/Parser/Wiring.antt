-- ===== src/Parser/Wiring.antt =====
-- pkg/bpmn/parser.go: wireFlows and the pass that adds the synthetic flows. A `range` over a map
-- visits its keys in an order that Go leaves open: each loop takes it as a list of keys, and reads
-- under a key what the map holds when it comes to it.
pub mod Lookup
pub mod Synthetic
use Prim.Native.String.{◌++◌ as append}
use bpmn_ai.Base.{
  String, Bool, true, false, ◌&&◌, List, [], ◌∷◌, ◌++◌, Option, none, some, ◌==◌, if◌then◌else◌,
  keep,
}
use bpmn_ai.Base.Dict.{Dict, get, put, modify, modify_each}
use bpmn_ai.Model.{Process, Element, ElementType, Flow, sequence_flow}

abbrev pub add_outgoing : String → Element → Element
add_outgoing f e = record e { outgoing_flows = e.outgoing_flows ++ f ∷ [] }

abbrev pub add_incoming : String → Element → Element
add_incoming f e = record e { incoming_flows = e.incoming_flows ++ f ∷ [] }

unfoldable pub wire_found : String → Option Flow → Dict Element → Dict Element
wire_found id none es = es
wire_found id (some f) es =
    modify f.target_ref (add_incoming id) (modify f.source_ref (add_outgoing id) es)

-- One turn of the first loop of wireFlows.
unfoldable pub wire_flow : String → Dict Flow → Dict Element → Dict Element
unfolding wire_found
wire_flow id flows es = wire_found id (get id flows) es

unfoldable pub wire_all : List String → Dict Flow → Dict Element → Dict Element
wire_all [] flows es = es
wire_all (id ∷ ids) flows es = wire_all ids flows (wire_flow id flows es)

abbrev pub leads_to : String → Option Flow → Bool
leads_to k none = false
leads_to k (some f) = f.target_ref == k

abbrev pub leaves : String → Option Flow → Bool
leaves k none = false
leaves k (some f) = f.source_ref == k

abbrev pub ends_at : String → Dict Flow → String → Bool
ends_at k flows id = leads_to k (get id flows)

abbrev pub starts_at : String → Dict Flow → String → Bool
starts_at k flows id = leaves k (get id flows)

abbrev pub is_nil : List String → Bool
is_nil [] = true
is_nil (x ∷ xs) = false

-- One turn of the second loop of wireFlows: an element without flows takes over those of its raw
-- incoming and outgoing identifiers that agree.
unfoldable pub adopt : Dict Flow → String → Element → Element
adopt flows k e =
    if is_nil e.incoming_flows && is_nil e.outgoing_flows
    then record e {
      incoming_flows = keep (ends_at k flows) e.incoming;
      outgoing_flows = keep (starts_at k flows) e.outgoing;
    }
    else e

-- `flow_order` and `element_order` are the orders of the two loops.
unfoldable pub wire_flows : List String → List String → Process → Process
unfolding wire_all wire_flow adopt
wire_flows flow_order element_order p = record p {
  elements = modify_each (adopt p.flows) element_order (wire_all flow_order p.flows p.elements);
}

abbrev pub is_sequence_flow : ElementType → Bool
is_sequence_flow t = elim t [ sequence_flow ↦ true | _ ↦ false ]

abbrev pub synthetic_id : String → String
synthetic_id id = append id "_synth"

abbrev pub synthetic : String → Flow → Flow
synthetic id f = record {
  id = synthetic_id id;
  name = "";
  source_ref = id;
  target_ref = f.target_ref;
  condition = "";
  is_default = false;
}

unfoldable pub synthesise : String → Option Element → Option Flow → Process → Process
synthesise id none g p = p
synthesise id (some e) none p = p
synthesise id (some e) (some f) p =
    if is_sequence_flow e.type
    then record p {
      flows = put (synthetic_id id) (synthetic id f) p.flows;
      elements = put id (add_outgoing (synthetic_id id) e) p.elements;
    }
    else p

-- One turn of the loop that adds the synthetic flows.
unfoldable pub add_synthetic : String → Process → Process
unfolding synthesise
add_synthetic id p = synthesise id (get id p.elements) (get id p.flows) p

unfoldable pub add_synthetics : List String → Process → Process
unfolding add_synthetic
add_synthetics [] p = p
add_synthetics (id ∷ ids) p = add_synthetics ids (add_synthetic id p)
