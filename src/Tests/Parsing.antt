-- ===== src/Tests/Parsing.antt =====
-- A document with a sub-process, and one that is short.
use bpmn_ai.Parser.Csv.{trim_blanks}
use bpmn_ai.Base.Text.{split}
use bpmn_ai.Parser.Wiring.{adopt}
use bpmn_ai.Parser.Elements.{is_gateway_element}
use bpmn_ai.Parser.Elements.{parse_flow}
use bpmn_ai.Parser.Elements.{parse_event}
use bpmn_ai.Parser.Flatten.{flatten_sub_process}
use bpmn_ai.Base.Dict.{put}
use bpmn_ai.Parser.Flatten.{parse_child}
use bpmn_ai.Base.Dict.{keys}
use bpmn_ai.Base.Dict.{modify_each}
use bpmn_ai.Base.{String, false, List, [], ◌∷◌, none, some, ◌≡◌, refl, arith}
use bpmn_ai.Base.Dict.{get}
use bpmn_ai.Errors.{Result, ok}
use bpmn_ai.Model.{Process, sequence_flow, exclusive_gateway}
use bpmn_ai.Parser.Csv.{split_csv, split_csv-split}
use bpmn_ai.Parser.Elements.{flow_element}
use bpmn_ai.Parser.Flatten.{Order}
use bpmn_ai.Parser.Parse.{parse, add_conditions}
use bpmn_ai.Parser.Parse.Keys.{AreFiled}
use bpmn_ai.Parser.Parse.Start.{parse_succeeds, first_start}
use bpmn_ai.Parser.Parse.Conditions.{get-add_conditions}
use bpmn_ai.Parser.Wiring.Lookup.{get-wire_flows}
use bpmn_ai.Parser.Wiring.Synthetic.{sequence_flow_routes}
use bpmn_ai.Tests.{node, arrow, definition, branching}
use bpmn_ai.Parser.Wiring.{wire_flows, add_synthetics}
use bpmn_ai.Parser.Xml.{Decoder, Definitions, FlowElement, XmlProcess}

abbrev tag : String → String → FlowElement
tag local id = record {
  local = local;
  id = id;
  name = "";
  event_definitions = [];
  attached_to_ref = "";
  cancel_activity = "";
  default_flow_id = "";
  gateway_direction = "";
  assignee = "";
  candidate_users = "";
  candidate_groups = "";
  duration = "";
  script_type = "";
  script_body = "";
  model = "";
  profile = "";
  system_prompt = "";
  output_schema = "";
  tools = "";
  rag = "";
  agents = "";
  prompt_ref = "";
  stream = "";
  source_ref = "";
  target_ref = "";
  condition = "";
  is_default = false;
  incoming = [];
  outgoing = [];
  condition_element = "";
  called_element = "";
  extension_elements = none;
  inner_xml = "";
}

abbrev flow : String → String → String → FlowElement
flow id source target = record (tag "sequenceFlow" id) { source_ref = source; target_ref = target }

abbrev inner : List FlowElement
inner = tag "startEvent" "s" ∷ tag "endEvent" "e" ∷ flow "g" "s" "e" ∷ []

abbrev outer : XmlProcess
outer = record {
  id = "p";
  name = "";
  flow_elements =
      tag "startEvent" "start"
      ∷ record (tag "subProcess" "sub") { inner_xml = "inner" }
      ∷ tag "endEvent" "end"
      ∷ flow "in" "start" "sub"
      ∷ flow "out" "sub" "end"
      ∷ [];
}

abbrev document : Definitions
document = record { target_ns = ""; processes = outer ∷ [] }

abbrev decoder : Decoder String
decoder = record { len = λ s. 1000; decode = λ s. ok document; children = λ s. some inner }

abbrev listed : Order
listed unit loop keys = keys

abbrev outgoing_of : String → Result Process → List String
outgoing_of id (ok p) = elim (get id p.elements) [ none ↦ [] | some e ↦ e.outgoing_flows ]
outgoing_of id _ = []

-- The flow inside the sub-process leads to its target twice.
test_doubled :
    outgoing_of "sub.g" (parse decoder listed "document")
    ≡ "g_synth" ∷ "sub.g_synth" ∷ "sub.g_synth" ∷ []
unfolding parse get modify_each keys add_synthetics wire_flows parse_child put flatten_sub_process
    parse_event flow_element parse_flow is_gateway_element
test_doubled = refl

parse_succeeds_example :
    (p : Process) × (parse decoder listed "document" ≡ ok p)
    × (p.start_event_id ≡ first_start outer.flow_elements)
    × AreFiled p
parse_succeeds_example =
    parse_succeeds decoder listed "document" document outer [] (omega arith) refl refl (omega arith)

-- The flow "g" and the synthetic flow that its sub-process had for it.
abbrev copied : Process
copied =
    definition "p" "" (("g", node "g" sequence_flow [] []) ∷ [])
      (arrow "g" "s" "e" ∷ arrow "g_synth" "g" "e" ∷ [])

get-wire_flows_example :
    get "g" (wire_flows ("g" ∷ "g_synth" ∷ []) ("g" ∷ []) copied).elements
    ≡ some (record (node "g" sequence_flow [] []) { outgoing_flows = "g_synth" ∷ [] })
unfolding get adopt
get-wire_flows_example = get-wire_flows "g" ("g" ∷ "g_synth" ∷ []) ("g" ∷ []) copied refl

abbrev routed : Process
routed = add_synthetics ("g" ∷ []) (wire_flows ("g" ∷ "g_synth" ∷ []) ("g" ∷ []) copied)

sequence_flow_routes_example :
    (get "g" routed.elements
      ≡ some
          (record (node "g" sequence_flow [] []) { outgoing_flows = "g_synth" ∷ "g_synth" ∷ [] }))
    × (get "g_synth" routed.flows
        ≡ some (record {
          id = "g_synth";
          name = "";
          source_ref = "g";
          target_ref = "e";
          condition = "";
          is_default = false;
        }))
unfolding get adopt
sequence_flow_routes_example =
    sequence_flow_routes "g" ("g" ∷ "g_synth" ∷ []) ("g" ∷ []) ("g" ∷ []) copied
      (node "g" sequence_flow [] []) (arrow "g" "s" "e").1 refl refl refl refl refl refl

get-add_conditions_example :
    get "b"
      (add_conditions (branching exclusive_gateway).flows ("a" ∷ "b" ∷ []) (("b", "x > 1") ∷ []))
    ≡ some "x > 1"
unfolding get
get-add_conditions_example =
    get-add_conditions "b" (branching exclusive_gateway).flows ("a" ∷ "b" ∷ [])
      (("b", "x > 1") ∷ [])

split_csv-split_example : split_csv "ann, bob" ≡ "ann" ∷ "bob" ∷ []
unfolding split trim_blanks
split_csv-split_example = split_csv-split "ann, bob"
