-- ===== src/Parser/Parse.antt =====
-- pkg/bpmn/parser.go: Parse. ParseFile reads a file and calls it.
pub mod Keys
pub mod Conditions
pub mod Start
use bpmn_ai.Base.{
  ℕ, suc, ◌*◌, ◌^◌, String, Bool, true, false, not, ◌&&◌, ◌||◌, List, [], ◌∷◌, ◌++◌, Option, none,
  some, ◌==◌, is_empty, ltb, length, keep, if◌then◌else◌,
}
use bpmn_ai.Base.Dict.{Dict, get, put, keys, modify, modify_each}
use bpmn_ai.Base.Text.{has_suffix, join}
use bpmn_ai.Errors.{Result, ok, err, message, context, ◌>>=◌}
use bpmn_ai.Model.{Process, Element, Flow}
use bpmn_ai.Parser.Elements.{is_gateway_element}
use bpmn_ai.Parser.Flatten.{Order, parse_child, flatten_sub_process, empty_process}
use bpmn_ai.Parser.Wiring.{wire_flows, add_synthetics}
use bpmn_ai.Parser.Xml.{Decoder, Definitions, FlowElement, XmlProcess}

abbrev put_flattened : String → Element × Process → Process
put_flattened id (e, q) = record q { elements = put id e q.elements }

-- One turn of the loop over the flow elements of the document; `k` numbers the turns.
unfoldable pub parse_element :
    {D : Type 0} → Decoder D → Order → ℕ → FlowElement → Process → Process
parse_element x order k fe p =
    if fe.local == "subProcess"
    then put_flattened fe.id (flatten_sub_process x (order k) fe p)
    else parse_child fe p

unfoldable pub parse_elements :
    {D : Type 0} → Decoder D → Order → ℕ → List FlowElement → Process → Process
unfolding parse_element
parse_elements x order k [] p = p
parse_elements x order k (fe ∷ fes) p =
    parse_elements x order (suc k) fes (parse_element x order k fe p)

-- The outgoing flows of a sub-process other than its entry are added to its end event.
abbrev add_exits : List String → Element → Element
add_exits flows e =
    let out = e.outgoing_flows ++ keep (λ f. not (has_suffix "_sp_entry" f)) flows in
    record e {
      outgoing_flows = out;
      extension_data = put "subprocess_exit_flows" (join "," out) e.extension_data;
    }

unfoldable pub link_exit : String → Dict Element → Dict Element
link_exit id es = elim (get id es) [
  | none ↦ es
  | some e ↦
      if not e.has_sub_process || is_empty e.sub_process_end
      then es
      else modify e.sub_process_end (add_exits e.outgoing_flows) es
]

unfoldable pub link_exits : List String → Dict Element → Dict Element
unfolding link_exit
link_exits [] es = es
link_exits (id ∷ ids) es = link_exits ids (link_exit id es)

-- The condition of a flow that was found is put where the gateway has none for it.
unfoldable pub add_found : String → Option Flow → Option String → Dict String → Dict String
add_found id none own conditions = conditions
add_found id (some f) (some c) conditions = conditions
add_found id (some f) none conditions =
    if is_empty f.condition then conditions else put id f.condition conditions

-- A gateway takes the condition of an outgoing flow for which it has none.
unfoldable pub add_condition : Dict Flow → String → Dict String → Dict String
unfolding add_found
add_condition flows id conditions = add_found id (get id flows) (get id conditions) conditions

unfoldable pub add_conditions : Dict Flow → List String → Dict String → Dict String
unfolding add_condition
add_conditions flows [] conditions = conditions
add_conditions flows (id ∷ ids) conditions =
    add_conditions flows ids (add_condition flows id conditions)

unfoldable pub populate : Dict Flow → String → Element → Element
unfolding add_conditions
populate flows id e =
    if is_gateway_element e.type
    then record e { conditions = add_conditions flows e.outgoing_flows e.conditions }
    else e

abbrev pub max_xml_size : ℕ
max_xml_size = 10 * 2 ^ 20

-- The passes of Parse over the process that the loop over the flow elements has built.
unfoldable pub finish : (ℕ → List String → List String) → Process → Process
unfolding link_exits populate
finish order p =
    let wired = wire_flows (order 0 (keys p.flows)) (order 1 (keys p.elements)) p in
    let q = add_synthetics (order 2 (keys wired.elements)) wired in
    let linked = link_exits (order 3 (keys q.elements)) q.elements in
    record q { elements = modify_each (populate q.flows) (order 4 (keys linked)) linked }

-- Parse of a document that was decoded: of its processes the first counts.
unfoldable pub parse_first : {D : Type 0} → Decoder D → Order → Definitions → Result Process
unfolding parse_elements finish
parse_first x order defs = elim defs.processes [
  | [] ↦ err (message "no process found in bpmn definition")
  | proc ∷ others ↦
      if ltb 500 (length proc.flow_elements)
      then err (message "process exceeds maximum of 500 elements")
      else ok (
          finish (order 0) (
            parse_elements x order 1 proc.flow_elements
              (empty_process proc.id proc.name defs.target_ns)))
]

unfoldable pub parse : {D : Type 0} → Decoder D → Order → D → Result Process
unfolding parse_first
parse x order doc =
    if ltb max_xml_size (x.len doc)
    then err (message "xml document exceeds maximum size of 10485760 bytes")
    else (context "unmarshal bpmn xml" (x.decode doc) >>= parse_first x order)
