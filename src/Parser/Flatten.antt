-- ===== src/Parser/Flatten.antt =====
-- pkg/bpmn/parser.go: the switch over the elements, parseSubProcessXML and flattenSubProcess.
use Prim.Native.String.{◌++◌ as append}
use bpmn_ai.Base.{
  ℕ, String, Bool, true, false, not, ◌&&◌, List, [], ◌∷◌, Option, none, some, ◌==◌, is_empty, ltb,
  length, if◌then◌else◌,
}
use bpmn_ai.Base.Dict.{Dict, get, put, keys}
use bpmn_ai.Model.{Process, Element, ElementType, Flow, end_event, sub_process}
use bpmn_ai.Parser.Elements.{
  blank, one_of, parse_event, parse_gateway, parse_activity, parse_flow, flow_element,
}
use bpmn_ai.Parser.Wiring.{wire_flows, add_synthetics}
use bpmn_ai.Parser.Xml.{Decoder, FlowElement}

-- The order in which the n-th loop over a map visits its keys, in the pass over the document
-- (unit 0) or over its k-th sub-process (unit k).
abbrev pub Order : Type 0
Order = ℕ → ℕ → List String → List String

abbrev raw : FlowElement → Element → Element
raw fe e = record e { incoming = fe.incoming; outgoing = fe.outgoing }

abbrev put_element : Element → Process → Process
put_element e p = record p { elements = put e.id e p.elements }

abbrev pub is_event : String → Bool
is_event tag =
    one_of
      ("startEvent" ∷ "endEvent" ∷ "intermediateCatchEvent" ∷ "intermediateThrowEvent"
        ∷ "boundaryEvent" ∷ [])
      tag

abbrev pub is_gateway : String → Bool
is_gateway tag =
    one_of ("exclusiveGateway" ∷ "parallelGateway" ∷ "inclusiveGateway" ∷ "eventBasedGateway" ∷ [])
      tag

abbrev pub is_activity : String → Bool
is_activity tag =
    one_of ("userTask" ∷ "scriptTask" ∷ "serviceTask" ∷ "task" ∷ "callActivity" ∷ []) tag

-- The first start event is where the process starts.
abbrev start_at : FlowElement → Element → Process → Process
start_at fe e p = record p {
  start_event_id =
      if fe.local == "startEvent" && is_empty p.start_event_id then e.id else p.start_event_id;
}

abbrev put_flow : Flow → Process → Process
put_flow f p = put_element (flow_element f) (record p { flows = put f.id f p.flows })

-- What the switches of Parse and parseSubProcessXML have in common.
unfoldable pub parse_child : FlowElement → Process → Process
parse_child fe p =
    if is_event fe.local
    then start_at fe (parse_event fe) (put_element (raw fe (parse_event fe)) p)
    else if is_gateway fe.local
    then put_element (raw fe (parse_gateway fe)) p
    else if is_activity fe.local
    then put_element (raw fe (parse_activity fe)) p
    else if fe.local == "sequenceFlow"
    then put_flow (parse_flow fe) p
    else p

unfoldable pub parse_children : List FlowElement → Process → Process
parse_children [] p = p
parse_children (fe ∷ fes) p = parse_children fes (parse_child fe p)

abbrev pub empty_process : String → String → String → Process
empty_process id name ns = record {
  id = id;
  name = name;
  version = 0;
  start_event_id = "";
  elements = [];
  flows = [];
  target_namespace = ns;
  created_at = 0;
}

-- A sub-process of another one is none of the cases of the switch, and is dropped.
unfoldable pub parse_sub_process_xml :
    {D : Type 0} → Decoder D → (ℕ → List String → List String) → FlowElement → Option Process
unfolding parse_children wire_flows add_synthetics
parse_sub_process_xml x order fe =
    if is_empty fe.inner_xml then none else elim (x.children fe.inner_xml) [
      | none ↦ none
      | some fes ↦
          if ltb 100 (length fes)
          then none
          else let p = parse_children fes (empty_process fe.id fe.name "") in
            let wired = wire_flows (order 0 (keys p.flows)) (order 1 (keys p.elements)) p in
            some (add_synthetics (order 2 (keys wired.elements)) wired)
    ]

abbrev is_end_event : ElementType → Bool
is_end_event t = elim t [ end_event ↦ true | _ ↦ false ]

-- The first end event that the loop meets whose prefixed identifier is not empty.
unfoldable pub find_end : String → List String → Dict Element → String
find_end prefix [] es = ""
find_end prefix (id ∷ ids) es =
    let rest = find_end prefix ids es in
    elim (get id es) [
      | none ↦ rest
      | some e ↦
          if is_end_event e.type && not (is_empty (append prefix id))
          then append prefix id
          else rest
    ]

unfoldable pub copy_elements : String → List String → Dict Element → Dict Element → Dict Element
copy_elements prefix [] es into = into
copy_elements prefix (id ∷ ids) es into = copy_elements prefix ids es (elim (get id es) [
  | none ↦ into
  | some e ↦ put (append prefix id) (record e { id = append prefix id }) into
])

abbrev prefixed : String → String → Flow → Flow
prefixed prefix id f = record f {
  id = append prefix id;
  source_ref = append prefix f.source_ref;
  target_ref = append prefix f.target_ref;
}

unfoldable pub copy_flows : String → List String → Dict Flow → Dict Flow → Dict Flow
copy_flows prefix [] fs into = into
copy_flows prefix (id ∷ ids) fs into =
    copy_flows prefix ids fs (elim (get id fs) [
      | none ↦ into
      | some f ↦ put (append prefix id) (prefixed prefix id f) into
    ])

abbrev pub entry_id : String → String
entry_id id = append id "_sp_entry"

abbrev entry : String → String → Flow
entry id start = record {
  id = entry_id id;
  name = "";
  source_ref = id;
  target_ref = start;
  condition = "";
  is_default = false;
}

-- What flattenSubProcess does with the sub-process that was parsed.
unfoldable pub flatten_into :
    (ℕ → List String → List String) → FlowElement → Process → Option Process → Element × Process
unfolding find_end copy_elements copy_flows
flatten_into order fe p none = (blank fe.id fe.name sub_process, p)
flatten_into order fe p (some sub) =
    let prefix = append fe.id "." in
    let flows = copy_flows prefix (order 5 (keys sub.flows)) sub.flows p.flows in
    (
      record (blank fe.id fe.name sub_process) {
        has_sub_process = true;
        sub_process_end = find_end prefix (order 3 (keys sub.elements)) sub.elements;
        outgoing = entry_id fe.id ∷ [];
      },
      record p {
        elements = copy_elements prefix (order 4 (keys sub.elements)) sub.elements p.elements;
        flows = put (entry_id fe.id) (entry fe.id (append prefix sub.start_event_id)) flows;
      },
    )

-- The element of a sub-process, and the process with the sub-process's content.
unfoldable pub flatten_sub_process :
    {D : Type 0}
    → Decoder D
    → (ℕ → List String → List String)
    → FlowElement
    → Process
    → Element × Process
unfolding flatten_into parse_sub_process_xml
flatten_sub_process x order fe p = flatten_into order fe p (parse_sub_process_xml x order fe)
