-- ===== src/Parser/Parse/Start.antt =====
-- pkg/bpmn/parser.go: when Parse succeeds, and where the process that it yields starts.
use bpmn_ai.Base.{
  ℕ, suc, ◌≤◌, String, Bool, false, List, [], ◌∷◌, Option, none, some, ◌==◌, is_empty, not, ◌&&◌,
  if◌then◌else◌, length, find?, not-ltb, ◌≡◌, refl, ap, ◌∙◌, arith, Bool-cases, inl, inr, eq_iff,
}
use bpmn_ai.Errors.{ok}
use bpmn_ai.Base.Dict.{get, nil-IsKeyed}
use bpmn_ai.Model.{Process, Element, Flow}
use bpmn_ai.Parser.Elements
use bpmn_ai.Parser.Elements.{parse_event, define_event, define_events}
use bpmn_ai.Parser.Flatten.{
  Order, parse_child, flatten_into, flatten_sub_process, empty_process, parse_sub_process_xml,
}
use bpmn_ai.Parser.Flatten
use bpmn_ai.Parser.Parse
use bpmn_ai.Parser.Parse.{parse, parse_first, parse_element, parse_elements, finish, max_xml_size}
use bpmn_ai.Parser.Parse.Keys.{AreFiled, finish-AreFiled, parse_elements-AreFiled}
use bpmn_ai.Parser.Wiring.{wire_flows, add_synthetic, add_synthetics, synthesise, is_sequence_flow}
use bpmn_ai.Parser.Xml.{Decoder, Definitions, FlowElement, XmlEvent, XmlProcess}

throw_error_id : (fe : FlowElement) (e : Element) → (Elements.throw_error fe e).id ≡ e.id
throw_error_id fe e =
    elim (Bool-cases (Elements.one_of ("endEvent" ∷ "intermediateThrowEvent" ∷ []) fe.local)) [
      | inl t ↦ rw t refl
      | inr t ↦ rw t refl
    ]

catch_error_id : (fe : FlowElement) (e : Element) → (Elements.catch_error fe e).id ≡ e.id
catch_error_id fe e = elim (Bool-cases (fe.local == "boundaryEvent")) [
  | inl t ↦ rw t refl
  | inr t ↦ rw t refl
]

start_error_id : (fe : FlowElement) (e : Element) → (Elements.start_error fe e).id ≡ e.id
start_error_id fe e = elim (Bool-cases (fe.local == "startEvent")) [
  | inl t ↦ rw t refl
  | inr t ↦ rw t refl
]

error_id :
    (fe : FlowElement) (e : Element)
    → (Elements.start_error fe (Elements.catch_error fe (Elements.throw_error fe e))).id ≡ e.id
error_id fe e = start_error_id fe _ ∙ catch_error_id fe _ ∙ throw_error_id fe e

define_event_id :
    (fe : FlowElement) (e : Element) (ed : XmlEvent) → (define_event fe e ed).id ≡ e.id
define_event_id fe e ed = elim (Bool-cases (ed.local == "timerEventDefinition")) [
  | inl t0 ↦ rw t0 refl
  | inr t0 ↦ elim (Bool-cases (ed.local == "messageEventDefinition")) [
    | inl t1 ↦ rw (t0, t1) refl
    | inr t1 ↦ elim (Bool-cases (ed.local == "signalEventDefinition")) [
      | inl t2 ↦ rw (t0, t1, t2) refl
      | inr t2 ↦ elim (Bool-cases (ed.local == "terminateEventDefinition")) [
        | inl t3 ↦ rw (t0, t1, t2, t3) refl
        | inr t3 ↦ elim (Bool-cases (ed.local == "errorEventDefinition")) [
          | inl t4 ↦ rw (t0, t1, t2, t3, t4) (error_id fe _)
          | inr t4 ↦ rw (t0, t1, t2, t3, t4) refl
        ]
      ]
    ]
  ]
]

define_events_id :
    (fe : FlowElement) (e : Element) (eds : List XmlEvent) → (define_events fe e eds).id ≡ e.id
unfolding define_events
define_events_id fe e [] = refl
define_events_id fe e (ed ∷ eds) =
    define_events_id fe (define_event fe e ed) eds ∙ define_event_id fe e ed

event_by_tag_id : (fe : FlowElement) → (Elements.event_by_tag fe).id ≡ fe.id
event_by_tag_id fe = elim (Bool-cases (fe.local == "startEvent")) [
  | inl t0 ↦ rw t0 refl
  | inr t0 ↦ elim (Bool-cases (fe.local == "endEvent")) [
    | inl t1 ↦ rw (t0, t1) refl
    | inr t1 ↦ elim (Bool-cases (fe.local == "intermediateCatchEvent")) [
      | inl t2 ↦ rw (t0, t1, t2) refl
      | inr t2 ↦ elim (Bool-cases (fe.local == "intermediateThrowEvent")) [
        | inl t3 ↦ rw (t0, t1, t2, t3) refl
        | inr t3 ↦ elim (Bool-cases (fe.local == "boundaryEvent")) [
          | inl t4 ↦ rw (t0, t1, t2, t3, t4) refl
          | inr t4 ↦ rw (t0, t1, t2, t3, t4) refl
        ]
      ]
    ]
  ]
]

parse_event_id : (fe : FlowElement) → (parse_event fe).id ≡ fe.id
unfolding parse_event
parse_event_id fe =
    define_events_id fe (Elements.event_by_tag fe) fe.event_definitions ∙ event_by_tag_id fe

abbrev start_after : FlowElement → String → String
start_after fe s = if fe.local == "startEvent" && is_empty s then fe.id else s

flatten_into_start :
    (order : ℕ → List String → List String) (fe : FlowElement) (p : Process) (o : Option Process)
    → (Parse.put_flattened fe.id (flatten_into order fe p o)).start_event_id ≡ p.start_event_id
unfolding flatten_into
flatten_into_start order fe p none = refl
flatten_into_start order fe p (some sub) = refl

parse_child_start :
    (fe : FlowElement) (p : Process)
    → (parse_child fe p).start_event_id ≡ start_after fe p.start_event_id
unfolding parse_child
parse_child_start fe p = elim (Bool-cases (Flatten.is_event fe.local)) [
  | inl a ↦ rw a (rw (parse_event_id fe) refl)
  | inr a ↦
      let n : fe.local == "startEvent" ≡ false = ground arith in
      elim (Bool-cases (Flatten.is_gateway fe.local)) [
        | inl b ↦ rw (a, b, n) refl
        | inr b ↦ elim (Bool-cases (Flatten.is_activity fe.local)) [
          | inl c ↦ rw (a, b, c, n) refl
          | inr c ↦ elim (Bool-cases (fe.local == "sequenceFlow")) [
            | inl d ↦ rw (a, b, c, d, n) refl
            | inr d ↦ rw (a, b, c, d, n) refl
          ]
        ]
      ]
]

parse_element_start :
    {D : Type 0} (x : Decoder D) (order : Order) (k : ℕ) (fe : FlowElement) (p : Process)
    → (parse_element x order k fe p).start_event_id ≡ start_after fe p.start_event_id
unfolding parse_element flatten_sub_process
parse_element_start x order k fe p = elim (Bool-cases (fe.local == "subProcess")) [
  | inl t ↦
      let n : fe.local == "startEvent" ≡ false =
        ap (λ l. l == "startEvent") ((eq_iff fe.local "subProcess").0 t) in
      rw (t, n) (flatten_into_start (order k) fe p (parse_sub_process_xml x (order k) fe))
  | inr t ↦ rw t (parse_child_start fe p)
]

abbrev is_start : FlowElement → Bool
is_start fe = fe.local == "startEvent" && not (is_empty fe.id)

abbrev id_of : Option FlowElement → String
id_of none = ""
id_of (some fe) = fe.id

-- The identifier of the first start event that has one.
abbrev pub first_start : List FlowElement → String
first_start fes = id_of (find? is_start fes)

start_after_first :
    (fe : FlowElement) (fes : List FlowElement) (s : String)
    → (if is_empty (start_after fe s) then first_start fes else start_after fe s)
      ≡ (if is_empty s then first_start (fe ∷ fes) else s)
start_after_first fe fes s = elim (Bool-cases (is_empty s)) [
  | inl e ↦ elim (Bool-cases (fe.local == "startEvent")) [
    | inl a ↦ elim (Bool-cases (is_empty fe.id)) [
      | inl b ↦ rw (e, a, b) refl
      | inr b ↦ rw (e, a, b) refl
    ]
    | inr a ↦ rw (e, a, e) refl
  ]
  | inr e ↦ elim (Bool-cases (fe.local == "startEvent")) [
    | inl a ↦ rw (e, a, e) refl
    | inr a ↦ rw (e, a, e) refl
  ]
]

parse_elements_start :
    {D : Type 0} (x : Decoder D) (order : Order) (k : ℕ) (fes : List FlowElement) (p : Process)
    → (parse_elements x order k fes p).start_event_id
      ≡ (if is_empty p.start_event_id then first_start fes else p.start_event_id)
unfolding parse_elements
parse_elements_start x order k [] p = ground (arith, eq_iff p.start_event_id "")
parse_elements_start x order k (fe ∷ fes) p =
    parse_elements_start x order (suc k) fes (parse_element x order k fe p)
    ∙ rw (parse_element_start x order k fe p) (start_after_first fe fes p.start_event_id)

synthesise_start :
    (id : String) (o : Option Element) (g : Option Flow) (p : Process)
    → (synthesise id o g p).start_event_id ≡ p.start_event_id
unfolding synthesise
synthesise_start id none g p = refl
synthesise_start id (some e) none p = refl
synthesise_start id (some e) (some f) p = elim (Bool-cases (is_sequence_flow e.type)) [
  | inl t ↦ rw t refl
  | inr t ↦ rw t refl
]

add_synthetics_start :
    (ids : List String) (p : Process) → (add_synthetics ids p).start_event_id ≡ p.start_event_id
unfolding add_synthetics add_synthetic
add_synthetics_start [] p = refl
add_synthetics_start (id ∷ ids) p =
    add_synthetics_start ids _ ∙ synthesise_start id (get id p.elements) (get id p.flows) p

finish_start :
    (order : ℕ → List String → List String) (p : Process)
    → (finish order p).start_event_id ≡ p.start_event_id
unfolding finish wire_flows
finish_start order p = add_synthetics_start _ _

-- A document that is within the limits and has a process is parsed, whatever the order of the loops
-- over maps: the process starts at the first start event that has an identifier, and files every
-- element and every flow under the identifier that it bears.
pub parse_succeeds :
    {D : Type 0} (x : Decoder D) (order : Order) (doc : D) (defs : Definitions) (proc : XmlProcess)
    (others : List XmlProcess)
    → x.len doc ≤ max_xml_size
    → x.decode doc ≡ ok defs
    → defs.processes ≡ proc ∷ others
    → length proc.flow_elements ≤ 500
    → (p : Process) × (parse x order doc ≡ ok p)
      × (p.start_event_id ≡ first_start proc.flow_elements)
      × AreFiled p
unfolding parse parse_first
parse_succeeds x order doc defs proc others small decoded has few =
    let start = empty_process proc.id proc.name defs.target_ns in
    let q = parse_elements x order 1 proc.flow_elements start in
    (
      finish (order 0) q,
      rw (not-ltb (x.len doc) max_xml_size small, decoded, has, not-ltb _ 500 few) refl,
      finish_start (order 0) q ∙ parse_elements_start x order 1 proc.flow_elements start,
      finish-AreFiled (order 0) q (
          parse_elements-AreFiled x order 1 proc.flow_elements start
            (nil-IsKeyed (λ e. e.id), nil-IsKeyed (λ f. f.id))),
    )
