-- ===== src/Parser/Parse/Keys.antt =====
-- pkg/bpmn/parser.go: Parse files every element and flow under its own identifier.
use Prim.Native.String.{◌++◌ as append}
use bpmn_ai.Base.{
  ℕ, suc, String, List, [], ◌∷◌, Option, none, some, ◌==◌, is_empty, ◌≡◌, refl, Bool-cases,
  Option-cases, inl, inr, not, ◌||◌, ◌&&◌,
}
use bpmn_ai.Base.Dict.{
  Dict, get, put, keys, IsKeyed, put-IsKeyed, modify-IsKeyed, modify_each-IsKeyed,
}
use bpmn_ai.Model.{Process, Element, Flow}
use bpmn_ai.Parser.Elements.{flow_element, parse_flow, is_gateway_element}
use bpmn_ai.Parser.Flatten
use bpmn_ai.Parser.Flatten.{
  Order, parse_child, parse_children, parse_sub_process_xml, copy_elements, copy_flows,
  flatten_into, flatten_sub_process, empty_process,
}
use bpmn_ai.Parser.Parse.{parse_element, parse_elements, link_exit, link_exits, populate, finish}
use bpmn_ai.Parser.Parse
use bpmn_ai.Parser.Wiring
use bpmn_ai.Parser.Wiring.{
  wire_found, wire_flow, wire_all, wire_flows, adopt, synthesise, add_synthetic, add_synthetics,
}
use bpmn_ai.Parser.Xml.{Decoder, FlowElement}

abbrev Elements : Dict Element → Type 0
Elements = IsKeyed (λ e. e.id)

abbrev Flows : Dict Flow → Type 0
Flows = IsKeyed (λ f. f.id)

abbrev pub AreFiled : Process → Type 0
AreFiled p = Elements p.elements × Flows p.flows

put_element-AreFiled :
    (e : Element) (p : Process)
    → AreFiled p
    → AreFiled (record p { elements = put e.id e p.elements })
put_element-AreFiled e p (h, g) = (put-IsKeyed (λ e. e.id) e.id e p.elements refl h, g)

parse_child-AreFiled : (fe : FlowElement) (p : Process) → AreFiled p → AreFiled (parse_child fe p)
unfolding parse_child parse_flow flow_element
parse_child-AreFiled fe p h = elim (Bool-cases (Flatten.is_event fe.local)) [
  | inl a ↦ rw a (put_element-AreFiled _ p h)
  | inr a ↦ elim (Bool-cases (Flatten.is_gateway fe.local)) [
    | inl b ↦ rw (a, b) (put_element-AreFiled _ p h)
    | inr b ↦ elim (Bool-cases (Flatten.is_activity fe.local)) [
      | inl c ↦ rw (a, b, c) (put_element-AreFiled _ p h)
      | inr c ↦ elim (Bool-cases (fe.local == "sequenceFlow")) [
        | inl d ↦
            rw (a, b, c, d)
              (
                put-IsKeyed (λ e. e.id) fe.id (flow_element (parse_flow fe)) p.elements refl h.0,
                put-IsKeyed (λ f. f.id) fe.id (parse_flow fe) p.flows refl h.1,
              )
        | inr d ↦ rw (a, b, c, d) h
      ]
    ]
  ]
]

parse_children-AreFiled :
    (fes : List FlowElement) (p : Process) → AreFiled p → AreFiled (parse_children fes p)
unfolding parse_children
parse_children-AreFiled [] p h = h
parse_children-AreFiled (fe ∷ fes) p h =
    parse_children-AreFiled fes (parse_child fe p) (parse_child-AreFiled fe p h)

wire_found-Elements :
    (id : String) (o : Option Flow) (es : Dict Element)
    → Elements es
    → Elements (wire_found id o es)
unfolding wire_found
wire_found-Elements id none es h = h
wire_found-Elements id (some f) es h =
    modify-IsKeyed (λ e. e.id) f.target_ref _ _ (λ e. refl)
      (modify-IsKeyed (λ e. e.id) f.source_ref _ es (λ e. refl) h)

wire_all-Elements :
    (ids : List String) (flows : Dict Flow) (es : Dict Element)
    → Elements es
    → Elements (wire_all ids flows es)
unfolding wire_all wire_flow
wire_all-Elements [] flows es h = h
wire_all-Elements (id ∷ ids) flows es h =
    wire_all-Elements ids flows _ (wire_found-Elements id (get id flows) es h)

adopt_id : (flows : Dict Flow) (k : String) (e : Element) → (adopt flows k e).id ≡ e.id
unfolding adopt
adopt_id flows k e =
    elim (Bool-cases (Wiring.is_nil e.incoming_flows && Wiring.is_nil e.outgoing_flows)) [
      | inl h ↦ rw h refl
      | inr h ↦ rw h refl
    ]

wire_flows-AreFiled :
    (fo eo : List String) (p : Process) → AreFiled p → AreFiled (wire_flows fo eo p)
unfolding wire_flows
wire_flows-AreFiled fo eo p (h, g) = (
  modify_each-IsKeyed (λ e. e.id) (adopt p.flows) eo (wire_all fo p.flows p.elements)
      (adopt_id p.flows) (wire_all-Elements fo p.flows p.elements h),
  g,
)

synthesise-AreFiled :
    (id : String) (o : Option Element) (g : Option Flow) (p : Process)
    → get id p.elements ≡ o
    → AreFiled p
    → AreFiled (synthesise id o g p)
unfolding synthesise
synthesise-AreFiled id none g p s h = h
synthesise-AreFiled id (some e) none p s h = h
synthesise-AreFiled id (some e) (some f) p s (h, g) =
    elim (Bool-cases (Wiring.is_sequence_flow e.type)) [
      | inl t ↦ rw t (
        put-IsKeyed (λ e. e.id) id (Wiring.add_outgoing (Wiring.synthetic_id id) e) p.elements
            (h id e s) h,
        put-IsKeyed (λ f. f.id) (Wiring.synthetic_id id) (Wiring.synthetic id f) p.flows refl g,
      )
      | inr t ↦ rw t (h, g)
    ]

add_synthetics-AreFiled :
    (ids : List String) (p : Process) → AreFiled p → AreFiled (add_synthetics ids p)
unfolding add_synthetics add_synthetic
add_synthetics-AreFiled [] p h = h
add_synthetics-AreFiled (id ∷ ids) p h =
    add_synthetics-AreFiled ids _
      (synthesise-AreFiled id (get id p.elements) (get id p.flows) p refl h)

copy_elements-Elements :
    (prefix : String) (ids : List String) (es into : Dict Element)
    → Elements into
    → Elements (copy_elements prefix ids es into)
unfolding copy_elements
copy_elements-Elements prefix [] es into h = h
copy_elements-Elements prefix (id ∷ ids) es into h =
    copy_elements-Elements prefix ids es _ (elim (Option-cases (get id es)) [
      | inl n ↦ rw n h
      | inr (e, n) ↦ rw n (put-IsKeyed (λ e. e.id) (append prefix id) _ into refl h)
    ])

copy_flows-Flows :
    (prefix : String) (ids : List String) (fs into : Dict Flow)
    → Flows into
    → Flows (copy_flows prefix ids fs into)
unfolding copy_flows
copy_flows-Flows prefix [] fs into h = h
copy_flows-Flows prefix (id ∷ ids) fs into h =
    copy_flows-Flows prefix ids fs _ (elim (Option-cases (get id fs)) [
      | inl n ↦ rw n h
      | inr (f, n) ↦ rw n (put-IsKeyed (λ f. f.id) (append prefix id) _ into refl h)
    ])

put_flattened-AreFiled :
    (order : ℕ → List String → List String) (fe : FlowElement) (p : Process) (o : Option Process)
    → AreFiled p
    → AreFiled (Parse.put_flattened fe.id (flatten_into order fe p o))
unfolding flatten_into
put_flattened-AreFiled order fe p none (h, g) =
    (put-IsKeyed (λ e. e.id) fe.id _ p.elements refl h, g)
put_flattened-AreFiled order fe p (some sub) (h, g) = (
  put-IsKeyed (λ e. e.id) fe.id _ _ refl
      (copy_elements-Elements (append fe.id ".") (order 4 (keys sub.elements)) sub.elements
        p.elements h),
  put-IsKeyed (λ f. f.id) (Flatten.entry_id fe.id) _ _ refl
      (copy_flows-Flows (append fe.id ".") (order 5 (keys sub.flows)) sub.flows p.flows g),
)

parse_element-AreFiled :
    {D : Type 0} (x : Decoder D) (order : Order) (k : ℕ) (fe : FlowElement) (p : Process)
    → AreFiled p
    → AreFiled (parse_element x order k fe p)
unfolding parse_element flatten_sub_process
parse_element-AreFiled x order k fe p h = elim (Bool-cases (fe.local == "subProcess")) [
  | inl t ↦ rw t (put_flattened-AreFiled (order k) fe p (parse_sub_process_xml x (order k) fe) h)
  | inr t ↦ rw t (parse_child-AreFiled fe p h)
]

pub parse_elements-AreFiled :
    {D : Type 0} (x : Decoder D) (order : Order) (k : ℕ) (fes : List FlowElement) (p : Process)
    → AreFiled p
    → AreFiled (parse_elements x order k fes p)
unfolding parse_elements
parse_elements-AreFiled x order k [] p h = h
parse_elements-AreFiled x order k (fe ∷ fes) p h =
    parse_elements-AreFiled x order (suc k) fes _ (parse_element-AreFiled x order k fe p h)

link_exits-Elements :
    (ids : List String) (es : Dict Element) → Elements es → Elements (link_exits ids es)
unfolding link_exits link_exit
link_exits-Elements [] es h = h
link_exits-Elements (id ∷ ids) es h = link_exits-Elements ids _ (elim (Option-cases (get id es)) [
  | inl n ↦ rw (link_exit, n) h
  | inr (e, n) ↦
      rw (link_exit, n)
        (elim (Bool-cases (not e.has_sub_process || is_empty e.sub_process_end)) [
          | inl t ↦ rw t h
          | inr t ↦ rw t (modify-IsKeyed (λ e. e.id) e.sub_process_end _ es (λ e. refl) h)
        ])
])

populate_id : (flows : Dict Flow) (k : String) (e : Element) → (populate flows k e).id ≡ e.id
unfolding populate
populate_id flows k e = elim (Bool-cases (is_gateway_element e.type)) [
  | inl h ↦ rw h refl
  | inr h ↦ rw h refl
]

pub finish-AreFiled :
    (order : ℕ → List String → List String) (p : Process) → AreFiled p → AreFiled (finish order p)
unfolding finish
finish-AreFiled order p h =
    let wired = wire_flows (order 0 (keys p.flows)) (order 1 (keys p.elements)) p in
    let q = add_synthetics (order 2 (keys wired.elements)) wired in
    let linked = link_exits (order 3 (keys q.elements)) q.elements in
    let k : AreFiled q =
      add_synthetics-AreFiled (order 2 (keys wired.elements)) wired (wire_flows-AreFiled _ _ p h) in
    (
      modify_each-IsKeyed (λ e. e.id) (populate q.flows) (order 4 (keys linked)) linked
          (populate_id q.flows) (link_exits-Elements (order 3 (keys q.elements)) q.elements k.0),
      k.1,
    )
