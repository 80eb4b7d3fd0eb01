-- ===== src/Parser/Wiring/Synthetic.antt =====
-- pkg/bpmn/parser.go: the synthetic flows, by which the element of a sequence flow leads on.
use mathlib.Core.Option
use mathlib.Core.Bool.{true≢false}
use text.Mathlib.TextLemmas.{append_cancel_right}
use Prim.Native.String.{◌++◌ as append}
use bpmn_ai.Base.{
  String, true, false, ◌&&◌, List, [], ◌∷◌, Option, none, some, ◌==◌, any, count, ◌≡◌, refl, sym,
  ap, ◌∙◌, arith, eq_iff, Bool-cases, inl, inr,
}
use bpmn_ai.Base.Dict.{Dict, get, get-put, get-put_self}
use bpmn_ai.Model.{Process, Element, Flow}
use bpmn_ai.Parser.Wiring.{
  synthetic, wire_flows, adopt, add_synthetic, add_synthetics, synthesise, add_outgoing,
  synthetic_id, is_sequence_flow, is_nil,
}
use bpmn_ai.Parser.Wiring.Lookup.{get-wire_flows, wired}

synthesise_other :
    (k id : String) (o : Option Element) (g : Option Flow) (p : Process)
    → id == k ≡ false
    → get k (synthesise id o g p).elements ≡ get k p.elements
unfolding synthesise
synthesise_other k id none g p h = refl
synthesise_other k id (some e) none p h = refl
synthesise_other k id (some e) (some f) p h = elim (Bool-cases (is_sequence_flow e.type)) [
  | inl t ↦ rw t (rw (get-put id k (add_outgoing (synthetic_id id) e) p.elements, h) refl)
  | inr t ↦ rw t refl
]

synthesise_self :
    (k : String) (e : Element) (f : Flow) (p : Process)
    → is_sequence_flow e.type ≡ true
    → get k (synthesise k (some e) (some f) p).elements ≡ some (add_outgoing (synthetic_id k) e)
unfolding synthesise
synthesise_self k e f p t = rw t (get-put_self k (add_outgoing (synthetic_id k) e) p.elements)

-- The process has a flow of this identifier.
abbrev Defines : String → Process → Type 0
Defines k p = (f : Flow) × (get k p.flows ≡ some f)

synthesise-Defines :
    (k id : String) (o : Option Element) (g : Option Flow) (p : Process)
    → Defines k p
    → Defines k (synthesise id o g p)
unfolding synthesise
synthesise-Defines k id none g p h = h
synthesise-Defines k id (some e) none p h = h
synthesise-Defines k id (some e) (some f) p (d, h) = elim (Bool-cases (is_sequence_flow e.type)) [
  | inl t ↦ rw t (elim (Bool-cases (synthetic_id id == k)) [
    | inl i ↦ (synthetic id f, get-put (synthetic_id id) k _ p.flows ∙ rw i refl)
    | inr i ↦ (d, get-put (synthetic_id id) k _ p.flows ∙ rw i h)
  ])
  | inr t ↦ rw t (d, h)
]

add_synthetics_other :
    (k : String) (ids : List String) (p : Process)
    → any (λ id. id == k) ids ≡ false
    → get k (add_synthetics ids p).elements ≡ get k p.elements
unfolding add_synthetics add_synthetic
add_synthetics_other k [] p h = refl
add_synthetics_other k (id ∷ ids) p h =
    add_synthetics_other k ids (add_synthetic id p) (ground arith)
    ∙ synthesise_other k id (get id p.elements) (get id p.flows) p (ground arith)

count-any :
    (k : String) (ids : List String)
    → count (λ id. id == k) ids ≡ 0
    → any (λ id. id == k) ids ≡ false
count-any k [] h = refl
count-any k (id ∷ ids) h = ground (arith, count-any k ids)

count-any_one :
    (k : String) (ids : List String)
    → count (λ id. id == k) ids ≡ 1
    → any (λ id. id == k) ids ≡ true
count-any_one k [] h = ground arith
count-any_one k (id ∷ ids) h = ground (arith, count-any_one k ids)

-- A loop that visits the element of a flow once gives it its synthetic flow once.
get-add_synthetics :
    (k : String) (ids : List String) (p : Process) (e : Element)
    → get k p.elements ≡ some e
    → is_sequence_flow e.type ≡ true
    → Defines k p
    → count (λ id. id == k) ids ≡ 1
    → get k (add_synthetics ids p).elements ≡ some (add_outgoing (synthetic_id k) e)
unfolding add_synthetics add_synthetic
get-add_synthetics k [] p e s t d h = ground arith
get-add_synthetics k (id ∷ ids) p e s t (f, d) h = elim (Bool-cases (id == k)) [
  | inl i ↦
      add_synthetics_other k ids (add_synthetic id p) (count-any k ids (ground arith))
      ∙ ap (λ j. get k (synthesise j (get j p.elements) (get j p.flows) p).elements)
          ((eq_iff id k).0 i)
      ∙ ap (λ o. get k (synthesise k o (get k p.flows) p).elements) s
      ∙ ap (λ g. get k (synthesise k (some e) g p).elements) d
      ∙ synthesise_self k e f p t
  | inr i ↦
      get-add_synthetics k ids (add_synthetic id p) e
        (synthesise_other k id (get id p.elements) (get id p.flows) p i ∙ s) t
        (synthesise-Defines k id (get id p.elements) (get id p.flows) p (f, d)) (ground arith)
]

adopt_type : (flows : Dict Flow) (k : String) (e : Element) → (adopt flows k e).type ≡ e.type
unfolding adopt
adopt_type flows k e = elim (Bool-cases (is_nil e.incoming_flows && is_nil e.outgoing_flows)) [
  | inl h ↦ rw h refl
  | inr h ↦ rw h refl
]

synthesise_flow_other :
    (j id : String) (o : Option Element) (g : Option Flow) (p : Process)
    → synthetic_id id == j ≡ false
    → get j (synthesise id o g p).flows ≡ get j p.flows
unfolding synthesise
synthesise_flow_other j id none g p h = refl
synthesise_flow_other j id (some e) none p h = refl
synthesise_flow_other j id (some e) (some f) p h = elim (Bool-cases (is_sequence_flow e.type)) [
  | inl t ↦ rw t (rw (get-put (synthetic_id id) j (synthetic id f) p.flows, h) refl)
  | inr t ↦ rw t refl
]

synthesise_flow_self :
    (k : String) (e : Element) (f : Flow) (p : Process)
    → is_sequence_flow e.type ≡ true
    → get (synthetic_id k) (synthesise k (some e) (some f) p).flows ≡ some (synthetic k f)
unfolding synthesise
synthesise_flow_self k e f p t = rw t (get-put_self (synthetic_id k) (synthetic k f) p.flows)

synthetic_id_other : (id k : String) → id == k ≡ false → synthetic_id id == synthetic_id k ≡ false
synthetic_id_other id k h = elim (Bool-cases (synthetic_id id == synthetic_id k)) [
  | inl e ↦ absurd (
      true≢false (
        sym (
          (eq_iff id k).1
            (append_cancel_right id k "_synth" ((eq_iff (synthetic_id id) (synthetic_id k)).0 e)))
        ∙ h))
  | inr e ↦ e
]

-- Turns for other flows leave a synthetic flow alone.
add_synthetics_flow_other :
    (k : String) (ids : List String) (p : Process)
    → any (λ id. id == k) ids ≡ false
    → get (synthetic_id k) (add_synthetics ids p).flows ≡ get (synthetic_id k) p.flows
unfolding add_synthetics add_synthetic
add_synthetics_flow_other k [] p h = refl
add_synthetics_flow_other k (id ∷ ids) p h =
    add_synthetics_flow_other k ids (add_synthetic id p) (ground arith)
    ∙ synthesise_flow_other (synthetic_id k) id (get id p.elements) (get id p.flows) p
        (synthetic_id_other id k (ground arith))

-- Where no flow's synthetic flow has the identifier `k`, the synthetic flow of `k` leads where the
-- flow of `k` led before the loop.
get-add_synthetics_flow :
    (k : String) (ids : List String) (p : Process) (e : Element) (f : Flow)
    → get k p.elements ≡ some e
    → is_sequence_flow e.type ≡ true
    → get k p.flows ≡ some f
    → count (λ id. id == k) ids ≡ 1
    → any (λ id. synthetic_id id == k) ids ≡ false
    → get (synthetic_id k) (add_synthetics ids p).flows ≡ some (synthetic k f)
unfolding add_synthetics add_synthetic
get-add_synthetics_flow k [] p e f s t d h n = ground arith
get-add_synthetics_flow k (id ∷ ids) p e f s t d h n = elim (Bool-cases (id == k)) [
  | inl i ↦
      add_synthetics_flow_other k ids (add_synthetic id p) (count-any k ids (ground arith))
      ∙ ap (λ j. get (synthetic_id k) (synthesise j (get j p.elements) (get j p.flows) p).flows)
          ((eq_iff id k).0 i)
      ∙ ap (λ o. get (synthetic_id k) (synthesise k o (get k p.flows) p).flows) s
      ∙ ap (λ g. get (synthetic_id k) (synthesise k (some e) g p).flows) d
      ∙ synthesise_flow_self k e f p t
  | inr i ↦
      get-add_synthetics_flow k ids (add_synthetic id p) e f
        (synthesise_other k id (get id p.elements) (get id p.flows) p i ∙ s) t
        (synthesise_flow_other k id (get id p.elements) (get id p.flows) p (ground arith) ∙ d)
        (ground arith) (ground arith)
]

-- Where both loops over the elements come to a sequence flow, the second of them once, and its
-- identifier is not that of a synthetic flow, its element leads on by the flows that wireFlows gives
-- it and then by a synthetic flow, which the process has and which leads from the element to the
-- target of the sequence flow.
pub sequence_flow_routes :
    (k : String) (flow_order element_order synthetic_order : List String) (p : Process)
    (e : Element) (f : Flow)
    → get k p.elements ≡ some e
    → is_sequence_flow e.type ≡ true
    → get k p.flows ≡ some f
    → any (λ id. id == k) element_order ≡ true
    → count (λ id. id == k) synthetic_order ≡ 1
    → any (λ id. synthetic_id id == k) synthetic_order ≡ false
    → let q = add_synthetics synthetic_order (wire_flows flow_order element_order p) in
      (get k q.elements
        ≡ some (add_outgoing (append k "_synth") (adopt p.flows k (wired k flow_order p.flows e))))
      × (get (append k "_synth") q.flows
          ≡ some (record {
            id = append k "_synth";
            name = "";
            source_ref = k;
            target_ref = f.target_ref;
            condition = "";
            is_default = false;
          }))
unfolding wire_flows
sequence_flow_routes k fo eo so p e f s t d h c n =
    let w = adopt p.flows k (wired k fo p.flows e) in
    let found : get k (wire_flows fo eo p).elements ≡ some w =
      get-wire_flows k fo eo p h
      ∙ ap (Option.map (λ e. adopt p.flows k (wired k fo p.flows e))) s in
    let flows : is_sequence_flow w.type ≡ true =
      ap is_sequence_flow (adopt_type p.flows k (wired k fo p.flows e)) ∙ t in
    (
      get-add_synthetics k so (wire_flows fo eo p) w found flows (f, d) c,
      get-add_synthetics_flow k so (wire_flows fo eo p) w f found flows d c n,
    )
