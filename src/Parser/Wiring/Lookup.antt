-- ===== src/Parser/Wiring/Lookup.antt =====
-- pkg/bpmn/parser.go: which flows an element has after wireFlows and after the synthetic flows.
use mathlib.Core.Option
use mathlib.Core.List.{append-nil, append_assoc}
use bpmn_ai.Base.{
  String, Bool, true, false, ◌&&◌, List, [], ◌∷◌, ◌++◌, Option, none, some, ◌==◌, if◌then◌else◌,
  keep, any, ◌≡◌, refl, ap, sym, ◌∙◌, Bool-cases, inl, inr,
}
use bpmn_ai.Base.Dict.{Dict, get, modify, get-modify, get-modify_each}
use bpmn_ai.Model.{Process, Element, Flow}
use bpmn_ai.Parser.Wiring.{
  wire_found, leaves, leads_to, wire_flow, wire_all, wire_flows, adopt, starts_at, ends_at,
  add_incoming, add_outgoing, is_nil,
}

-- The flows among `ids` that leave `k` and those that lead to it are added, in their order.
abbrev pub wired : String → List String → Dict Flow → Element → Element
wired k ids flows e = record e {
  outgoing_flows = e.outgoing_flows ++ keep (starts_at k flows) ids;
  incoming_flows = e.incoming_flows ++ keep (ends_at k flows) ids;
}

abbrev ids_if : Bool → String → List String
ids_if b id = if b then id ∷ [] else []

abbrev attach : List String → List String → Element → Element
attach out into e = record e {
  outgoing_flows = e.outgoing_flows ++ out;
  incoming_flows = e.incoming_flows ++ into;
}

attach_nil : (e : Element) → attach [] [] e ≡ e
attach_nil e = rw (append-nil e.outgoing_flows, append-nil e.incoming_flows) refl

attach_ends :
    (id : String) (s t : Bool) (o : Option Element)
    → (if t
        then Option.map (add_incoming id) (if s then Option.map (add_outgoing id) o else o)
        else (if s then Option.map (add_outgoing id) o else o))
      ≡ Option.map (attach (ids_if s id) (ids_if t id)) o
attach_ends id true true none = refl
attach_ends id true false none = refl
attach_ends id false true none = refl
attach_ends id false false none = refl
attach_ends id true true (some e) = refl
attach_ends id true false (some e) = rw (append-nil e.incoming_flows) refl
attach_ends id false true (some e) = rw (append-nil e.outgoing_flows) refl
attach_ends id false false (some e) = ap some (sym (attach_nil e))

map_nil : (o : Option Element) → Option.map (attach [] []) o ≡ o
map_nil none = refl
map_nil (some e) = ap some (attach_nil e)

get-wire_found :
    (k id : String) (o : Option Flow) (es : Dict Element)
    → get k (wire_found id o es)
      ≡ Option.map (attach (ids_if (leaves k o) id) (ids_if (leads_to k o) id)) (get k es)
unfolding wire_found
get-wire_found k id none es = sym (map_nil (get k es))
get-wire_found k id (some f) es =
    get-modify f.target_ref k (add_incoming id) (modify f.source_ref (add_outgoing id) es)
    ∙ rw (get-modify f.source_ref k (add_outgoing id) es)
        (attach_ends id (f.source_ref == k) (f.target_ref == k) (get k es))

get-wire_flow :
    (k id : String) (flows : Dict Flow) (es : Dict Element)
    → get k (wire_flow id flows es) ≡ Option.map (wired k (id ∷ []) flows) (get k es)
unfolding wire_flow
get-wire_flow k id flows es = get-wire_found k id (get id flows) es

keep-cons :
    (p : String → Bool) (x : String) (xs : List String)
    → keep p (x ∷ xs) ≡ ids_if (p x) x ++ keep p xs
keep-cons p x xs = elim (Bool-cases (p x)) [ inl e ↦ rw e refl | inr e ↦ rw e refl ]

attach-attach :
    (a b c d : List String) (o : Option Element)
    → Option.map (attach c d) (Option.map (attach a b) o) ≡ Option.map (attach (a ++ c) (b ++ d)) o
attach-attach a b c d none = refl
attach-attach a b c d (some e) =
    rw (append_assoc e.outgoing_flows a c, append_assoc e.incoming_flows b d) refl

-- Wiring leaves every element as it was but for its flows, to which it adds those that leave it and
-- those that lead to it.
pub get-wire_all :
    (k : String) (ids : List String) (flows : Dict Flow) (es : Dict Element)
    → get k (wire_all ids flows es) ≡ Option.map (wired k ids flows) (get k es)
unfolding wire_all
get-wire_all k [] flows es = sym (map_nil (get k es))
get-wire_all k (id ∷ ids) flows es =
    get-wire_all k ids flows (wire_flow id flows es)
    ∙ ap (Option.map (wired k ids flows)) (get-wire_flow k id flows es)
    ∙ attach-attach _ _ _ _ (get k es)
    ∙ rw (← keep-cons (starts_at k flows) id ids, ← keep-cons (ends_at k flows) id ids) refl

adopt_idem :
    (flows : Dict Flow) (k : String) (e : Element)
    → adopt flows k (adopt flows k e) ≡ adopt flows k e
unfolding adopt
adopt_idem flows k e = elim (Bool-cases (is_nil e.incoming_flows && is_nil e.outgoing_flows)) [
  | inl h ↦
      elim (Bool-cases (
        is_nil (keep (ends_at k flows) e.incoming)
        && is_nil (keep (starts_at k flows) e.outgoing))) [
          | inl i ↦ rw (h, i) refl
          | inr i ↦ rw (h, i) refl
        ]
  | inr h ↦ rw (h, h) refl
]

-- The flows that an element has after wireFlows are those it had before, those of the process that
-- leave it or lead to it, in the order of the loop, and, if these are none, those of its raw
-- identifiers that the process agrees with; nothing else of an element changes.
pub get-wire_flows :
    (k : String) (flow_order element_order : List String) (p : Process)
    → any (λ id. id == k) element_order ≡ true
    → get k (wire_flows flow_order element_order p).elements
      ≡ Option.map (λ e. adopt p.flows k (wired k flow_order p.flows e)) (get k p.elements)
unfolding wire_flows
get-wire_flows k fo eo p h =
    get-modify_each (adopt p.flows) k (adopt_idem p.flows k) eo (wire_all fo p.flows p.elements)
    ∙ rw (h, get-wire_all k fo p.flows p.elements) (Option.map-map _ _ (get k p.elements))
