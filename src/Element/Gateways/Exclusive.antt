-- ===== src/Element/Gateways/Exclusive.antt =====
-- internal/element/gateways/exclusive.go: which flow a diverging exclusive gateway takes.
use bpmn_ai.Base.{
  ℕ, String, Bool, true, false, not, List, [], ◌∷◌, ◌++◌, some, any, all, ◌≡◌, refl, ◌∙◌, arith,
  is_empty, find?-cases, all-mid, eq_iff, Bool-cases, inl, inr, map,
}
use mathlib.Core.Path.{subst}
use bpmn_ai.Base.Dict.{Dict, get}
use bpmn_ai.Element.{Action, ExecutionContext, element}
use bpmn_ai.Element.Gateways.{
  is_converging, outgoing_flow_ids, condition_holds, matched_flow_id, exclusive,
}
use bpmn_ai.Engine.Router.{route, contains}
use bpmn_ai.Engine.Router.Selection.{distinct, all_defined, keep_one, flow_ids-routed}
use bpmn_ai.Govaluate.{Govaluate}
use bpmn_ai.Model
use bpmn_ai.Model.{Value}

module _ (G : Govaluate) (g : Model.Element) (vs : Dict Value) where
  -- The flow that the standard asks for: the first whose condition holds; if there is none, the
  -- default flow; and if that is not set, the first flow.
  pub data IsChosen (flows : List String) : String → Type 0 where
    first_true :
        (before after : List String) (f : String)
        → flows ≡ before ++ f ∷ after
        → any (condition_holds G g vs) before ≡ false
        → condition_holds G g vs f ≡ true
        → IsChosen flows f
    by_default :
        any (condition_holds G g vs) flows ≡ false
        → is_empty g.default_flow_id ≡ false
        → IsChosen flows g.default_flow_id
    first :
        (f : String) (rest : List String)
        → flows ≡ f ∷ rest
        → any (condition_holds G g vs) flows ≡ false
        → is_empty g.default_flow_id ≡ true
        → IsChosen flows f

  abbrev pub named : List String → Bool
  named = all (λ f. not (is_empty f))

  named_mid :
      (before after : List String) (f : String)
      → named (before ++ f ∷ after) ≡ true
      → is_empty f ≡ false
  named_mid before after f h = ground (arith, all-mid (λ f. not (is_empty f)) before after f h)

  matched_flow_id-IsChosen :
      (flow : String) (flows : List String)
      → named (flow ∷ flows) ≡ true
      → IsChosen (flow ∷ flows) (matched_flow_id G g vs (flow ∷ flows))
  unfolding matched_flow_id
  matched_flow_id-IsChosen flow flows h =
      elim (find?-cases (condition_holds G g vs) (flow ∷ flows)) [
        | inl (n, e) ↦ elim (Bool-cases (is_empty g.default_flow_id)) [
          | inl d ↦ rw (e, d) (first flow flows refl n d)
          | inr d ↦ rw (e, d, d) (by_default n d)
        ]
        | inr (before, f, after, split, n, t, e) ↦
            rw
              (
                e,
                named_mid before after f (subst (λ l. named l ≡ true) split h),
                named_mid before after f (subst (λ l. named l ≡ true) split h),
              )
              (first_true before after f split n t)
      ]

outgoing_flow_ids-eq :
    (c : ExecutionContext) (e : Model.Element) (flows : List String)
    → element c ≡ some e
    → e.outgoing_flows ≡ flows
    → outgoing_flow_ids c ≡ flows
unfolding outgoing_flow_ids
outgoing_flow_ids-eq c e flows h w = rw (h, outgoing_flow_ids) w

module _ (G : Govaluate) (g e : Model.Element) (c : ExecutionContext) (flow : String)
    (flows : List String) (found : element c ≡ some e) (wired : e.outgoing_flows ≡ flow ∷ flows)
    (all_named : named G g c.instance.variables (flow ∷ flows) ≡ true)
    (diverges : is_converging g.gateway_direction ≡ false) where
  -- A gateway that does not converge, in an element with outgoing flows, routes with a filter of
  -- one flow, the one that the standard asks for, and leaves the instance as it was.
  pub exclusive-IsChosen :
      (f : String) × IsChosen G g c.instance.variables (flow ∷ flows) f
      × ((exclusive G g c).1.flow_filters ≡ f ∷ [])
      × ((exclusive G g c).1.action ≡ Action.route)
      × ((exclusive G g c).0 ≡ c.instance)
  unfolding exclusive
  exclusive-IsChosen = (
    matched_flow_id G g c.instance.variables (flow ∷ flows),
    matched_flow_id-IsChosen G g c.instance.variables flow flows all_named,
    rw (diverges, outgoing_flow_ids-eq c e (flow ∷ flows) found wired),
    rw diverges,
    rw diverges,
  )

contains-mid : (before after : List String) (f : String) → contains (before ++ f ∷ after) f ≡ true
unfolding contains
contains-mid [] after f = ground (arith, eq_iff f f)
contains-mid (x ∷ before) after f = ground (arith, contains-mid before after f)

contains-IsChosen :
    (G : Govaluate) (g : Model.Element) (vs : Dict Value) (flows : List String) (f : String)
    → IsChosen G g vs flows f
    → (is_empty g.default_flow_id ≡ false → contains flows g.default_flow_id ≡ true)
    → contains flows f ≡ true
contains-IsChosen G g vs flows f (first_true before after _ split n t) d =
    rw split (contains-mid before after f)
contains-IsChosen G g vs flows f (by_default n e) d = d e
contains-IsChosen G g vs flows f (first _ rest split n e) d = rw split (contains-mid [] rest f)

element_id-exclusive :
    (G : Govaluate) (g : Model.Element) (c : ExecutionContext)
    → (exclusive G g c).1.flow_data.element_id ≡ c.flow.element_id
unfolding exclusive
element_id-exclusive G g c = ground arith

found_element :
    (c : ExecutionContext) (e : Model.Element)
    → element c ≡ some e
    → get c.flow.element_id c.instance.process.elements ≡ some e
unfolding element
found_element c e h = h

-- If the element has outgoing flows, all of them named, distinct and defined by the process, and the
-- default flow of the gateway, if it has one, among them, the engine takes exactly one flow from an
-- exclusive gateway that does not converge: the first whose condition holds, else the default flow,
-- else the first.
pub exclusive_routes_one :
    (G : Govaluate) (g e : Model.Element) (c : ExecutionContext) (flow : String)
    (flows : List String) (t : ℕ)
    → element c ≡ some e
    → e.outgoing_flows ≡ flow ∷ flows
    → named G g c.instance.variables (flow ∷ flows) ≡ true
    → is_converging g.gateway_direction ≡ false
    → (is_empty g.default_flow_id ≡ false → contains (flow ∷ flows) g.default_flow_id ≡ true)
    → distinct (flow ∷ flows) ≡ true
    → all_defined c.instance.process (flow ∷ flows) ≡ true
    → (f : String) × IsChosen G g c.instance.variables (flow ∷ flows) f
      × (map (λ n. n.flow_id) (route (exclusive G g c).1 c.instance.process t) ≡ f ∷ [])
exclusive_routes_one G g e c flow flows t he ho hn hd df di al =
    let x = exclusive-IsChosen G g e c flow flows he ho hn hd in
    (
      x.0,
      x.1,
      flow_ids-routed (exclusive G g c).1 c.instance.process t e (x.0 ∷ []) (flow ∷ flows) x.3
            (rw (element_id-exclusive G g c) (found_element c e he)) x.2 ho
          ∙ keep_one c.instance.process x.0 (flow ∷ flows)
              (contains-IsChosen G g c.instance.variables (flow ∷ flows) x.0 x.1 df) di al,
    )
