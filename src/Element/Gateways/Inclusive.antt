-- ===== src/Element/Gateways/Inclusive.antt =====
-- internal/element/gateways/inclusive.go: which flows a diverging inclusive gateway takes.
use bpmn_ai.Base.{
  ℕ, ◌<◌, String, Bool, true, false, List, [], ◌∷◌, map, some, ◌≢◌, keep, ◌≡◌, refl, ◌∙◌, arith,
  length, eq_iff, Bool-cases, inl, inr,
}
use bpmn_ai.Base.Dict.{Dict, get}
use bpmn_ai.Element.{Action, ExecutionContext, element}
use bpmn_ai.Element.Gateways.{is_converging, is_taken, matched_flows, inclusive}
use bpmn_ai.Engine.Router.{route, contains, no_filters}
use bpmn_ai.Engine.Router.Selection.{all_defined, flow_ids-routed, is_selected, is_some}
use bpmn_ai.Govaluate.{Govaluate}
use bpmn_ai.Model
use bpmn_ai.Model.{Value}

module _ (p : String → Bool) where
  contains-keep :
      (fs : List String) (x : String) → p x ≡ true → contains (keep p fs) x ≡ contains fs x
  unfolding contains
  contains-keep [] x h = refl
  contains-keep (f ∷ fs) x h = ground (arith, contains-keep fs x h, eq_iff f x)

  contains-keep-false :
      (fs : List String) (x : String) → p x ≡ false → contains (keep p fs) x ≡ false
  unfolding contains
  contains-keep-false [] x h = refl
  contains-keep-false (f ∷ fs) x h = ground (arith, contains-keep-false fs x h, eq_iff f x)

module _ (proc : Model.Process) (p : String → Bool) where
  is_selected-keep :
      (gs : List String) (f : String)
      → no_filters (keep p gs) ≡ false
      → contains gs f ≡ true
      → is_some (get f proc.flows) ≡ true
      → is_selected proc (keep p gs) f ≡ p f
  is_selected-keep gs f n c d = elim (Bool-cases (p f)) [
    | inl e ↦ ground (arith, contains-keep p gs f e)
    | inr e ↦ ground (arith, contains-keep-false p gs f e)
  ]

  keep-is_selected :
      (gs fs : List String)
      → no_filters (keep p gs) ≡ false
      → ((x : String) → contains fs x ≡ true → contains gs x ≡ true)
      → all_defined proc fs ≡ true
      → keep (is_selected proc (keep p gs)) fs ≡ keep p fs
  unfolding contains
  keep-is_selected gs [] n s a = refl
  keep-is_selected gs (f ∷ fs) n s a = ground (
    arith,
    is_selected-keep gs f n (s f (ground (arith, eq_iff f f))),
    keep-is_selected gs fs n (λ x h. s x (ground arith)),
  )

keep-ne :
    (p : String → Bool) (fs : List String) (f : String)
    → contains fs f ≡ true
    → p f ≡ true
    → no_filters (keep p fs) ≡ false
unfolding contains
keep-ne p [] f h k = cc
keep-ne p (x ∷ fs) f h k = ground (arith, keep-ne p fs f, eq_iff x f)

module _ (G : Govaluate) (g : Model.Element) (vs : Dict Value) where
  matched_flows-keep :
      (fs : List String)
      → no_filters (keep (is_taken G g vs) fs) ≡ false
      → matched_flows G g vs fs ≡ keep (is_taken G g vs) fs
  unfolding matched_flows
  matched_flows-keep fs n = ground arith

  matched_flows-ne : (fs : List String) → 1 < length fs → matched_flows G g vs fs ≢ []
  unfolding matched_flows
  matched_flows-ne [] l h = omega arith
  matched_flows-ne (f ∷ fs) l h = ground arith

  contains-matched_flows :
      (fs : List String) (f : String)
      → contains fs f ≡ true
      → is_taken G g vs f ≡ true
      → contains (matched_flows G g vs fs) f ≡ true
  contains-matched_flows fs f o t =
      rw
        (
          matched_flows-keep fs (keep-ne (is_taken G g vs) fs f o t),
          contains-keep (is_taken G g vs) fs f t,
        )
        o

module _ (G : Govaluate) (g e : Model.Element) (c : ExecutionContext) (found : element c ≡ some e)
    (diverges : is_converging g.gateway_direction ≡ false)
    (several : 1 < length e.outgoing_flows) where
  abbrev vs : Dict Value
  vs = c.instance.variables

  inclusive_lem :
      ((inclusive G g c).1.flow_filters ≡ matched_flows G g vs e.outgoing_flows)
      × ((inclusive G g c).1.action ≡ Action.route)
      × ((inclusive G g c).1.flow_data.element_id ≡ c.flow.element_id)
  unfolding inclusive
  inclusive_lem = ground arith

  -- The filters are never empty, which would stand for every flow.
  pub inclusive_filters : (inclusive G g c).1.flow_filters ≢ []
  inclusive_filters h =
      ground (arith, inclusive_lem, matched_flows-ne G g vs e.outgoing_flows several)

  -- A flow without a condition, or whose condition holds, is among the filters: the default flow
  -- too, whatever the other conditions say, if it has no condition.
  inclusive_takes :
      (f : String)
      → contains e.outgoing_flows f ≡ true
      → is_taken G g vs f ≡ true
      → contains (inclusive G g c).1.flow_filters f ≡ true
  inclusive_takes f o t =
      ground (arith, inclusive_lem, contains-matched_flows G g vs e.outgoing_flows f o t)

  -- In a process that defines the outgoing flows, if some flow has no condition or one that holds,
  -- it is among the filters, also if it is the default flow, and the engine follows exactly the
  -- flows of which that is true, in their order.
  pub inclusive_routes :
      (f : String) (t : ℕ)
      → contains e.outgoing_flows f ≡ true
      → is_taken G g vs f ≡ true
      → all_defined c.instance.process e.outgoing_flows ≡ true
      → (contains (inclusive G g c).1.flow_filters f ≡ true)
        × (map (λ n. n.flow_id) (route (inclusive G g c).1 c.instance.process t)
            ≡ keep (is_taken G g vs) e.outgoing_flows)
  unfolding element
  inclusive_routes f t o k a =
      let ne = keep-ne (is_taken G g vs) e.outgoing_flows f o k in
      (
        inclusive_takes f o k,
        flow_ids-routed (inclusive G g c).1 c.instance.process t e
              (keep (is_taken G g vs) e.outgoing_flows) e.outgoing_flows inclusive_lem.1
              (rw (inclusive_lem.2) found)
              (inclusive_lem.0 ∙ matched_flows-keep G g vs e.outgoing_flows ne) refl
            ∙ keep-is_selected c.instance.process (is_taken G g vs) e.outgoing_flows
                e.outgoing_flows ne (λ x h. h) a,
      )
