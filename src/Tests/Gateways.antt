-- ===== src/Tests/Gateways.antt =====
-- The gateways on a process whose gateway has a flow that fails its condition and one that meets it.
use bpmn_ai.Base.{
  String, [], ◌∷◌, some, true, false, ◌≡◌, refl, arith, map, keep, count, leb, if◌then◌else◌,
}
use bpmn_ai.Base.Dict.{get}
use bpmn_ai.Element.{ExecutionContext, element, Action}
use bpmn_ai.Element.Gateways.{exclusive, inclusive, arrives, is_taken, arm}
use bpmn_ai.Element.Gateways.Exclusive
use bpmn_ai.Element.Gateways.Inclusive
use bpmn_ai.Element.Gateways.Parallel
use bpmn_ai.Element.Gateways.EventBased
use bpmn_ai.Engine.Router.{route, contains}
use bpmn_ai.Model.{Element, exclusive_gateway, inclusive_gateway, parallel_gateway}
use bpmn_ai.Records.{FlowRecord}
use bpmn_ai.Tests.{gateway, branching, at_gateway, readings, flow_at, node}

gateway_found : element (at_gateway exclusive_gateway) ≡ some (gateway exclusive_gateway)
unfolding element get
gateway_found = refl

exclusive_routes_one_example :
    (f : String) × Exclusive.IsChosen readings (gateway exclusive_gateway) [] ("a" ∷ "b" ∷ []) f
    × (map
          (λ n. n.flow_id)
          (route
            (exclusive readings (gateway exclusive_gateway) (at_gateway exclusive_gateway)).1
            (branching exclusive_gateway)
            1)
        ≡ f ∷ [])
unfolding contains get
exclusive_routes_one_example =
    Exclusive.exclusive_routes_one readings (gateway exclusive_gateway) (gateway exclusive_gateway)
      (at_gateway exclusive_gateway) "a" ("b" ∷ []) 1 gateway_found refl refl refl
      (λ h. ground arith) refl refl

inclusive_found : element (at_gateway inclusive_gateway) ≡ some (gateway inclusive_gateway)
unfolding element get
inclusive_found = refl

inclusive_routes_example :
    (contains
        (inclusive readings
          (gateway inclusive_gateway)
          (at_gateway inclusive_gateway)).1.flow_filters
        "b"
      ≡ true)
    × (map
          (λ n. n.flow_id)
          (route
            (inclusive readings (gateway inclusive_gateway) (at_gateway inclusive_gateway)).1
            (branching inclusive_gateway)
            1)
        ≡ keep (is_taken readings (gateway inclusive_gateway) []) ("a" ∷ "b" ∷ []))
unfolding contains is_taken get
inclusive_routes_example =
    Inclusive.inclusive_routes readings (gateway inclusive_gateway) (gateway inclusive_gateway)
      (at_gateway inclusive_gateway) inclusive_found refl (omega arith) "b" 1 refl refl refl

-- A join of two flows, to which the context's element leads.
abbrev join : Element
join = node "g" parallel_gateway ("a" ∷ "b" ∷ []) ("c" ∷ [])

abbrev at_join : ExecutionContext
at_join =
    let c = at_gateway parallel_gateway in
    record c {
      instance = record c.instance {
        process = record (branching parallel_gateway) { elements = ("g", join) ∷ [] };
      };
    }

join_found : element at_join ≡ some join
unfolding element get
join_found = refl

join_inferred : Parallel.IsJoin join join
join_inferred = Parallel.inferred (λ h. ground arith) (omega arith) (omega arith)

abbrev token : FlowRecord
token = flow_at "g" parallel_gateway

action_at-join_example :
    Parallel.action_at join at_join (token ∷ [])
    ≡ (if leb 2 (count (arrives "g") (token ∷ [])) then Action.route else Action.wait)
action_at-join_example =
    Parallel.action_at-join join join at_join join_found join_inferred (token ∷ [])

resolve_all-arm_example :
    EventBased.resolve_all ("m" ∷ "t" ∷ "m" ∷ []) (arm "g" at_join)
    ≡ some (true ∷ false ∷ true ∷ [])
resolve_all-arm_example = EventBased.resolve_all-arm "g" "m" ("t" ∷ "m" ∷ []) at_join refl
