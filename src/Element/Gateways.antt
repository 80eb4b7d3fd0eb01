-- ===== src/Element/Gateways.antt =====
-- internal/element/gateways: exclusive.go, inclusive.go, parallel.go and event_based.go. A gateway
-- is built from the element definition, of which it keeps the id, the direction, the default flow
-- and the conditions; the model keeps the definition `g`.
pub mod Exclusive
pub mod Inclusive
pub mod Parallel
pub mod EventBased
use bpmn_ai.Base.{
  ℕ, String, Bool, true, false, not, ◌&&◌, ◌||◌, ◌==◌, List, [], ◌∷◌, ◌++◌, Option, none, some,
  length, count, find?, keep, ltb, leb, is_empty, if◌then◌else◌,
}
use bpmn_ai.Base.Dict.{Dict, get}
use bpmn_ai.Element.{
  ExecutionContext, ExecutionResult, Execute, route, wait, error, element, variable, set, completed,
  result,
}
use bpmn_ai.Errors.{Error, not_found, Result, ok, err}
use bpmn_ai.Govaluate.{Govaluate, Outcome, good, bad, collect}
use bpmn_ai.Model.{
  Element, Value, bool, text, null, GatewayDirection, diverging, converging, mixed, unset,
}
use bpmn_ai.Process.Instance.{Instance}
use bpmn_ai.Records.{FlowRecord, FlowStatus}
use bpmn_ai.Records

abbrev pub is_converging : GatewayDirection → Bool
is_converging converging = true
is_converging _ = false

-- The result is a `bool` and holds.
abbrev pub holds : Value → Bool
holds (bool b) = b
holds _ = false

abbrev outcome_holds : Outcome Value → Bool
outcome_holds (good v) = holds v
outcome_holds (bad e) = false

-- The failure that a gateway reports when the process has no such element.
abbrev pub missing : Element → FlowRecord → ExecutionResult
missing g f = record (result error f) { error = some (not_found g.id) }

-- `cond, hasCond := g.conditions[flowID]`, empty where there is none.
unfoldable pub condition_of : Element → String → String
condition_of g flow_id = elim (get flow_id g.conditions) [ none ↦ "" | some e ↦ e ]

outgoing_flow_ids : ExecutionContext → List String
outgoing_flow_ids c = elim (element c) [ none ↦ [] | some e ↦ e.outgoing_flows ]

abbrev first_or_empty : List String → String
first_or_empty [] = ""
first_or_empty (f ∷ fs) = f

abbrev or_empty : Option String → String
or_empty none = ""
or_empty (some f) = f

abbrev first_of_none : List String → List String → List String
first_of_none [] (f ∷ fs) = f ∷ []
first_of_none matched _ = matched

abbrev default_of_none : String → List String → List String
default_of_none d [] = if is_empty d then [] else d ∷ []
default_of_none d (f ∷ fs) = f ∷ fs

module _ (G : Govaluate) where
  open G use {Expression, parse, vars, evaluate}

  evaluate_parsed : Outcome Expression → Dict Value → Bool
  evaluate_parsed (bad e) vs = false
  evaluate_parsed (good e) vs = outcome_holds (evaluate e (collect (vars e) vs))

  -- The exclusive and the inclusive gateway have the same `evaluateCondition`.
  unfoldable pub evaluate_condition : String → Dict Value → Bool
  unfolding evaluate_parsed
  evaluate_condition condition vs =
      if is_empty condition then false else evaluate_parsed (parse condition) vs

  -- The flow has a condition, and it holds.
  unfoldable pub condition_holds : Element → Dict Value → String → Bool
  unfolding condition_of evaluate_condition
  condition_holds g vs flow_id =
      not (is_empty (condition_of g flow_id)) && evaluate_condition (condition_of g flow_id) vs

  -- `matchedFlowID`, with its two fallbacks.
  unfoldable pub matched_flow_id : Element → Dict Value → List String → String
  matched_flow_id g vs outgoing =
      let matched = or_empty (find? (condition_holds g vs) outgoing) in
      let defaulted =
        if is_empty matched && not (is_empty g.default_flow_id)
        then g.default_flow_id
        else matched in
      if is_empty defaulted then first_or_empty outgoing else defaulted

  unfoldable pub exclusive : Element → Execute
  unfolding outgoing_flow_ids
  exclusive g c =
      if is_converging g.gateway_direction then (c.instance, result route (completed c.flow)) else (
        c.instance,
        record (result route (completed c.flow)) {
          flow_filters = matched_flow_id g c.instance.variables (outgoing_flow_ids c) ∷ [];
        },
      )

  -- A flow without a condition is taken.
  unfoldable pub is_taken : Element → Dict Value → String → Bool
  unfolding condition_holds
  is_taken g vs flow_id =
      is_empty (condition_of g flow_id) || evaluate_condition (condition_of g flow_id) vs

  unfoldable pub matched_flows : Element → Dict Value → List String → List String
  matched_flows g vs outgoing =
      first_of_none (default_of_none g.default_flow_id (keep (is_taken g vs) outgoing)) outgoing

  unfoldable pub inclusive : Element → Execute
  inclusive g c = elim (element c) [
    | none ↦ (c.instance, missing g (completed c.flow))
    | some e ↦
        if is_converging g.gateway_direction || leb (length e.outgoing_flows) 1
        then (c.instance, result route (completed c.flow))
        else (
          c.instance,
          record (result route (completed c.flow)) {
            flow_filters = matched_flows g c.instance.variables e.outgoing_flows;
          },
        )
  ]

abbrev is_error : FlowStatus → Bool
is_error Records.FlowStatus.error = true
is_error _ = false

-- The records that count as tokens at the join.
unfoldable pub arrives : String → FlowRecord → Bool
arrives id f = f.element_id == id && not (is_error f.status)

unfoldable pub all_incoming_complete : Element → ExecutionContext → Bool
unfolding arrives
all_incoming_complete g c = elim (element c) [
  | none ↦ false
  | some e ↦ elim (c.flows_by_instance c.flow.instance_id) [
    | err x ↦ false
    | ok flows ↦ leb (length e.incoming_flows) (count (arrives g.id) flows)
  ]
]

abbrev join : Bool → FlowRecord → ExecutionResult
join true f = result route f
join false f = result wait f

-- The `switch` on the direction, and the fallback that infers it from the flows.
dispatch_parallel : GatewayDirection → Element → Element → ExecutionContext → ExecutionResult
dispatch_parallel diverging g e c = result route (completed c.flow)
dispatch_parallel converging g e c = join (all_incoming_complete g c) (completed c.flow)
dispatch_parallel _ g e c =
    if ltb 1 (length e.outgoing_flows)
    then result route (completed c.flow)
    else join (leb (length e.incoming_flows) 1 || all_incoming_complete g c) (completed c.flow)

unfoldable pub parallel : Element → Execute
unfolding dispatch_parallel
parallel g c = elim (element c) [
  | none ↦ (c.instance, missing g (completed c.flow))
  | some e ↦ (c.instance, dispatch_parallel g.gateway_direction g e c)
]

-- The gateway's three variables.
unfoldable pub arm : String → ExecutionContext → ExecutionContext
arm id c =
    set "eventbased_winning_element" (text "")
      (set "eventbased_gateway_resolved" (bool false) (set "eventbased_gateway_armed" (text id) c))

unfoldable pub event_based : Element → Execute
unfolding arm
event_based g c = elim (element c) [
  | none ↦ (c.instance, missing g (completed c.flow))
  | some e ↦
      if is_converging g.gateway_direction || leb (length e.outgoing_flows) 1
      then (c.instance, result route (completed c.flow))
      else ((arm g.id c).instance, result wait (completed c.flow))
]

-- A type assertion on the wrong type panics: `none`. A missing variable reads as nil.
unfoldable pub as_string : Option Value → Option String
as_string none = some ""
as_string (some null) = some ""
as_string (some (text s)) = some s
as_string (some _) = none

unfoldable pub as_bool : Option Value → Option Bool
as_bool none = some false
as_bool (some null) = some false
as_bool (some (bool b)) = some b
as_bool (some _) = none

-- Whether the winner, if there is one, is the element.
unfoldable pub wins : String → Option Value → Option Bool
wins id none = some false
wins id (some null) = some false
wins id (some (text s)) = some (s == id)
wins id (some _) = none

-- The first to resolve wins.
unfoldable pub claim : String → ExecutionContext → ExecutionContext
claim id c =
    set "eventbased_winning_element" (text id) (set "eventbased_gateway_resolved" (bool true) c)

-- `none` is a panic. The mutex makes each call one step.
unfoldable pub check_and_resolve : String → ExecutionContext → Option (ExecutionContext × Bool)
unfolding as_string as_bool wins
check_and_resolve id c = elim (as_string (variable "eventbased_gateway_armed" c)) [
  | none ↦ none
  | some armed ↦
      if is_empty armed
      then some (c, true)
      else elim (as_bool (variable "eventbased_gateway_resolved" c)) [
        | none ↦ none
        | some false ↦ some (claim id c, true)
        | some true ↦ elim (wins id (variable "eventbased_winning_element" c)) [
          | none ↦ none
          | some w ↦ some (c, w)
        ]
      ]
]
