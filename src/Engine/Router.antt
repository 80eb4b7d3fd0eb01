-- ===== src/Engine/Router.antt =====
-- internal/engine/router.go, and the helpers of result.go.
pub mod Selection
use bpmn_ai.Base.{
  ℕ, String, Bool, true, false, not, ◌&&◌, ◌||◌, ◌==◌, List, [], ◌∷◌, Option, none, some, any,
  if◌then◌else◌,
}
use bpmn_ai.Base.Dict.{get}
use bpmn_ai.Element.{Action, ExecutionResult, route as routes, queue}
use bpmn_ai.Model.{ElementType, Element, Process, Flow, sequence_flow, unset}
use bpmn_ai.Records.{FlowRecord, FlowStatus}
use bpmn_ai.Records

pub record NextFlow : Type 0 where
  pub flow_id : String
  pub element_id : String
  pub element_type : ElementType
  pub thread_id : ℕ

unfoldable pub contains : List String → String → Bool
contains slice item = any (λ s. s == item) slice

abbrev pub type_of : Option Element → ElementType
type_of none = unset
type_of (some e) = e.type

abbrev pub is_sequence_flow : ElementType → Bool
is_sequence_flow sequence_flow = true
is_sequence_flow _ = false

-- The step to take for a flow that exists.
unfoldable pub next_of : Process → ℕ → String → Flow → NextFlow
next_of proc thread_id flow_id flow =
    if is_sequence_flow (type_of (get flow_id proc.elements))
    then record {
      flow_id = flow_id;
      element_id = flow_id;
      element_type = sequence_flow;
      thread_id = thread_id;
    }
    else record {
      flow_id = flow_id;
      element_id = flow.target_ref;
      element_type = type_of (get flow.target_ref proc.elements);
      thread_id = thread_id;
    }

abbrev pub no_filters : List String → Bool
no_filters [] = true
no_filters (f ∷ fs) = false

-- The body of the loop: `none` where it says `continue`.
unfoldable pub next_flow : Process → List String → ℕ → String → Option NextFlow
unfolding contains next_of
next_flow proc filters thread_id flow_id = elim (get flow_id proc.flows) [
  | none ↦ none
  | some flow ↦
      if no_filters filters || contains filters flow_id
      then some (next_of proc thread_id flow_id flow)
      else none
]

unfoldable pub next_flows : Process → List String → ℕ → List String → List NextFlow
unfolding next_flow
next_flows proc filters thread_id [] = []
next_flows proc filters thread_id (f ∷ fs) =
    let rest = next_flows proc filters thread_id fs in
    elim (next_flow proc filters thread_id f) [ none ↦ rest | some n ↦ n ∷ rest ]

abbrev pub is_routed : Action → Bool
is_routed routes = true
is_routed queue = true
is_routed _ = false

unfoldable pub route : ExecutionResult → Process → ℕ → List NextFlow
route result proc thread_id =
    if not (is_routed result.action)
    then []
    else elim (get result.flow_data.element_id proc.elements) [
      | none ↦ []
      | some e ↦ next_flows proc result.flow_filters thread_id e.outgoing_flows
    ]

unfoldable pub resolve_element_id : String → Process → String
resolve_element_id flow_id proc = elim (get flow_id proc.flows) [
  | none ↦ ""
  | some f ↦ f.target_ref
]

unfoldable pub create_flow_record : String → String → ElementType → ℕ → String → FlowRecord
create_flow_record instance_id element_id elem_type thread_id previous_id = record {
  id = "";
  instance_id = instance_id;
  element_id = element_id;
  element_type = elem_type;
  thread_id = thread_id;
  previous_id = previous_id;
  status = Records.FlowStatus.active;
  started_at = none;
  finished_at = none;
  duration_ms = none;
}
