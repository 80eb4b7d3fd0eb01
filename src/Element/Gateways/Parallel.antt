-- ===== src/Element/Gateways/Parallel.antt =====
-- internal/element/gateways/parallel.go: when a parallel gateway lets its tokens through.
use bpmn_ai.Base.{◌≤◌, ◌<◌, List, some, ◌≡◌, ◌≢◌, arith, length, count, leb, if◌then◌else◌}
use bpmn_ai.Element.{Action, ExecutionContext, element}
use bpmn_ai.Element.Gateways.{arrives, all_incoming_complete, parallel}
use bpmn_ai.Errors.{ok}
use bpmn_ai.Model
use bpmn_ai.Model.{diverging, converging}
use bpmn_ai.Records.{FlowRecord}

-- The gateway joins: by its direction, or because it has several ways in and one way out.
pub data IsJoin (g e : Model.Element) : Type 0 where
  declared : g.gateway_direction ≡ converging → IsJoin g e
  inferred :
      g.gateway_direction ≢ diverging
      → length e.outgoing_flows ≤ 1
      → 1 < length e.incoming_flows
      → IsJoin g e

-- The action of the gateway when the store holds these records for the instance.
abbrev pub action_at : Model.Element → ExecutionContext → List FlowRecord → Action
action_at g c flows = (parallel g (record c { flows_by_instance = λ _. ok flows })).1.action

arrived-join :
    (g e : Model.Element) (c : ExecutionContext) (flows : List FlowRecord)
    → element c ≡ some e
    → all_incoming_complete g (record c { flows_by_instance = λ _. ok flows })
      ≡ leb (length e.incoming_flows) (count (arrives g.id) flows)
unfolding all_incoming_complete element
arrived-join g e c flows h = ground arith

module _ (g e : Model.Element) (c : ExecutionContext) (found : element c ≡ some e)
    (j : IsJoin g e) where
  -- A joining gateway routes once as many records name it, apart from failed ones, as it has
  -- incoming flows, and waits before.
  pub action_at-join :
      (flows : List FlowRecord)
      → action_at g c flows ≡ (
          if leb (length e.incoming_flows) (count (arrives g.id) flows)
          then Action.route
          else Action.wait)
  unfolding parallel element
  action_at-join flows = elim j [
    | declared d ↦ ground (arith, arrived-join g e c flows found)
    | inferred d o i ↦ ground (arith, arrived-join g e c flows found)
  ]
