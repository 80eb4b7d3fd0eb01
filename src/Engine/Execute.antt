-- ===== src/Engine/Execute.antt =====
-- internal/engine/engine.go, `executeElement`, with the context of context.go. An execution is one
-- step of the loop's state, at the time that the engine holds; `duration` is how long it took.
use bpmn_ai.Base.{ℕ, String, [], ◌∷◌, ◌++◌, Option, none, some}
use Prim.Native.String.{◌++◌ as append}
use bpmn_ai.Base.Dict.{get}
use bpmn_ai.Element.{ExecutionResult, ExecutionContext, Execute, Action, error, result}
use bpmn_ai.Engine.Registry
use bpmn_ai.Engine.State.{Event, element_executed, element_error, Loop, Engine}
use bpmn_ai.Errors.{Error, Result, ok, err, wrap, not_found}
use bpmn_ai.Model.{Element}
use bpmn_ai.Process.Instance.{Instance}
use bpmn_ai.Records.{FlowRecord}

abbrev event_of : Action → String → Event
event_of error id = element_error id
event_of _ id = element_executed id

abbrev pub failure : FlowRecord → Error → ExecutionResult
failure f e = record (result error f) { error = some e }

module _ {S : Type 0} (E : Engine S) (registry : Registry.Registry) (duration : ℕ) where
  open E use {ops, now}

  pub new_context : FlowRecord → Loop S → ExecutionContext
  new_context f l = record {
    now = now;
    instance = l.instance;
    flow = f;
    flows_by_instance = λ id. ops.get_flows_by_instance id l.store;
  }

  pub timed : ExecutionResult → ExecutionResult
  timed r = record r {
    duration_ms = duration;
    flow_data = record r.flow_data { finished_at = some now; duration_ms = some duration };
  }

  -- The result, whose flow record the store may share, and the event.
  pub executed : String → Loop S → Instance × ExecutionResult → Loop S × ExecutionResult
  unfolding timed
  executed id l (i, r) = (
    record l {
      instance = i;
      store = ops.share_flow (timed r).flow_data l.store;
      events = l.events ++ event_of r.action id ∷ [];
    },
    timed r,
  )

  unfoldable pub execute_with :
      FlowRecord → Element → Result (Element → Execute) → Loop S → Loop S × ExecutionResult
  unfolding executed new_context
  execute_with f e (err x) l = (l, failure f (wrap (append "get element " f.element_id) x))
  execute_with f e (ok ctor) l = executed f.element_id l (ctor e (new_context f l))

  unfoldable pub execute_found : FlowRecord → Option Element → Loop S → Loop S × ExecutionResult
  unfolding execute_with
  execute_found f none l = (l, failure f (not_found f.element_id))
  execute_found f (some e) l = execute_with f e (Registry.get e registry) l

  unfoldable pub execute_element : FlowRecord → Loop S → Loop S × ExecutionResult
  unfolding execute_found
  execute_element f l = execute_found f (get f.element_id l.instance.process.elements) l
