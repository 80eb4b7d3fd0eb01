-- ===== src/Tests/Loops.antt =====
-- The engine on a process of a start event and an end event.
use bpmn_ai.Base.{
  ℕ, String, ◌≤◌, ◌||◌, ◌==◌, none, map, keep, length, count-le-length, List, [], ◌∷◌, false, true,
  ◌≡◌, refl,
}
use bpmn_ai.Base.Dict.{get, put}
use bpmn_ai.Element.{ExecutionResult, result, wait, complete, route as routes}
use bpmn_ai.Engine.Catch.{catch_at, find_error_catch}
use bpmn_ai.Engine.Catch.Priority
use bpmn_ai.Engine.FailSafe.{check_all, new, check}
use bpmn_ai.Engine.FailSafe.Bounds
use bpmn_ai.Engine.Handle.{handle_result, handle_complete}
use bpmn_ai.Engine.Send.{when}
use bpmn_ai.Engine.Handle.Balance.{IsBalanced}
use bpmn_ai.Engine.Handle.Lifecycle
use bpmn_ai.Engine.Handle.Pending
use bpmn_ai.Engine.Loop.Progress.{received}
use bpmn_ai.Engine.FailSafe.Bounds.{all_known}
use bpmn_ai.Engine.Resume.Bounds.{run_moves_bounds}
use bpmn_ai.Engine.FailSafe.Bounds.{runs_of}
use bpmn_ai.Engine.Loop.{
  ended, Running, running, run_moves, step, Moment, Move, take, receive, finish,
}
use bpmn_ai.Engine.Loop.Counting.{IsCounted}
use bpmn_ai.Engine.Resume
use bpmn_ai.Engine.Resume.Started
use bpmn_ai.Engine.Router.{route}
use bpmn_ai.Engine.Router.Selection
use bpmn_ai.Engine.State.{Loop, WorkItem}
use bpmn_ai.Errors.{ok}
use bpmn_ai.Model.{start_event, end_event}
use bpmn_ai.Process.State.{completed, waiting}
use bpmn_ai.Tests.{straight, engine, registry, idle, flow_at}
use bpmn_ai.Store.Memory.{Store}

abbrev now : Moment
now = record { now = 0; done = false; uuid = "u"; duration = 1 }

-- A worker takes an item and finishes it, and the loop receives the result.
abbrev turn : List (Moment × Move) → List (Moment × Move)
turn vs = (now, take) ∷ (now, finish 0) ∷ (now, receive) ∷ vs

abbrev from_start : ExecutionResult
from_start = result routes (flow_at "start" start_event)

handle_result-IsBalanced_example : IsBalanced (handle_result engine from_start)
handle_result-IsBalanced_example = Pending.handle_result-IsBalanced engine from_start

abbrev stalled : Loop Store
stalled = let l = idle straight in record l { instance = record l.instance { state = waiting } }

abbrev at_end : ExecutionResult
at_end = result complete (flow_at "end" end_event)

handle_complete_waiting_example :
    ((handle_complete engine at_end stalled).0.instance.state ≡ waiting)
    × ((handle_complete engine at_end stalled).0.events ≡ [])
handle_complete_waiting_example = Lifecycle.handle_complete_waiting engine at_end stalled refl refl

flow_ids-route_example :
    map (λ n. n.flow_id) (route from_start straight 1)
    ≡ keep (Selection.is_selected straight []) (Selection.outgoing straight "start")
flow_ids-route_example = Selection.flow_ids-route from_start straight 1

route-IsNext_example : Selection.All (Selection.IsNext straight 1) (route from_start straight 1)
route-IsNext_example = Selection.route-IsNext from_start straight 1

abbrev checked_ids : List (ℕ × String)
checked_ids = (1, "start") ∷ (2, "end") ∷ []

checks_pass : (check_all checked_ids (new 0 30000 1)).1 ≡ none
unfolding check_all new check get put
checks_pass = refl

runs_once : (id : String) → Bounds.runs_of id checked_ids ≤ 2
runs_once id = count-le-length (λ r. r.1 == id) checked_ids

check_all_passes_example : (check_all checked_ids (new 0 30000 2)).1 ≡ none
check_all_passes_example = Bounds.check_all_passes 0 30000 2 checked_ids refl (λ id h. runs_once id)

-- A run of two turns, to evaluate.
abbrev finished_run : Running Store
finished_run = Resume.run engine registry 30000 100 (turn (turn [])) (idle straight)

abbrev first_item : List WorkItem
first_item = record { flow = flow_at "start" start_event; thread_id = 1 } ∷ []

abbrev begun : Running Store
begun = Resume.begin engine registry 30000 100 first_item (idle straight)

one_turn_known : all_known ("start" ∷ "end" ∷ []) (received engine registry (turn []) begun) ≡ true
unfolding received step run_moves Resume.begin check new bpmn_ai.Engine.Execute.execute_element get
    bpmn_ai.Engine.Registry.get bpmn_ai.Engine.Registry.default_table
    bpmn_ai.Element.Events.start_event handle_result bpmn_ai.Engine.State.◌>>◌
    bpmn_ai.Engine.Handle.dispatch bpmn_ai.Engine.Send.with_instance route
    bpmn_ai.Engine.Router.next_flows bpmn_ai.Engine.Send.enqueue_flow
    bpmn_ai.Engine.Send.create_and_send bpmn_ai.Engine.State.create bpmn_ai.Engine.Send.send put
    bpmn_ai.Engine.State.pure bpmn_ai.Engine.State.attempt
one_turn_known = refl

one_turn_running : (run_moves engine registry (turn []) begun).status ≡ running
unfolding run_moves Resume.begin check new bpmn_ai.Engine.Execute.execute_element get
    bpmn_ai.Engine.Registry.get bpmn_ai.Engine.Registry.default_table
    bpmn_ai.Element.Events.start_event handle_result bpmn_ai.Engine.State.◌>>◌
    bpmn_ai.Engine.Handle.dispatch bpmn_ai.Engine.Send.with_instance route
    bpmn_ai.Engine.Router.next_flows bpmn_ai.Engine.Send.enqueue_flow
    bpmn_ai.Engine.Send.create_and_send bpmn_ai.Engine.State.create bpmn_ai.Engine.Send.send put
    bpmn_ai.Engine.State.pure bpmn_ai.Engine.State.attempt
one_turn_running = refl

run_moves_bounds_example :
    (length (received engine registry (turn []) begun) ≤ 200)
    × (runs_of "start" (received engine registry (turn []) begun) ≤ 100)
run_moves_bounds_example =
    run_moves_bounds engine registry 30000 100 (turn []) first_item (idle straight)
      ("start" ∷ "end" ∷ []) "start" refl one_turn_known refl one_turn_running

-- Two turns take the process from its start event to its end event.
finished_run_ends :
    (finished_run.status ≡ ended (ok tt)) × (finished_run.loop.instance.state ≡ completed)
unfolding Resume.run Resume.start Resume.begin_instance when run_moves
    bpmn_ai.Engine.Send.with_instance bpmn_ai.Engine.State.◌>>◌ bpmn_ai.Engine.State.update
    bpmn_ai.Process.Instance.transition bpmn_ai.Engine.State.create bpmn_ai.Engine.State.emit
    bpmn_ai.Engine.State.pure Resume.begin check new bpmn_ai.Engine.Execute.execute_element get
    bpmn_ai.Engine.Registry.get bpmn_ai.Engine.Registry.default_table
    bpmn_ai.Element.Events.start_event handle_result bpmn_ai.Engine.Handle.dispatch route
    bpmn_ai.Engine.Router.next_flows bpmn_ai.Engine.Send.enqueue_flow
    bpmn_ai.Engine.Send.create_and_send bpmn_ai.Engine.Send.send put bpmn_ai.Engine.State.attempt
    bpmn_ai.Element.Events.end_event bpmn_ai.Element.element bpmn_ai.Process.Instance.try_complete
    bpmn_ai.Engine.Catch.is_end_event handle_complete bpmn_ai.Store.Memory.create_flow
    bpmn_ai.Engine.Router.create_flow_record
finished_run_ends = (refl, refl)

enter-IsCounted_example : IsCounted (
    Started.enter engine registry 30000 100
      (Started.continuing "case" "flow" [])
      (turn [])
      (idle straight))
enter-IsCounted_example =
    Started.enter-IsCounted engine registry 30000 100 (Started.continuing "case" "flow" [])
      (turn []) (idle straight)

find_error_catch_lem_example :
    (find_error_catch "start" "E1" straight
      ≡ catch_at (Priority.catch_place "start" "E1" straight) "E1" straight)
    × (Priority.is_some (find_error_catch "start" "E1" straight) ≡ (
        Priority.parent_has_catch "start" "E1" straight
        || (Priority.has_catch "start" "E1" straight "start"
            || Priority.has_catch "start" "E1" straight "")))
find_error_catch_lem_example = Priority.find_error_catch_lem "start" "E1" straight
