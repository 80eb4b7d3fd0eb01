-- ===== src/Tests/Calls.antt =====
-- Calls of the process of a start and an end event, and of a process that calls itself.
use mathlib.Core.Option
use bpmn_ai.Base.Text.{characters}
use bpmn_ai.Engine.CallActivity.{set_exits}
use bpmn_ai.Engine.CallActivity.{add_flows}
use bpmn_ai.Base.Text.{has_suffix}
use bpmn_ai.Engine.CallActivity.{exit_flows}
use bpmn_ai.Engine.CallActivity.{rename_flows}
use bpmn_ai.Engine.CallActivity.{rename_element}
use bpmn_ai.Engine.CallActivity.{with_exits}
use bpmn_ai.Engine.CallActivity.{prefix_of}
use bpmn_ai.Base.Dict.{put}
use bpmn_ai.Engine.CallActivity.{add_elements}
use bpmn_ai.Engine.CallActivity.{end_event_of}
use bpmn_ai.Base.{String, List, [], ◌∷◌, Option, some, ◌≡◌, refl}
use bpmn_ai.Base.Dict.{get, keys}
use bpmn_ai.Engine.CallActivity.{flatten, entry_flow}
use bpmn_ai.Engine.CallActivity.Own.{flatten_own}
use bpmn_ai.Model.{Process, start_event, end_event, call_activity}
use bpmn_ai.Tests.{straight, node, definition}

abbrev caller : Process
caller = definition "caller" "call" (("call", node "call" call_activity [] ("out" ∷ [])) ∷ []) []

abbrev outgoing : String → Process → Option (List String)
outgoing id p = Option.map (λ e. e.outgoing_flows) (get id p.elements)

-- The end of the called process leads on as the call activity does.
test_exits : outgoing "ca-call.end" (flatten "call" straight caller) ≡ some ("out" ∷ [])
unfolding get flatten end_event_of add_elements put prefix_of with_exits rename_element rename_flows
    exit_flows has_suffix
test_exits = refl

test_entry :
    get "ca-call.entry" (flatten "call" straight caller).flows ≡ some (entry_flow "call" straight)
unfolding get flatten end_event_of add_elements put prefix_of add_flows
test_entry = refl

abbrev recursive : Process
recursive =
    definition "recursive" "start"
      (("start", node "start" start_event [] ("in" ∷ []))
        ∷ ("call", node "call" call_activity ("in" ∷ []) ("out" ∷ []))
        ∷ ("end", node "end" end_event ("out" ∷ []) [])
        ∷ [])
      []

-- When a process calls itself, the call activity's own flows are renamed too, so that the end of the
-- called process leads nowhere.
test_own_flows :
    outgoing "call" (flatten_own (keys recursive.elements) [] "call" recursive)
    ≡ some ("ca-call.out" ∷ [])
unfolding get flatten_own set_exits keys put prefix_of rename_flows characters
test_own_flows = refl

test_own_exits :
    outgoing "ca-call.end" (flatten_own (keys recursive.elements) [] "call" recursive) ≡ some []
unfolding get flatten_own set_exits keys put prefix_of rename_flows characters with_exits exit_flows
    has_suffix
test_own_exits = refl

-- The loop may come to a copy, and then names the flows of both once more.
test_own_copy :
    outgoing "call" (flatten_own ("call" ∷ "ca-call.call" ∷ []) [] "call" recursive)
    ≡ some ("ca-call.ca-call.out" ∷ [])
unfolding get flatten_own set_exits put prefix_of characters rename_flows
test_own_copy = refl
