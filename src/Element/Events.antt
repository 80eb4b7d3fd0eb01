-- ===== src/Element/Events.antt =====
-- internal/element/events: start_end.go, terminate.go, error_end.go, error_catch.go,
-- message_throw.go, message_catch.go, signal_throw.go, signal_catch.go and the Execute of timer.go;
-- and internal/element/flows/sequence.go.
use Prim.Native.String.{◌++◌ as append}
use bpmn_ai.Base.{ℕ, String, Option, none, some, is_empty, if◌then◌else◌}
use bpmn_ai.Base.Dict.{get}
use bpmn_ai.Base.Text.{split}
use bpmn_ai.Element.{
  ExecutionContext, Execute, route, wait, complete, terminate, throw_error, element, set, completed,
  result,
}
use bpmn_ai.Errors.{message}
use bpmn_ai.Model.{Element, TimerType, duration, date, cycle, unset, text}

-- The flow record stays active.
unfoldable pub start_event : Element → Execute
start_event e c = (c.instance, result route c.flow)

unfoldable pub exit_flows : ExecutionContext → String
exit_flows c = elim (element c) [
  | none ↦ ""
  | some e ↦ elim (get "subprocess_exit_flows" e.extension_data) [ none ↦ "" | some s ↦ s ]
]

-- The end event of a sub-process routes to the exits that its extension data names.
unfoldable pub end_event : Element → Execute
unfolding exit_flows
end_event e c =
    if is_empty (exit_flows c) then (c.instance, result complete (completed c.flow)) else (
      c.instance,
      record (result route (completed c.flow)) { flow_filters = split b',' (exit_flows c) },
    )

unfoldable pub terminate_event : Element → Execute
terminate_event e c = (c.instance, result terminate (completed c.flow))

unfoldable pub error_end : Element → Execute
error_end e c = (
  c.instance,
  record (result throw_error (completed c.flow)) {
    error = some (
        message (
          append "error thrown: code="
            (append e.event_definition.error_code (append " element=" e.id))));
  },
)

unfoldable pub error_catch : Element → Execute
error_catch e c = (c.instance, result route (completed c.flow))

-- A variable that is set only where the reference is not empty.
abbrev set_unless_empty : String → String → ExecutionContext → ExecutionContext
set_unless_empty key ref c = if is_empty ref then c else set key (text ref) c

unfoldable pub message_throw : Element → Execute
message_throw e c = (
  (set_unless_empty "message_ref" e.event_definition.message_ref c).instance,
  result route (completed c.flow),
)

unfoldable pub message_catch : Element → Execute
message_catch e c = (
  (set_unless_empty "expected_message" e.event_definition.message_ref c).instance,
  result wait c.flow,
)

unfoldable pub signal_throw : Element → Execute
signal_throw e c = (
  (set_unless_empty "signal_ref" e.event_definition.signal_ref c).instance,
  result route (completed c.flow),
)

unfoldable pub signal_catch : Element → Execute
signal_catch e c = (
  (set_unless_empty "expected_signal" e.event_definition.signal_ref c).instance,
  result wait c.flow,
)

unfoldable pub sequence_flow : Element → Execute
sequence_flow e c = (c.instance, result route (completed c.flow))

abbrev timer_name : TimerType → String
timer_name duration = "duration"
timer_name date = "date"
timer_name cycle = "cycle"
timer_name unset = ""

abbrev set_fire_at : Option String → ExecutionContext → ExecutionContext
set_fire_at none c = c
set_fire_at (some t) c = set "timer_fire_at" (text t) c

-- `calculate_schedule` is the function of timer.go, which reads the clock; `format` is Format of
-- Go's time package at RFC3339.
module _ (calculate_schedule : TimerType → String → Option ℕ) (format : ℕ → String) where
  unfoldable pub timer_event : Element → Execute
  timer_event e c =
      let kind = e.event_definition.timer_type in
      let value = e.event_definition.timer_value in
      let scheduled_at = calculate_schedule kind value in
      let fire_at : Option String = elim scheduled_at [ none ↦ none | some t ↦ some (format t) ] in
      let armed = set "timer_value" (text value) (set "timer_type" (text (timer_name kind)) c) in
      if is_empty value then (c.instance, result route c.flow) else (
        (set_fire_at fire_at armed).instance,
        record (result wait c.flow) { continue_at = scheduled_at },
      )
