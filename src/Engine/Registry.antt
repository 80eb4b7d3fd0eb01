-- ===== src/Engine/Registry.antt =====
-- internal/engine/registry.go, and the registrations of cmd/engine/main.go. Every constructor of the
-- program succeeds, so an entry is the element's `Execute` for a definition. The read-write lock
-- makes each call one step.
use bpmn_ai.Base.{ℕ, String, Bool, true, false, Option, none, some}
use mathlib.Core.Logic.{ite}
use bpmn_ai.Element.{Execute}
use bpmn_ai.Element.Activities
use bpmn_ai.Element.Events
use bpmn_ai.Element.Gateways
use bpmn_ai.Errors.{Result, message, or_fail}
use bpmn_ai.Govaluate.{Govaluate}
use bpmn_ai.Model.{ElementType, ElementType-discrete, Element, TimerType}
use bpmn_ai.Model

abbrev pub Registry : Type 0
Registry = ElementType → Option (Element → Execute)

unfoldable pub new_registry : Registry
new_registry t = none

unfoldable pub register : ElementType → (Element → Execute) → Registry → Registry
register t ctor r u = ite (ElementType-discrete u t) (some ctor) (r u)

unfoldable pub get : Element → Registry → Result (Element → Execute)
get e r = or_fail (r e.type) (message "no constructor registered for element type")

unfoldable pub has : ElementType → Registry → Bool
has t r = elim (r t) [ none ↦ false | some ctor ↦ true ]

module _ (G : Govaluate) (calculate_schedule : TimerType → String → Option ℕ) (format : ℕ → String)
    (ai_task : Option (Element → Execute)) where
  -- What main registers; the AI task only with a gateway that it has configured.

  unfoldable pub default_table : Registry
  default_table Model.ElementType.start_event = some Events.start_event
  default_table Model.ElementType.end_event = some Events.end_event
  default_table Model.ElementType.terminate_event = some Events.terminate_event
  default_table Model.ElementType.timer_event = some (Events.timer_event calculate_schedule format)
  default_table Model.ElementType.message_throw = some Events.message_throw
  default_table Model.ElementType.message_catch = some Events.message_catch
  default_table Model.ElementType.exclusive_gateway = some (Gateways.exclusive G)
  default_table Model.ElementType.parallel_gateway = some Gateways.parallel
  default_table Model.ElementType.inclusive_gateway = some (Gateways.inclusive G)
  default_table Model.ElementType.event_based_gateway = some Gateways.event_based
  default_table Model.ElementType.user_task = some Activities.user_task
  default_table Model.ElementType.script_task = some (Activities.script_task G)
  default_table Model.ElementType.service_task = some Activities.service_task
  default_table Model.ElementType.sequence_flow = some Events.sequence_flow
  default_table Model.ElementType.sub_process = some Activities.sub_process
  default_table Model.ElementType.error_catch = some Events.error_catch
  default_table Model.ElementType.error_end = some Events.error_end
  default_table Model.ElementType.call_activity = some Activities.call_activity
  default_table Model.ElementType.signal_throw = some Events.signal_throw
  default_table Model.ElementType.signal_catch = some Events.signal_catch
  default_table Model.ElementType.ai_task = ai_task
  default_table Model.ElementType.unset = none
