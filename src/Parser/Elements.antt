-- ===== src/Parser/Elements.antt =====
-- pkg/bpmn/parser.go: parseEvent, parseGateway, parseActivity, parseFlow and isGatewayElement.
use bpmn_ai.Base.{
  String, Bool, true, false, not, ◌||◌, ◌&&◌, List, [], ◌∷◌, none, some, ◌==◌, is_empty,
  if◌then◌else◌,
}
use bpmn_ai.Base.Dict.{Dict, put}
use bpmn_ai.Model.{
  Element, ElementType, EventDefinition, Flow, GatewayDirection, start_event, end_event,
  message_catch, message_throw, timer_event, signal_catch, signal_throw, terminate_event, error_end,
  error_catch, exclusive_gateway, parallel_gateway, inclusive_gateway, event_based_gateway,
  user_task, ai_task, script_task, service_task, call_activity, sequence_flow,
}
use bpmn_ai.Model
use bpmn_ai.Parser.Csv.{split_csv}
use bpmn_ai.Parser.Xml.{FlowElement, XmlEvent, ExtensionValue}

abbrev pub one_of : List String → String → Bool
one_of [] tag = false
one_of (t ∷ ts) tag = tag == t || one_of ts tag

abbrev zero_event : EventDefinition
zero_event = record {
  type = Model.EventType.unset;
  timer_type = Model.TimerType.unset;
  timer_value = "";
  message_ref = "";
  error_code = "";
  signal_ref = "";
}

-- An element of which an identifier, a name and a type are given, and all else is zero.
abbrev pub blank : String → String → ElementType → Element
blank id name type = record {
  id = id;
  name = name;
  type = type;
  incoming_flows = [];
  outgoing_flows = [];
  incoming = [];
  outgoing = [];
  event_definition = zero_event;
  gateway_type = Model.GatewayType.unset;
  gateway_direction = Model.GatewayDirection.unset;
  default_flow_id = "";
  conditions = [];
  task_type = Model.TaskType.unset;
  assignee = "";
  candidate_users = [];
  candidate_groups = [];
  duration = "";
  attached_to_ref = "";
  cancel_activity = false;
  has_sub_process = false;
  sub_process_end = "";
  called_element = "";
  extension_data = [];
}

-- The first switch of parseEvent.
abbrev pub event_by_tag : FlowElement → Element
event_by_tag fe =
    let unnamed = blank fe.id fe.name in
    if fe.local == "startEvent"
    then unnamed start_event
    else if fe.local == "endEvent"
    then unnamed end_event
    else if fe.local == "intermediateCatchEvent"
    then unnamed message_catch
    else if fe.local == "intermediateThrowEvent"
    then unnamed message_throw
    else if fe.local == "boundaryEvent"
    then record (unnamed timer_event) {
      attached_to_ref = fe.attached_to_ref;
      cancel_activity = not (fe.cancel_activity == "false");
    }
    else unnamed Model.ElementType.unset

abbrev timer_definition : XmlEvent → EventDefinition → EventDefinition
timer_definition ed d =
    let t : EventDefinition = record d { type = Model.EventType.timer } in
    if not (is_empty ed.timer_type)
    then record t { timer_type = Model.TimerType.duration; timer_value = ed.timer_type }
    else if not (is_empty ed.timer_date)
    then record t { timer_type = Model.TimerType.date; timer_value = ed.timer_date }
    else if not (is_empty ed.timer_cycle)
    then record t { timer_type = Model.TimerType.cycle; timer_value = ed.timer_cycle }
    else t

-- The three tests of an error event definition, one after the other.
abbrev pub throw_error : FlowElement → Element → Element
throw_error fe e =
    if one_of ("endEvent" ∷ "intermediateThrowEvent" ∷ []) fe.local
    then record e { type = error_end }
    else e

abbrev pub catch_error : FlowElement → Element → Element
catch_error fe e =
    if fe.local == "boundaryEvent"
    then record e { type = error_catch; attached_to_ref = fe.attached_to_ref }
    else e

abbrev pub start_error : FlowElement → Element → Element
start_error fe e = if fe.local == "startEvent" then record e { type = error_catch } else e

-- One turn of the loop over the event definitions.
abbrev pub define_event : FlowElement → Element → XmlEvent → Element
define_event fe e ed =
    let d = e.event_definition in
    if ed.local == "timerEventDefinition"
    then record e { type = timer_event; event_definition = timer_definition ed d }
    else if ed.local == "messageEventDefinition"
    then record e {
      type =
          if one_of ("intermediateCatchEvent" ∷ "boundaryEvent" ∷ []) fe.local
          then message_catch
          else message_throw;
      event_definition = record d { type = Model.EventType.message; message_ref = ed.message_ref };
    }
    else if ed.local == "signalEventDefinition"
    then record e {
      type =
          if one_of ("intermediateCatchEvent" ∷ "boundaryEvent" ∷ "startEvent" ∷ []) fe.local
          then signal_catch
          else signal_throw;
      event_definition = record d { type = Model.EventType.signal; signal_ref = ed.signal_ref };
    }
    else if ed.local == "terminateEventDefinition"
    then record e {
      type = terminate_event;
      event_definition = record d { type = Model.EventType.terminate };
    }
    else if ed.local == "errorEventDefinition"
    then start_error fe (
        catch_error fe (
          throw_error fe (record e {
            event_definition = record d { type = Model.EventType.error; error_code = ed.error_ref };
          })))
    else e

unfoldable pub define_events : FlowElement → Element → List XmlEvent → Element
define_events fe e [] = e
define_events fe e (ed ∷ eds) = define_events fe (define_event fe e ed) eds

unfoldable pub parse_event : FlowElement → Element
unfolding define_events
parse_event fe = define_events fe (event_by_tag fe) fe.event_definitions

abbrev gateway_by_tag : FlowElement → Element → Element
gateway_by_tag fe e =
    if fe.local == "exclusiveGateway"
    then record e { type = exclusive_gateway; gateway_type = Model.GatewayType.exclusive }
    else if fe.local == "parallelGateway"
    then record e { type = parallel_gateway; gateway_type = Model.GatewayType.parallel }
    else if fe.local == "inclusiveGateway"
    then record e { type = inclusive_gateway; gateway_type = Model.GatewayType.inclusive }
    else if fe.local == "eventBasedGateway"
    then record e { type = event_based_gateway; gateway_type = Model.GatewayType.event_based }
    else e

abbrev direction : String → GatewayDirection
direction s =
    if s == "diverging"
    then Model.GatewayDirection.diverging
    else if s == "converging"
    then Model.GatewayDirection.converging
    else if s == "mixed"
    then Model.GatewayDirection.mixed
    else Model.GatewayDirection.unset

-- One turn of the loop over the extension elements.
abbrev extend : Element → ExtensionValue → Element
extend e x =
    if x.local == "condition" && not (is_empty x.flow)
    then record e { conditions = put x.flow x.value e.conditions }
    else record e { extension_data = put x.local x.value e.extension_data }

unfoldable pub extend_all : Element → List ExtensionValue → Element
extend_all e [] = e
extend_all e (x ∷ xs) = extend_all (extend e x) xs

unfoldable pub parse_gateway : FlowElement → Element
unfolding extend_all
parse_gateway fe =
    let unset : Element = record (blank fe.id fe.name Model.ElementType.unset) {
      default_flow_id = fe.default_flow_id;
    } in
    let e : Element = record (gateway_by_tag fe unset) {
      gateway_direction = direction fe.gateway_direction;
    } in
    elim fe.extension_elements [ none ↦ e | some xs ↦ extend_all e xs ]

abbrev activity_by_tag : FlowElement → Element → Element
activity_by_tag fe e =
    if fe.local == "userTask"
    then record e { type = user_task; task_type = Model.TaskType.user }
    else if fe.local == "scriptTask"
    then (if fe.script_type == "ai"
        then record e { type = ai_task; task_type = Model.TaskType.ai }
        else record e { type = script_task; task_type = Model.TaskType.script })
    else if fe.local == "serviceTask"
    then record e { type = service_task; task_type = Model.TaskType.service }
    else if fe.local == "task"
    then record e { type = user_task; task_type = Model.TaskType.user }
    else if fe.local == "callActivity"
    then record e { type = call_activity }
    else e

abbrev put_unless_empty : String → String → Dict String → Dict String
put_unless_empty k v m = if is_empty v then m else put k v m

-- The extension data of an activity. A map that is still nil is made before the first write; both
-- are the empty list.
abbrev activity_data : FlowElement → Dict String
activity_data fe = put_unless_empty "stream" fe.stream (
    put_unless_empty "promptRef" fe.prompt_ref (
      put_unless_empty "agents" fe.agents (
        put_unless_empty "rag" fe.rag (
          put_unless_empty "tools" fe.tools (
            put_unless_empty "outputSchema" fe.output_schema (
              put_unless_empty "systemPrompt" fe.system_prompt (
                put_unless_empty "profile" fe.profile (
                  put_unless_empty "model" fe.model (
                    put_unless_empty "scriptType" fe.script_type
                      (put_unless_empty "scriptBody" fe.script_body []))))))))))

unfoldable pub parse_activity : FlowElement → Element
parse_activity fe = record (activity_by_tag fe (blank fe.id fe.name Model.ElementType.unset)) {
  assignee = fe.assignee;
  duration = fe.duration;
  called_element = fe.called_element;
  extension_data = activity_data fe;
  candidate_users = if is_empty fe.candidate_users then [] else split_csv fe.candidate_users;
  candidate_groups = if is_empty fe.candidate_groups then [] else split_csv fe.candidate_groups;
}

unfoldable pub parse_flow : FlowElement → Flow
parse_flow fe = record {
  id = fe.id;
  name = fe.name;
  source_ref = fe.source_ref;
  target_ref = fe.target_ref;
  condition =
      if is_empty fe.condition && not (is_empty fe.condition_element)
      then fe.condition_element
      else fe.condition;
  is_default = fe.is_default;
}

-- The element under which a flow is executed as a step.
unfoldable pub flow_element : Flow → Element
flow_element f = record (blank f.id f.name sequence_flow) {
  extension_data =
      let ends = put "targetRef" f.target_ref (put "sourceRef" f.source_ref []) in
      let conditioned = put_unless_empty "conditionExpression" f.condition ends in
      if f.is_default then put "isDefault" "true" conditioned else conditioned;
}

unfoldable pub is_gateway_element : ElementType → Bool
is_gateway_element t = elim t [
  | exclusive_gateway ↦ true
  | inclusive_gateway ↦ true
  | parallel_gateway ↦ true
  | event_based_gateway ↦ true
  | _ ↦ false
]
