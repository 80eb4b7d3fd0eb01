-- ===== src/Element/Activities.antt =====
-- internal/element/activities: user_task.go, service_task.go, script_task.go, subprocess.go and
-- call_activity.go.
use Prim.Native.String.{◌++◌ as append}
use bpmn_ai.Base.{String, List, [], ◌∷◌, Option, none, some, ◌==◌, is_empty, if◌then◌else◌}
use bpmn_ai.Base.Dict.{Dict, get}
use bpmn_ai.Base.Text.{join, cut, trim_space}
use bpmn_ai.Element.{
  ExecutionContext, Execute, route, form, queue, call_activity as call, set, completed, mark,
  result,
}
use bpmn_ai.Govaluate.{Govaluate, Outcome, good, bad, collect}
use bpmn_ai.Model.{Element, Value, text, other}
use bpmn_ai.Records

-- A `[]string`, by its `%v` print.
abbrev strings : List String → Value
strings ss = other (append "[" (append (join " " ss) "]"))

abbrev set_unless_nil : String → List String → ExecutionContext → ExecutionContext
set_unless_nil key [] c = c
set_unless_nil key (s ∷ ss) c = set key (strings (s ∷ ss)) c

unfoldable pub user_task : Element → Execute
user_task e c =
    let assigned = set "task_assignee" (text e.assignee) c in
    let offered = set_unless_nil "task_candidate_users" e.candidate_users assigned in
    (
      (set_unless_nil "task_candidate_groups" e.candidate_groups offered).instance,
      result form (mark Records.FlowStatus.active c.flow),
    )

unfoldable pub service_task : Element → Execute
service_task e c = (c.instance, result queue (mark Records.FlowStatus.active c.flow))

unfoldable pub sub_process : Element → Execute
sub_process e c = (
  c.instance,
  record (result route (completed c.flow)) { flow_filters = append e.id "_sp_entry" ∷ [] },
)

unfoldable pub call_activity : Element → Execute
call_activity e c =
    if is_empty e.called_element
    then (c.instance, result route (completed c.flow))
    else (c.instance, record (result call (completed c.flow)) { called_element = e.called_element })

abbrev extension : String → Element → String
extension key e = elim (get key e.extension_data) [ none ↦ "" | some s ↦ s ]

change_field : Option (String × String) → ExecutionContext → ExecutionContext
change_field none c =
    set "script_result" (text "error: invalid change_field format, expected field=value") c
change_field (some (field, value)) c =
    set "script_result" (text "ok") (set (trim_space field) (text (trim_space value)) c)

module _ (G : Govaluate) where
  open G use {Expression, parse, vars, evaluate}

  -- The text of an error, as `script_result` shows it.
  abbrev shown : Outcome Value → Value
  shown (good v) = v
  shown (bad e) = text (append "error: " e)

  outcome : Outcome Expression → Dict Value → Outcome Value
  outcome (bad e) vs = bad e
  outcome (good e) vs = evaluate e (collect (vars e) vs)

  -- `evalBusinessRule` and `evalExpression` are the same.
  unfoldable pub eval_expression : String → ExecutionContext → ExecutionContext
  unfolding outcome
  eval_expression body c = set "script_result" (shown (outcome (parse body) c.instance.variables)) c

  -- The `switch` on the script type; a business rule and any other script are evaluated.
  unfoldable pub run_script : String → String → ExecutionContext → ExecutionContext
  unfolding eval_expression change_field
  run_script type body c =
      if type == "change_field"
      then change_field (cut b'=' body) c
      else if type == "assign_team"
      then set "assigned_team" (text body) c
      else if type == "assign_user"
      then set "assigned_user" (text body) c
      else if type == "add_related"
      then set "related_entity" (text body) c
      else eval_expression body c

  unfoldable pub script_task : Element → Execute
  script_task e c =
      let body = extension "scriptBody" e in
      if is_empty body then (c.instance, result route (completed c.flow)) else (
        (run_script (extension "scriptType" e) body c).instance,
        result route (completed c.flow),
      )
