-- ===== src/Tests/Processes.antt =====
-- The life of an instance, and the variables that it keeps.
use bpmn_ai.Base.{◌≤◌, ◌+◌, List, [], ◌∷◌, some, true, ◌≡◌, refl}
use bpmn_ai.Base.Dict.{Dict}
use bpmn_ai.Model.{Value, text, number, dict, field, end}
use bpmn_ai.Process.Instance.{Instance, new_instance, try_complete}
use bpmn_ai.Process.Lifecycle.{Call, transitions, completes, numbers, sets}
use bpmn_ai.Process.Lifecycle
use bpmn_ai.Process.Sanitize.{of_dict, sanitize_variables, max_size, max_depth}
use bpmn_ai.Process.Sanitize.Bounds
use bpmn_ai.Process.State.{in_progress, waiting, completed}
use bpmn_ai.Tests.{straight, case_of}

abbrev calls : List Call
calls = transitions 1 in_progress ∷ numbers ∷ sets 2 "x" (text "1") ∷ completes 3 ∷ []

run-new_instance-IsWellFormed_example :
    Lifecycle.IsWellFormed (Lifecycle.run (new_instance "case" "1234" 0 straight []) calls)
run-new_instance-IsWellFormed_example =
    Lifecycle.run-new_instance-IsWellFormed "case" "1234" 0 straight [] calls

abbrev done : Instance
done = record (case_of straight) { state = completed; finished_at = some 3 }

run_final_example :
    ((Lifecycle.run done calls).state ≡ completed)
    × ((Lifecycle.run done calls).finished_at ≡ some 3)
run_final_example = Lifecycle.run_final done calls refl

abbrev stalled : Instance
stalled = record (case_of straight) { state = waiting }

try_complete_once_example :
    let first = try_complete 1 stalled in
    let j = Lifecycle.run first.0 (transitions 2 in_progress ∷ []) in
    try_complete 3 j ≡ (j, first.1)
try_complete_once_example = Lifecycle.try_complete_once stalled 1 3 (transitions 2 in_progress ∷ [])

needs_start_example :
    Lifecycle.is_idle
      (Lifecycle.run (case_of straight) (completes 1 ∷ transitions 2 waiting ∷ [])).state
    ≡ true
needs_start_example =
    Lifecycle.needs_start (case_of straight) (completes 1 ∷ transitions 2 waiting ∷ []) refl refl

abbrev variables : Dict Value
variables = ("bad name", text "x") ∷ ("ok", dict (field "n" (number "1") end)) ∷ []

sanitize_variables_lem_example :
    let kept = of_dict (sanitize_variables variables) in
    (Bounds.total_size kept ≤ max_size)
    × (Bounds.field_names_valid kept ≡ true)
    × (Bounds.field_height kept ≤ max_depth + 1)
    × (sanitize_variables (sanitize_variables variables) ≡ sanitize_variables variables)
sanitize_variables_lem_example = Bounds.sanitize_variables_lem variables
