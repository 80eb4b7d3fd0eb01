-- ===== src/Element/AiTask/Names.antt =====
-- internal/element/activities/ai_task.go, extractVarNames: the names between `{{` and the next `}}`.
pub mod Template
use Prim.Native.String.{◌++◌ as append}
use text.Mathlib.Text.{starts_with}
use bpmn_ai.Base.{String, List, [], ◌∷◌, is_empty, if◌then◌else◌}
use bpmn_ai.Base.Text.{trim_space}

-- Where the scan stands: before a `{{`, after its first brace, in a name, or after the first brace of
-- the `}}` that ends one.
pub data Scan : Type 0 where
  outside opening : Scan
  inside closing : String → Scan

unfoldable pub add_name : String → List String → List String
add_name name names = if is_empty name then names else name ∷ names

unfoldable pub scan_names : Scan → String → List String
unfolding add_name
scan_names q String.[] = []
scan_names outside (String.◌∷◌ x s) =
    scan_names (if starts_with (String.◌∷◌ x s) "{{" then opening else outside) s
scan_names opening (String.◌∷◌ x s) = scan_names (inside "") s
scan_names (inside n) (String.◌∷◌ x s) =
    scan_names
      (if starts_with (String.◌∷◌ x s) "}}" then closing n else inside (append n (String.◌∷◌ x "")))
      s
scan_names (closing n) (String.◌∷◌ x s) = add_name (trim_space n) (scan_names outside s)

unfoldable pub extract_var_names : String → List String
unfolding scan_names
extract_var_names s = scan_names outside s
