-- ===== src/Ai/Tools.antt =====
-- pkg/ai/tools.go: the registry of the tools that a model may call. Each method runs under the
-- mutex. `order` is the order in which Go visits the map.
use bpmn_ai.Base.{String, List, [], ◌∷◌, map, Option, none, some, is_empty, if◌then◌else◌}
use bpmn_ai.Base.Dict.{Dict, get, put, keys}
use bpmn_ai.Errors.{Result, ok, err, message, ◌>>=◌}
use bpmn_ai.Ai.Gateway.{ToolDefinition, without_function}

abbrev pub ToolRegistry : Type 0 → Type 0
ToolRegistry T = Dict (ToolDefinition T)

unfoldable pub add_new :
    {T : Type 0}
    → ToolDefinition T
    → Option (ToolDefinition T)
    → ToolRegistry T
    → Result (ToolRegistry T)
add_new d none r = ok (put d.name d r)
add_new d (some t) r = err (message "tool already registered")

unfoldable pub register_tool :
    {T : Type 0} → ToolDefinition T → ToolRegistry T → Result (ToolRegistry T)
unfolding add_new
register_tool d r =
    if is_empty d.name
    then err (message "tool name cannot be empty")
    else add_new d (get d.name r) r

unfoldable pub get_tool : {T : Type 0} → String → ToolRegistry T → Option (ToolDefinition T)
get_tool name r = get name r

unfoldable pub tools_after :
    {T : Type 0}
    → Option (ToolDefinition T)
    → Result (List (ToolDefinition T))
    → Result (List (ToolDefinition T))
tools_after none rest = err (message "tool not found")
tools_after (some d) rest = rest >>= λ ds. ok (d ∷ ds)

-- The tools of these names, up to the first that is missing.
unfoldable pub tools_named :
    {T : Type 0} → List String → ToolRegistry T → Result (List (ToolDefinition T))
unfolding tools_after
tools_named [] r = ok []
tools_named (n ∷ ns) r = tools_after (get n r) (tools_named ns r)

unfoldable pub get_functions :
    {T : Type 0}
    → (List String → List String)
    → List String
    → ToolRegistry T
    → Result (List (ToolDefinition T))
unfolding tools_named
get_functions order [] r = tools_named (order (keys r)) r
get_functions order (n ∷ ns) r = tools_named (n ∷ ns) r

unfoldable pub get_definitions :
    {T : Type 0}
    → (List String → List String)
    → List String
    → ToolRegistry T
    → Result (List (ToolDefinition T))
unfolding get_functions without_function
get_definitions order names r = get_functions order names r >>= λ ds. ok (map without_function ds)

unfoldable pub list_tools :
    {T : Type 0} → (List String → List String) → ToolRegistry T → List String
list_tools order r = order (keys r)
