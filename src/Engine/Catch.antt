-- ===== src/Engine/Catch.antt =====
-- internal/engine/engine.go, `findErrorCatch`, `parentSubProcessID` and `isEndEvent`.
pub mod Priority
use bpmn_ai.Base.{
  String, Bool, true, false, not, ◌&&◌, ◌||◌, ◌==◌, List, [], ◌∷◌, Option, none, some, ◌≡◌, ◌⊎◌,
  inl, inr, refl, arith, find?, find?-cases, is_empty, if◌then◌else◌, eq_iff, ◌++◌, any,
}
use bpmn_ai.Base.Dict.{Dict, get}
use bpmn_ai.Base.Text.{cut}
use bpmn_ai.Model.{
  Element, ElementType, Process, sub_process, error_catch, end_event, terminate_event,
}

abbrev pub is_sub_process : ElementType → Bool
is_sub_process sub_process = true
is_sub_process _ = false

abbrev pub is_error_catch : ElementType → Bool
is_error_catch error_catch = true
is_error_catch _ = false

abbrev pub is_end : ElementType → Bool
is_end end_event = true
is_end terminate_event = true
is_end _ = false

-- A test of the element of an identifier, false if there is none.
abbrev pub has_type : (ElementType → Bool) → String → Process → Bool
has_type p id proc = elim (get id proc.elements) [ none ↦ false | some e ↦ p e.type ]

unfoldable pub is_end_event : String → Process → Bool
is_end_event id proc = has_type is_end id proc

-- The text before the first dot, if it names a sub-process; empty otherwise.
unfoldable pub parent_sub_process_id : String → Process → String
parent_sub_process_id id proc = elim (cut b'.' id) [
  | none ↦ ""
  | some (parent, rest) ↦
      if not (is_empty parent) && has_type is_sub_process parent proc then parent else ""
]

-- An error catch that is attached there and takes the code.
unfoldable pub catches : String → String → String × Element → Bool
catches attached code (id, e) =
    is_error_catch e.type
    && (e.attached_to_ref == attached
        && (is_empty e.event_definition.error_code || e.event_definition.error_code == code))

abbrev pub catch_at : String → String → Process → Option (String × Element)
catch_at attached code proc = find? (catches attached code) proc.elements

abbrev pub or_else :
    Option (String × Element) → Option (String × Element) → Option (String × Element)
or_else (some c) d = some c
or_else none d = d

-- On the parent sub-process, on the element itself, and then anywhere, attached to nothing.
unfoldable pub find_error_catch : String → String → Process → Option (String × Element)
find_error_catch id code proc =
    let parent = parent_sub_process_id id proc in
    or_else (if is_empty parent then none else catch_at parent code proc)
      (or_else (catch_at id code proc) (catch_at "" code proc))
