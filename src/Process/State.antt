-- ===== src/Process/State.antt =====
-- internal/process/state.go: the states of a process instance and the transitions between them.
use bpmn_ai.Base.{Bool, true, false, List, [], ◌∷◌, any}

pub data State : Type 0 where
  created in_progress waiting suspended completed error terminated : State

pub State-discrete : Discrete State
State-discrete = hlevel

unfoldable pub valid_transitions : State → List State
valid_transitions created = in_progress ∷ error ∷ []
valid_transitions in_progress = waiting ∷ suspended ∷ completed ∷ error ∷ terminated ∷ []
valid_transitions waiting = in_progress ∷ error ∷ terminated ∷ []
valid_transitions suspended = in_progress ∷ error ∷ []
valid_transitions error = in_progress ∷ []
valid_transitions completed = []
valid_transitions terminated = []

-- `==` on states.
abbrev pub same : State → State → Bool
same created created = true
same in_progress in_progress = true
same waiting waiting = true
same suspended suspended = true
same completed completed = true
same error error = true
same terminated terminated = true
same _ _ = false

-- Every state is a key of the map, so the missing-key branch of the source is never taken.
unfoldable pub is_valid_transition : State → State → Bool
unfolding valid_transitions
is_valid_transition current next = any (λ s. same s next) (valid_transitions current)
