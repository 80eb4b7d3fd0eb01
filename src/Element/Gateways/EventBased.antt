-- ===== src/Element/Gateways/EventBased.antt =====
-- internal/element/gateways/event_based.go: the race between the branches of an event-based gateway.
use bpmn_ai.Base.{
  String, Bool, true, false, ◌==◌, List, [], ◌∷◌, map, Option, none, some, ◌≡◌, refl, arith,
  is_empty,
}
use bpmn_ai.Element.{ExecutionContext, variable, variable-set}
use bpmn_ai.Element.Gateways.{arm, claim, check_and_resolve}
use bpmn_ai.Model.{bool, text}

-- The branches' events, in the order in which they take the lock; `none` is a panic.
abbrev pub resolve_all : List String → ExecutionContext → Option (List Bool)
resolve_all [] c = some []
resolve_all (id ∷ ids) c = elim (check_and_resolve id c) [
  | none ↦ none
  | some (d, proceeds) ↦ elim (resolve_all ids d) [
    | none ↦ none
    | some rest ↦ some (proceeds ∷ rest)
  ]
]

-- The gateway is armed, and the branch of `id` has won.
record IsWon (id : String) (c : ExecutionContext) : Type 0 where
  armed_by : String
  armed : variable "eventbased_gateway_armed" c ≡ some (text armed_by)
  named : is_empty armed_by ≡ false
  resolved : variable "eventbased_gateway_resolved" c ≡ some (bool true)
  winner : variable "eventbased_winning_element" c ≡ some (text id)

check_and_resolve-won :
    (id x : String) (c : ExecutionContext) → IsWon id c → check_and_resolve x c ≡ some (c, id == x)
unfolding check_and_resolve
check_and_resolve-won id x c w = ground arith

resolve_all-won :
    (id : String) (xs : List String) (c : ExecutionContext)
    → IsWon id c
    → resolve_all xs c ≡ some (map (λ x. id == x) xs)
resolve_all-won id [] c w = refl
resolve_all-won id (x ∷ xs) c w =
    ground (arith, check_and_resolve-won id x c w, resolve_all-won id xs c w)

-- What the gateway leaves when it arms: nobody has won.
record IsArmed (c : ExecutionContext) : Type 0 where
  armed_by : String
  armed : variable "eventbased_gateway_armed" c ≡ some (text armed_by)
  named : is_empty armed_by ≡ false
  unresolved : variable "eventbased_gateway_resolved" c ≡ some (bool false)

arm-IsArmed : (id : String) (c : ExecutionContext) → is_empty id ≡ false → IsArmed (arm id c)
unfolding arm
arm-IsArmed id c h = record {
  armed_by = id;
  armed = simp variable-set;
  named = h;
  unresolved = simp variable-set;
}

claim-IsWon : (id : String) (c : ExecutionContext) → IsArmed c → IsWon id (claim id c)
unfolding claim
claim-IsWon id c a = record {
  armed_by = a.armed_by;
  armed = simp variable-set a.armed;
  named = a.named;
  resolved = simp variable-set;
  winner = simp variable-set;
}

check_and_resolve-armed :
    (x : String) (c : ExecutionContext) → IsArmed c → check_and_resolve x c ≡ some (claim x c, true)
unfolding check_and_resolve
check_and_resolve-armed x c a = ground arith

-- After the gateway has armed, in whatever order its branches' events fire, the first proceeds, and
-- of the later ones exactly those of the same element do; no call panics.
pub resolve_all-arm :
    (id first : String) (later : List String) (c : ExecutionContext)
    → is_empty id ≡ false
    → resolve_all (first ∷ later) (arm id c) ≡ some (true ∷ map (λ x. first == x) later)
resolve_all-arm id first later c h = ground (
  arith,
  check_and_resolve-armed first (arm id c) (arm-IsArmed id c h),
  resolve_all-won first later (claim first (arm id c))
      (claim-IsWon first (arm id c) (arm-IsArmed id c h)),
)

-- An instance that no event-based gateway has armed lets every event through, and is not changed.
pub check_and_resolve-unarmed :
    (x : String) (c : ExecutionContext)
    → variable "eventbased_gateway_armed" c ≡ none
    → check_and_resolve x c ≡ some (c, true)
unfolding check_and_resolve
check_and_resolve-unarmed x c h = ground arith
