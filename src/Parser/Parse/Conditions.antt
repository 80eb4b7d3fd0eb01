-- ===== src/Parser/Parse/Conditions.antt =====
-- pkg/bpmn/parser.go: the conditions that a gateway has after the last loop of Parse.
use bpmn_ai.Base.{
  String, Bool, true, false, List, [], ◌∷◌, Option, none, some, ◌==◌, is_empty, if◌then◌else◌, any,
  ◌≡◌, refl, sym, ◌∙◌, Bool-cases, inl, inr, eq_iff,
}
use bpmn_ai.Base.Dict.{Dict, get, get-put, get-put_self}
use bpmn_ai.Model.{Flow}
use bpmn_ai.Parser.Parse.{add_condition, add_found, add_conditions}

-- The condition of a flow, if the process has the flow and it is not empty.
abbrev pub condition_of : Option Flow → Option String
condition_of none = none
condition_of (some f) = if is_empty f.condition then none else some f.condition

abbrev pub or_else : Option String → Option String → Option String
or_else none d = d
or_else (some c) d = some c

get-add_found_same :
    (k : String) (o : Option Flow) (own : Option String) (cs : Dict String)
    → get k cs ≡ own
    → get k (add_found k o own cs) ≡ or_else own (condition_of o)
unfolding add_found
get-add_found_same k none none cs e = e
get-add_found_same k none (some c) cs e = e
get-add_found_same k (some f) (some c) cs e = e
get-add_found_same k (some f) none cs e = elim (Bool-cases (is_empty f.condition)) [
  | inl t ↦ rw t e
  | inr t ↦ rw t (get-put_self k f.condition cs)
]

get-add_found_other :
    (k id : String) (o : Option Flow) (own : Option String) (cs : Dict String)
    → id == k ≡ false
    → get k (add_found id o own cs) ≡ get k cs
unfolding add_found
get-add_found_other k id none own cs n = refl
get-add_found_other k id (some f) (some c) cs n = refl
get-add_found_other k id (some f) none cs n = elim (Bool-cases (is_empty f.condition)) [
  | inl t ↦ rw t refl
  | inr t ↦ rw t (get-put id k f.condition cs ∙ rw n refl)
]

or_else-none : (a : Option String) → or_else a none ≡ a
or_else-none none = refl
or_else-none (some c) = refl

or_else_again :
    (b : Bool) (a d : Option String) → or_else (or_else a d) (if b then d else none) ≡ or_else a d
or_else_again true none none = refl
or_else_again true none (some d) = refl
or_else_again true (some c) d = refl
or_else_again false a d = or_else-none (or_else a d)

-- A condition of the gateway's own stays; a flow without one gets that of the flow, if the gateway
-- lists the flow and the process has it.
pub get-add_conditions :
    (k : String) (flows : Dict Flow) (ids : List String) (cs : Dict String)
    → get k (add_conditions flows ids cs)
      ≡ or_else (get k cs) (if any (λ id. id == k) ids then condition_of (get k flows) else none)
unfolding add_conditions add_condition
get-add_conditions k flows [] cs = sym (or_else-none (get k cs))
get-add_conditions k flows (id ∷ ids) cs = elim (Bool-cases (id == k)) [
  | inl e ↦
      get-add_conditions k flows ids (add_condition flows id cs)
      ∙ rw (e, (eq_iff id k).0 e)
          (rw (get-add_found_same k (get k flows) (get k cs) cs refl)
            (or_else_again (any (λ j. j == k) ids) (get k cs) (condition_of (get k flows))))
  | inr e ↦
      get-add_conditions k flows ids (add_condition flows id cs)
      ∙ rw (e, get-add_found_other k id (get id flows) (get id cs) cs e) refl
]
