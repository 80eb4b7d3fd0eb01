-- ===== src/Govaluate.antt =====
-- The expression library github.com/Knetic/govaluate, which the gateways and script tasks call and
-- which is no part of the program: it enters as a parameter.
use bpmn_ai.Base.{String, List, [], ◌∷◌, Option, none, some}
use bpmn_ai.Base.Dict.{Dict, get, put}
use bpmn_ai.Model.{Value}

pub data Outcome {ℓ} (A : Type ℓ) : Type ℓ where
  good : A → Outcome A
  bad : String → Outcome A

-- `parse` is NewEvaluableExpression, `vars` and `evaluate` the methods Vars and Evaluate; an error
-- is held by its text.
pub record Govaluate : Type 1 where
  pub Expression : Type 0
  pub parse : String → Outcome Expression
  pub vars : Expression → List String
  pub evaluate : Expression → Dict Value → Outcome Value

add_found : String → Option Value → Dict Value → Dict Value
add_found k none m = m
add_found k (some v) m = put k v m

-- The variables of an expression that the instance has, as the callers collect them.
unfoldable pub collect : List String → Dict Value → Dict Value
unfolding add_found
collect [] vs = []
collect (k ∷ ks) vs = add_found k (get k vs) (collect ks vs)
