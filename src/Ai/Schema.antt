-- ===== src/Ai/Schema.antt =====
-- pkg/ai/schema.go: answers checked against a JSON schema. `unmarshal` is encoding/json, and `violations`
-- gojsonschema: what a value violates of a schema, or an error if there is no such schema. The text of
-- the violations is left out.
use bpmn_ai.Base.{String, List, [], ◌∷◌}
use bpmn_ai.Errors.{Result, ok, err, message, wrap}
use bpmn_ai.Model.{Value, dict}

unfoldable pub object : Value → Result Value
object (dict fs) = ok (dict fs)
object v = err (message "parsed JSON is not an object")

unfoldable pub conforming : Value → Result (List String) → Result Value
unfolding object
conforming v (err e) = err (wrap "schema validation error" e)
conforming v (ok (d ∷ ds)) = err (message "schema validation failed")
conforming v (ok []) = object v

unfoldable pub validate :
    (String → Result Value)
    → (String → Value → Result (List String))
    → String
    → String
    → Result Value
unfolding conforming
validate unmarshal violations schema answer = elim (unmarshal answer) [
  | err e ↦ err (wrap "response is not valid JSON" e)
  | ok v ↦ conforming v (violations schema v)
]
