-- ===== src/Process/Sanitize.antt =====
-- internal/process/state.go, `sanitizeVariables` and `sanitizeSlice`: the variables that an instance
-- starts with. A map is walked in the order of its list; a `number` stands for the numeric cases of
-- the type switches, and `other` for their default case.
pub mod Bounds
use Prim.Native.Char.{code}
use Prim.Native.String.{len}
use bpmn_ai.Base.{
  ℕ, ◌+◌, String, Bool, true, false, ◌&&◌, ◌||◌, List, [], ◌∷◌, ltb, leb, nat_eq, if◌then◌else◌,
}
use bpmn_ai.Base.Dict.{Dict}
use bpmn_ai.Model.{
  Value, null, text, bool, number, slice, dict, other, Values, nil, cons, Fields, end, field,
}

is_letter : ℕ → Bool
is_letter c = (leb b'a' c && leb c b'z') || (leb b'A' c && leb c b'Z') || nat_eq c b'_'

is_digit : ℕ → Bool
is_digit c = leb b'0' c && leb c b'9'

tail_matches : String → Bool
unfolding is_letter is_digit
tail_matches String.[] = true
tail_matches (String.◌∷◌ c s) = (is_letter (code c) || is_digit (code c)) && tail_matches s

-- The pattern ^[a-zA-Z_][a-zA-Z0-9_]*$.
unfoldable pub is_valid_name : String → Bool
unfolding is_letter tail_matches
is_valid_name String.[] = false
is_valid_name (String.◌∷◌ c s) = is_letter (code c) && tail_matches s

abbrev pub max_depth : ℕ
max_depth = 3

abbrev pub max_size : ℕ
max_size = 1_048_576

-- What a value adds to `totalSize`.
unfoldable pub value_size : Value → ℕ
value_size null = 0
value_size (text s) = len s
value_size (bool b) = 0
value_size (number s) = 0
value_size (slice vs) = 0
value_size (dict fs) = 0
value_size (other s) = len s

-- The depth is that of the map or slice that the value stands in; `total` is `totalSize`.
unfoldable mutual
  unfolding value_size is_valid_name

  pub sanitize_value : ℕ → Value → Value
  sanitize_value depth null = null
  sanitize_value depth (text s) = text s
  sanitize_value depth (bool b) = bool b
  sanitize_value depth (number s) = number s
  sanitize_value depth (slice vs) =
      slice (
        let kept = sanitize_slice (depth + 1) vs in if ltb max_depth (depth + 1) then nil else kept)
  sanitize_value depth (dict fs) = dict (
      let kept = sanitize_fields (depth + 1) 0 fs in
      if ltb max_depth (depth + 1) then end else kept)
  sanitize_value depth (other s) = text s

  pub sanitize_slice : ℕ → Values → Values
  sanitize_slice depth nil = nil
  sanitize_slice depth (cons v vs) = cons (sanitize_value depth v) (sanitize_slice depth vs)

  pub sanitize_fields : ℕ → ℕ → Fields → Fields
  sanitize_fields depth total end = end
  sanitize_fields depth total (field k v fs) =
      let size = total + len k + value_size v in
      let skipped = sanitize_fields depth total fs in
      let kept = field k (sanitize_value depth v) (sanitize_fields depth size fs) in
      if is_valid_name k then (if ltb max_size size then end else kept) else skipped

unfoldable pub of_dict : Dict Value → Fields
of_dict [] = end
of_dict ((k, v) ∷ m) = field k v (of_dict m)

unfoldable pub to_dict : Fields → Dict Value
to_dict end = []
to_dict (field k v fs) = (k, v) ∷ to_dict fs

unfoldable pub sanitize_variables : Dict Value → Dict Value
unfolding of_dict to_dict
sanitize_variables vs = to_dict (sanitize_fields 0 0 (of_dict vs))
