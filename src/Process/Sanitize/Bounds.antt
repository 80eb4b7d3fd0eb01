-- ===== src/Process/Sanitize/Bounds.antt =====
-- internal/process/state.go: what `sanitizeVariables` lets through.
use Prim.Native.String.{len}
use bpmn_ai.Base.{ℕ, ◌+◌, ◌≤◌, Bool, true, ◌&&◌, ◌≡◌, refl, ap, ltb, arith, if◌then◌else◌}
use bpmn_ai.Base.Dict.{Dict}
use bpmn_ai.Model.{
  Value, null, text, bool, number, slice, dict, other, Values, nil, cons, Fields, end, field,
}
use bpmn_ai.Process.Sanitize.{
  is_valid_name, max_size, max_depth, value_size, sanitize_value, sanitize_slice, sanitize_fields,
  of_dict, to_dict, sanitize_variables,
}

value_size-sanitize_value : (d : ℕ) (v : Value) → value_size (sanitize_value d v) ≡ value_size v
unfolding sanitize_value
value_size-sanitize_value d null = refl
value_size-sanitize_value d (text s) = refl
value_size-sanitize_value d (bool b) = refl
value_size-sanitize_value d (number s) = refl
value_size-sanitize_value d (slice vs) = refl
value_size-sanitize_value d (dict fs) = refl
value_size-sanitize_value d (other s) = refl

mutual
  unfolding sanitize_value

  sanitize_value_idem :
      (d : ℕ) (v : Value) → sanitize_value d (sanitize_value d v) ≡ sanitize_value d v
  sanitize_value_idem d null = refl
  sanitize_value_idem d (text s) = refl
  sanitize_value_idem d (bool b) = refl
  sanitize_value_idem d (number s) = refl
  sanitize_value_idem d (slice vs) = ground (arith, sanitize_slice_idem (d + 1) vs)
  sanitize_value_idem d (dict fs) = ground (arith, sanitize_fields_idem (d + 1) 0 fs)
  sanitize_value_idem d (other s) = refl

  sanitize_slice_idem :
      (d : ℕ) (vs : Values) → sanitize_slice d (sanitize_slice d vs) ≡ sanitize_slice d vs
  sanitize_slice_idem d nil = refl
  sanitize_slice_idem d (cons v vs) = cc (sanitize_value_idem d v, sanitize_slice_idem d vs)

  sanitize_fields_idem :
      (d t : ℕ) (fs : Fields)
      → sanitize_fields d t (sanitize_fields d t fs) ≡ sanitize_fields d t fs
  sanitize_fields_idem d t end = refl
  sanitize_fields_idem d t (field k v fs) = ground (
    arith,
    value_size-sanitize_value d v,
    sanitize_value_idem d v,
    sanitize_fields_idem d t fs,
    sanitize_fields_idem d (t + len k + value_size v) fs,
  )

-- The bytes that a map's names and texts take.
unfoldable pub total_size : Fields → ℕ
total_size end = 0
total_size (field k v fs) = len k + value_size v + total_size fs

total_size-sanitize_fields :
    (d t : ℕ) (fs : Fields) → t ≤ max_size → t + total_size (sanitize_fields d t fs) ≤ max_size
unfolding sanitize_fields total_size
total_size-sanitize_fields d t end h = omega arith
total_size-sanitize_fields d t (field k v fs) h = ground (
  arith,
  value_size-sanitize_value d v,
  total_size-sanitize_fields d t fs,
  total_size-sanitize_fields d (t + len k + value_size v) fs,
)

-- Every name of the map, and of each map within it, is an identifier.
unfoldable mutual
  pub names_valid : Value → Bool
  names_valid null = true
  names_valid (text s) = true
  names_valid (bool b) = true
  names_valid (number s) = true
  names_valid (slice vs) = slice_names_valid vs
  names_valid (dict fs) = field_names_valid fs
  names_valid (other s) = true

  pub slice_names_valid : Values → Bool
  slice_names_valid nil = true
  slice_names_valid (cons v vs) = names_valid v && slice_names_valid vs

  pub field_names_valid : Fields → Bool
  field_names_valid end = true
  field_names_valid (field k v fs) = is_valid_name k && (names_valid v && field_names_valid fs)

mutual
  unfolding sanitize_value names_valid

  names_valid-sanitize : (d : ℕ) (v : Value) → names_valid (sanitize_value d v) ≡ true
  names_valid-sanitize d null = refl
  names_valid-sanitize d (text s) = refl
  names_valid-sanitize d (bool b) = refl
  names_valid-sanitize d (number s) = refl
  names_valid-sanitize d (slice vs) = ground (arith, slice_names_valid-sanitize (d + 1) vs)
  names_valid-sanitize d (dict fs) = ground (arith, field_names_valid-sanitize (d + 1) 0 fs)
  names_valid-sanitize d (other s) = refl

  slice_names_valid-sanitize :
      (d : ℕ) (vs : Values) → slice_names_valid (sanitize_slice d vs) ≡ true
  slice_names_valid-sanitize d nil = refl
  slice_names_valid-sanitize d (cons v vs) =
      ground (arith, names_valid-sanitize d v, slice_names_valid-sanitize d vs)

  field_names_valid-sanitize :
      (d t : ℕ) (fs : Fields) → field_names_valid (sanitize_fields d t fs) ≡ true
  field_names_valid-sanitize d t end = refl
  field_names_valid-sanitize d t (field k v fs) = ground (
    arith,
    names_valid-sanitize d v,
    field_names_valid-sanitize d t fs,
    field_names_valid-sanitize d (t + len k + value_size v) fs,
  )

abbrev max : ℕ → ℕ → ℕ
max a b = if ltb a b then b else a

-- How many maps and slices stand round the innermost value.
unfoldable mutual
  pub height : Value → ℕ
  height null = 0
  height (text s) = 0
  height (bool b) = 0
  height (number s) = 0
  height (slice vs) = 1 + slice_height vs
  height (dict fs) = 1 + field_height fs
  height (other s) = 0

  pub slice_height : Values → ℕ
  slice_height nil = 0
  slice_height (cons v vs) = max (height v) (slice_height vs)

  pub field_height : Fields → ℕ
  field_height end = 0
  field_height (field k v fs) = max (height v) (field_height fs)

mutual
  unfolding sanitize_value height

  height-sanitize :
      (d : ℕ) (v : Value) → d ≤ max_depth → height (sanitize_value d v) + d ≤ max_depth + 1
  height-sanitize d null h = omega arith
  height-sanitize d (text s) h = omega arith
  height-sanitize d (bool b) h = omega arith
  height-sanitize d (number s) h = omega arith
  height-sanitize d (slice vs) h = ground (arith, slice_height-sanitize (d + 1) vs)
  height-sanitize d (dict fs) h = ground (arith, field_height-sanitize (d + 1) 0 fs)
  height-sanitize d (other s) h = omega arith

  slice_height-sanitize :
      (d : ℕ) (vs : Values) → d ≤ max_depth → slice_height (sanitize_slice d vs) + d ≤ max_depth + 1
  slice_height-sanitize d nil h = omega arith
  slice_height-sanitize d (cons v vs) h =
      ground (arith, height-sanitize d v h, slice_height-sanitize d vs h)

  field_height-sanitize :
      (d t : ℕ) (fs : Fields)
      → d ≤ max_depth
      → field_height (sanitize_fields d t fs) + d ≤ max_depth + 1
  field_height-sanitize d t end h = omega arith
  field_height-sanitize d t (field k v fs) h = ground (
    arith,
    height-sanitize d v h,
    field_height-sanitize d t fs h,
    field_height-sanitize d (t + len k + value_size v) fs h,
  )

of_dict-to_dict : (fs : Fields) → of_dict (to_dict fs) ≡ fs
unfolding of_dict to_dict
of_dict-to_dict end = refl
of_dict-to_dict (field k v fs) = ap (field k v) (of_dict-to_dict fs)

-- The variables that survive hold at most 1 MiB of names and texts at the top level, their names
-- are identifiers at every level, and maps and slices are nested at most four deep.
pub sanitize_variables_bounds :
    (vs : Dict Value)
    → let kept = of_dict (sanitize_variables vs) in
      (total_size kept ≤ max_size)
      × (field_names_valid kept ≡ true)
      × (field_height kept ≤ max_depth + 1)
unfolding sanitize_variables
sanitize_variables_bounds vs = rw (of_dict-to_dict (sanitize_fields 0 0 (of_dict vs))) (
  omega (arith, total_size-sanitize_fields 0 0 (of_dict vs)),
  field_names_valid-sanitize 0 0 (of_dict vs),
  omega (arith, field_height-sanitize 0 0 (of_dict vs)),
)

-- Sanitising a second time, as `Continue` does with the stored variables, changes nothing.
pub sanitize_variables_idem :
    (vs : Dict Value) → sanitize_variables (sanitize_variables vs) ≡ sanitize_variables vs
unfolding sanitize_variables
sanitize_variables_idem vs =
    rw (of_dict-to_dict (sanitize_fields 0 0 (of_dict vs)), sanitize_fields_idem 0 0 (of_dict vs))

-- The variables that survive hold at most 1 MiB of names and texts at the top level, their names
-- are identifiers at every level, and maps and slices are nested at most four deep; sanitising them
-- again, as `Continue` does with the stored variables, changes nothing.
pub sanitize_variables_lem :
    (vs : Dict Value)
    → let kept = of_dict (sanitize_variables vs) in
      (total_size kept ≤ max_size)
      × (field_names_valid kept ≡ true)
      × (field_height kept ≤ max_depth + 1)
      × (sanitize_variables (sanitize_variables vs) ≡ sanitize_variables vs)
sanitize_variables_lem vs =
    let (size, valid, height) = sanitize_variables_bounds vs in
    (size, valid, height, sanitize_variables_idem vs)
