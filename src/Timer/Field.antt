-- ===== src/Timer/Field.antt =====
-- internal/element/events/timer.go: cronFieldMatches. A remainder by 0 panics: the answer is none.
use bpmn_ai.Base.{
  ℕ, ◌-◌, ◌%◌, String, Bool, true, false, ◌&&◌, List, [], ◌∷◌, Option, none, some, ◌==◌, leb,
  nat_eq, if◌then◌else◌, ◌≡◌, refl,
}
use bpmn_ai.Base.Text.{cut, split, trim_space}
use bpmn_ai.Timer.Numbers.{atoi, has_char, max_int}

abbrev halves : Option (String × String) → String × String
halves none = ("", "")
halves (some p) = p

abbrev multiple : ℕ → ℕ → Option Bool
multiple n step = if nat_eq step 0 then none else some (nat_eq (n % step) 0)

-- Of a range, lo and hi as int64 against a value that is not negative.
unfoldable pub in_range : String × String → ℕ → Option Bool
in_range (lo, hi) v = some (leb (atoi lo).0 v && leb (atoi hi).0 max_int && leb v (atoi hi).0)

unfoldable pub on_step : String × String → ℕ → Option Bool
on_step (from, step) v =
    if from == "*"
    then multiple v (atoi step).0
    else if leb (atoi from).0 v
    then multiple (v - (atoi from).0) (atoi step).0
    else some false

-- A pattern without a comma.
unfoldable pub single_matches : String → ℕ → Option Bool
unfolding in_range on_step
single_matches p v =
    if p == "*"
    then some true
    else if has_char b'-' p
    then in_range (halves (cut b'-' p)) v
    else if has_char b'/' p
    then on_step (halves (cut b'/' p)) v
    else some ((atoi p).1 && nat_eq v (atoi p).0)

abbrev or_then : Option Bool → Option Bool → Option Bool
or_then none rest = none
or_then (some true) rest = some true
or_then (some false) rest = rest

unfoldable pub any_matches : List String → ℕ → Option Bool
unfolding single_matches
any_matches [] v = some false
any_matches (p ∷ ps) v = or_then (single_matches (trim_space p) v) (any_matches ps v)

-- The pieces between commas have none, so that the call for each is one of single_matches.
unfoldable pub field_matches : String → ℕ → Option Bool
unfolding any_matches
field_matches p v =
    if p == "*"
    then some true
    else if has_char b',' p
    then any_matches (split b',' p) v
    else single_matches p v

test_list : field_matches "0, 15,30-40" 35 ≡ some true
unfolding field_matches has_char split trim_space atoi cut
test_list = refl

-- The step of a range is dropped with its end, so that nothing matches.
test_range_step : field_matches "1-5/2" 3 ≡ some false
unfolding field_matches has_char atoi cut
test_range_step = refl

test_zero_step : field_matches "*/0" 3 ≡ none
unfolding field_matches has_char cut atoi
test_zero_step = refl
