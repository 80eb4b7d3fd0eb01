-- ===== src/Timer/Duration.antt =====
-- internal/element/events/timer.go: parseISODuration. The regular expressions `(\d+)([YMD])` and
-- `(\d+)([HMS])` match a run of digits with a unit behind it, and FindAll skips everything else: the
-- scan keeps the run of digits that it stands behind.
use Prim.Native.Char.{code}
use bpmn_ai.Base.{
  ℕ, ◌+◌, ◌*◌, ◌%◌, String, Option, none, some, is_empty, leb, nat_eq, if◌then◌else◌, ◌≡◌, refl,
}
use bpmn_ai.Base.Text.{cut}
use bpmn_ai.Errors.{Result, ok, err, message}
use bpmn_ai.Timer.Numbers.{word, max_int, is_digit, digit}

abbrev pub second : ℕ
second = 1000000000

abbrev pub minute : ℕ
minute = 60 * second

abbrev pub hour : ℕ
hour = 60 * minute

abbrev pub day : ℕ
day = 24 * hour

abbrev date_unit : ℕ → Option ℕ
date_unit c =
    if nat_eq c b'Y'
    then some (365 * day)
    else if nat_eq c b'M'
    then some (30 * day)
    else if nat_eq c b'D'
    then some day
    else none

abbrev time_unit : ℕ → Option ℕ
time_unit c =
    if nat_eq c b'H'
    then some hour
    else if nat_eq c b'M'
    then some minute
    else if nat_eq c b'S'
    then some second
    else none

-- The run of digits with one more; Atoi cuts it to what fits.
abbrev grow : Option ℕ → ℕ → ℕ
grow none d = d
grow (some n) d = 10 * n + d

abbrev cut_int : ℕ → ℕ
cut_int n = if leb n max_int then n else max_int

-- What a character adds to the total, behind a run of digits.
abbrev amount : Option ℕ → Option ℕ → ℕ
amount none u = 0
amount (some n) none = 0
amount (some n) (some u) = cut_int n * u

unfoldable pub scan : (ℕ → Option ℕ) → Option ℕ → String → ℕ → ℕ
scan unit run String.[] total = total
scan unit run (String.◌∷◌ x s) total =
    scan unit (if is_digit x then some (grow run (digit x)) else none) s
      (if is_digit x then total else (total + amount run (unit (code x))) % word)

abbrev parts : Option (String × String) → String → String × String
parts none s = (s, "")
parts (some (d, t)) s = (d, t)

unfoldable pub strip_p : String → Option String
strip_p String.[] = none
strip_p (String.◌∷◌ x s) = if nat_eq (code x) b'P' then some s else none

unfoldable pub parse_iso_duration : String → Result ℕ
unfolding scan strip_p
parse_iso_duration s = elim (strip_p s) [
  | none ↦ err (message "invalid ISO 8601 duration")
  | some rest ↦
      if is_empty rest
      then err (message "empty duration")
      else (let p = parts (cut b'T' rest) rest in
          ok (scan time_unit none p.1 (scan date_unit none p.0 0)))
]

test_duration : parse_iso_duration "P1DT30M" ≡ ok (day + 30 * minute)
unfolding parse_iso_duration cut
test_duration = refl

-- An hour and a half is read as five hours, and a week as nothing.
test_fraction : parse_iso_duration "PT1.5H" ≡ ok (5 * hour)
unfolding parse_iso_duration cut
test_fraction = refl

test_week : parse_iso_duration "P1W" ≡ ok 0
unfolding parse_iso_duration cut
test_week = refl
