-- ===== src/Timer/Numbers.antt =====
-- `strconv.Atoi` and what else of `strings` the timer uses. An int64 is held as the number modulo
-- 2 ^ 64 that has its bits.
use Prim.Native.Char.{Char, code}
use bpmn_ai.Base.{
  ℕ, ◌+◌, ◌-◌, ◌*◌, ◌%◌, ◌^◌, String, Bool, true, false, not, ◌&&◌, ◌||◌, List, [], ◌∷◌, Option,
  none, some, keep, is_empty, leb, nat_eq, if◌then◌else◌, ◌≡◌, refl,
}
use bpmn_ai.Base.Text.{is_space}

abbrev pub word : ℕ
word = 2 ^ 64

abbrev pub max_int : ℕ
max_int = 2 ^ 63 - 1

abbrev pub is_digit : Char → Bool
is_digit x = leb b'0' (code x) && leb (code x) b'9'

abbrev pub digit : Char → ℕ
digit x = code x - b'0'

-- The digits from here on, after those that make `n`; none if something else stands there.
unfoldable pub digits_from : ℕ → String → Option ℕ
digits_from n String.[] = some n
digits_from n (String.◌∷◌ x s) =
    let rest = digits_from (10 * n + digit x) s in if is_digit x then rest else none

unfoldable pub digits : String → Option ℕ
unfolding digits_from
digits s = if is_empty s then none else digits_from 0 s

-- The value and whether there is no error. A number that is too large is cut to what fits.
unfoldable pub bounded : Bool → Option ℕ → ℕ × Bool
bounded negative none = (0, false)
bounded true (some n) = if leb n (2 ^ 63) then ((word - n) % word, true) else (2 ^ 63, false)
bounded false (some n) = if leb n max_int then (n, true) else (max_int, false)

unfoldable pub atoi : String → ℕ × Bool
unfolding digits bounded
atoi String.[] = (0, false)
atoi (String.◌∷◌ x s) =
    if nat_eq (code x) b'-'
    then bounded true (digits s)
    else if nat_eq (code x) b'+'
    then bounded false (digits s)
    else bounded false (digits (String.◌∷◌ x s))

-- `parseInt`, which drops the error.
abbrev pub parse_int : String → ℕ
parse_int s = (atoi s).0

unfoldable pub has_char : ℕ → String → Bool
has_char c String.[] = false
has_char c (String.◌∷◌ x s) = nat_eq (code x) c || has_char c s

unfoldable pub has_prefix : String → String → Bool
has_prefix String.[] s = true
has_prefix (String.◌∷◌ c p) String.[] = false
has_prefix (String.◌∷◌ c p) (String.◌∷◌ x s) = nat_eq (code x) (code c) && has_prefix p s

abbrev prepend : Char → List String → List String
prepend x [] = String.◌∷◌ x "" ∷ []
prepend x (t ∷ ts) = String.◌∷◌ x t ∷ ts

unfoldable pub split_spaces : String → List String
unfolding is_space
split_spaces String.[] = "" ∷ []
split_spaces (String.◌∷◌ x s) =
    let rest = split_spaces s in if is_space (code x) then "" ∷ rest else prepend x rest

-- `strings.Fields`.
unfoldable pub fields : String → List String
unfolding split_spaces
fields s = keep (λ w. not (is_empty w)) (split_spaces s)

test_atoi : atoi "-12" ≡ (word - 12, true)
unfolding atoi digits bounded digits_from
test_atoi = refl

test_fields : fields " every  5 m" ≡ "every" ∷ "5" ∷ "m" ∷ []
unfolding fields split_spaces is_space
test_fields = refl
