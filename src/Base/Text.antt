-- ===== src/Base/Text.antt =====
-- The parts of Go's `strings` that the program uses, over texts of characters.
use Prim.Native.Char.{Char, code}
use Prim.Native.String.{String, ◌++◌ as append}
use text.Mathlib.Text.{◌==◌}
use bpmn_ai.Base.Tests.{leb, nat_eq, if◌then◌else◌}
use Prim.Native.Nat.{ℕ, ◌+◌}
use mathlib.Core.Path.{◌≡◌, refl, ap, ◌∙◌}
use mathlib.Core.Bool.{Bool, true, ◌&&◌, ◌||◌, not}
use mathlib.Core.List.{List, [], ◌∷◌}
use mathlib.Core.Option.{Option, none, some}
use native.Mathlib.Omega.{arith}
use text.Mathlib.TextLemmas.{nil-append, cons-append}

unfoldable pub characters : String → ℕ
characters String.[] = 0
characters (String.◌∷◌ x s) = characters s + 1

abbrev pub prepend : Char → List String → List String
prepend x [] = String.◌∷◌ x "" ∷ []
prepend x (t ∷ ts) = String.◌∷◌ x t ∷ ts

-- The pieces between the characters of code `c`: `strings.Split` at a separator of one byte.
unfoldable pub split : ℕ → String → List String
split c String.[] = "" ∷ []
split c (String.◌∷◌ x s) =
    let rest = split c s in if nat_eq (code x) c then "" ∷ rest else prepend x rest

unfoldable pub join : String → List String → String
join sep [] = ""
join sep (s ∷ []) = s
join sep (s ∷ t ∷ ts) = append s (append sep (join sep (t ∷ ts)))

-- What stands before and after the first character of code `c`: `strings.SplitN` with 2.
unfoldable pub cut : ℕ → String → Option (String × String)
cut c String.[] = none
cut c (String.◌∷◌ x s) =
    let rest : Option (String × String) = elim (cut c s) [
      | none ↦ none
      | some (a, b) ↦ some (String.◌∷◌ x a, b)
    ] in
    if nat_eq (code x) c then some ("", s) else rest

unfoldable pub has_suffix : String → String → Bool
has_suffix t String.[] = t == ""
has_suffix t (String.◌∷◌ x s) = String.◌∷◌ x s == t || has_suffix t s

-- `unicode.IsSpace`.
unfoldable pub is_space : ℕ → Bool
is_space c =
    (leb 9 c && leb c 13)
    || nat_eq c 32
    || nat_eq c 0x85
    || nat_eq c 0xa0
    || nat_eq c 0x1680
    || (leb 0x2000 c && leb c 0x200a)
    || nat_eq c 0x2028
    || nat_eq c 0x2029
    || nat_eq c 0x202f
    || nat_eq c 0x205f
    || nat_eq c 0x3000

unfoldable pub trim_left : String → String
unfolding is_space
trim_left String.[] = ""
trim_left (String.◌∷◌ x s) =
    let rest = trim_left s in if is_space (code x) then rest else String.◌∷◌ x s

unfoldable pub trim_right : String → String
unfolding is_space
trim_right String.[] = ""
trim_right (String.◌∷◌ x s) =
    let rest = trim_right s in if is_space (code x) && rest == "" then "" else String.◌∷◌ x rest

unfoldable pub trim_space : String → String
unfolding trim_left trim_right
trim_space s = trim_right (trim_left s)

-- No character of a text has the code `c`.
unfoldable pub lacks : ℕ → String → Bool
lacks c String.[] = true
lacks c (String.◌∷◌ x s) = not (nat_eq (code x) c) && lacks c s

split-lacks : (c : ℕ) (s : String) → lacks c s ≡ true → split c s ≡ s ∷ []
unfolding split lacks
split-lacks c String.[] h = refl
split-lacks c (String.◌∷◌ x s) h = ground (arith, split-lacks c s)

split-append :
    (c : ℕ) (s : String) (x : Char) (t : String)
    → lacks c s ≡ true
    → code x ≡ c
    → split c (append s (String.◌∷◌ x t)) ≡ s ∷ split c t
unfolding split lacks
split-append c String.[] x t h e = rw (nil-append (String.◌∷◌ x t)) (ground arith)
split-append c (String.◌∷◌ y s) x t h e =
    rw (cons-append y s (String.◌∷◌ x t)) (ground (arith, split-append c s x t))

abbrev pub all_lack : ℕ → List String → Bool
all_lack c [] = true
all_lack c (s ∷ ss) = lacks c s && all_lack c ss

comma-append : (r : String) → append "," r ≡ String.◌∷◌ "," r
comma-append r = cons-append "," "" r ∙ ap (String.◌∷◌ ",") (nil-append r)

-- Joining by a comma and splitting at commas gives the list back, if it is not empty and no text in
-- it has a comma.
pub split-join :
    (s : String) (ss : List String)
    → all_lack b',' (s ∷ ss) ≡ true
    → split b',' (join "," (s ∷ ss)) ≡ s ∷ ss
unfolding join
split-join s [] h = split-lacks b',' s (ground arith)
split-join s (t ∷ ts) h = rw (comma-append (join "," (t ∷ ts))) (
    split-append b',' s "," (join "," (t ∷ ts)) (ground arith) refl
    ∙ ap (◌∷◌ s) (split-join t ts (ground arith)))

test_split : split b',' "a,bc,,d" ≡ "a" ∷ "bc" ∷ "" ∷ "d" ∷ []
unfolding split
test_split = refl

test_trim : trim_space "  a b\n " ≡ "a b"
unfolding trim_space
test_trim = refl

test_cut : cut b'=' "x=1=2" ≡ some ("x", "1=2")
unfolding cut
test_cut = refl
