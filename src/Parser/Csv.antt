-- ===== src/Parser/Csv.antt =====
-- pkg/bpmn/parser.go: splitCSV and trimSpace. The scan by byte index is one by character, since a
-- comma, a space and a tab are one byte each and stand in no other character's bytes.
use Prim.Native.Char.{Char, code}
use Prim.Native.String.{◌++◌ as append}
use text.Mathlib.TextLemmas.{nil-append, cons-append, append-nil, append_assoc}
use bpmn_ai.Base.{
  ℕ, ◌∙◌, String, Bool, true, false, not, ◌||◌, List, [], ◌∷◌, map, keep, is_empty, if◌then◌else◌,
  nat_eq, ◌&&◌, ◌≡◌, refl, ap, sym, Bool-cases, inl, inr,
}
use bpmn_ai.Base.Text.{split, prepend}

abbrev is_blank : Char → Bool
is_blank x = nat_eq (code x) b' ' || nat_eq (code x) 9

unfoldable skip_blanks : String → String
skip_blanks String.[] = ""
skip_blanks (String.◌∷◌ x s) =
    let rest = skip_blanks s in if is_blank x then rest else String.◌∷◌ x s

unfoldable drop_blanks : String → String
drop_blanks String.[] = ""
drop_blanks (String.◌∷◌ x s) =
    let rest = drop_blanks s in if is_blank x && is_empty rest then "" else String.◌∷◌ x rest

-- `start` advances over blanks, then `end` goes back over them.
unfoldable pub trim_blanks : String → String
unfolding skip_blanks drop_blanks
trim_blanks s = drop_blanks (skip_blanks s)

abbrev snoc : String → Char → String
snoc s x = append s (String.◌∷◌ x "")

-- Adds the trimmed piece, if anything is left of it.
abbrev add_piece : String → List String → List String
add_piece piece found =
    let value = trim_blanks piece in if is_empty value then found else value ∷ found

-- `piece` is what stands between `start` and `i`.
unfoldable pub split_csv_from : String → String → List String
split_csv_from piece String.[] = add_piece piece []
split_csv_from piece (String.◌∷◌ x s) = elim (nat_eq (code x) b',') [
  | true ↦ add_piece piece (split_csv_from "" s)
  | false ↦ split_csv_from (snoc piece x) s
]

unfoldable pub split_csv : String → List String
unfolding split_csv_from
split_csv s = split_csv_from "" s

-- The description that the scan is compared with.
abbrev pub clean : List String → List String
clean pieces = keep (λ v. not (is_empty v)) (map trim_blanks pieces)

test_split_csv : split_csv "ann,  bob\t,, ,c d" ≡ "ann" ∷ "bob" ∷ "c d" ∷ []
unfolding split_csv split_csv_from trim_blanks skip_blanks drop_blanks
test_split_csv = refl

abbrev glue : String → List String → List String
glue s [] = s ∷ []
glue s (t ∷ ts) = append s t ∷ ts

glue-prepend :
    (s : String) (x : Char) (ts : List String) → glue s (prepend x ts) ≡ glue (snoc s x) ts
glue-prepend s x [] = refl
glue-prepend s x (t ∷ ts) =
    rw (append_assoc s (String.◌∷◌ x "") t, cons-append x "" t, nil-append t)

nil-glue : (x : Char) (ts : List String) → glue "" (prepend x ts) ≡ prepend x ts
nil-glue x [] = rw (nil-append (String.◌∷◌ x "")) refl
nil-glue x (t ∷ ts) = rw (nil-append (String.◌∷◌ x t)) refl

nil-glue-split : (c : ℕ) (s : String) → glue "" (split c s) ≡ split c s
unfolding split
nil-glue-split c String.[] = refl
nil-glue-split c (String.◌∷◌ x s) = elim (Bool-cases (nat_eq (code x) c)) [
  | inl e ↦ rw e refl
  | inr e ↦ rw e (nil-glue x (split c s))
]

clean_first : (piece : String) (ts : List String) → add_piece piece (clean ts) ≡ clean (piece ∷ ts)
clean_first piece ts = elim (Bool-cases (is_empty (trim_blanks piece))) [
  | inl e ↦ rw e refl
  | inr e ↦ rw e refl
]

split_csv_from_comma :
    (piece : String) (x : Char) (s : String)
    → nat_eq (code x) b',' ≡ true
    → split_csv_from piece (String.◌∷◌ x s) ≡ add_piece piece (split_csv_from "" s)
unfolding split_csv_from
split_csv_from_comma piece x s e = rw (split_csv_from, e) refl

split_csv_from_other :
    (piece : String) (x : Char) (s : String)
    → nat_eq (code x) b',' ≡ false
    → split_csv_from piece (String.◌∷◌ x s) ≡ split_csv_from (snoc piece x) s
unfolding split_csv_from
split_csv_from_other piece x s e = rw (split_csv_from, e) refl

split_csv_from-split :
    (piece s : String) → split_csv_from piece s ≡ clean (glue piece (split b',' s))
unfolding split split_csv_from
split_csv_from-split piece String.[] = rw (append-nil piece) (clean_first piece [])
split_csv_from-split piece (String.◌∷◌ x s) = elim (Bool-cases (nat_eq (code x) b',')) [
  | inl e ↦
      split_csv_from_comma piece x s e
      ∙ ap (add_piece piece) (split_csv_from-split "" s ∙ ap clean (nil-glue-split b',' s))
      ∙ clean_first piece (split b',' s)
      ∙ ap clean {x = piece ∷ split b',' s} (rw (e, append-nil piece) refl)
  | inr e ↦
      split_csv_from_other piece x s e
      ∙ split_csv_from-split (snoc piece x) s
      ∙ ap clean (rw e (sym (glue-prepend piece x (split b',' s))))
]

-- The scan yields the pieces between the commas, trimmed of spaces and tabs, but for those of which
-- nothing is left.
pub split_csv-split : (s : String) → split_csv s ≡ clean (split b',' s)
unfolding split_csv
split_csv-split s = split_csv_from-split "" s ∙ ap clean (nil-glue-split b',' s)
