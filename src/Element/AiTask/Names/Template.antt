-- ===== src/Element/AiTask/Names/Template.antt =====
-- internal/element/activities/ai_task.go, extractVarNames, against the templates that it reads.
use mathlib.Core.Bool.{true≢false}
use Prim.Native.Char.{Char, code}
use Prim.Native.String.{◌++◌ as append}
use text.Mathlib.Text.{starts_with}
use text.Mathlib.TextEquality.{starts_with_iff}
use text.Mathlib.TextPositions.{starts_with-append}
use text.Mathlib.TextLemmas.{nil-append, cons-append, append-nil, append_assoc, head-eq_of_cons-eq}
use bpmn_ai.Base.{
  String, Bool, true, false, not, ◌&&◌, List, [], ◌∷◌, map, keep, all, is_empty, nat_eq, arith,
  if◌then◌else◌, ◌≡◌, refl, sym, ap, ◌∙◌, Bool-cases, inl, inr,
}
use bpmn_ai.Base.Text.{trim_space, lacks}
use bpmn_ai.Element.AiTask.Names.{
  outside, opening, inside, closing, add_name, scan_names, extract_var_names,
}

-- A template: pieces of text, each with the name in braces that follows it, and a last piece.
abbrev pub render : List (String × String) → String → String
render [] last = last
render ((t, n) ∷ ps) last = append t (append "{{" (append n (append "}}" (render ps last))))

-- No text has an opening brace, and no name a closing one.
abbrev pub is_template : List (String × String) → Bool
is_template = all (λ p. lacks b'{' p.0 && lacks b'}' p.1)

abbrev pub names_of : List (String × String) → List String
names_of ps = keep (λ n. not (is_empty n)) (map (λ p. trim_space p.1) ps)

starts_other :
    (x c : Char) (s t : String)
    → nat_eq (code x) (code c) ≡ false
    → starts_with (String.◌∷◌ x s) (String.◌∷◌ c t) ≡ false
starts_other x c s t h = elim (Bool-cases (starts_with (String.◌∷◌ x s) (String.◌∷◌ c t))) [
  | inl e ↦
      let (r, p) = (starts_with_iff (String.◌∷◌ x s) (String.◌∷◌ c t)).0 e in
      let q : c ≡ x = head-eq_of_cons-eq (sym (cons-append c t r) ∙ p) in
      absurd (true≢false (ground (arith, ap code q)))
  | inr e ↦ e
]

scan_open :
    (x : Char) (s : String) (b : Bool)
    → starts_with (String.◌∷◌ x s) "{{" ≡ b
    → scan_names outside (String.◌∷◌ x s) ≡ scan_names (if b then opening else outside) s
unfolding scan_names
scan_open x s b e = rw e refl

scan_close :
    (n : String) (x : Char) (s : String) (b : Bool)
    → starts_with (String.◌∷◌ x s) "}}" ≡ b
    → scan_names (inside n) (String.◌∷◌ x s)
      ≡ scan_names (if b then closing n else inside (append n (String.◌∷◌ x ""))) s
unfolding scan_names
scan_close n x s b e = rw e refl

-- A text without an opening brace has no name.
scan-text :
    (t u : String) → lacks b'{' t ≡ true → scan_names outside (append t u) ≡ scan_names outside u
unfolding lacks
scan-text String.[] u h = ap (scan_names outside) (nil-append u)
scan-text (String.◌∷◌ x t) u h =
    ap (scan_names outside) (cons-append x t u)
    ∙ scan_open x (append t u) false (starts_other x "{" (append t u) "{" (ground arith))
    ∙ scan-text t u (ground arith)

scan-last : (t : String) → lacks b'{' t ≡ true → scan_names outside t ≡ []
unfolding scan_names
scan-last t h = ap (scan_names outside) (sym (append-nil t)) ∙ scan-text t "" h

-- Two braces before a text.
abbrev doubled : Char → String → String
doubled x u = String.◌∷◌ x (String.◌∷◌ x u)

cons-doubled : (x : Char) (u : String) → append (doubled x "") u ≡ doubled x u
cons-doubled x u =
    cons-append x (String.◌∷◌ x "") u
    ∙ ap (String.◌∷◌ x) (cons-append x "" u ∙ ap (String.◌∷◌ x) (nil-append u))

open-doubled :
    (x : Char) (u : String)
    → starts_with (doubled x u) "{{" ≡ true
    → scan_names outside (doubled x u) ≡ scan_names (inside "") u
unfolding scan_names
open-doubled x u e = scan_open x (String.◌∷◌ x u) true e

close-doubled :
    (a : String) (x : Char) (u : String)
    → starts_with (doubled x u) "}}" ≡ true
    → scan_names (inside a) (doubled x u) ≡ add_name (trim_space a) (scan_names outside u)
unfolding scan_names
close-doubled a x u e = scan_close a x (String.◌∷◌ x u) true e

scan-braces : (u : String) → scan_names outside (append "{{" u) ≡ scan_names (inside "") u
unfolding scan_names
scan-braces u =
    ap (scan_names outside) (cons-doubled "{" u)
    ∙ open-doubled "{" u
        (ap (λ s. starts_with s "{{") (sym (cons-doubled "{" u)) ∙ starts_with-append "{{" u)

scan-name :
    (a n u : String)
    → lacks b'}' n ≡ true
    → scan_names (inside a) (append n (append "}}" u))
      ≡ add_name (trim_space (append a n)) (scan_names outside u)
unfolding lacks
scan-name a String.[] u h =
    ap (scan_names (inside a)) (nil-append (append "}}" u) ∙ cons-doubled "}" u)
    ∙ close-doubled a "}" u
        (ap (λ s. starts_with s "}}") (sym (cons-doubled "}" u)) ∙ starts_with-append "}}" u)
    ∙ ap (λ m. add_name (trim_space m) (scan_names outside u)) (sym (append-nil a))
scan-name a (String.◌∷◌ x n) u h =
    let rest = append n (append "}}" u) in
    ap (scan_names (inside a)) (cons-append x n (append "}}" u))
    ∙ scan_close a x rest false (starts_other x "}" rest "}" (ground arith))
    ∙ scan-name (append a (String.◌∷◌ x "")) n u (ground arith)
    ∙ ap (λ m. add_name (trim_space m) (scan_names outside u))
        (append_assoc a (String.◌∷◌ x "") n
          ∙ ap (append a) (cons-append x "" n ∙ ap (String.◌∷◌ x) (nil-append n)))

add_name-keep :
    (n : String) (ns : List String) → add_name n ns ≡ (if not (is_empty n) then n ∷ ns else ns)
unfolding add_name
add_name-keep n ns = elim (Bool-cases (is_empty n)) [ inl e ↦ rw e refl | inr e ↦ rw e refl ]

scan-render :
    (ps : List (String × String)) (last : String)
    → is_template ps ≡ true
    → lacks b'{' last ≡ true
    → scan_names outside (render ps last) ≡ names_of ps
scan-render [] last h l = scan-last last l
scan-render ((t, n) ∷ ps) last h l =
    scan-text t (append "{{" (append n (append "}}" (render ps last)))) (ground arith)
    ∙ scan-braces (append n (append "}}" (render ps last)))
    ∙ scan-name "" n (render ps last) (ground arith)
    ∙ ap (λ m. add_name (trim_space m) (scan_names outside (render ps last))) (nil-append n)
    ∙ ap (add_name (trim_space n)) (scan-render ps last (ground arith) l)
    ∙ add_name-keep (trim_space n) (names_of ps)

-- The names of a template, of which no text has an opening brace and no name a closing one, are those
-- that were put into it, in their order, trimmed, but for those of which nothing is left.
pub extract_var_names-render :
    (ps : List (String × String)) (last : String)
    → is_template ps ≡ true
    → lacks b'{' last ≡ true
    → extract_var_names (render ps last) ≡ names_of ps
unfolding extract_var_names
extract_var_names-render ps last h l = scan-render ps last h l
