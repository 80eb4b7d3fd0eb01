-- ===== src/Ai/Prompt/Versions.antt =====
-- pkg/ai/prompt.go: the versions that a prompt has after any registrations.
use bpmn_ai.Base.{
  ℕ, suc, ◌+◌, String, List, [], ◌∷◌, ◌++◌, Option, none, some, ◌==◌, length, if◌then◌else◌, ◌≡◌,
  refl, ap, sym, ◌∙◌, arith, inl, inr, Bool-cases, eq_iff, eq_refl,
}
use bpmn_ai.Base.Dict.{get, get-put}
use bpmn_ai.Ai.Prompt
use bpmn_ai.Ai.Prompt.{
  PromptTemplate, PromptManager, new_prompt_template, last, versions_of, add_version,
  register_prompt,
}

unfoldable pub register_all :
    (String → String) → List (String × String) → PromptManager → PromptManager
register_all hash [] m = m
register_all hash ((name, body) ∷ rest) m =
    register_all hash rest (register_prompt hash name body m)

-- The bodies that are registered under a name, without one that is the same as the one before it.
abbrev add_body : String → List String → Option String → List String
add_body b bs none = bs ++ b ∷ []
add_body b bs (some c) = if c == b then bs else bs ++ b ∷ []

unfoldable pub bodies : String → List (String × String) → List String → List String
unfolding last
bodies name [] bs = bs
bodies name ((n, b) ∷ rest) bs =
    bodies name rest (if n == name then add_body b bs (last bs) else bs)

module _ (hash : String → String) (name : String) where
  -- These bodies, numbered.
  abbrev pub numbered : ℕ → List String → List PromptTemplate
  numbered n [] = []
  numbered n (b ∷ bs) = new_prompt_template hash name b n ∷ numbered (suc n) bs

  numbered-append :
      (n : ℕ) (bs : List String) (b : String)
      → numbered n (bs ++ b ∷ [])
        ≡ numbered n bs ++ new_prompt_template hash name b (n + length bs) ∷ []
  numbered-append n [] b = ap (λ k. new_prompt_template hash name b k ∷ []) (omega arith)
  numbered-append n (c ∷ bs) b = ap (◌∷◌ (new_prompt_template hash name c n)) (
      numbered-append (suc n) bs b
      ∙ ap (λ k. numbered (suc n) bs ++ new_prompt_template hash name b k ∷ []) (omega arith))

  abbrev numbered_last : ℕ → Option String → Option PromptTemplate
  numbered_last k none = none
  numbered_last k (some b) = some (new_prompt_template hash name b k)

  last-numbered :
      (n : ℕ) (b : String) (bs : List String)
      → last (numbered n (b ∷ bs)) ≡ numbered_last (n + length bs) (last (b ∷ bs))
  unfolding last
  last-numbered n b [] = ap (λ k. some (new_prompt_template hash name b k)) (omega arith)
  last-numbered n b (c ∷ bs) =
      last-numbered (suc n) c bs ∙ ap (λ k. numbered_last k (last (c ∷ bs))) (omega arith)

  added : Option (List PromptTemplate) → List PromptTemplate → List PromptTemplate
  added none ts = ts
  added (some us) ts = us

  last-cons : (c : String) (bs : List String) → (d : String) × (last (c ∷ bs) ≡ some d)
  unfolding last
  last-cons c [] = (c, refl)
  last-cons c (d ∷ bs) = last-cons d bs

  add_after :
      (b d : String) (bs : List String) (k : ℕ)
      → k + 1 ≡ 1 + length bs
      → added
          (add_version hash name b (numbered 1 bs) (some (new_prompt_template hash name d k)))
          (numbered 1 bs)
        ≡ numbered 1 (add_body b bs (some d))
  unfolding add_version added new_prompt_template
  add_after b d bs k e = elim (Bool-cases (d == b)) [
    | inl t ↦ rw t refl
    | inr t ↦ rw t (
        ap (λ n. numbered 1 bs ++ new_prompt_template hash name b n ∷ []) e
        ∙ sym (numbered-append 1 bs b))
  ]

  add_version-numbered :
      (b : String) (bs : List String)
      → added (add_version hash name b (numbered 1 bs) (last (numbered 1 bs))) (numbered 1 bs)
        ≡ numbered 1 (add_body b bs (last bs))
  unfolding add_version last added
  add_version-numbered b [] = refl
  add_version-numbered b (c ∷ bs) =
      let (d, e) = last-cons c bs in
      ap (λ o. added (add_version hash name b (numbered 1 (c ∷ bs)) o) (numbered 1 (c ∷ bs)))
        (last-numbered 1 c bs ∙ ap (numbered_last (1 + length bs)) e)
      ∙ add_after b d (c ∷ bs) (1 + length bs) (omega arith)
      ∙ ap (λ o. numbered 1 (add_body b (c ∷ bs) o)) (sym e)

  versions_of-put_versions :
      (n : String) (o : Option (List PromptTemplate)) (m : PromptManager)
      → versions_of name (Prompt.put_versions n o m)
        ≡ (if n == name then added o (versions_of name m) else versions_of name m)
  unfolding versions_of added
  versions_of-put_versions n none m = ground arith
  versions_of-put_versions n (some ts) m = elim (Bool-cases (n == name)) [
    | inl t ↦ ap Prompt.or_empty (get-put n name ts m) ∙ rw t refl
    | inr t ↦ ap Prompt.or_empty (get-put n name ts m) ∙ rw t refl
  ]

  -- Registering keeps the versions of the other names.
  versions_of-register_prompt :
      (n b : String) (bs : List String) (m : PromptManager)
      → versions_of name m ≡ numbered 1 bs
      → versions_of name (register_prompt hash n b m)
        ≡ numbered 1 (if n == name then add_body b bs (last bs) else bs)
  unfolding register_prompt
  versions_of-register_prompt n b bs m e =
      versions_of-put_versions n (add_version hash n b (versions_of n m) (last (versions_of n m))) m
      ∙ (elim (Bool-cases (n == name)) [
        | inl t ↦ rw ((eq_iff n name).0 t, e) (rw (eq_refl name) (add_version-numbered b bs))
        | inr t ↦ rw t e
      ])

  versions_of-register_from :
      (h : List (String × String)) (bs : List String) (m : PromptManager)
      → versions_of name m ≡ numbered 1 bs
      → versions_of name (register_all hash h m) ≡ numbered 1 (bodies name h bs)
  unfolding register_all bodies
  versions_of-register_from [] bs m e = e
  versions_of-register_from ((n, b) ∷ h) bs m e =
      versions_of-register_from h _ (register_prompt hash n b m)
        (versions_of-register_prompt n b bs m e)

  -- After any registrations the versions of a name are the bodies that were registered under it, in
  -- their order and without one that is the same as the one before it, numbered from 1, each with
  -- the hash of its body.
  pub versions_of-register_all :
      (h : List (String × String))
      → versions_of name (register_all hash h []) ≡ numbered 1 (bodies name h [])
  unfolding versions_of get
  versions_of-register_all h = versions_of-register_from h [] [] refl
