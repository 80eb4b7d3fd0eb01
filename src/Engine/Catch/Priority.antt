-- ===== src/Engine/Catch/Priority.antt =====
-- internal/engine/engine.go: which error catch `findErrorCatch` finds.
use bpmn_ai.Base.{
  String, Bool, true, false, not, ◌&&◌, ◌||◌, List, Option, none, some, ◌≡◌, refl, inl, inr, any,
  find?, ◌∷◌, [], is_empty, if◌then◌else◌, Bool-cases,
}
use bpmn_ai.Engine.Catch.{catches, catch_at, parent_sub_process_id, find_error_catch, or_else}
use bpmn_ai.Model.{Element, Process}

abbrev pub is_some : {A : Type 0} → Option A → Bool
is_some none = false
is_some (some a) = true

find?-any : {A : Type 0} (p : A → Bool) (xs : List A) → is_some (find? p xs) ≡ any p xs
find?-any p [] = refl
find?-any p (x ∷ xs) = elim (Bool-cases (p x)) [ inl e ↦ rw e | inr e ↦ rw (e, find?-any p xs) ]

or_else-find? :
    (p : String × Element → Bool) (xs : List (String × Element)) (d : Option (String × Element))
    → or_else (find? p xs) d ≡ (if any p xs then find? p xs else d)
or_else-find? p [] d = refl
or_else-find? p (x ∷ xs) d = elim (Bool-cases (p x)) [
  | inl e ↦ rw e
  | inr e ↦ rw e (or_else-find? p xs d)
]

or_else-unless :
    (b : Bool) (p : String × Element → Bool) (xs : List (String × Element))
    (d : Option (String × Element))
    → or_else (if b then none else find? p xs) d ≡ (if not b && any p xs then find? p xs else d)
or_else-unless true p xs d = refl
or_else-unless false p xs d = or_else-find? p xs d

find?-if :
    (b : Bool) (f : String → Option (String × Element)) (x y : String)
    → (if b then f x else f y) ≡ f (if b then x else y)
find?-if true f x y = refl
find?-if false f x y = refl

is_some-or_else :
    (c d : Option (String × Element)) → is_some (or_else c d) ≡ (is_some c || is_some d)
is_some-or_else none d = refl
is_some-or_else (some c) d = refl

is_some-unless :
    (b : Bool) (c : Option (String × Element))
    → is_some (if b then none else c) ≡ (not b && is_some c)
is_some-unless true c = refl
is_some-unless false c = refl

module _ (id code : String) (proc : Process) where
  -- Some error catch that takes the code is attached there.
  unfoldable pub has_catch : String → Bool
  has_catch attached = any (catches attached code) proc.elements

  unfoldable pub parent_has_catch : Bool
  unfolding has_catch
  parent_has_catch =
      let parent = parent_sub_process_id id proc in not (is_empty parent) && has_catch parent

  catch_at-has_catch :
      (attached : String) → is_some (catch_at attached code proc) ≡ has_catch attached
  unfolding has_catch
  catch_at-has_catch attached = find?-any (catches attached code) proc.elements

  -- `findErrorCatch` finds a catch exactly when one that takes the code is attached to the parent
  -- sub-process, to the throwing element, or to nothing.
  pub find_error_catch-has_catch :
      is_some (find_error_catch id code proc) ≡ (parent_has_catch || (has_catch id || has_catch ""))
  unfolding find_error_catch parent_has_catch
  find_error_catch-has_catch = rw (
    is_some-or_else,
    is_some-unless,
    is_some-or_else,
    catch_at-has_catch (parent_sub_process_id id proc),
    catch_at-has_catch id,
    catch_at-has_catch "",
  )

  -- Where the catch of an error is looked for: the parent sub-process if it has one that takes the
  -- code, else the throwing element if it has one, else nothing.
  unfoldable pub catch_place : String
  unfolding parent_has_catch has_catch
  catch_place =
      if parent_has_catch then parent_sub_process_id id proc else if has_catch id then id else ""

  -- What `findErrorCatch` returns is the first element of the process that is an error catch, takes
  -- the code, and is attached where the priority says: to the parent sub-process if it has such a
  -- catch, else to the throwing element if it has one, else to nothing.
  pub find_error_catch-catch_place : find_error_catch id code proc ≡ catch_at catch_place code proc
  unfolding find_error_catch catch_place
  find_error_catch-catch_place = rw (
    or_else-unless,
    or_else-find?,
    find?-if (has_catch id) (λ a. catch_at a code proc),
    find?-if parent_has_catch (λ a. catch_at a code proc),
  )

  -- `findErrorCatch` returns the first element of the process that is an error catch, takes the code
  -- and is attached where the priority says: to the parent sub-process if it has such a catch, else
  -- to the throwing element if it has one, else to nothing. It finds one exactly when a catch that
  -- takes the code is attached to one of these.
  pub find_error_catch_lem :
      (find_error_catch id code proc ≡ catch_at catch_place code proc)
      × (is_some (find_error_catch id code proc)
          ≡ (parent_has_catch || (has_catch id || has_catch "")))
  find_error_catch_lem = (find_error_catch-catch_place, find_error_catch-has_catch)
