-- ===== src/Engine/Handle/Balance.antt =====
-- internal/engine/engine.go: steps of the loop that count the items that they send, and how such
-- steps compose.
use bpmn_ai.Base.{
  ◌+◌, String, Bool, true, false, [], ◌∷◌, ◌++◌, length, length-append, ◌≡◌, refl, arith,
  if◌then◌else◌,
}
use bpmn_ai.Engine.State.{
  WorkItem, Event, Loop, M, ◌>>=◌, ◌>>◌, chain, stored, settled, tag, create, attempt, update, emit,
  raise, pure,
}
use bpmn_ai.Errors.{Error, Result, ok, err}
use bpmn_ai.Process.Instance.{Instance}

-- What a step makes of a loop: if it succeeds, it has counted each item that it sent.
pub data Balanced {S A : Type 0} (l : Loop S) : Loop S × Result A → Type 0 where
  counted :
      {m : Loop S} {a : A}
      → m.pending + length l.work ≡ l.pending + length m.work
      → Balanced l (m, ok a)
  failed : {m : Loop S} {e : Error} → Balanced l (m, err e)

pub record IsBalanced {S A : Type 0} (m : M S A) : Type 0 where
  pub at : (l : Loop S) → Balanced l (m l)

widen :
    {S A : Type 0} (l m : Loop S) (r : Loop S × Result A)
    → m.pending + length l.work ≡ l.pending + length m.work
    → Balanced m r
    → Balanced l r
widen l m (n, ok a) h (counted c) = counted (omega arith)
widen l m (n, err e) h failed = failed

chain-Balanced :
    {S A B : Type 0} (l : Loop S) (r : Loop S × Result A) (f : A → M S B)
    → Balanced l r
    → ((a : A) → IsBalanced (f a))
    → Balanced l (chain r f)
chain-Balanced l (m, ok a) f (counted c) k = widen l m (f a m) c ((k a).at m)
chain-Balanced l (m, err e) f failed k = failed

pub bind-IsBalanced :
    {S A B : Type 0} (m : M S A) (f : A → M S B)
    → IsBalanced m
    → ((a : A) → IsBalanced (f a))
    → IsBalanced (m >>= f)
unfolding ◌>>=◌
bind-IsBalanced m f h k = record { at = λ l. chain-Balanced l (m l) f (h.at l) k }

pub then-IsBalanced :
    {S B : Type 0} (m : M S (Unit {0})) (k : M S B)
    → IsBalanced m
    → IsBalanced k
    → IsBalanced (m >> k)
unfolding ◌>>◌
then-IsBalanced m k h j = bind-IsBalanced m (λ _. k) h (λ _. j)

pub pure-IsBalanced : {S A : Type 0} (a : A) → IsBalanced {S = S} (pure a)
unfolding pure
pure-IsBalanced a = record { at = λ l. counted refl }

pub raise-IsBalanced : {S A : Type 0} (e : Error) → IsBalanced {S = S} {A = A} (raise e)
unfolding raise
raise-IsBalanced e = record { at = λ l. failed }

pub emit-IsBalanced : {S : Type 0} (e : Event) → IsBalanced {S = S} (emit e)
unfolding emit
emit-IsBalanced e = record { at = λ l. counted refl }

stored-Balanced :
    {S A : Type 0} (l : Loop S) (s : String) (r : Result (A × S)) → Balanced l (stored l (tag s r))
stored-Balanced l s (ok (a, t)) = counted refl
stored-Balanced l s (err e) = failed

pub create-IsBalanced :
    {S A : Type 0} (s : String) (f : S → Result (A × S)) → IsBalanced (create s f)
unfolding create
create-IsBalanced s f = record { at = λ l. stored-Balanced l s (f l.store) }

settled-Balanced :
    {S : Type 0} (l : Loop S) (s : String) (r : Result Instance) → Balanced l (settled l (tag s r))
settled-Balanced l s (ok i) = counted refl
settled-Balanced l s (err e) = failed

pub update-IsBalanced :
    {S : Type 0} (s : String) (f : Instance → Result Instance) → IsBalanced {S = S} (update s f)
unfolding update
update-IsBalanced s f = record { at = λ l. settled-Balanced l s (f l.instance) }

pub attempt-IsBalanced : {S : Type 0} (f : S → Result S) → IsBalanced (attempt f)
unfolding attempt
attempt-IsBalanced f = record { at = λ l. counted refl }

pub if-IsBalanced :
    {S A : Type 0} (b : Bool) (m k : M S A)
    → IsBalanced m
    → IsBalanced k
    → IsBalanced (if b then m else k)
if-IsBalanced true m k h j = h
if-IsBalanced false m k h j = j

-- Sending an item and counting it keep the balance.
pub sent :
    {S : Type 0} (w : WorkItem) (l : Loop S)
    → l.pending + 1 + length l.work ≡ l.pending + length (l.work ++ w ∷ [])
sent w l = omega (arith, length-append l.work (w ∷ []))
