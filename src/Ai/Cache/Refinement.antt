-- ===== src/Ai/Cache/Refinement.antt =====
-- pkg/ai/cache.go: MemoryCache against an abstract cache, which is a function from keys to what was
-- filed last under them and never drops an entry for its age.
use bpmn_ai.Base.{
  ℕ, ◌≤◌, String, Bool, true, false, List, [], ◌∷◌, Option, none, some, ◌==◌, leb, if◌then◌else◌,
  ◌≡◌, refl, ap, sym, ◌∙◌, arith, Bool-cases, inl, inr, eq_iff,
}
use bpmn_ai.Base.Dict.{get, get-put, get-remove}
use bpmn_ai.Ai.Cache.{
  MemoryCache, CacheEntry, is_expired, lookup, lookup_found, store, stamped, delete, clear,
  new_memory_cache,
}

pub data Call : Type 0 where
  get_entry : String → Call
  set_entry : String → CacheEntry → Call
  delete_entry : String → Call
  clear_all : Call

-- One call at a time, and a sequence of timed calls, the first one first.
unfoldable pub step : ℕ → Call → MemoryCache → MemoryCache
unfolding lookup
step t (get_entry k) c = (lookup k t c).1
step t (set_entry k e) c = store k e t c
step t (delete_entry k) c = delete k c
step t clear_all c = clear c

unfoldable pub run : List (ℕ × Call) → MemoryCache → MemoryCache
unfolding step
run [] c = c
run ((t, a) ∷ calls) c = run calls (step t a c)

abbrev pub Abstract : Type 0
Abstract = String → Option CacheEntry

-- The abstract cache: a write replaces what is held under its key, a read changes nothing.
unfoldable pub hold : ℕ → ℕ → Call → Abstract → Abstract
hold ttl t (get_entry k) m j = m j
hold ttl t (set_entry k e) m j =
    if k == j
    then some (record e { ttl = if leb e.ttl 0 then ttl else e.ttl; created_at = t })
    else m j
hold ttl t (delete_entry k) m j = if k == j then none else m j
hold ttl t clear_all m j = none

unfoldable pub hold_all : ℕ → List (ℕ × Call) → Abstract → Abstract
unfolding hold
hold_all ttl [] m = m
hold_all ttl ((t, a) ∷ calls) m = hold_all ttl calls (hold ttl t a m)

-- What is held and has not expired.
unfoldable pub live : ℕ → Option CacheEntry → Option CacheEntry
live now none = none
live now (some e) = if is_expired now e then none else some e

-- The clock does not go back over the calls, from `t` to `now`.
abbrev pub Forward : ℕ → List (ℕ × Call) → ℕ → Type 0
Forward t [] now = t ≤ now
Forward t ((u, a) ∷ calls) now = (t ≤ u) × Forward u calls now

-- At `t` and ever after, the cache finds what the abstract cache holds and is live.
record Agrees (t : ℕ) (c : MemoryCache) (m : Abstract) : Type 0 where
  at : (k : String) (now : ℕ) → t ≤ now → live now (get k c.entries) ≡ live now (m k)

lookup_found-live :
    (k : String) (now : ℕ) (o : Option CacheEntry) (c : MemoryCache)
    → (lookup_found k now o c).0 ≡ live now o
unfolding lookup_found live
lookup_found-live k now none c = refl
lookup_found-live k now (some e) c = elim (Bool-cases (is_expired now e)) [
  | inl x ↦ rw x refl
  | inr x ↦ rw x refl
]

lookup-live :
    (k : String) (now : ℕ) (c : MemoryCache) → (lookup k now c).0 ≡ live now (get k c.entries)
unfolding lookup
lookup-live k now c = lookup_found-live k now (get k c.entries) c

-- What has expired stays so.
expired_later :
    (t now : ℕ) (e : CacheEntry) → is_expired t e ≡ true → t ≤ now → is_expired now e ≡ true
unfolding is_expired
expired_later t now e h le = ground arith

gone :
    (k j : String) (t now : ℕ) (e : CacheEntry) (c : MemoryCache)
    → get k c.entries ≡ some e
    → is_expired t e ≡ true
    → t ≤ now
    → live now (if k == j then none else get j c.entries) ≡ live now (get j c.entries)
unfolding live
gone k j t now e c g x le = elim (Bool-cases (k == j)) [
  | inl i ↦
      rw (i, ap (λ z. get z c.entries) (sym ((eq_iff k j).0 i)) ∙ g, expired_later t now e x le)
        refl
  | inr i ↦ rw i refl
]

lookup_found_keeps :
    (k j : String) (t now : ℕ) (o : Option CacheEntry) (c : MemoryCache)
    → get k c.entries ≡ o
    → t ≤ now
    → live now (get j (lookup_found k t o c).1.entries) ≡ live now (get j c.entries)
unfolding lookup_found
lookup_found_keeps k j t now none c g le = refl
lookup_found_keeps k j t now (some e) c g le = elim (Bool-cases (is_expired t e)) [
  | inl x ↦ rw x (ap (live now) (get-remove k j c.entries) ∙ gone k j t now e c g x le)
  | inr x ↦ rw x refl
]

same_if :
    (b : Bool) (now : ℕ) (o x y z : Option CacheEntry)
    → o ≡ (if b then x else y)
    → live now y ≡ live now z
    → live now o ≡ live now (if b then x else z)
same_if true now o x y z e h = ap (live now) e
same_if false now o x y z e h = ap (live now) e ∙ h

step-Agrees :
    (t u : ℕ) (a : Call) (c : MemoryCache) (m : Abstract)
    → t ≤ u
    → Agrees t c m
    → Agrees u (step u a c) (hold c.ttl u a m)
unfolding step lookup hold store stamped delete clear get
step-Agrees t u (get_entry k) c m le h = record {
  at = λ j now later.
      lookup_found_keeps k j u now (get k c.entries) c refl later ∙ h.at j now (omega arith);
}
step-Agrees t u (set_entry k e) c m le h = record {
  at = λ j now later.
      same_if (k == j) now _ _ _ _ (get-put k j (stamped u c e) c.entries)
        (h.at j now (omega arith));
}
step-Agrees t u (delete_entry k) c m le h = record {
  at = λ j now later.
      same_if (k == j) now _ _ _ _ (get-remove k j c.entries) (h.at j now (omega arith));
}
step-Agrees t u clear_all c m le h = record { at = λ j now later. refl }

lookup_found_ttl :
    (k : String) (t : ℕ) (o : Option CacheEntry) (c : MemoryCache)
    → (lookup_found k t o c).1.ttl ≡ c.ttl
unfolding lookup_found
lookup_found_ttl k t none c = refl
lookup_found_ttl k t (some e) c = elim (Bool-cases (is_expired t e)) [
  | inl x ↦ rw x refl
  | inr x ↦ rw x refl
]

step_ttl : (t : ℕ) (a : Call) (c : MemoryCache) → (step t a c).ttl ≡ c.ttl
unfolding step lookup store delete clear
step_ttl t (get_entry k) c = lookup_found_ttl k t (get k c.entries) c
step_ttl t (set_entry k e) c = refl
step_ttl t (delete_entry k) c = refl
step_ttl t clear_all c = refl

run-Agrees :
    (t now : ℕ) (calls : List (ℕ × Call)) (c : MemoryCache) (m : Abstract)
    → Forward t calls now
    → Agrees t c m
    → Agrees now (run calls c) (hold_all c.ttl calls m)
unfolding run hold_all
run-Agrees t now [] c m f h = record { at = λ k later le. h.at k later (omega arith) }
run-Agrees t now ((u, a) ∷ calls) c m (le, f) h = record {
  at = λ k later fits.
      (run-Agrees u now calls (step u a c) (hold c.ttl u a m) f (step-Agrees t u a c m le h)).at k
        later fits
      ∙ ap (λ n. live later (hold_all n calls (hold c.ttl u a m) k)) (step_ttl u a c);
}

-- Whatever calls a new cache has had, by a clock that does not go back, Get returns the entry that
-- was set last under its key, with the time of that call and the time-to-live that it got, if the
-- entry was not deleted since and has not expired, and nothing otherwise: that Get drops what has
-- expired is never seen.
pub lookup-run :
    (ttl now : ℕ) (calls : List (ℕ × Call)) (k : String)
    → Forward 0 calls now
    → (lookup k now (run calls (new_memory_cache ttl))).0
      ≡ live now (hold_all ttl calls (λ j. none) k)
unfolding new_memory_cache get
lookup-run ttl now calls k f =
    lookup-live k now (run calls (new_memory_cache ttl))
    ∙ (run-Agrees 0 now calls (new_memory_cache ttl) (λ j. none) f
          (record { at = λ j later le. refl })).at
        k now (omega arith)
