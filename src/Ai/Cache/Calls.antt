-- ===== src/Ai/Cache/Calls.antt =====
-- pkg/ai/cache.go: when the cached gateway calls the inner one.
use mathlib.Core.Option.{some-ne-none}
use bpmn_ai.Base.{
  ℕ, ◌≤◌, String, Bool, true, false, List, [], ◌∷◌, Option, none, some, ◌≡◌, refl, ap, ◌∙◌, ◌==◌,
  leb, all, eq_iff, arith, Bool-cases, inl, inr,
}
use bpmn_ai.Base.Dict.{get, get-put, get-put_self, get-remove}
use bpmn_ai.Errors.{Result, ok, err}
use bpmn_ai.Ai.Gateway.{Request, Response}
use bpmn_ai.Ai.Cache.{
  MemoryCache, CacheEntry, CachedGateway, is_expired, lookup, lookup_found, store, stamped,
  generate, generate_found, remember, cache_key,
}

abbrev pub key_of : {F T W : Type 0} → CachedGateway F T W → Request F T → String
key_of g r = cache_key g.sha256 r.model r.system r.messages

-- What is filed for an answer.
abbrev pub filed : {F T W : Type 0} → CachedGateway F T W → Response → ℕ → MemoryCache → CacheEntry
filed g a now c = stamped now c (record { response = a; created_at = now; ttl = g.ttl })

lookup_found_ttl :
    (key : String) (now : ℕ) (o : Option CacheEntry) (c : MemoryCache)
    → (lookup_found key now o c).1.ttl ≡ c.ttl
unfolding lookup_found
lookup_found_ttl key now none c = refl
lookup_found_ttl key now (some e) c = elim (Bool-cases (is_expired now e)) [
  | inl x ↦ rw x refl
  | inr x ↦ rw x refl
]

generate_miss :
    {F T W : Type 0} (g : CachedGateway F T W) (r : Request F T) (now : ℕ) (w v : W) (a : Response)
    (found : Option CacheEntry × MemoryCache)
    → found.0 ≡ none
    → g.inner r w ≡ (ok a, v)
    → generate_found g r (key_of g r) now w found ≡ (
      ok a,
      v,
      store (key_of g r) (record { response = a; created_at = now; ttl = g.ttl }) now found.1,
    )
unfolding generate_found remember
generate_miss g r now w v a (none, c) n e = rw e refl
generate_miss g r now w v a (some x, c) n e = absurd (some-ne-none x n)

-- The calls of a gateway one after the other, each at its time; what is left of the world and of the
-- cache.
abbrev pub generate_all :
    {F T W : Type 0}
    → CachedGateway F T W
    → List (ℕ × Request F T)
    → W × MemoryCache
    → W × MemoryCache
generate_all g [] s = s
generate_all g ((t, q) ∷ qs) (w, c) = let s = generate g q t w c in generate_all g qs (s.1, s.2)

abbrev pub all_by : {F T : Type 0} → ℕ → List (ℕ × Request F T) → Bool
all_by end = all (λ s. leb s.0 end)

is_expired_earlier :
    (t later : ℕ) (e : CacheEntry) → t ≤ later → is_expired later e ≡ false → is_expired t e ≡ false
unfolding is_expired
is_expired_earlier t later e h x = ground arith

-- The cache holds this entry under the key.
abbrev Holds : String → CacheEntry → MemoryCache → Type 0
Holds k e c = get k c.entries ≡ some e

module _ {F T W : Type 0} (g : CachedGateway F T W) (k : String) (e : CacheEntry) where
  remember-Holds :
      (j : String) (t : ℕ) (a : Result Response × W) (c : MemoryCache)
      → j == k ≡ false
      → Holds k e c
      → Holds k e (remember j g.ttl t a c).2
  unfolding remember store
  remember-Holds j t (err x, w) c n h = h
  remember-Holds j t (ok r, w) c n h =
      get-put j k (stamped t c (record { response = r; created_at = t; ttl = g.ttl })) c.entries
      ∙ rw n h

  lookup_found-Holds :
      (j : String) (t : ℕ) (o : Option CacheEntry) (c : MemoryCache)
      → j == k ≡ false
      → Holds k e c
      → Holds k e (lookup_found j t o c).1
  unfolding lookup_found
  lookup_found-Holds j t none c n h = h
  lookup_found-Holds j t (some x) c n h = elim (Bool-cases (is_expired t x)) [
    | inl p ↦ rw p (get-remove j k c.entries ∙ rw n h)
    | inr p ↦ rw p h
  ]

  generate_found-Holds :
      (r : Request F T) (j : String) (t : ℕ) (w : W) (found : Option CacheEntry × MemoryCache)
      → j == k ≡ false
      → Holds k e found.1
      → Holds k e (generate_found g r j t w found).2
  unfolding generate_found
  generate_found-Holds r j t w (none, c) n h = remember-Holds j t (g.inner r w) c n h
  generate_found-Holds r j t w (some x, c) n h = h

  lookup-hit :
      (t : ℕ) (c : MemoryCache) → is_expired t e ≡ false → Holds k e c → lookup k t c ≡ (some e, c)
  unfolding lookup lookup_found
  lookup-hit t c x h = rw (h, x) refl

  -- A call for the key answers from the entry, and leaves the world and the cache as they are.
  generate-hit :
      (r : Request F T) (t : ℕ) (w : W) (c : MemoryCache)
      → key_of g r ≡ k
      → is_expired t e ≡ false
      → Holds k e c
      → generate g r t w c ≡ (ok e.response, w, c)
  unfolding generate generate_found
  generate-hit r t w c i x h =
      ap (λ j. generate_found g r j t w (lookup j t c)) i
      ∙ ap (generate_found g r k t w) (lookup-hit t c x h)

  generate-Holds :
      (r : Request F T) (t : ℕ) (w : W) (c : MemoryCache)
      → is_expired t e ≡ false
      → Holds k e c
      → Holds k e (generate g r t w c).2
  unfolding generate lookup
  generate-Holds r t w c x h = elim (Bool-cases (key_of g r == k)) [
    | inl i ↦
        ap (λ s. get k s.2.entries) (generate-hit r t w c ((eq_iff (key_of g r) k).0 i) x h) ∙ h
    | inr n ↦
        generate_found-Holds r (key_of g r) t w (lookup (key_of g r) t c) n
          (lookup_found-Holds (key_of g r) t (get (key_of g r) c.entries) c n h)
  ]

  generate_all-Holds :
      (later : ℕ) (qs : List (ℕ × Request F T)) (s : W × MemoryCache)
      → is_expired later e ≡ false
      → all_by later qs ≡ true
      → Holds k e s.1
      → Holds k e (generate_all g qs s).1
  generate_all-Holds later [] s x b h = h
  generate_all-Holds later ((t, q) ∷ qs) (w, c) x b h =
      generate_all-Holds later qs _ x (ground arith)
        (generate-Holds q t w c (is_expired_earlier t later e (ground arith) x) h)

-- Once the inner gateway has answered a request, and whatever is asked of the cached gateway in
-- between, the same model, system prompt and messages get that answer until it expires, whatever
-- else the request says, and the inner gateway is not called for it.
pub generate_again :
    {F T W : Type 0} (g : CachedGateway F T W) (r q : Request F T) (now later : ℕ) (w v : W)
    (c : MemoryCache) (a : Response) (between : List (ℕ × Request F T))
    → (lookup (key_of g r) now c).0 ≡ none
    → g.inner r w ≡ (ok a, v)
    → q.model ≡ r.model
    → q.system ≡ r.system
    → q.messages ≡ r.messages
    → all_by later between ≡ true
    → is_expired later (filed g a now c) ≡ false
    → let s = generate_all g between (v, (generate g r now w c).2) in
      ((generate g r now w c).0 ≡ ok a) × (generate g q later s.0 s.1 ≡ (ok a, s.0, s.1))
unfolding generate generate_found lookup stamped store
generate_again g r q now later w v c a between miss answers m s t by fresh =
    let k : key_of g q ≡ key_of g r =
      ap (λ x. cache_key g.sha256 x q.system q.messages) m
      ∙ ap (λ x. cache_key g.sha256 r.model x q.messages) s
      ∙ ap (λ x. cache_key g.sha256 r.model r.system x) t in
    let e : CacheEntry = record { response = a; created_at = now; ttl = g.ttl } in
    let found = lookup (key_of g r) now c in
    let kept = store (key_of g r) e now found.1 in
    let first : generate g r now w c ≡ (ok a, v, kept) =
      generate_miss g r now w v a found miss answers in
    let entry = stamped now found.1 e in
    let lives : is_expired later entry ≡ false =
      ap (λ n. is_expired later (stamped now (record c { ttl = n }) e))
        (lookup_found_ttl (key_of g r) now (get (key_of g r) c.entries) c)
      ∙ fresh in
    let held : Holds (key_of g r) entry (generate g r now w c).2 =
      ap (λ x. get (key_of g r) x.2.entries) first
      ∙ get-put_self (key_of g r) entry found.1.entries in
    (
      ap (λ x. x.0) first,
      generate-hit g (key_of g r) entry q later _ _ k lives (
          generate_all-Holds g (key_of g r) entry later between (v, (generate g r now w c).2) lives
            by held),
    )
