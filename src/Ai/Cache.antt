-- ===== src/Ai/Cache.antt =====
-- pkg/ai/cache.go: the in-memory cache and the gateway that answers from a cache. A time-to-live
-- that is not positive is 0. The hash is a parameter, and so is the clock, by which each call is
-- told the time. redisCache stands on an external store and is left out.
pub mod Refinement
pub mod Calls
use Prim.Native.String.{◌++◌ as append}
use bpmn_ai.Base.{
  ℕ, ◌-◌, String, Bool, true, false, List, [], ◌∷◌, Option, none, some, leb, ltb, if◌then◌else◌,
}
use bpmn_ai.Base.Dict.{Dict, get, put, remove}
use bpmn_ai.Errors.{Result, ok, err}
use bpmn_ai.Ai.Gateway.{Request, Response, Message, Role, Gateway}
use bpmn_ai.Ai.Gateway

pub record CacheEntry : Type 0 where
  pub response : Response
  pub created_at : ℕ
  pub ttl : ℕ

unfoldable pub is_expired : ℕ → CacheEntry → Bool
is_expired now e = if leb e.ttl 0 then false else ltb e.ttl (now - e.created_at)

pub record MemoryCache : Type 0 where
  pub entries : Dict CacheEntry
  pub ttl : ℕ

unfoldable pub new_memory_cache : ℕ → MemoryCache
new_memory_cache ttl = record { entries = []; ttl = ttl }

unfoldable pub lookup_found :
    String → ℕ → Option CacheEntry → MemoryCache → Option CacheEntry × MemoryCache
unfolding is_expired
lookup_found key now none c = (none, c)
lookup_found key now (some e) c =
    if is_expired now e then (none, record c { entries = remove key c.entries }) else (some e, c)

-- `Get` drops an entry that has expired.
unfoldable pub lookup : String → ℕ → MemoryCache → Option CacheEntry × MemoryCache
unfolding lookup_found
lookup key now c = lookup_found key now (get key c.entries) c

-- What `Set` files: its own time, and the cache's time-to-live where the entry has none.
unfoldable pub stamped : ℕ → MemoryCache → CacheEntry → CacheEntry
stamped now c e = record e { ttl = if leb e.ttl 0 then c.ttl else e.ttl; created_at = now }

unfoldable pub store : String → CacheEntry → ℕ → MemoryCache → MemoryCache
unfolding stamped
store key e now c = record c { entries = put key (stamped now c e) c.entries }

unfoldable pub delete : String → MemoryCache → MemoryCache
delete key c = record c { entries = remove key c.entries }

unfoldable pub clear : MemoryCache → MemoryCache
clear c = record c { entries = [] }

abbrev role_name : Role → String
role_name r = elim r [
  | Gateway.Role.system ↦ "system"
  | Gateway.Role.user ↦ "user"
  | Gateway.Role.assistant ↦ "assistant"
  | Gateway.Role.tool ↦ "tool"
]

-- What is written to the hash: each part with a zero byte after it, but for the role.
unfoldable pub message_text : List Message → String
message_text [] = ""
message_text (m ∷ ms) = append (role_name m.role) (append m.content (append "\0" (message_text ms)))

unfoldable pub cache_key : (String → String) → String → String → List Message → String
unfolding message_text
cache_key sha256 model system messages =
    append "ai:"
      (sha256 (append model (append "\0" (append system (append "\0" (message_text messages))))))

-- The cache that the gateway shares is passed along.
pub record CachedGateway (F T W : Type 0) : Type 0 where
  pub inner : Gateway F T W
  pub sha256 : String → String
  pub ttl : ℕ

-- What Generate does with the answer of the inner gateway.
unfoldable pub remember :
    {W : Type 0}
    → String
    → ℕ
    → ℕ
    → Result Response × W
    → MemoryCache
    → Result Response × W × MemoryCache
unfolding store
remember key ttl now (err e, w) c = (err e, w, c)
remember key ttl now (ok r, w) c =
    (ok r, w, store key (record { response = r; created_at = now; ttl = ttl }) now c)

unfoldable pub generate_found :
    {F T W : Type 0}
    → CachedGateway F T W
    → Request F T
    → String
    → ℕ
    → W
    → Option CacheEntry × MemoryCache
    → Result Response × W × MemoryCache
unfolding remember
generate_found g r key now w (some e, c) = (ok e.response, w, c)
generate_found g r key now w (none, c) = remember key g.ttl now (g.inner r w) c

-- Generate with a MemoryCache; the clock does not move while the inner gateway answers.
unfoldable pub generate :
    {F T W : Type 0}
    → CachedGateway F T W
    → Request F T
    → ℕ
    → W
    → MemoryCache
    → Result Response × W × MemoryCache
unfolding generate_found lookup cache_key
generate g r now w c =
    let key = cache_key g.sha256 r.model r.system r.messages in
    generate_found g r key now w (lookup key now c)
