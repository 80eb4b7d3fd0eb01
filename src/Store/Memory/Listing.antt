-- ===== src/Store/Memory/Listing.antt =====
-- pkg/store/memory/store.go: what the lists of flows have to do with the single lookups.
use bpmn_ai.Base.{
  ℕ, String, Bool, true, false, not, ◌&&◌, ◌==◌, List, [], ◌∷◌, Option, none, some, nat_eq,
  if◌then◌else◌, ◌≡◌,
}
use bpmn_ai.Base.Dict.{Dict, get}
use bpmn_ai.Errors.{Result, ok, err}
use bpmn_ai.Records.{FlowRecord, JobRecord, ExecutionLogEntry}
use bpmn_ai.Store.Memory.{
  Store, create_flow, update_flow, share_flow, create_job, log_execution, reset, is_active,
}

abbrev is_some : {V : Type 0} → Option V → Bool
is_some none = false
is_some (some v) = true

abbrev pub as_list : {V : Type 0} → Option V → List V
as_list none = []
as_list (some v) = v ∷ []

module _ {V : Type 0} (id_of : V → String) where
  -- Every entry stands once, under the identifier of its value.
  abbrev filed : Dict V → Bool
  filed [] = true
  filed ((j, w) ∷ m) = id_of w == j && (not (is_some (get j m)) && filed m)

-- The calls that change the flows, and calls between them that draw identifiers or take time.
pub data Call : Type 0 where
  creates updates changes : FlowRecord → Call
  creates_job : JobRecord → Call
  logs : ExecutionLogEntry → Call
  ticks : ℕ → Call
  resets : Call

unfoldable pub call : Call → Store → Store
call (creates f) s = (create_flow f s).1
call (updates f) s = update_flow f s
call (changes f) s = share_flow f s
call (creates_job j) s = (create_job j s).1
call (logs e) s = log_execution e s
call (ticks t) s = record s { clock = t }
call resets s = reset s

unfoldable pub run : List Call → Store → Store
unfolding call
run [] s = s
run (c ∷ cs) s = run cs (call c s)

abbrev Filed : Store → Type 0
Filed s = filed (λ f. f.id) s.flows ≡ true

-- The flow that a lookup finds, if it has a property.
abbrev pub found_if : (FlowRecord → Bool) → Result FlowRecord → List FlowRecord
found_if p (ok f) = if p f then f ∷ [] else []
found_if p (err e) = []

abbrev pub is_listed : String → ℕ → FlowRecord → Bool
is_listed id thread_id f =
    f.instance_id == id && (nat_eq f.thread_id thread_id && is_active f.status)
