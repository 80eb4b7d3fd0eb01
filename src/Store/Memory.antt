-- ===== src/Store/Memory.antt =====
-- pkg/store/memory/store.go: the in-memory store, and how it implements the engine's and the
-- queue's interfaces. Each method runs under the mutex, so it is one step. `uuid` numbers the
-- identifiers that `uuid.New` yields and `clock` is the reading of `time.Now`. The maps hold
-- pointers: `share` and `share_flow` are what a change through such a pointer does. The log of AI
-- calls is left out.
pub mod Listing
use bpmn_ai.Base.{
  ℕ, ◌+◌, ◌-◌, String, Bool, true, false, ◌&&◌, ◌==◌, List, [], ◌∷◌, ◌++◌, Option, none, some, keep,
  leb, nat_eq, is_empty, if◌then◌else◌,
}
use bpmn_ai.Base.Dict.{Dict, get, put, values}
use bpmn_ai.Errors.{Result, ok, not_found, or_fail}
use bpmn_ai.Model.{Process}
use bpmn_ai.Process.State.{State, same}
use bpmn_ai.Records.{
  FlowRecord, InstanceRecord, ThreadRecord, JobRecord, DeadLetterRecord, ExecutionLogEntry,
  FlowStatus, JobStatus, ThreadStatus,
}
use bpmn_ai.Records
use bpmn_ai.Store.{EngineStore, JobStore, DeadLetterStore}

pub record Store : Type 0 where
  pub processes : Dict Process
  pub instances : Dict InstanceRecord
  pub flows : Dict FlowRecord
  pub threads : Dict (List (ℕ × ThreadRecord))
  pub jobs : Dict JobRecord
  pub dead_letters : Dict DeadLetterRecord
  pub logs : List ExecutionLogEntry
  pub thread_seq : ℕ
  pub uuid : ℕ → String
  pub uuids : ℕ
  pub clock : ℕ

unfoldable pub new_store : (ℕ → String) → ℕ → Store
new_store uuid clock = record {
  processes = [];
  instances = [];
  flows = [];
  threads = [];
  jobs = [];
  dead_letters = [];
  logs = [];
  thread_seq = 0;
  uuid = uuid;
  uuids = 0;
  clock = clock;
}

-- A fresh identifier where the record has none.
abbrev pub id_or_new : String → Store → String
id_or_new id s = if is_empty id then s.uuid s.uuids else id

abbrev pub drawn : String → Store → ℕ
drawn id s = if is_empty id then s.uuids + 1 else s.uuids

unfoldable pub save_process : Process → Store → Store
save_process p s = record s { processes = put p.id p s.processes }

unfoldable pub get_process : String → Store → Result Process
get_process id s = or_fail (get id s.processes) (not_found id)

unfoldable pub list_processes : Store → List Process
list_processes s = values s.processes

-- The caller changed the definition that it was handed.
unfoldable pub share : Process → Store → Store
share p s = elim (get p.id s.processes) [
  | none ↦ s
  | some q ↦ record s { processes = put p.id p s.processes }
]

unfoldable pub create_instance : InstanceRecord → Store → InstanceRecord × Store
create_instance i s =
    let j : InstanceRecord = record i {
      id = id_or_new i.id s;
      started_at = s.clock;
      updated_at = s.clock;
    } in
    (j, record s { instances = put j.id j s.instances; uuids = drawn i.id s })

unfoldable pub get_instance : String → Store → Result InstanceRecord
get_instance id s = or_fail (get id s.instances) (not_found id)

unfoldable pub update_instance : InstanceRecord → Store → Store
update_instance i s = record s {
  instances = put i.id (record i { updated_at = s.clock }) s.instances;
}

-- `none` is the empty status, which selects every instance.
abbrev has_status : Option State → InstanceRecord → Bool
has_status none i = true
has_status (some t) i = same i.status t

unfoldable pub list_instances : Option State → Store → List InstanceRecord
list_instances status s = keep (has_status status) (values s.instances)

unfoldable pub create_flow : FlowRecord → Store → FlowRecord × Store
create_flow f s =
    let g : FlowRecord = record f { id = id_or_new f.id s; started_at = some s.clock } in
    (g, record s { flows = put g.id g s.flows; uuids = drawn f.id s })

unfoldable pub update_flow : FlowRecord → Store → Store
update_flow f s = record s { flows = put f.id f s.flows }

unfoldable pub get_flow : String → Store → Result FlowRecord
get_flow id s = or_fail (get id s.flows) (not_found id)

unfoldable pub get_flows_by_instance : String → Store → List FlowRecord
get_flows_by_instance id s = keep (λ f. f.instance_id == id) (values s.flows)

abbrev pub is_active : FlowStatus → Bool
is_active Records.FlowStatus.active = true
is_active _ = false

unfoldable pub get_active_flows_by_thread : String → ℕ → Store → List FlowRecord
get_active_flows_by_thread id thread_id s =
    keep (λ f. f.instance_id == id && (nat_eq f.thread_id thread_id && is_active f.status))
      (values s.flows)

-- The inner map of the threads, keyed by their index.
put_thread : ℕ → ThreadRecord → List (ℕ × ThreadRecord) → List (ℕ × ThreadRecord)
put_thread k t [] = (k, t) ∷ []
put_thread k t ((j, u) ∷ ts) =
    let rest = put_thread k t ts in if nat_eq j k then (k, t) ∷ ts else (j, u) ∷ rest

threads_of : String → Store → List (ℕ × ThreadRecord)
threads_of id s = elim (get id s.threads) [ none ↦ [] | some ts ↦ ts ]

unfoldable pub create_thread : ThreadRecord → Store → ThreadRecord × Store
unfolding put_thread threads_of
create_thread t s =
    let u : ThreadRecord = record t { id = s.thread_seq + 1; created_at = s.clock } in
    (
      u,
      record s {
        thread_seq = s.thread_seq + 1;
        threads =
            put t.instance_id (put_thread t.thread_index u (threads_of t.instance_id s)) s.threads;
      },
    )

unfoldable pub update_thread : ThreadRecord → Store → Store
unfolding put_thread
update_thread t s = elim (get t.instance_id s.threads) [
  | none ↦ s
  | some ts ↦ record s { threads = put t.instance_id (put_thread t.thread_index t ts) s.threads }
]

seconds : List (ℕ × ThreadRecord) → List ThreadRecord
seconds [] = []
seconds ((k, t) ∷ ts) = t ∷ seconds ts

unfoldable pub get_threads_by_instance : String → Store → List ThreadRecord
unfolding threads_of seconds
get_threads_by_instance id s = seconds (threads_of id s)

close : ℕ → List (ℕ × ThreadRecord) → List (ℕ × ThreadRecord)
close k [] = []
close k ((j, t) ∷ ts) =
    let rest = close k ts in
    if nat_eq j k
    then (j, record t { status = Records.ThreadStatus.closed }) ∷ rest
    else (j, t) ∷ rest

unfoldable pub close_thread : String → ℕ → Store → Store
unfolding close
close_thread id thread_index s = elim (get id s.threads) [
  | none ↦ s
  | some ts ↦ record s { threads = put id (close thread_index ts) s.threads }
]

unfoldable pub create_job : JobRecord → Store → JobRecord × Store
create_job j s =
    let k : JobRecord = record j {
      id = id_or_new j.id s;
      created_at = s.clock;
      scheduled_at = if nat_eq j.scheduled_at 0 then s.clock else j.scheduled_at;
    } in
    (k, record s { jobs = put k.id k s.jobs; uuids = drawn j.id s })

unfoldable pub update_job : JobRecord → Store → Store
update_job j s = record s { jobs = put j.id j s.jobs }

abbrev pub is_pending : JobStatus → Bool
is_pending Records.JobStatus.pending = true
is_pending _ = false

-- The job is pending and its time has come.
unfoldable pub is_due : ℕ → JobRecord → Bool
is_due now j = is_pending j.status && leb j.scheduled_at now

-- The loop stops after the job with which the result has `limit` jobs: a limit of 0 yields one too.
due_jobs : ℕ → ℕ → List JobRecord → List JobRecord
unfolding is_due
due_jobs limit now [] = []
due_jobs limit now (j ∷ js) =
    let next = due_jobs (limit - 1) now js in
    let rest = due_jobs limit now js in
    if is_due now j then j ∷ (if leb limit 1 then [] else next) else rest

unfoldable pub get_pending_jobs : ℕ → Store → List JobRecord
unfolding due_jobs
get_pending_jobs limit s = due_jobs limit s.clock (values s.jobs)

unfoldable pub get_job : String → Store → Result JobRecord
get_job id s = or_fail (get id s.jobs) (not_found id)

unfoldable pub create_dead_letter : DeadLetterRecord → Store → DeadLetterRecord × Store
create_dead_letter d s =
    let e : DeadLetterRecord = record d { id = id_or_new d.id s; created_at = s.clock } in
    (e, record s { dead_letters = put e.id e s.dead_letters; uuids = drawn d.id s })

unfoldable pub get_dead_letters : String → Store → List DeadLetterRecord
get_dead_letters id s = keep (λ d. d.instance_id == id) (values s.dead_letters)

unfoldable pub get_dead_letter : String → Store → Result DeadLetterRecord
get_dead_letter id s = or_fail (get id s.dead_letters) (not_found id)

-- Stops like `get_pending_jobs`.
first_or_more {ℓ} : {A : Type ℓ} → ℕ → List A → List A
first_or_more limit [] = []
first_or_more limit (x ∷ xs) =
    let next = first_or_more (limit - 1) xs in x ∷ (if leb limit 1 then [] else next)

unfoldable pub list_dead_letters : ℕ → Store → List DeadLetterRecord
unfolding first_or_more
list_dead_letters limit s = first_or_more limit (values s.dead_letters)

unfoldable pub log_execution : ExecutionLogEntry → Store → Store
log_execution e s = record s {
  logs = s.logs ++ record e { id = id_or_new e.id s; created_at = s.clock } ∷ [];
  uuids = drawn e.id s;
}

unfoldable pub get_execution_log : String → Store → List ExecutionLogEntry
get_execution_log id s = keep (λ e. e.instance_id == id) s.logs

-- A flow record that the store holds changed in place.
unfoldable pub share_flow : FlowRecord → Store → Store
share_flow f s = elim (get f.id s.flows) [
  | none ↦ s
  | some g ↦ record s { flows = put f.id f s.flows }
]

unfoldable pub reset : Store → Store
reset s = record (new_store s.uuid s.clock) { uuids = s.uuids }

-- No method of this store fails on a write.
abbrev pub memory_store : EngineStore Store
memory_store = record {
  get_process = get_process;
  hands_out_pointers = true;
  share = share;
  share_flow = share_flow;
  get_instance = get_instance;
  update_instance = λ i s. ok (update_instance i s);
  list_instances = λ s. ok (list_instances none s);
  create_flow = λ f s. ok (create_flow f s);
  update_flow = λ f s. ok (update_flow f s);
  get_flow = get_flow;
  get_flows_by_instance = λ id s. ok (get_flows_by_instance id s);
  create_thread = λ t s. ok (create_thread t s);
  get_threads_by_instance = λ id s. ok (get_threads_by_instance id s);
  close_thread = λ id k s. ok (close_thread id k s);
  create_job = λ j s. ok (create_job j s);
  log_execution = λ e s. ok (log_execution e s);
}

abbrev pub memory_jobs : JobStore Store
memory_jobs = record {
  create_job = λ j s. ok (create_job j s);
  update_job = λ j s. ok (update_job j s);
  get_pending_jobs = λ n s. ok (get_pending_jobs n s);
  get_job = get_job;
}

abbrev pub memory_dead_letters : DeadLetterStore Store
memory_dead_letters = record {
  create_dead_letter = λ d s. ok (create_dead_letter d s);
  get_dead_letters = λ id s. ok (get_dead_letters id s);
}
