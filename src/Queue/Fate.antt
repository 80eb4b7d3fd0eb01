-- ===== src/Queue/Fate.antt =====
-- internal/queue/worker.go and deadletter.go, over the in-memory store: what becomes of a job.
use bpmn_ai.Base.{
  ℕ, zero, suc, String, Option, none, some, ◌≡◌, refl, Bool-cases, inl, inr, if◌then◌else◌,
}
use bpmn_ai.Base.Dict.{get-put_self}
use bpmn_ai.Errors.{ok, err}
use bpmn_ai.Records.{JobRecord, running, completed, dead}
use bpmn_ai.Queue.{
  RetryPolicy, WorkerPool, World, should_retry, apply_retry, process_job, finish_job, executed,
  dead_letter,
}
use bpmn_ai.Store.Memory.{
  Store, memory_jobs, memory_dead_letters, get_job, update_job, create_dead_letter, is_pending,
}

abbrev pub Handler : Type 0
Handler = JobRecord → Store → Store × Option String

abbrev pub pool : RetryPolicy → Handler → ℕ → WorkerPool Store
pool p h n = record {
  jobs = memory_jobs;
  dead_letters = some memory_dead_letters;
  handler = some h;
  retry = p;
  concurrency = n;
}

get_job-update_job : (j : JobRecord) (s : Store) → get_job j.id (update_job j s) ≡ ok j
unfolding get_job update_job
get_job-update_job j s = rw (get-put_self j.id j s.jobs)

module _ (p : RetryPolicy) (random : ℕ → Option ℕ) (now : ℕ) where
  -- The record that a job should be left with, by what its handler returned.
  abbrev pub outcome : JobRecord → Option String → JobRecord
  outcome job none = executed now completed job
  outcome job (some msg) =
      if should_retry p job
      then apply_retry p random now (record (executed now running job) { error_message = msg }) msg
      else record (executed now running job) { status = dead; error_message = msg }

  -- The record that `failJob` starts from.
  abbrev marked : JobRecord → String → JobRecord
  marked job msg = record (executed now running job) { error_message = msg }

  should_retry-marked :
      (job : JobRecord) (msg : String) → should_retry p (marked job msg) ≡ should_retry p job
  unfolding should_retry
  should_retry-marked job msg = refl

  module _ (h : Handler) (n : ℕ) (job : JobRecord) (w : World Store) where
    -- What the handler returns on the running record, which is in the store by then.
    abbrev pub returned : Store × Option String
    returned = h (executed now running job) (update_job (executed now running job) w.store)

    finish_job-outcome :
        (r : Store × Option String)
        → get_job job.id (finish_job random now (pool p h n) (executed now running job) w r).store
          ≡ ok (outcome job r.1)
    unfolding process_job apply_retry
    finish_job-outcome (s, none) = get_job-update_job (executed now completed job) s
    finish_job-outcome (s, some msg) = elim (Bool-cases (should_retry p job)) [
      | inl e ↦
          rw (should_retry-marked job msg, e)
            (get_job-update_job (apply_retry p random now (marked job msg) msg) s)
      | inr e ↦
          rw (should_retry-marked job msg, e)
            (get_job-update_job (record (marked job msg) { status = dead })
              (create_dead_letter (dead_letter (record (marked job msg) { status = dead }) msg)
                s).1)
    ]

    -- Whatever the handler does to the store, the job's record there is afterwards completed if the
    -- handler succeeded, pending for a retry if it failed and the policy allows one more, and dead
    -- otherwise.
    pub process_job-outcome :
        get_job job.id (process_job random now (pool p h n) job w).store
        ≡ ok (outcome job returned.1)
    unfolding process_job
    process_job-outcome = finish_job-outcome returned

  -- A poll that finds the job of an identifier pending processes it.
  abbrev pub poll : Handler → ℕ → String → World Store → World Store
  poll h n id w = elim (get_job id w.store) [
    | err e ↦ w
    | ok j ↦ if is_pending j.status then process_job random now (pool p h n) j w else w
  ]

  pub polls : Handler → ℕ → String → ℕ → World Store → World Store
  polls h n id zero w = w
  polls h n id (suc k) w = polls h n id k (poll h n id w)

  -- The handler of a job that can never succeed.
  abbrev pub failing : String → Handler
  failing msg j s = (s, some msg)
