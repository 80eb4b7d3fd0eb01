-- ===== src/Queue.antt =====
-- internal/queue: retry.go, worker.go and deadletter.go, over any job and dead-letter store. The
-- clock is read once in a call. Durations are nanoseconds in an int64, whose wrap-around is written
-- out modulo 2^64; counts of retries are small numbers of an int. Polling, tickers and the stop
-- channel only decide when `process_batch` runs.
pub mod Backoff
pub mod Fate
use bpmn_ai.Base.{
  ℕ, ◌+◌, ◌-◌, ◌*◌, ◌/◌, ◌%◌, ◌^◌, String, Bool, true, false, not, ◌&&◌, List, [], ◌∷◌, ◌++◌,
  Option, none, some, ltb, leb, nat_eq, is_empty, length, if◌then◌else◌,
}
use Prim.Native.String.{◌++◌ as append}
use bpmn_ai.Errors.{Error, Result, ok, err, ◌>>=◌, after}
use bpmn_ai.Records.{
  JobRecord, DeadLetterRecord, JobStatus, unset, pending, running, completed, dead,
}
use bpmn_ai.Store.{JobStore, DeadLetterStore}

abbrev pub int64_mod : ℕ
int64_mod = 18446744073709551616

abbrev pub int64_sign : ℕ
int64_sign = 9223372036854775808

pub record RetryPolicy : Type 0 where
  pub max_retries : ℕ
  pub base_delay : ℕ
  pub max_delay : ℕ
  pub jitter : Bool

unfoldable pub default_retry_policy : RetryPolicy
default_retry_policy = record {
  max_retries = 3;
  base_delay = 1_000_000_000;
  max_delay = 300_000_000_000;
  jitter = true;
}

-- `time.Duration(math.Pow(2, float64(n)))`: from 2^63 on the conversion gives the least int64.
unfoldable pub power : ℕ → ℕ
power n = if ltb n 63 then 2 ^ n else int64_sign

-- The sign bit of an int64.
abbrev pub is_negative : ℕ → Bool
is_negative d = leb int64_sign d

unfoldable pub capped_delay : RetryPolicy → ℕ → ℕ
capped_delay p n =
    let delay = (p.base_delay * power n) % int64_mod in
    if ltb 0 p.max_delay && (not (is_negative delay) && ltb p.max_delay delay)
    then p.max_delay
    else delay

abbrev or_zero : Option ℕ → ℕ
or_zero none = 0
or_zero (some r) = r

-- `random` is `rand.Int` below its argument, `none` where it fails.
unfoldable pub jittered_delay : RetryPolicy → (ℕ → Option ℕ) → ℕ → ℕ
jittered_delay p random n =
    let delay = capped_delay p n in
    if p.jitter && (not (is_negative delay) && ltb 0 (delay / 4))
    then (delay + or_zero (random (delay / 4))) % int64_mod
    else delay

-- `time.Now().Add(delay)`.
unfoldable pub next_retry_at : RetryPolicy → (ℕ → Option ℕ) → ℕ → ℕ → ℕ
next_retry_at p random now n =
    let delay = jittered_delay p random n in
    if is_negative delay then now - (int64_mod - delay) else now + delay

unfoldable pub should_retry : RetryPolicy → JobRecord → Bool
should_retry p j =
    if nat_eq p.max_retries 0
    then ltb j.retry_count j.max_retries
    else ltb j.retry_count p.max_retries

unfoldable pub apply_retry : RetryPolicy → (ℕ → Option ℕ) → ℕ → JobRecord → String → JobRecord
apply_retry p random now j msg = record j {
  retry_count = j.retry_count + 1;
  error_message = msg;
  status = pending;
  scheduled_at = next_retry_at p random now (j.retry_count + 1);
  executed_at = none;
}

pub data QueueEvent : Type 0 where
  job_completed job_failed job_dead : String → QueueEvent

-- The handler gets the running record and returns its error's text, if it fails.
pub record WorkerPool (S : Type 0) : Type 0 where
  pub jobs : JobStore S
  pub dead_letters : Option (DeadLetterStore S)
  pub handler : Option (JobRecord → S → S × Option String)
  pub retry : RetryPolicy
  pub concurrency : ℕ

-- What a pool acts on: the store, and the events that it has dispatched.
pub record World (S : Type 0) : Type 0 where
  pub store : S
  pub events : List QueueEvent

abbrev policy_or_default : Option RetryPolicy → RetryPolicy
policy_or_default none = default_retry_policy
policy_or_default (some p) = p

unfoldable pub dead_letter : JobRecord → String → DeadLetterRecord
dead_letter j msg = record {
  id = "";
  job_id = j.id;
  instance_id = j.instance_id;
  type = j.type;
  payload = j.payload;
  error_message = msg;
  retry_count = j.retry_count;
  created_at = 0;
}

abbrev status_or_pending : JobStatus → JobStatus
status_or_pending unset = pending
status_or_pending s = s

abbrev executed : ℕ → JobStatus → JobRecord → JobRecord
executed now status j = record j { status = status; executed_at = some now }

module _ {S : Type 0} where
  -- A pool has at least one worker, and a retry policy.
  unfoldable pub new_worker_pool :
      JobStore S
      → Option (JobRecord → S → S × Option String)
      → Option RetryPolicy
      → Option (DeadLetterStore S)
      → ℕ
      → WorkerPool S
  unfolding default_retry_policy
  new_worker_pool jobs handler retry dlq concurrency = record {
    jobs = jobs;
    dead_letters = dlq;
    handler = handler;
    retry = policy_or_default retry;
    concurrency = if ltb concurrency 1 then 1 else concurrency;
  }

  -- A call whose error is dropped.
  abbrev save : WorkerPool S → JobRecord → World S → World S
  save wp j w = record w { store = after w.store (wp.jobs.update_job j w.store) }

  abbrev emit : QueueEvent → World S → World S
  emit e w = record w { events = w.events ++ e ∷ [] }

  -- `DeadLetterQueue.Add`: the letter is written before the job.
  unfoldable pub add :
      WorkerPool S → DeadLetterStore S → JobRecord → String → World S → Result (World S)
  unfolding dead_letter
  add wp dl j msg w = dl.create_dead_letter (dead_letter j msg) w.store >>= λ r.
      wp.jobs.update_job (record j { status = dead; error_message = msg }) r.1 >>= λ s.
      ok (record w { store = s; events = w.events ++ job_dead j.id ∷ [] })

  -- What `Add` leaves when it fails: the letter may have been written.
  abbrev added : WorkerPool S → DeadLetterStore S → JobRecord → String → World S → World S
  added wp dl j msg w = elim (dl.create_dead_letter (dead_letter j msg) w.store) [
    | err e ↦ w
    | ok r ↦ after (record w { store = r.1 }) (add wp dl j msg w)
  ]

  -- A dead job goes to the dead-letter queue, if the pool has one.
  bury : Option (DeadLetterStore S) → WorkerPool S → JobRecord → String → World S → World S
  unfolding add dead_letter
  bury none wp j msg w = save wp (record j { status = dead }) w
  bury (some dl) wp j msg w = added wp dl (record j { status = dead }) msg w

  module _ (random : ℕ → Option ℕ) (now : ℕ) where
    unfoldable pub fail_job : WorkerPool S → JobRecord → String → World S → World S
    unfolding bury
    fail_job wp job msg w =
        let j : JobRecord = record job { error_message = msg } in
        if should_retry wp.retry j
        then emit (job_failed j.id) (save wp (apply_retry wp.retry random now j msg) w)
        else bury wp.dead_letters wp j msg w

    -- After the handler: phase 2, or the failure.
    finish_job : WorkerPool S → JobRecord → World S → S × Option String → World S
    unfolding fail_job
    finish_job wp j w (s, none) =
        emit (job_completed j.id) (save wp (executed now completed j) (record w { store = s }))
    finish_job wp j w (s, some msg) = fail_job wp j msg (record w { store = s })

    run_handler :
        Option (JobRecord → S → S × Option String) → WorkerPool S → JobRecord → World S → World S
    unfolding finish_job
    run_handler none wp job w = save wp (executed now completed job) w
    run_handler (some h) wp job w = elim (wp.jobs.update_job (executed now running job) w.store) [
      | err e ↦ w
      | ok s ↦ finish_job wp (executed now running job) w (h (executed now running job) s)
    ]

    unfoldable pub process_job : WorkerPool S → JobRecord → World S → World S
    unfolding run_handler
    process_job wp job w = run_handler wp.handler wp job w

    process_all : WorkerPool S → List JobRecord → World S → World S
    process_all wp [] w = w
    process_all wp (j ∷ js) w = process_all wp js (process_job wp j w)

    -- A poll, if nothing stops the pool in the middle of it.
    unfoldable pub process_batch : WorkerPool S → World S → World S
    unfolding process_all
    process_batch wp w = elim (wp.jobs.get_pending_jobs wp.concurrency w.store) [
      | err e ↦ w
      | ok jobs ↦ process_all wp jobs w
    ]

  unfoldable pub enqueue : ℕ → WorkerPool S → JobRecord → S → Result (JobRecord × S)
  enqueue now wp job s =
      wp.jobs.create_job
        (record job {
          id = if is_empty job.id then append "job-" job.instance_id else job.id;
          status = status_or_pending job.status;
          scheduled_at = if nat_eq job.scheduled_at 0 then now else job.scheduled_at;
          max_retries = if nat_eq job.max_retries 0 then wp.retry.max_retries else job.max_retries;
        })
        s
