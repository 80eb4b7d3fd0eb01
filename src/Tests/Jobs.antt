-- ===== src/Tests/Jobs.antt =====
-- A job whose handler always fails, under a policy of one retry.
use bpmn_ai.Base.{ℕ, ◌≤◌, ◌<◌, ◌+◌, ◌/◌, [], ◌∷◌, Option, none, some, ◌≡◌, arith, true}
use bpmn_ai.Errors.{ok}
use bpmn_ai.Queue.{RetryPolicy, World, process_job, capped_delay, next_retry_at}
use bpmn_ai.Queue.Backoff
use bpmn_ai.Queue.Fate
use bpmn_ai.Model.{start_event}
use bpmn_ai.Process.State.{completed}
use bpmn_ai.Records.{JobRecord, FlowRecord, InstanceRecord}
use bpmn_ai.Records
use bpmn_ai.Store.Memory.{Store, get_job}
use bpmn_ai.Tests.{straight, stored, flow_at}

abbrev policy : RetryPolicy
policy = record { max_retries = 1; base_delay = 1000; max_delay = 5000; jitter = true }

abbrev job : JobRecord
job = record {
  id = "j";
  instance_id = "case";
  flow_id = "flow";
  type = "mail";
  payload = [];
  status = Records.JobStatus.pending;
  retry_count = 0;
  max_retries = 3;
  scheduled_at = 0;
  executed_at = none;
  error_message = "";
  created_at = 0;
}

abbrev world : World Store
world = record { store = record (stored straight) { jobs = ("j", job) ∷ [] }; events = [] }

abbrev no_random : ℕ → Option ℕ
no_random range = none

never_random : (range r : ℕ) → no_random range ≡ some r → r < range
never_random range r h = ground arith

process_job-outcome_example :
    get_job "j"
      (process_job no_random 7
        (Fate.pool policy (Fate.failing policy no_random 7 "down") 1)
        job
        world).store
    ≡ ok (Fate.outcome policy no_random 7 job (some "down"))
process_job-outcome_example =
    Fate.process_job-outcome policy no_random 7 (Fate.failing policy no_random 7 "down") 1 job world

abbrev polled : ℕ → World Store → World Store
polled = Fate.polls policy no_random 7 (Fate.failing policy no_random 7 "down") 1 "j"

abbrev token : FlowRecord
token = flow_at "start" start_event

abbrev closed_case : InstanceRecord
closed_case = record {
  id = "case";
  process_id = "straight";
  title = "";
  status = completed;
  current_user = "";
  variables = [];
  pin = "1234";
  started_at = 0;
  updated_at = 0;
  finished_at = some 3;
}

next_retry_at_lem_example :
    (capped_delay policy 2 ≡ Backoff.backoff policy 2)
    × (7 + Backoff.backoff policy 2 ≤ next_retry_at policy no_random 7 2)
    × (next_retry_at policy no_random 7 2
        ≤ 7 + Backoff.backoff policy 2 + Backoff.backoff policy 2 / 4)
next_retry_at_lem_example =
    Backoff.next_retry_at_lem policy 2 (omega arith) (omega arith) no_random 7 never_random
      (omega arith)
