-- ===== src/Process/Instance.antt =====
-- internal/process/state.go: the instance of a process and its operations. `now` is the reading of
-- `time.Now` in the call; `completed` says that the `sync.Once` has run; the counter behind
-- `atomic.Int64` is a field, since each call adds to it in one step. The mutexes of the source
-- guard nothing here. `Threads` is never read, and is left out.
use bpmn_ai.Base.{ℕ, ◌+◌, String, Bool, true, false, ◌||◌, Option, none, some, if◌then◌else◌}
use bpmn_ai.Base.Dict.{Dict, get, put}
use bpmn_ai.Errors.{Result, ok, err, invalid_transition}
use bpmn_ai.Model.{Value}
use bpmn_ai.Model
use bpmn_ai.Process.Sanitize.{sanitize_variables}
use bpmn_ai.Process.State.{State, created, completed, terminated, same, is_valid_transition}
use bpmn_ai.Records.{InstanceRecord, ThreadRecord}
use bpmn_ai.Records

pub record Instance : Type 0 where
  pub id : String
  pub process_id : String
  pub process : Model.Process
  pub title : String
  pub state : State
  pub variables : Dict Value
  pub pin : String
  pub started_at : ℕ
  pub updated_at : ℕ
  pub finished_at : Option ℕ
  pub once_done : Bool
  pub completed_ok : Bool
  pub thread_seq : ℕ

-- `id` and `pin` are what `uuid.New` and `generatePIN` return; a nil map is the empty one.
unfoldable pub new_instance : String → String → ℕ → Model.Process → Dict Value → Instance
new_instance id pin now proc variables = record {
  id = id;
  process_id = proc.id;
  process = proc;
  title = "";
  state = created;
  variables = sanitize_variables variables;
  pin = pin;
  started_at = now;
  updated_at = now;
  finished_at = none;
  once_done = false;
  completed_ok = false;
  thread_seq = 1;
}

-- On an error the instance is left as it was.
unfoldable pub transition : ℕ → State → Instance → Result Instance
unfolding is_valid_transition
transition now next i =
    if is_valid_transition i.state next
    then ok (record i {
      state = next;
      updated_at = now;
      finished_at = if same next completed || same next terminated then some now else i.finished_at;
    })
    else err (invalid_transition i.state next)

-- The body of `completed.Do`.
complete_once : Instance → Result Instance → Instance
complete_once i (ok j) = record j { once_done = true; completed_ok = true }
complete_once i (err e) = record i { once_done = true }

unfoldable pub try_complete : ℕ → Instance → Instance × Bool
unfolding transition complete_once
try_complete now i =
    let j = if i.once_done then i else complete_once i (transition now completed i) in
    (j, j.completed_ok)

unfoldable pub next_thread_id : Instance → Instance × ℕ
next_thread_id i = (record i { thread_seq = i.thread_seq + 1 }, i.thread_seq + 1)

unfoldable pub get_variable : String → Instance → Option Value
get_variable key i = get key i.variables

unfoldable pub set_variable : ℕ → String → Value → Instance → Instance
set_variable now key value i = record i { variables = put key value i.variables; updated_at = now }

unfoldable pub to_record : Instance → InstanceRecord
to_record i = record {
  id = i.id;
  process_id = i.process_id;
  title = i.title;
  status = i.state;
  current_user = "";
  variables = i.variables;
  pin = i.pin;
  started_at = i.started_at;
  updated_at = i.updated_at;
  finished_at = i.finished_at;
}

-- `NewThread`, and the record that the engine makes of it.
unfoldable pub new_thread : ℕ → String → ℕ → Option ℕ → String → ThreadRecord
new_thread now instance_id thread_index parent_index flow_id = record {
  id = 0;
  instance_id = instance_id;
  thread_index = thread_index;
  parent_index = parent_index;
  flow_id = flow_id;
  status = Records.ThreadStatus.active;
  created_at = now;
}
