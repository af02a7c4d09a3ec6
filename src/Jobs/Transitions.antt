-- ===== src/Jobs/Transitions.antt =====
-- app/queue/jobs.py: the creation of a job and the operations that change its status.
use local_image_generator_se.Common.{
  ℕ, String, Bool, true, false, Option, none, some, List, [], ◌∷◌, ◌++◌, is_some, str_eq,
  if◌then◌else◌,
}
use local_image_generator_se.Common.Text.{Text}
use local_image_generator_se.Common.Table.{find, update}
use local_image_generator_se.Schema.{
  Database, Job, JobStatus, JobMode, Error, queued, running, completed, abandoned, job_not_found,
  invalid_transition, integrity,
}
use local_image_generator_se.Schema
use local_image_generator_se.Store.{
  Result, ok, err, Exec, Transaction, write, read, assert_some, then_do, ◌>>=◌, ◌>>◌,
}

-- `target in _ALLOWED_TRANSITIONS[current]`
unfoldable pub allowed_transitions : JobStatus → JobStatus → Bool
allowed_transitions queued running = true
allowed_transitions queued JobStatus.failed = true
allowed_transitions queued abandoned = true
allowed_transitions running completed = true
allowed_transitions running JobStatus.failed = true
allowed_transitions running abandoned = true
allowed_transitions _ _ = false

abbrev pub has_id : String → Job → Bool
has_id k j = str_eq j.id k

-- UPDATE jobs SET … WHERE id=?
abbrev pub update_job : String → (Job → Job) → Database → Database
update_job k f d = record d { jobs = update (has_id k) f d.jobs }

unfoldable pub get_by_id : String → Exec (Option Job)
get_by_id k = read (λ d. find (has_id k) d.jobs)

abbrev status_or_raise : String → Option Job → Result JobStatus
status_or_raise k none = err (job_not_found k)
status_or_raise k (some j) = ok j.status

unfoldable pub fetch_status : Database → String → Result JobStatus
fetch_status d k = status_or_raise k (find (has_id k) d.jobs)

unfoldable pub assert_allowed : JobStatus → JobStatus → Result (Unit {0})
unfolding allowed_transitions
assert_allowed current target =
    if allowed_transitions current target then ok tt else err (invalid_transition current target)

-- The three statements that the four status changes share.
unfoldable pub change_status : String → JobStatus → (Job → Job) → Transaction (Unit {0})
unfolding fetch_status assert_allowed
change_status k target f d =
    then_do (fetch_status d k)
      λ current. then_do (assert_allowed current target) λ _. ok (tt, update_job k f d)

-- The write, and the row read back after it.
abbrev pub set_status : String → JobStatus → (Job → Job) → Exec Job
set_status k target f = do
  write (change_status k target f)
  fetched ← get_by_id k
  assert_some fetched

unfoldable pub as_running : ℕ → String → String → Job → Job
as_running now prompt_id client_id j = record j {
  status = running;
  prompt_id = some prompt_id;
  client_id = some client_id;
  updated_at = now;
}

unfoldable pub set_running : ℕ → String → String → String → Exec Job
unfolding as_running change_status get_by_id
set_running now job_id prompt_id client_id =
    set_status job_id running (as_running now prompt_id client_id)

unfoldable pub as_completed : ℕ → List String → String → Job → Job
as_completed now output_keys result_json j = record j {
  status = completed;
  output_keys = output_keys;
  result_json = some result_json;
  updated_at = now;
}

unfoldable pub set_completed : ℕ → String → List String → String → Exec Job
unfolding as_completed change_status get_by_id
set_completed now job_id output_keys result_json =
    set_status job_id completed (as_completed now output_keys result_json)

unfoldable pub as_failed : ℕ → String → String → Job → Job
as_failed now error_code error_message j = record j {
  status = JobStatus.failed;
  error_code = some error_code;
  error_message = some error_message;
  updated_at = now;
}

unfoldable pub set_failed : ℕ → String → String → String → Exec Job
unfolding as_failed change_status get_by_id
set_failed now job_id error_code error_message =
    set_status job_id JobStatus.failed (as_failed now error_code error_message)

unfoldable pub as_abandoned : ℕ → String → Job → Job
as_abandoned now error_code j = record j {
  status = abandoned;
  error_code = some error_code;
  updated_at = now;
}

unfoldable pub set_abandoned : ℕ → String → String → Exec Job
unfolding as_abandoned change_status get_by_id
set_abandoned now job_id error_code = set_status job_id abandoned (as_abandoned now error_code)

-- The arguments of `create_queued`, with the id that it draws.
pub record NewJob : Type 0 where
  pub job_id : String
  pub model_name : String
  pub input_json : String
  pub mode : JobMode
  pub webhook_url : Option String
  pub webhook_headers : Option (List (Text × Text))

-- `webhook_headers if webhook_headers else None`: an empty dict is stored as NULL.
abbrev drop_empty : Option (List (Text × Text)) → Option (List (Text × Text))
drop_empty none = none
drop_empty (some []) = none
drop_empty (some (h ∷ hs)) = some (h ∷ hs)

unfoldable pub queued_row : ℕ → NewJob → Job
queued_row now a = record {
  id = a.job_id;
  model_name = a.model_name;
  input_json = a.input_json;
  mode = a.mode;
  status = queued;
  result_json = none;
  error_code = none;
  error_message = none;
  created_at = now;
  updated_at = now;
  client_id = none;
  prompt_id = none;
  output_keys = [];
  response_delivered = false;
  initial_response_delivered = false;
  webhook_url = a.webhook_url;
  webhook_headers = drop_empty a.webhook_headers;
  webhook_delivery_status = none;
  webhook_handover = false;
  fetched_at = none;
}

unfoldable pub as_pending : Job → Job
as_pending j = record j { webhook_delivery_status = some Schema.WebhookDeliveryStatus.pending }

-- INSERT … RETURNING computes its row before the UPDATE that follows, so the row that is returned
-- is the inserted one.
unfoldable pub insert_queued : ℕ → NewJob → Transaction Job
unfolding queued_row as_pending
insert_queued now a d =
    let row = queued_row now a in
    if is_some (find (has_id a.job_id) d.jobs)
    then err integrity
    else let inserted = record d { jobs = d.jobs ++ row ∷ [] } in
      if is_some a.webhook_url
      then ok (row, update_job a.job_id as_pending inserted)
      else ok (row, inserted)

unfoldable pub create_queued : ℕ → NewJob → Exec Job
unfolding insert_queued
create_queued now a = write (insert_queued now a)
