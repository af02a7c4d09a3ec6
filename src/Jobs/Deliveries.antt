-- ===== src/Jobs/Deliveries.antt =====
-- app/queue/jobs.py: the attempts to deliver a job's webhook, table webhook_deliveries, with the
-- CHECK on `attempt_n` of its migration.
use local_image_generator_se.Common.{
  ℕ, String, Bool, ◌&&◌, not, Option, none, some, List, [], ◌∷◌, ◌++◌, is_some, str_eq, leb,
  if◌then◌else◌,
}
use local_image_generator_se.Common.Text.{Text}
use local_image_generator_se.Common.Table.{select, find, update, order_by, by}
use local_image_generator_se.Schema.{
  WebhookDeliveryAttempt, WebhookAttemptStatus, integrity, pending, delivering,
}
use local_image_generator_se.Store.{ok, err, Exec, write, read}

abbrev pub of_job : String → WebhookDeliveryAttempt → Bool
of_job job_id a = str_eq a.job_id job_id

abbrev pub has_attempt_id : String → WebhookDeliveryAttempt → Bool
has_attempt_id k a = str_eq a.id k

abbrev pub first {ℓ} : {A : Type ℓ} → List A → Option A
first [] = none
first (x ∷ xs) = some x

-- ORDER BY attempt_n DESC LIMIT 1
unfoldable pub latest_of : String → List WebhookDeliveryAttempt → Option WebhookDeliveryAttempt
latest_of job_id as' =
    first (order_by (λ x y. leb y.attempt_n x.attempt_n) (select (of_job job_id) as'))

unfoldable pub get_latest_attempt : String → Exec (Option WebhookDeliveryAttempt)
unfolding latest_of
get_latest_attempt job_id = read (λ d. latest_of job_id d.webhook_deliveries)

unfoldable pub list_attempts_for_job : String → Exec (List WebhookDeliveryAttempt)
list_attempts_for_job job_id =
    read (λ d. order_by (by (λ a. a.attempt_n)) (select (of_job job_id) d.webhook_deliveries))

-- CHECK (attempt_n BETWEEN 1 AND 5)
abbrev pub attempt_in_range : ℕ → Bool
attempt_in_range n = leb 1 n && leb n 5

unfoldable pub pending_row : ℕ → String → String → ℕ → Option ℕ → WebhookDeliveryAttempt
pending_row now attempt_id job_id attempt_n next_retry_at = record {
  id = attempt_id;
  job_id = job_id;
  attempt_n = attempt_n;
  status = pending;
  status_code = none;
  response_body_snippet = none;
  error = none;
  error_code = none;
  next_retry_at = next_retry_at;
  created_at = now;
  completed_at = none;
}

-- `attempt_id` is the uuid4 that was drawn.
unfoldable pub create_attempt : ℕ → String → String → ℕ → Option ℕ → Exec WebhookDeliveryAttempt
unfolding pending_row
create_attempt now attempt_id job_id attempt_n next_retry_at = write λ d.
    let row = pending_row now attempt_id job_id attempt_n next_retry_at in
    if attempt_in_range attempt_n
      && not (is_some (find (has_attempt_id attempt_id) d.webhook_deliveries))
    then ok (row, record d { webhook_deliveries = d.webhook_deliveries ++ row ∷ [] })
    else err integrity

abbrev update_attempt : String → (WebhookDeliveryAttempt → WebhookDeliveryAttempt) → Exec (Unit {0})
update_attempt k f =
    write λ d.
      ok (tt, record d { webhook_deliveries = update (has_attempt_id k) f d.webhook_deliveries })

unfoldable pub set_attempt_delivering : String → Exec (Unit {0})
set_attempt_delivering attempt_id = update_attempt attempt_id λ a. record a { status = delivering }

-- The keyword arguments of `complete_attempt` after the id.
pub record Completion : Type 0 where
  pub status : WebhookAttemptStatus
  pub status_code : Option ℕ
  pub response_body_snippet : Option Text
  pub error : Option String
  pub error_code : Option String
  pub next_retry_at : Option ℕ

unfoldable pub completed_by : ℕ → Completion → WebhookDeliveryAttempt → WebhookDeliveryAttempt
completed_by now c a = record a {
  status = c.status;
  status_code = c.status_code;
  response_body_snippet = c.response_body_snippet;
  error = c.error;
  error_code = c.error_code;
  next_retry_at = c.next_retry_at;
  completed_at = some now;
}

unfoldable pub complete_attempt : ℕ → String → Completion → Exec (Unit {0})
unfolding completed_by
complete_attempt now attempt_id c = update_attempt attempt_id (completed_by now c)
