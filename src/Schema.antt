-- ===== src/Schema.antt =====
-- The rows of migrations/001_init.sql, 003_lora_fetches.sql and the webhook_deliveries migration,
-- which are the dataclasses of app/queue/jobs.py and app/queue/fetches.py, and what a database call
-- raises. A time is the instant in microseconds that the ISO text names: all texts are of UTC, so
-- the order of the texts, by which SQLite compares, is the order of the instants. JSON columns
-- hold the value that their text encodes, and 0/1 columns a Boolean.
use local_image_generator_se.Common.Text.{Text}
use local_image_generator_se.Common.{ℕ, String, Bool, Option, List}

pub data JobStatus : Type 0 where
  queued running completed failed abandoned : JobStatus

pub data JobMode : Type 0 where
  sync async : JobMode

pub data WebhookDeliveryStatus : Type 0 where
  pending succeeded failed suppressed : WebhookDeliveryStatus

pub data WebhookAttemptStatus : Type 0 where
  pending delivering succeeded failed : WebhookAttemptStatus

pub data FetchStatus : Type 0 where
  pending downloading verifying done failed : FetchStatus

pub record Job : Type 0 where
  pub id : String
  pub model_name : String
  pub input_json : String
  pub mode : JobMode
  pub status : JobStatus
  pub result_json : Option String
  pub error_code : Option String
  pub error_message : Option String
  pub created_at : ℕ
  pub updated_at : ℕ
  pub client_id : Option String
  pub prompt_id : Option String
  pub output_keys : List String
  pub response_delivered : Bool
  pub initial_response_delivered : Bool
  pub webhook_url : Option String
  pub webhook_headers : Option (List (Text × Text))
  pub webhook_delivery_status : Option WebhookDeliveryStatus
  pub webhook_handover : Bool
  pub fetched_at : Option ℕ

pub record WebhookDeliveryAttempt : Type 0 where
  pub id : String
  pub job_id : String
  pub attempt_n : ℕ
  pub status : WebhookAttemptStatus
  pub status_code : Option ℕ
  pub response_body_snippet : Option Text
  pub error : Option String
  pub error_code : Option String
  pub next_retry_at : Option ℕ
  pub created_at : ℕ
  pub completed_at : Option ℕ

pub record LoraFetch : Type 0 where
  pub id : String
  pub url : String
  pub civitai_model_id : Option ℕ
  pub civitai_version_id : ℕ
  pub status : FetchStatus
  pub progress_bytes : ℕ
  pub total_bytes : Option ℕ
  pub dest_name : Option String
  pub error_code : Option String
  pub error_message : Option String
  pub handover : Bool
  pub created_at : ℕ
  pub updated_at : ℕ

pub record Database : Type 0 where
  pub jobs : List Job
  pub webhook_deliveries : List WebhookDeliveryAttempt
  pub lora_fetches : List LoraFetch

-- `integrity` is the IntegrityError of a primary key, a unique index or a CHECK.
pub data Error : Type 0 where
  not_connected integrity assertion : Error
  job_not_found fetch_not_found : String → Error
  invalid_transition : JobStatus → JobStatus → Error
  invalid_fetch_transition : FetchStatus → FetchStatus → Error
