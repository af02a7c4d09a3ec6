-- ===== src/Webhooks/Payload.antt =====
-- app/webhooks/signing.py and the parts of app/webhooks/dispatcher.py that build a delivery: the
-- payload, and the headers, where a caller's headers are filtered. HMAC and JSON are parameters.
pub mod Headers
use local_image_generator_se.Common.{
  ℕ, String, Bool, true, false, ◌||◌, ◌≡◌, Option, none, some, List, [], ◌∷◌, ◌++◌, if◌then◌else◌,
}
use local_image_generator_se.Common.Text.{Text, codes, text_eq, lower, starts_with, among}
use local_image_generator_se.Schema.{Job, JobStatus, queued, running, completed, abandoned}

pub data Payload : Type 0 where
  result : (event id : String) (status : JobStatus) (created : ℕ) (items : List Text) → Payload
  problem : (event id : String) (status : JobStatus) (code message : String) → Payload

-- What a delivery takes from outside the program: `json.loads(result_json).get("data", [])` with
-- its items as texts, `json.dumps(…)` of a payload, HMAC-SHA256 in hex of a message under a key,
-- and a number's digits.
pub record Codec : Type 0 where
  pub data_items : String → List Text
  pub dumps : Payload → Text
  pub hmac_hex : Text → Text → Text
  pub digits : ℕ → Text

module _ (c : Codec) where
  unfoldable pub sign_payload : ℕ → Text → Text → Text
  sign_payload timestamp body secret = c.hmac_hex secret ((c.digits timestamp ++ codes ".") ++ body)

  unfoldable pub build_signature_header : ℕ → Text → Text
  build_signature_header timestamp digest_hex =
      codes "t=" ++ (c.digits timestamp ++ (codes ",v1=" ++ digest_hex))

abbrev pub status_text : JobStatus → String
status_text queued = "queued"
status_text running = "running"
status_text completed = "completed"
status_text JobStatus.failed = "failed"
status_text abandoned = "abandoned"

abbrev pub event_of : JobStatus → String
event_of queued = "job.queued"
event_of running = "job.running"
event_of completed = "job.completed"
event_of JobStatus.failed = "job.failed"
event_of abandoned = "job.abandoned"

-- `s or d` on an optional text: an empty one counts as missing.
abbrev pub or_text : Option String → String → String
or_text none d = d
or_text (some String.[]) d = d
or_text (some (String.◌∷◌ ch s)) d = String.◌∷◌ ch s

abbrev items_of : (String → List Text) → Option String → List Text
items_of f none = []
items_of f (some String.[]) = []
items_of f (some (String.◌∷◌ ch s)) = f (String.◌∷◌ ch s)

payload_for : Codec → ℕ → Job → JobStatus → Payload
payload_for c created job completed =
    result "job.completed" job.id job.status created (items_of c.data_items job.result_json)
payload_for c created job _ =
    problem (event_of job.status) job.id job.status
      (or_text job.error_code (status_text job.status)) (or_text job.error_message "")

-- `created` is `int(time.time())`.
unfoldable pub build_payload : Codec → ℕ → Job → Payload
unfolding payload_for
build_payload c created job = payload_for c created job job.status

-- headers[k] = v on a Python dict, which keeps the place of a key that it has.
unfoldable pub put_header : Text → Text → List (Text × Text) → List (Text × Text)
put_header k v [] = (k, v) ∷ []
put_header k v ((j, w) ∷ hs) = if text_eq j k then (k, v) ∷ hs else (j, w) ∷ put_header k v hs

unfoldable pub reserved_names : List Text
reserved_names =
    codes "content-type" ∷ codes "host" ∷ codes "authorization" ∷ codes "user-agent" ∷ []

-- The test by which the loop skips a caller's header.
unfoldable pub is_reserved : Text → Bool
unfolding reserved_names
is_reserved k = let lk = lower k in starts_with lk (codes "x-imagegen-") || among lk reserved_names

unfoldable pub add_headers : List (Text × Text) → List (Text × Text) → List (Text × Text)
unfolding put_header is_reserved
add_headers headers [] = headers
add_headers headers ((k, v) ∷ rest) =
    add_headers (if is_reserved k then headers else put_header k v headers) rest

unfoldable pub own_headers : Text → Text → Text → Text → Text → List (Text × Text)
own_headers event job_id delivery_id timestamp signature =
    (codes "Content-Type", codes "application/json")
    ∷ (codes "User-Agent", codes "image-gen-service/0.1")
    ∷ (codes "X-ImageGen-Event", event)
    ∷ (codes "X-ImageGen-Job-Id", job_id)
    ∷ (codes "X-ImageGen-Delivery-Id", delivery_id)
    ∷ (codes "X-ImageGen-Timestamp", timestamp)
    ∷ (codes "X-ImageGen-Signature", signature)
    ∷ []
