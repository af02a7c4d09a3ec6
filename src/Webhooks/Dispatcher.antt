-- ===== src/Webhooks/Dispatcher.antt =====
-- app/webhooks/dispatcher.py: one candidate job is processed. Each reading of the clock has its own
-- number; the HTTP client, the resolver, URL parsing and the ids that uuid4 draws are parameters.
pub mod Signed
pub mod Verdict
pub mod Stuck
use local_image_generator_se.Common.{
  ℕ, suc, ◌+◌, ◌/◌, String, Bool, true, false, ◌&&◌, ◌||◌, not, Option, none, some, List, [], ◌∷◌,
  ◌++◌, leb, ltb, ◌==◌, is_none, is_some, if◌then◌else◌, take,
}
use local_image_generator_se.Common.Effect.{Outcome, returned, raised, Effect, give, ◌>>=◌, ◌>>◌}
use local_image_generator_se.Common.Text.{Text, codes}
use local_image_generator_se.Schema.{
  Error, Job, WebhookDeliveryAttempt, WebhookDeliveryStatus, WebhookAttemptStatus, pending,
  delivering, succeeded, failed, suppressed,
}
use local_image_generator_se.Store.{JobStore, Result, ok, err, Exec}
use local_image_generator_se.Jobs.Flags.{
  is_sync, scan_webhook_candidates, set_webhook_delivery_status,
}
use local_image_generator_se.Jobs.Deliveries.{
  Completion, get_latest_attempt, create_attempt, set_attempt_delivering, complete_attempt,
}
use local_image_generator_se.Webhooks.Retry.{next_retry_at}
use local_image_generator_se.Webhooks.Policy.{
  Environment, ParsedUrl, Resolver, toctou_allows, first_signing_secret,
}
use local_image_generator_se.Webhooks.Payload.{
  Codec, sign_payload, build_signature_header, build_payload, event_of, add_headers, own_headers,
}

-- What the caller of `self._http.post` sees: an httpx.HTTPError, or a response.
pub data Reply : Type 0 where
  http_error : String → Reply
  response : ℕ → Text → Reply

-- What is posted.
pub record Post : Type 0 where
  pub url : String
  pub body : Text
  pub headers : List (Text × Text)

-- The exceptions that no clause takes: those of the store, and those of the HTTP client that are no
-- HTTPError.
pub data Raised : Type 0 where
  store_error : Error → Raised
  client_error : String → Raised

-- The store, and what has been posted.
pub record Dispatch : Type 0 where
  pub store : JobStore
  pub posts : List Post

pub record World : Type 0 where
  pub clock : ℕ → ℕ
  pub environment : Environment
  pub urlparse : String → ParsedUrl
  pub resolve : Resolver
  pub codec : Codec
  pub on_post : Post → Outcome Raised Reply
  pub attempt_id : String
  pub delivery_id : Text

abbrev pub Delivering : Type 0 → Type 0
Delivering A = Effect Dispatch Raised A

abbrev of_exec : {A : Type 0} → Dispatch → Result A × JobStore → Outcome Raised A × Dispatch
of_exec m (ok a, s) = (returned a, record m { store = s })
of_exec m (err e, s) = (raised (store_error e), record m { store = s })

abbrev pub on_store : {A : Type 0} → Exec A → Delivering A
on_store x m = of_exec m (x m.store)

abbrev pub seconds : ℕ → ℕ
seconds t = t / 1000000

-- What the latest attempt says about the job now.
pub data Review : Type 0 where
  proceed wait already_delivered : Review
  interrupted : WebhookDeliveryAttempt → Review

abbrev due_after : ℕ → Option ℕ → Review
due_after now none = proceed
due_after now (some due) = if ltb now due then wait else proceed

review_latest : ℕ → WebhookDeliveryAttempt → WebhookAttemptStatus → Review
review_latest now a pending =
    if is_none a.next_retry_at then interrupted a else due_after now a.next_retry_at
review_latest now a delivering =
    if is_none a.next_retry_at then interrupted a else due_after now a.next_retry_at
review_latest now a succeeded = already_delivered
review_latest now a failed = due_after now a.next_retry_at

unfoldable pub review : ℕ → Option WebhookDeliveryAttempt → Review
unfolding review_latest
review now none = proceed
review now (some a) = review_latest now a a.status

abbrev next_number : Option WebhookDeliveryAttempt → ℕ
next_number none = 1
next_number (some a) = a.attempt_n + 1

abbrev or_code : Option String → String → String
or_code none d = d
or_code (some String.[]) d = d
or_code (some (String.◌∷◌ ch s)) d = String.◌∷◌ ch s

-- The attempt of a process that stopped while it was delivering.
abbrev pub given_up : WebhookDeliveryAttempt → Completion
given_up a = record {
  status = failed;
  status_code = a.status_code;
  response_body_snippet = a.response_body_snippet;
  error = a.error;
  error_code = some (or_code a.error_code "webhook_dispatcher_restart");
  next_retry_at = none;
}

abbrev refused : String → Completion
refused code = record {
  status = failed;
  status_code = none;
  response_body_snippet = none;
  error = none;
  error_code = some code;
  next_retry_at = none;
}

abbrev pub is_success : ℕ → Bool
is_success code = leb 200 code && ltb code 300

abbrev pub is_retryable : ℕ → Bool
is_retryable code = code == 429 || (leb 500 code && leb code 599)

abbrev pub redirect_code : ℕ → Option String
redirect_code code = if leb 300 code && leb code 399 then some "webhook_redirect" else none

-- `"pending" if retry_at else "failed"`
abbrev pub pending_or_failed : Option ℕ → WebhookDeliveryStatus
pending_or_failed none = WebhookDeliveryStatus.failed
pending_or_failed (some t) = WebhookDeliveryStatus.pending

-- `job.webhook_headers or {}`
abbrev or_none : Option (List (Text × Text)) → List (Text × Text)
or_none none = []
or_none (some hs) = hs

module _ (w : World) where
  -- complete_attempt, then set_webhook_delivery_status
  conclude : String → String → Completion → WebhookDeliveryStatus → Delivering (Unit {0})
  conclude attempt_id job_id c status =
      on_store (complete_attempt (w.clock 4) attempt_id c)
      >> on_store (set_webhook_delivery_status (w.clock 5) job_id status)

  -- The part after the POST.
  handle_reply : String → String → ℕ → Reply → Delivering (Unit {0})
  unfolding conclude
  handle_reply attempt_id job_id attempt_n (http_error e) =
      let retry_at = next_retry_at attempt_n (w.clock 3) in
      conclude attempt_id job_id
        (record {
          status = failed;
          status_code = none;
          response_body_snippet = none;
          error = some e;
          error_code = none;
          next_retry_at = retry_at;
        })
        (pending_or_failed retry_at)
  handle_reply attempt_id job_id attempt_n (response code text) =
      if is_success code
      then conclude attempt_id job_id
          (record {
            status = succeeded;
            status_code = some code;
            response_body_snippet = some (take 256 text);
            error = none;
            error_code = none;
            next_retry_at = none;
          })
          WebhookDeliveryStatus.succeeded
      else let retry_at = if is_retryable code then next_retry_at attempt_n (w.clock 3) else none in
        conclude attempt_id job_id
          (record {
            status = failed;
            status_code = some code;
            response_body_snippet = some (take 256 text);
            error = none;
            error_code = redirect_code code;
            next_retry_at = retry_at;
          })
          (pending_or_failed retry_at)

  -- Payload, signature and headers.
  unfoldable pub request : Job → String → Text → Post
  request job url secret =
      let ts = seconds (w.clock 2) in
      let body = w.codec.dumps (build_payload w.codec (seconds (w.clock 7)) job) in
      let sig = sign_payload w.codec ts body secret in
      record {
        url = url;
        body = body;
        headers =
            add_headers
              (own_headers (codes (event_of job.status)) (codes job.id) w.delivery_id
                (w.codec.digits ts) (build_signature_header w.codec ts sig))
              (or_none job.webhook_headers);
      }

  -- self._http.post
  abbrev pub send : Post → Delivering Reply
  send p m = (w.on_post p, record m { posts = m.posts ++ p ∷ [] })

  with_secret : Job → String → ℕ → String → Option Text → Delivering (Unit {0})
  unfolding conclude handle_reply
  with_secret job url attempt_n k none =
      conclude k job.id (refused "webhook_signing_error") WebhookDeliveryStatus.failed
  with_secret job url attempt_n k (some secret) =
      send (request job url secret) >>= handle_reply k job.id attempt_n

  -- The checks before the POST, and the POST.
  attempt_delivery : Job → String → ℕ → String → Delivering (Unit {0})
  unfolding conclude with_secret
  attempt_delivery job url attempt_n k =
      if not (toctou_allows w.environment w.resolve (w.urlparse url))
      then conclude k job.id (refused "webhook_ssrf_blocked") WebhookDeliveryStatus.failed
      else with_secret job url attempt_n k (first_signing_secret w.environment)

  deliver : Job → String → ℕ → Delivering (Unit {0})
  unfolding attempt_delivery
  deliver job url attempt_n = do
    attempt ← on_store (create_attempt (w.clock 1) w.attempt_id job.id attempt_n none)
    on_store (set_attempt_delivering attempt.id)
    attempt_delivery job url attempt_n attempt.id

  pub follow : Job → String → Option WebhookDeliveryAttempt → Review → Delivering (Unit {0})
  unfolding deliver
  follow job url latest proceed = deliver job url (next_number latest)
  follow job url latest wait = give tt
  follow job url latest already_delivered =
      on_store (set_webhook_delivery_status (w.clock 1) job.id WebhookDeliveryStatus.succeeded)
  follow job url latest (interrupted a) = do
    on_store (complete_attempt (w.clock 6) a.id (given_up a))
    deliver job url (next_number latest)

  process_to : Job → Option String → Delivering (Unit {0})
  unfolding follow review
  process_to job none = give tt
  process_to job (some url) =
      if is_sync job.mode && job.response_delivered
      then on_store (set_webhook_delivery_status (w.clock 0) job.id suppressed)
      else do
        latest ← on_store (get_latest_attempt job.id)
        follow job url latest (review (w.clock 0) latest)

  unfoldable pub process_one : Job → Delivering (Unit {0})
  unfolding process_to
  process_one job = process_to job job.webhook_url
