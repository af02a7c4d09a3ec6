-- ===== src/Webhooks/Dispatcher/Verdict.antt =====
-- app/webhooks/dispatcher.py: what a delivery that is made writes to the store.
use local_image_generator_se.Common.{
  List, sym, subst, ℕ, String, ◌≡◌, refl, true, false, ◌&&◌, Option, none, some, [], ◌∷◌, ◌++◌,
  arith, ltb, if◌then◌else◌, eq_refl, ap, ◌∙◌, take, Bool-cases, inl, inr,
}
use local_image_generator_se.Common.Effect.{Outcome, returned, raised, after}
use local_image_generator_se.Common.Text.{Text}
use local_image_generator_se.Common.Table.{find, find-update, update, update-append_new}
use local_image_generator_se.Schema.{
  Database, Job, WebhookDeliveryAttempt, WebhookDeliveryStatus, WebhookAttemptStatus, delivering,
  succeeded, failed,
}
use local_image_generator_se.Store.{connected}
use local_image_generator_se.Jobs.Transitions.{has_id}
use local_image_generator_se.Jobs.Flags.{is_sync, set_webhook_delivery_status}
use local_image_generator_se.Jobs.Deliveries.{
  Completion, attempt_in_range, has_attempt_id, latest_of, pending_row, completed_by,
  get_latest_attempt, create_attempt, set_attempt_delivering, complete_attempt,
}
use local_image_generator_se.Webhooks.Retry.{next_retry_at}
use local_image_generator_se.Webhooks.Policy.{toctou_allows, first_signing_secret}
use local_image_generator_se.Webhooks.Dispatcher.Signed.{IsSigned, request-IsSigned}
use local_image_generator_se.Webhooks.Dispatcher.{
  Reply, http_error, response, World, review, proceed, next_number, is_success, is_retryable,
  pending_or_failed, redirect_code, conclude, handle_reply, with_secret, attempt_delivery, deliver,
  follow, process_to, process_one, send, request, Post, Raised, Dispatch, Review, wait,
  already_delivered, interrupted, given_up,
}

-- The policy on replies: 2xx is delivered, 429, 5xx and transport errors are retried while an
-- attempt is left, all else fails.
abbrev pub verdict : ℕ → Reply → WebhookDeliveryStatus
verdict n (http_error e) =
    if ltb n 5 then WebhookDeliveryStatus.pending else WebhookDeliveryStatus.failed
verdict n (response code text) =
    if is_success code
    then WebhookDeliveryStatus.succeeded
    else if is_retryable code && ltb n 5
    then WebhookDeliveryStatus.pending
    else WebhookDeliveryStatus.failed

abbrev pub attempt_verdict : Reply → WebhookAttemptStatus
attempt_verdict (http_error e) = failed
attempt_verdict (response code text) = if is_success code then succeeded else failed

abbrev pub started : World → Job → ℕ → WebhookDeliveryAttempt
started w job n = record (pending_row (w.clock 1) w.attempt_id job.id n none) {
  status = delivering;
}

-- The store after a delivery that ended with this completion and this status.
abbrev pub delivered_store :
    World → Job → ℕ → Completion → WebhookDeliveryStatus → Database → Database
delivered_store w job n c status d = record d {
  webhook_deliveries = d.webhook_deliveries ++ completed_by (w.clock 4) c (started w job n) ∷ [];
  jobs =
      update (has_id job.id)
        (λ j. record j { webhook_delivery_status = some status; updated_at = w.clock 5 }) d.jobs;
}

abbrev pub with_attempt : World → Job → ℕ → Database → Database
with_attempt w job n d = record d {
  webhook_deliveries = d.webhook_deliveries ++ started w job n ∷ [];
}

abbrev pub at : Database → List Post → Dispatch
at d posts = record { store = connected d; posts = posts }

conclude_lem :
    (w : World) (job : Job) (n : ℕ) (c : Completion) (status : WebhookDeliveryStatus) (d : Database)
    (posts : List Post)
    → find (has_attempt_id w.attempt_id) d.webhook_deliveries ≡ none
    → conclude w w.attempt_id job.id c status (at (with_attempt w job n d) posts)
      ≡ (returned tt, at (delivered_store w job n c status d) posts)
unfolding conclude complete_attempt set_webhook_delivery_status pending_row
conclude_lem w job n c status d posts h =
    rw
      (update-append_new (has_attempt_id w.attempt_id) (completed_by (w.clock 4) c)
        d.webhook_deliveries (started w job n) h (eq_refl w.attempt_id))
      refl

deliver_lem :
    (w : World) (job : Job) (url : String) (n : ℕ) (d : Database) (posts : List Post)
    → attempt_in_range n ≡ true
    → find (has_attempt_id w.attempt_id) d.webhook_deliveries ≡ none
    → deliver w job url n (at d posts)
      ≡ attempt_delivery w job url n w.attempt_id (at (with_attempt w job n d) posts)
unfolding deliver create_attempt set_attempt_delivering pending_row
deliver_lem w job url n d posts r h =
    rw (r, h)
      (rw
        (update-append_new (has_attempt_id w.attempt_id) (λ a. record a { status = delivering })
          d.webhook_deliveries (pending_row (w.clock 1) w.attempt_id job.id n none) h
          (eq_refl w.attempt_id))
        refl)

-- The retry time that goes with a verdict.
abbrev pub retry_of : WebhookDeliveryStatus → Option ℕ → Option ℕ
retry_of WebhookDeliveryStatus.pending t = t
retry_of _ t = none

pending_or_failed-retry :
    (n now : ℕ)
    → pending_or_failed (next_retry_at n now)
      ≡ (if ltb n 5 then WebhookDeliveryStatus.pending else WebhookDeliveryStatus.failed)
unfolding next_retry_at
pending_or_failed-retry n now = ground arith

retry_of-retry :
    (n now : ℕ)
    → next_retry_at n now ≡ retry_of (pending_or_failed (next_retry_at n now)) (next_retry_at n now)
retry_of-retry n now = ground arith

-- What `handle_reply` hands to `complete_attempt`.
reply_completion : World → ℕ → Reply → Completion
reply_completion w n (http_error e) = record {
  status = failed;
  status_code = none;
  response_body_snippet = none;
  error = some e;
  error_code = none;
  next_retry_at = next_retry_at n (w.clock 3);
}
reply_completion w n (response code text) = record {
  status = if is_success code then succeeded else failed;
  status_code = some code;
  response_body_snippet = some (take 256 text);
  error = none;
  error_code = if is_success code then none else redirect_code code;
  next_retry_at =
      if is_success code
      then none
      else if is_retryable code
      then next_retry_at n (w.clock 3)
      else none;
}

handle_reply-conclude :
    (w : World) (k job_id : String) (n : ℕ) (reply : Reply)
    → handle_reply w k job_id n reply
      ≡ conclude w k job_id (reply_completion w n reply) (verdict n reply)
unfolding handle_reply reply_completion
handle_reply-conclude w k job_id n (http_error e) = rw (pending_or_failed-retry n (w.clock 3))
handle_reply-conclude w k job_id n (response code text) = elim (Bool-cases (is_success code)) [
  | inl t ↦ rw t
  | inr f ↦ elim (Bool-cases (is_retryable code)) [
    | inl r ↦ rw (f, r, pending_or_failed-retry n (w.clock 3))
    | inr r ↦ rw (f, r)
  ]
]

reply_completion-status :
    (w : World) (n : ℕ) (reply : Reply)
    → (reply_completion w n reply).status ≡ attempt_verdict reply
unfolding reply_completion
reply_completion-status w n (http_error e) = refl
reply_completion-status w n (response code text) = refl

reply_completion-retry :
    (w : World) (n : ℕ) (reply : Reply)
    → (reply_completion w n reply).next_retry_at
      ≡ retry_of (verdict n reply) (next_retry_at n (w.clock 3))
unfolding reply_completion next_retry_at
reply_completion-retry w n (http_error e) = ground arith
reply_completion-retry w n (response code text) = elim (Bool-cases (is_success code)) [
  | inl t ↦ rw t
  | inr f ↦ elim (Bool-cases (is_retryable code)) [
    | inl r ↦ rw (f, r) (ground arith)
    | inr r ↦ rw (f, r)
  ]
]

-- A job with a destination whose response nobody has taken is dealt with by its latest attempt.
pub process_one-follow :
    (w : World) (job : Job) (url : String) (d : Database) (posts : List Post)
    → job.webhook_url ≡ some url
    → (is_sync job.mode && job.response_delivered) ≡ false
    → process_one w job (at d posts)
      ≡ follow w job url
          (latest_of job.id d.webhook_deliveries)
          (review (w.clock 0) (latest_of job.id d.webhook_deliveries))
          (at d posts)
unfolding process_one get_latest_attempt
process_one-follow w job url d posts hu hs =
    ap (λ o. process_to w job o (at d posts)) hu ∙ to_latest
  where
    to_latest :
        process_to w job (some url) (at d posts)
        ≡ follow w job url
            (latest_of job.id d.webhook_deliveries)
            (review (w.clock 0) (latest_of job.id d.webhook_deliveries))
            (at d posts)
    to_latest = rw hs

-- The review lets a delivery begin.
abbrev pub IsDue : Review → Type 0
IsDue proceed = Unit {0}
IsDue (interrupted a) = Unit {0}
IsDue _ = ⊥

-- The store when the delivery begins: an interrupted attempt is given up.
abbrev pub given_up_store : World → Review → Database → Database
given_up_store w (interrupted a) d = record d {
  webhook_deliveries =
      update (has_attempt_id a.id) (completed_by (w.clock 6) (given_up a)) d.webhook_deliveries;
}
given_up_store w _ d = d

follow-deliver :
    (w : World) (job : Job) (url : String) (latest : Option WebhookDeliveryAttempt) (r : Review)
    (d : Database) (posts : List Post)
    → IsDue r
    → follow w job url latest r (at d posts)
      ≡ deliver w job url (next_number latest) (at (given_up_store w r d) posts)
unfolding follow complete_attempt
follow-deliver w job url latest proceed d posts h = refl
follow-deliver w job url latest (interrupted a) d posts h = refl
follow-deliver w job url latest wait d posts h = absurd h
follow-deliver w job url latest already_delivered d posts h = absurd h

given_up-new :
    (w : World) (r : Review) (d : Database)
    → find (has_attempt_id w.attempt_id) d.webhook_deliveries ≡ none
    → find (has_attempt_id w.attempt_id) (given_up_store w r d).webhook_deliveries ≡ none
unfolding completed_by
given_up-new w (interrupted a) d h =
    find-update (has_attempt_id w.attempt_id) (has_attempt_id a.id)
      (completed_by (w.clock 6) (given_up a)) d.webhook_deliveries (λ x. refl)
    ∙ rw h refl
given_up-new w proceed d h = h
given_up-new w wait d h = h
given_up-new w already_delivered d h = h

-- How a delivery ends, by what the client makes of the request. With a reply the store has one more
-- attempt, with the status of the reply and the retry time of the verdict, and the job has the
-- verdict as its delivery status. With another exception the attempt is still being delivered. In
-- both cases the request was posted once.
abbrev pub IsDelivered :
    World
    → Job
    → ℕ
    → Post
    → Database
    → List Post
    → Outcome Raised Reply
    → Outcome Raised (Unit {0}) × Dispatch
    → Type 0
IsDelivered w job n p d posts (returned reply) result =
    (c : Completion) × (result
      ≡ (returned tt, at (delivered_store w job n c (verdict n reply) d) (posts ++ p ∷ [])))
    × (c.status ≡ attempt_verdict reply)
    × (c.next_retry_at ≡ retry_of (verdict n reply) (next_retry_at n (w.clock 3)))
IsDelivered w job n p d posts (raised e) result =
    result ≡ (raised e, at (with_attempt w job n d) (posts ++ p ∷ []))

posted-IsDelivered :
    (w : World) (job : Job) (n : ℕ) (p : Post) (d : Database) (posts : List Post)
    (o : Outcome Raised Reply)
    → find (has_attempt_id w.attempt_id) d.webhook_deliveries ≡ none
    → IsDelivered w job n p d posts o (
        after
          (handle_reply w w.attempt_id job.id n)
          (o, at (with_attempt w job n d) (posts ++ p ∷ [])))
posted-IsDelivered w job n p d posts (returned reply) h =
    let c = reply_completion w n reply in
    (
      c,
      ap (λ x. x (at (with_attempt w job n d) (posts ++ p ∷ [])))
            (handle_reply-conclude w w.attempt_id job.id n reply)
          ∙ conclude_lem w job n c (verdict n reply) d (posts ++ p ∷ []) h,
      reply_completion-status w n reply,
      reply_completion-retry w n reply,
    )
posted-IsDelivered w job n p d posts (raised e) h = refl

attempt_delivery-send :
    (w : World) (job : Job) (url : String) (n : ℕ) (secret : Text) (m : Dispatch)
    → toctou_allows w.environment w.resolve (w.urlparse url) ≡ true
    → first_signing_secret w.environment ≡ some secret
    → attempt_delivery w job url n w.attempt_id m
      ≡ after (handle_reply w w.attempt_id job.id n) (send w (request w job url secret) m)
unfolding attempt_delivery with_secret
attempt_delivery-send w job url n secret m ha hk = rw (ha, hk) refl

-- A job that is due, also after an attempt that was interrupted and is given up, whose destination
-- is allowed while a secret is set and an attempt is left, is posted exactly once: to its URL, and
-- with exactly one signature, that of the posted body at the posted time under the secret, whatever
-- headers the caller gave. When the client answers, or raises an HTTPError, the store gets one more
-- attempt, with the status of the reply and the retry time of the verdict, and the job gets the
-- verdict as its delivery status. Any other exception of the client is raised again, and the new
-- attempt stays in delivery. Nothing else changes.
pub process_one-verdict :
    (w : World) (job : Job) (url : String) (secret : Text) (d : Database) (posts : List Post)
    → job.webhook_url ≡ some url
    → (is_sync job.mode && job.response_delivered) ≡ false
    → IsDue (review (w.clock 0) (latest_of job.id d.webhook_deliveries))
    → attempt_in_range (next_number (latest_of job.id d.webhook_deliveries)) ≡ true
    → find (has_attempt_id w.attempt_id) d.webhook_deliveries ≡ none
    → toctou_allows w.environment w.resolve (w.urlparse url) ≡ true
    → first_signing_secret w.environment ≡ some secret
    → let latest = latest_of job.id d.webhook_deliveries in
      let p = request w job url secret in
      IsSigned w job url secret p
      × IsDelivered w job
          (next_number latest)
          p
          (given_up_store w (review (w.clock 0) latest) d)
          posts
          (w.on_post p)
          (process_one w job (at d posts))
process_one-verdict w job url secret d posts hu hs hr hn hf ha hk =
    let latest = latest_of job.id d.webhook_deliveries in
    let r = review (w.clock 0) latest in
    let n = next_number latest in
    let p = request w job url secret in
    let d' = given_up_store w r d in
    let fresh = given_up-new w r d hf in
    let path : process_one w job (at d posts)
        ≡ after (handle_reply w w.attempt_id job.id n)
            (send w p (at (with_attempt w job n d') posts)) =
      process_one-follow w job url d posts hu hs
      ∙ follow-deliver w job url latest r d posts hr
      ∙ deliver_lem w job url n d' posts hn fresh
      ∙ attempt_delivery-send w job url n secret (at (with_attempt w job n d') posts) ha hk in
    (
      request-IsSigned w job url secret,
      subst (IsDelivered w job n p d' posts (w.on_post p)) (sym path)
          (posted-IsDelivered w job n p d' posts (w.on_post p) fresh),
    )
