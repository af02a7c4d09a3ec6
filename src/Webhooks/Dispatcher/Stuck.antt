-- ===== src/Webhooks/Dispatcher/Stuck.antt =====
-- app/webhooks/dispatcher.py and the CHECK on `attempt_n` of the webhook_deliveries migration: a
-- candidate all of whose attempts are used.
use mathlib.Core.Option
use local_image_generator_se.Common.{
  ℕ, ◌+◌, ◌≤◌, String, ◌≡◌, ◌≢◌, refl, false, ◌&&◌, none, some, List, [], ◌∷◌, arith, leb, ap, ◌∙◌,
  map, ◌⊎◌, inl, inr,
}
use local_image_generator_se.Common.Effect.{raised}
use local_image_generator_se.Common.Table.{
  select, update, set_where, order_by, select-map, order_by-map,
}
use local_image_generator_se.Schema.{
  Database, Job, WebhookDeliveryAttempt, WebhookAttemptStatus, pending, delivering, succeeded,
  failed, integrity,
}
use local_image_generator_se.Jobs.Flags.{is_sync}
use local_image_generator_se.Jobs.Deliveries.{
  first, of_job, has_attempt_id, attempt_in_range, latest_of, completed_by, create_attempt,
  complete_attempt,
}
use local_image_generator_se.Webhooks.Dispatcher.{
  Post, Dispatch, store_error, World, proceed, interrupted, review, review_latest, given_up,
  deliver, follow, process_one,
}
use local_image_generator_se.Webhooks.Dispatcher.Verdict.{at, process_one-follow}

-- The latest attempt has the last number, has no retry time, and did not succeed.
pub record IsExhausted (job_id : String) (attempts : List WebhookDeliveryAttempt) : Type 0 where
  pub last : WebhookDeliveryAttempt
  pub is_latest : latest_of job_id attempts ≡ some last
  pub number : 5 ≤ last.attempt_n
  pub no_retry : last.next_retry_at ≡ none
  pub not_delivered : last.status ≢ succeeded

deliver_refused :
    (w : World) (job : Job) (url : String) (n : ℕ) (d : Database) (posts : List Post)
    → 6 ≤ n
    → deliver w job url n (at d posts) ≡ (raised (store_error integrity), at d posts)
unfolding deliver create_attempt
deliver_refused w job url n d posts h = rw (out_of_range n h)
  where
    out_of_range : (n : ℕ) → 6 ≤ n → attempt_in_range n ≡ false
    out_of_range n h = ground arith

first-map :
    (g : WebhookDeliveryAttempt → WebhookDeliveryAttempt) (xs : List WebhookDeliveryAttempt)
    → first (map g xs) ≡ Option.map g (first xs)
first-map g [] = refl
first-map g (x ∷ xs) = refl

latest_of-map :
    (job_id : String) (g : WebhookDeliveryAttempt → WebhookDeliveryAttempt)
    (as' : List WebhookDeliveryAttempt)
    → ((a : WebhookDeliveryAttempt) → (g a).job_id ≡ a.job_id)
    → ((a : WebhookDeliveryAttempt) → (g a).attempt_n ≡ a.attempt_n)
    → latest_of job_id (map g as') ≡ Option.map g (latest_of job_id as')
unfolding latest_of
latest_of-map job_id g as' hj hn = rw (select-map (of_job job_id) g as' (λ a. rw (hj a))) (
    rw
      (order_by-map (λ x y. leb y.attempt_n x.attempt_n) g (select (of_job job_id) as')
        (λ x y. rw (hn x, hn y)))
      (first-map g (order_by (λ x y. leb y.attempt_n x.attempt_n) (select (of_job job_id) as'))))

module _ (k : String) (now : ℕ) (last : WebhookDeliveryAttempt) where
  abandon : WebhookDeliveryAttempt → WebhookDeliveryAttempt
  abandon = set_where (has_attempt_id k) (completed_by now (given_up last))

  abandon-job : (a : WebhookDeliveryAttempt) → (abandon a).job_id ≡ a.job_id
  unfolding abandon set_where completed_by
  abandon-job a = ground arith

  abandon-number : (a : WebhookDeliveryAttempt) → (abandon a).attempt_n ≡ a.attempt_n
  unfolding abandon set_where completed_by
  abandon-number a = ground arith

  abandon-retry :
      (a : WebhookDeliveryAttempt) → a.next_retry_at ≡ none → (abandon a).next_retry_at ≡ none
  unfolding abandon set_where completed_by
  abandon-retry a h = ground arith

  abandon-status :
      (a : WebhookDeliveryAttempt) → a.status ≢ succeeded → (abandon a).status ≢ succeeded
  unfolding abandon set_where completed_by
  abandon-status a h e = ground arith

  abandon-IsExhausted :
      (job_id : String) (as' : List WebhookDeliveryAttempt)
      → IsExhausted job_id as'
      → IsExhausted job_id (map abandon as')
  abandon-IsExhausted job_id as' h = record {
    last = abandon h.last;
    is_latest =
        latest_of-map job_id abandon as' abandon-job abandon-number
        ∙ ap (Option.map abandon) h.is_latest;
    number = omega (arith, abandon-number h.last, h.number);
    no_retry = abandon-retry h.last h.no_retry;
    not_delivered = abandon-status h.last h.not_delivered;
  }

abbrev Refused : World → Job → Database → List Post → Type 0
Refused w job d posts =
    (d' : Database) × (process_one w job (at d posts)
      ≡ (raised (store_error integrity), at d' posts))
    × (d'.jobs ≡ d.jobs)
    × IsExhausted job.id d'.webhook_deliveries

review_interrupted :
    (now : ℕ) (a : WebhookDeliveryAttempt)
    → (a.status ≡ pending) ⊎ (a.status ≡ delivering)
    → a.next_retry_at ≡ none
    → review now (some a) ≡ interrupted a
unfolding review review_latest
review_interrupted now a h r = ground arith

review_failed :
    (now : ℕ) (a : WebhookDeliveryAttempt)
    → a.status ≡ failed
    → a.next_retry_at ≡ none
    → review now (some a) ≡ proceed
unfolding review review_latest
review_failed now a h r = ground arith

follow_interrupted :
    (w : World) (job : Job) (url : String) (d : Database) (posts : List Post)
    (a : WebhookDeliveryAttempt)
    → 5 ≤ a.attempt_n
    → follow w job url (some a) (interrupted a) (at d posts) ≡ (
      raised (store_error integrity),
      at
          (record d { webhook_deliveries = map (abandon a.id (w.clock 6) a) d.webhook_deliveries })
          posts,
    )
unfolding follow complete_attempt update abandon
follow_interrupted w job url d posts a h =
    deliver_refused w job url (a.attempt_n + 1)
      (record d { webhook_deliveries = map (abandon a.id (w.clock 6) a) d.webhook_deliveries })
      posts (omega arith)

follow_proceed :
    (w : World) (job : Job) (url : String) (d : Database) (posts : List Post)
    (a : WebhookDeliveryAttempt)
    → 5 ≤ a.attempt_n
    → follow w job url (some a) proceed (at d posts) ≡ (raised (store_error integrity), at d posts)
unfolding follow
follow_proceed w job url d posts a h =
    deliver_refused w job url (a.attempt_n + 1) d posts (omega arith)

module _ (w : World) (job : Job) (url : String) (d : Database) (posts : List Post)
    (hu : job.webhook_url ≡ some url) (hs : (is_sync job.mode && job.response_delivered) ≡ false)
    (h : IsExhausted job.id d.webhook_deliveries) where
  Refused-interrupted :
      (h.last.status ≡ pending) ⊎ (h.last.status ≡ delivering) → Refused w job d posts
  Refused-interrupted e = (
    record d {
      webhook_deliveries = map (abandon h.last.id (w.clock 6) h.last) d.webhook_deliveries;
    },
    process_one-follow w job url d posts hu hs
        ∙ rw (h.is_latest, review_interrupted (w.clock 0) h.last e h.no_retry)
            (follow_interrupted w job url d posts h.last h.number),
    refl,
    abandon-IsExhausted h.last.id (w.clock 6) h.last job.id d.webhook_deliveries h,
  )

  Refused-failed : h.last.status ≡ failed → Refused w job d posts
  Refused-failed e = (
    d,
    process_one-follow w job url d posts hu hs
        ∙ rw (h.is_latest, review_failed (w.clock 0) h.last e h.no_retry)
            (follow_proceed w job url d posts h.last h.number),
    refl,
    h,
  )

  Refused-by : (s : WebhookAttemptStatus) → h.last.status ≡ s → Refused w job d posts
  Refused-by pending e = Refused-interrupted (inl e)
  Refused-by delivering e = Refused-interrupted (inr e)
  Refused-by succeeded e = absurd (h.not_delivered e)
  Refused-by failed e = Refused-failed e

-- One job processed again and again, as the ticks of the dispatcher do.
abbrev pub passes : List World → Job → Dispatch → Dispatch
passes [] job s = s
passes (w ∷ ws) job s = passes ws job (process_one w job s).1

-- Once the last attempt is used up without a result and without a retry time, every pass over the
-- job raises an integrity error: no pass changes the jobs table, so the job stays a candidate, and
-- nothing is posted.
pub passes_stuck :
    (ws : List World) (job : Job) (url : String) (d : Database) (posts : List Post)
    → job.webhook_url ≡ some url
    → (is_sync job.mode && job.response_delivered) ≡ false
    → IsExhausted job.id d.webhook_deliveries
    → (d' : Database) × (passes ws job (at d posts) ≡ at d' posts)
      × (d'.jobs ≡ d.jobs)
      × ((w : World) → (process_one w job (at d' posts)).0 ≡ raised (store_error integrity))
passes_stuck [] job url d posts hu hs h =
    (d, refl, refl, λ w. ap (λ r. r.0) (Refused-by w job url d posts hu hs h h.last.status refl).1)
passes_stuck (w ∷ ws) job url d posts hu hs h =
    let (d', r, j, h') = Refused-by w job url d posts hu hs h h.last.status refl in
    let (d'', q, i, more) = passes_stuck ws job url d' posts hu hs h' in
    (d'', ap (λ x. passes ws job x.1) r ∙ q, i ∙ j, more)
