-- ===== src/Jobs/Flags/Scans.antt =====
-- app/queue/jobs.py: the scans and the counts of the jobs table.
use local_image_generator_se.Common.{
  ℕ, ◌+◌, ◌≡◌, refl, sym, ap, Bool, true, none, some, List, [], ◌∷◌, arith, length, In, ◌↔◌,
  is_some, ◌⊎◌,
}
use local_image_generator_se.Common.Table.{
  select, order_by, by, order_by-In, order_by-SortedBy, SortedBy, select_sound, select_complete,
  length-order_by,
}
use local_image_generator_se.Schema.{
  Database, Job, JobStatus, WebhookDeliveryStatus, queued, running, completed, abandoned,
}
use local_image_generator_se.Store.{ok, connected}
use local_image_generator_se.Jobs.Flags.{
  active, has_status, count_active, count_by_status, scan_non_terminal, is_webhook_candidate,
  scan_webhook_candidates,
}

module _ (key : Job → ℕ) (p : Job → Bool) (js : List Job) where
  scan-In : (j : Job) → In j (order_by (by key) (select p js)) ↔ (In j js × (p j ≡ true))
  scan-In j = (
    λ i. select_sound p js j ((order_by-In (by key) (select p js) j).0 i),
    λ h. (order_by-In (by key) (select p js) j).1 (select_complete p js j h.0 h.1),
  )

-- What the dispatcher may take up: a destination, the handover, an end, and no final decision.
pub record IsCandidate (j : Job) : Type 0 where
  pub has_url : is_some j.webhook_url ≡ true
  pub handed_over : j.webhook_handover ≡ true
  pub ended : (j.status ≡ completed) ⊎ ((j.status ≡ JobStatus.failed) ⊎ (j.status ≡ abandoned))
  pub undecided :
      (j.webhook_delivery_status ≡ none)
      ⊎ (j.webhook_delivery_status ≡ some WebhookDeliveryStatus.pending)

IsCandidate-iff : (j : Job) → (is_webhook_candidate j ≡ true) ↔ IsCandidate j
unfolding is_webhook_candidate
IsCandidate-iff j =
    ((λ h. ground arith), (λ c. ground (arith, c.has_url, c.handed_over, c.ended, c.undecided)))

-- The scan for webhooks returns exactly the jobs that are candidates, the least recently updated
-- first.
pub scan_webhook_candidates_lem :
    (d : Database)
    → (js : List Job) × (scan_webhook_candidates (connected d) ≡ (ok js, connected d))
      × ((j : Job) → In j js ↔ (In j d.jobs × IsCandidate j))
      × SortedBy (λ j. j.updated_at) js
unfolding scan_webhook_candidates
scan_webhook_candidates_lem d = (
  order_by (by (λ j. j.updated_at)) (select is_webhook_candidate d.jobs),
  refl,
  λ j.
      let scan = scan-In (λ x. x.updated_at) is_webhook_candidate d.jobs j in
      (
        λ i. ((scan.0 i).0, (IsCandidate-iff j).0 (scan.0 i).1),
        λ h. scan.1 (h.0, (IsCandidate-iff j).1 h.1),
      ),
  order_by-SortedBy (λ j. j.updated_at) (select is_webhook_candidate d.jobs),
)

-- The scan at boot returns exactly the jobs that are queued or running, the oldest first, and its
-- length is the number that the queue gate counts.
pub scan_non_terminal_lem :
    (d : Database)
    → (js : List Job) × (scan_non_terminal (connected d) ≡ (ok js, connected d))
      × ((j : Job) → In j js ↔ (In j d.jobs × ((j.status ≡ queued) ⊎ (j.status ≡ running))))
      × SortedBy (λ j. j.created_at) js
      × (count_active (connected d) ≡ (ok (length js), connected d))
unfolding scan_non_terminal count_active
scan_non_terminal_lem d = (
  order_by (by (λ j. j.created_at)) (select active d.jobs),
  refl,
  λ j.
      let scan = scan-In (λ x. x.created_at) active d.jobs j in
      (λ i. ((scan.0 i).0, (active_iff j).0 (scan.0 i).1), λ h. scan.1 (h.0, (active_iff j).1 h.1)),
  order_by-SortedBy (λ j. j.created_at) (select active d.jobs),
  ap (λ n. (ok n, connected d))
      (sym (length-order_by (by (λ j. j.created_at)) (select active d.jobs))),
)
  where
    active_iff : (j : Job) → (active j ≡ true) ↔ ((j.status ≡ queued) ⊎ (j.status ≡ running))
    active_iff j = ((λ h. ground arith), (λ h. ground arith))

abbrev group : JobStatus → List Job → ℕ
group s js = length (select (has_status s) js)

groups_total :
    (js : List Job)
    → group queued js
        + group running js
        + group completed js
        + group JobStatus.failed js
        + group abandoned js
      ≡ length js
unfolding select
groups_total [] = omega arith
groups_total (j ∷ js) = ground (arith, groups_total js)

-- The groups of the status report cover the table: their counts add up to its number of rows.
pub count_by_status_total :
    (d : Database)
    → (count : JobStatus → ℕ) × (count_by_status (connected d) ≡ (ok count, connected d))
      × (count queued + count running + count completed + count JobStatus.failed + count abandoned
          ≡ length d.jobs)
unfolding count_by_status
count_by_status_total d = (λ s. group s d.jobs, refl, groups_total d.jobs)
