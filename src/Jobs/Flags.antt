-- ===== src/Jobs/Flags.antt =====
-- app/queue/jobs.py: delivery flags, and the scans and counts over the jobs table.
pub mod Races
pub mod Scans
use local_image_generator_se.Common.{
  ℕ, String, Bool, true, false, ◌&&◌, Option, none, some, List, is_some, is_none, length,
}
use local_image_generator_se.Common.Table.{select, update, order_by, by}
use local_image_generator_se.Schema.{
  Job, JobStatus, JobMode, WebhookDeliveryStatus, queued, running, completed, abandoned, sync,
  async,
}
use local_image_generator_se.Store.{ok, Exec, write, read}
use local_image_generator_se.Jobs.Transitions.{has_id}

abbrev pub is_active : JobStatus → Bool
is_active queued = true
is_active running = true
is_active _ = false

abbrev pub is_terminal : JobStatus → Bool
is_terminal completed = true
is_terminal JobStatus.failed = true
is_terminal abandoned = true
is_terminal _ = false

abbrev pub is_sync : JobMode → Bool
is_sync sync = true
is_sync async = false

abbrev pub is_async : JobMode → Bool
is_async sync = false
is_async async = true

abbrev pub active : Job → Bool
active j = is_active j.status

unfoldable pub count_active : Exec ℕ
count_active = read (λ d. length (select active d.jobs))

abbrev has_status : JobStatus → Job → Bool
has_status queued j = elim j.status [ queued ↦ true | _ ↦ false ]
has_status running j = elim j.status [ running ↦ true | _ ↦ false ]
has_status completed j = elim j.status [ completed ↦ true | _ ↦ false ]
has_status JobStatus.failed j = elim j.status [ JobStatus.failed ↦ true | _ ↦ false ]
has_status abandoned j = elim j.status [ abandoned ↦ true | _ ↦ false ]

-- GROUP BY status: a group with no row is not in the result of the program, and is 0 here.
unfoldable pub count_by_status : Exec (JobStatus → ℕ)
count_by_status = read (λ d s. length (select (has_status s) d.jobs))

unfoldable pub scan_non_terminal : Exec (List Job)
scan_non_terminal = read (λ d. order_by (by (λ j. j.created_at)) (select active d.jobs))

-- An UPDATE that fails on no row.
abbrev set_flags : (Job → Bool) → (Job → Job) → Exec (Unit {0})
set_flags p f = write (λ d. ok (tt, record d { jobs = update p f d.jobs }))

unfoldable pub set_fetched : ℕ → String → Exec (Unit {0})
set_fetched now job_id =
    set_flags (λ j. has_id job_id j && is_none j.fetched_at) λ j. record j { fetched_at = some now }

unfoldable pub mark_initial_response_delivered : ℕ → String → Exec (Unit {0})
mark_initial_response_delivered now job_id =
    set_flags (λ j. has_id job_id j && is_async j.mode)
      λ j. record j { initial_response_delivered = true; webhook_handover = true; updated_at = now }

unfoldable pub mark_response_delivered : ℕ → String → Exec (Unit {0})
mark_response_delivered now job_id =
    set_flags (λ j. has_id job_id j && is_sync j.mode)
      λ j. record j { response_delivered = true; webhook_handover = true; updated_at = now }

unfoldable pub mark_async_with_handover : ℕ → String → Exec (Unit {0})
mark_async_with_handover now job_id =
    set_flags (has_id job_id)
      λ j. record j { mode = async; webhook_handover = true; updated_at = now }

unfoldable pub mark_handover : ℕ → String → Exec (Unit {0})
mark_handover now job_id =
    set_flags (has_id job_id) λ j. record j { webhook_handover = true; updated_at = now }

-- `webhook_delivery_status='pending' OR webhook_delivery_status IS NULL`
abbrev is_undecided : Option WebhookDeliveryStatus → Bool
is_undecided none = true
is_undecided (some WebhookDeliveryStatus.pending) = true
is_undecided (some _) = false

unfoldable pub is_webhook_candidate : Job → Bool
is_webhook_candidate j =
    is_some j.webhook_url
    && (j.webhook_handover && (is_terminal j.status && is_undecided j.webhook_delivery_status))

unfoldable pub scan_webhook_candidates : Exec (List Job)
unfolding is_webhook_candidate
scan_webhook_candidates =
    read (λ d. order_by (by (λ j. j.updated_at)) (select is_webhook_candidate d.jobs))

unfoldable pub set_webhook_delivery_status : ℕ → String → WebhookDeliveryStatus → Exec (Unit {0})
set_webhook_delivery_status now job_id status =
    set_flags (has_id job_id)
      λ j. record j { webhook_delivery_status = some status; updated_at = now }
