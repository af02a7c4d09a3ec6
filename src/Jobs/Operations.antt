-- ===== src/Jobs/Operations.antt =====
-- app/queue/jobs.py: the operations that write the jobs table, as one type.
use mathlib.Core.Option
use local_image_generator_se.Common.{
  ℕ, String, ◌≡◌, refl, Option, none, some, List, [], ◌∷◌, arith, if◌then◌else◌, Option-cases, inl,
  inr,
}
use local_image_generator_se.Common.Table.{find, set_where, find-update, find_sound}
use local_image_generator_se.Schema.{
  Database, Job, JobStatus, WebhookDeliveryStatus, running, completed, abandoned, job_not_found,
  invalid_transition,
}
use local_image_generator_se.Store.{JobStore, Result, ok, err, connected, Exec}
use local_image_generator_se.Jobs.Transitions.{
  NewJob, allowed_transitions, has_id, update_job, get_by_id, change_status, set_status, as_running,
  as_completed, as_failed, as_abandoned, set_running, set_completed, set_failed, set_abandoned,
  create_queued,
}
use local_image_generator_se.Jobs.Flags.{
  set_fetched, mark_initial_response_delivered, mark_response_delivered, mark_async_with_handover,
  mark_handover, set_webhook_delivery_status,
}

pub data Change : Type 0 where
  to_running : String → String → Change
  to_completed : List String → String → Change
  to_failed : String → String → Change
  to_abandoned : String → Change

unfoldable pub change : ℕ → String → Change → Exec Job
change now k (to_running p c) = set_running now k p c
change now k (to_completed keys r) = set_completed now k keys r
change now k (to_failed e m) = set_failed now k e m
change now k (to_abandoned e) = set_abandoned now k e

abbrev pub target : Change → JobStatus
target (to_running p c) = running
target (to_completed keys r) = completed
target (to_failed e m) = JobStatus.failed
target (to_abandoned e) = abandoned

abbrev pub changed : ℕ → Change → Job → Job
changed now (to_running p c) = as_running now p c
changed now (to_completed keys r) = as_completed now keys r
changed now (to_failed e m) = as_failed now e m
changed now (to_abandoned e) = as_abandoned now e

pub changed-id : (now : ℕ) (c : Change) (j : Job) → (changed now c j).id ≡ j.id
unfolding as_running as_completed as_failed as_abandoned
changed-id now (to_running p c) j = refl
changed-id now _ j = refl

pub changed-status : (now : ℕ) (c : Change) (j : Job) → (changed now c j).status ≡ target c
unfolding as_running as_completed as_failed as_abandoned
changed-status now (to_running p c) j = refl
changed-status now _ j = refl

-- What a status change promises, by the row that it finds.
abbrev pub outcome :
    String → JobStatus → (Job → Job) → Database → Option Job → Result Job × JobStore
outcome k t f d none = (err (job_not_found k), connected d)
outcome k t f d (some j) =
    if allowed_transitions j.status t
    then (ok (f j), connected (update_job k f d))
    else (err (invalid_transition j.status t), connected d)

pub find-update_job :
    (k i : String) (f : Job → Job) (d : Database)
    → ((j : Job) → (f j).id ≡ j.id)
    → find (has_id i) (update_job k f d).jobs
      ≡ Option.map (set_where (has_id k) f) (find (has_id i) d.jobs)
find-update_job k i f d h = find-update (has_id i) (has_id k) f d.jobs (λ j. rw (h j))

pub find-update_self :
    (k : String) (f : Job → Job) (d : Database) (j : Job)
    → ((j : Job) → (f j).id ≡ j.id)
    → find (has_id k) d.jobs ≡ some j
    → find (has_id k) (update_job k f d).jobs ≡ some (f j)
unfolding set_where
find-update_self k f d j h e =
    ground (arith, find-update_job k k f d h, (find_sound (has_id k) d.jobs j e).1)

set_status_lem :
    (k : String) (t : JobStatus) (f : Job → Job) (d : Database)
    → ((j : Job) → (f j).id ≡ j.id)
    → set_status k t f (connected d) ≡ outcome k t f d (find (has_id k) d.jobs)
unfolding change_status get_by_id
set_status_lem k t f d h = elim (Option-cases (find (has_id k) d.jobs)) [
  | inl e ↦ ground (arith, e)
  | inr (j, e) ↦ ground (arith, e, find-update_self k f d j h e)
]

-- A status change on a connected store has the outcome that the table's row and the transition
-- table determine.
pub change-outcome :
    (now : ℕ) (k : String) (c : Change) (d : Database)
    → change now k c (connected d) ≡ outcome k (target c) (changed now c) d (find (has_id k) d.jobs)
unfolding change set_running set_completed set_failed set_abandoned
change-outcome now k (to_running p c) d =
    set_status_lem k running (as_running now p c) d (changed-id now (to_running p c))
change-outcome now k (to_completed keys r) d =
    set_status_lem k completed (as_completed now keys r) d (changed-id now (to_completed keys r))
change-outcome now k (to_failed e m) d =
    set_status_lem k JobStatus.failed (as_failed now e m) d (changed-id now (to_failed e m))
change-outcome now k (to_abandoned e) d =
    set_status_lem k abandoned (as_abandoned now e) d (changed-id now (to_abandoned e))

pub data JobOp : Type 0 where
  create : NewJob → JobOp
  change_to : String → Change → JobOp
  fetched initial_delivered delivered disconnected handed_over : String → JobOp
  delivery : String → WebhookDeliveryStatus → JobOp

-- The store after the operation, which may have raised.
unfoldable pub apply : ℕ → JobOp → JobStore → JobStore
apply now (create a) s = (create_queued now a s).1
apply now (change_to k c) s = (change now k c s).1
apply now (fetched k) s = (set_fetched now k s).1
apply now (initial_delivered k) s = (mark_initial_response_delivered now k s).1
apply now (delivered k) s = (mark_response_delivered now k s).1
apply now (disconnected k) s = (mark_async_with_handover now k s).1
apply now (handed_over k) s = (mark_handover now k s).1
apply now (delivery k w) s = (set_webhook_delivery_status now k w s).1

-- A history of timed operations.
unfoldable pub run : List (ℕ × JobOp) → JobStore → JobStore
run [] s = s
run ((now, op) ∷ ops) s = run ops (apply now op s)
