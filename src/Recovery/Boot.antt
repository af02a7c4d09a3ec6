-- ===== src/Recovery/Boot.antt =====
-- app/queue/recovery.py: the rounds of the loop that recovers jobs at boot.
pub mod Complete
use mathlib.Core.Option
use mathlib.Core.List.{append_assoc}
use local_image_generator_se.Common.{
  ℕ, suc, ◌+◌, String, ◌≡◌, refl, sym, ap, ◌∙◌, Bool, true, false, ◌&&◌, Option, none, some, List,
  [], ◌∷◌, ◌++◌, ◌≢◌, arith, str_eq, eq_iff, eq_refl, if◌then◌else◌, All, All-at, In, length,
  Option-cases, Bool-cases, inl, inr, ◌⊎◌,
}
use local_image_generator_se.Common.Keys.{
  Distinct, keyed, Distinct-select, Distinct-order_by, find-In,
}
use local_image_generator_se.Common.Table.{
  select, find, set_where, update, order_by, by, find-update, find_sound,
}
use local_image_generator_se.Schema.{
  Database, Job, JobStatus, queued, running, completed, abandoned,
}
use local_image_generator_se.Store.{Result, ok, err, connected, ◌>>=◌, ◌>>◌, pure}
use local_image_generator_se.Jobs.Transitions.{
  has_id, update_job, allowed_transitions, as_failed, set_failed,
}
use local_image_generator_se.Jobs.Flags.{active, mark_handover, scan_non_terminal}
use local_image_generator_se.Jobs.Operations.{
  Change, to_failed, change, change-outcome, find-update_job,
}
use local_image_generator_se.Recovery.{
  Recovered, clock_after, fail_running, recover_one, recover_loop, recover_jobs,
}

abbrev pub job_id : Job → String
job_id j = j.id

-- What recovery makes of a row, by its status before.
abbrev BecameFrom : JobStatus → Job → Job → Type 0
BecameFrom running j j' =
    (j'.status ≡ JobStatus.failed)
    × (j'.error_code ≡ some "service_restarted")
    × (j'.webhook_handover ≡ true)
BecameFrom _ j j' = j' ≡ j

abbrev pub Became : Job → Job → Type 0
Became j j' = BecameFrom j.status j j'

handed_over : ℕ → Job → Job
handed_over now j = record j { webhook_handover = true; updated_at = now }

failed_row : ℕ → Job → Job
failed_row now = as_failed now "service_restarted" "process restart mid-generation"

-- The table after `fail_running`.
after_fail : (ℕ → ℕ) → Job → Database → Database
after_fail clock j d =
    update_job j.id (handed_over (clock 1)) (update_job j.id (failed_row (clock 0)) d)

set_failed_lem :
    (now : ℕ) (j : Job) (d : Database)
    → find (has_id j.id) d.jobs ≡ some j
    → j.status ≡ running
    → set_failed now j.id "service_restarted" "process restart mid-generation" (connected d)
      ≡ (ok (failed_row now j), connected (update_job j.id (failed_row now) d))
unfolding change allowed_transitions failed_row
set_failed_lem now j d e s =
    change-outcome now j.id (to_failed "service_restarted" "process restart mid-generation") d
    ∙ ground (arith, e, s)

fail_running_lem :
    (clock : ℕ → ℕ) (j : Job) (d : Database)
    → find (has_id j.id) d.jobs ≡ some j
    → j.status ≡ running
    → fail_running clock j (connected d) ≡ (ok tt, connected (after_fail clock j d))
unfolding fail_running mark_handover after_fail handed_over
fail_running_lem clock j d e s = rw (set_failed_lem (clock 0) j d e s)

find-after_fail :
    (clock : ℕ → ℕ) (j : Job) (d : Database) (k : String)
    → find (has_id k) (after_fail clock j d).jobs
      ≡ Option.map
          (λ x.
            set_where
              (has_id j.id)
              (handed_over (clock 1))
              (set_where (has_id j.id) (failed_row (clock 0)) x))
          (find (has_id k) d.jobs)
unfolding after_fail handed_over failed_row as_failed
find-after_fail clock j d k =
    find-update_job j.id k (handed_over (clock 1)) (update_job j.id (failed_row (clock 0)) d)
      (λ x. refl)
    ∙ rw (find-update_job j.id k (failed_row (clock 0)) d (λ x. refl))
        (twice (find (has_id k) d.jobs))
  where
    twice :
        (o : Option Job)
        → Option.map
            (set_where (has_id j.id) (handed_over (clock 1)))
            (Option.map (set_where (has_id j.id) (failed_row (clock 0))) o)
          ≡ Option.map
              (λ x.
                set_where
                  (has_id j.id)
                  (handed_over (clock 1))
                  (set_where (has_id j.id) (failed_row (clock 0)) x))
              o
    twice none = refl
    twice (some x) = refl

-- Another job's row stays.
find-after_fail_ne :
    (clock : ℕ → ℕ) (j : Job) (d : Database) (k : String)
    → str_eq k j.id ≡ false
    → find (has_id k) (after_fail clock j d).jobs ≡ find (has_id k) d.jobs
unfolding set_where
find-after_fail_ne clock j d k h = elim (Option-cases (find (has_id k) d.jobs)) [
  | inl n ↦ rw (find-after_fail clock j d k, n)
  | inr (x, e) ↦ ground (
    arith,
    h,
    find-after_fail clock j d k,
    e,
    eq_iff x.id k,
    (find_sound (has_id k) d.jobs x e).1,
  )
]

find-after_fail_self :
    (clock : ℕ → ℕ) (j : Job) (d : Database)
    → find (has_id j.id) d.jobs ≡ some j
    → find (has_id j.id) (after_fail clock j d).jobs
      ≡ some (handed_over (clock 1) (failed_row (clock 0) j))
unfolding set_where failed_row as_failed
find-after_fail_self clock j d e = ground (arith, find-after_fail clock j d j.id, e, eq_refl j.id)

-- The rows that the loop still has to see are in the table as they were scanned.
abbrev Tracks : Database → List Job → Type 0
Tracks d = All (λ j. find (has_id j.id) d.jobs ≡ some j)

Tracks-after_fail :
    (clock : ℕ → ℕ) (j : Job) (d : Database) (js : List Job)
    → All (λ y. keyed job_id j.id y ≡ false) js
    → Tracks d js
    → Tracks (after_fail clock j d) js
Tracks-after_fail clock j d [] n t = tt
Tracks-after_fail clock j d (x ∷ xs) n t =
    (find-after_fail_ne clock j d x.id n.0 ∙ t.0, Tracks-after_fail clock j d xs n.1 t.1)

abbrev is_queued : Job → Bool
is_queued j = elim j.status [ queued ↦ true | _ ↦ false ]

abbrev is_running : Job → Bool
is_running j = elim j.status [ running ↦ true | _ ↦ false ]

abbrev Absent : String → List Job → Type 0
Absent k = All (λ y. str_eq k y.id ≡ false)

-- What the loop promises for the rows that it is given.
record Done (d : Database) (js : List Job) (r : Recovered) (r' : Recovered) (d' : Database)
    : Type 0 where
  frame : (k : String) → Absent k js → find (has_id k) d'.jobs ≡ find (has_id k) d.jobs
  rows : All (λ j. (j' : Job) × (find (has_id j.id) d'.jobs ≡ some j') × Became j j') js
  queue_lem : r'.queue ≡ r.queue ++ select is_queued js
  requeued_lem : r'.requeued ≡ r.requeued + length (select is_queued js)
  failed_lem : r'.failed_restart ≡ r.failed_restart + length (select is_running js)

abbrev Loop : (ℕ → ℕ) → Recovered → List Job → Database → Type 0
Loop clock r js d =
    (r' : Recovered) × (d' : Database) × (recover_loop clock r js (connected d)
      ≡ (ok r', connected d'))
    × Done d js r r' d'

Absent-of_head : (k : String) (js : List Job) → All (λ y. keyed job_id k y ≡ false) js → Absent k js
Absent-of_head k [] h = tt
Absent-of_head k (x ∷ xs) h =
    (ground (arith, h.0, eq_iff x.id k, eq_iff k x.id), Absent-of_head k xs h.1)

module _ (clock : ℕ → ℕ) (r : Recovered) (j : Job) (js : List Job) (d : Database)
    (here : find (has_id j.id) d.jobs ≡ some j)
    (others : All (λ y. keyed job_id j.id y ≡ false) js) where
  Done-running :
      (r' : Recovered) (d' : Database)
      → j.status ≡ running
      → Done (after_fail clock j d) js (record r { failed_restart = r.failed_restart + 1 }) r' d'
      → Done d (j ∷ js) r r' d'
  unfolding handed_over failed_row as_failed select
  Done-running r' d' s h = record {
    frame = λ k a. h.frame k a.1 ∙ find-after_fail_ne clock j d k a.0;
    rows = (
      (
        handed_over (clock 1) (failed_row (clock 0) j),
        h.frame j.id (Absent-of_head j.id js others) ∙ find-after_fail_self clock j d here,
        ground (arith, s),
      ),
      h.rows,
    );
    queue_lem = ground (arith, s, h.queue_lem);
    requeued_lem = ground (arith, s, h.requeued_lem);
    failed_lem = ground (arith, s, h.failed_lem);
  }

  row_kept :
      (r1 r' : Recovered) (d' : Database)
      → j.status ≢ running
      → Done d js r1 r' d'
      → (j' : Job) × (find (has_id j.id) d'.jobs ≡ some j') × Became j j'
  row_kept r1 r' d' s h =
      (j, h.frame j.id (Absent-of_head j.id js others) ∙ here, ground (arith, s))

  Done-queued :
      (r' : Recovered) (d' : Database)
      → j.status ≡ queued
      → Done d js (record r { queue = r.queue ++ j ∷ []; requeued = r.requeued + 1 }) r' d'
      → Done d (j ∷ js) r r' d'
  unfolding select
  Done-queued r' d' s h = record {
    frame = λ k a. h.frame k a.1;
    rows = (row_kept _ r' d' (λ e. ground (arith, s, e)) h, h.rows);
    queue_lem =
        h.queue_lem ∙ rw (append_assoc r.queue (j ∷ []) (select is_queued js)) (ground (arith, s));
    requeued_lem = ground (arith, s, h.requeued_lem);
    failed_lem = ground (arith, s, h.failed_lem);
  }

  Done-other :
      (r' : Recovered) (d' : Database)
      → j.status ≢ running
      → j.status ≢ queued
      → Done d js r r' d'
      → Done d (j ∷ js) r r' d'
  unfolding select
  Done-other r' d' s q h = record {
    frame = λ k a. h.frame k a.1;
    rows = (row_kept r r' d' s h, h.rows);
    queue_lem = ground (arith, s, q, h.queue_lem);
    requeued_lem = ground (arith, s, q, h.requeued_lem);
    failed_lem = ground (arith, s, q, h.failed_lem);
  }
