-- ===== src/Recovery/Boot/Complete.antt =====
-- app/queue/recovery.py: `recover_jobs` as a whole.
use local_image_generator_se.Common.{
  ℕ, ◌+◌, ◌≡◌, refl, ap, ◌∙◌, some, List, [], ◌∷◌, ◌++◌, arith, eq_refl, All, All-at, All-of_In, In,
  length, inl, inr, ◌↔◌, str_eq, eq_iff, subst, Bool-cases, true, false,
}
use local_image_generator_se.Common.Keys.{
  Distinct, keyed, Distinct-select, Distinct-order_by, find-In, find_unique,
}
use local_image_generator_se.Common.Table.{
  select, find, order_by, by, order_by-In, select_sound, select_complete, order_by-SortedBy,
  SortedBy, select-SortedBy,
}
use mathlib.Core.List.{append-nil}
use native.Mathlib.Nat.{zero-add}
use local_image_generator_se.Schema.{
  Database, Job, JobStatus, queued, running, completed, abandoned,
}
use local_image_generator_se.Store.{Result, JobStore, ok, connected, ◌>>=◌}
use local_image_generator_se.Jobs.Transitions.{has_id}
use local_image_generator_se.Jobs.Flags.{active, scan_non_terminal}
use local_image_generator_se.Recovery.{
  Recovered, clock_after, recover_one, recover_loop, recover_jobs,
}
use local_image_generator_se.Recovery.Boot.{
  job_id, Became, after_fail, fail_running_lem, Tracks, Tracks-after_fail, is_queued, Done, Loop,
  Absent, Done-running, Done-queued, Done-other,
}

abbrev round :
    (ℕ → ℕ) → Recovered → Job → List Job → Database → JobStatus → Result Recovered × JobStore
round clock r j js d st =
    (recover_one clock r j st >>= λ r'. recover_loop (clock_after clock) r' js) (connected d)

by_status :
    (clock : ℕ → ℕ) (r : Recovered) (j : Job) (js : List Job) (d : Database) (s : JobStatus)
    → j.status ≡ s
    → find (has_id j.id) d.jobs ≡ some j
    → Distinct job_id (j ∷ js)
    → Tracks d js
    → ((r' : Recovered) (d' : Database) → Tracks d' js → Loop (clock_after clock) r' js d')
    → Loop clock r (j ∷ js) d
unfolding recover_loop recover_one
by_status clock r j js d running e here dist seen ih =
    let (r', d', run, h) =
      ih (record r { failed_restart = r.failed_restart + 1 }) (after_fail clock j d)
        (Tracks-after_fail clock j d js dist.0 seen) in
    (
      r',
      d',
      ap (round clock r j js d) e ∙ rw (fail_running_lem clock j d here e) run,
      Done-running clock r j js d here dist.0 r' d' e h,
    )
by_status clock r j js d queued e here dist seen ih =
    let (r', d', run, h) =
      ih (record r { queue = r.queue ++ j ∷ []; requeued = r.requeued + 1 }) d seen in
    (r', d', ap (round clock r j js d) e ∙ run, Done-queued clock r j js d here dist.0 r' d' e h)
by_status clock r j js d completed e here dist seen ih =
    let (r', d', run, h) = ih r d seen in
    (
      r',
      d',
      ap (round clock r j js d) e ∙ run,
      Done-other clock r j js d here dist.0 r' d' (λ q. ground (arith, e, q))
          (λ q. ground (arith, e, q)) h,
    )
by_status clock r j js d JobStatus.failed e here dist seen ih =
    let (r', d', run, h) = ih r d seen in
    (
      r',
      d',
      ap (round clock r j js d) e ∙ run,
      Done-other clock r j js d here dist.0 r' d' (λ q. ground (arith, e, q))
          (λ q. ground (arith, e, q)) h,
    )
by_status clock r j js d abandoned e here dist seen ih =
    let (r', d', run, h) = ih r d seen in
    (
      r',
      d',
      ap (round clock r j js d) e ∙ run,
      Done-other clock r j js d here dist.0 r' d' (λ q. ground (arith, e, q))
          (λ q. ground (arith, e, q)) h,
    )

loop_lem :
    (clock : ℕ → ℕ) (r : Recovered) (js : List Job) (d : Database)
    → Distinct job_id js
    → Tracks d js
    → Loop clock r js d
unfolding recover_loop select
loop_lem clock r [] d dist seen = (
  r,
  d,
  refl,
  record {
    frame = λ k a. refl;
    rows = tt;
    queue_lem = rw (append-nil r.queue);
    requeued_lem = omega arith;
    failed_lem = omega arith;
  },
)
loop_lem clock r (j ∷ js) d dist seen =
    by_status clock r j js d j.status refl seen.0 dist seen.1
      λ r' d' t. loop_lem (clock_after clock) r' js d' dist.1 t

tracked :
    (d : Database) (js : List Job)
    → ((j : Job) → In j js → In j d.jobs)
    → Distinct job_id d.jobs
    → Tracks d js
tracked d js h u =
    All-of_In (λ j. find (has_id j.id) d.jobs ≡ some j) js λ j i. find-In job_id d.jobs j u (h j i)

abbrev scanned : Database → List Job
scanned d = order_by (by (λ j. j.created_at)) (select active d.jobs)

abbrev fresh : List Job → Recovered
fresh queue = record { requeued = 0; failed_restart = 0; queue = queue }

scanned-Distinct : (d : Database) → Distinct job_id d.jobs → Distinct job_id (scanned d)
scanned-Distinct d u =
    Distinct-order_by job_id _ (select active d.jobs) (Distinct-select job_id active d.jobs u)

scanned-In : (d : Database) (j : Job) → In j (scanned d) ↔ (In j d.jobs × (active j ≡ true))
scanned-In d j = (
  λ i. select_sound active d.jobs j ((order_by-In _ (select active d.jobs) j).0 i),
  λ h. (order_by-In _ (select active d.jobs) j).1 (select_complete active d.jobs j h.0 h.1),
)

waiting-In :
    (d : Database) (j : Job)
    → In j (select is_queued (scanned d)) ↔ (In j d.jobs × (j.status ≡ queued))
waiting-In d j = (
  λ i.
      let (a, q) = select_sound is_queued (scanned d) j i in
      (((scanned-In d j).0 a).0, ground arith),
  λ h.
      select_complete is_queued (scanned d) j ((scanned-In d j).1 (h.0, ground (arith, h.1)))
        (ground (arith, h.1)),
)

-- The scan has no row with the id of a row that is not active.
passed_over :
    (d : Database) (j : Job) (js : List Job)
    → Distinct job_id d.jobs
    → In j d.jobs
    → active j ≡ false
    → All (λ x. In x d.jobs × (active x ≡ true)) js
    → Absent j.id js
passed_over d j [] u i n a = tt
passed_over d j (x ∷ xs) u i n a = (
  elim (Bool-cases (str_eq j.id x.id)) [
    | inr f ↦ f
    | inl t ↦
        let same : j ≡ x =
          find_unique job_id x.id d.jobs j x u
            (subst (λ k. find (keyed job_id k) d.jobs ≡ some j) ((eq_iff j.id x.id).0 t)
              (find-In job_id d.jobs j u i))
            a.0.0 (eq_refl x.id) in
        absurd (ground (arith, same, n, a.0.1))
  ],
  passed_over d j xs u i n a.1,
)

each_row :
    (d d' : Database) (r : Recovered) (queue : List Job) (j : Job)
    → Distinct job_id d.jobs
    → In j d.jobs
    → Done d (scanned d) (fresh queue) r d'
    → (j' : Job) × (find (has_id j.id) d'.jobs ≡ some j') × Became j j'
each_row d d' r queue j u i h = elim (Bool-cases (active j)) [
  | inl t ↦
      All-at (λ j. (j' : Job) × (find (has_id j.id) d'.jobs ≡ some j') × Became j j') j (scanned d)
        h.rows ((scanned-In d j).1 (i, t))
  | inr f ↦ (
    j,
    h.frame j.id (
          passed_over d j (scanned d) u i f (All-of_In _ (scanned d) (λ x k. (scanned-In d x).0 k)))
        ∙ find-In job_id d.jobs j u i,
    ground (arith, f),
  )
]

-- Recovery at boot over a table with distinct ids. It ends with no error. Each row is found again:
-- a running one failed, with the code service_restarted and the handover set, any other as it was.
-- The queue has got the queued rows at its end, the oldest first, and their number is reported.
pub recover_jobs_lem :
    (clock : ℕ → ℕ) (queue : List Job) (d : Database)
    → Distinct job_id d.jobs
    → (r : Recovered) × (d' : Database) × (recover_jobs clock queue (connected d)
        ≡ (ok r, connected d'))
      × All (λ j. (j' : Job) × (find (has_id j.id) d'.jobs ≡ some j') × Became j j') d.jobs
      × (waiting : List Job) × (r.queue ≡ queue ++ waiting)
      × (r.requeued ≡ length waiting)
      × ((j : Job) → In j waiting ↔ (In j d.jobs × (j.status ≡ queued)))
      × SortedBy (λ j. j.created_at) waiting
unfolding recover_jobs scan_non_terminal
recover_jobs_lem clock queue d u =
    let js = scanned d in
    let (r, d', run, h) =
      loop_lem clock (fresh queue) js d (scanned-Distinct d u)
        (tracked d js (λ j i. ((scanned-In d j).0 i).0) u) in
    (
      r,
      d',
      run,
      All-of_In _ d.jobs (λ j i. each_row d d' r queue j u i h),
      select is_queued js,
      h.queue_lem,
      h.requeued_lem ∙ zero-add _,
      λ j. waiting-In d j,
      select-SortedBy (λ j. j.created_at) is_queued js
          (order_by-SortedBy (λ j. j.created_at) (select active d.jobs)),
    )
