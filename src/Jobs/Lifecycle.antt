-- ===== src/Jobs/Lifecycle.antt =====
-- app/queue/jobs.py: histories of one job under the operations of the module.
use mathlib.Core.Option
use local_image_generator_se.Common.{
  ℕ, String, ◌≡◌, refl, sym, Bool, true, Option, none, some, List, [], ◌∷◌, ◌++◌, arith, eq_iff,
  Option-cases, Bool-cases, ◌⊎◌, inl, inr, ◌∙◌, subst,
}
use local_image_generator_se.Common.Table.{
  find, set_where, update, find-update, find_sound, find-append,
}
use local_image_generator_se.Schema.{Database, Job, JobStatus}
use local_image_generator_se.Store.{JobStore, connected}
use local_image_generator_se.Jobs.Transitions.{
  NewJob, allowed_transitions, has_id, update_job, as_pending, queued_row, create_queued,
}
use local_image_generator_se.Jobs.Flags.{
  set_fetched, mark_initial_response_delivered, mark_response_delivered, mark_async_with_handover,
  mark_handover, set_webhook_delivery_status, is_terminal,
}
use local_image_generator_se.Jobs.Operations.{
  Change, change, target, changed, changed-id, changed-status, change-outcome, find-update_job,
  JobOp, create, change_to, fetched, apply, run,
}

abbrev status_of : Database → String → Option JobStatus
status_of d k = Option.map (λ (j : Job). j.status) (find (has_id k) d.jobs)

abbrev status_on : Option Database → String → Option JobStatus
status_on none k = none
status_on (some d) k = status_of d k

-- The status of the job with this id, in a connected store that has one.
abbrev pub status_in : JobStore → String → Option JobStatus
status_in s k = status_on s.conn k

-- The paths of the transition table.
pub data Trail : JobStatus → JobStatus → Type 0 where
  stay : {a : JobStatus} → Trail a a
  move : {a b c : JobStatus} → Trail a b → allowed_transitions b c ≡ true → Trail a c

abbrev After : Option JobStatus → JobStatus → Type 0
After o a = (b : JobStatus) × (o ≡ some b) × ((a ≡ b) ⊎ (allowed_transitions a b ≡ true))

same : (o : Option JobStatus) (a : JobStatus) → o ≡ some a → After o a
same o a e = (a, e, inl refl)

-- A flag update keeps the id and the status of every row.
flags-After :
    (d : Database) (p : Job → Bool) (f : Job → Job) (k : String) (a : JobStatus)
    → ((j : Job) → (f j).id ≡ j.id)
    → ((j : Job) → (f j).status ≡ j.status)
    → status_of d k ≡ some a
    → After (status_of (record d { jobs = update p f d.jobs }) k) a
unfolding set_where
flags-After d p f k a hi hs e = elim (Option-cases (find (has_id k) d.jobs)) [
  | inl n ↦ ground (arith, e, n)
  | inr (j, q) ↦
      (a, ground (arith, e, q, find-update (has_id k) p f d.jobs (λ x. rw (hi x)), hs j), inl refl)
]

moved-After :
    (now : ℕ) (c : Change) (d : Database) (i k : String) (j x : Job)
    → find (has_id i) d.jobs ≡ some j
    → allowed_transitions j.status (target c) ≡ true
    → find (has_id k) d.jobs ≡ some x
    → After (status_of (update_job i (changed now c) d) k) x.status
unfolding set_where
moved-After now c d i k j x q t e = elim (Bool-cases (has_id i x)) [
  | inr f ↦ (
    x.status,
    ground (arith, e, f, find-update_job i k (changed now c) d (changed-id now c)),
    inl refl,
  )
  | inl h ↦
      let same_key : i ≡ k =
        sym ((eq_iff x.id i).0 h) ∙ (eq_iff x.id k).0 (find_sound (has_id k) d.jobs x e).1 in
      let same_row : j ≡ x = ground (arith, q, e, same_key) in
      (
        target c,
        ground (
          arith,
          e,
          h,
          changed-status now c x,
          find-update_job i k (changed now c) d (changed-id now c),
        ),
        inr (rw (← same_row) t),
      )
]

change-After :
    (now : ℕ) (c : Change) (d : Database) (i k : String) (a : JobStatus)
    → status_of d k ≡ some a
    → After (status_in (change now i c (connected d)).1 k) a
change-After now c d i k a e = elim (Option-cases (find (has_id i) d.jobs)) [
  | inl n ↦ rw (change-outcome now i c d, n) (same (status_of d k) a e)
  | inr (j, q) ↦
      rw (change-outcome now i c d, q)
        (elim (Bool-cases (allowed_transitions j.status (target c))) [
          | inr f ↦ rw f (same (status_of d k) a e)
          | inl t ↦ rw t (elim (Option-cases (find (has_id k) d.jobs)) [
            | inl n ↦ absurd (ground (arith, e, n))
            | inr (x, r) ↦
                let st : x.status ≡ a = ground (arith, e, r) in
                rw st at (moved-After now c d i k j x q t r)
          ])
        ])
]

create-After :
    (now : ℕ) (n : NewJob) (d : Database) (k : String) (a : JobStatus)
    → status_of d k ≡ some a
    → After (status_in (create_queued now n (connected d)).1 k) a
unfolding create_queued set_where
create-After now n d k a e = elim (Option-cases (find (has_id k) d.jobs)) [
  | inl q ↦ absurd (ground (arith, e, q))
  | inr (x, r) ↦ (
    a,
    ground (
      arith,
      e,
      r,
      find-append (has_id k) d.jobs (queued_row now n ∷ []) x r,
      find-update (has_id k) (has_id n.job_id) as_pending (d.jobs ++ queued_row now n ∷ [])
          (λ y. refl),
    ),
    inl refl,
  )
]

-- One operation leaves the status of a job as it was, or takes one step of the table.
apply_on-After :
    (now : ℕ) (op : JobOp) (c : Option Database) (k : String) (a : JobStatus)
    → status_on c k ≡ some a
    → After (status_in (apply now op (record { conn = c })) k) a
unfolding apply set_fetched mark_initial_response_delivered mark_response_delivered
    mark_async_with_handover mark_handover set_webhook_delivery_status
apply_on-After now op none k a e = cc
apply_on-After now (create n) (some d) k a e = create-After now n d k a e
apply_on-After now (change_to i c) (some d) k a e = change-After now c d i k a e
apply_on-After now (fetched i) (some d) k a e = flags-After d _ _ k a (λ j. refl) (λ j. refl) e
apply_on-After now _ (some d) k a e = flags-After d _ _ k a (λ j. refl) (λ j. refl) e

-- One operation leaves the status of a job as it was, or takes one step of the table.
pub apply-After :
    (now : ℕ) (op : JobOp) (s : JobStore) (k : String) (a : JobStatus)
    → status_in s k ≡ some a
    → After (status_in (apply now op s) k) a
apply-After now op s k a e = apply_on-After now op s.conn k a e

Trail-join : {a b c : JobStatus} → Trail a b → Trail b c → Trail a c
Trail-join p stay = p
Trail-join p (move q h) = move (Trail-join p q) h

Trail-After : {a b : JobStatus} → (a ≡ b) ⊎ (allowed_transitions a b ≡ true) → Trail a b
Trail-After {a} (inl e) = subst (Trail a) e stay
Trail-After (inr h) = move stay h

-- Over any history of operations, raised or not, the status of a job moves along the table.
pub run-Trail :
    (ops : List (ℕ × JobOp)) (s : JobStore) (k : String) (a : JobStatus)
    → status_in s k ≡ some a
    → (b : JobStatus) × (status_in (run ops s) k ≡ some b) × Trail a b
unfolding run
run-Trail [] s k a e = (a, e, stay)
run-Trail ((now, op) ∷ ops) s k a e =
    let (b, q, m) = apply-After now op s k a e in
    let (c, r, t) = run-Trail ops (apply now op s) k b q in (c, r, Trail-join (Trail-After m) t)

terminal-stuck : (a b : JobStatus) → is_terminal a ≡ true → allowed_transitions a b ≡ true → ⊥
unfolding allowed_transitions
terminal-stuck a b t h = ground arith

Trail-terminal : {a b : JobStatus} → Trail a b → is_terminal a ≡ true → a ≡ b
Trail-terminal stay t = refl
Trail-terminal {a} {b} (move {b = m} p h) t =
    let e = Trail-terminal p t in
    absurd (terminal-stuck m b (subst (λ x. is_terminal x ≡ true) e t) h)

-- A job that is completed, failed or abandoned keeps that status over any history of operations.
pub run-terminal :
    (ops : List (ℕ × JobOp)) (s : JobStore) (k : String) (a : JobStatus)
    → status_in s k ≡ some a
    → is_terminal a ≡ true
    → status_in (run ops s) k ≡ some a
run-terminal ops s k a e t = let (b, q, p) = run-Trail ops s k a e in rw (Trail-terminal p t) q
