-- ===== src/Worker/Row.antt =====
-- app/queue/worker.py: the row of the job while the steps run.
use local_image_generator_se.Common.{ℕ, String, ◌≡◌, refl, sym, subst, ap, ◌∙◌, true, some}
use local_image_generator_se.Common.Table.{find}
use local_image_generator_se.Schema.{Database, Job, JobStatus}
use local_image_generator_se.Store.{connected, ok}
use local_image_generator_se.Jobs.Transitions.{has_id, update_job, allowed_transitions}
use local_image_generator_se.Jobs.Operations.{
  Change, to_failed, change, target, changed, changed-id, changed-status, change-outcome, outcome,
  find-update_self,
}
use local_image_generator_se.Worker.Backend.{
  Raised, Answer, returned, raised, Worker, World, Work, fail, fail_unmetered, on_store, of_exec,
  after, handled, ◌>>=◌,
}

-- What holds of an answer and of the worker after it.
abbrev pub Ends :
    {A : Type 0} → (A → Worker → Type 0) → (Raised → Worker → Type 0) → Answer A × Worker → Type 0
Ends P Q (returned a, w) = P a w
Ends P Q (raised e, w) = Q e w

module _ {A B : Type 0} (P : A → Worker → Type 0) (R : B → Worker → Type 0)
    (Q : Raised → Worker → Type 0) where
  bound-Ends :
      (f : A → Work B) (r : Answer A × Worker)
      → Ends P Q r
      → ((a : A) (w' : Worker) → P a w' → Ends R Q (f a w'))
      → Ends R Q (after f r)
  bound-Ends f (returned a, w') h k = k a w' h
  bound-Ends f (raised e, w') h k = h

  pub bind-Ends :
      (m : Work A) (f : A → Work B) (w : Worker)
      → Ends P Q (m w)
      → ((a : A) (w' : Worker) → P a w' → Ends R Q (f a w'))
      → Ends R Q ((m >>= f) w)
  bind-Ends m f w h k = bound-Ends f (m w) h k

pub handled-Ends :
    {A : Type 0} (P : A → Worker → Type 0) (Q S : Raised → Worker → Type 0) (h : Raised → Work A)
    → (r : Answer A × Worker) → Ends P Q r
    → ((e : Raised) (w' : Worker) → Q e w' → Ends P S (h e w'))
    → Ends P S (handled h r)
handled-Ends P Q S h (returned a, w') p k = p
handled-Ends P Q S h (raised e, w') p k = k e w' p

-- The store is connected, and its row of this job has this status.
abbrev pub At : String → JobStatus → Worker → Type 0
At k s w =
    (d : Database) × (j : Job) × (w.store ≡ connected d)
    × (find (has_id k) d.jobs ≡ some j)
    × (j.status ≡ s)

-- A status change that the transition table allows ends with the row changed.
pub change-At :
    (world : World) (now : ℕ) (k : String) (c : Change) (a : JobStatus) (w : Worker)
    → At k a w
    → allowed_transitions a (target c) ≡ true
    → Ends (λ _ w'. At k (target c) w') (λ _ _. ⊥) (on_store world (change now k c) w)
change-At world now k c a w (d, j, s, f, e) ok' =
    let t : allowed_transitions j.status (target c) ≡ true =
      ap (λ x. allowed_transitions x (target c)) e ∙ ok' in
    let allowed : outcome k (target c) (changed now c) d (find (has_id k) d.jobs)
        ≡ (ok (changed now c j), connected (update_job k (changed now c) d)) =
      rw (f, t) refl in
    subst (λ r. Ends (λ _ w'. At k (target c) w') (λ _ _. ⊥) (of_exec world w r))
      (sym (ap (change now k c) s ∙ change-outcome now k c d ∙ allowed))
      (
        update_job k (changed now c) d,
        changed now c j,
        refl,
        find-update_self k (changed now c) d j (changed-id now c) f,
        changed-status now c j,
      )

-- Where a change ends badly for nobody, it ends badly for any postcondition.
pub weaken-Ends :
    {A : Type 0} (P S : A → Worker → Type 0) (Q T : Raised → Worker → Type 0)
    (r : Answer A × Worker)
    → Ends P Q r
    → ((a : A) (w : Worker) → P a w → S a w)
    → ((e : Raised) (w : Worker) → Q e w → T e w)
    → Ends S T r
weaken-Ends P S Q T (returned a, w) h p q = p a w h
weaken-Ends P S Q T (raised e, w) h p q = q e w h

-- `fail` records the failure and raises the exception that it is given.
pub fail-At :
    {A : Type 0} (P : A → Worker → Type 0) (world : World) (job : Job) (code message : String)
    (e : Raised) (a : JobStatus) (w : Worker)
    → At job.id a w
    → allowed_transitions a JobStatus.failed ≡ true
    → Ends P (λ e' w'. (e' ≡ e) × At job.id JobStatus.failed w') (fail world job code message e w)
unfolding fail change
fail-At P world job code message e a w h t =
    bind-Ends (λ _ w'. At job.id JobStatus.failed w') P
      (λ e' w'. (e' ≡ e) × At job.id JobStatus.failed w')
      (on_store world (change (world.clock 1) job.id (to_failed code message))) _ w
      (weaken-Ends (λ _ w'. At job.id JobStatus.failed w') (λ _ w'. At job.id JobStatus.failed w')
        (λ _ _. ⊥) _ _ (change-At world (world.clock 1) job.id (to_failed code message) a w h t)
        (λ _ _ p. p) (λ _ _ p. absurd p))
      (λ _ w' p. (refl, p))

-- So does `fail_unmetered`.
pub fail_unmetered-At :
    {A : Type 0} (P : A → Worker → Type 0) (world : World) (job : Job) (code message : String)
    (e : Raised) (a : JobStatus) (w : Worker)
    → At job.id a w
    → allowed_transitions a JobStatus.failed ≡ true
    → Ends P
        (λ e' w'. (e' ≡ e) × At job.id JobStatus.failed w')
        (fail_unmetered world job code message e w)
unfolding fail_unmetered change
fail_unmetered-At P world job code message e a w h t =
    bind-Ends (λ _ w'. At job.id JobStatus.failed w') P
      (λ e' w'. (e' ≡ e) × At job.id JobStatus.failed w')
      (on_store world (change (world.clock 1) job.id (to_failed code message))) _ w
      (weaken-Ends (λ _ w'. At job.id JobStatus.failed w') (λ _ w'. At job.id JobStatus.failed w')
        (λ _ _. ⊥) _ _ (change-At world (world.clock 1) job.id (to_failed code message) a w h t)
        (λ _ _ p. p) (λ _ _ p. absurd p))
      (λ _ w' p. (refl, p))
