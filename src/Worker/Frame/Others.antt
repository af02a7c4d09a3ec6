-- ===== src/Worker/Frame/Others.antt =====
-- app/queue/worker.py: the rows of the other jobs, and the loop over the queue.
use mathlib.Core.Option
use local_image_generator_se.Common.{
  ℕ, String, ◌≡◌, refl, sym, subst, ap, ◌∙◌, true, false, Option, none, some, List, [], ◌∷◌, arith,
  All, str_eq, eq_iff, inl, inr, Bool-cases,
}
use local_image_generator_se.Common.Table.{find, find_sound, set_where}
use local_image_generator_se.Schema.{Database, Job, JobStatus, queued}
use local_image_generator_se.Store.{connected}
use local_image_generator_se.Jobs.Transitions.{has_id, update_job, allowed_transitions}
use local_image_generator_se.Jobs.Operations.{
  Change, change, target, changed, changed-id, outcome, change-outcome, find-update_job,
}
use local_image_generator_se.Worker.Backend.{
  Answer, returned, Worker, JobResult, World, on_store, of_exec, give, ◌>>=◌,
}
use local_image_generator_se.Worker.Row.{Ends, bind-Ends, At}
use local_image_generator_se.Worker.Pipeline.{process_one, run}
use local_image_generator_se.Worker.Verdict.{Verdict}
use local_image_generator_se.Worker.Frame.{Stays, IsFrame}
use local_image_generator_se.Worker.Frame.Whole.{process_one-Kept}

-- What a connected store holds under an id.
abbrev pub RowIs : String → Option Job → Worker → Type 0
RowIs k o w = (d : Database) × (w.store ≡ connected d) × (find (has_id k) d.jobs ≡ o)

module _ (world : World) (job : Job) (k : String) (o : Option Job)
    (other : str_eq job.id k ≡ false) where
  untouched :
      (f : Job → Job) (d : Database) (r : Option Job)
      → find (has_id k) d.jobs ≡ r
      → Option.map (set_where (has_id job.id) f) r ≡ r
  unfolding set_where
  untouched f d none e = refl
  untouched f d (some j) e =
      let found : str_eq j.id k ≡ true = (find_sound (has_id k) d.jobs j e).1 in
      let differs : str_eq j.id job.id ≡ false =
        ground (arith, other, found, eq_iff j.id k, eq_iff j.id job.id, eq_iff job.id k) in
      rw differs refl

  change-RowIs :
      (now : ℕ) (c : Change) (w : Worker)
      → RowIs k o w
      → Stays world job (RowIs k o) (on_store world (change now job.id c) w)
  change-RowIs now c w (d, s, f) =
      subst (λ r. Stays world job (RowIs k o) (of_exec world w r))
        (sym (ap (change now job.id c) s ∙ change-outcome now job.id c d))
        (go (find (has_id job.id) d.jobs))
    where
      go :
          (r : Option Job)
          → Stays world job
              (RowIs k o)
              (of_exec world w (outcome job.id (target c) (changed now c) d r))
      go none = (d, refl, f)
      go (some j) = elim (Bool-cases (allowed_transitions j.status (target c))) [
        | inl t ↦ rw t (
          update_job job.id (changed now c) d,
          refl,
          find-update_job job.id k (changed now c) d (changed-id now c)
              ∙ untouched (changed now c) d (find (has_id k) d.jobs) refl
              ∙ f,
        )
        | inr t ↦ rw t (d, refl, f)
      ]

  RowIs-IsFrame : IsFrame world job (RowIs k o)
  RowIs-IsFrame = ((λ c w i. i), change-RowIs, (λ es w i. i), λ m w i. i)

  pub process_one-RowIs :
      (w : Worker) → RowIs k o w → Stays world job (RowIs k o) (process_one world job w)
  process_one-RowIs w i = process_one-Kept world job (RowIs k o) RowIs-IsFrame w i

abbrev pub Unlike : String → List (World × Job) → Type 0
Unlike k = All (λ p. str_eq p.1.id k ≡ false)

run-RowIs :
    (k : String) (o : Option Job) (items : List (World × Job)) (w : Worker)
    → Unlike k items
    → RowIs k o w
    → Ends (λ _ w'. RowIs k o w') (λ _ w'. RowIs k o w') (run items w)
unfolding run
run-RowIs k o [] w u i = i
run-RowIs k o ((world, job) ∷ items) w u i =
    bind-Ends (λ _ w'. RowIs k o w') (λ _ w'. RowIs k o w') (λ _ w'. RowIs k o w')
      (process_one world job) (λ a. run items >>= λ rest. give (a ∷ rest)) w
      (process_one-RowIs world job k o u.0 w i)
      (λ a w1 i1.
        bind-Ends (λ _ w'. RowIs k o w') (λ _ w'. RowIs k o w') (λ _ w'. RowIs k o w') (run items)
          (λ rest. give (a ∷ rest)) w1 (run-RowIs k o items w1 u.1 i1) (λ _ _ j. j))

-- Later jobs keep the status of a row.
pub run-At :
    (k : String) (s : JobStatus) (items : List (World × Job)) (w w' : Worker)
    (answers : List (Answer JobResult))
    → Unlike k items
    → run items w ≡ (returned answers, w')
    → At k s w
    → At k s w'
run-At k s items w w' answers u e (d, j, c, f, t) =
    let (d', c', f') =
      subst (Ends (λ _ x. RowIs k (some j) x) (λ _ x. RowIs k (some j) x)) e
        (run-RowIs k (some j) items w u (d, c, f)) in
    (d', j, c', f', t)

pub process_one-At :
    (world : World) (job : Job) (k : String) (s : JobStatus) (w w' : Worker) (a : Answer JobResult)
    → str_eq job.id k ≡ false
    → process_one world job w ≡ (returned a, w')
    → At k s w
    → At k s w'
process_one-At world job k s w w' a n e (d, j, c, f, t) =
    let (d', c', f') =
      subst (Stays world job (RowIs k (some j))) e
        (process_one-RowIs world job k (some j) n w (d, c, f)) in
    (d', j, c', f', t)

-- The jobs have different ids, and each has a queued row.
abbrev pub Queued : List (World × Job) → Worker → Type 0
Queued [] w = Unit
Queued ((world, job) ∷ items) w =
    Unlike job.id items
    × All (λ p. str_eq job.id p.1.id ≡ false) items
    × At job.id queued w
    × Queued items w

abbrev pub Verdicts : List (World × Job) → List (Answer JobResult) → Worker → Type 0
Verdicts [] [] w = Unit
Verdicts ((world, job) ∷ items) (a ∷ answers) w = Verdict world job a w × Verdicts items answers w
Verdicts _ _ w = ⊥
