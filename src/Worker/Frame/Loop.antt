-- ===== src/Worker/Frame/Loop.antt =====
-- app/queue/worker.py: the loop over the jobs that wait in the queue.
use local_image_generator_se.Common.{
  ◌≡◌, refl, ap, ◌∙◌, List, [], ◌∷◌, All, str_eq, false, inl, inr,
}
use local_image_generator_se.Schema.{Job, queued}
use local_image_generator_se.Worker.Backend.{
  Answer, returned, raised, Worker, JobResult, World, after, give, ◌>>=◌,
}
use local_image_generator_se.Worker.Pipeline.{process_one, run}
use local_image_generator_se.Worker.Verdict.{Verdict, process_one-Settles}
use local_image_generator_se.Worker.Frame.Others.{Unlike, Queued, Verdicts, run-At, process_one-At}

process_one-Queued :
    (world : World) (job : Job) (items : List (World × Job)) (w w' : Worker) (a : Answer JobResult)
    → All (λ p. str_eq job.id p.1.id ≡ false) items
    → process_one world job w ≡ (returned a, w')
    → Queued items w
    → Queued items w'
process_one-Queued world job [] w w' a n e q = tt
process_one-Queued world job ((v, next) ∷ items) w w' a n e (u, m, h, q) = (
  u,
  m,
  process_one-At world job next.id queued w w' a n.0 e h,
  process_one-Queued world job items w w' a n.1 e q,
)

run-Verdict :
    (world : World) (job : Job) (a : Answer JobResult) (items : List (World × Job)) (w w' : Worker)
    (answers : List (Answer JobResult))
    → Unlike job.id items
    → run items w ≡ (returned answers, w')
    → Verdict world job a w
    → Verdict world job a w'
run-Verdict world job (returned r) items w w' as' u e h = run-At job.id _ items w w' as' u e h
run-Verdict world job (raised x) items w w' as' u e (inl h) =
    inl (run-At job.id _ items w w' as' u e h)
run-Verdict world job (raised x) items w w' as' u e (inr (inl h, r, n)) =
    inr (inl (run-At job.id _ items w w' as' u e h), r, n)
run-Verdict world job (raised x) items w w' as' u e (inr (inr h, r, n)) =
    inr (inr (run-At job.id _ items w w' as' u e h), r, n)

-- The loop takes every job of a queue whose jobs have different ids and queued rows, whatever the
-- calls of the jobs answer, and gives one answer for each. When it has taken them all, the row of
-- each job is the one that its own answer tells: completed for a result, and for an exception failed,
-- or still queued or running where no step records the exception.
pub run-Settles :
    (items : List (World × Job)) (w : Worker)
    → Queued items w
    → (answers : List (Answer JobResult)) × (w' : Worker) × (run items w ≡ (returned answers, w'))
      × Verdicts items answers w'
unfolding run
run-Settles [] w q = ([], w, refl, tt)
run-Settles ((world, job) ∷ items) w (u, n, h, q) =
    let (a, w1, e, v) = process_one-Settles world job w h in
    let (answers, w2, f, vs) =
      run-Settles items w1 (process_one-Queued world job items w w1 a n e q) in
    (
      a ∷ answers,
      w2,
      ap (after (λ b. run items >>= λ rest. give (b ∷ rest))) e
          ∙ ap (after (λ rest. give (a ∷ rest))) f,
      (run-Verdict world job a items w1 w2 answers u f v, vs),
    )
