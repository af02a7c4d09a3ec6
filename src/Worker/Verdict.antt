-- ===== src/Worker/Verdict.antt =====
-- app/queue/worker.py: the row, and the answer to the caller, when `_process_one` has ended.
use local_image_generator_se.Common.{String, ◌≡◌, refl, true, false, arith, inl, inr, ◌⊎◌}
use local_image_generator_se.Schema.{Job, JobStatus, queued, running, completed}
use local_image_generator_se.Jobs.Transitions.{allowed_transitions}
use local_image_generator_se.Jobs.Operations.{change, to_failed}
use local_image_generator_se.Worker.Backend.{
  Raised, comfy_unreachable, comfy_node, comfy_timeout, storage_error, other, Answer, returned,
  raised, Worker, JobResult, World, on_store, after,
}
use local_image_generator_se.Worker.Row.{Ends, At, change-At}
use local_image_generator_se.Worker.Settled.{is_other, Unrecorded}
use local_image_generator_se.Worker.Pipeline.{note_failed, conclude, process_one, concluded}
use local_image_generator_se.Worker.Completed.{Finished, OpenOrFailed, run_pipeline-Ends}

module _ (world : World) (job : Job) where
  -- The status of the row, by what the caller is given.
  abbrev pub Verdict : Answer JobResult → Worker → Type 0
  Verdict (returned result) w = At job.id completed w
  Verdict (raised e) w =
      At job.id JobStatus.failed w
      ⊎ ((At job.id queued w ⊎ At job.id running w) × Unrecorded world e × (is_other e ≡ false))

  abbrev Settles : Answer (Answer JobResult) × Worker → Type 0
  Settles r = (a : Answer JobResult) × (w' : Worker) × (r ≡ (returned a, w')) × Verdict a w'

  internal :
      (m : String) (a : JobStatus) (w : Worker)
      → At job.id a w
      → allowed_transitions a JobStatus.failed ≡ true
      → Settles (conclude world job (raised (other m)) w)
  unfolding change
  internal m a w h t =
      go (on_store world (change (world.clock 2) job.id (to_failed "internal" m)) w)
        (change-At world (world.clock 2) job.id (to_failed "internal" m) a w h t)
    where
      go :
          (r : Answer Job × Worker)
          → Ends (λ _ w'. At job.id JobStatus.failed w') (λ _ _. ⊥) r
          → Settles (after (λ _. note_failed "internal" (other m)) r)
      go (returned j, w') p = (raised (other m), _, refl, inl p)
      go (raised e, w') p = absurd p

  backend :
      (e : Raised) (w : Worker)
      → is_other e ≡ false
      → OpenOrFailed world job e w
      → Verdict (raised e) w
  backend e w q (inl (p, n)) = inl p
  backend e w q (inr (p, u)) = inr (p, u, q)

  concluded-Settles :
      (r : Answer JobResult × Worker)
      → Ends (Finished world job) (OpenOrFailed world job) r
      → Settles (concluded world job r)
  unfolding allowed_transitions
  concluded-Settles (returned result, w) h = (returned result, _, refl, h)
  concluded-Settles (raised (other m), w) (inl (p, q)) = absurd (ground (arith, q))
  concluded-Settles (raised (other m), w) (inr (inl p, u)) = internal m queued w p refl
  concluded-Settles (raised (other m), w) (inr (inr p, u)) = internal m running w p refl
  concluded-Settles (raised (comfy_unreachable m), w) h =
      (raised (comfy_unreachable m), _, refl, backend _ w refl h)
  concluded-Settles (raised (comfy_node m), w) h =
      (raised (comfy_node m), _, refl, backend _ w refl h)
  concluded-Settles (raised (comfy_timeout m), w) h =
      (raised (comfy_timeout m), _, refl, backend _ w refl h)
  concluded-Settles (raised (storage_error m), w) h =
      (raised (storage_error m), _, refl, backend _ w refl h)

-- Processing a job whose row is queued, on a connected store, raises nothing itself, so the loop
-- goes on. A caller that is given a result finds the row completed. A caller that is given an
-- exception finds it failed, but for the exceptions that no step records: of unloading the models,
-- or of another call when they are outside the classes that its step handles. Then the row is still
-- queued or running, and the exception is one of the backend or of the storage.
pub process_one-Settles :
    (world : World) (job : Job) (w : Worker)
    → At job.id queued w
    → (a : Answer JobResult) × (w' : Worker) × (process_one world job w ≡ (returned a, w'))
      × Verdict world job a w'
unfolding process_one
process_one-Settles world job w h = concluded-Settles world job _ (run_pipeline-Ends world job w h)
