-- ===== src/Worker/Outputs.antt =====
-- app/queue/worker.py: the stages of `_run_pipeline` from the submitted prompt on.
use local_image_generator_se.Common.{
  ℕ, String, ◌≡◌, refl, Bool, true, false, List, [], ◌∷◌, inl, inr, Bool-cases, suc, none,
  if◌then◌else◌,
}
use local_image_generator_se.Common.Text.{starts_with}
use local_image_generator_se.Schema.{Job, queued, running}
use local_image_generator_se.Jobs.Transitions.{allowed_transitions}
use local_image_generator_se.Jobs.Operations.{change, to_running}
use local_image_generator_se.Worker.Backend.{
  Bytes, Raised, comfy_unreachable, comfy_node, comfy_timeout, storage_error, other, Answer,
  returned, raised, wait_for_completion, fetch_outputs, upload_png, Worker, World, fail, call,
  attempt, on_store, record_job_event, give, ◌>>=◌,
}
use local_image_generator_se.Worker.Row.{Ends, bind-Ends, handled-Ends, At, change-At}
use local_image_generator_se.Worker.Settled.{
  is_unreachable, is_other, Unrecorded, waiting, fetching, storing, uncaught, Lost, Keeps,
  fail-Lost, on_unreachable-Lost, called-Keeps,
}
use local_image_generator_se.Worker.Steps.{
  on_unreachable, untracked, track, on_wait_error, wait, not_empty, fetch,
}
use local_image_generator_se.Worker.Pipeline.{
  png_magic, made_transparent, check_image, check_images, upload_all,
}
use local_image_generator_se.Worker.Finish.{on_storage_error}

module _ (world : World) (job : Job) where
  abbrev pub Busy : {A : Type 0} → A → Worker → Type 0
  Busy _ w = At job.id running w

  -- A queued row can be set running, so the prompt is tracked.
  pub track-running :
      (prompt_id : String) (w : Worker)
      → At job.id queued w
      → Ends (λ _ w'. At job.id running w') (λ _ _. ⊥) (track world job prompt_id w)
  unfolding track change allowed_transitions
  track-running prompt_id w h =
      handled-Ends Busy (λ _ _. ⊥) (λ _ _. ⊥) (untracked prompt_id) _
        (bind-Ends Busy Busy (λ _ _. ⊥)
          (on_store world (change (world.clock 0) job.id (to_running prompt_id world.client_id)))
          (λ _. record_job_event "running" none) w
          (change-At world (world.clock 0) job.id (to_running prompt_id world.client_id) queued w h
            refl)
          (λ _ w' p. p))
        (λ _ _ p. absurd p)

  abbrev pub Ran : {A : Type 0} → Answer A × Worker → Type 0
  Ran = Keeps world job running

  abbrev pub LostRunning : Raised → Worker → Type 0
  LostRunning = Lost world job running

  pub failing :
      {A : Type 0} (P : A → Worker → Type 0) (code message : String) (e : Raised) (w : Worker)
      → At job.id running w
      → is_other e ≡ false
      → Ends P LostRunning (fail world job code message e w)
  unfolding allowed_transitions
  failing = fail-Lost world job running refl

  pub unreachable :
      (A : Type 0) (e : Raised) (w : Worker)
      → (is_unreachable e ≡ false → Unrecorded world e)
      → At job.id running w
      → Ran {A = A} (on_unreachable world job e w)
  unfolding allowed_transitions
  unreachable A e w u h = on_unreachable-Lost world job running refl Busy e w u h

  on_wait_error-Lost :
      (prompt_id : String) (timeout_s : ℕ) (e : Raised)
      → world.on_wait prompt_id timeout_s ≡ raised e
      → (w : Worker) → At job.id running w
      → Ran (on_wait_error world job prompt_id e w)
  on_wait_error-Lost p t (comfy_timeout m) q w h = failing Busy _ _ _ _ h refl
  on_wait_error-Lost p t (comfy_unreachable m) q w h = failing Busy _ _ _ w h refl
  on_wait_error-Lost p t (comfy_node m) q w h = inr (h, waiting p t q refl refl)
  on_wait_error-Lost p t (storage_error m) q w h = inr (h, waiting p t q refl refl)
  on_wait_error-Lost p t (other m) q w h = inr (h, uncaught m refl)

  pub wait-Ran :
      (timeout_s : ℕ) (prompt_id : String) (w : Worker)
      → At job.id running w
      → Ran (wait world job timeout_s prompt_id w)
  unfolding wait
  wait-Ran timeout_s prompt_id w h =
      called-Keeps world job running (wait_for_completion prompt_id)
        (world.on_wait prompt_id timeout_s) (on_wait_error world job prompt_id) w h
        (on_wait_error-Lost prompt_id timeout_s)

  not_empty-Ran :
      (images : List Bytes) (w : Worker) → At job.id running w → Ran (not_empty world job images w)
  not_empty-Ran [] w h = failing Busy _ _ _ w h refl
  not_empty-Ran (png ∷ images) w h = h

  pub fetch-Ran :
      (prompt_id : String) (w : Worker) → At job.id running w → Ran (fetch world job prompt_id w)
  unfolding fetch
  fetch-Ran prompt_id w h =
      bind-Ends Busy Busy LostRunning
        (attempt (call (fetch_outputs prompt_id) (world.on_fetch_outputs prompt_id))
          (on_unreachable world job))
        (not_empty world job) w
        (called-Keeps world job running (fetch_outputs prompt_id) (world.on_fetch_outputs prompt_id)
          (on_unreachable world job) w h
          (λ e q w' p. unreachable (List Bytes) e w' (λ u. fetching prompt_id q u) p))
        not_empty-Ran

  made_transparent-Ran :
      (r : Answer Bytes) (w : Worker) → At job.id running w → Ran (made_transparent world job r w)
  made_transparent-Ran (returned b) w h = h
  made_transparent-Ran (raised e) w h = failing Busy _ _ _ w h refl

  check_image-Ran :
      (b : Bool) (png : Bytes) (w : Worker)
      → At job.id running w
      → Ran (check_image world job b png w)
  unfolding check_image
  check_image-Ran b png w h = elim (Bool-cases (starts_with png png_magic)) [
    | inl e ↦ rw e (transparent b)
    | inr e ↦ rw e (failing Busy _ _ _ w h refl)
  ]
    where
      transparent :
          (b : Bool)
          → Ran (
              (if b
                  then made_transparent world job (world.apply_transparent_background png)
                  else give png)
                w)
      transparent true = made_transparent-Ran (world.apply_transparent_background png) w h
      transparent false = h

  pub check_images-Ran :
      (b : Bool) (images : List Bytes) (w : Worker)
      → At job.id running w
      → Ran (check_images world job b images w)
  unfolding check_images
  check_images-Ran b [] w h = h
  check_images-Ran b (png ∷ images) w h =
      bind-Ends Busy Busy LostRunning (check_image world job b png)
        (λ processed. check_images world job b images >>= λ rest. give (processed ∷ rest)) w
        (check_image-Ran b png w h)
        (λ processed w' p.
          bind-Ends Busy Busy LostRunning (check_images world job b images)
            (λ rest. give (processed ∷ rest)) w' (check_images-Ran b images w' p) (λ _ _ k. k))

  on_storage_error-Lost :
      (idx : ℕ) (png : Bytes) (e : Raised)
      → world.on_upload_png job.id idx png ≡ raised e
      → (w : Worker) → At job.id running w
      → Ran {A = String} (on_storage_error world job e w)
  on_storage_error-Lost idx png (storage_error m) q w h = failing Busy _ _ _ w h refl
  on_storage_error-Lost idx png (comfy_unreachable m) q w h = inr (h, storing job.id idx png q refl)
  on_storage_error-Lost idx png (comfy_node m) q w h = inr (h, storing job.id idx png q refl)
  on_storage_error-Lost idx png (comfy_timeout m) q w h = inr (h, storing job.id idx png q refl)
  on_storage_error-Lost idx png (other m) q w h = inr (h, storing job.id idx png q refl)

  pub upload_all-Ran :
      (idx : ℕ) (images : List Bytes) (w : Worker)
      → At job.id running w
      → Ran (upload_all world job idx images w)
  unfolding upload_all
  upload_all-Ran idx [] w h = h
  upload_all-Ran idx (png ∷ images) w h =
      bind-Ends Busy Busy LostRunning
        (attempt (call (upload_png idx) (world.on_upload_png job.id idx png))
          (on_storage_error world job))
        (λ key. upload_all world job (suc idx) images >>= λ keys. give (key ∷ keys)) w
        (called-Keeps world job running (upload_png idx) (world.on_upload_png job.id idx png)
          (on_storage_error world job) w h (on_storage_error-Lost idx png))
        (λ key w' p.
          bind-Ends Busy Busy LostRunning (upload_all world job (suc idx) images)
            (λ keys. give (key ∷ keys)) w' (upload_all-Ran (suc idx) images w' p) (λ _ _ k. k))
