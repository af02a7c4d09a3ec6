-- ===== src/Worker/Settled.antt =====
-- app/queue/worker.py: the status of the row after each step of the pipeline.
use local_image_generator_se.Common.{
  ℕ, String, ◌≡◌, refl, ap, ◌∙◌, Bool, true, false, ◌⊎◌, inl, inr, some, List,
}
use local_image_generator_se.Common.Text.{Text}
use local_image_generator_se.Schema.{Job, JobStatus}
use local_image_generator_se.Jobs.Transitions.{allowed_transitions}
use local_image_generator_se.Workflows.Graph.{Graph}
use local_image_generator_se.Worker.Backend.{
  Bytes, Raised, comfy_unreachable, comfy_node, comfy_timeout, storage_error, other, Answer,
  returned, raised, Call, Worker, World, Work, fail, fail_unmetered, call, attempt,
}
use local_image_generator_se.Worker.Row.{Ends, weaken-Ends, At, fail-At, fail_unmetered-At}
use local_image_generator_se.Worker.Steps.{on_unreachable}

abbrev pub is_unreachable : Raised → Bool
is_unreachable (comfy_unreachable m) = true
is_unreachable _ = false

abbrev pub is_node : Raised → Bool
is_node (comfy_node m) = true
is_node _ = false

abbrev pub is_timeout : Raised → Bool
is_timeout (comfy_timeout m) = true
is_timeout _ = false

abbrev pub is_storage : Raised → Bool
is_storage (storage_error m) = true
is_storage _ = false

abbrev pub is_other : Raised → Bool
is_other (other m) = true
is_other _ = false

-- The exceptions that no `except` clause of the pipeline turns into a failed row: those of no class
-- of the service, and those that a call raises outside the classes that its step names.
pub data Unrecorded (world : World) (e : Raised) : Type 0 where
  uncaught : (m : String) → e ≡ other m → Unrecorded world e
  unloading : world.on_unload_models ≡ raised e → Unrecorded world e
  uploading :
      (bs : Bytes) (filename : Text)
      → world.on_upload_image bs filename ≡ raised e
      → is_unreachable e ≡ false
      → Unrecorded world e
  submitting :
      (graph : Graph)
      → world.on_submit graph ≡ raised e
      → is_unreachable e ≡ false
      → is_node e ≡ false
      → Unrecorded world e
  waiting :
      (prompt_id : String) (timeout_s : ℕ)
      → world.on_wait prompt_id timeout_s ≡ raised e
      → is_unreachable e ≡ false
      → is_timeout e ≡ false
      → Unrecorded world e
  fetching :
      (prompt_id : String)
      → world.on_fetch_outputs prompt_id ≡ raised e
      → is_unreachable e ≡ false
      → Unrecorded world e
  storing :
      (k : String) (idx : ℕ) (png : Bytes)
      → world.on_upload_png k idx png ≡ raised e
      → is_storage e ≡ false
      → Unrecorded world e
  fetching_media :
      (fetch_media : String → Answer (List (Bytes × Text))) (prompt_id : String)
      → world.on_fetch_media ≡ some fetch_media
      → fetch_media prompt_id ≡ raised e
      → is_unreachable e ≡ false
      → Unrecorded world e
  storing_blob :
      (upload : String → ℕ → Bytes → Text → Text → Answer String) (k : String) (idx : ℕ)
      (blob : Bytes) (ext content_type : Text)
      → world.on_upload_blob ≡ some upload
      → upload k idx blob ext content_type ≡ raised e
      → is_storage e ≡ false
      → Unrecorded world e

module _ (world : World) (job : Job) (a : JobStatus) where
  abbrev pub Lost : Raised → Worker → Type 0
  Lost e w =
      (At job.id JobStatus.failed w × (is_other e ≡ false)) ⊎ (At job.id a w × Unrecorded world e)

  -- What a step promises that leaves the status alone when it returns.
  abbrev pub Keeps : {A : Type 0} → Answer A × Worker → Type 0
  Keeps r = Ends (λ _ w'. At job.id a w') Lost r

  module _ (t : allowed_transitions a JobStatus.failed ≡ true) where
    pub fail-Lost :
        {A : Type 0} (P : A → Worker → Type 0) (code message : String) (e : Raised) (w : Worker)
        → At job.id a w
        → is_other e ≡ false
        → Ends P Lost (fail world job code message e w)
    fail-Lost P code message e w h q =
        weaken-Ends P P (λ e' w'. (e' ≡ e) × At job.id JobStatus.failed w') Lost _
          (fail-At P world job code message e a w h t) (λ _ _ p. p)
          (λ _ _ p. inl (p.1, ap is_other p.0 ∙ q))

    pub fail_unmetered-Lost :
        {A : Type 0} (P : A → Worker → Type 0) (code message : String) (e : Raised) (w : Worker)
        → At job.id a w
        → is_other e ≡ false
        → Ends P Lost (fail_unmetered world job code message e w)
    fail_unmetered-Lost P code message e w h q =
        weaken-Ends P P (λ e' w'. (e' ≡ e) × At job.id JobStatus.failed w') Lost _
          (fail_unmetered-At P world job code message e a w h t) (λ _ _ p. p)
          (λ _ _ p. inl (p.1, ap is_other p.0 ∙ q))

    pub on_unreachable-Lost :
        {A : Type 0} (P : A → Worker → Type 0) (e : Raised) (w : Worker)
        → (is_unreachable e ≡ false → Unrecorded world e)
        → At job.id a w
        → Ends P Lost (on_unreachable world job e w)
    on_unreachable-Lost P (comfy_unreachable m) w u h =
        fail-Lost P "comfy_unreachable" m (comfy_unreachable m) w h refl
    on_unreachable-Lost P (comfy_node m) w u h = inr (h, u refl)
    on_unreachable-Lost P (comfy_timeout m) w u h = inr (h, u refl)
    on_unreachable-Lost P (storage_error m) w u h = inr (h, u refl)
    on_unreachable-Lost P (other m) w u h = inr (h, u refl)

  pub called-Keeps :
      {A : Type 0} (c : Call) (answer : Answer A) (h : Raised → Work A) (w : Worker)
      → At job.id a w
      → ((e : Raised) → answer ≡ raised e → (w' : Worker) → At job.id a w' → Keeps (h e w'))
      → Keeps (attempt (call c answer) h w)
  called-Keeps c (returned x) h w p k = p
  called-Keeps c (raised e) h w p k = k e refl _ p
