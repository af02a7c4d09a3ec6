-- ===== src/Worker/Media.antt =====
-- app/queue/worker.py: the stages of the pipelines of the videos that an image job does not share.
use local_image_generator_se.Common.{
  ℕ, suc, String, ◌≡◌, refl, true, false, Option, none, some, List, [], ◌∷◌, ◌++◌, inl, inr,
  Option-cases,
}
use local_image_generator_se.Common.Text.{Text, codes}
use local_image_generator_se.Schema.{Job, JobStatus, running}
use local_image_generator_se.Jobs.Transitions.{allowed_transitions}
use local_image_generator_se.Validation.Request.{ValidatedVideoJob, VideoGenerateRequest, Task}
use local_image_generator_se.Validation.Video.{resolve_and_validate_video}
use local_image_generator_se.Workflows.Graph.{
  Graph, Attempt, done, raised as fault, workflow_validation, anchor_not_found, not_implemented,
  bad_inputs,
}
use local_image_generator_se.Worker.Backend.{
  Bytes, Raised, comfy_unreachable, comfy_node, comfy_timeout, storage_error, other, Answer, raised,
  fetch_media_outputs, Worker, Posted, invalid, body, World, attempt, call, give, ◌>>=◌,
}
use local_image_generator_se.Worker.Row.{bind-Ends, At}
use local_image_generator_se.Worker.Settled.{
  is_storage, Unrecorded, uncaught, storing, storing_blob, fetching_media, Lost, Keeps, fail-Lost,
  fail_unmetered-Lost, called-Keeps,
}
use local_image_generator_se.Worker.Stages.{
  accept-Keeps, on_graph-Keeps, read_workflow-Keeps, upload_bytes-Keeps,
}
use local_image_generator_se.Worker.Outputs.{Busy, Ran, LostRunning, failing, unreachable}
use local_image_generator_se.Worker.Finish.{on_storage_error}
use local_image_generator_se.Worker.Steps.{accept, read_workflow, on_unreachable}
use local_image_generator_se.Worker.Ltxv.{ltxv_graph}
use local_image_generator_se.Worker.Wan.{is_core, wan_injected, wan_settings}
use local_image_generator_se.Worker.Video.{
  VideoKind, revalidate_wan, prepare_wan, revalidate_ltxv, video_seed, prepared_or_fail,
  prepare_ltxv, upload_reference, some_rows, fetch_with, fetch_media, clean_ext, media_content_type,
  stored_blob, blob_call, upload_media,
}

module _ (world : World) (job : Job) (a : JobStatus)
    (t : allowed_transitions a JobStatus.failed ≡ true) where
  abbrev Steady : {A : Type 0} → A → Worker → Type 0
  Steady _ w = At job.id a w

  pub revalidate_ltxv-Keeps :
      (task : Option Task) (posted : Posted VideoGenerateRequest) (w : Worker)
      → At job.id a w
      → Keeps world job a (revalidate_ltxv world job task posted w)
  unfolding revalidate_ltxv
  revalidate_ltxv-Keeps none posted w h = fail_unmetered-Lost world job a t Steady _ _ _ w h refl
  revalidate_ltxv-Keeps (some task) (invalid e) w h = inr (h, uncaught e refl)
  revalidate_ltxv-Keeps (some task) (body req) w h =
      accept-Keeps world job a t (resolve_and_validate_video world.site task req) w h

  prepared_or_fail-Keeps :
      (g : Attempt Graph) (w : Worker)
      → At job.id a w
      → Keeps world job a (prepared_or_fail world job g w)
  prepared_or_fail-Keeps (done g) w h = h
  prepared_or_fail-Keeps (fault workflow_validation) w h =
      fail-Lost world job a t Steady _ _ _ w h refl
  prepared_or_fail-Keeps (fault anchor_not_found) w h = inr (h, uncaught _ refl)
  prepared_or_fail-Keeps (fault not_implemented) w h = inr (h, uncaught _ refl)
  prepared_or_fail-Keeps (fault bad_inputs) w h = inr (h, uncaught _ refl)

  pub prepare_ltxv-Keeps :
      (v : ValidatedVideoJob) (w : Worker)
      → At job.id a w
      → Keeps world job a (prepare_ltxv world job v w)
  unfolding prepare_ltxv
  prepare_ltxv-Keeps v w h =
      bind-Ends Steady Steady (Lost world job a)
        (read_workflow (world.load_workflow v.resolved_workflow_path))
        (λ template. prepared_or_fail world job (ltxv_graph (video_seed world v) v template)) w
        (read_workflow-Keeps world job a t (world.load_workflow v.resolved_workflow_path) w h)
        (λ template w' p. prepared_or_fail-Keeps (ltxv_graph (video_seed world v) v template) w' p)

  pub revalidate_wan-Keeps :
      (task : Option Task) (posted : Option (Posted VideoGenerateRequest)) (w : Worker)
      → At job.id a w
      → Keeps world job a (revalidate_wan world job task posted w)
  unfolding revalidate_wan
  revalidate_wan-Keeps (some task) (some (invalid e)) w h =
      fail-Lost world job a t Steady _ _ _ w h refl
  revalidate_wan-Keeps (some task) (some (body req)) w h =
      bind-Ends Steady Steady (Lost world job a)
        (accept world job (resolve_and_validate_video world.site task req)) (λ v. give (task, v)) w
        (accept-Keeps world job a t (resolve_and_validate_video world.site task req) w h)
        (λ _ _ p. p)
  revalidate_wan-Keeps (some task) none w h =
      fail_unmetered-Lost world job a t Steady _ _ _ w h refl
  revalidate_wan-Keeps none posted w h = fail_unmetered-Lost world job a t Steady _ _ _ w h refl

  pub prepare_wan-Keeps :
      (task : Task) (v : ValidatedVideoJob) (w : Worker)
      → At job.id a w
      → Keeps world job a (prepare_wan world job task v w)
  unfolding prepare_wan
  prepare_wan-Keeps task v w h =
      bind-Ends Steady Steady (Lost world job a)
        (read_workflow (world.load_workflow v.resolved_workflow_path)) _ w
        (read_workflow-Keeps world job a t (world.load_workflow v.resolved_workflow_path) w h)
        (λ template w' p.
          bind-Ends Steady Steady (Lost world job a)
            (prepared_or_fail world job (wan_injected (is_core template) task v template)) _ w'
            (prepared_or_fail-Keeps (wan_injected (is_core template) task v template) w' p)
            (λ graph w'' q.
              on_graph-Keeps world job a t
                (wan_settings world.quotient (is_core template) (video_seed world v) v graph) w''
                q))

  pub upload_reference-Keeps :
      (v : ValidatedVideoJob) (g : Graph) (w : Worker)
      → At job.id a w
      → Keeps world job a (upload_reference world job v g w)
  unfolding upload_reference
  upload_reference-Keeps v g w h =
      upload_bytes-Keeps world job a t (world.id_text job.id ++ codes "_init.png")
        v.init_image_bytes g w h

module _ (world : World) (job : Job) where
  some_rows-Ran :
      (kind : VideoKind) (rows : List (Bytes × Text)) (w : Worker)
      → At job.id running w
      → Ran world job (some_rows world job kind rows w)
  some_rows-Ran kind [] w h = failing world job (Busy world job) _ _ _ w h refl
  some_rows-Ran kind (row ∷ rows) w h = h

  fetch_with-Ran :
      (kind : VideoKind) (prompt_id : String) (o : Option (String → Answer (List (Bytes × Text))))
      (w : Worker)
      → world.on_fetch_media ≡ o
      → At job.id running w
      → Ran world job (fetch_with world job kind prompt_id o w)
  unfolding allowed_transitions
  fetch_with-Ran kind prompt_id none w e h =
      fail_unmetered-Lost world job running refl (Busy world job) _ _ _ w h refl
  fetch_with-Ran kind prompt_id (some f) w e h =
      bind-Ends (Busy world job) (Busy world job) (LostRunning world job)
        (attempt (call (fetch_media_outputs prompt_id) (f prompt_id)) (on_unreachable world job))
        (some_rows world job kind) w
        (called-Keeps world job running (fetch_media_outputs prompt_id) (f prompt_id)
          (on_unreachable world job) w h
          (λ x q w' p.
            unreachable world job (List (Bytes × Text)) x w' (λ u. fetching_media f prompt_id e q u)
              p))
        (some_rows-Ran kind)

  pub fetch_media-Ran :
      (kind : VideoKind) (prompt_id : String) (w : Worker)
      → At job.id running w
      → Ran world job (fetch_media world job kind prompt_id w)
  unfolding fetch_media
  fetch_media-Ran kind prompt_id w h = fetch_with-Ran kind prompt_id world.on_fetch_media w refl h

  -- An error of the storage of a class that the step does not name.
  unstored :
      (idx : ℕ) (blob : Bytes) (ext : Text) (e : Raised)
      → stored_blob world job idx blob ext ≡ raised e
      → is_storage e ≡ false
      → Unrecorded world e
  unfolding stored_blob
  unstored idx blob ext e q n = elim (Option-cases world.on_upload_blob) [
    | inl o ↦ storing job.id idx blob (rw o at q) n
    | inr (f, o) ↦ storing_blob f job.id idx blob ext (media_content_type ext) o (rw o at q) n
  ]

  on_storage_error-Ran :
      (e : Raised)
      → (is_storage e ≡ false → Unrecorded world e)
      → (w : Worker) → At job.id running w
      → Ran world job {A = String} (on_storage_error world job e w)
  on_storage_error-Ran (storage_error m) u w h = failing world job (Busy world job) _ _ _ w h refl
  on_storage_error-Ran (comfy_unreachable m) u w h = inr (h, u refl)
  on_storage_error-Ran (comfy_node m) u w h = inr (h, u refl)
  on_storage_error-Ran (comfy_timeout m) u w h = inr (h, u refl)
  on_storage_error-Ran (other m) u w h = inr (h, u refl)

  pub upload_media-Ran :
      (idx : ℕ) (rows : List (Bytes × Text)) (w : Worker)
      → At job.id running w
      → Ran world job (upload_media world job idx rows w)
  unfolding upload_media
  upload_media-Ran idx [] w h = h
  upload_media-Ran idx ((blob, ext) ∷ rows) w h =
      let stored = stored_blob world job idx blob (clean_ext ext) in
      bind-Ends (Busy world job) (Busy world job) (LostRunning world job)
        (attempt (call (blob_call idx world.on_upload_blob) stored) (on_storage_error world job))
        (λ key. upload_media world job (suc idx) rows >>= λ rest.
          give (record { output_key = key; blob = blob; ext = clean_ext ext } ∷ rest))
        w
        (called-Keeps world job running (blob_call idx world.on_upload_blob) stored
          (on_storage_error world job) w h
          (λ e q w' p. on_storage_error-Ran e (unstored idx blob (clean_ext ext) e q) w' p))
        (λ key w' p.
          bind-Ends (Busy world job) (Busy world job) (LostRunning world job)
            (upload_media world job (suc idx) rows)
            (λ rest. give (record { output_key = key; blob = blob; ext = clean_ext ext } ∷ rest)) w'
            (upload_media-Ran (suc idx) rows w' p) (λ _ _ k. k))
