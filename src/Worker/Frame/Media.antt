-- ===== src/Worker/Frame/Media.antt =====
-- app/queue/worker.py: the frame of the stages that only a video has.
use local_image_generator_se.Common.{ℕ, suc, String, Option, none, some, List, [], ◌∷◌}
use local_image_generator_se.Common.Text.{Text}
use local_image_generator_se.Schema.{Job}
use local_image_generator_se.Validation.Request.{ValidatedVideoJob, VideoGenerateRequest, Task}
use local_image_generator_se.Validation.Video.{resolve_and_validate_video}
use local_image_generator_se.Workflows.Graph.{
  Graph, Attempt, done, raised as fault, workflow_validation, anchor_not_found, not_implemented,
  bad_inputs,
}
use local_image_generator_se.Worker.Backend.{
  Bytes, Raised, comfy_unreachable, comfy_node, comfy_timeout, storage_error, other, Answer,
  fetch_media_outputs, Worker, Posted, invalid, body, World, attempt, call, give, ◌>>=◌,
}
use local_image_generator_se.Worker.Finish.{on_storage_error}
use local_image_generator_se.Worker.Steps.{accept, read_workflow, on_unreachable}
use local_image_generator_se.Worker.Ltxv.{ltxv_graph}
use local_image_generator_se.Worker.Wan.{is_core, wan_injected, wan_settings}
use local_image_generator_se.Worker.Video.{
  VideoKind, revalidate_wan, prepare_wan, revalidate_ltxv, video_seed, prepared_or_fail,
  prepare_ltxv, some_rows, fetch_with, fetch_media, clean_ext, stored_blob, blob_call, upload_media,
  Uploaded,
}
use local_image_generator_se.Worker.Frame.{
  Stays, IsFrame, step, fail-Stays, fail_unmetered-Stays, unreachable-Stays, called-Stays,
  accept-Stays, read-Stays, graph-Stays,
}

module _ (world : World) (job : Job) (Inv : Worker → Type 0) (frame : IsFrame world job Inv) where
  abbrev Kept : {A : Type 0} → Answer A × Worker → Type 0
  Kept = Stays world job Inv

  pub on_storage_error-Stays :
      (e : Raised) (w : Worker) → Inv w → Kept {A = String} (on_storage_error world job e w)
  on_storage_error-Stays (storage_error m) w i = fail-Stays world job Inv frame String _ _ _ w i
  on_storage_error-Stays (comfy_unreachable m) w i = i
  on_storage_error-Stays (comfy_node m) w i = i
  on_storage_error-Stays (comfy_timeout m) w i = i
  on_storage_error-Stays (other m) w i = i

  pub revalidate_ltxv-Stays :
      (task : Option Task) (posted : Posted VideoGenerateRequest) (w : Worker)
      → Inv w
      → Kept (revalidate_ltxv world job task posted w)
  unfolding revalidate_ltxv
  revalidate_ltxv-Stays none posted w i =
      fail_unmetered-Stays world job Inv frame ValidatedVideoJob _ _ _ w i
  revalidate_ltxv-Stays (some task) (invalid e) w i = i
  revalidate_ltxv-Stays (some task) (body req) w i =
      accept-Stays world job Inv frame ValidatedVideoJob
        (resolve_and_validate_video world.site task req) w i

  prepared_or_fail-Stays :
      (g : Attempt Graph) (w : Worker) → Inv w → Kept (prepared_or_fail world job g w)
  prepared_or_fail-Stays (done g) w i = i
  prepared_or_fail-Stays (fault workflow_validation) w i =
      fail-Stays world job Inv frame Graph _ _ _ w i
  prepared_or_fail-Stays (fault anchor_not_found) w i = i
  prepared_or_fail-Stays (fault not_implemented) w i = i
  prepared_or_fail-Stays (fault bad_inputs) w i = i

  pub prepare_ltxv-Stays :
      (v : ValidatedVideoJob) (w : Worker) → Inv w → Kept (prepare_ltxv world job v w)
  unfolding prepare_ltxv
  prepare_ltxv-Stays v w i =
      step world job Inv frame Graph Graph
        (read_workflow (world.load_workflow v.resolved_workflow_path))
        (λ template. prepared_or_fail world job (ltxv_graph (video_seed world v) v template)) w
        (read-Stays world job Inv frame (world.load_workflow v.resolved_workflow_path) w i)
        (λ template w' k. prepared_or_fail-Stays (ltxv_graph (video_seed world v) v template) w' k)

  pub revalidate_wan-Stays :
      (task : Option Task) (posted : Option (Posted VideoGenerateRequest)) (w : Worker)
      → Inv w
      → Kept (revalidate_wan world job task posted w)
  unfolding revalidate_wan
  revalidate_wan-Stays (some task) (some (invalid e)) w i =
      fail-Stays world job Inv frame (Task × ValidatedVideoJob) _ _ _ w i
  revalidate_wan-Stays (some task) (some (body req)) w i =
      step world job Inv frame ValidatedVideoJob (Task × ValidatedVideoJob)
        (accept world job (resolve_and_validate_video world.site task req)) (λ v. give (task, v)) w
        (accept-Stays world job Inv frame ValidatedVideoJob
          (resolve_and_validate_video world.site task req) w i)
        (λ _ _ k. k)
  revalidate_wan-Stays (some task) none w i =
      fail_unmetered-Stays world job Inv frame (Task × ValidatedVideoJob) _ _ _ w i
  revalidate_wan-Stays none posted w i =
      fail_unmetered-Stays world job Inv frame (Task × ValidatedVideoJob) _ _ _ w i

  pub prepare_wan-Stays :
      (task : Task) (v : ValidatedVideoJob) (w : Worker)
      → Inv w
      → Kept (prepare_wan world job task v w)
  unfolding prepare_wan
  prepare_wan-Stays task v w i =
      step world job Inv frame Graph Graph
        (read_workflow (world.load_workflow v.resolved_workflow_path)) _ w
        (read-Stays world job Inv frame (world.load_workflow v.resolved_workflow_path) w i)
        (λ template w' k.
          step world job Inv frame Graph Graph
            (prepared_or_fail world job (wan_injected (is_core template) task v template)) _ w'
            (prepared_or_fail-Stays (wan_injected (is_core template) task v template) w' k)
            (λ graph w'' l.
              graph-Stays world job Inv frame
                (wan_settings world.quotient (is_core template) (video_seed world v) v graph) w''
                l))

  some_rows-Stays :
      (kind : VideoKind) (rows : List (Bytes × Text)) (w : Worker)
      → Inv w
      → Kept (some_rows world job kind rows w)
  some_rows-Stays kind [] w i = fail-Stays world job Inv frame (List (Bytes × Text)) _ _ _ w i
  some_rows-Stays kind (row ∷ rows) w i = i

  fetch_with-Stays :
      (kind : VideoKind) (p : String) (o : Option (String → Answer (List (Bytes × Text))))
      (w : Worker)
      → Inv w
      → Kept (fetch_with world job kind p o w)
  fetch_with-Stays kind p none w i =
      fail_unmetered-Stays world job Inv frame (List (Bytes × Text)) _ _ _ w i
  fetch_with-Stays kind p (some f) w i =
      step world job Inv frame (List (Bytes × Text)) (List (Bytes × Text))
        (attempt (call (fetch_media_outputs p) (f p)) (on_unreachable world job))
        (some_rows world job kind) w
        (called-Stays world job Inv frame (List (Bytes × Text)) (fetch_media_outputs p) (f p)
          (on_unreachable world job) w i
          (unreachable-Stays world job Inv frame (List (Bytes × Text))))
        (some_rows-Stays kind)

  pub fetch_media-Stays :
      (kind : VideoKind) (p : String) (w : Worker) → Inv w → Kept (fetch_media world job kind p w)
  unfolding fetch_media
  fetch_media-Stays kind p w i = fetch_with-Stays kind p world.on_fetch_media w i

  pub upload_media-Stays :
      (idx : ℕ) (rows : List (Bytes × Text)) (w : Worker)
      → Inv w
      → Kept (upload_media world job idx rows w)
  unfolding upload_media
  upload_media-Stays idx [] w i = i
  upload_media-Stays idx ((blob, ext) ∷ rows) w i =
      let stored = stored_blob world job idx blob (clean_ext ext) in
      step world job Inv frame String (List Uploaded)
        (attempt (call (blob_call idx world.on_upload_blob) stored) (on_storage_error world job))
        (λ key. upload_media world job (suc idx) rows >>= λ rest.
          give (record { output_key = key; blob = blob; ext = clean_ext ext } ∷ rest))
        w
        (called-Stays world job Inv frame String (blob_call idx world.on_upload_blob) stored
          (on_storage_error world job) w i on_storage_error-Stays)
        (λ key w' k.
          step world job Inv frame (List Uploaded) (List Uploaded)
            (upload_media world job (suc idx) rows)
            (λ rest. give (record { output_key = key; blob = blob; ext = clean_ext ext } ∷ rest)) w'
            (upload_media-Stays (suc idx) rows w' k) (λ _ _ l. l))
