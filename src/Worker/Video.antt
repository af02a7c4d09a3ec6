-- ===== src/Worker/Video.antt =====
-- app/queue/worker.py: the pipelines of the videos, `_run_ltxv_pipeline` and `_run_video_pipeline`,
-- from the envelope to the files. The steps from the upload of the image to the submission are those of an image job.
use Prim.Native.String.{◌++◌ as str_append}
use local_image_generator_se.Common.{
  ℕ, suc, String, Option, none, some, List, [], ◌∷◌, ◌++◌, map, ◌==◌, if◌then◌else◌,
}
use local_image_generator_se.Common.Text.{Text, codes, lower, text_eq}
use local_image_generator_se.Common.Digits.{str}
use local_image_generator_se.Schema.{Job}
use local_image_generator_se.Validation.Request.{
  ValidatedVideoJob, VideoGenerateRequest, Task, ResponseFormat, url, b64_json, get_or,
}
use local_image_generator_se.Validation.Video.{resolve_and_validate_video}
use local_image_generator_se.Workflows.Graph.{
  Graph, Attempt, done, raised as fault, workflow_validation,
}
use local_image_generator_se.Worker.Ltxv.{ltxv_graph}
use local_image_generator_se.Worker.Wan.{is_core, wan_injected, wan_settings}
use local_image_generator_se.Worker.Backend.{
  Bytes, comfy_node, other, Answer, Call, fetch_media_outputs, upload_png, upload_blob, Datum,
  url_of, b64_of, JobResult, Posted, invalid, body, World, Work, on_graph, give, throw, attempt,
  call, fail, fail_unmetered, ◌>>=◌, ◌>>◌,
}
use local_image_generator_se.Worker.Finish.{on_storage_error, finish}
use local_image_generator_se.Worker.Steps.{
  accept, revalidation_failed, read_workflow, on_unreachable, upload_bytes, enforce_swap,
  submit_graph, track, wait, wait_timeout_s,
}

abbrev missing_task : String
missing_task = "stored video envelope missing video_task or payload"

-- A ValidationError of the request model is not caught here.
unfoldable pub revalidate_ltxv :
    World → Job → Option Task → Posted VideoGenerateRequest → Work ValidatedVideoJob
unfolding fail fail_unmetered
revalidate_ltxv world job none posted =
    fail_unmetered world job "validation_error" missing_task (comfy_node missing_task)
revalidate_ltxv world job (some task) (invalid e) = throw (other e)
revalidate_ltxv world job (some task) (body req) =
    accept world job (resolve_and_validate_video world.site task req)

abbrev pub video_seed : World → ValidatedVideoJob → ℕ
video_seed world validated = get_or validated.seed world.randbelow

-- except WorkflowValidationError
abbrev pub prepared_or_fail : World → Job → Attempt Graph → Work Graph
prepared_or_fail world job (done graph) = give graph
prepared_or_fail world job (fault workflow_validation) =
    let m = world.fault_text workflow_validation in fail world job "comfy_error" m (comfy_node m)
prepared_or_fail world job (fault e) = throw (other (world.fault_text e))

unfoldable pub prepare_ltxv : World → Job → ValidatedVideoJob → Work Graph
unfolding ltxv_graph fail
prepare_ltxv world job v =
    read_workflow (world.load_workflow v.resolved_workflow_path) >>= λ template.
    prepared_or_fail world job (ltxv_graph (video_seed world v) v template)

-- The two pipelines, whose messages differ.
pub data VideoKind : Type 0 where
  ltxv_video wan_video : VideoKind

abbrev pub no_method : VideoKind → String
no_method ltxv_video =
    "backend adapter missing fetch_media_outputs — cannot complete ltxv video job"
no_method wan_video = "backend adapter missing fetch_media_outputs — cannot complete video job"

abbrev pub no_media : VideoKind → String
no_media ltxv_video = "ComfyUI returned zero media outputs for ltxv job"
no_media wan_video = "ComfyUI returned zero media outputs"

abbrev pub some_rows : World → Job → VideoKind → List (Bytes × Text) → Work (List (Bytes × Text))
some_rows world job kind [] =
    fail world job "comfy_error" (no_media kind) (comfy_node (no_media kind))
some_rows world job kind (row ∷ rows) = give (row ∷ rows)

abbrev pub fetch_with :
    World
    → Job
    → VideoKind
    → String
    → Option (String → Answer (List (Bytes × Text)))
    → Work (List (Bytes × Text))
fetch_with world job kind prompt_id none =
    fail_unmetered world job "comfy_error" (no_method kind) (comfy_node (no_method kind))
fetch_with world job kind prompt_id (some method) =
    attempt (call (fetch_media_outputs prompt_id) (method prompt_id)) (on_unreachable world job)
    >>= some_rows world job kind

unfoldable pub fetch_media : World → Job → VideoKind → String → Work (List (Bytes × Text))
unfolding fail fail_unmetered
fetch_media world job kind prompt_id = fetch_with world job kind prompt_id world.on_fetch_media

abbrev lstrip_dots : Text → Text
lstrip_dots [] = []
lstrip_dots (c ∷ cs) = if c == 46 then lstrip_dots cs else c ∷ cs

abbrev or_mp4 : Text → Text
or_mp4 [] = codes "mp4"
or_mp4 (c ∷ cs) = c ∷ cs

-- ext.lower().lstrip(".") or "mp4"
unfoldable pub clean_ext : Text → Text
clean_ext ext = or_mp4 (lstrip_dots (lower ext))

-- _MEDIA_CONTENT_TYPES.get(ext, "application/octet-stream")
unfoldable pub media_content_type : Text → Text
unfolding text_eq
media_content_type ext =
    if text_eq ext (codes "mp4")
    then codes "video/mp4"
    else if text_eq ext (codes "webm")
    then codes "video/webm"
    else if text_eq ext (codes "gif")
    then codes "image/gif"
    else if text_eq ext (codes "png")
    then codes "image/png"
    else codes "application/octet-stream"

pub record Uploaded : Type 0 where
  pub output_key : String
  pub blob : Bytes
  pub ext : Text

-- The method for blobs where the storage has it, and else that for PNG files.
unfoldable pub stored_blob : World → Job → ℕ → Bytes → Text → Answer String
unfolding media_content_type
stored_blob world job idx blob ext = by_method world.on_upload_blob
  where
    by_method : Option (String → ℕ → Bytes → Text → Text → Answer String) → Answer String
    by_method none = world.on_upload_png job.id idx blob
    by_method (some upload) = upload job.id idx blob ext (media_content_type ext)

abbrev pub blob_call : {A : Type 0} → ℕ → Option A → Call
blob_call idx none = upload_png idx
blob_call idx (some upload) = upload_blob idx

-- The loop from an index on.
unfoldable pub upload_media : World → Job → ℕ → List (Bytes × Text) → Work (List Uploaded)
unfolding fail stored_blob clean_ext
upload_media world job idx [] = give []
upload_media world job idx ((blob, ext) ∷ rows) =
    attempt
      (call (blob_call idx world.on_upload_blob) (stored_blob world job idx blob (clean_ext ext)))
      (on_storage_error world job)
    >>= λ key. upload_media world job (suc idx) rows >>= λ rest.
        give (record { output_key = key; blob = blob; ext = clean_ext ext } ∷ rest)

abbrev video_url : World → Job → ℕ → Text → Text
video_url world job idx ext =
    world.public_base_url
    ++ codes "/v1/videos/"
    ++ world.id_text job.id
    ++ codes "/"
    ++ str idx
    ++ codes "."
    ++ ext

unfoldable pub video_urls : World → Job → ℕ → List Uploaded → List Datum
unfolding str
video_urls world job idx [] = []
video_urls world job idx (u ∷ rest) =
    url_of (video_url world job idx u.ext) ∷ video_urls world job (suc idx) rest

abbrev video_data : World → Job → ResponseFormat → List Uploaded → List Datum
video_data world job b64_json uploaded = map (λ u. b64_of (world.b64encode u.blob)) uploaded
video_data world job url uploaded = video_urls world job 0 uploaded

unfoldable pub video_result : World → Job → ValidatedVideoJob → List Uploaded → JobResult
unfolding video_urls
video_result world job v uploaded = record {
  data_entries = video_data world job v.response_format uploaded;
  duration_ms = world.duration_ms;
  resolved_seed = video_seed world v;
}

abbrev pub output_keys : List Uploaded → List String
output_keys = map (λ u. u.output_key)

-- From the submitted prompt on.
unfoldable pub collect_media : World → Job → VideoKind → ValidatedVideoJob → String → Work JobResult
unfolding wait fetch_media upload_media video_result finish
collect_media world job kind v prompt_id = do
  wait world job (wait_timeout_s world v.timeout_s v.model) prompt_id
  rows ← fetch_media world job kind prompt_id
  uploaded ← upload_media world job 0 rows
  finish world job v.model (video_result world job v uploaded) (output_keys uploaded)

unfoldable pub upload_reference : World → Job → ValidatedVideoJob → Graph → Work Graph
unfolding fail
upload_reference world job v graph =
    upload_bytes world job (world.id_text job.id ++ codes "_init.png") v.init_image_bytes graph

unfoldable pub ltxv_pipeline :
    World → Job → Option Task → Posted VideoGenerateRequest → Work JobResult
unfolding revalidate_ltxv prepare_ltxv upload_reference enforce_swap submit_graph track
    collect_media
ltxv_pipeline world job task posted = do
  v ← revalidate_ltxv world job task posted
  prepared ← prepare_ltxv world job v
  graph ← upload_reference world job v prepared
  enforce_swap world job v.model
  prompt_id ← submit_graph world job graph
  track world job prompt_id
  collect_media world job ltxv_video v prompt_id

-- A payload that is no dict, and a ValidationError of the request model, are failures here.
unfoldable pub revalidate_wan :
    World
    → Job
    → Option Task
    → Option (Posted VideoGenerateRequest)
    → Work (Task × ValidatedVideoJob)
unfolding fail fail_unmetered
revalidate_wan world job (some task) (some (invalid e)) =
    fail world job "validation_error" (str_append "re-validation of video payload failed: " e)
      (revalidation_failed e)
revalidate_wan world job (some task) (some (body req)) =
    accept world job (resolve_and_validate_video world.site task req) >>= λ v. give (task, v)
revalidate_wan world job _ _ =
    fail_unmetered world job "validation_error" missing_task (comfy_node missing_task)

unfoldable pub prepare_wan : World → Job → Task → ValidatedVideoJob → Work Graph
unfolding is_core wan_injected wan_settings fail
prepare_wan world job task v =
    read_workflow (world.load_workflow v.resolved_workflow_path) >>= λ template.
    prepared_or_fail world job (wan_injected (is_core template) task v template) >>= λ graph.
    on_graph world (wan_settings world.quotient (is_core template) (video_seed world v) v graph)

-- From the submitted prompt on.
abbrev pub collect_wan : World → Job → ValidatedVideoJob → String → Work JobResult
collect_wan world job = collect_media world job wan_video

-- From the accepted request on.
abbrev pub wan_from : World → Job → Task × ValidatedVideoJob → Work JobResult
wan_from world job (task, v) = do
  prepared ← prepare_wan world job task v
  graph ← upload_reference world job v prepared
  enforce_swap world job v.model
  prompt_id ← submit_graph world job graph
  track world job prompt_id
  collect_wan world job v prompt_id

unfoldable pub wan_pipeline :
    World → Job → Option Task → Option (Posted VideoGenerateRequest) → Work JobResult
unfolding revalidate_wan prepare_wan upload_reference enforce_swap submit_graph track collect_media
wan_pipeline world job stored_task posted =
    revalidate_wan world job stored_task posted >>= wan_from world job
