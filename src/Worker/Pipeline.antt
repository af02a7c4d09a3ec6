-- ===== src/Worker/Pipeline.antt =====
-- app/queue/worker.py: what the worker does with the images of a job, `_run_pipeline`, `_process_one`, and the loop of `run` over the jobs that it takes from the queue.
use Prim.Native.String.{◌++◌ as str_append}
use local_image_generator_se.Common.{
  ℕ, suc, String, Bool, true, false, Option, none, some, List, [], ◌∷◌, ◌++◌, map, if◌then◌else◌,
}
use local_image_generator_se.Common.Text.{Text, codes, starts_with}
use local_image_generator_se.Common.Digits.{str}
use local_image_generator_se.Schema.{Job}
use local_image_generator_se.Jobs.Transitions.{set_failed}
use local_image_generator_se.Validation.Request.{
  ModelConfig, Family, ltxv, ValidatedJob, GenerateRequest, ResponseFormat, url, b64_json,
}
use local_image_generator_se.Worker.Backend.{
  Bytes, Raised, comfy_unreachable, comfy_node, comfy_timeout, storage_error, other, Answer,
  returned, raised, upload_png, Worker, Datum, url_of, Stored, not_json, request, video, absent,
  odd, named, Posted, b64_of, JobResult, World, Work, give, throw, attempt, call, record_job_event,
  on_store, fail, ◌>>=◌, ◌>>◌,
}
use local_image_generator_se.Worker.Prompt.{actual_seed}
use local_image_generator_se.Worker.Finish.{on_storage_error, finish}
use local_image_generator_se.Worker.Video.{ltxv_pipeline, wan_pipeline}
use local_image_generator_se.Worker.Steps.{
  text_of, revalidate, refuse_json, wait_timeout_s, prepare, upload_init_image, enforce_swap,
  submit_graph, track, wait, fetch,
}

abbrev pub png_magic : Bytes
png_magic = 137 ∷ 80 ∷ 78 ∷ 71 ∷ 13 ∷ 10 ∷ 26 ∷ 10 ∷ []

abbrev pub made_transparent : World → Job → Answer Bytes → Work Bytes
made_transparent world job (returned png) = give png
made_transparent world job (raised e) =
    let m = str_append "transparent postprocess failed: " (text_of e) in
    fail world job "comfy_error" m (comfy_node m)

abbrev not_png : World → Bytes → String
not_png world png =
    str_append "non-PNG bytes from ComfyUI (first=" (str_append (world.repr png) ")")

unfoldable pub check_image : World → Job → Bool → Bytes → Work Bytes
unfolding fail
check_image world job transparent_background png =
    if starts_with png png_magic
    then (if transparent_background
        then made_transparent world job (world.apply_transparent_background png)
        else give png)
    else fail world job "comfy_error" (not_png world png) (comfy_node (not_png world png))

unfoldable pub check_images : World → Job → Bool → List Bytes → Work (List Bytes)
unfolding check_image
check_images world job transparent_background [] = give []
check_images world job transparent_background (png ∷ images) = do
  processed ← check_image world job transparent_background png
  processed_images ← check_images world job transparent_background images
  give (processed ∷ processed_images)

-- The loop from an index on, with the keys of the objects.
unfoldable pub upload_all : World → Job → ℕ → List Bytes → Work (List String)
unfolding fail
upload_all world job idx [] = give []
upload_all world job idx (png ∷ images) = do
  key ←
      attempt (call (upload_png idx) (world.on_upload_png job.id idx png))
        (on_storage_error world job)
  output_keys ← upload_all world job (suc idx) images
  give (key ∷ output_keys)

abbrev image_url : World → Job → ℕ → Text
image_url world job idx =
    world.public_base_url
    ++ codes "/v1/images/"
    ++ world.id_text job.id
    ++ codes "/"
    ++ str idx
    ++ codes ".png"

unfoldable pub urls_from : World → Job → ℕ → List Bytes → List Datum
urls_from world job idx [] = []
urls_from world job idx (png ∷ images) =
    url_of (image_url world job idx) ∷ urls_from world job (suc idx) images

unfoldable pub response_data : World → Job → ResponseFormat → List Bytes → List Datum
unfolding urls_from
response_data world job b64_json images = map (λ png. b64_of (world.b64encode png)) images
response_data world job url images = urls_from world job 0 images

unfoldable pub result_of : World → Job → ValidatedJob → List Bytes → JobResult
unfolding response_data
result_of world job validated images = record {
  data_entries = response_data world job validated.response_format images;
  duration_ms = world.duration_ms;
  resolved_seed = actual_seed world.randbelow validated;
}

-- From the submitted prompt on.
unfoldable pub collect : World → Job → ValidatedJob → String → Work JobResult
unfolding wait fetch check_images upload_all finish result_of
collect world job validated prompt_id = do
  wait world job (wait_timeout_s world validated.timeout_s validated.model) prompt_id
  images ← fetch world job prompt_id
  processed ← check_images world job validated.transparent_background images
  output_keys ← upload_all world job 0 processed
  finish world job validated.model (result_of world job validated processed) output_keys

-- For an image job.
unfoldable pub image_pipeline : World → Job → Posted GenerateRequest → Work JobResult
unfolding revalidate prepare upload_init_image enforce_swap submit_graph track collect
image_pipeline world job posted = do
  validated ← revalidate world job posted
  prepared ← prepare world validated
  graph ← upload_init_image world job validated prepared
  enforce_swap world job validated.model
  prompt_id ← submit_graph world job graph
  track world job prompt_id
  collect world job validated prompt_id

-- Whether the registry knows the model, with the family ltxv.
abbrev pub is_ltxv : Option ModelConfig → Bool
is_ltxv none = false
is_ltxv (some model) = of_family model.family
  where
    of_family : Family → Bool
    of_family ltxv = true
    of_family _ = false

abbrev pub stored_pipeline : World → Job → Stored → Work JobResult
stored_pipeline world job (not_json e) = refuse_json world job e
stored_pipeline world job (request posted) = image_pipeline world job posted
stored_pipeline world job (video task absent) = wan_pipeline world job task none
stored_pipeline world job (video task odd) = throw (other "AttributeError")
stored_pipeline world job (video task (named model_name posted)) =
    if is_ltxv (world.site.registry model_name)
    then ltxv_pipeline world job task posted
    else wan_pipeline world job task (some posted)

unfoldable pub run_pipeline : World → Job → Work JobResult
unfolding image_pipeline ltxv_pipeline wan_pipeline fail
run_pipeline world job = stored_pipeline world job (world.load job.input_json)

abbrev pub note_failed : String → Raised → Work (Answer JobResult)
note_failed error_code e = record_job_event "failed" (some error_code) >> give (raised e)

abbrev pub conclude : World → Job → Answer JobResult → Work (Answer JobResult)
conclude world job (returned result) = record_job_event "completed" none >> give (returned result)
conclude world job (raised (other m)) =
    on_store world (set_failed (world.clock 2) job.id "internal" m)
    >> note_failed "internal" (other m)
conclude world job (raised (comfy_unreachable m)) =
    note_failed "comfyunreachableerror" (comfy_unreachable m)
conclude world job (raised (comfy_node m)) = note_failed "comfynodeerror" (comfy_node m)
conclude world job (raised (comfy_timeout m)) = note_failed "comfytimeouterror" (comfy_timeout m)
conclude world job (raised (storage_error m)) = note_failed "storageerror" (storage_error m)

abbrev pub concluded : World → Job → Answer JobResult × Worker → Answer (Answer JobResult) × Worker
concluded world job (a, w) = conclude world job a w

-- The answer that a waiting future is given. An exception of this coroutine itself ends the loop.
unfoldable pub process_one : World → Job → Work (Answer JobResult)
unfolding run_pipeline set_failed
process_one world job w = concluded world job (run_pipeline world job w)

-- The loop over the items of the queue, each with what its job meets, and what their futures are given.
unfoldable pub run : List (World × Job) → Work (List (Answer JobResult))
unfolding process_one
run [] = give []
run ((world, job) ∷ items) = do a ← process_one world job; rest ← run items; give (a ∷ rest)
