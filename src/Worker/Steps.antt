-- ===== src/Worker/Steps.antt =====
-- app/queue/worker.py: the steps of `_run_pipeline`, each with its `except` clauses.
use Prim.Native.String.{◌++◌ as str_append}
use local_image_generator_se.Common.{
  ℕ, ◌+◌, String, Bool, true, false, Option, none, some, List, [], ◌∷◌, ◌++◌, leb, if◌then◌else◌,
}
use local_image_generator_se.Common.Text.{Text, codes, text_eq}
use local_image_generator_se.Schema.{Job}
use local_image_generator_se.Jobs.Transitions.{set_running}
use local_image_generator_se.Validation.Request.{
  ValidatedJob, GenerateRequest, ModelConfig, ErrorCode, valid, refused, Checked, validation_error,
  async_not_enabled, lora_missing, vram_budget_exceeded, get_or,
}
use local_image_generator_se.Validation.Image.{resolve_and_validate}
use local_image_generator_se.Workflows.Graph.{Graph}
use local_image_generator_se.Workflows.Sources.{inject_init_image}
use local_image_generator_se.Worker.Prompt.{prepare_graph, actual_seed}
use local_image_generator_se.Worker.Backend.{
  Bytes, Raised, comfy_unreachable, comfy_node, comfy_timeout, storage_error, other, Answer,
  returned, raised, upload_image, unload_models, health, free, submit, wait_for_completion,
  fetch_outputs, cancel_prompt, Snapshot, Posted, invalid, body, World, Work, give, throw, attempt,
  call, record_job_event, on_store, on_graph, fail, ◌>>=◌, ◌>>◌,
}

abbrev code_text : ErrorCode → String
code_text validation_error = "validation_error"
code_text async_not_enabled = "async_not_enabled"
code_text lora_missing = "lora_missing"
code_text vram_budget_exceeded = "vram_budget_exceeded"

abbrev pub revalidation_failed : String → Raised
revalidation_failed message = comfy_node (str_append "re-validation failed: " message)

abbrev pub accept : {A : Type 0} → World → Job → Checked A → Work A
accept world job (valid validated) = give validated
accept world job (refused code reason) =
    let message = world.refusal_text code reason in
    fail world job (code_text code) message (revalidation_failed message)

abbrev pub refuse_json : {A : Type 0} → World → Job → String → Work A
refuse_json world job e =
    fail world job "validation_error" (str_append "stored input_json is not valid JSON: " e)
      (revalidation_failed e)

unfoldable pub revalidate : World → Job → Posted GenerateRequest → Work ValidatedJob
unfolding fail
revalidate world job (invalid e) =
    fail world job "validation_error" (str_append "re-validation of stored input_json failed: " e)
      (revalidation_failed e)
revalidate world job (body req) = accept world job (resolve_and_validate world.site req)

abbrev pub read_workflow : Option Graph → Work Graph
read_workflow none = throw (other "load_workflow")
read_workflow (some graph) = give graph

unfoldable pub prepare : World → ValidatedJob → Work Graph
prepare world validated = do
  template ← read_workflow (world.load_workflow validated.model.workflow_path)
  on_graph world (prepare_graph (actual_seed world.randbelow validated) validated template)

-- except ComfyUnreachableError
abbrev pub on_unreachable : {A : Type 0} → World → Job → Raised → Work A
on_unreachable world job (comfy_unreachable m) =
    fail world job "comfy_unreachable" m (comfy_unreachable m)
on_unreachable world job e = throw e

abbrev pub upload_as : World → Job → Bytes → Text → Work (Unit {0})
upload_as world job bs filename =
    attempt (call (upload_image filename) (world.on_upload_image bs filename))
      (on_unreachable world job)

abbrev pub upload_bytes : World → Job → Text → Option Bytes → Graph → Work Graph
upload_bytes world job filename none graph = give graph
upload_bytes world job filename (some []) graph = give graph
upload_bytes world job filename (some (b ∷ bs)) graph =
    upload_as world job (b ∷ bs) filename >> on_graph world (inject_init_image filename graph)

unfoldable pub upload_init_image : World → Job → ValidatedJob → Graph → Work Graph
unfolding fail
upload_init_image world job validated graph =
    upload_bytes world job (world.id_text job.id ++ codes ".png") validated.init_image_bytes graph

abbrev pub enough : ModelConfig → Answer Snapshot → Bool
enough next_model (raised e) = false
enough next_model (returned s) = if s.is_ok then fits s.vram_free_gb else false
  where
    fits : Option ℕ → Bool
    fits none = false
    fits (some free_gb) = leb (next_model.vram_estimate_gb + 500) free_gb

-- The exceptions of `health` are swallowed.
unfoldable pub has_swap_headroom : World → ModelConfig → Work Bool
has_swap_headroom world next_model = do
  call health (returned tt)
  give (enough next_model world.on_health)

abbrev pub swap_refused : World → Text → Text → String
swap_refused world last_name current =
    str_append "model swap refused: /free did not increase vram_free within 30s (" (
      str_append (world.name_text last_name)
        (str_append " -> " (str_append (world.name_text current) ")")))

abbrev pub refuse_swap : World → Job → Text → ModelConfig → Bool → Work (Unit {0})
refuse_swap world job last_name model true = give tt
refuse_swap world job last_name model false =
    let m = swap_refused world last_name model.name in
    fail world job "vram_budget_exceeded" m (comfy_node m)

abbrev pub after_unload : World → Job → Text → ModelConfig → Bool → Work (Unit {0})
after_unload world job last_name model true = give tt
after_unload world job last_name model false =
    has_swap_headroom world model >>= refuse_swap world job last_name model

abbrev pub swap_from : World → Job → ModelConfig → Option Text → Work (Unit {0})
swap_from world job model none = give tt
swap_from world job model (some last_name) =
    if text_eq last_name model.name
    then give tt
    else (call unload_models world.on_unload_models >>= after_unload world job last_name model)

unfoldable pub enforce_swap : World → Job → ModelConfig → Work (Unit {0})
unfolding fail has_swap_headroom
enforce_swap world job model w = swap_from world job model w.last_model_name w

abbrev pub on_submit_error : {A : Type 0} → World → Job → Raised → Work A
on_submit_error world job (comfy_unreachable m) =
    fail world job "comfy_unreachable" m (comfy_unreachable m)
on_submit_error world job (comfy_node m) = fail world job "comfy_error" m (comfy_node m)
on_submit_error world job e = throw e

unfoldable pub submit_graph : World → Job → Graph → Work String
unfolding fail
submit_graph world job graph =
    attempt (call (submit graph) (world.on_submit graph)) (on_submit_error world job)

abbrev pub safe_cancel : String → Work (Unit {0})
safe_cancel prompt_id = call (cancel_prompt prompt_id) (returned tt)

abbrev pub safe_free : Work (Unit {0})
safe_free = call free (returned tt)

abbrev pub text_of : Raised → String
text_of (comfy_unreachable m) = m
text_of (comfy_node m) = m
text_of (comfy_timeout m) = m
text_of (storage_error m) = m
text_of (other m) = m

abbrev pub untracked : String → Raised → Work (Unit {0})
untracked prompt_id e = do
  safe_cancel prompt_id
  throw (comfy_node (str_append "set_running failed: " (text_of e)))

unfoldable pub track : World → Job → String → Work (Unit {0})
unfolding set_running
track world job prompt_id =
    attempt
      (on_store world (set_running (world.clock 0) job.id prompt_id world.client_id)
        >> record_job_event "running" none)
      (untracked prompt_id)

abbrev pub on_wait_error : World → Job → String → Raised → Work (Unit {0})
on_wait_error world job prompt_id (comfy_timeout m) = do
  safe_cancel prompt_id
  safe_free
  fail world job "comfy_timeout" m (comfy_timeout m)
on_wait_error world job prompt_id e = on_unreachable world job e

-- The timeout of the request, or that of the model, or that of the service.
abbrev pub wait_timeout_s : World → Option ℕ → ModelConfig → ℕ
wait_timeout_s world timeout_s model =
    get_or timeout_s (get_or model.defaults.job_timeout_s world.job_timeout_s)

unfoldable pub wait : World → Job → ℕ → String → Work (Unit {0})
unfolding fail
wait world job timeout_s prompt_id =
    attempt (call (wait_for_completion prompt_id) (world.on_wait prompt_id timeout_s))
      (on_wait_error world job prompt_id)

abbrev pub not_empty : World → Job → List Bytes → Work (List Bytes)
not_empty world job [] =
    let m : String = "ComfyUI returned zero outputs" in
    fail world job "comfy_error" m (comfy_node m)
not_empty world job (png ∷ pngs) = give (png ∷ pngs)

unfoldable pub fetch : World → Job → String → Work (List Bytes)
unfolding fail
fetch world job prompt_id = do
  images ←
      attempt (call (fetch_outputs prompt_id) (world.on_fetch_outputs prompt_id))
        (on_unreachable world job)
  not_empty world job images
