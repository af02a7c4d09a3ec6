-- ===== src/Worker/Stages.antt =====
-- app/queue/worker.py: each stage of `_run_pipeline` on a row that is queued, or running.
use local_image_generator_se.Common.{
  String, ◌≡◌, refl, Bool, true, false, Option, none, some, [], ◌∷◌, ◌++◌, inl, inr, Bool-cases,
}
use local_image_generator_se.Common.Text.{Text, codes, text_eq}
use local_image_generator_se.Schema.{Job, JobStatus}
use local_image_generator_se.Jobs.Transitions.{allowed_transitions}
use local_image_generator_se.Validation.Request.{
  ValidatedJob, GenerateRequest, ModelConfig, valid, refused, Checked,
}
use local_image_generator_se.Validation.Image.{resolve_and_validate}
use local_image_generator_se.Workflows.Graph.{Graph, done, raised as fault, Attempt}
use local_image_generator_se.Workflows.Sources.{inject_init_image}
use local_image_generator_se.Worker.Backend.{
  Bytes, Raised, comfy_unreachable, comfy_node, comfy_timeout, storage_error, other, Answer,
  returned, raised, upload_image, unload_models, Worker, Posted, invalid, body, World, fail, call,
  on_graph, ◌>>=◌,
}
use local_image_generator_se.Worker.Row.{Ends, bind-Ends, At}
use local_image_generator_se.Worker.Settled.{
  is_other, uncaught, unloading, uploading, submitting, Lost, Keeps, fail-Lost, on_unreachable-Lost,
  called-Keeps,
}
use local_image_generator_se.Worker.Steps.{
  accept, upload_as, on_unreachable, revalidate, read_workflow, prepare, upload_bytes,
  upload_init_image, refuse_swap, after_unload, swap_from, enforce_swap, has_swap_headroom,
  on_submit_error, submit_graph,
}

module _ (world : World) (job : Job) (a : JobStatus)
    (t : allowed_transitions a JobStatus.failed ≡ true) where
  abbrev failing :
      {A : Type 0} (P : A → Worker → Type 0) (code message : String) (e : Raised) (w : Worker)
      → At job.id a w
      → is_other e ≡ false
      → Ends P (Lost world job a) (fail world job code message e w)
  failing = fail-Lost world job a t

  pub accept-Keeps :
      {A : Type 0} (c : Checked A) (w : Worker)
      → At job.id a w
      → Keeps world job a (accept world job c w)
  accept-Keeps (valid v) w h = h
  accept-Keeps (refused c r) w h = failing (λ _ w'. At job.id a w') _ _ _ w h refl

  pub revalidate-Keeps :
      (posted : Posted GenerateRequest) (w : Worker)
      → At job.id a w
      → Keeps world job a (revalidate world job posted w)
  unfolding revalidate
  revalidate-Keeps (invalid e) w h = failing (λ _ w'. At job.id a w') _ _ _ w h refl
  revalidate-Keeps (body req) w h = accept-Keeps (resolve_and_validate world.site req) w h

  pub on_graph-Keeps :
      {A : Type 0} (g : Attempt A) (w : Worker)
      → At job.id a w
      → Keeps world job a (on_graph world g w)
  on_graph-Keeps (done g) w h = h
  on_graph-Keeps (fault e) w h = inr (h, uncaught _ refl)

  pub read_workflow-Keeps :
      (o : Option Graph) (w : Worker) → At job.id a w → Keeps world job a (read_workflow o w)
  read_workflow-Keeps none w h = inr (h, uncaught _ refl)
  read_workflow-Keeps (some g) w h = h

  abbrev Steady : {A : Type 0} → A → Worker → Type 0
  Steady _ w = At job.id a w

  pub prepare-Keeps :
      (v : ValidatedJob) (w : Worker) → At job.id a w → Keeps world job a (prepare world v w)
  unfolding prepare
  prepare-Keeps v w h =
      bind-Ends Steady Steady (Lost world job a)
        (read_workflow (world.load_workflow v.model.workflow_path)) _ w
        (read_workflow-Keeps (world.load_workflow v.model.workflow_path) w h)
        (λ g w' p. on_graph-Keeps _ w' p)

  upload_as-Keeps :
      (bs : Bytes) (filename : Text) (w : Worker)
      → At job.id a w
      → Keeps world job a (upload_as world job bs filename w)
  upload_as-Keeps bs filename w h =
      called-Keeps world job a (upload_image filename) (world.on_upload_image bs filename)
        (on_unreachable world job) w h
        λ e q w' p. on_unreachable-Lost world job a t Steady e w' (λ u. uploading bs filename q u) p

  pub upload_bytes-Keeps :
      (filename : Text) (o : Option Bytes) (g : Graph) (w : Worker)
      → At job.id a w
      → Keeps world job a (upload_bytes world job filename o g w)
  upload_bytes-Keeps filename none g w h = h
  upload_bytes-Keeps filename (some []) g w h = h
  upload_bytes-Keeps filename (some (b ∷ bs)) g w h =
      bind-Ends Steady Steady (Lost world job a) (upload_as world job (b ∷ bs) filename)
        (λ _. on_graph world (inject_init_image filename g)) w
        (upload_as-Keeps (b ∷ bs) filename w h)
        (λ _ w' p. on_graph-Keeps (inject_init_image filename g) w' p)

  pub upload_init_image-Keeps :
      (v : ValidatedJob) (g : Graph) (w : Worker)
      → At job.id a w
      → Keeps world job a (upload_init_image world job v g w)
  unfolding upload_init_image
  upload_init_image-Keeps v g w h =
      upload_bytes-Keeps (world.id_text job.id ++ codes ".png") v.init_image_bytes g w h

  refuse_swap-Keeps :
      (last_name : Text) (model : ModelConfig) (b : Bool) (w : Worker)
      → At job.id a w
      → Keeps world job a (refuse_swap world job last_name model b w)
  refuse_swap-Keeps last_name model true w h = h
  refuse_swap-Keeps last_name model false w h = failing Steady _ _ _ w h refl

  after_unload-Keeps :
      (last_name : Text) (model : ModelConfig) (b : Bool) (w : Worker)
      → At job.id a w
      → Keeps world job a (after_unload world job last_name model b w)
  unfolding has_swap_headroom
  after_unload-Keeps last_name model true w h = h
  after_unload-Keeps last_name model false w h = refuse_swap-Keeps last_name model _ _ h

  unloaded-Keeps :
      (last_name : Text) (model : ModelConfig) (r : Answer Bool) (w : Worker)
      → world.on_unload_models ≡ r
      → At job.id a w
      → Keeps world job a ((call unload_models r >>= after_unload world job last_name model) w)
  unloaded-Keeps last_name model (returned b) w e h = after_unload-Keeps last_name model b _ h
  unloaded-Keeps last_name model (raised x) w e h = inr (h, unloading e)

  swap_from-Keeps :
      (model : ModelConfig) (o : Option Text) (w : Worker)
      → At job.id a w
      → Keeps world job a (swap_from world job model o w)
  swap_from-Keeps model none w h = h
  swap_from-Keeps model (some last_name) w h = elim (Bool-cases (text_eq last_name model.name)) [
    | inl e ↦ rw e h
    | inr e ↦ rw e (unloaded-Keeps last_name model world.on_unload_models w refl h)
  ]

  pub enforce_swap-Keeps :
      (model : ModelConfig) (w : Worker)
      → At job.id a w
      → Keeps world job a (enforce_swap world job model w)
  unfolding enforce_swap
  enforce_swap-Keeps model w h = swap_from-Keeps model w.last_model_name w h

  on_submit_error-Lost :
      (graph : Graph) (e : Raised)
      → world.on_submit graph ≡ raised e
      → (w : Worker) → At job.id a w
      → Keeps world job a {A = String} (on_submit_error world job e w)
  on_submit_error-Lost graph (comfy_unreachable m) q w h = failing Steady _ _ _ w h refl
  on_submit_error-Lost graph (comfy_node m) q w h = failing Steady _ _ _ w h refl
  on_submit_error-Lost graph (comfy_timeout m) q w h = inr (h, submitting graph q refl refl)
  on_submit_error-Lost graph (storage_error m) q w h = inr (h, submitting graph q refl refl)
  on_submit_error-Lost graph (other m) q w h = inr (h, uncaught m refl)

  pub submit_graph-Keeps :
      (g : Graph) (w : Worker) → At job.id a w → Keeps world job a (submit_graph world job g w)
  unfolding submit_graph
  submit_graph-Keeps g w h = called-Keeps world job a _ _ _ w h (on_submit_error-Lost g)
