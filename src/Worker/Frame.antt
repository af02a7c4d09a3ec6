-- ===== src/Worker/Frame.antt =====
-- app/queue/worker.py: what a job cannot change. An invariant that the calls, the events, the last
-- model and the status changes of the job keep is kept by the whole of `_process_one`.
pub mod Media
pub mod Rest
pub mod Whole
pub mod Others
pub mod Loop
use local_image_generator_se.Common.{
  ℕ, suc, String, ◌≡◌, refl, Bool, true, false, Option, none, some, List, [], ◌∷◌, ◌++◌, inl, inr,
  Bool-cases, if◌then◌else◌,
}
use local_image_generator_se.Common.Text.{Text, codes, text_eq, starts_with}
use local_image_generator_se.Schema.{Job}
use local_image_generator_se.Jobs.Operations.{Change, change, to_failed, to_running, to_completed}
use local_image_generator_se.Validation.Request.{
  ValidatedJob, GenerateRequest, ModelConfig, Checked, valid, refused,
}
use local_image_generator_se.Validation.Image.{resolve_and_validate}
use local_image_generator_se.Workflows.Graph.{Graph, Attempt, done, raised as fault}
use local_image_generator_se.Workflows.Sources.{inject_init_image}
use local_image_generator_se.Worker.Backend.{
  Bytes, Raised, comfy_unreachable, comfy_node, comfy_timeout, storage_error, other, Answer,
  returned, raised, Call, Event, upload_image, unload_models, health, free, submit,
  wait_for_completion, fetch_outputs, cancel_prompt, upload_png, Worker, Posted, invalid, body,
  JobResult, World, Work, fail, fail_unmetered, call, attempt, on_store, on_graph, record_job_event,
  throw, give, handled, ◌>>=◌, ◌>>◌,
}
use local_image_generator_se.Worker.Row.{Ends, bind-Ends, handled-Ends}
use local_image_generator_se.Worker.Steps.{
  accept, revalidate, read_workflow, prepare, upload_as, upload_bytes, upload_init_image,
  on_unreachable, refuse_swap, after_unload, swap_from, enforce_swap, has_swap_headroom,
  on_submit_error, submit_graph, safe_cancel, safe_free, untracked, track, on_wait_error, wait,
  wait_timeout_s, not_empty, fetch,
}

module _ (world : World) (job : Job) (Inv : Worker → Type 0) where
  abbrev pub Calm : {A : Type 0} → A → Worker → Type 0
  Calm _ w = Inv w

  abbrev pub Stays : {A : Type 0} → Answer A × Worker → Type 0
  Stays = Ends Calm Calm

  abbrev pub IsFrame : Type 0
  IsFrame =
      ((c : Call) (w : Worker) → Inv w → Inv (record w { calls = w.calls ++ c ∷ [] }))
      × ((now : ℕ) (c : Change) (w : Worker)
          → Inv w
          → Stays (on_store world (change now job.id c) w))
      × ((es : Option (List Event)) (w : Worker) → Inv w → Inv (record w { events = es }))
      × ((m : Option Text) (w : Worker) → Inv w → Inv (record w { last_model_name = m }))

  module _ (frame : IsFrame) where
    pub step :
        (A B : Type 0) (m : Work A) (f : A → Work B) (w : Worker)
        → Stays (m w)
        → ((a : A) (w' : Worker) → Inv w' → Stays (f a w'))
        → Stays ((m >>= f) w)
    step A B m f w = bind-Ends Calm Calm Calm m f w

    pub fail-Stays :
        (A : Type 0) (code message : String) (e : Raised) (w : Worker)
        → Inv w
        → Stays {A = A} (fail world job code message e w)
    unfolding fail change
    fail-Stays A code message e w i =
        step Job A (on_store world (change (world.clock 1) job.id (to_failed code message))) _ w
          (frame.1 (world.clock 1) (to_failed code message) w i) (λ _ w' k. frame.2 _ w' k)

    pub unreachable-Stays :
        (A : Type 0) (e : Raised) (w : Worker)
        → Inv w
        → Stays {A = A} (on_unreachable world job e w)
    unreachable-Stays A (comfy_unreachable m) w i = fail-Stays A _ _ _ w i
    unreachable-Stays A (comfy_node m) w i = i
    unreachable-Stays A (comfy_timeout m) w i = i
    unreachable-Stays A (storage_error m) w i = i
    unreachable-Stays A (other m) w i = i

    pub called-Stays :
        (A : Type 0) (c : Call) (answer : Answer A) (h : Raised → Work A) (w : Worker)
        → Inv w
        → ((e : Raised) (w' : Worker) → Inv w' → Stays (h e w'))
        → Stays (attempt (call c answer) h w)
    called-Stays A c (returned a) h w i k = frame.0 c w i
    called-Stays A c (raised e) h w i k = k e _ (frame.0 c w i)

    pub fail_unmetered-Stays :
        (A : Type 0) (code message : String) (e : Raised) (w : Worker)
        → Inv w
        → Stays {A = A} (fail_unmetered world job code message e w)
    unfolding fail_unmetered change
    fail_unmetered-Stays A code message e w i =
        step Job A (on_store world (change (world.clock 1) job.id (to_failed code message))) _ w
          (frame.1 (world.clock 1) (to_failed code message) w i) (λ _ w' k. k)

    pub accept-Stays :
        (A : Type 0) (c : Checked A) (w : Worker) → Inv w → Stays (accept world job c w)
    accept-Stays A (valid v) w i = i
    accept-Stays A (refused c r) w i = fail-Stays A _ _ _ w i

    pub revalidate-Stays :
        (posted : Posted GenerateRequest) (w : Worker)
        → Inv w
        → Stays (revalidate world job posted w)
    unfolding revalidate
    revalidate-Stays (invalid e) w i = fail-Stays ValidatedJob _ _ _ w i
    revalidate-Stays (body req) w i =
        accept-Stays ValidatedJob (resolve_and_validate world.site req) w i

    pub read-Stays : (o : Option Graph) (w : Worker) → Inv w → Stays (read_workflow o w)
    read-Stays none w i = i
    read-Stays (some g) w i = i

    pub graph-Stays : (g : Attempt Graph) (w : Worker) → Inv w → Stays (on_graph world g w)
    graph-Stays (done g) w i = i
    graph-Stays (fault e) w i = i

    pub prepare-Stays : (v : ValidatedJob) (w : Worker) → Inv w → Stays (prepare world v w)
    unfolding prepare
    prepare-Stays v w i =
        step Graph Graph (read_workflow (world.load_workflow v.model.workflow_path)) _ w
          (read-Stays (world.load_workflow v.model.workflow_path) w i)
          (λ g w' k. graph-Stays _ w' k)

    pub upload_bytes-Stays :
        (filename : Text) (o : Option Bytes) (g : Graph) (w : Worker)
        → Inv w
        → Stays (upload_bytes world job filename o g w)
    upload_bytes-Stays filename none g w i = i
    upload_bytes-Stays filename (some []) g w i = i
    upload_bytes-Stays filename (some (b ∷ bs)) g w i =
        step (Unit {0}) Graph (upload_as world job (b ∷ bs) filename)
          (λ _. on_graph world (inject_init_image filename g)) w
          (called-Stays (Unit {0}) (upload_image filename) (world.on_upload_image (b ∷ bs) filename)
            (on_unreachable world job) w i (unreachable-Stays (Unit {0})))
          (λ _ w' k. graph-Stays (inject_init_image filename g) w' k)

    refuse_swap-Stays :
        (last_name : Text) (model : ModelConfig) (b : Bool) (w : Worker)
        → Inv w
        → Stays (refuse_swap world job last_name model b w)
    refuse_swap-Stays last_name model true w i = i
    refuse_swap-Stays last_name model false w i = fail-Stays (Unit {0}) _ _ _ w i

    unloaded-Stays :
        (last_name : Text) (model : ModelConfig) (r : Answer Bool) (w : Worker)
        → Inv w
        → Stays ((call unload_models r >>= after_unload world job last_name model) w)
    unfolding has_swap_headroom
    unloaded-Stays last_name model (returned true) w i = frame.0 unload_models w i
    unloaded-Stays last_name model (returned false) w i =
        refuse_swap-Stays last_name model _ _ (frame.0 health _ (frame.0 unload_models w i))
    unloaded-Stays last_name model (raised e) w i = frame.0 unload_models w i

    pub swap_from-Stays :
        (model : ModelConfig) (o : Option Text) (w : Worker)
        → Inv w
        → Stays (swap_from world job model o w)
    swap_from-Stays model none w i = i
    swap_from-Stays model (some last_name) w i = elim (Bool-cases (text_eq last_name model.name)) [
      | inl e ↦ rw e i
      | inr e ↦ rw e (unloaded-Stays last_name model world.on_unload_models w i)
    ]

    pub on_submit_error-Stays :
        (e : Raised) (w : Worker) → Inv w → Stays {A = String} (on_submit_error world job e w)
    on_submit_error-Stays (comfy_unreachable m) w i = fail-Stays String _ _ _ w i
    on_submit_error-Stays (comfy_node m) w i = fail-Stays String _ _ _ w i
    on_submit_error-Stays (comfy_timeout m) w i = i
    on_submit_error-Stays (storage_error m) w i = i
    on_submit_error-Stays (other m) w i = i
