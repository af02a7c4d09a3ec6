-- ===== src/Tests/Pipeline.antt =====
-- Examples for app/queue/worker.py.
use local_image_generator_se.Common.{◌+◌, ◌/◌, ◌≡◌, refl, true, false, none, some, List, [], ◌∷◌}
use local_image_generator_se.Common.Table.{find}
use local_image_generator_se.Common.Text.{codes, text_eq, among, starts_with}
use local_image_generator_se.Schema.{Job, queued, running}
use local_image_generator_se.Store.{connected}
use local_image_generator_se.Validation.Request.{valid}
use local_image_generator_se.Worker.Backend.{
  Raised, comfy_node, Answer, returned, raised, Worker, World, JobResult, request, body,
}
use local_image_generator_se.Worker.Row.{At}
use local_image_generator_se.Worker.Pipeline.{process_one, run}
use local_image_generator_se.Worker.Frame.Others.{Queued, Verdicts}
use local_image_generator_se.Worker.Frame.Loop.{run-Settles}
use local_image_generator_se.Worker.Verdict.{Verdict, process_one-Settles}
use local_image_generator_se.Validation.Image.{
  resolve_and_validate, check_enums, allowed_samplers_by_family, allowed_schedulers_by_family,
  merge_defaults, check_size, check_counts, check_mode, validated_job,
}
use local_image_generator_se.Validation.Size.{parse_size}
use local_image_generator_se.Validation.Webhook.{resolve_webhook}
use local_image_generator_se.Validation.Loras.{resolve_loras_for_job, guard_vram, decode_init_image}
use local_image_generator_se.Worker.Quiet.{Quiet}
use local_image_generator_se.Worker.Swap.{image, process_one-swap}
use local_image_generator_se.Tests.Samples.{row, database}
use local_image_generator_se.Tests.Request.{image_model, image_request, image_job, site_with}
use local_image_generator_se.Workflows.Graph.{int}
use local_image_generator_se.Tests.Workflow.{graph}

-- ComfyUI accepts the prompt, and then reports that a node failed.
abbrev failing_world : World
failing_world = record {
  site = site_with image_model;
  load = λ t. request (body image_request);
  load_workflow = λ p. some graph;
  randbelow = 7;
  clock = λ n. 100 + n;
  duration_ms = 5;
  quotient = λ a b. int (a / b);
  job_timeout_s = 300000;
  public_base_url = codes "https://images.example";
  id_text = λ k. codes "a";
  name_text = λ t. "model";
  refusal_text = λ c r. "refused";
  fault_text = λ f. "fault";
  error_text = λ e. "database";
  repr = λ bs. "b''";
  dumps = λ r. "{}";
  b64encode = λ bs. bs;
  apply_transparent_background = λ bs. returned bs;
  client_id = "client";
  on_upload_image = λ bs f. returned tt;
  on_unload_models = returned true;
  on_health = raised (comfy_node "health");
  on_submit = λ g. returned "p1";
  on_wait = λ p t. raised (comfy_node "node 7 failed");
  on_fetch_outputs = λ p. returned [];
  on_upload_png = λ k i b. returned "bucket/key";
  on_fetch_media = none;
  on_upload_blob = none;
}

abbrev worker : Worker
worker = record { store = connected database; last_model_name = none; calls = []; events = some [] }

abbrev queued_job : Job
queued_job = row "a" 3 queued

abbrev running_job : Job
running_job = row "b" 1 running

queued-At : At "a" queued worker
unfolding find
queued-At = (database, queued_job, refl, refl, refl)

running-At : At "b" running worker
unfolding find
running-At = (database, running_job, refl, refl, refl)

process_one-Settles_example :
    (a : Answer JobResult) × (w' : Worker) × (process_one failing_world queued_job worker
      ≡ (returned a, w'))
    × Verdict failing_world queued_job a w'
process_one-Settles_example = process_one-Settles failing_world queued_job worker queued-At

-- The models cannot be seen to unload, and the health check fails.
abbrev full_world : World
full_world = record failing_world { on_unload_models = returned false }

abbrev other_model : Worker
other_model = record worker { last_model_name = some (codes "flux") }

accepted_request : resolve_and_validate (site_with image_model) image_request ≡ valid image_job
unfolding resolve_and_validate check_enums among allowed_samplers_by_family merge_defaults
    allowed_schedulers_by_family check_size parse_size check_counts check_mode resolve_webhook
    starts_with resolve_loras_for_job guard_vram decode_init_image
accepted_request = refl

other_model-At : At "a" queued other_model
unfolding find
other_model-At = (database, queued_job, refl, refl, refl)

process_one-swap_example :
    (e : Raised) × (w' : Worker) × (process_one full_world queued_job other_model
      ≡ (returned (raised e), w'))
    × Quiet full_world queued_job other_model w'
unfolding text_eq validated_job
process_one-swap_example =
    process_one-swap full_world queued_job other_model image_model (codes "flux") other_model-At
      (image image_request image_job refl accepted_request) refl refl refl refl

abbrev busy_worker : Worker
busy_worker = record worker {
  store = connected (record database { jobs = row "a" 3 queued ∷ row "e" 4 queued ∷ [] });
}

abbrev two_items : List (World × Job)
two_items = (failing_world, row "a" 3 queued) ∷ (full_world, row "e" 4 queued) ∷ []

two_items-Queued : Queued two_items busy_worker
unfolding find
two_items-Queued = (
  (refl, tt),
  (refl, tt),
  (_, row "a" 3 queued, refl, refl, refl),
  (tt, tt, (_, row "e" 4 queued, refl, refl, refl), tt),
)

run-Settles_example :
    (answers : List (Answer JobResult)) × (w' : Worker) × (run two_items busy_worker
      ≡ (returned answers, w'))
    × Verdicts two_items answers w'
run-Settles_example = run-Settles two_items busy_worker two_items-Queued
