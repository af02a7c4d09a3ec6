-- ===== src/Worker/Swap.antt =====
-- app/queue/worker.py: a change of models without room for the next one.
use local_image_generator_se.Common.{
  String, ◌≡◌, refl, sym, subst, ap, ◌∙◌, true, false, Option, some, [], ◌∷◌, ◌++◌, arith,
}
use local_image_generator_se.Common.Text.{Text, codes, text_eq}
use local_image_generator_se.Schema.{Job}
use local_image_generator_se.Jobs.Transitions.{set_failed}
use local_image_generator_se.Validation.Request.{
  ValidatedJob, GenerateRequest, valid, ModelConfig, Task, VideoGenerateRequest, ValidatedVideoJob,
}
use local_image_generator_se.Validation.Video.{resolve_and_validate_video}
use local_image_generator_se.Validation.Image.{resolve_and_validate}
use local_image_generator_se.Workflows.Graph.{
  Graph, Attempt, done, raised as fault, workflow_validation, anchor_not_found, not_implemented,
  bad_inputs,
}
use local_image_generator_se.Schema.{queued}
use local_image_generator_se.Worker.Backend.{
  Bytes, Work, video, named, ◌>>=◌, ◌>>◌, Raised, comfy_unreachable, comfy_node, comfy_timeout,
  storage_error, other, Answer, returned, raised, submit, unload_models, health, Worker, request,
  body, JobResult, World, on_store,
}
use local_image_generator_se.Worker.Row.{At, Ends, bind-Ends}
use local_image_generator_se.Worker.Steps.{
  revalidate, read_workflow, upload_bytes, prepare, upload_init_image, swap_refused, swap_from,
  enough, enforce_swap, has_swap_headroom,
}
use local_image_generator_se.Worker.Pipeline.{
  is_ltxv, image_pipeline, run_pipeline, note_failed, conclude, concluded, process_one,
}
use local_image_generator_se.Worker.Verdict.{process_one-Settles}
use local_image_generator_se.Worker.Wan.{is_core, wan_injected}
use local_image_generator_se.Worker.Video.{
  prepared_or_fail, prepare_ltxv, prepare_wan, upload_reference, revalidate_ltxv, revalidate_wan,
  ltxv_pipeline, wan_pipeline,
}
use local_image_generator_se.Worker.Quiet.{
  read-Quiet, graph-Quiet, Quiet, Calm, on_store-Quiet, fail-Quiet, prepare-Quiet, earlier,
  upload_bytes-Quiet,
}

-- The stored input of the job is a request that its validator accepts, with this model: that of an
-- image, of a video of the LTXV family, or of another video.
pub data Accepted (world : World) (job : Job) : ModelConfig → Type 0 where
  image :
      (req : GenerateRequest) (v : ValidatedJob)
      → world.load job.input_json ≡ request (body req)
      → resolve_and_validate world.site req ≡ valid v
      → Accepted world job v.model
  ltx_video :
      (task : Task) (name : Text) (req : VideoGenerateRequest) (v : ValidatedVideoJob)
      → world.load job.input_json ≡ video (some task) (named name (body req))
      → is_ltxv (world.site.registry name) ≡ true
      → resolve_and_validate_video world.site task req ≡ valid v
      → Accepted world job v.model
  wan_video :
      (task : Task) (name : Text) (req : VideoGenerateRequest) (v : ValidatedVideoJob)
      → world.load job.input_json ≡ video (some task) (named name (body req))
      → is_ltxv (world.site.registry name) ≡ false
      → resolve_and_validate_video world.site task req ≡ valid v
      → Accepted world job v.model

module _ (world : World) (job : Job) (start : Worker) where
  from-Quiet :
      (m : Text) (model : ModelConfig) (w : Worker)
      → text_eq m model.name ≡ false
      → world.on_unload_models ≡ returned false
      → enough model world.on_health ≡ false
      → Quiet world job start w
      → Ends {A = Unit {0}} (λ _ _. ⊥) (Calm world job start) (swap_from world job model (some m) w)
  unfolding has_swap_headroom
  from-Quiet m model w n u h (l, k) =
      let w1 : Worker = record w { calls = w.calls ++ unload_models ∷ [] } in
      let w2 : Worker = record w { calls = w1.calls ++ health ∷ [] } in
      let q : Quiet world job start w2 = (
        l,
        λ g i. k g (
            earlier world job start unload_models g w.calls (not_unload g)
              (earlier world job start health g w1.calls (not_health g) i)),
      ) in
      let message = swap_refused world m model.name in
      rw (n, u, h)
        (fail-Quiet world job start {A = Unit {0}} (λ _ _. ⊥) "vram_budget_exceeded" message
          (comfy_node message) w2 q)
    where
      not_unload : (g : Graph) → ¬ (submit g ≡ unload_models)
      not_unload g e = absurd (ground (arith, e))

      not_health : (g : Graph) → ¬ (submit g ≡ health)
      not_health g e = absurd (ground (arith, e))

  swap-Quiet :
      (m : Text) (model : ModelConfig) (w : Worker)
      → start.last_model_name ≡ some m
      → text_eq m model.name ≡ false
      → world.on_unload_models ≡ returned false
      → enough model world.on_health ≡ false
      → Quiet world job start w
      → Ends {A = Unit {0}} (λ _ _. ⊥) (Calm world job start) (enforce_swap world job model w)
  unfolding enforce_swap
  swap-Quiet m model w e n u h q =
      subst
        (λ o. Ends {A = Unit {0}} (λ _ _. ⊥) (Calm world job start) (swap_from world job model o w))
        (sym (q.0 ∙ e)) (from-Quiet m model w n u h q)

  -- From a graph to the submission, which is not reached.
  unswapped :
      {A : Type 0} (m : Text) (model : ModelConfig) (filename : Text) (bytes : Option Bytes)
      (g : Graph) (rest : Graph → Work A) (w : Worker)
      → start.last_model_name ≡ some m
      → text_eq m model.name ≡ false
      → world.on_unload_models ≡ returned false
      → enough model world.on_health ≡ false
      → Quiet world job start w
      → Ends {A = A}
          (λ _ _. ⊥)
          (Calm world job start)
          ((upload_bytes world job filename bytes g >>= λ g'.
              enforce_swap world job model >> rest g')
            w)
  unswapped m model filename bytes g rest w p n u h q =
      bind-Ends (Calm world job start) (λ _ _. ⊥) (Calm world job start)
        (upload_bytes world job filename bytes g) _ w
        (upload_bytes-Quiet world job start filename bytes g w q)
        λ g2 w2 q2.
          bind-Ends (λ _ _. ⊥) (λ _ _. ⊥) (Calm world job start) (enforce_swap world job model)
            (λ _. rest g2) w2 (swap-Quiet m model w2 p n u h q2) λ _ _ k. absurd k

  prepared_or_fail-Quiet :
      (g : Attempt Graph) (w : Worker)
      → Quiet world job start w
      → Ends (Calm world job start) (Calm world job start) (prepared_or_fail world job g w)
  prepared_or_fail-Quiet (done g) w q = q
  prepared_or_fail-Quiet (fault workflow_validation) w q =
      fail-Quiet world job start (Calm world job start) _ _ _ w q
  prepared_or_fail-Quiet (fault anchor_not_found) w q = q
  prepared_or_fail-Quiet (fault not_implemented) w q = q
  prepared_or_fail-Quiet (fault bad_inputs) w q = q

  prepare_ltxv-Quiet :
      (v : ValidatedVideoJob)
      → Ends (Calm world job start) (Calm world job start) (prepare_ltxv world job v start)
  unfolding prepare_ltxv
  prepare_ltxv-Quiet v =
      bind-Ends (Calm world job start) (Calm world job start) (Calm world job start)
        (read_workflow (world.load_workflow v.resolved_workflow_path)) _ start
        (read-Quiet world job start (world.load_workflow v.resolved_workflow_path) start
          (refl, λ g i. i))
        λ g w q. prepared_or_fail-Quiet _ w q

  prepare_wan-Quiet :
      (task : Task) (v : ValidatedVideoJob)
      → Ends (Calm world job start) (Calm world job start) (prepare_wan world job task v start)
  unfolding prepare_wan
  prepare_wan-Quiet task v =
      bind-Ends (Calm world job start) (Calm world job start) (Calm world job start)
        (read_workflow (world.load_workflow v.resolved_workflow_path)) _ start
        (read-Quiet world job start (world.load_workflow v.resolved_workflow_path) start
          (refl, λ g i. i))
        λ g w q.
          bind-Ends (Calm world job start) (Calm world job start) (Calm world job start)
            (prepared_or_fail world job (wan_injected (is_core g) task v g)) _ w
            (prepared_or_fail-Quiet (wan_injected (is_core g) task v g) w q)
            λ g2 w2 q2. graph-Quiet world job start _ w2 q2

  -- The steps before the submission, for a request that is accepted.
  pipeline-Quiet :
      (model : ModelConfig) (m : Text)
      → Accepted world job model
      → start.last_model_name ≡ some m
      → text_eq m model.name ≡ false
      → world.on_unload_models ≡ returned false
      → enough model world.on_health ≡ false
      → Ends (λ _ _. ⊥) (Calm world job start) (run_pipeline world job start)
  unfolding run_pipeline image_pipeline revalidate upload_init_image ltxv_pipeline revalidate_ltxv
      wan_pipeline revalidate_wan upload_reference
  pipeline-Quiet model m (image req v l r) p n u h =
      rw (l, r)
        (bind-Ends (Calm world job start) (λ _ _. ⊥) (Calm world job start) (prepare world v) _
          start (prepare-Quiet world job start v start (refl, λ g i. i))
          λ g w q.
            unswapped m v.model (world.id_text job.id ++ codes ".png") v.init_image_bytes g _ w p n
              u h q)
  pipeline-Quiet model m (ltx_video task name req v l f r) p n u h =
      rw (l, f, r)
        (bind-Ends (Calm world job start) (λ _ _. ⊥) (Calm world job start)
          (prepare_ltxv world job v) _ start (prepare_ltxv-Quiet v)
          λ g w q.
            unswapped m v.model (world.id_text job.id ++ codes "_init.png") v.init_image_bytes g _ w
              p n u h q)
  pipeline-Quiet model m (wan_video task name req v l f r) p n u h =
      rw (l, f, r)
        (bind-Ends (Calm world job start) (λ _ _. ⊥) (Calm world job start)
          (prepare_wan world job task v) _ start (prepare_wan-Quiet task v)
          λ g w q.
            unswapped m v.model (world.id_text job.id ++ codes "_init.png") v.init_image_bytes g _ w
              p n u h q)

  note-Quiet :
      (code : String) (e : Raised) (w : Worker)
      → Quiet world job start w
      → Ends
          (λ a w'. ((x : Raised) × (a ≡ raised x)) × Quiet world job start w')
          (Calm world job start)
          (note_failed code e w)
  note-Quiet code e w q = ((e, refl), q)

  conclude-Quiet :
      (e : Raised) (w : Worker)
      → Quiet world job start w
      → Ends
          (λ a w'. ((x : Raised) × (a ≡ raised x)) × Quiet world job start w')
          (Calm world job start)
          (conclude world job (raised e) w)
  conclude-Quiet (comfy_unreachable m) w q = ((comfy_unreachable m, refl), q)
  conclude-Quiet (comfy_node m) w q = ((comfy_node m, refl), q)
  conclude-Quiet (comfy_timeout m) w q = ((comfy_timeout m, refl), q)
  conclude-Quiet (storage_error m) w q = ((storage_error m, refl), q)
  conclude-Quiet (other m) w q =
      bind-Ends (Calm world job start)
        (λ a w'. ((x : Raised) × (a ≡ raised x)) × Quiet world job start w') (Calm world job start)
        (on_store world (set_failed (world.clock 2) job.id "internal" m))
        (λ _. note_failed "internal" (other m)) w
        (on_store-Quiet world job start (set_failed (world.clock 2) job.id "internal" m) w q)
        (λ _ w' q'. note-Quiet "internal" (other m) w' q')

  concluded-Quiet :
      (r : Answer JobResult × Worker)
      → Ends (λ _ _. ⊥) (Calm world job start) r
      → Ends
          (λ a w'. ((x : Raised) × (a ≡ raised x)) × Quiet world job start w')
          (Calm world job start)
          (concluded world job r)
  concluded-Quiet (returned a, w) q = absurd q
  concluded-Quiet (raised e, w) q = conclude-Quiet e w q

failed_quietly :
    (world : World) (job : Job) (start : Worker) (r : Answer (Answer JobResult) × Worker)
    → ((a : Answer JobResult) × (w : Worker) × (r ≡ (returned a, w)))
    → Ends
        (λ a w. ((x : Raised) × (a ≡ raised x)) × Quiet world job start w)
        (Calm world job start)
        r
    → (e : Raised) × (w : Worker) × (r ≡ (returned (raised e), w)) × Quiet world job start w
failed_quietly world job start r (a, w, e) h =
    let ((x, s), q) =
      subst
        (Ends (λ b v. ((x : Raised) × (b ≡ raised x)) × Quiet world job start v)
          (Calm world job start))
        e h in
    (x, w, e ∙ ap (λ b. (returned b, w)) s, q)

-- Where the last job used another model, the models were not seen to be unloaded, and the memory
-- that is free does not suffice for the model of a queued job whose stored request is accepted, that
-- of an image or of a video, no graph is submitted for the job, its caller is given an exception,
-- the loop goes on, and the last model stays.
pub process_one-swap :
    (world : World) (job : Job) (w : Worker) (model : ModelConfig) (m : Text)
    → At job.id queued w
    → Accepted world job model
    → w.last_model_name ≡ some m
    → text_eq m model.name ≡ false
    → world.on_unload_models ≡ returned false
    → enough model world.on_health ≡ false
    → (e : Raised) × (w' : Worker) × (process_one world job w ≡ (returned (raised e), w'))
      × Quiet world job w w'
unfolding process_one
process_one-swap world job w model m at a p n u h =
    let (answer, w', e, verdict) = process_one-Settles world job w at in
    failed_quietly world job w (process_one world job w) (answer, w', e)
      (concluded-Quiet world job w (run_pipeline world job w)
        (pipeline-Quiet world job w model m a p n u h))
