-- ===== src/Worker/Completed.antt =====
-- app/queue/worker.py: each pipeline on a queued row, from its envelope to the completed row.
use local_image_generator_se.Common.{
  none, some, Bool-cases, Option, String, ◌≡◌, refl, false, List, inl, inr, ◌⊎◌,
}
use local_image_generator_se.Schema.{Job, JobStatus, queued, running, completed}
use local_image_generator_se.Jobs.Transitions.{allowed_transitions}
use local_image_generator_se.Jobs.Operations.{change, to_completed}
use local_image_generator_se.Validation.Request.{
  ValidatedJob, ValidatedVideoJob, GenerateRequest, VideoGenerateRequest, ModelConfig, Task,
}
use local_image_generator_se.Worker.Backend.{
  Raised, Answer, Worker, JobResult, World, Work, Posted, Stored, not_json, request, video, absent,
  odd, named, on_store, give, ◌>>=◌, ◌>>◌,
}
use local_image_generator_se.Worker.Row.{Ends, bind-Ends, weaken-Ends, At, change-At}
use local_image_generator_se.Worker.Settled.{is_other, Unrecorded, uncaught, Lost, fail-Lost}
use local_image_generator_se.Worker.Stages.{
  revalidate-Keeps, prepare-Keeps, upload_init_image-Keeps, enforce_swap-Keeps, submit_graph-Keeps,
}
use local_image_generator_se.Worker.Outputs.{
  track-running, wait-Ran, fetch-Ran, check_images-Ran, upload_all-Ran,
}
use local_image_generator_se.Worker.Steps.{
  revalidate, prepare, upload_init_image, enforce_swap, submit_graph, track, wait, wait_timeout_s,
  fetch,
}
use local_image_generator_se.Worker.Pipeline.{
  check_images, upload_all, result_of, collect, image_pipeline, is_ltxv, stored_pipeline,
  run_pipeline,
}
use local_image_generator_se.Worker.Finish.{remember, finish}
use local_image_generator_se.Worker.Media.{
  revalidate_wan-Keeps, prepare_wan-Keeps, revalidate_ltxv-Keeps, prepare_ltxv-Keeps,
  upload_reference-Keeps, fetch_media-Ran, upload_media-Ran,
}
use local_image_generator_se.Worker.Video.{
  ltxv_video, wan_video, VideoKind, revalidate_wan, prepare_wan, wan_from, wan_pipeline,
  revalidate_ltxv, prepare_ltxv, upload_reference, fetch_media, upload_media, video_result,
  output_keys, collect_media, ltxv_pipeline,
}
use local_image_generator_se.Workflows.Graph.{Graph}

module _ (world : World) (job : Job) where
  abbrev pub Finished : {A : Type 0} → A → Worker → Type 0
  Finished _ w = At job.id completed w

  abbrev Ran : {A : Type 0} → A → Worker → Type 0
  Ran _ w = At job.id running w

  abbrev Waits : {A : Type 0} → A → Worker → Type 0
  Waits _ w = At job.id queued w

  -- The pipeline raises with the row failed, or with one that is not at its end.
  abbrev pub OpenOrFailed : Raised → Worker → Type 0
  OpenOrFailed e w =
      (At job.id JobStatus.failed w × (is_other e ≡ false))
      ⊎ ((At job.id queued w ⊎ At job.id running w) × Unrecorded world e)

  finish-completed :
      (model : ModelConfig) (result : JobResult) (keys : List String) (w : Worker)
      → At job.id running w
      → Ends Finished (Lost world job running) (finish world job model result keys w)
  unfolding finish change allowed_transitions
  finish-completed model result keys w h =
      let to = to_completed keys (world.dumps result) in
      bind-Ends Finished Finished (Lost world job running)
        (on_store world (change (world.clock 1) job.id to) >> remember model.name)
        (λ _. give result) w
        (bind-Ends Finished Finished (Lost world job running)
          (on_store world (change (world.clock 1) job.id to)) (λ _. remember model.name) w
          (weaken-Ends Finished Finished (λ _ _. ⊥) (Lost world job running) _
            (change-At world (world.clock 1) job.id to running w h refl) (λ _ _ p. p)
            (λ _ _ p. absurd p))
          (λ _ _ p. p))
        (λ _ _ p. p)

  collect-completed :
      (v : ValidatedJob) (prompt_id : String) (w : Worker)
      → At job.id running w
      → Ends Finished (Lost world job running) (collect world job v prompt_id w)
  unfolding collect
  collect-completed v prompt_id w h =
      let L = Lost world job running in
      let timeout_s = wait_timeout_s world v.timeout_s v.model in
      bind-Ends Ran Finished L (wait world job timeout_s prompt_id) _ w
        (wait-Ran world job timeout_s prompt_id w h)
        λ _ w1 h1.
          bind-Ends Ran Finished L (fetch world job prompt_id) _ w1
            (fetch-Ran world job prompt_id w1 h1)
            λ images w2 h2.
              bind-Ends Ran Finished L (check_images world job v.transparent_background images) _ w2
                (check_images-Ran world job v.transparent_background images w2 h2)
                λ processed w3 h3.
                  bind-Ends Ran Finished L (upload_all world job 0 processed) _ w3
                    (upload_all-Ran world job 0 processed w3 h3)
                    λ keys w4 h4.
                      finish-completed v.model (result_of world job v processed) keys w4 h4

  collect_media-completed :
      (kind : VideoKind) (v : ValidatedVideoJob) (prompt_id : String) (w : Worker)
      → At job.id running w
      → Ends Finished (Lost world job running) (collect_media world job kind v prompt_id w)
  unfolding collect_media
  collect_media-completed kind v prompt_id w h =
      let L = Lost world job running in
      let timeout_s = wait_timeout_s world v.timeout_s v.model in
      bind-Ends Ran Finished L (wait world job timeout_s prompt_id) _ w
        (wait-Ran world job timeout_s prompt_id w h)
        λ _ w1 h1.
          bind-Ends Ran Finished L (fetch_media world job kind prompt_id) _ w1
            (fetch_media-Ran world job kind prompt_id w1 h1)
            λ rows w2 h2.
              bind-Ends Ran Finished L (upload_media world job 0 rows) _ w2
                (upload_media-Ran world job 0 rows w2 h2)
                λ uploaded w3 h3.
                  finish-completed v.model (video_result world job v uploaded)
                    (output_keys uploaded) w3 h3

  widen :
      {A : Type 0} (P : A → Worker → Type 0) (r : Answer A × Worker)
      → Ends P (Lost world job queued) r
      → Ends P OpenOrFailed r
  widen P r h = weaken-Ends P P (Lost world job queued) OpenOrFailed r h (λ _ _ p. p) go
    where
      go : (e : Raised) (w : Worker) → Lost world job queued e w → OpenOrFailed e w
      go e w (inl p) = inl p
      go e w (inr (p, u)) = inr (inl p, u)

  from_running : (e : Raised) (w : Worker) → Lost world job running e w → OpenOrFailed e w
  from_running e w (inl p) = inl p
  from_running e w (inr (p, u)) = inr (inr p, u)

  -- The steps that both pipelines share: the prepared graph is submitted and its outputs collected.
  submitted-Ends :
      (model : ModelConfig) (g : Graph) (gather : String → Work JobResult) (w : Worker)
      → At job.id queued w
      → ((p : String) (w' : Worker)
          → At job.id running w'
          → Ends Finished (Lost world job running) (gather p w'))
      → Ends Finished OpenOrFailed (
          (enforce_swap world job model >>= λ _.
          submit_graph world job g >>= λ p. track world job p >>= λ _. gather p)
            w)
  unfolding allowed_transitions
  submitted-Ends model g gather w h k =
      let L = OpenOrFailed in
      bind-Ends Waits Finished L (enforce_swap world job model) _ w
        (widen Waits _ (enforce_swap-Keeps world job queued refl model w h))
        λ _ w4 h4.
          bind-Ends Waits Finished L (submit_graph world job g) _ w4
            (widen Waits _ (submit_graph-Keeps world job queued refl g w4 h4))
            λ p w5 h5.
              bind-Ends Ran Finished L (track world job p) _ w5
                (weaken-Ends Ran Ran (λ _ _. ⊥) L _ (track-running world job p w5 h5) (λ _ _ x. x)
                  (λ _ _ x. absurd x))
                λ _ w6 h6.
                  weaken-Ends Finished Finished (Lost world job running) L _ (k p w6 h6)
                    (λ _ _ x. x) from_running

  image_pipeline-Ends :
      (posted : Posted GenerateRequest) (w : Worker)
      → At job.id queued w
      → Ends Finished OpenOrFailed (image_pipeline world job posted w)
  unfolding image_pipeline allowed_transitions
  image_pipeline-Ends posted w h =
      let L = OpenOrFailed in
      bind-Ends Waits Finished L (revalidate world job posted) _ w
        (widen Waits _ (revalidate-Keeps world job queued refl posted w h))
        λ v w1 h1.
          bind-Ends Waits Finished L (prepare world v) _ w1
            (widen Waits _ (prepare-Keeps world job queued refl v w1 h1))
            λ g w2 h2.
              bind-Ends Waits Finished L (upload_init_image world job v g) _ w2
                (widen Waits _ (upload_init_image-Keeps world job queued refl v g w2 h2))
                λ g3 w3 h3.
                  submitted-Ends v.model g3 (collect world job v) w3 h3
                    (λ p w6 h6. collect-completed v p w6 h6)

  ltxv_pipeline-Ends :
      (task : Option Task) (posted : Posted VideoGenerateRequest) (w : Worker)
      → At job.id queued w
      → Ends Finished OpenOrFailed (ltxv_pipeline world job task posted w)
  unfolding ltxv_pipeline allowed_transitions
  ltxv_pipeline-Ends task posted w h =
      let L = OpenOrFailed in
      bind-Ends Waits Finished L (revalidate_ltxv world job task posted) _ w
        (widen Waits _ (revalidate_ltxv-Keeps world job queued refl task posted w h))
        λ v w1 h1.
          bind-Ends Waits Finished L (prepare_ltxv world job v) _ w1
            (widen Waits _ (prepare_ltxv-Keeps world job queued refl v w1 h1))
            λ g w2 h2.
              bind-Ends Waits Finished L (upload_reference world job v g) _ w2
                (widen Waits _ (upload_reference-Keeps world job queued refl v g w2 h2))
                λ g3 w3 h3.
                  submitted-Ends v.model g3 (collect_media world job ltxv_video v) w3 h3
                    (λ p w6 h6. collect_media-completed ltxv_video v p w6 h6)

  wan_from-Ends :
      (accepted : Task × ValidatedVideoJob) (w : Worker)
      → At job.id queued w
      → Ends Finished OpenOrFailed (wan_from world job accepted w)
  unfolding allowed_transitions
  wan_from-Ends (task, v) w h =
      let L = OpenOrFailed in
      bind-Ends Waits Finished L (prepare_wan world job task v) _ w
        (widen Waits _ (prepare_wan-Keeps world job queued refl task v w h))
        λ g w2 h2.
          bind-Ends Waits Finished L (upload_reference world job v g) _ w2
            (widen Waits _ (upload_reference-Keeps world job queued refl v g w2 h2))
            λ g3 w3 h3.
              submitted-Ends v.model g3 (collect_media world job wan_video v) w3 h3
                (λ p w6 h6. collect_media-completed wan_video v p w6 h6)

  wan_pipeline-Ends :
      (task : Option Task) (posted : Option (Posted VideoGenerateRequest)) (w : Worker)
      → At job.id queued w
      → Ends Finished OpenOrFailed (wan_pipeline world job task posted w)
  unfolding wan_pipeline allowed_transitions
  wan_pipeline-Ends task posted w h =
      bind-Ends Waits Finished OpenOrFailed (revalidate_wan world job task posted)
        (wan_from world job) w
        (widen Waits _ (revalidate_wan-Keeps world job queued refl task posted w h)) wan_from-Ends

  stored_pipeline-Ends :
      (stored : Stored) (w : Worker)
      → At job.id queued w
      → Ends Finished OpenOrFailed (stored_pipeline world job stored w)
  unfolding allowed_transitions
  stored_pipeline-Ends (not_json e) w h =
      widen Finished _ (fail-Lost world job queued refl Finished _ _ _ w h refl)
  stored_pipeline-Ends (request posted) w h = image_pipeline-Ends posted w h
  stored_pipeline-Ends (video task absent) w h = wan_pipeline-Ends task none w h
  stored_pipeline-Ends (video task odd) w h = inr (inl h, uncaught "AttributeError" refl)
  stored_pipeline-Ends (video task (named model_name posted)) w h =
      elim (Bool-cases (is_ltxv (world.site.registry model_name))) [
        | inl e ↦ rw e (ltxv_pipeline-Ends task posted w h)
        | inr e ↦ rw e (wan_pipeline-Ends task (some posted) w h)
      ]

  -- A queued row ends completed when the pipeline returns.
  pub run_pipeline-Ends :
      (w : Worker) → At job.id queued w → Ends Finished OpenOrFailed (run_pipeline world job w)
  unfolding run_pipeline
  run_pipeline-Ends w h = stored_pipeline-Ends (world.load job.input_json) w h
