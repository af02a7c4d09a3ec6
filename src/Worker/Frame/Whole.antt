-- ===== src/Worker/Frame/Whole.antt =====
-- app/queue/worker.py: the frame of the pipelines and of `_process_one`.
use local_image_generator_se.Common.{String, none, some, Option, ◌++◌, inl, inr, Bool-cases}
use local_image_generator_se.Common.Text.{codes}
use local_image_generator_se.Schema.{Job}
use local_image_generator_se.Jobs.Operations.{change, to_failed}
use local_image_generator_se.Validation.Request.{
  ValidatedJob, ValidatedVideoJob, GenerateRequest, VideoGenerateRequest, ModelConfig, Task,
}
use local_image_generator_se.Workflows.Graph.{Graph}
use local_image_generator_se.Worker.Backend.{
  comfy_unreachable, comfy_node, comfy_timeout, storage_error, other, Answer, returned, raised,
  submit, Worker, JobResult, Posted, Stored, not_json, request, video, absent, odd, named, World,
  Work, on_store, ◌>>=◌,
}
use local_image_generator_se.Worker.Steps.{
  revalidate, prepare, upload_init_image, enforce_swap, on_submit_error, submit_graph, track,
}
use local_image_generator_se.Worker.Pipeline.{
  collect, image_pipeline, is_ltxv, stored_pipeline, run_pipeline, note_failed, conclude, concluded,
  process_one,
}
use local_image_generator_se.Worker.Video.{
  ltxv_video, wan_video, revalidate_wan, prepare_wan, wan_from, wan_pipeline, revalidate_ltxv,
  prepare_ltxv, upload_reference, collect_media, ltxv_pipeline,
}
use local_image_generator_se.Worker.Frame.Media.{
  revalidate_wan-Stays, prepare_wan-Stays, revalidate_ltxv-Stays, prepare_ltxv-Stays,
}
use local_image_generator_se.Worker.Frame.{
  Stays, IsFrame, called-Stays, revalidate-Stays, prepare-Stays, upload_bytes-Stays,
  swap_from-Stays, on_submit_error-Stays,
}
use local_image_generator_se.Worker.Frame.Rest.{
  next, failed-Kept, track-Kept, collect-Kept, collect_media-Kept,
}

module _ (world : World) (job : Job) (Inv : Worker → Type 0) (frame : IsFrame world job Inv) where
  abbrev Kept : {A : Type 0} → Answer A × Worker → Type 0
  Kept = Stays world job Inv

  submitted-Kept :
      (model : ModelConfig) (g : Graph) (gather : String → Work JobResult) (w : Worker)
      → Inv w
      → ((p : String) (w' : Worker) → Inv w' → Kept (gather p w'))
      → Kept (
          (enforce_swap world job model >>= λ _.
          submit_graph world job g >>= λ p. track world job p >>= λ _. gather p)
            w)
  unfolding enforce_swap submit_graph
  submitted-Kept model g gather w i k =
      next world job Inv frame (Unit {0}) JobResult (enforce_swap world job model) _ w
        (swap_from-Stays world job Inv frame model w.last_model_name w i)
        λ _ w4 i4.
          next world job Inv frame String JobResult (submit_graph world job g) _ w4
            (called-Stays world job Inv frame String (submit g) (world.on_submit g)
              (on_submit_error world job) w4 i4 (on_submit_error-Stays world job Inv frame))
            λ p w5 i5.
              next world job Inv frame (Unit {0}) JobResult (track world job p) _ w5
                (track-Kept world job Inv frame p w5 i5) λ _ w6 i6. k p w6 i6

  image_pipeline-Kept :
      (posted : Posted GenerateRequest) (w : Worker)
      → Inv w
      → Kept (image_pipeline world job posted w)
  unfolding image_pipeline upload_init_image
  image_pipeline-Kept posted w i =
      next world job Inv frame ValidatedJob JobResult (revalidate world job posted) _ w
        (revalidate-Stays world job Inv frame posted w i)
        λ v w1 i1.
          next world job Inv frame Graph JobResult (prepare world v) _ w1
            (prepare-Stays world job Inv frame v w1 i1)
            λ g w2 i2.
              next world job Inv frame Graph JobResult (upload_init_image world job v g) _ w2
                (upload_bytes-Stays world job Inv frame (world.id_text job.id ++ codes ".png")
                  v.init_image_bytes g w2 i2)
                λ g3 w3 i3.
                  submitted-Kept v.model g3 (collect world job v) w3 i3
                    (λ p w6 i6. collect-Kept world job Inv frame v p w6 i6)

  ltxv_pipeline-Kept :
      (task : Option Task) (posted : Posted VideoGenerateRequest) (w : Worker)
      → Inv w
      → Kept (ltxv_pipeline world job task posted w)
  unfolding ltxv_pipeline upload_reference
  ltxv_pipeline-Kept task posted w i =
      next world job Inv frame ValidatedVideoJob JobResult (revalidate_ltxv world job task posted) _
        w (revalidate_ltxv-Stays world job Inv frame task posted w i)
        λ v w1 i1.
          next world job Inv frame Graph JobResult (prepare_ltxv world job v) _ w1
            (prepare_ltxv-Stays world job Inv frame v w1 i1)
            λ g w2 i2.
              next world job Inv frame Graph JobResult (upload_reference world job v g) _ w2
                (upload_bytes-Stays world job Inv frame (world.id_text job.id ++ codes "_init.png")
                  v.init_image_bytes g w2 i2)
                λ g3 w3 i3.
                  submitted-Kept v.model g3 (collect_media world job ltxv_video v) w3 i3
                    (λ p w6 i6. collect_media-Kept world job Inv frame ltxv_video v p w6 i6)

  wan_from-Kept :
      (accepted : Task × ValidatedVideoJob) (w : Worker)
      → Inv w
      → Kept (wan_from world job accepted w)
  unfolding upload_reference
  wan_from-Kept (task, v) w i =
      next world job Inv frame Graph JobResult (prepare_wan world job task v) _ w
        (prepare_wan-Stays world job Inv frame task v w i)
        λ g w2 i2.
          next world job Inv frame Graph JobResult (upload_reference world job v g) _ w2
            (upload_bytes-Stays world job Inv frame (world.id_text job.id ++ codes "_init.png")
              v.init_image_bytes g w2 i2)
            λ g3 w3 i3.
              submitted-Kept v.model g3 (collect_media world job wan_video v) w3 i3
                (λ p w6 i6. collect_media-Kept world job Inv frame wan_video v p w6 i6)

  wan_pipeline-Kept :
      (task : Option Task) (posted : Option (Posted VideoGenerateRequest)) (w : Worker)
      → Inv w
      → Kept (wan_pipeline world job task posted w)
  unfolding wan_pipeline
  wan_pipeline-Kept task posted w i =
      next world job Inv frame (Task × ValidatedVideoJob) JobResult
        (revalidate_wan world job task posted) (wan_from world job) w
        (revalidate_wan-Stays world job Inv frame task posted w i) wan_from-Kept

  stored_pipeline-Kept :
      (stored : Stored) (w : Worker) → Inv w → Kept (stored_pipeline world job stored w)
  stored_pipeline-Kept (not_json e) w i = failed-Kept world job Inv frame JobResult _ _ _ w i
  stored_pipeline-Kept (request posted) w i = image_pipeline-Kept posted w i
  stored_pipeline-Kept (video task absent) w i = wan_pipeline-Kept task none w i
  stored_pipeline-Kept (video task odd) w i = i
  stored_pipeline-Kept (video task (named model_name posted)) w i =
      elim (Bool-cases (is_ltxv (world.site.registry model_name))) [
        | inl e ↦ rw e (ltxv_pipeline-Kept task posted w i)
        | inr e ↦ rw e (wan_pipeline-Kept task (some posted) w i)
      ]

  run_pipeline-Kept : (w : Worker) → Inv w → Kept (run_pipeline world job w)
  unfolding run_pipeline
  run_pipeline-Kept w i = stored_pipeline-Kept (world.load job.input_json) w i

  conclude-Kept : (a : Answer JobResult) (w : Worker) → Inv w → Kept (conclude world job a w)
  unfolding change
  conclude-Kept (returned r) w i = frame.2 _ w i
  conclude-Kept (raised (comfy_unreachable m)) w i = frame.2 _ w i
  conclude-Kept (raised (comfy_node m)) w i = frame.2 _ w i
  conclude-Kept (raised (comfy_timeout m)) w i = frame.2 _ w i
  conclude-Kept (raised (storage_error m)) w i = frame.2 _ w i
  conclude-Kept (raised (other m)) w i =
      next world job Inv frame Job (Answer JobResult)
        (on_store world (change (world.clock 2) job.id (to_failed "internal" m)))
        (λ _. note_failed "internal" (other m)) w
        (frame.1 (world.clock 2) (to_failed "internal" m) w i) (λ _ w' k. frame.2 _ w' k)

  concluded-Kept : (r : Answer JobResult × Worker) → Kept r → Kept (concluded world job r)
  concluded-Kept (returned a, w) i = conclude-Kept (returned a) w i
  concluded-Kept (raised e, w) i = conclude-Kept (raised e) w i

  -- The invariant is kept, whatever happens.
  pub process_one-Kept : (w : Worker) → Inv w → Kept (process_one world job w)
  unfolding process_one
  process_one-Kept w i = concluded-Kept (run_pipeline world job w) (run_pipeline-Kept w i)
