-- ===== src/Worker/Frame/Rest.antt =====
-- app/queue/worker.py: the frame of the steps from the submission on.
use local_image_generator_se.Common.{
  ℕ, suc, String, Bool, true, false, none, some, List, [], ◌∷◌, inl, inr, Bool-cases, if◌then◌else◌,
}
use local_image_generator_se.Common.Text.{Text, starts_with}
use local_image_generator_se.Schema.{Job}
use local_image_generator_se.Jobs.Operations.{change, to_running, to_completed}
use local_image_generator_se.Validation.Request.{ValidatedJob, ValidatedVideoJob, ModelConfig}
use local_image_generator_se.Worker.Backend.{
  Bytes, Raised, comfy_unreachable, comfy_node, comfy_timeout, storage_error, other, Answer,
  returned, raised, free, wait_for_completion, fetch_outputs, cancel_prompt, upload_png, Worker,
  JobResult, World, Work, fail, call, attempt, on_store, record_job_event, give, ◌>>=◌, ◌>>◌,
}
use local_image_generator_se.Worker.Row.{handled-Ends}
use local_image_generator_se.Worker.Steps.{
  on_unreachable, untracked, track, on_wait_error, wait, wait_timeout_s, not_empty, fetch,
}
use local_image_generator_se.Worker.Pipeline.{
  png_magic, made_transparent, check_image, check_images, upload_all, result_of, collect,
}
use local_image_generator_se.Worker.Finish.{on_storage_error, remember, finish}
use local_image_generator_se.Worker.Video.{
  VideoKind, fetch_media, upload_media, video_result, Uploaded, output_keys, collect_media,
}
use local_image_generator_se.Worker.Frame.Media.{
  on_storage_error-Stays, fetch_media-Stays, upload_media-Stays,
}
use local_image_generator_se.Worker.Frame.{
  Stays, Calm, IsFrame, step, fail-Stays, unreachable-Stays, called-Stays,
}

module _ (world : World) (job : Job) (Inv : Worker → Type 0) (frame : IsFrame world job Inv) where
  abbrev Kept : {A : Type 0} → Answer A × Worker → Type 0
  Kept = Stays world job Inv

  pub next :
      (A B : Type 0) (m : Work A) (f : A → Work B) (w : Worker)
      → Kept (m w)
      → ((a : A) (w' : Worker) → Inv w' → Kept (f a w'))
      → Kept ((m >>= f) w)
  next = step world job Inv frame

  pub failed-Kept :
      (A : Type 0) (code message : String) (e : Raised) (w : Worker)
      → Inv w
      → Kept {A = A} (fail world job code message e w)
  failed-Kept = fail-Stays world job Inv frame

  pub track-Kept : (p : String) (w : Worker) → Inv w → Kept (track world job p w)
  unfolding track change
  track-Kept p w i =
      handled-Ends (Calm world job Inv) (Calm world job Inv) (Calm world job Inv) (untracked p) _
        (next Job (Unit {0})
          (on_store world (change (world.clock 0) job.id (to_running p world.client_id)))
          (λ _. record_job_event "running" none) w
          (frame.1 (world.clock 0) (to_running p world.client_id) w i) (λ _ w' k. frame.2 _ w' k))
        (λ e w' k. frame.0 (cancel_prompt p) w' k)

  on_wait_error-Kept :
      (p : String) (e : Raised) (w : Worker) → Inv w → Kept (on_wait_error world job p e w)
  on_wait_error-Kept p (comfy_timeout m) w i =
      failed-Kept (Unit {0}) _ _ _ _ (frame.0 free _ (frame.0 (cancel_prompt p) w i))
  on_wait_error-Kept p (comfy_unreachable m) w i = failed-Kept (Unit {0}) _ _ _ w i
  on_wait_error-Kept p (comfy_node m) w i = i
  on_wait_error-Kept p (storage_error m) w i = i
  on_wait_error-Kept p (other m) w i = i

  wait-Kept :
      (timeout_s : ℕ) (p : String) (w : Worker) → Inv w → Kept (wait world job timeout_s p w)
  unfolding wait
  wait-Kept timeout_s p w i =
      called-Stays world job Inv frame (Unit {0}) (wait_for_completion p)
        (world.on_wait p timeout_s) (on_wait_error world job p) w i (on_wait_error-Kept p)

  not_empty-Kept : (images : List Bytes) (w : Worker) → Inv w → Kept (not_empty world job images w)
  not_empty-Kept [] w i = failed-Kept (List Bytes) _ _ _ w i
  not_empty-Kept (png ∷ images) w i = i

  fetch-Kept : (p : String) (w : Worker) → Inv w → Kept (fetch world job p w)
  unfolding fetch
  fetch-Kept p w i =
      next (List Bytes) (List Bytes)
        (attempt (call (fetch_outputs p) (world.on_fetch_outputs p)) (on_unreachable world job))
        (not_empty world job) w
        (called-Stays world job Inv frame (List Bytes) (fetch_outputs p) (world.on_fetch_outputs p)
          (on_unreachable world job) w i (unreachable-Stays world job Inv frame (List Bytes)))
        not_empty-Kept

  made_transparent-Kept :
      (r : Answer Bytes) (w : Worker) → Inv w → Kept (made_transparent world job r w)
  made_transparent-Kept (returned b) w i = i
  made_transparent-Kept (raised e) w i = failed-Kept Bytes _ _ _ w i

  check_image-Kept :
      (b : Bool) (png : Bytes) (w : Worker) → Inv w → Kept (check_image world job b png w)
  unfolding check_image
  check_image-Kept b png w i = elim (Bool-cases (starts_with png png_magic)) [
    | inl e ↦ rw e (transparent b)
    | inr e ↦ rw e (failed-Kept Bytes _ _ _ w i)
  ]
    where
      transparent :
          (b : Bool)
          → Kept (
              (if b
                  then made_transparent world job (world.apply_transparent_background png)
                  else give png)
                w)
      transparent true = made_transparent-Kept (world.apply_transparent_background png) w i
      transparent false = i

  check_images-Kept :
      (b : Bool) (images : List Bytes) (w : Worker)
      → Inv w
      → Kept (check_images world job b images w)
  unfolding check_images
  check_images-Kept b [] w i = i
  check_images-Kept b (png ∷ images) w i =
      next Bytes (List Bytes) (check_image world job b png)
        (λ processed. check_images world job b images >>= λ rest. give (processed ∷ rest)) w
        (check_image-Kept b png w i)
        (λ processed w' k.
          next (List Bytes) (List Bytes) (check_images world job b images)
            (λ rest. give (processed ∷ rest)) w' (check_images-Kept b images w' k) (λ _ _ l. l))

  upload_all-Kept :
      (idx : ℕ) (images : List Bytes) (w : Worker)
      → Inv w
      → Kept (upload_all world job idx images w)
  unfolding upload_all
  upload_all-Kept idx [] w i = i
  upload_all-Kept idx (png ∷ images) w i =
      next String (List String)
        (attempt (call (upload_png idx) (world.on_upload_png job.id idx png))
          (on_storage_error world job))
        (λ key. upload_all world job (suc idx) images >>= λ keys. give (key ∷ keys)) w
        (called-Stays world job Inv frame String (upload_png idx)
          (world.on_upload_png job.id idx png) (on_storage_error world job) w i
          (on_storage_error-Stays world job Inv frame))
        (λ key w' k.
          next (List String) (List String) (upload_all world job (suc idx) images)
            (λ keys. give (key ∷ keys)) w' (upload_all-Kept (suc idx) images w' k) (λ _ _ l. l))

  finish-Kept :
      (model : ModelConfig) (result : JobResult) (keys : List String) (w : Worker)
      → Inv w
      → Kept (finish world job model result keys w)
  unfolding finish change
  finish-Kept model result keys w i =
      let to = to_completed keys (world.dumps result) in
      next (Unit {0}) JobResult
        (on_store world (change (world.clock 1) job.id to) >> remember model.name)
        (λ _. give result) w
        (next Job (Unit {0}) (on_store world (change (world.clock 1) job.id to))
          (λ _. remember model.name) w (frame.1 (world.clock 1) to w i)
          (λ _ w' k. frame.3 (some model.name) w' k))
        (λ _ w' k. k)

  pub collect-Kept :
      (v : ValidatedJob) (p : String) (w : Worker) → Inv w → Kept (collect world job v p w)
  unfolding collect
  collect-Kept v p w i =
      let timeout_s = wait_timeout_s world v.timeout_s v.model in
      next (Unit {0}) JobResult (wait world job timeout_s p) _ w (wait-Kept timeout_s p w i)
        λ _ w1 i1.
          next (List Bytes) JobResult (fetch world job p) _ w1 (fetch-Kept p w1 i1) λ images w2 i2.
            next (List Bytes) JobResult (check_images world job v.transparent_background images) _
              w2 (check_images-Kept v.transparent_background images w2 i2)
              λ processed w3 i3.
                next (List String) JobResult (upload_all world job 0 processed) _ w3
                  (upload_all-Kept 0 processed w3 i3)
                  λ keys w4 i4. finish-Kept v.model (result_of world job v processed) keys w4 i4

  pub collect_media-Kept :
      (kind : VideoKind) (v : ValidatedVideoJob) (p : String) (w : Worker)
      → Inv w
      → Kept (collect_media world job kind v p w)
  unfolding collect_media
  collect_media-Kept kind v p w i =
      let timeout_s = wait_timeout_s world v.timeout_s v.model in
      next (Unit {0}) JobResult (wait world job timeout_s p) _ w (wait-Kept timeout_s p w i)
        λ _ w1 i1.
          next (List (Bytes × Text)) JobResult (fetch_media world job kind p) _ w1
            (fetch_media-Stays world job Inv frame kind p w1 i1)
            λ rows w2 i2.
              next (List Uploaded) JobResult (upload_media world job 0 rows) _ w2
                (upload_media-Stays world job Inv frame 0 rows w2 i2)
                λ uploaded w3 i3.
                  finish-Kept v.model (video_result world job v uploaded) (output_keys uploaded) w3
                    i3
