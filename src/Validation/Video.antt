-- ===== src/Validation/Video.antt =====
-- `resolve_and_validate_video`: a video request is resolved against the registry, the limits of its
-- model and the task of the endpoint.
pub mod Checks
use local_image_generator_se.Common.{
  ℕ, ◌*◌, Bool, true, false, ◌&&◌, ◌||◌, not, Option, none, some, List, [], ◌∷◌, ◌++◌, ◌==◌, ltb,
  leb, length, is_some, is_none, if◌then◌else◌,
}
use local_image_generator_se.Common.Text.{Text, codes, strip, is_alnum, truthy}
use local_image_generator_se.Validation.Request.{
  Family, sdxl, flux, qwen, wan22, ltxv, Task, t2v, i2v, LoraSpec, VideoGenerateRequest,
  ValidatedVideoJob, WanVideoAdvancedOptions, ModelConfig, Site, Checked, valid, refused, refuse_if,
  or_refuse, get_or, validation_error, unknown_model, not_video, wrong_task, wrong_family,
  frames_exceeded, steps_exceeded, scheduler_malformed, image_required, image_not_accepted,
  advanced_not_accepted, audio_undefined, ◌>>=◌, ◌>>◌,
}
use local_image_generator_se.Validation.Frames.{normalize_wan_num_frames, normalize_ltxv_num_frames}
use local_image_generator_se.Validation.Webhook.{WebhookTarget, resolve_webhook}
use local_image_generator_se.Validation.Loras.{
  resolve_loras_for_job, resolve_default_loras_for_model, guard_vram, decode_init_image,
}
use local_image_generator_se.Validation.Image.{or_text, size_or, given, check_size, check_mode}

abbrev pub same_task : Task → Task → Bool
same_task t2v t2v = true
same_task i2v i2v = true
same_task _ _ = false

abbrev pub task_is : Task → Option Task → Bool
task_is t none = false
task_is t (some u) = same_task t u

abbrev pub is_video_family : Family → Bool
is_video_family wan22 = true
is_video_family ltxv = true
is_video_family _ = false

abbrev pub is_ltxv : Family → Bool
is_ltxv ltxv = true
is_ltxv _ = false

unfoldable pub check_model : Task → ModelConfig → Checked (Unit {0})
check_model expected_task model = do
  refuse_if (not model.video_gen) validation_error not_video
  refuse_if (not (task_is expected_task model.video_task)) validation_error wrong_task
  refuse_if (not (is_video_family model.family)) validation_error wrong_family

-- The cap is tested on the requested number, before it is normalised.
unfoldable pub resolve_frames : ModelConfig → ℕ → Checked ℕ
unfolding normalize_wan_num_frames normalize_ltxv_num_frames
resolve_frames model frames_raw = do
  refuse_if (ltb (get_or model.limits.frames_max 241) frames_raw) validation_error frames_exceeded
  valid (
      if is_ltxv model.family
      then normalize_ltxv_num_frames frames_raw
      else normalize_wan_num_frames frames_raw)

unfoldable pub resolve_steps : ModelConfig → Option ℕ → Checked ℕ
resolve_steps model requested = do
  let steps = given requested (get_or model.defaults.steps 30)
  refuse_if (ltb (get_or model.limits.steps_max 50) steps) validation_error steps_exceeded
  valid steps

-- [A-Za-z0-9_.+\-]
abbrev pub scheduler_char : ℕ → Bool
scheduler_char c = is_alnum c || (c == 95 || (c == 46 || (c == 43 || c == 45)))

unfoldable pub all_scheduler_chars : Text → Bool
all_scheduler_chars [] = true
all_scheduler_chars (c ∷ cs) = scheduler_char c && all_scheduler_chars cs

unfoldable pub resolve_scheduler : ModelConfig → Option Text → Checked Text
unfolding all_scheduler_chars
resolve_scheduler model requested = do
  let scheduler = strip (or_text requested (get_or model.defaults.scheduler (codes "simple")))
  refuse_if
      (not
        (all_scheduler_chars scheduler && (leb 1 (length scheduler) && leb (length scheduler) 64)))
      validation_error scheduler_malformed
  valid scheduler

abbrev no_bytes : Option (List ℕ) → Bool
no_bytes none = true
no_bytes (some []) = true
no_bytes (some (b ∷ bs)) = false

unfoldable pub check_image_use : Task → Family → Option (List ℕ) → Checked (Unit {0})
check_image_use i2v family image = refuse_if (no_bytes image) validation_error image_required
check_image_use t2v family image =
    refuse_if (not (no_bytes image) && not (is_ltxv family)) validation_error image_not_accepted

unfoldable pub check_advanced : Task → Option WanVideoAdvancedOptions → Checked (Unit {0})
check_advanced t2v (some wa) =
    refuse_if (is_some wa.encode || is_some wa.clip_encode) validation_error advanced_not_accepted
check_advanced _ _ = valid tt

unfoldable pub resolve_workflow : ModelConfig → Bool → Checked Text
resolve_workflow model generate_audio =
    if generate_audio
    then or_refuse (truthy model.workflow_with_audio) validation_error audio_undefined
    else valid model.workflow_path

-- The fields of the job that the request and the model give.
pub record VideoFields : Type 0 where
  pub size : Text
  pub frames : ℕ
  pub steps : ℕ
  pub scheduler : Text
  pub pixels : ℕ × ℕ

unfoldable pub resolve_fields : Task → ModelConfig → VideoGenerateRequest → Checked VideoFields
resolve_fields expected_task model req = do
  check_model expected_task model
  let size = size_or req.size model.defaults.size (codes "832x480")
  frames ← resolve_frames model req.frames
  steps ← resolve_steps model req.steps
  scheduler ← resolve_scheduler model req.scheduler
  wh ← check_size (get_or model.limits.size_max_pixels 2073600) size
  valid (record { size = size; frames = frames; steps = steps; scheduler = scheduler; pixels = wh })

-- What is resolved outside the request.
pub record VideoAssets : Type 0 where
  pub webhook : WebhookTarget
  pub init_image_bytes : Option (List ℕ)
  pub loras : List LoraSpec
  pub workflow_path : Text

-- The model's own LoRAs are put first.
unfoldable pub resolve_video_loras :
    Site → Task → ModelConfig → VideoGenerateRequest → Checked (List LoraSpec)
resolve_video_loras site expected_task model req = do
  user_loras ← resolve_loras_for_job site req.loras
  default_resolved ← resolve_default_loras_for_model site model.default_loras
  check_advanced expected_task req.wan_advanced
  guard_vram site model.vram_estimate_gb (length (default_resolved ++ user_loras))
  valid (default_resolved ++ user_loras)

unfoldable pub resolve_assets :
    Site → Task → ModelConfig → VideoGenerateRequest → Checked VideoAssets
resolve_assets site expected_task model req = do
  check_mode site req.mode
  webhook ← resolve_webhook site.urlparse req.webhook
  image ← decode_init_image site req.init_image
  check_image_use expected_task model.family image
  loras ← resolve_video_loras site expected_task model req
  workflow ← resolve_workflow model req.generate_audio
  valid (record {
    webhook = webhook;
    init_image_bytes = image;
    loras = loras;
    workflow_path = workflow;
  })

unfoldable pub validated_video_job :
    VideoGenerateRequest → ModelConfig → VideoFields → VideoAssets → ValidatedVideoJob
validated_video_job req model f a = record {
  model = model;
  prompt = req.prompt;
  negative_prompt = given req.negative_prompt (get_or model.defaults.negative_prompt []);
  size = f.size;
  width = f.pixels.0;
  height = f.pixels.1;
  frames = f.frames;
  fps = req.fps;
  steps = f.steps;
  cfg = given req.cfg (get_or model.defaults.cfg 6000);
  shift = given req.shift (get_or model.defaults.shift 8000);
  seed = req.seed;
  scheduler = f.scheduler;
  riflex_freq_index = req.riflex_freq_index;
  force_offload = req.force_offload;
  generate_audio = req.generate_audio;
  resolved_workflow_path = a.workflow_path;
  response_format = req.response_format;
  mode = req.mode;
  timeout_s = req.timeout_s;
  webhook_url = a.webhook.0;
  webhook_headers = a.webhook.1;
  init_image_bytes = a.init_image_bytes;
  loras = a.loras;
  wan_advanced = req.wan_advanced;
}

unfoldable pub resolve_and_validate_video :
    Site → Task → VideoGenerateRequest → Checked ValidatedVideoJob
resolve_and_validate_video site expected_task req = do
  model ← or_refuse (site.registry req.model) validation_error unknown_model
  fields ← resolve_fields expected_task model req
  assets ← resolve_assets site expected_task model req
  valid (validated_video_job req model fields assets)
