-- ===== src/Tests/Request.antt =====
-- Examples for app/validation.py.
use local_image_generator_se.Common.{
  ◌≤◌, ◌%◌, ◌≡◌, refl, ◌↔◌, true, false, none, some, List, [], ◌∷◌, ◌++◌, arith, All,
}
use local_image_generator_se.Common.Text.{Text, codes, strip, lstrip, is_space}
use local_image_generator_se.Schema.{sync, async}
use local_image_generator_se.Validation.Request.{
  sdxl, wan22, t2v, plus, ModelConfig, GenerateRequest, ValidatedJob, VideoGenerateRequest,
  ValidatedVideoJob, WebhookSpec, url, Site, valid,
}
use local_image_generator_se.Validation.Frames.{
  normalize_wan_num_frames, normalize_ltxv_num_frames, normalize_wan-least, normalize_ltxv-least,
}
use local_image_generator_se.Common.Digits.{int_of, digits_value}
use local_image_generator_se.Validation.Size.{parse_size, split_once}
use local_image_generator_se.Validation.Webhook.{
  key_matches, all_key_chars, normalize_headers, resolve_webhook,
}
use local_image_generator_se.Validation.Webhook.Accepted.{
  IsAcceptable, normalize_headers_iff, key_matches-newline,
}
use local_image_generator_se.Validation.Loras.{
  guard_vram, vram_needed, vram_budget_gb, resolve_default_loras_for_model, resolve_loras_for_job,
  decode_init_image,
}
use local_image_generator_se.Validation.Image.{
  check_size, check_mode, merge_defaults, validated_job,
}
use local_image_generator_se.Validation.Video.{
  check_model, resolve_frames, resolve_steps, resolve_scheduler, check_image_use, check_advanced,
  resolve_workflow, all_scheduler_chars, resolve_fields, resolve_video_loras, resolve_assets,
  VideoFields, VideoAssets, validated_video_job, resolve_and_validate_video,
}
use local_image_generator_se.Validation.Video.Checks.{IsVideoJob, accepted-IsVideoJob}
use local_image_generator_se.Tests.Samples.{parsed_url}

abbrev pub image_model : ModelConfig
image_model = record {
  name = codes "noob";
  workflow_path = codes "workflows/sdxl.json";
  checkpoint = codes "checkpoints/noob.safetensors";
  vae = none;
  clip_l = none;
  t5xxl = none;
  dual_clip_type = none;
  clip_loader_type = none;
  ltxv_text_encoder = none;
  wan_t5_encoder = none;
  wan_clip_vision = none;
  wan_unet_low = none;
  mmaudio_vae = none;
  mmaudio_synchformer = none;
  mmaudio_clip = none;
  mmaudio_diffusion = none;
  vpred = false;
  vram_estimate_gb = 7000;
  family = sdxl;
  video_gen = false;
  video_task = none;
  defaults = record {
    size = some (codes "1024x1024");
    steps = some 28;
    cfg = none;
    shift = none;
    sampler = none;
    scheduler = none;
    negative_prompt = none;
    job_timeout_s = none;
    mmaudio_steps = none;
    mmaudio_cfg = none;
  };
  limits = record { size_max_pixels = none; n_max = some 4; steps_max = none; frames_max = none };
  default_loras = [];
  workflow_with_audio = none;
}

abbrev video_model : ModelConfig
video_model = record image_model {
  name = codes "wan";
  family = wan22;
  video_gen = true;
  video_task = some t2v;
  default_loras = record { name = codes "fast"; weight = plus 1000 } ∷ [];
}

abbrev pub site_with : ModelConfig → Site
site_with model = record {
  registry = λ n. some model;
  async_mode_enabled = true;
  contained = λ n. true;
  is_file = λ n. true;
  vram_budget_raw = none;
  float_of = λ t. none;
  urlparse = λ u. parsed_url;
  b64decode = λ t. none;
}

abbrev spec : WebhookSpec
spec = record {
  url = "https://hooks.example/done";
  headers = some ((codes "X-Trace", codes "7") ∷ []);
}

abbrev pub image_request : GenerateRequest
image_request = record {
  model = codes "noob";
  prompt = codes "a lake";
  negative_prompt = none;
  size = codes "512X768";
  n = 2;
  steps = none;
  cfg = 5000;
  seed = none;
  sampler = none;
  scheduler = none;
  response_format = url;
  transparent_background = false;
  mode = async;
  timeout_s = none;
  loras = record { name = codes "style"; weight = plus 800 } ∷ [];
  init_image = none;
  webhook = some spec;
}

abbrev video_request : VideoGenerateRequest
video_request = record {
  model = codes "wan";
  prompt = codes "waves";
  negative_prompt = none;
  size = codes "832x480";
  frames = 80;
  fps = 16;
  steps = none;
  cfg = none;
  shift = none;
  seed = none;
  scheduler = none;
  riflex_freq_index = 0;
  force_offload = true;
  generate_audio = false;
  response_format = url;
  mode = sync;
  timeout_s = none;
  webhook = none;
  init_image = none;
  loras = record { name = codes "style"; weight = plus 800 } ∷ [];
  wan_advanced = none;
}

normalize_wan-least_example :
    (normalize_wan_num_frames 80 % 4 ≡ 1)
    × (5 ≤ normalize_wan_num_frames 80)
    × (80 ≤ normalize_wan_num_frames 80)
    × (normalize_wan_num_frames 80 ≤ 81)
normalize_wan-least_example = normalize_wan-least 80 81 (omega arith) (omega arith) refl

normalize_ltxv-least_example :
    (normalize_ltxv_num_frames 90 % 8 ≡ 1)
    × (9 ≤ normalize_ltxv_num_frames 90)
    × (90 ≤ normalize_ltxv_num_frames 90)
    × (normalize_ltxv_num_frames 90 ≤ 97)
normalize_ltxv-least_example = normalize_ltxv-least 90 97 (omega arith) (omega arith) refl

abbrev headers : List (Text × Text)
headers = (codes "X-Trace", codes "7") ∷ []

normalize_headers_example :
    (normalize_headers headers ≡ valid headers) ↔ ((headers ≡ headers) × All IsAcceptable headers)
normalize_headers_example = normalize_headers_iff headers headers

key_matches-newline_example : key_matches (codes "X-Trace" ++ 10 ∷ []) ≡ true
unfolding all_key_chars
key_matches-newline_example = key_matches-newline (codes "X-Trace") refl (omega arith) (omega arith)

abbrev pub image_job : ValidatedJob
image_job =
    validated_job image_request image_model (merge_defaults image_model image_request) (512, 768)
      (some "https://hooks.example/done", some headers) image_request.loras none

abbrev video_fields : VideoFields
video_fields = record {
  size = codes "832x480";
  frames = 81;
  steps = 28;
  scheduler = codes "simple";
  pixels = (832, 480);
}

abbrev video_assets : VideoAssets
video_assets = record {
  webhook = (none, none);
  init_image_bytes = none;
  loras = video_model.default_loras ++ video_request.loras;
  workflow_path = codes "workflows/sdxl.json";
}

abbrev video_job : ValidatedVideoJob
video_job = validated_video_job video_request video_model video_fields video_assets

accepted-IsVideoJob_example : IsVideoJob (site_with video_model) t2v video_request video_job
unfolding resolve_and_validate_video resolve_fields check_model resolve_frames
    normalize_wan_num_frames resolve_steps resolve_scheduler strip check_size parse_size split_once
    int_of digits_value resolve_assets check_mode resolve_webhook decode_init_image check_image_use
    resolve_video_loras resolve_loras_for_job resolve_default_loras_for_model check_advanced
    guard_vram vram_budget_gb vram_needed resolve_workflow lstrip is_space all_scheduler_chars
accepted-IsVideoJob_example =
    accepted-IsVideoJob (site_with video_model) t2v video_request video_job refl
