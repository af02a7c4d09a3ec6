-- ===== src/Validation/Image.antt =====
-- `resolve_and_validate`: an image request is resolved against the registry and the limits of its
-- model.
pub mod Sound
use local_image_generator_se.Common.{
  ℕ, ◌*◌, Bool, true, false, ◌&&◌, not, Option, none, some, List, [], ◌∷◌, ltb, length,
  if◌then◌else◌,
}
use local_image_generator_se.Common.Text.{Text, codes, among}
use local_image_generator_se.Schema.{JobMode}
use local_image_generator_se.Jobs.Flags.{is_async}
use local_image_generator_se.Validation.Request.{
  Family, sdxl, flux, qwen, wan22, ltxv, LoraSpec, GenerateRequest, ValidatedJob, ModelConfig, Site,
  Checked, valid, refuse_if, or_refuse, get_or, validation_error, async_not_enabled, unknown_model,
  sampler_not_allowed, scheduler_not_allowed, size_malformed, size_exceeded, n_exceeded,
  steps_exceeded, async_disabled, ◌>>=◌, ◌>>◌,
}
use local_image_generator_se.Validation.Size.{parse_size}
use local_image_generator_se.Validation.Webhook.{WebhookTarget, resolve_webhook}
use local_image_generator_se.Validation.Loras.{resolve_loras_for_job, guard_vram, decode_init_image}

unfoldable pub allowed_samplers : List Text
allowed_samplers =
    codes "euler"
    ∷ codes "euler_ancestral"
    ∷ codes "heun"
    ∷ codes "dpm_2"
    ∷ codes "dpm_2_ancestral"
    ∷ codes "lms"
    ∷ codes "dpmpp_2s_ancestral"
    ∷ codes "dpmpp_sde"
    ∷ codes "dpmpp_2m"
    ∷ codes "dpmpp_2m_sde"
    ∷ codes "dpmpp_3m_sde"
    ∷ codes "ddim"
    ∷ codes "uni_pc"
    ∷ []

unfoldable pub allowed_schedulers : List Text
allowed_schedulers =
    codes "normal"
    ∷ codes "karras"
    ∷ codes "exponential"
    ∷ codes "sgm_uniform"
    ∷ codes "simple"
    ∷ codes "ddim_uniform"
    ∷ []

euler_samplers : List Text
euler_samplers =
    codes "euler" ∷ codes "euler_ancestral" ∷ codes "dpmpp_2m" ∷ codes "dpmpp_2m_sde" ∷ []

tight_schedulers : List Text
tight_schedulers = codes "simple" ∷ codes "karras" ∷ codes "normal" ∷ []

-- ALLOWED_SAMPLERS_BY_FAMILY.get(family, ALLOWED_SAMPLERS)
unfoldable pub allowed_samplers_by_family : Family → List Text
unfolding allowed_samplers euler_samplers
allowed_samplers_by_family flux = euler_samplers
allowed_samplers_by_family qwen = euler_samplers
allowed_samplers_by_family _ = allowed_samplers

-- ALLOWED_SCHEDULERS_BY_FAMILY.get(family, ALLOWED_SCHEDULERS)
unfoldable pub allowed_schedulers_by_family : Family → List Text
unfolding allowed_schedulers tight_schedulers
allowed_schedulers_by_family flux = tight_schedulers
allowed_schedulers_by_family qwen = tight_schedulers
allowed_schedulers_by_family _ = allowed_schedulers

-- `a or b`: an empty text counts as missing.
abbrev pub or_text : Option Text → Text → Text
or_text none d = d
or_text (some []) d = d
or_text (some (c ∷ cs)) d = c ∷ cs

abbrev pub size_or : Text → Option Text → Text → Text
size_or [] o d = or_text o d
size_or (c ∷ cs) o d = c ∷ cs

-- `x if x is not None else d`
abbrev pub given {ℓ} : {A : Type ℓ} → Option A → A → A
given none d = d
given (some a) d = a

-- The fields that the model's defaults complete.
pub record Merged : Type 0 where
  pub size : Text
  pub steps : ℕ
  pub sampler : Text
  pub scheduler : Text
  pub negative_prompt : Text

unfoldable pub merge_defaults : ModelConfig → GenerateRequest → Merged
merge_defaults model req = record {
  size = size_or req.size model.defaults.size (codes "1024x1024");
  steps = given req.steps (get_or model.defaults.steps 28);
  sampler = or_text req.sampler (get_or model.defaults.sampler (codes "euler_ancestral"));
  scheduler = or_text req.scheduler (get_or model.defaults.scheduler (codes "karras"));
  negative_prompt = given req.negative_prompt (get_or model.defaults.negative_prompt []);
}

unfoldable pub check_enums : Family → Merged → Checked (Unit {0})
check_enums family m = do
  refuse_if (not (among m.sampler (allowed_samplers_by_family family))) validation_error
      sampler_not_allowed
  refuse_if (not (among m.scheduler (allowed_schedulers_by_family family))) validation_error
      scheduler_not_allowed

-- The size in pixels, within the bound that the limits give.
unfoldable pub check_size : ℕ → Text → Checked (ℕ × ℕ)
check_size size_max_pixels size = do
  wh ← or_refuse (parse_size size) validation_error size_malformed
  refuse_if (ltb size_max_pixels (wh.0 * wh.1)) validation_error size_exceeded
  valid wh

unfoldable pub check_counts : ModelConfig → ℕ → ℕ → Checked (Unit {0})
check_counts model n steps = do
  refuse_if (ltb (get_or model.limits.n_max 1) n) validation_error n_exceeded
  refuse_if (ltb (get_or model.limits.steps_max 50) steps) validation_error steps_exceeded

unfoldable pub check_mode : Site → JobMode → Checked (Unit {0})
check_mode site mode =
    refuse_if (is_async mode && not site.async_mode_enabled) async_not_enabled async_disabled

unfoldable pub validated_job :
    GenerateRequest
    → ModelConfig
    → Merged
    → ℕ × ℕ
    → WebhookTarget
    → List LoraSpec
    → Option (List ℕ)
    → ValidatedJob
validated_job req model m wh webhook loras init_image_bytes = record {
  model = model;
  prompt = req.prompt;
  negative_prompt = m.negative_prompt;
  size = m.size;
  width = wh.0;
  height = wh.1;
  n = req.n;
  steps = m.steps;
  cfg = req.cfg;
  seed = req.seed;
  sampler = m.sampler;
  scheduler = m.scheduler;
  response_format = req.response_format;
  transparent_background = req.transparent_background;
  mode = req.mode;
  timeout_s = req.timeout_s;
  webhook_url = webhook.0;
  webhook_headers = webhook.1;
  loras = loras;
  init_image_bytes = init_image_bytes;
}

unfoldable pub resolve_and_validate : Site → GenerateRequest → Checked ValidatedJob
resolve_and_validate site req = do
  model ← or_refuse (site.registry req.model) validation_error unknown_model
  let m = merge_defaults model req
  check_enums model.family m
  wh ← check_size (get_or model.limits.size_max_pixels 1048576) m.size
  check_counts model req.n m.steps
  check_mode site req.mode
  webhook ← resolve_webhook site.urlparse req.webhook
  loras ← resolve_loras_for_job site req.loras
  guard_vram site model.vram_estimate_gb (length loras)
  init_image_bytes ← decode_init_image site req.init_image
  valid (validated_job req model m wh webhook loras init_image_bytes)
