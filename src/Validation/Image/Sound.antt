-- ===== src/Validation/Image/Sound.antt =====
-- app/validation.py: the requests that `resolve_and_validate` accepts.
use local_image_generator_se.Common.{
  ℕ, ◌+◌, ◌*◌, ◌≤◌, ◌≡◌, refl, true, Option, some, List, arith, All, In, length, ◌↔◌,
}
use local_image_generator_se.Common.Text.{Text}
use local_image_generator_se.Schema.{JobMode, sync, async}
use local_image_generator_se.Validation.Request.{
  GenerateRequest, ValidatedJob, ModelConfig, Site, valid, get_or,
}
use local_image_generator_se.Validation.Size.{parse_size}
use local_image_generator_se.Validation.Webhook.Accepted.{IsTarget}
use local_image_generator_se.Validation.Webhook.{WebhookTarget}
use local_image_generator_se.Validation.Loras.{vram_budget_gb, decode_init_image}
use local_image_generator_se.Validation.Loras.Resolved.{IsResolvable}
use local_image_generator_se.Validation.Image.{
  allowed_samplers_by_family, allowed_schedulers_by_family, merge_defaults, check_size, check_mode,
  validated_job,
}

pub check_size_iff :
    (bound : ℕ) (size : Text) (wh : ℕ × ℕ)
    → (check_size bound size ≡ valid wh) ↔ ((parse_size size ≡ some wh) × (wh.0 * wh.1 ≤ bound))
unfolding check_size
check_size_iff bound size wh =
    (λ h. (ground (arith, h), ground (arith, h)), λ p. rw p.0 (ground (arith, p.1)))

pub check_mode_iff :
    (site : Site) (mode : JobMode)
    → (check_mode site mode ≡ valid tt) ↔ (mode ≡ async → site.async_mode_enabled ≡ true)
unfolding check_mode
check_mode_iff site sync = ((λ h e. cc), (λ h. refl))
check_mode_iff site async = ((λ h e. ground (arith, h)), (λ h. rw (h refl)))

-- What it takes to be accepted, apart from the decoding of the image.
pub record Admission (site : Site) (req : GenerateRequest) : Type 0 where
  pub model : ModelConfig
  pub size : ℕ × ℕ
  pub webhook : WebhookTarget
  pub image : Option (List ℕ)
  pub registered : site.registry req.model ≡ some model
  pub sampler : In (merge_defaults model req).sampler (allowed_samplers_by_family model.family)
  pub scheduler :
      In (merge_defaults model req).scheduler (allowed_schedulers_by_family model.family)
  pub parsed : parse_size (merge_defaults model req).size ≡ some size
  pub pixels : size.0 * size.1 ≤ get_or model.limits.size_max_pixels 1048576
  pub count : req.n ≤ get_or model.limits.n_max 1
  pub steps : (merge_defaults model req).steps ≤ get_or model.limits.steps_max 50
  pub enabled : req.mode ≡ async → site.async_mode_enabled ≡ true
  pub target : IsTarget site.urlparse req.webhook webhook
  pub loras : All (IsResolvable site) req.loras
  pub vram : model.vram_estimate_gb + 64 * length req.loras ≤ vram_budget_gb site
  pub decoded : decode_init_image site req.init_image ≡ valid image

abbrev pub admitted : (site : Site) (req : GenerateRequest) → Admission site req → ValidatedJob
admitted site req a =
    validated_job req a.model (merge_defaults a.model req) a.size a.webhook req.loras a.image
