-- ===== src/Validation/Video/Checks.antt =====
-- app/validation.py: the requests that `resolve_and_validate_video` accepts.
use local_image_generator_se.Common.{
  Bool, not, ◌&&◌, leb, [], ◌∷◌, is_some, Bool-cases, inl, inr, ℕ, ◌+◌, ◌*◌, ◌≤◌, ◌≡◌, refl, sym,
  ap, ◌∙◌, true, false, Option, none, some, List, ◌++◌, arith, All, length, ◌⊎◌, if◌then◌else◌,
  subst,
}
use local_image_generator_se.Common.Text.{Text, codes, strip, truthy}
use local_image_generator_se.Schema.{async}
use local_image_generator_se.Validation.Request.{
  WanVideoAdvancedOptions, scheduler_malformed, audio_undefined, refuse_if, Family, wan22, ltxv,
  Task, t2v, i2v, LoraSpec, VideoGenerateRequest, ValidatedVideoJob, ModelConfig, Site, valid,
  or_refuse, get_or, validation_error, unknown_model,
}
use local_image_generator_se.Validation.Inversion.{bind-valid, or_refuse-valid}
use local_image_generator_se.Validation.Frames.{normalize_wan_num_frames, normalize_ltxv_num_frames}
use local_image_generator_se.Validation.Webhook.{resolve_webhook}
use local_image_generator_se.Validation.Webhook.Accepted.{IsTarget, resolve_webhook_iff}
use local_image_generator_se.Validation.Loras.{
  resolve_loras_for_job, resolve_default_loras_for_model, guard_vram, vram_budget_gb,
  decode_init_image,
}
use local_image_generator_se.Validation.Loras.Resolved.{
  IsResolvable, resolved-All, resolved_default-All, guard_vram_iff,
}
use local_image_generator_se.Validation.Image.{or_text, size_or, check_size, check_mode}
use local_image_generator_se.Validation.Image.Sound.{check_size_iff, check_mode_iff}
use local_image_generator_se.Validation.Video.{
  task_is, is_video_family, is_ltxv, check_model, resolve_frames, resolve_steps, resolve_scheduler,
  VideoFields, VideoAssets, resolve_fields, resolve_video_loras, resolve_assets,
  validated_video_job, no_bytes, check_image_use, check_advanced, resolve_workflow, scheduler_char,
  all_scheduler_chars, resolve_and_validate_video,
}

abbrev normalized : Family → ℕ → ℕ
normalized family raw =
    if is_ltxv family then normalize_ltxv_num_frames raw else normalize_wan_num_frames raw

-- Neither of the groups that only a job from an image may have.
abbrev pub HasNoImageOptions : Option WanVideoAdvancedOptions → Type 0
HasNoImageOptions none = Unit {0}
HasNoImageOptions (some wa) = (wa.encode ≡ none) × (wa.clip_encode ≡ none)

-- 1 to 64 letters, digits and `_`, `.`, `+`, `-`.
abbrev pub IsSchedulerName : Text → Type 0
IsSchedulerName s = All (λ c. scheduler_char c ≡ true) s × (1 ≤ length s) × (length s ≤ 64)

pub record IsVideoJob (site : Site) (task : Task) (req : VideoGenerateRequest)
    (job : ValidatedVideoJob) : Type 0 where
  pub registered : site.registry req.model ≡ some job.model
  pub capable : job.model.video_gen ≡ true
  pub same : job.model.video_task ≡ some task
  pub family : (job.model.family ≡ wan22) ⊎ (job.model.family ≡ ltxv)
  pub requested : req.frames ≤ get_or job.model.limits.frames_max 241
  pub frames : job.frames ≡ normalized job.model.family req.frames
  pub steps : job.steps ≤ get_or job.model.limits.steps_max 50
  pub pixels : job.width * job.height ≤ get_or job.model.limits.size_max_pixels 2073600
  pub enabled : job.mode ≡ async → site.async_mode_enabled ≡ true
  pub loras : job.loras ≡ job.model.default_loras ++ req.loras
  pub user : All (IsResolvable site) req.loras
  pub default : All (IsResolvable site) job.model.default_loras
  pub vram : job.model.vram_estimate_gb + 64 * length job.loras ≤ vram_budget_gb site
  pub decoded : decode_init_image site req.init_image ≡ valid job.init_image_bytes
  pub image : task ≡ i2v → no_bytes job.init_image_bytes ≡ false
  pub no_image : task ≡ t2v → job.model.family ≡ wan22 → no_bytes job.init_image_bytes ≡ true
  pub advanced : task ≡ t2v → HasNoImageOptions req.wan_advanced
  pub silent : req.generate_audio ≡ false → job.resolved_workflow_path ≡ job.model.workflow_path
  pub audible :
      req.generate_audio ≡ true
      → truthy job.model.workflow_with_audio ≡ some job.resolved_workflow_path
  pub webhook : IsTarget site.urlparse req.webhook (job.webhook_url, job.webhook_headers)
  pub scheduler : IsSchedulerName job.scheduler

task_is-some : (t : Task) (o : Option Task) → task_is t o ≡ true → o ≡ some t
task_is-some t none h = cc
task_is-some t2v (some t2v) h = refl
task_is-some t2v (some i2v) h = cc
task_is-some i2v (some t2v) h = cc
task_is-some i2v (some i2v) h = refl

video_family : (f : Family) → is_video_family f ≡ true → (f ≡ wan22) ⊎ (f ≡ ltxv)
video_family f h = ground arith

check_model-valid :
    (t : Task) (model : ModelConfig)
    → check_model t model ≡ valid tt
    → (model.video_gen ≡ true)
      × (model.video_task ≡ some t)
      × ((model.family ≡ wan22) ⊎ (model.family ≡ ltxv))
unfolding check_model
check_model-valid t model h = (
  ground (arith, h),
  task_is-some t model.video_task (ground (arith, h)),
  video_family model.family (ground (arith, h)),
)

resolve_frames-valid :
    (model : ModelConfig) (raw frames : ℕ)
    → resolve_frames model raw ≡ valid frames
    → (raw ≤ get_or model.limits.frames_max 241) × (frames ≡ normalized model.family raw)
unfolding resolve_frames
resolve_frames-valid model raw frames h = (ground (arith, h), ground (arith, h))

resolve_steps-valid :
    (model : ModelConfig) (requested : Option ℕ) (steps : ℕ)
    → resolve_steps model requested ≡ valid steps
    → steps ≤ get_or model.limits.steps_max 50
unfolding resolve_steps
resolve_steps-valid model requested steps h = ground (arith, h)

image_use-valid :
    (t : Task) (family : Family) (image : Option (List ℕ))
    → check_image_use t family image ≡ valid tt
    → t ≡ i2v
    → no_bytes image ≡ false
unfolding check_image_use
image_use-valid t2v family image h e = cc
image_use-valid i2v family image h e = ground (arith, h)

valid_inj : {A : Type 0} {x y : A} → valid x ≡ valid y → x ≡ y
valid_inj h = ground arith

image_use-none :
    (t : Task) (family : Family) (image : Option (List ℕ))
    → check_image_use t family image ≡ valid tt
    → t ≡ t2v
    → family ≡ wan22
    → no_bytes image ≡ true
unfolding check_image_use
image_use-none i2v family image h e w = cc
image_use-none t2v family image h e w = elim (Bool-cases (no_bytes image)) [
  | inl t ↦ t
  | inr f ↦ absurd (ground (arith, rw (f, w) at h))
]

none_of : {A : Type 0} (o : Option A) → is_some o ≡ false → o ≡ none
none_of none h = refl
none_of (some a) h = cc

advanced-valid :
    (t : Task) (o : Option WanVideoAdvancedOptions)
    → check_advanced t o ≡ valid tt
    → t ≡ t2v
    → HasNoImageOptions o
unfolding check_advanced
advanced-valid t none h e = tt
advanced-valid i2v (some wa) h e = cc
advanced-valid t2v (some wa) h e =
    (none_of wa.encode (ground (arith, h)), none_of wa.clip_encode (ground (arith, h)))

workflow-silent :
    (model : ModelConfig) (audio : Bool) (path : Text)
    → resolve_workflow model audio ≡ valid path
    → audio ≡ false
    → path ≡ model.workflow_path
unfolding resolve_workflow
workflow-silent model audio path h e = ground (arith, h, e)

workflow-audible :
    (model : ModelConfig) (audio : Bool) (path : Text)
    → resolve_workflow model audio ≡ valid path
    → audio ≡ true
    → truthy model.workflow_with_audio ≡ some path
unfolding resolve_workflow
workflow-audible model audio path h e =
    or_refuse-valid (truthy model.workflow_with_audio) validation_error audio_undefined (rw e at h)

scheduler_chars-All :
    (s : Text) → all_scheduler_chars s ≡ true → All (λ c. scheduler_char c ≡ true) s
unfolding all_scheduler_chars
scheduler_chars-All [] h = tt
scheduler_chars-All (c ∷ cs) h = (ground (arith, h), scheduler_chars-All cs (ground (arith, h)))

scheduler-valid :
    (model : ModelConfig) (requested : Option Text) (s : Text)
    → resolve_scheduler model requested ≡ valid s
    → IsSchedulerName s
unfolding resolve_scheduler
scheduler-valid model requested s h =
    let raw = strip (or_text requested (get_or model.defaults.scheduler (codes "simple"))) in
    let (u, e, q) =
      bind-valid
        (refuse_if (not (all_scheduler_chars raw && (leb 1 (length raw) && leb (length raw) 64)))
          validation_error scheduler_malformed)
        _ h in
    subst IsSchedulerName (valid_inj q)
      (scheduler_chars-All raw (ground (arith, e)), ground (arith, e), ground (arith, e))

record FieldsOk (task : Task) (model : ModelConfig) (req : VideoGenerateRequest) (f : VideoFields)
    : Type 0 where
  checked : check_model task model ≡ valid tt
  frames : resolve_frames model req.frames ≡ valid f.frames
  steps : resolve_steps model req.steps ≡ valid f.steps
  scheduler : resolve_scheduler model req.scheduler ≡ valid f.scheduler
  pixels : check_size (get_or model.limits.size_max_pixels 2073600) f.size ≡ valid f.pixels

fields-valid :
    (task : Task) (model : ModelConfig) (req : VideoGenerateRequest) (f : VideoFields)
    → resolve_fields task model req ≡ valid f
    → FieldsOk task model req f
unfolding resolve_fields
fields-valid task model req f h =
    let (u, e1, h1) = bind-valid (check_model task model) _ h in
    let (frames, e2, h2) = bind-valid (resolve_frames model req.frames) _ h1 in
    let (steps, e3, h3) = bind-valid (resolve_steps model req.steps) _ h2 in
    let (scheduler, e4, h4) = bind-valid (resolve_scheduler model req.scheduler) _ h3 in
    let (wh, e5, h5) =
      bind-valid
        (check_size (get_or model.limits.size_max_pixels 2073600)
          (size_or req.size model.defaults.size (codes "832x480")))
        _ h4 in
    subst (FieldsOk task model req) (valid_inj h5)
      (record { checked = e1; frames = e2; steps = e3; scheduler = e4; pixels = e5 })

loras-valid :
    (site : Site) (task : Task) (model : ModelConfig) (req : VideoGenerateRequest)
    (ls : List LoraSpec)
    → resolve_video_loras site task model req ≡ valid ls
    → (ls ≡ model.default_loras ++ req.loras)
      × All (IsResolvable site) req.loras
      × All (IsResolvable site) model.default_loras
      × (model.vram_estimate_gb + 64 * length ls ≤ vram_budget_gb site)
      × (check_advanced task req.wan_advanced ≡ valid tt)
unfolding resolve_video_loras
loras-valid site task model req ls h =
    let (user, e1, h1) = bind-valid (resolve_loras_for_job site req.loras) _ h in
    let (default, e2, h2) =
      bind-valid (resolve_default_loras_for_model site model.default_loras) _ h1 in
    let (u3, e3, h3) = bind-valid (check_advanced task req.wan_advanced) _ h2 in
    let (u4, e4, h4) =
      bind-valid (guard_vram site model.vram_estimate_gb (length (default ++ user))) _ h3 in
    let (same_user, all_user) = resolved-All site req.loras user e1 in
    let (same_default, all_default) = resolved_default-All site model.default_loras default e2 in
    let fits = (guard_vram_iff site model.vram_estimate_gb (length (default ++ user))).0 e4 in
    let same : default ++ user ≡ ls = valid_inj h4 in
    (
      sym same ∙ cc (same_user, same_default),
      all_user,
      all_default,
      omega (arith, fits, ap (length {0}) same),
      e3,
    )

record AssetsOk (site : Site) (task : Task) (model : ModelConfig) (req : VideoGenerateRequest)
    (a : VideoAssets) : Type 0 where
  mode : check_mode site req.mode ≡ valid tt
  decoded : decode_init_image site req.init_image ≡ valid a.init_image_bytes
  webhook : resolve_webhook site.urlparse req.webhook ≡ valid a.webhook
  workflow : resolve_workflow model req.generate_audio ≡ valid a.workflow_path
  image : check_image_use task model.family a.init_image_bytes ≡ valid tt
  loras : resolve_video_loras site task model req ≡ valid a.loras

assets-valid :
    (site : Site) (task : Task) (model : ModelConfig) (req : VideoGenerateRequest) (a : VideoAssets)
    → resolve_assets site task model req ≡ valid a
    → AssetsOk site task model req a
unfolding resolve_assets
assets-valid site task model req a h =
    let (u1, e1, h1) = bind-valid (check_mode site req.mode) _ h in
    let (webhook, e2, h2) = bind-valid (resolve_webhook site.urlparse req.webhook) _ h1 in
    let (image, e3, h3) = bind-valid (decode_init_image site req.init_image) _ h2 in
    let (u4, e4, h4) = bind-valid (check_image_use task model.family image) _ h3 in
    let (loras, e5, h5) = bind-valid (resolve_video_loras site task model req) _ h4 in
    let (workflow, e6, h6) = bind-valid (resolve_workflow model req.generate_audio) _ h5 in
    subst (AssetsOk site task model req) (valid_inj h6)
      (record { mode = e1; decoded = e3; webhook = e2; workflow = e6; image = e4; loras = e5 })

checked-IsVideoJob :
    (site : Site) (task : Task) (req : VideoGenerateRequest) (model : ModelConfig) (f : VideoFields)
    (a : VideoAssets)
    → site.registry req.model ≡ some model
    → FieldsOk task model req f
    → AssetsOk site task model req a
    → IsVideoJob site task req (validated_video_job req model f a)
unfolding validated_video_job
checked-IsVideoJob site task req model f a r k s =
    let lv = loras-valid site task model req a.loras s.loras in
    let mv = check_model-valid task model k.checked in
    let fv = resolve_frames-valid model req.frames f.frames k.frames in
    record {
      registered = r;
      capable = mv.0;
      same = mv.1;
      family = mv.2;
      requested = fv.0;
      frames = fv.1;
      steps = resolve_steps-valid model req.steps f.steps k.steps;
      pixels =
          ((check_size_iff (get_or model.limits.size_max_pixels 2073600) f.size f.pixels).0
            k.pixels).1;
      enabled = (check_mode_iff site req.mode).0 s.mode;
      loras = lv.0;
      user = lv.1;
      default = lv.2;
      vram = lv.3;
      decoded = s.decoded;
      image = image_use-valid task model.family a.init_image_bytes s.image;
      no_image = image_use-none task model.family a.init_image_bytes s.image;
      advanced = advanced-valid task req.wan_advanced lv.4;
      silent = workflow-silent model req.generate_audio a.workflow_path s.workflow;
      audible = workflow-audible model req.generate_audio a.workflow_path s.workflow;
      webhook = (resolve_webhook_iff site.urlparse req.webhook a.webhook).0 s.webhook;
      scheduler = scheduler-valid model req.scheduler f.scheduler k.scheduler;
    }

-- An accepted video request has a model of the endpoint's task and of a video family; the requested
-- frames are within its cap and are normalised for the family; steps and pixels are within its
-- limits and the mode is enabled; the scheduler has 1 to 64 permitted characters; the LoRAs are the
-- model's own followed by the request's, all of them resolved and all of them counted in a VRAM
-- estimate within the budget; the webhook has a URL with the scheme http or https and a host, and
-- acceptable headers; the workflow is the model's own, or with audio its other one, which there is;
-- the image is the one that the request decodes to; a job from an image has one, and a WAN job from
-- text has none; and no job from text has advanced options for images.
pub accepted-IsVideoJob :
    (site : Site) (task : Task) (req : VideoGenerateRequest) (job : ValidatedVideoJob)
    → resolve_and_validate_video site task req ≡ valid job
    → IsVideoJob site task req job
unfolding resolve_and_validate_video
accepted-IsVideoJob site task req job h =
    let (model, e1, h1) =
      bind-valid (or_refuse (site.registry req.model) validation_error unknown_model) _ h in
    let (f, e2, h2) = bind-valid (resolve_fields task model req) _ h1 in
    let (a, e3, h3) = bind-valid (resolve_assets site task model req) _ h2 in
    subst (IsVideoJob site task req) (valid_inj h3) (
      checked-IsVideoJob site task req model f a
        (or_refuse-valid (site.registry req.model) validation_error unknown_model e1)
        (fields-valid task model req f e2) (assets-valid site task model req a e3))
