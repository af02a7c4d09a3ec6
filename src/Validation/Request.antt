-- ===== src/Validation/Request.antt =====
-- The dataclasses and request models of app/validation.py and app/backends/base.py. A float that is
-- at least 0 is a number of thousandths; `seed` is `none` where the program has -1.
use local_image_generator_se.Common.{ℕ, String, Bool, true, false, Option, none, some, List}
use local_image_generator_se.Common.Text.{Text}
use local_image_generator_se.Schema.{JobMode}
use local_image_generator_se.Webhooks.Policy.{ParsedUrl}

pub data Family : Type 0 where
  sdxl flux qwen wan22 ltxv : Family

pub data Task : Type 0 where
  t2v i2v : Task

-- A float of either sign, in thousandths.
pub data Decimal : Type 0 where
  plus minus : ℕ → Decimal

pub record LoraSpec : Type 0 where
  pub name : Text
  pub weight : Decimal

-- `defaults` of a model: what `.get` finds, `none` for a missing key.
pub record Defaults : Type 0 where
  pub size : Option Text
  pub steps : Option ℕ
  pub cfg : Option ℕ
  pub shift : Option ℕ
  pub sampler : Option Text
  pub scheduler : Option Text
  pub negative_prompt : Option Text
  pub job_timeout_s : Option ℕ
  pub mmaudio_steps : Option ℕ
  pub mmaudio_cfg : Option ℕ

pub record Limits : Type 0 where
  pub size_max_pixels : Option ℕ
  pub n_max : Option ℕ
  pub steps_max : Option ℕ
  pub frames_max : Option ℕ

-- The fields that the checks and the graphs read. `video_gen` and `video_task` are those of
-- `capabilities`, and `vpred` says that `prediction` is "vpred".
pub record ModelConfig : Type 0 where
  pub name : Text
  pub workflow_path : Text
  pub checkpoint : Text
  pub vae : Option Text
  pub clip_l : Option Text
  pub t5xxl : Option Text
  pub dual_clip_type : Option Text
  pub clip_loader_type : Option Text
  pub ltxv_text_encoder : Option Text
  pub wan_t5_encoder : Option Text
  pub wan_clip_vision : Option Text
  pub wan_unet_low : Option Text
  pub mmaudio_vae : Option Text
  pub mmaudio_synchformer : Option Text
  pub mmaudio_clip : Option Text
  pub mmaudio_diffusion : Option Text
  pub vpred : Bool
  pub vram_estimate_gb : ℕ
  pub family : Family
  pub video_gen : Bool
  pub video_task : Option Task
  pub defaults : Defaults
  pub limits : Limits
  pub default_loras : List LoraSpec
  pub workflow_with_audio : Option Text

pub record WebhookSpec : Type 0 where
  pub url : String
  pub headers : Option (List (Text × Text))

pub data ResponseFormat : Type 0 where
  url b64_json : ResponseFormat

pub record GenerateRequest : Type 0 where
  pub model : Text
  pub prompt : Text
  pub negative_prompt : Option Text
  pub size : Text
  pub n : ℕ
  pub steps : Option ℕ
  pub cfg : ℕ
  pub seed : Option ℕ
  pub sampler : Option Text
  pub scheduler : Option Text
  pub response_format : ResponseFormat
  pub transparent_background : Bool
  pub mode : JobMode
  pub timeout_s : Option ℕ
  pub loras : List LoraSpec
  pub init_image : Option Text
  pub webhook : Option WebhookSpec

pub record ValidatedJob : Type 0 where
  pub model : ModelConfig
  pub prompt : Text
  pub negative_prompt : Text
  pub size : Text
  pub width : ℕ
  pub height : ℕ
  pub n : ℕ
  pub steps : ℕ
  pub cfg : ℕ
  pub seed : Option ℕ
  pub sampler : Text
  pub scheduler : Text
  pub response_format : ResponseFormat
  pub transparent_background : Bool
  pub mode : JobMode
  pub timeout_s : Option ℕ
  pub webhook_url : Option String
  pub webhook_headers : Option (List (Text × Text))
  pub loras : List LoraSpec
  pub init_image_bytes : Option (List ℕ)

-- An option that was given.
pub data Setting : Type 0 where
  toggle : Bool → Setting
  whole : ℕ → Setting
  decimal : Decimal → Setting
  word : Text → Setting

-- The options of a WAN graph: a group that was given has what `model_dump(exclude_none=True)` gives.
pub record WanVideoAdvancedOptions : Type 0 where
  pub merge_loras : Option Bool
  pub low_mem_load : Option Bool
  pub encode : Option (List (Text × Setting))
  pub clip_encode : Option (List (Text × Setting))
  pub decode : Option (List (Text × Setting))
  pub block_swap : Option (List (Text × Setting))
  pub export : Option (List (Text × Setting))

pub record VideoGenerateRequest : Type 0 where
  pub model : Text
  pub prompt : Text
  pub negative_prompt : Option Text
  pub size : Text
  pub frames : ℕ
  pub fps : ℕ
  pub steps : Option ℕ
  pub cfg : Option ℕ
  pub shift : Option ℕ
  pub seed : Option ℕ
  pub scheduler : Option Text
  pub riflex_freq_index : ℕ
  pub force_offload : Bool
  pub generate_audio : Bool
  pub response_format : ResponseFormat
  pub mode : JobMode
  pub timeout_s : Option ℕ
  pub webhook : Option WebhookSpec
  pub init_image : Option Text
  pub loras : List LoraSpec
  pub wan_advanced : Option WanVideoAdvancedOptions

pub record ValidatedVideoJob : Type 0 where
  pub model : ModelConfig
  pub prompt : Text
  pub negative_prompt : Text
  pub size : Text
  pub width : ℕ
  pub height : ℕ
  pub frames : ℕ
  pub fps : ℕ
  pub steps : ℕ
  pub cfg : ℕ
  pub shift : ℕ
  pub seed : Option ℕ
  pub scheduler : Text
  pub riflex_freq_index : ℕ
  pub force_offload : Bool
  pub generate_audio : Bool
  pub resolved_workflow_path : Text
  pub response_format : ResponseFormat
  pub mode : JobMode
  pub timeout_s : Option ℕ
  pub webhook_url : Option String
  pub webhook_headers : Option (List (Text × Text))
  pub init_image_bytes : Option (List ℕ)
  pub loras : List LoraSpec
  pub wan_advanced : Option WanVideoAdvancedOptions

-- `error_code` of ValidationFailureError.
pub data ErrorCode : Type 0 where
  validation_error async_not_enabled lora_missing vram_budget_exceeded : ErrorCode

pub data Reason : Type 0 where
  unknown_model sampler_not_allowed scheduler_not_allowed size_malformed size_exceeded : Reason
  n_exceeded steps_exceeded async_disabled webhook_scheme webhook_host header_reserved : Reason
  header_characters header_length lora_escapes lora_not_found vram_exceeded image_invalid : Reason
  not_video wrong_task wrong_family frames_exceeded scheduler_malformed image_required : Reason
  image_not_accepted advanced_not_accepted audio_undefined : Reason

pub data Checked {ℓ} (A : Type ℓ) : Type ℓ where
  valid : A → Checked A
  refused : ErrorCode → Reason → Checked A

infixl 5 ◌>>=◌ ◌>>◌
abbrev pub ◌>>=◌ {ℓ κ} : {A : Type ℓ} {B : Type κ} → Checked A → (A → Checked B) → Checked B
valid a >>= f = f a
refused c r >>= f = refused c r

abbrev pub ◌>>◌ {ℓ} : {B : Type ℓ} → Checked (Unit {0}) → Checked B → Checked B
m >> k = m >>= λ _. k

-- `if b: raise ValidationFailureError(…)`
abbrev pub refuse_if : Bool → ErrorCode → Reason → Checked (Unit {0})
refuse_if true c r = refused c r
refuse_if false c r = valid tt

abbrev pub or_refuse {ℓ} : {A : Type ℓ} → Option A → ErrorCode → Reason → Checked A
or_refuse none c r = refused c r
or_refuse (some a) c r = valid a

abbrev pub get_or {ℓ} : {A : Type ℓ} → Option A → A → A
get_or none d = d
get_or (some a) d = a

-- What the checks read from outside the request: the registry, the file tree of the LoRAs (whether
-- the resolved path of a name stays under the root, and whether it is a file), the variable
-- VRAM_BUDGET_GB with `float`, URL parsing and base64 decoding.
pub record Site : Type 0 where
  pub registry : Text → Option ModelConfig
  pub async_mode_enabled : Bool
  pub contained : Text → Bool
  pub is_file : Text → Bool
  pub vram_budget_raw : Option Text
  pub float_of : Text → Option ℕ
  pub urlparse : String → ParsedUrl
  pub b64decode : Text → Option (List ℕ)
