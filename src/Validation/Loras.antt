-- ===== src/Validation/Loras.antt =====
-- The resolution of LoRA names, the VRAM guard, and the decoding of the initial image, which the
-- two validators share. Resolved references keep the name and the weight of a specification.
pub mod Resolved
use local_image_generator_se.Common.{
  ℕ, ◌+◌, ◌*◌, Bool, true, false, not, Option, none, some, List, [], ◌∷◌, ltb, length,
  if◌then◌else◌,
}
use local_image_generator_se.Common.Text.{Text, codes, starts_with, is_empty}
use local_image_generator_se.Validation.Request.{
  LoraSpec, Site, Checked, valid, refused, refuse_if, or_refuse, validation_error, lora_missing,
  vram_budget_exceeded, lora_escapes, lora_not_found, vram_exceeded, image_invalid, ◌>>=◌, ◌>>◌,
}
use local_image_generator_se.Validation.Size.{split_once}

unfoldable pub resolve_loras_for_job : Site → List LoraSpec → Checked (List LoraSpec)
resolve_loras_for_job site [] = valid []
resolve_loras_for_job site (spec ∷ specs) = do
  refuse_if (not (site.contained spec.name)) validation_error lora_escapes
  refuse_if (not (site.is_file spec.name)) lora_missing lora_not_found
  rest ← resolve_loras_for_job site specs
  valid (spec ∷ rest)

-- The same steps over the model's own list.
unfoldable pub resolve_default_loras_for_model : Site → List LoraSpec → Checked (List LoraSpec)
resolve_default_loras_for_model site [] = valid []
resolve_default_loras_for_model site (d ∷ ds) = do
  refuse_if (not (site.contained d.name)) validation_error lora_escapes
  refuse_if (not (site.is_file d.name)) lora_missing lora_not_found
  rest ← resolve_default_loras_for_model site ds
  valid (d ∷ rest)

abbrev default_vram_budget_gb : ℕ
default_vram_budget_gb = 12000

abbrev lora_vram_overhead_gb : ℕ
lora_vram_overhead_gb = 64

abbrev parsed_budget : Option ℕ → ℕ
parsed_budget none = default_vram_budget_gb
parsed_budget (some b) = b

abbrev budget_of : (Text → Option ℕ) → Option Text → ℕ
budget_of float_of none = default_vram_budget_gb
budget_of float_of (some raw) = parsed_budget (float_of raw)

unfoldable pub vram_budget_gb : Site → ℕ
vram_budget_gb site = budget_of site.float_of site.vram_budget_raw

-- The estimate of the model and of `n` LoRAs, in thousandths of a GB.
unfoldable pub vram_needed : ℕ → ℕ → ℕ
vram_needed estimate n = estimate + lora_vram_overhead_gb * n

unfoldable pub guard_vram : Site → ℕ → ℕ → Checked (Unit {0})
unfolding vram_budget_gb vram_needed
guard_vram site estimate n =
    refuse_if (ltb (vram_budget_gb site) (vram_needed estimate n)) vram_budget_exceeded
      vram_exceeded

abbrev after_comma : Text → Option (Text × Text) → Text
after_comma t none = t
after_comma t (some (a, b)) = b

-- The text behind the first comma of a data URI.
unfoldable pub strip_data_uri : Text → Text
strip_data_uri t = if starts_with t (codes "data:image") then after_comma t (split_once 44 t) else t

abbrev decoded : Option (List ℕ) → Checked (Option (List ℕ))
decoded none = refused validation_error image_invalid
decoded (some bytes) = valid (some bytes)

abbrev image_of : Site → Text → Checked (Option (List ℕ))
image_of site [] = valid none
image_of site (c ∷ cs) = decoded (site.b64decode (strip_data_uri (c ∷ cs)))

-- `if req.init_image:` skips a missing and an empty text.
unfoldable pub decode_init_image : Site → Option Text → Checked (Option (List ℕ))
unfolding strip_data_uri
decode_init_image site none = valid none
decode_init_image site (some t) = image_of site t
