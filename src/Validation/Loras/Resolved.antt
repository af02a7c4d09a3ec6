-- ===== src/Validation/Loras/Resolved.antt =====
-- app/validation.py: the LoRA lists that are resolved.
use local_image_generator_se.Common.{
  ℕ, ◌+◌, ◌*◌, ◌≤◌, ◌≡◌, refl, true, List, [], ◌∷◌, arith, All, not, ◌↔◌,
}
use local_image_generator_se.Validation.Request.{
  LoraSpec, Site, valid, refuse_if, validation_error, lora_missing, lora_escapes, lora_not_found,
}
use local_image_generator_se.Validation.Inversion.{bind-valid}
use local_image_generator_se.Validation.Loras.{
  resolve_loras_for_job, resolve_default_loras_for_model, vram_budget_gb, vram_needed, guard_vram,
}

-- The file of the name lies under the root and exists.
abbrev pub IsResolvable : Site → LoraSpec → Type 0
IsResolvable site spec = (site.contained spec.name ≡ true) × (site.is_file spec.name ≡ true)

pub resolved-All :
    (site : Site) (specs out : List LoraSpec)
    → resolve_loras_for_job site specs ≡ valid out
    → (out ≡ specs) × All (IsResolvable site) specs
unfolding resolve_loras_for_job
resolved-All site [] out h = (ground arith, tt)
resolved-All site (spec ∷ specs) out h =
    let (u, inside, h1) =
      bind-valid (refuse_if (not (site.contained spec.name)) validation_error lora_escapes) _ h in
    let (v, exists, h2) =
      bind-valid (refuse_if (not (site.is_file spec.name)) lora_missing lora_not_found) _ h1 in
    let (rest, later, h3) = bind-valid (resolve_loras_for_job site specs) _ h2 in
    let (same, all) = resolved-All site specs rest later in
    (ground (arith, h3, same), ((ground (arith, inside), ground (arith, exists)), all))

pub resolved_default-All :
    (site : Site) (specs out : List LoraSpec)
    → resolve_default_loras_for_model site specs ≡ valid out
    → (out ≡ specs) × All (IsResolvable site) specs
unfolding resolve_default_loras_for_model
resolved_default-All site [] out h = (ground arith, tt)
resolved_default-All site (spec ∷ specs) out h =
    let (u, inside, h1) =
      bind-valid (refuse_if (not (site.contained spec.name)) validation_error lora_escapes) _ h in
    let (v, exists, h2) =
      bind-valid (refuse_if (not (site.is_file spec.name)) lora_missing lora_not_found) _ h1 in
    let (rest, later, h3) = bind-valid (resolve_default_loras_for_model site specs) _ h2 in
    let (same, all) = resolved_default-All site specs rest later in
    (ground (arith, h3, same), ((ground (arith, inside), ground (arith, exists)), all))

pub resolvable-All :
    (site : Site) (specs : List LoraSpec)
    → All (IsResolvable site) specs
    → resolve_loras_for_job site specs ≡ valid specs
unfolding resolve_loras_for_job
resolvable-All site [] a = refl
resolvable-All site (spec ∷ specs) a = rw (a.0.0, a.0.1, resolvable-All site specs a.1)

pub guard_vram_iff :
    (site : Site) (estimate n : ℕ)
    → (guard_vram site estimate n ≡ valid tt) ↔ (estimate + 64 * n ≤ vram_budget_gb site)
unfolding guard_vram vram_needed
guard_vram_iff site estimate n = ((λ h. ground arith), (λ h. ground arith))
