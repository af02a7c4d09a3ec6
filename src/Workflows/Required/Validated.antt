-- ===== src/Workflows/Required/Validated.antt =====
-- app/registry/workflows.py: the core injection of LoRAs into a graph whose anchors were validated.
use local_image_generator_se.Common.{
  ◌+◌, ◌≡◌, refl, ap, ◌∙◌, inl, inr, List, [], ◌∷◌, ◌++◌, In, In-append_left, Bool-cases, take,
  length, arith, subst,
}
use local_image_generator_se.Common.Text.{Text, codes, among, text_eq}
use local_image_generator_se.Common.Digits.{str}
use local_image_generator_se.Validation.Request.{LoraSpec}
use local_image_generator_se.Workflows.Graph.{
  Graph, Attempt, done, ◌>>=◌, title_anchors, find_anchor, validate_anchors,
}
use local_image_generator_se.Workflows.Anchors.{validate_anchors-find}
use local_image_generator_se.Workflows.Kept.{done-inj}
use local_image_generator_se.Workflows.Wan.{core_loras_between, dual_loras, inject_wan_core_loras}
use local_image_generator_se.Workflows.Wan.Between.{
  fed, loaders_of, first_id, core_loras_between-chain,
}
use local_image_generator_se.Workflows.Required.{
  base_anchors_wan22, required_anchors_for_video_task,
}

find_anchor-append :
    (g chain : Graph) (a i : Text) → find_anchor g a ≡ done i → find_anchor (g ++ chain) a ≡ done i
unfolding find_anchor
find_anchor-append [] chain a i h = absurd (ground (arith, h))
find_anchor-append ((j, node) ∷ g) chain a i h = elim (Bool-cases (among a (title_anchors node))) [
  | inl u ↦ rw u (rw u at h)
  | inr u ↦ rw u (find_anchor-append g chain a i (rw u at h))
]

fed-find :
    (s p : Text) (g chain : Graph) (a i : Text)
    → find_anchor g a ≡ done i
    → find_anchor (fed s p g ++ chain) a ≡ done i
unfolding find_anchor fed among title_anchors
fed-find s p [] chain a i h = absurd (ground (arith, h))
fed-find s p ((j, node) ∷ g) chain a i h = elim (Bool-cases (text_eq j s)) [
  | inl t ↦ rw t (elim (Bool-cases (among a (title_anchors node))) [
    | inl u ↦ rw u (rw u at h)
    | inr u ↦ rw u (find_anchor-append g chain a i (rw u at h))
  ])
  | inr t ↦ rw t (elim (Bool-cases (among a (title_anchors node))) [
    | inl u ↦ rw u (rw u at h)
    | inr u ↦ rw u (fed-find s p g chain a i (rw u at h))
  ])
]

-- What an injection gives, and keeps.
abbrev Injected : Graph → Attempt Graph → Type 0
Injected g m =
    (g' : Graph) × (m ≡ done g')
    × ((a i : Text) → find_anchor g a ≡ done i → find_anchor g' a ≡ done i)

between-Injected :
    (g : Graph) (ls : List LoraSpec) (model shift model_id shift_id : Text)
    → find_anchor g model ≡ done model_id
    → find_anchor g shift ≡ done shift_id
    → Injected g (core_loras_between ls model shift g)
unfolding core_loras_between
between-Injected g [] model shift m s em es = (g, refl, λ a i h. h)
between-Injected g (l ∷ ls) model shift m s em es =
    let last = str (first_id g + length (take 4 ls)) in
    let chain = loaders_of (first_id g) m (l ∷ take 4 ls) in
    (
      fed s last g ++ chain,
      (core_loras_between-chain g l ls model shift m s em es).0,
      λ a i h. fed-find s last g chain a i h,
    )

base-required :
    (task : Text) (anchors : List Text) (a : Text)
    → required_anchors_for_video_task task ≡ done anchors
    → In a base_anchors_wan22
    → In a anchors
unfolding required_anchors_for_video_task
base-required task anchors a h i = elim (Bool-cases (text_eq task (codes "i2v"))) [
  | inl t ↦
      subst (In a) (done-inj (rw t at h))
        (In-append_left a base_anchors_wan22 (codes "%INIT_IMAGE%" ∷ []) i)
  | inr t ↦ elim (Bool-cases (text_eq task (codes "t2v"))) [
    | inl u ↦ subst (In a) (done-inj (rw (t, u) at h)) i
    | inr u ↦ absurd (ground (arith, h, t, u))
  ]
]

module _ (task : Text) (anchors : List Text) (g : Graph)
    (required : required_anchors_for_video_task task ≡ done anchors)
    (checked : validate_anchors g anchors ≡ done tt) where
  found : (a : Text) → In a base_anchors_wan22 → (i : Text) × (find_anchor g a ≡ done i)
  found a i =
      let (id, e, node, unique) =
        validate_anchors-find g anchors a checked (base-required task anchors a required i) in
      (id, e)

  dual-Injected : (l : LoraSpec) (ls : List LoraSpec) → Injected g (dual_loras (l ∷ ls) g)
  dual-Injected l [] =
      let (m, em) = found (codes "%WAN_MODEL%") (ground arith) in
      let (s, es) = found (codes "%WAN_SHIFT%") (ground arith) in
      between-Injected g (l ∷ []) (codes "%WAN_MODEL%") (codes "%WAN_SHIFT%") m s em es
  dual-Injected l (b ∷ ls) =
      let (m, em) = found (codes "%WAN_MODEL%") (ground arith) in
      let (s, es) = found (codes "%WAN_SHIFT%") (ground arith) in
      let (n, en) = found (codes "%WAN_MODEL_LOW%") (ground arith) in
      let (u, eu) = found (codes "%WAN_SHIFT_LOW%") (ground arith) in
      let (g1, e1, k1) =
        between-Injected g (l ∷ ls) (codes "%WAN_MODEL%") (codes "%WAN_SHIFT%") m s em es in
      let (g2, e2, k2) =
        between-Injected g1 (b ∷ []) (codes "%WAN_MODEL_LOW%") (codes "%WAN_SHIFT_LOW%") n u
          (k1 (codes "%WAN_MODEL_LOW%") n en) (k1 (codes "%WAN_SHIFT_LOW%") u eu) in
      (
        g2,
        ap
              (λ x.
                x
                >>= core_loras_between (b ∷ []) (codes "%WAN_MODEL_LOW%") (codes "%WAN_SHIFT_LOW%"))
              e1
            ∙ e2,
        λ a i h. k2 a i (k1 a i h),
      )

  inject-dual :
      (l : LoraSpec) (ls : List LoraSpec) → inject_wan_core_loras (l ∷ ls) g ≡ dual_loras (l ∷ ls) g
  unfolding inject_wan_core_loras
  inject-dual l ls =
      let (n, en) = found (codes "%WAN_MODEL_LOW%") (ground arith) in
      let (u, eu) = found (codes "%WAN_SHIFT_LOW%") (ground arith) in rw (en, eu) refl

  -- A graph that has the anchors required for a WAN task takes any LoRAs: the core injection comes to
  -- an end without an error, and every search for an anchor that found a node finds the same node.
  pub inject_wan_core_loras-validated :
      (loras : List LoraSpec)
      → (g' : Graph) × (inject_wan_core_loras loras g ≡ done g')
        × ((a i : Text) → find_anchor g a ≡ done i → find_anchor g' a ≡ done i)
  unfolding inject_wan_core_loras
  inject_wan_core_loras-validated [] = (g, refl, λ a i h. h)
  inject_wan_core_loras-validated (l ∷ ls) =
      let (g', e, k) = dual-Injected l ls in (g', inject-dual l ls ∙ e, k)
