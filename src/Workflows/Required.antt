-- ===== src/Workflows/Required.antt =====
-- app/registry/workflows.py: the anchors that the graphs of a family must have.
use local_image_generator_se.Common.{List, [], ◌∷◌, ◌++◌, ◌||◌, if◌then◌else◌}
use local_image_generator_se.Common.Text.{Text, codes, text_eq}
use local_image_generator_se.Workflows.Graph.{Attempt, done, raised, workflow_validation, ◌>>=◌}
pub mod Validated

abbrev pub required_anchors_sdxl : List Text
required_anchors_sdxl =
    codes "%MODEL_SOURCE%"
    ∷ codes "%CLIP_SOURCE%"
    ∷ codes "%LORA_INSERT%"
    ∷ codes "%POSITIVE_PROMPT%"
    ∷ codes "%NEGATIVE_PROMPT%"
    ∷ codes "%KSAMPLER%"
    ∷ codes "%OUTPUT%"
    ∷ []

abbrev pub required_anchors_flux : List Text
required_anchors_flux =
    codes "%MODEL_SOURCE%"
    ∷ codes "%CLIP_SOURCE%"
    ∷ codes "%LORA_INSERT%"
    ∷ codes "%POSITIVE_PROMPT%"
    ∷ codes "%NEGATIVE_PROMPT%"
    ∷ codes "%KSAMPLER%"
    ∷ codes "%OUTPUT%"
    ∷ []

abbrev pub base_anchors_wan22 : List Text
base_anchors_wan22 =
    codes "%WAN_T5%"
    ∷ codes "%WAN_POSITIVE%"
    ∷ codes "%WAN_NEGATIVE%"
    ∷ codes "%WAN_DIMS%"
    ∷ codes "%WAN_MODEL%"
    ∷ codes "%WAN_SHIFT%"
    ∷ codes "%WAN_MODEL_LOW%"
    ∷ codes "%WAN_SHIFT_LOW%"
    ∷ codes "%WAN_VAE%"
    ∷ codes "%WAN_SAMPLER%"
    ∷ codes "%WAN_NAG_SAMPLER%"
    ∷ codes "%WAN_DECODE%"
    ∷ codes "%VIDEO_OUTPUT%"
    ∷ []

unfoldable pub required_anchors_for_video_task : Text → Attempt (List Text)
unfolding text_eq
required_anchors_for_video_task task =
    if text_eq task (codes "i2v")
    then done (base_anchors_wan22 ++ codes "%INIT_IMAGE%" ∷ [])
    else if text_eq task (codes "t2v")
    then done base_anchors_wan22
    else raised workflow_validation

abbrev pub mmaudio_anchors_wan22 : List Text
mmaudio_anchors_wan22 =
    codes "%MMAUDIO_FEATURE_UTILS%" ∷ codes "%MMAUDIO_DIFFUSION%" ∷ codes "%MMAUDIO_SAMPLER%" ∷ []

unfoldable pub required_anchors_for_wan22_audio_task : Text → Attempt (List Text)
unfolding required_anchors_for_video_task
required_anchors_for_wan22_audio_task task =
    required_anchors_for_video_task task >>= λ anchors. done (anchors ++ mmaudio_anchors_wan22)

abbrev pub required_anchors_ltxv : List Text
required_anchors_ltxv =
    codes "%LTXV_CHECKPOINT%"
    ∷ codes "%LTXV_TEXT_ENCODER%"
    ∷ codes "%LTXV_VIDEO_VAE%"
    ∷ codes "%LTXV_POSITIVE%"
    ∷ codes "%LTXV_NEGATIVE%"
    ∷ codes "%LTXV_SEED%"
    ∷ codes "%LTXV_FRAMES%"
    ∷ codes "%LTXV_OUTPUT%"
    ∷ codes "%INIT_IMAGE%"
    ∷ []

unfoldable pub required_anchors_for_ltxv_task : Text → Attempt (List Text)
unfolding text_eq
required_anchors_for_ltxv_task task =
    if text_eq task (codes "t2v") || text_eq task (codes "i2v")
    then done required_anchors_ltxv
    else raised workflow_validation

unfoldable pub required_anchors_for_family : Text → List Text
unfolding text_eq
required_anchors_for_family family =
    if text_eq family (codes "flux") then required_anchors_flux else required_anchors_sdxl
