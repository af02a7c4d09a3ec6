-- ===== src/Workflows/Weights.antt =====
-- app/registry/workflows.py: the file names of a model of the WAN family and of its sound, put into the
-- loaders of a graph.
use local_image_generator_se.Common.{Bool, ◌||◌, Option, none, some, [], ◌∷◌, if◌then◌else◌}
use local_image_generator_se.Common.Text.{Text, codes, lower, starts_with, truthy, is_empty}
use local_image_generator_se.Common.Dict.{Dict, put}
use local_image_generator_se.Validation.Request.{ModelConfig}
use local_image_generator_se.Workflows.Graph.{
  Value, text, Node, Graph, workflow_validation, anchor_not_found, Attempt, done, raised,
  or_invalid, find_anchor, ◌>>=◌,
}
use local_image_generator_se.Workflows.Sources.{edit_node, edit_inputs, basename, class_is}

-- p in t
unfoldable pub contains : Text → Text → Bool
unfolding starts_with
contains p [] = is_empty p
contains p (c ∷ cs) = starts_with (c ∷ cs) p || contains p cs

unfoldable pub infer_precision : Text → Option Text
unfolding contains
infer_precision vae_basename =
    let n = lower vae_basename in
    if contains (codes "fp32") n
    then some (codes "fp32")
    else if contains (codes "bf16") n
    then some (codes "bf16")
    else if contains (codes "fp16") n
    then some (codes "fp16")
    else none

-- What is done at an anchor, where a missing anchor changes nothing.
abbrev pub at_optional : (Text → Graph → Attempt Graph) → Graph → Attempt Text → Attempt Graph
at_optional f graph (done node_id) = f node_id graph
at_optional f graph (raised anchor_not_found) = done graph
at_optional f graph (raised e) = raised e

abbrev pub with_inputs : (Node → Dict Value → Dict Value) → Text → Graph → Attempt Graph
with_inputs f node_id =
    edit_node node_id λ node. edit_inputs workflow_validation (λ fs. done (f node fs)) node

-- A file name, under the key of the core class or under that of any other class.
abbrev put_name : Text → Text → Text → Text → Node → Dict Value → Dict Value
put_name core_class core_key other_key path node fs =
    put (if class_is core_class node then core_key else other_key) (text (basename path)) fs

-- A path that must be set.
abbrev required : Option Text → Attempt Text
required none = raised workflow_validation
required (some path) = done path

abbrev put_unet : Text → Node → Dict Value → Dict Value
put_unet = put_name (codes "UNETLoader") (codes "unet_name") (codes "model")

abbrev put_precision : Option Text → Dict Value → Dict Value
put_precision none fs = fs
put_precision (some p) fs = put (codes "precision") (text p) fs

unfoldable pub put_vae : Text → Node → Dict Value → Dict Value
unfolding infer_precision basename
put_vae path node fs =
    let name = basename path in
    let named = put (codes "model_name") (text name) fs in
    if class_is (codes "VAELoader") node
    then put (codes "vae_name") (text name) fs
    else if class_is (codes "WanVideoVAELoader") node
    then put_precision (infer_precision name) named
    else named

abbrev low_weights : ModelConfig → Text → Graph → Attempt Graph
low_weights model_cfg low_model_id graph = do
  low_path ← required (truthy model_cfg.wan_unet_low)
  with_inputs (put_unet low_path) low_model_id graph

abbrev put_clip_vision : Option Text → Dict Value → Dict Value
put_clip_vision none fs = fs
put_clip_vision (some path) fs = put (codes "clip_name") (text (basename path)) fs

abbrev clip_vision : ModelConfig → Text → Graph → Attempt Graph
clip_vision model_cfg = with_inputs (λ node. put_clip_vision (truthy model_cfg.wan_clip_vision))

unfoldable pub inject_video_weights : ModelConfig → Graph → Attempt Graph
unfolding edit_node basename put_vae
inject_video_weights model_cfg graph = do
  model_id ← or_invalid (find_anchor graph (codes "%WAN_MODEL%"))
  vae_id ← or_invalid (find_anchor graph (codes "%WAN_VAE%"))
  t5_id ← or_invalid (find_anchor graph (codes "%WAN_T5%"))
  g1 ← with_inputs (put_unet model_cfg.checkpoint) model_id graph
  g2 ← at_optional (low_weights model_cfg) g1 (find_anchor g1 (codes "%WAN_MODEL_LOW%"))
  vae ← required (truthy model_cfg.vae)
  g3 ← with_inputs (put_vae vae) vae_id g2
  t5 ← required (truthy model_cfg.wan_t5_encoder)
  g4 ←
      with_inputs (put_name (codes "CLIPLoader") (codes "clip_name") (codes "model_name") t5) t5_id
        g3
  at_optional (clip_vision model_cfg) g4 (find_anchor g4 (codes "%WAN_CLIP_VISION%"))

abbrev feature_utils : Text → Text → Text → Dict Value → Dict Value
feature_utils vae synchformer clip fs = put (codes "clip_model") (text (basename clip)) (
    put (codes "synchformer_model") (text (basename synchformer))
      (put (codes "vae_model") (text (basename vae)) fs))

abbrev mmaudio_at : ModelConfig → Text → Graph → Attempt Graph
mmaudio_at model_cfg fu_id graph = do
  vae ← required (truthy model_cfg.mmaudio_vae)
  synchformer ← required (truthy model_cfg.mmaudio_synchformer)
  clip ← required (truthy model_cfg.mmaudio_clip)
  diffusion ← required (truthy model_cfg.mmaudio_diffusion)
  md_id ← or_invalid (find_anchor graph (codes "%MMAUDIO_DIFFUSION%"))
  g1 ← with_inputs (λ node. feature_utils vae synchformer clip) fu_id graph
  with_inputs (λ node. put (codes "mmaudio_model") (text (basename diffusion))) md_id g1

unfoldable pub inject_mmaudio_weights : ModelConfig → Graph → Attempt Graph
unfolding edit_node basename
inject_mmaudio_weights model_cfg graph =
    at_optional (mmaudio_at model_cfg) graph (find_anchor graph (codes "%MMAUDIO_FEATURE_UTILS%"))
