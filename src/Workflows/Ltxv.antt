-- ===== src/Workflows/Ltxv.antt =====
-- app/registry/workflows.py: what is injected into the graphs of the LTXV family.
pub mod Values
use local_image_generator_se.Common.{
  ℕ, ◌%◌, ◌^◌, ◌<◌, ◌≡◌, refl, true, false, Option, none, some, List, [], ◌∷◌, if◌then◌else◌, ap,
  arith, Bool-cases, inl, inr, In,
}
use local_image_generator_se.Common.Text.{Text, codes, truthy, text_eq, text_eq_iff}
use local_image_generator_se.Common.Dict.{Dict, put, get, get-put}
use local_image_generator_se.Validation.Request.{ModelConfig}
use local_image_generator_se.Workflows.Graph.{
  Value, text, int, Inputs, fields, missing, not_a_dict, Node, Graph, workflow_validation, Attempt,
  done, raised, or_invalid, find_anchor, ◌>>=◌,
}
use local_image_generator_se.Workflows.Sources.{edit_node, edit_inputs, basename, class_is}

-- The node of an anchor, which must have a dict of inputs.
unfoldable pub edit_anchor : Text → (Dict Value → Dict Value) → Graph → Attempt Graph
unfolding edit_node
edit_anchor anchor f graph = do
  node_id ← or_invalid (find_anchor graph anchor)
  edit_node node_id (edit_inputs workflow_validation (λ fs. done (f fs))) graph

abbrev text_encoder : Option Text → Dict Value → Dict Value
text_encoder none fs = fs
text_encoder (some path) fs = put (codes "text_encoder") (text (basename path)) fs

abbrev renamed : Inputs → Inputs
renamed (fields fs) =
    fields (put (codes "ckpt_name") (text (codes "LTX23_audio_vae_bf16.safetensors")) fs)
renamed i = i

abbrev audio_node : Node → Node
audio_node node =
    if class_is (codes "LTXVAudioVAELoader") node
    then record node { inputs = renamed node.inputs }
    else node

unfoldable pub set_audio_vaes : Graph → Graph
set_audio_vaes [] = []
set_audio_vaes ((i, node) ∷ graph) = (i, audio_node node) ∷ set_audio_vaes graph

unfoldable pub inject_ltxv_weights : ModelConfig → Graph → Attempt Graph
unfolding edit_anchor basename set_audio_vaes
inject_ltxv_weights model_cfg graph = do
  let name = text (basename model_cfg.checkpoint)
  g1 ← edit_anchor (codes "%LTXV_CHECKPOINT%") (put (codes "ckpt_name") name) graph
  g2 ←
      edit_anchor (codes "%LTXV_TEXT_ENCODER%")
        (λ fs. text_encoder (truthy model_cfg.ltxv_text_encoder) (put (codes "ckpt_name") name fs))
        g1
  done (set_audio_vaes g2)

unfoldable pub inject_ltxv_video_vae : Text → Graph → Attempt Graph
unfolding edit_anchor
inject_ltxv_video_vae vae_name =
    edit_anchor (codes "%LTXV_VIDEO_VAE%") (put (codes "vae_name") (text vae_name))

unfoldable pub inject_ltxv_seed : ℕ → Graph → Attempt Graph
unfolding edit_anchor
inject_ltxv_seed actual_seed =
    edit_anchor (codes "%LTXV_SEED%") (put (codes "seed") (int (actual_seed % 1125899906842624)))

unfoldable pub inject_ltxv_frames : ℕ → Graph → Attempt Graph
unfolding edit_anchor
inject_ltxv_frames frames = edit_anchor (codes "%LTXV_FRAMES%") (put (codes "value") (int frames))

-- An input of the node that stands first under an id.
abbrev pub input_of : Text → Inputs → Option Value
input_of k (fields fs) = get k fs
input_of k _ = none

unfoldable pub input_at : Text → Text → Graph → Option Value
unfolding get
input_at node_id k [] = none
input_at node_id k ((i, node) ∷ graph) =
    let rest = input_at node_id k graph in
    if text_eq i node_id then input_of k node.inputs else rest
