-- ===== src/Workflows/Sources.antt =====
-- app/registry/workflows.py: the file names of a model, put into the loaders of a graph.
use local_image_generator_se.Common.{
  Bool, false, ◌&&◌, not, Option, none, some, List, [], ◌∷◌, is_some, if◌then◌else◌,
}
use local_image_generator_se.Common.Text.{Text, codes, text_eq, strip, split, is_empty, truthy}
use local_image_generator_se.Common.Table.{select}
use local_image_generator_se.Common.Dict.{Dict, get, put}
use local_image_generator_se.Validation.Request.{ModelConfig}
use local_image_generator_se.Workflows.Graph.{
  Value, text, Inputs, missing, not_a_dict, fields, Node, Graph, Fault, workflow_validation,
  not_implemented, bad_inputs, Attempt, done, raised, or_invalid, find_anchor, ◌>>=◌,
}

-- graph[node_id], replaced by what `f` makes of it. The ids come from `find_anchor`.
unfoldable pub edit_node : Text → (Node → Attempt Node) → Graph → Attempt Graph
edit_node node_id f [] = raised bad_inputs
edit_node node_id f ((i, node) ∷ graph) =
    let rest = edit_node node_id f graph in
    if text_eq i node_id
    then (f node >>= λ node'. done ((i, node') ∷ graph))
    else (rest >>= λ graph'. done ((i, node) ∷ graph'))

abbrev pub on_inputs : Fault → (Dict Value → Attempt (Dict Value)) → Inputs → Attempt Inputs
on_inputs e f (fields fs) = f fs >>= λ fs'. done (fields fs')
on_inputs e f _ = raised e

-- The inputs of a node, where it must have a dict of them.
abbrev pub edit_inputs : Fault → (Dict Value → Attempt (Dict Value)) → Node → Attempt Node
edit_inputs e f node = on_inputs e f node.inputs >>= λ i. done (record node { inputs = i })

abbrev pub class_is : Text → Node → Bool
class_is name node = is_class node.class_type
  where
    is_class : Option Text → Bool
    is_class none = false
    is_class (some c) = text_eq c name

abbrev names_a_file : Text → Bool
names_a_file p = not (is_empty p) && not (text_eq p (codes "."))

abbrev last_part : Text → List Text → Text
last_part t [] = t
last_part t (p ∷ ps) = last_part p ps

-- Path(models_ref).name
unfoldable pub basename : Text → Text
basename models_ref = last_part [] (select names_a_file (split 47 models_ref))

unfoldable pub set_checkpoint : ModelConfig → Node → Attempt Node
set_checkpoint model_cfg node =
    edit_inputs workflow_validation
      (λ fs.
        let name = text (basename model_cfg.checkpoint) in
        if class_is (codes "CheckpointLoaderSimple") node
        then done (put (codes "ckpt_name") name fs)
        else if class_is (codes "UnetLoaderGGUF") node
        then done (put (codes "unet_name") name fs)
        else raised workflow_validation)
      node

abbrev with_type : Option Text → Dict Value → Dict Value
with_type none fs = fs
with_type (some t) fs = put (codes "type") (text t) fs

abbrev dual_clip : Option Text → Option Text → Option Text → Dict Value → Attempt (Dict Value)
dual_clip (some clip_l) (some t5xxl) kind fs = done (
    with_type kind (
      put (codes "clip_name2") (text (basename t5xxl))
        (put (codes "clip_name1") (text (basename clip_l)) fs)))
dual_clip _ _ kind fs = raised workflow_validation

abbrev stripped : Option Text → Option Text
stripped none = none
stripped (some t) = truthy (some (strip t))

abbrev single_clip : Option Text → Option Text → Dict Value → Attempt (Dict Value)
single_clip (some clip_l) (some te_type) fs =
    done (put (codes "type") (text te_type) (put (codes "clip_name") (text (basename clip_l)) fs))
single_clip _ _ fs = raised workflow_validation

-- A clip source of another class stays as it is.
unfoldable pub set_clip : ModelConfig → Node → Attempt Node
set_clip model_cfg node =
    edit_inputs workflow_validation
      (λ fs.
        if class_is (codes "DualCLIPLoader") node
        then dual_clip (truthy model_cfg.clip_l) (truthy model_cfg.t5xxl)
            (truthy model_cfg.dual_clip_type) fs
        else if class_is (codes "CLIPLoader") node
        then single_clip (truthy model_cfg.clip_l) (stripped model_cfg.clip_loader_type) fs
        else done fs)
      node

abbrev renamed_vae : Text → Inputs → Inputs
renamed_vae name (fields fs) =
    if is_some (get (codes "vae_name") fs)
    then fields (put (codes "vae_name") (text name) fs)
    else fields fs
renamed_vae name i = i

abbrev pub vae_node : Text → Node → Node
vae_node name node =
    if class_is (codes "VAELoader") node
    then record node { inputs = renamed_vae name node.inputs }
    else node

unfoldable pub set_vaes : Text → Graph → Graph
set_vaes name [] = []
set_vaes name ((i, node) ∷ graph) = (i, vae_node name node) ∷ set_vaes name graph

abbrev pub optional_vae : Option Text → Graph → Graph
optional_vae none graph = graph
optional_vae (some vae) graph = set_vaes (basename vae) graph

unfoldable pub inject_model_source : ModelConfig → Graph → Attempt Graph
unfolding edit_node basename set_checkpoint set_clip set_vaes
inject_model_source model_cfg graph = do
  model_source_id ← or_invalid (find_anchor graph (codes "%MODEL_SOURCE%"))
  clip_source_id ← or_invalid (find_anchor graph (codes "%CLIP_SOURCE%"))
  graph' ← edit_node model_source_id (set_checkpoint model_cfg) graph
  graph'' ← edit_node clip_source_id (set_clip model_cfg) graph'
  done (optional_vae (truthy model_cfg.vae) graph'')

-- What the model asks of the graph is not there yet for v-prediction.
unfoldable pub inject_vpred : ModelConfig → Graph → Attempt Graph
inject_vpred model_cfg graph = if model_cfg.vpred then raised not_implemented else done graph

abbrev with_image : Text → Inputs → Attempt Inputs
with_image filename missing = done (fields ((codes "image", text filename) ∷ []))
with_image filename (fields fs) = done (fields (put (codes "image") (text filename) fs))
with_image filename not_a_dict = raised bad_inputs

abbrev at_anchor : Attempt Text → Text → Graph → Attempt Graph
at_anchor (done image_node_id) filename graph =
    edit_node image_node_id
      (λ node. with_image filename node.inputs >>= λ i. done (record node { inputs = i })) graph
at_anchor (raised e) filename graph = done graph

-- A graph without the anchor is left as it is.
unfoldable pub inject_init_image : Text → Graph → Attempt Graph
unfolding edit_node
inject_init_image filename graph =
    at_anchor (find_anchor graph (codes "%INIT_IMAGE%")) filename graph
