-- ===== src/Workflows/Advanced.antt =====
-- app/registry/wan_advanced.py: the optional settings of a WAN graph, put into the nodes of its
-- anchors.
use local_image_generator_se.Common.{Option, none, some, List, [], ◌∷◌, if◌then◌else◌}
use local_image_generator_se.Common.Text.{Text, codes}
use local_image_generator_se.Common.Dict.{Dict, put}
use local_image_generator_se.Validation.Request.{
  Setting, toggle, whole, decimal, word, WanVideoAdvancedOptions, Task, t2v, i2v,
}
use local_image_generator_se.Workflows.Graph.{
  Value, text, int, float, flag, Graph, workflow_validation, Attempt, done, or_invalid, find_anchor,
  ◌>>=◌,
}
use local_image_generator_se.Workflows.Sources.{edit_node, edit_inputs, class_is}
use local_image_generator_se.Workflows.Weights.{at_optional, with_inputs}

abbrev as_value : Setting → Value
as_value (toggle b) = flag b
as_value (whole n) = int n
as_value (decimal d) = float d
as_value (word t) = text t

-- _merge_non_none
unfoldable pub merge_settings : List (Text × Setting) → Dict Value → Dict Value
merge_settings [] fs = fs
merge_settings ((k, v) ∷ patch) fs = merge_settings patch (put k (as_value v) fs)

abbrev merge_at : List (Text × Setting) → Text → Graph → Attempt Graph
merge_at patch = with_inputs (λ node. merge_settings patch)

-- Only a node of the class is changed.
abbrev merge_in_class : Text → List (Text × Setting) → Text → Graph → Attempt Graph
merge_in_class class_name patch node_id = edit_node node_id λ node.
    if class_is class_name node
    then edit_inputs workflow_validation (λ fs. done (merge_settings patch fs)) node
    else done node

-- An anchor that must be there.
abbrev at_required : Text → (Text → Graph → Attempt Graph) → Graph → Attempt Graph
at_required anchor f graph = or_invalid (find_anchor graph anchor) >>= λ node_id. f node_id graph

abbrev given_group :
    Option (List (Text × Setting))
    → (List (Text × Setting) → Graph → Attempt Graph)
    → Graph
    → Attempt Graph
given_group none f graph = done graph
given_group (some patch) f graph = f patch graph

-- A group for image-to-video only.
abbrev for_i2v : Task → Option (List (Text × Setting)) → Option (List (Text × Setting))
for_i2v i2v group = group
for_i2v t2v group = none

abbrev patch_encode : List (Text × Setting) → Graph → Attempt Graph
patch_encode patch =
    at_required (codes "%WAN_DIMS%") (merge_in_class (codes "WanVideoImageToVideoEncode") patch)

abbrev patch_clip_encode : List (Text × Setting) → Graph → Attempt Graph
patch_clip_encode patch graph =
    at_optional (merge_at patch) graph (find_anchor graph (codes "%WAN_CLIP_ENCODE%"))

abbrev patch_decode : List (Text × Setting) → Graph → Attempt Graph
patch_decode patch =
    at_required (codes "%WAN_DECODE%") (merge_in_class (codes "WanVideoDecode") patch)

abbrev patch_block_swap : List (Text × Setting) → Graph → Attempt Graph
patch_block_swap patch graph =
    at_optional (merge_at patch) graph (find_anchor graph (codes "%WAN_BLOCK_SWAP%"))

abbrev patch_export : List (Text × Setting) → Graph → Attempt Graph
patch_export patch = at_required (codes "%VIDEO_OUTPUT%") (merge_at patch)

unfoldable pub apply_wan_advanced_patches :
    Option WanVideoAdvancedOptions → Task → Graph → Attempt Graph
unfolding edit_node merge_settings
apply_wan_advanced_patches none task graph = done graph
apply_wan_advanced_patches (some opts) task graph =
    given_group (for_i2v task opts.encode) patch_encode graph
    >>= given_group (for_i2v task opts.clip_encode) patch_clip_encode
    >>= given_group opts.decode patch_decode
    >>= given_group opts.block_swap patch_block_swap
    >>= given_group opts.export patch_export
