-- ===== src/Worker/Ltxv.antt =====
-- app/queue/worker.py: the graph of an LTX video, from the template of its model.
use local_image_generator_se.Common.{ℕ, List, [], ◌∷◌}
use local_image_generator_se.Common.Dict.{Dict, put}
use local_image_generator_se.Common.Text.{Text, codes}
use local_image_generator_se.Validation.Request.{ValidatedVideoJob}
use local_image_generator_se.Workflows.Graph.{
  Value, text, int, missing, not_a_dict, fields, Inputs, Node, Graph, Attempt, done, raised,
  anchor_not_found, bad_inputs, find_anchor, ◌>>=◌,
}
use local_image_generator_se.Workflows.Sources.{edit_node}
use local_image_generator_se.Workflows.Ltxv.{
  inject_ltxv_weights, inject_ltxv_video_vae, inject_ltxv_seed, inject_ltxv_frames,
}
use local_image_generator_se.Worker.Prompt.{set_inputs}

abbrev pub put_all : List (Text × Value) → Dict Value → Dict Value
put_all [] fs = fs
put_all ((k, v) ∷ pairs) fs = put_all pairs (put k v fs)

-- `inputs[k] = v` for each pair, where a missing `inputs` is the KeyError that the code passes over.
abbrev put_or_pass : List (Text × Value) → Node → Inputs → Attempt Node
put_or_pass pairs node missing = done node
put_or_pass pairs node not_a_dict = raised bad_inputs
put_or_pass pairs node (fields fs) = done (record node { inputs = fields (put_all pairs fs) })

abbrev at_anchor : List (Text × Value) → Graph → Attempt Text → Attempt Graph
at_anchor pairs graph (done node_id) =
    edit_node node_id (λ node. put_or_pass pairs node node.inputs) graph
at_anchor pairs graph (raised anchor_not_found) = done graph
at_anchor pairs graph (raised e) = raised e

-- `inputs = graph[find_anchor(graph, anchor)]["inputs"]`, and `inputs[k] = v` for each pair, with
-- `except KeyError: pass`.
unfoldable pub set_if_anchored : Text → List (Text × Value) → Graph → Attempt Graph
unfolding edit_node
set_if_anchored anchor pairs graph = at_anchor pairs graph (find_anchor graph anchor)

abbrev ltxv_prompts : ValidatedVideoJob → Graph → Attempt Graph
ltxv_prompts v graph = find_anchor graph (codes "%LTXV_POSITIVE%") >>= λ pos_id.
    find_anchor graph (codes "%LTXV_NEGATIVE%") >>= λ neg_id.
    set_inputs pos_id ((codes "text", text v.prompt) ∷ []) graph
    >>= set_inputs neg_id ((codes "text", text v.negative_prompt) ∷ [])

unfoldable pub ltxv_graph : ℕ → ValidatedVideoJob → Graph → Attempt Graph
unfolding inject_ltxv_weights inject_ltxv_video_vae inject_ltxv_seed inject_ltxv_frames
    set_if_anchored edit_node
ltxv_graph seed v graph =
    inject_ltxv_weights v.model graph
    >>= inject_ltxv_video_vae (codes "LTX23_video_vae_bf16.safetensors")
    >>= ltxv_prompts v
    >>= inject_ltxv_seed seed
    >>= inject_ltxv_frames v.frames
    >>= set_if_anchored (codes "%LTXV_OUTPUT%") ((codes "frame_rate", int v.fps) ∷ [])
