-- ===== src/Worker/Prompt.antt =====
-- app/queue/worker.py: the graph of an image job, from the template of its model.
use local_image_generator_se.Common.{ℕ, Option, none, some, List, [], ◌∷◌, if◌then◌else◌}
use local_image_generator_se.Common.Text.{Text, codes}
use local_image_generator_se.Common.Dict.{Dict, put}
use local_image_generator_se.Validation.Request.{ValidatedJob, plus, get_or}
use local_image_generator_se.Workflows.Graph.{
  Value, text, int, float, Graph, bad_inputs, Attempt, done, find_anchor, ◌>>=◌,
}
use local_image_generator_se.Workflows.Sources.{
  edit_node, edit_inputs, class_is, inject_model_source, inject_vpred,
}
use local_image_generator_se.Workflows.Loras.{inject_loras}

-- graph[node_id]["inputs"][k] = v, for each of the pairs.
abbrev pub set_inputs : Text → List (Text × Value) → Graph → Attempt Graph
set_inputs node_id pairs =
    edit_node node_id (edit_inputs bad_inputs (λ fs. done (put_all pairs fs)))
  where
    put_all : List (Text × Value) → Dict Value → Dict Value
    put_all [] fs = fs
    put_all ((k, v) ∷ ps) fs = put_all ps (put k v fs)

abbrev pub actual_seed : ℕ → ValidatedJob → ℕ
actual_seed randbelow validated = get_or validated.seed randbelow

abbrev sampler_inputs : ℕ → ValidatedJob → List (Text × Value)
sampler_inputs seed v =
    (codes "seed", int seed)
    ∷ (codes "steps", int v.steps)
    ∷ (codes "cfg", float (plus v.cfg))
    ∷ (codes "sampler_name", text v.sampler)
    ∷ (codes "scheduler", text v.scheduler)
    ∷ []

abbrev latent_inputs : ValidatedJob → List (Text × Value)
latent_inputs v =
    (codes "width", int v.width)
    ∷ (codes "height", int v.height)
    ∷ (codes "batch_size", int v.n)
    ∷ []

-- latent_nodes[:1]
unfoldable pub first_latent : Graph → Option Text
first_latent [] = none
first_latent ((i, node) ∷ graph) =
    let rest = first_latent graph in
    if class_is (codes "EmptyLatentImage") node then some i else rest

abbrev set_latent : ValidatedJob → Option Text → Graph → Attempt Graph
set_latent validated none graph = done graph
set_latent validated (some i) graph = set_inputs i (latent_inputs validated) graph

unfoldable pub prepare_graph : ℕ → ValidatedJob → Graph → Attempt Graph
unfolding edit_node first_latent
prepare_graph seed validated graph = do
  pos_id ← find_anchor graph (codes "%POSITIVE_PROMPT%")
  neg_id ← find_anchor graph (codes "%NEGATIVE_PROMPT%")
  ks_id ← find_anchor graph (codes "%KSAMPLER%")
  g1 ← set_inputs pos_id ((codes "text", text validated.prompt) ∷ []) graph
  g2 ← set_inputs neg_id ((codes "text", text validated.negative_prompt) ∷ []) g1
  g3 ← set_inputs ks_id (sampler_inputs seed validated) g2
  g4 ← set_latent validated (first_latent g3) g3
  g5 ← inject_model_source validated.model g4
  g6 ← inject_vpred validated.model g5
  inject_loras g6 validated.loras
