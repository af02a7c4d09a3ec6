-- ===== src/Tests/Workflow.antt =====
-- Examples for app/registry/workflows.py.
use local_image_generator_se.Common.{
  ℕ, ◌%◌, ◌<◌, none, ◌≡◌, refl, some, [], ◌∷◌, ◌++◌, ◌+◌, false, List, All, In, inl, inr,
}
use local_image_generator_se.Common.Text.{Text, codes, among, split, starts_with, strip, text_eq}
use local_image_generator_se.Common.Table.{select}
use local_image_generator_se.Common.Digits.{str, int_of}
use local_image_generator_se.Common.Dict.{put}
use local_image_generator_se.Validation.Request.{LoraSpec, plus}
use local_image_generator_se.Workflows.Graph.{
  int, text, link, fields, Node, Graph, done, find_anchor, title_anchors, owners, owners_in,
  missing_anchors, duplicated_anchors, validate_anchors,
}
use local_image_generator_se.Workflows.Anchors.{validate_anchors-find}
use local_image_generator_se.Workflows.Sources.{
  inject_model_source, set_checkpoint, set_clip, set_vaes, basename, edit_node,
}
use local_image_generator_se.Workflows.Ltxv.{
  edit_anchor, inject_ltxv_seed, inject_ltxv_frames, input_at,
}
use local_image_generator_se.Workflows.Ltxv.Values.{inject_ltxv-values}
use local_image_generator_se.Workflows.Kept.{inject_model_source-anchors, titles}
use local_image_generator_se.Workflows.Loras.{next_id, digit_keys, max_of, inject_loras}
use local_image_generator_se.Workflows.Loras.Output.{IsOutput}
use local_image_generator_se.Workflows.Loras.Chain.{chain_of, ids_of}
use local_image_generator_se.Workflows.Loras.Rewired.{inject_loras-chain, map_graph, wired}
use local_image_generator_se.Tests.Request.{image_model}

abbrev sample : Text → Graph
sample checkpoint =
    (
      codes "4",
      record {
        class_type = some (codes "CheckpointLoaderSimple");
        inputs = fields ((codes "ckpt_name", text checkpoint) ∷ []);
        title = some (codes "%MODEL_SOURCE%, %CLIP_SOURCE%");
      },
    )
    ∷ (
      codes "7",
      record {
        class_type = some (codes "KSampler");
        inputs =
            fields ((codes "model", link (codes "4") 0) ∷ (codes "clip", link (codes "4") 1) ∷ []);
        title = some (codes "%KSAMPLER%");
      },
    )
    ∷ []

abbrev pub graph : Graph
graph = sample (codes "old.safetensors")

abbrev pub lora : Text → LoraSpec
lora name = record { name = name; weight = plus 800 }

abbrev pub loras : List LoraSpec
loras = lora (codes "a") ∷ lora (codes "b") ∷ []

source_found : find_anchor graph (codes "%MODEL_SOURCE%") ≡ done (codes "4")
unfolding find_anchor title_anchors among select split starts_with strip
source_found = refl

clip_found : find_anchor graph (codes "%CLIP_SOURCE%") ≡ done (codes "4")
unfolding find_anchor title_anchors among select split starts_with strip
clip_found = refl

graph_valid : validate_anchors graph (codes "%MODEL_SOURCE%" ∷ codes "%KSAMPLER%" ∷ []) ≡ done tt
unfolding validate_anchors missing_anchors duplicated_anchors owners owners_in title_anchors select
    split starts_with strip text_eq
graph_valid = refl

validate_anchors-find_example :
    (i : Text) × (find_anchor graph (codes "%KSAMPLER%") ≡ done i)
    × ((n : Node) × In (i, n) graph × In (codes "%KSAMPLER%") (title_anchors n))
    × ((j : Text) (n : Node) → In (j, n) graph → In (codes "%KSAMPLER%") (title_anchors n) → j ≡ i)
validate_anchors-find_example =
    validate_anchors-find graph (codes "%MODEL_SOURCE%" ∷ codes "%KSAMPLER%" ∷ [])
      (codes "%KSAMPLER%") graph_valid (inr (inl refl))

inject_loras-chain_example :
    let n = next_id graph in
    (model clip : ℕ) × IsOutput graph (codes "4") 0 model
    × IsOutput graph (codes "4") 1 clip
    × (inject_loras graph loras
        ≡ done (
            map_graph (wired (codes "4", model) (codes "4", clip) (str (n + 1))) graph
            ++ chain_of n (codes "4", model) (codes "4", clip) loras))
    × All (λ p. among p.0 (ids_of n loras) ≡ false) graph
inject_loras-chain_example =
    inject_loras-chain graph (lora (codes "a")) (lora (codes "b") ∷ []) (codes "4") (codes "4")
      source_found clip_found

next_id-graph : next_id graph ≡ 8
unfolding next_id digit_keys max_of int_of
next_id-graph = refl

abbrev graph_with_model : Graph
graph_with_model = sample (codes "noob.safetensors")

source_put : inject_model_source image_model graph ≡ done graph_with_model
unfolding inject_model_source set_checkpoint set_clip set_vaes basename edit_node find_anchor
    title_anchors among select split starts_with strip text_eq put
source_put = refl

inject_model_source-anchors_example :
    (titles graph_with_model ≡ titles graph)
    × ((a : Text) → find_anchor graph_with_model a ≡ find_anchor graph a)
inject_model_source-anchors_example =
    inject_model_source-anchors image_model graph graph_with_model source_put

abbrev video_graph : ℕ → ℕ → Graph
video_graph seed frames =
    (
      codes "3",
      record {
        class_type = none;
        inputs = fields ((codes "seed", int seed) ∷ []);
        title = some (codes "%LTXV_SEED%");
      },
    )
    ∷ (
      codes "8",
      record {
        class_type = none;
        inputs = fields ((codes "value", int frames) ∷ []);
        title = some (codes "%LTXV_FRAMES%");
      },
    )
    ∷ []

seed_put : inject_ltxv_seed 1125899906842630 (video_graph 0 9) ≡ done (video_graph 6 9)
unfolding inject_ltxv_seed edit_anchor edit_node find_anchor title_anchors among select split
    starts_with strip text_eq put
seed_put = refl

frames_put : inject_ltxv_frames 97 (video_graph 6 9) ≡ done (video_graph 6 97)
unfolding inject_ltxv_frames edit_anchor edit_node find_anchor title_anchors among select split
    starts_with strip text_eq put
frames_put = refl

inject_ltxv-values_example :
    ((id : Text) × (find_anchor (video_graph 0 9) (codes "%LTXV_SEED%") ≡ done id)
      × (input_at id (codes "seed") (video_graph 6 97)
          ≡ some (int (1125899906842630 % 1125899906842624))))
    × ((id : Text) × (find_anchor (video_graph 6 9) (codes "%LTXV_FRAMES%") ≡ done id)
        × (input_at id (codes "value") (video_graph 6 97) ≡ some (int 97)))
    × (1125899906842630 % 1125899906842624 < 1125899906842624)
    × (titles (video_graph 6 97) ≡ titles (video_graph 0 9))
    × ((id k : Text)
        → text_eq (codes "seed") k ≡ false
        → text_eq (codes "value") k ≡ false
        → input_at id k (video_graph 6 97) ≡ input_at id k (video_graph 0 9))
inject_ltxv-values_example =
    inject_ltxv-values 1125899906842630 97 (video_graph 0 9) (video_graph 6 9) (video_graph 6 97)
      seed_put frames_put
