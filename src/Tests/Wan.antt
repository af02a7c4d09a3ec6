-- ===== src/Tests/Wan.antt =====
-- Examples for app/registry/workflows.py: the LoRAs of WAN graphs.
use local_image_generator_se.Common.{
  ℕ, none, ◌≡◌, refl, some, [], ◌∷◌, ◌++◌, ◌+◌, arith, false, List, All,
}
use local_image_generator_se.Common.Text.{Text, codes, among, split, starts_with, strip, text_eq}
use local_image_generator_se.Common.Table.{select}
use local_image_generator_se.Common.Digits.{str, int_of}
use local_image_generator_se.Common.Dict.{Dict, put}
use local_image_generator_se.Validation.Request.{plus}
use local_image_generator_se.Workflows.Graph.{
  Value, text, float, flag, link, fields, Node, Graph, done, find_anchor, title_anchors, owners,
  owners_in, missing_anchors, duplicated_anchors, validate_anchors,
}
use local_image_generator_se.Workflows.Sources.{edit_node}
use local_image_generator_se.Workflows.Ltxv.{input_at}
use local_image_generator_se.Workflows.Loras.{digit_keys, max_of}
use local_image_generator_se.Workflows.Loras.Chain.{ids_of}
use local_image_generator_se.Workflows.Wan.{
  core_loras_between, inject_wan_core_loras, inject_wan_lora_multi, put_slots, free_slots,
  fill_slots, lora_key, strength_key,
}
use local_image_generator_se.Workflows.Wan.Slots.{slot_file, slot_strength}
use local_image_generator_se.Workflows.Wan.Filled.{inject_wan_lora_multi-slots}
use local_image_generator_se.Workflows.Wan.Between.{
  first_id, fed, loaders_of, core_loras_between-chain,
}
use local_image_generator_se.Workflows.Required.{
  base_anchors_wan22, required_anchors_for_video_task,
}
use local_image_generator_se.Workflows.Required.Validated.{inject_wan_core_loras-validated}
use local_image_generator_se.Tests.Workflow.{lora, loras}

-- A graph of ComfyUI nodes, with the loader of the model and the node of the shift.
abbrev core_graph : Graph
core_graph =
    (
      codes "12",
      record {
        class_type = some (codes "UNETLoader");
        inputs = fields ((codes "unet_name", text (codes "wan.safetensors")) ∷ []);
        title = some (codes "%WAN_MODEL%");
      },
    )
    ∷ (
      codes "30",
      record {
        class_type = some (codes "ModelSamplingSD3");
        inputs = fields ((codes "model", link (codes "12") 0) ∷ []);
        title = some (codes "%WAN_SHIFT%");
      },
    )
    ∷ []

model_found : find_anchor core_graph (codes "%WAN_MODEL%") ≡ done (codes "12")
unfolding find_anchor title_anchors among select split starts_with strip
model_found = refl

shift_found : find_anchor core_graph (codes "%WAN_SHIFT%") ≡ done (codes "30")
unfolding find_anchor title_anchors among select split starts_with strip
shift_found = refl

first_id-core_graph : first_id core_graph ≡ 31
unfolding first_id digit_keys max_of int_of
first_id-core_graph = refl

core_loras_between-chain_example :
    (core_loras_between loras (codes "%WAN_MODEL%") (codes "%WAN_SHIFT%") core_graph
      ≡ done (
          fed (codes "30") (str (first_id core_graph + 1)) core_graph
          ++ loaders_of (first_id core_graph) (codes "12") loras))
    × All (λ p. among p.0 (ids_of (first_id core_graph) loras) ≡ false) core_graph
core_loras_between-chain_example =
    core_loras_between-chain core_graph (lora (codes "a")) (lora (codes "b") ∷ [])
      (codes "%WAN_MODEL%") (codes "%WAN_SHIFT%") (codes "12") (codes "30") model_found shift_found

-- A graph of WanVideoWrapper nodes, with the node of the slots.
abbrev slots_graph : Dict Value → Graph
slots_graph fs =
    (
      codes "7",
      record {
        class_type = some (codes "WanVideoLoraSelectMulti");
        inputs = fields fs;
        title = some (codes "%WAN_LORA_MULTI%");
      },
    )
    ∷ []

abbrev filled_slot : ℕ → Text → ℕ → Dict Value
filled_slot i name weight = (lora_key i, text name) ∷ (strength_key i, float (plus weight)) ∷ []

abbrev filled_slots : Dict Value
filled_slots =
    filled_slot 0 (codes "a.safetensors") 800
    ++ filled_slot 1 (codes "b.safetensors") 800
    ++ filled_slot 2 (codes "none") 1000
    ++ filled_slot 3 (codes "none") 1000
    ++ filled_slot 4 (codes "none") 1000
    ++ (codes "merge_loras", flag false) ∷ []

slots_found : find_anchor (slots_graph []) (codes "%WAN_LORA_MULTI%") ≡ done (codes "7")
unfolding find_anchor title_anchors among select split starts_with strip
slots_found = refl

slots_filled :
    inject_wan_lora_multi loras (some false) none (slots_graph []) ≡ done (slots_graph filled_slots)
unfolding inject_wan_lora_multi put_slots fill_slots free_slots edit_node find_anchor title_anchors
    among select split starts_with strip text_eq put str
slots_filled = refl

inject_wan_lora_multi-slots_example :
    (input_at (codes "7") (lora_key 1) (slots_graph filled_slots) ≡ some (slot_file 1 loras))
    × (input_at (codes "7") (strength_key 1) (slots_graph filled_slots)
        ≡ some (slot_strength 1 loras))
inject_wan_lora_multi-slots_example =
    inject_wan_lora_multi-slots loras (some false) none (slots_graph []) (slots_graph filled_slots)
      (codes "7") slots_found slots_filled 1 (omega arith)

abbrev anchored : Text → Text → Text × Node
anchored id anchor =
    (id, record { class_type = some (codes "Node"); inputs = fields []; title = some anchor })

-- A graph with every anchor of a WAN task.
abbrev wan_graph : Graph
wan_graph =
    anchored (codes "1") (codes "%WAN_T5%, %WAN_POSITIVE%, %WAN_NEGATIVE%, %WAN_DIMS%, %WAN_VAE%")
    ∷ anchored (codes "2") (codes "%WAN_MODEL%")
    ∷ anchored (codes "3") (codes "%WAN_SHIFT%")
    ∷ anchored (codes "4") (codes "%WAN_MODEL_LOW%")
    ∷ anchored (codes "5") (codes "%WAN_SHIFT_LOW%")
    ∷ anchored (codes "6")
        (codes "%WAN_SAMPLER%, %WAN_NAG_SAMPLER%, %WAN_DECODE%, %VIDEO_OUTPUT%, %INIT_IMAGE%")
    ∷ []

abbrev wan_anchors : List Text
wan_anchors = base_anchors_wan22 ++ codes "%INIT_IMAGE%" ∷ []

wan_required : required_anchors_for_video_task (codes "i2v") ≡ done wan_anchors
unfolding required_anchors_for_video_task text_eq
wan_required = refl

wan_graph_valid : validate_anchors wan_graph wan_anchors ≡ done tt
unfolding validate_anchors missing_anchors duplicated_anchors owners owners_in title_anchors select
    split starts_with strip text_eq
wan_graph_valid = refl

inject_wan_core_loras-validated_example :
    (g' : Graph) × (inject_wan_core_loras loras wan_graph ≡ done g')
    × ((a i : Text) → find_anchor wan_graph a ≡ done i → find_anchor g' a ≡ done i)
inject_wan_core_loras-validated_example =
    inject_wan_core_loras-validated (codes "i2v") wan_anchors wan_graph wan_required wan_graph_valid
      loras
