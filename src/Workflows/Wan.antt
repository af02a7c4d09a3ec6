-- ===== src/Workflows/Wan.antt =====
-- app/registry/workflows.py: the LoRAs of a graph of the WAN family, in the slots of a node of
-- WanVideoWrapper or as a chain of loaders of ComfyUI.
pub mod Between
pub mod Slots
pub mod Filled
use local_image_generator_se.Common.{
  ℕ, zero, suc, Bool, true, false, ◌||◌, Option, none, some, List, [], ◌∷◌, ◌++◌, take,
  if◌then◌else◌,
}
use local_image_generator_se.Common.Digits.{str}
use local_image_generator_se.Common.Text.{
  Text, codes, lower, starts_with, text_eq, truthy, is_empty,
}
use local_image_generator_se.Common.Dict.{Dict, get, put}
use local_image_generator_se.Validation.Request.{ModelConfig, LoraSpec, plus}
use local_image_generator_se.Workflows.Graph.{
  Value, text, float, flag, link, Inputs, fields, Node, Graph, workflow_validation,
  anchor_not_found, Attempt, done, raised, or_invalid, find_anchor, ◌>>=◌,
}
use local_image_generator_se.Workflows.Sources.{edit_node, edit_inputs, basename, class_is}
use local_image_generator_se.Workflows.Loras.{digit_keys, max_of}
use local_image_generator_se.Workflows.Weights.{with_inputs}

-- WAN_MAX_LORAS
abbrev pub wan_max_loras : ℕ
wan_max_loras = 5

-- WAN_LORA_MULTI_SLOTS
abbrev pub wan_lora_multi_slots : ℕ
wan_lora_multi_slots = wan_max_loras

abbrev pub lora_file : LoraSpec → Value
lora_file lora = text (lora.name ++ codes ".safetensors")

abbrev pub lora_key : ℕ → Text
lora_key i = codes "lora_" ++ str i

abbrev pub strength_key : ℕ → Text
strength_key i = codes "strength_" ++ str i

-- The slots from an index on, left free.
unfoldable pub free_slots : ℕ → ℕ → Dict Value → Dict Value
unfolding str
free_slots zero i fs = fs
free_slots (suc n) i fs =
    free_slots n (suc i)
      (put (strength_key i) (float (plus 1000)) (put (lora_key i) (text (codes "none")) fs))

unfoldable pub fill_slots : ℕ → List LoraSpec → Dict Value → Dict Value
unfolding str
fill_slots i [] fs = fs
fill_slots i (lora ∷ loras) fs =
    fill_slots (suc i) loras
      (put (strength_key i) (float lora.weight) (put (lora_key i) (lora_file lora) fs))

abbrev pub put_flag : Text → Option Bool → Dict Value → Dict Value
put_flag k none fs = fs
put_flag k (some b) fs = put k (flag b) fs

unfoldable pub put_slots : List LoraSpec → Option Bool → Option Bool → Dict Value → Dict Value
unfolding free_slots fill_slots
put_slots loras merge_loras low_mem_load fs = put_flag (codes "low_mem_load") low_mem_load (
    put_flag (codes "merge_loras") merge_loras
      (fill_slots 0 (take wan_lora_multi_slots loras) (free_slots wan_lora_multi_slots 0 fs)))

-- del fs[k]
unfoldable pub without : Text → Dict Value → Dict Value
unfolding text_eq
without k [] = []
without k ((j, v) ∷ fs) = let rest = without k fs in if text_eq j k then rest else (j, v) ∷ rest

abbrev pub is_wire : Text → Option Value → Bool
is_wire src (some (link i slot)) = text_eq i src
is_wire src _ = false

abbrev pub unwired : Text → Inputs → Inputs
unwired src (fields fs) =
    if is_wire src (get (codes "lora") fs) then fields (without (codes "lora") fs) else fields fs
unwired src i = i

abbrev pub unwired_loader : Text → Node → Node
unwired_loader src node =
    if class_is (codes "WanVideoModelLoader") node
    then record node { inputs = unwired src node.inputs }
    else node

-- _disconnect_wan_model_loader_lora_from_multi
unfoldable pub disconnect_loaders : Text → Graph → Graph
unfolding without
disconnect_loaders src [] = []
disconnect_loaders src ((i, node) ∷ graph) =
    (i, unwired_loader src node) ∷ disconnect_loaders src graph

abbrev pub when_idle : List LoraSpec → Text → Graph → Graph
when_idle [] node_id graph = disconnect_loaders node_id graph
when_idle (lora ∷ loras) node_id graph = graph

abbrev pub multi_at :
    List LoraSpec → Option Bool → Option Bool → Graph → Attempt Text → Attempt Graph
multi_at loras merge_loras low_mem_load graph (done node_id) =
    with_inputs (λ node. put_slots loras merge_loras low_mem_load) node_id graph >>= λ g.
    done (when_idle loras node_id g)
multi_at [] merge_loras low_mem_load graph (raised anchor_not_found) = done graph
multi_at (lora ∷ loras) merge_loras low_mem_load graph (raised anchor_not_found) =
    raised workflow_validation
multi_at loras merge_loras low_mem_load graph (raised e) = raised e

unfoldable pub inject_wan_lora_multi :
    List LoraSpec → Option Bool → Option Bool → Graph → Attempt Graph
unfolding edit_node put_slots disconnect_loaders
inject_wan_lora_multi loras merge_loras low_mem_load graph =
    multi_at loras merge_loras low_mem_load graph (find_anchor graph (codes "%WAN_LORA_MULTI%"))

abbrev pub above_or_100 : List ℕ → ℕ
above_or_100 [] = 100
above_or_100 (n ∷ ns) = suc (max_of n ns)

unfoldable pub wan_loader : Text → LoraSpec → Node
wan_loader model_id lora = record {
  class_type = some (codes "LoraLoaderModelOnly");
  inputs = fields (
      (codes "model", link model_id 0)
      ∷ (codes "lora_name", lora_file lora)
      ∷ (codes "strength_model", float lora.weight)
      ∷ []);
  title = some (codes "wan_lora:" ++ lora.name);
}

-- The loop over the LoRAs: the graph, and the node that `prev_model_ref` names.
unfoldable pub wan_chain : ℕ → Text → List LoraSpec → Graph → Graph × Text
unfolding wan_loader str
wan_chain next prev [] graph = (graph, prev)
wan_chain next prev (lora ∷ loras) graph =
    wan_chain (suc next) (str next) loras (put (str next) (wan_loader prev lora) graph)

abbrev pub shifted : Text → Inputs → Inputs
shifted prev (fields fs) = fields (put (codes "model") (link prev 0) fs)
shifted prev i = i

abbrev to_shift : Text → Graph × Text → Attempt Graph
to_shift shift_id (graph, prev) =
    edit_node shift_id (λ node. done (record node { inputs = shifted prev node.inputs })) graph

-- _inject_wan_core_loras_between
unfoldable pub core_loras_between : List LoraSpec → Text → Text → Graph → Attempt Graph
unfolding digit_keys max_of wan_chain edit_node
core_loras_between [] model_anchor shift_anchor graph = done graph
core_loras_between (lora ∷ loras) model_anchor shift_anchor graph = do
  model_id ← or_invalid (find_anchor graph model_anchor)
  shift_id ← or_invalid (find_anchor graph shift_anchor)
  to_shift shift_id (
      wan_chain (above_or_100 (digit_keys graph)) model_id (take wan_max_loras (lora ∷ loras))
        graph)

abbrev is_there : Attempt Text → Bool
is_there (done i) = true
is_there (raised e) = false

abbrev on_high : List LoraSpec → Graph → Attempt Graph
on_high loras = core_loras_between loras (codes "%WAN_MODEL%") (codes "%WAN_SHIFT%")

abbrev on_low : List LoraSpec → Graph → Attempt Graph
on_low loras = core_loras_between loras (codes "%WAN_MODEL_LOW%") (codes "%WAN_SHIFT_LOW%")

-- The second LoRA goes to the low path, and the others to the high one.
abbrev pub dual_loras : List LoraSpec → Graph → Attempt Graph
dual_loras (a ∷ b ∷ loras) graph = on_high (a ∷ loras) graph >>= on_low (b ∷ [])
dual_loras loras graph = on_high loras graph

unfoldable pub inject_wan_core_loras : List LoraSpec → Graph → Attempt Graph
unfolding core_loras_between
inject_wan_core_loras [] graph = done graph
inject_wan_core_loras (lora ∷ loras) graph =
    if is_there (find_anchor graph (codes "%WAN_MODEL_LOW%"))
    then (if is_there (find_anchor graph (codes "%WAN_SHIFT_LOW%"))
        then dual_loras (lora ∷ loras) graph
        else on_high (lora ∷ loras) graph)
    else on_high (lora ∷ loras) graph
