-- ===== src/Workflows/Loras.antt =====
-- app/registry/workflows.py: the chain of LoRA loaders that `inject_loras` puts between the sources
-- of a graph and their consumers.
pub mod Output
pub mod Chain
pub mod Rewired
use local_image_generator_se.Common.{
  ℕ, suc, ◌+◌, Bool, true, false, ◌&&◌, none, some, Option, List, [], ◌∷◌, ◌++◌, ltb, ◌==◌,
  if◌then◌else◌,
}
use local_image_generator_se.Common.Text.{Text, codes, among, text_eq}
use local_image_generator_se.Common.Digits.{str, int_of}
use local_image_generator_se.Common.Dict.{Dict, put}
use local_image_generator_se.Validation.Request.{LoraSpec}
use local_image_generator_se.Workflows.Graph.{
  Value, text, int, float, flag, link, other, Inputs, missing, not_a_dict, fields, Node, Graph,
  Attempt, done, or_invalid, find_anchor, ◌>>=◌,
}

-- A node and one of its output slots.
abbrev pub Slot : Type 0
Slot = Text × ℕ

abbrev pub refers_to : Slot → Value → Bool
refers_to (source, slot) (link i s) = text_eq i source && s == slot
refers_to r _ = false

abbrev pub slot_of : Text → Value → List ℕ
slot_of source (link i s) = if text_eq i source then s ∷ [] else []
slot_of source _ = []

abbrev pub values_slots : Text → Dict Value → List ℕ
values_slots source [] = []
values_slots source ((k, v) ∷ fs) = slot_of source v ++ values_slots source fs

abbrev pub inputs_slots : Text → Inputs → List ℕ
inputs_slots source (fields fs) = values_slots source fs
inputs_slots source _ = []

-- The slots of `source` that the nodes consume.
unfoldable pub consumed_slots : Text → Graph → List ℕ
consumed_slots source [] = []
consumed_slots source ((i, node) ∷ graph) =
    inputs_slots source node.inputs ++ consumed_slots source graph

abbrev pub all_same : ℕ → List ℕ → Bool
all_same s [] = true
all_same s (t ∷ ts) = t == s && all_same s ts

abbrev pub only_slot : List ℕ → ℕ → ℕ
only_slot [] fallback = fallback
only_slot (s ∷ ss) fallback = if all_same s ss then s else fallback

-- `seen` has one element when all consumed slots are equal.
unfoldable pub infer_output_slot : Graph → Text → ℕ → ℕ
unfolding consumed_slots
infer_output_slot graph source fallback = only_slot (consumed_slots source graph) fallback

unfoldable pub digit_keys : Graph → List ℕ
digit_keys [] = []
digit_keys ((k, node) ∷ graph) = add_key (int_of k) (digit_keys graph)
  where
    add_key : Option ℕ → List ℕ → List ℕ
    add_key none ns = ns
    add_key (some n) ns = n ∷ ns

unfoldable pub max_of : ℕ → List ℕ → ℕ
max_of n [] = n
max_of n (m ∷ ms) = max_of (if ltb n m then m else n) ms

abbrev pub above : List ℕ → ℕ
above [] = 1
above (n ∷ ns) = suc (max_of n ns)

-- `max(int_keys) + 1 if int_keys else 1`
unfoldable pub next_id : Graph → ℕ
unfolding digit_keys max_of
next_id graph = above (digit_keys graph)

abbrev reference : Slot → Value
reference (i, s) = link i s

unfoldable pub lora_loader : Slot → Slot → LoraSpec → Node
lora_loader model clip lora = record {
  class_type = some (codes "LoraLoader");
  inputs = fields (
      (codes "lora_name", text (lora.name ++ codes ".safetensors"))
      ∷ (codes "strength_model", float lora.weight)
      ∷ (codes "strength_clip", float lora.weight)
      ∷ (codes "model", reference model)
      ∷ (codes "clip", reference clip)
      ∷ []);
  title = some (codes "lora:" ++ lora.name);
}

-- The loop over the LoRAs: the graph, and the ids that were added to `chain_ids`.
unfoldable pub add_loaders : ℕ → Slot → Slot → List LoraSpec → Graph → List Text → Graph × List Text
unfolding lora_loader
add_loaders next model clip [] graph chain_ids = (graph, chain_ids)
add_loaders next model clip (lora ∷ loras) graph chain_ids =
    add_loaders (suc next) (str next, 0) (str next, 1) loras
      (put (str next) (lora_loader model clip lora) graph) (chain_ids ++ str next ∷ [])

unfoldable pub rewrite_value : Slot → Slot → Value → Value
rewrite_value source new v = if refers_to source v then reference new else v

abbrev pub map_values : (Value → Value) → Dict Value → Dict Value
map_values f [] = []
map_values f ((k, v) ∷ fs) = (k, f v) ∷ map_values f fs

abbrev pub map_inputs : (Value → Value) → Inputs → Inputs
map_inputs f (fields fs) = fields (map_values f fs)
map_inputs f missing = missing
map_inputs f not_a_dict = not_a_dict

abbrev pub map_node : (Value → Value) → Node → Node
map_node f node = record node { inputs = map_inputs f node.inputs }

unfoldable pub rewrite_inputs : Slot → Slot → List Text → Graph → Graph
unfolding rewrite_value
rewrite_inputs source new skip_ids [] = []
rewrite_inputs source new skip_ids ((i, node) ∷ graph) =
    (i, (if among i skip_ids then node else map_node (rewrite_value source new) node))
    ∷ rewrite_inputs source new skip_ids graph

abbrev pub last_of : Text → List Text → Text
last_of i [] = i
last_of i (j ∷ ids) = last_of j ids

-- `chain_ids[-1]` of a list that has an element here.
abbrev pub last_id : List Text → Text
last_id [] = []
last_id (i ∷ ids) = last_of i ids

-- The two rewritings after the loop.
unfoldable pub rewire : Slot → Slot → Graph × List Text → Graph
unfolding rewrite_inputs
rewire model clip (graph, chain_ids) =
    let last = last_id chain_ids in
    rewrite_inputs clip (last, 1) chain_ids (rewrite_inputs model (last, 0) chain_ids graph)

unfoldable pub inject_loras : Graph → List LoraSpec → Attempt Graph
unfolding infer_output_slot next_id add_loaders rewire
inject_loras graph [] = done graph
inject_loras graph (lora ∷ loras) = do
  model_source_id ← or_invalid (find_anchor graph (codes "%MODEL_SOURCE%"))
  clip_source_id ← or_invalid (find_anchor graph (codes "%CLIP_SOURCE%"))
  let model : Slot = (model_source_id, infer_output_slot graph model_source_id 0)
  let clip : Slot = (clip_source_id, infer_output_slot graph clip_source_id 1)
  done (rewire model clip (add_loaders (next_id graph) model clip (lora ∷ loras) graph []))
