-- ===== src/Workflows/Wan/Filled.antt =====
-- app/registry/workflows.py: the node of the slots after `inject_wan_lora_multi`.
use local_image_generator_se.Common.{
  ℕ, ◌<◌, ◌≡◌, refl, sym, ap, ◌∙◌, false, Option, some, Bool, List, [], ◌∷◌, inl, inr, Bool-cases,
}
use local_image_generator_se.Common.Text.{Text, codes, text_eq, text_eq_iff}
use local_image_generator_se.Common.Dict.{Dict, get}
use local_image_generator_se.Validation.Request.{LoraSpec}
use local_image_generator_se.Workflows.Graph.{
  Value, Inputs, fields, Node, Graph, done, find_anchor, ◌>>=◌,
}
use local_image_generator_se.Workflows.Sources.{class_is}
use local_image_generator_se.Workflows.Kept.{bind-done, done-inj}
use local_image_generator_se.Workflows.Ltxv.{input_of, input_at}
use local_image_generator_se.Workflows.Ltxv.Values.{edit_node-input}
use local_image_generator_se.Workflows.Weights.{with_inputs}
use local_image_generator_se.Workflows.Wan.{
  lora_key, strength_key, put_slots, without, is_wire, unwired, unwired_loader, disconnect_loaders,
  when_idle, inject_wan_lora_multi,
}
use local_image_generator_se.Workflows.Wan.Slots.{
  slot_file, slot_strength, lora_slot, strength_slot,
}

module _ (k src : Text) (apart : text_eq (codes "lora") k ≡ false) where
  get-without : (fs : Dict Value) → get k (without (codes "lora") fs) ≡ get k fs
  unfolding get without
  get-without [] = refl
  get-without ((j, v) ∷ fs) = elim (Bool-cases (text_eq j (codes "lora"))) [
    | inl t ↦
        let same : codes "lora" ≡ j = sym ((text_eq_iff j (codes "lora")).0 t) in
        let other : text_eq j k ≡ false = ap (λ x. text_eq x k) (sym same) ∙ apart in
        rw (t, other) (get-without fs)
    | inr f ↦ rw (f, get-without fs) refl
  ]

  unwired-input : (i : Inputs) → input_of k (unwired src i) ≡ input_of k i
  unwired-input (fields fs) = elim (Bool-cases (is_wire src (get (codes "lora") fs))) [
    | inl t ↦ rw t (get-without fs)
    | inr f ↦ rw f refl
  ]
  unwired-input _ = refl

  unwired_loader-input :
      (node : Node) → input_of k (unwired_loader src node).inputs ≡ input_of k node.inputs
  unwired_loader-input node = elim (Bool-cases (class_is (codes "WanVideoModelLoader") node)) [
    | inl t ↦ rw t (unwired-input node.inputs)
    | inr f ↦ rw f refl
  ]

  disconnect_loaders-input :
      (id : Text) (g : Graph) → input_at id k (disconnect_loaders src g) ≡ input_at id k g
  unfolding disconnect_loaders input_at
  disconnect_loaders-input id [] = refl
  disconnect_loaders-input id ((i, node) ∷ g) =
      rw (unwired_loader-input node, disconnect_loaders-input id g) refl

  when_idle-input :
      (loras : List LoraSpec) (id : Text) (g : Graph)
      → input_at id k (when_idle loras src g) ≡ input_at id k g
  when_idle-input [] id g = disconnect_loaders-input id g
  when_idle-input (l ∷ ls) id g = refl

-- Where the injection of LoRAs into a graph with the node of slots comes to an end, that node has, for
-- each of the five slots, the file name and the weight of the LoRA at that place of the list, and
-- `none` with strength 1 where the list has no such place.
pub inject_wan_lora_multi-slots :
    (loras : List LoraSpec) (merge low : Option Bool) (g g' : Graph) (id : Text)
    → find_anchor g (codes "%WAN_LORA_MULTI%") ≡ done id
    → inject_wan_lora_multi loras merge low g ≡ done g'
    → (i : ℕ) → i < 5
    → (input_at id (lora_key i) g' ≡ some (slot_file i loras))
      × (input_at id (strength_key i) g' ≡ some (slot_strength i loras))
unfolding inject_wan_lora_multi text_eq
inject_wan_lora_multi-slots loras merge low g g' id found h i b =
    let filled = put_slots loras merge low in
    let h1 : (with_inputs (λ node. filled) id g >>= λ g1. done (when_idle loras id g1)) ≡ done g' =
      rw found at h in
    let (g1, p, q) =
      bind-done (with_inputs (λ node. filled) id g) (λ g1. done (when_idle loras id g1)) g' h1 in
    let result : when_idle loras id g1 ≡ g' = done-inj q in
    (
      ap (input_at id (lora_key i)) (sym result)
          ∙ when_idle-input (lora_key i) id refl loras id g1
          ∙ edit_node-input (lora_key i) (slot_file i loras) filled
              (λ fs. lora_slot i loras merge low fs b) id g g1 p,
      ap (input_at id (strength_key i)) (sym result)
          ∙ when_idle-input (strength_key i) id refl loras id g1
          ∙ edit_node-input (strength_key i) (slot_strength i loras) filled
              (λ fs. strength_slot i loras merge low fs b) id g g1 p,
    )
