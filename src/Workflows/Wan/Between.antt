-- ===== src/Workflows/Wan/Between.antt =====
-- app/registry/workflows.py: the graph that `_inject_wan_core_loras_between` makes.
use mathlib.Core.List.{append-nil, append_assoc}
use local_image_generator_se.Common.{
  some, ℕ, suc, ◌+◌, ◌≤◌, ◌<◌, ◌≡◌, refl, ap, ◌∙◌, false, List, [], ◌∷◌, ◌++◌, take, length, arith,
  All, All-map, In, inl, inr, Bool-cases, if◌then◌else◌, sym,
}
use local_image_generator_se.Common.Text.{Text, codes, among, text_eq, text_eq_iff}
use local_image_generator_se.Common.Digits.{str}
use local_image_generator_se.Common.Dict.{put, put_absent}
use local_image_generator_se.Validation.Request.{LoraSpec}
use local_image_generator_se.Workflows.Graph.{
  Node, Graph, done, find_anchor, link, text, float, Inputs, fields, missing, not_a_dict,
}
use local_image_generator_se.Workflows.Sources.{edit_node}
use local_image_generator_se.Workflows.Loras.{digit_keys, above, next_id, last_of}
use local_image_generator_se.Workflows.Loras.Chain.{
  ids_of, Fresh, Fresh-get, Fresh-append, next_id-Fresh, Below-among, last_id-ids_of,
  find_anchor-In,
}
use local_image_generator_se.Workflows.Wan.{
  above_or_100, shifted, wan_loader, wan_chain, core_loras_between,
}

-- The loader of a LoRA, which reads output 0 of a node.
abbrev loader_after : Text → LoraSpec → Node
loader_after prev l = record {
  class_type = some (codes "LoraLoaderModelOnly");
  inputs = fields (
      (codes "model", link prev 0)
      ∷ (codes "lora_name", text (l.name ++ codes ".safetensors"))
      ∷ (codes "strength_model", float l.weight)
      ∷ []);
  title = some (codes "wan_lora:" ++ l.name);
}

-- The loaders in their order, each fed by the one before it.
unfoldable pub loaders_of : ℕ → Text → List LoraSpec → Graph
loaders_of n prev [] = []
loaders_of n prev (l ∷ ls) = (str n, loader_after prev l) ∷ loaders_of (suc n) (str n) ls

-- The inputs, with `model` read from output 0 of a node.
abbrev fed_inputs : Text → Inputs → Inputs
fed_inputs prev (fields fs) = fields (put (codes "model") (link prev 0) fs)
fed_inputs prev missing = missing
fed_inputs prev not_a_dict = not_a_dict

shifted_lem : (prev : Text) (i : Inputs) → shifted prev i ≡ fed_inputs prev i
shifted_lem prev (fields fs) = refl
shifted_lem prev missing = refl
shifted_lem prev not_a_dict = refl

-- The graph, with the input `model` of the first node of an id taken from another node, where that
-- node has a dict of inputs.
unfoldable pub fed : Text → Text → Graph → Graph
fed shift_id prev [] = []
fed shift_id prev ((i, node) ∷ g) =
    let rest = fed shift_id prev g in
    if text_eq i shift_id
    then (i, record node { inputs = fed_inputs prev node.inputs }) ∷ g
    else (i, node) ∷ rest

-- The id that the first loader gets.
unfoldable pub first_id : Graph → ℕ
first_id g = above_or_100 (digit_keys g)

Fresh-up : (n m : ℕ) (g : Graph) → n ≤ m → Fresh n g → Fresh m g
Fresh-up n m [] h f = tt
Fresh-up n m ((i, node) ∷ g) h f = (λ k b. f.0 k (omega arith), Fresh-up n m g h f.1)

above_le : (ns : List ℕ) → (above ns ≤ above_or_100 ns) × (0 < above_or_100 ns)
above_le [] = (omega arith, omega arith)
above_le (n ∷ ns) = (omega arith, omega arith)

first_id-Fresh : (g : Graph) → Fresh (first_id g) g
unfolding first_id next_id
first_id-Fresh g = Fresh-up (next_id g) (first_id g) g (above_le (digit_keys g)).0 (next_id-Fresh g)

wan_chain_lem :
    (n : ℕ) (prev : Text) (ls : List LoraSpec) (g : Graph)
    → 0 < n
    → Fresh n g
    → wan_chain n prev ls g ≡ (g ++ loaders_of n prev ls, last_of prev (ids_of n ls))
unfolding wan_chain loaders_of ids_of wan_loader
wan_chain_lem n prev [] g p f = rw (append-nil g)
wan_chain_lem n prev (l ∷ ls) g p f =
    rw (put_absent (str n) (wan_loader prev l) g (Fresh-get n g f)) (
      wan_chain_lem (suc n) (str n) ls (g ++ (str n, wan_loader prev l) ∷ []) (omega arith)
        (Fresh-append n g (wan_loader prev l) p f)
      ∙ rw (append_assoc g ((str n, wan_loader prev l) ∷ []) (loaders_of (suc n) (str n) ls)))

edit_node-fed :
    (shift_id prev : Text) (g chain : Graph) (node : Node)
    → In (shift_id, node) g
    → edit_node shift_id (λ m. done (record m { inputs = shifted prev m.inputs })) (g ++ chain)
      ≡ done (fed shift_id prev g ++ chain)
unfolding edit_node fed
edit_node-fed s prev [] chain node i = absurd i
edit_node-fed s prev ((j, m) ∷ g) chain node i = elim (Bool-cases (text_eq j s)) [
  | inl t ↦ rw t (λ d. done ((j, record m { inputs = shifted_lem prev m.inputs d }) ∷ (g ++ chain)))
  | inr f ↦ rw (f, edit_node-fed s prev g chain node (later f i)) refl
]
  where
    later : text_eq j s ≡ false → In (s, node) ((j, m) ∷ g) → In (s, node) g
    later f (inl q) =
        let same : s ≡ j = ap (λ p. p.0) q in
        absurd (ground (arith, f, (text_eq_iff j s).1 (sym same)))
    later f (inr k) = k

-- With LoRAs and the two anchors in the graph, the injection appends a chain of one loader for each
-- of the first five LoRAs, in their order. The first is fed by the node of the model anchor, each
-- later one by the loader before it. In the old part of the graph only the input `model` of the node
-- of the shift anchor changes, where that node has a dict of inputs: it is fed by the last loader.
-- No loader has the id of a node that the graph had.
pub core_loras_between-chain :
    (g : Graph) (l : LoraSpec) (ls : List LoraSpec) (model shift model_id shift_id : Text)
    → find_anchor g model ≡ done model_id
    → find_anchor g shift ≡ done shift_id
    → let n = first_id g in
      let used : List LoraSpec = l ∷ take 4 ls in
      (core_loras_between (l ∷ ls) model shift g
        ≡ done (fed shift_id (str (n + length (take 4 ls))) g ++ loaders_of n model_id used))
      × All (λ p. among p.0 (ids_of n used) ≡ false) g
unfolding core_loras_between first_id ids_of
core_loras_between-chain g l ls model shift model_id shift_id em es =
    let n = first_id g in
    let used : List LoraSpec = l ∷ take 4 ls in
    let fresh = first_id-Fresh g in
    let there = find_anchor-In g shift shift_id es in
    (
      rw (em, es, wan_chain_lem n model_id used g (above_le (digit_keys g)).1 fresh)
          (edit_node-fed shift_id (last_of model_id (ids_of n used)) g (loaders_of n model_id used)
              there.0 there.1
            ∙ ap (λ i. done (fed shift_id i g ++ loaders_of n model_id used))
                (last_id-ids_of n l (take 4 ls))),
      All-map g (λ p b. Below-among n p.0 used b) fresh,
    )
