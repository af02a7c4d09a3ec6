-- ===== src/Workflows/Loras/Rewired.antt =====
-- app/registry/workflows.py: the graph that `inject_loras` makes.
use local_image_generator_se.Common.{
  ◌&&◌, ◌==◌, ℕ, ◌+◌, ◌≡◌, refl, ap, ◌∙◌, true, false, List, [], ◌∷◌, ◌++◌, arith, All, All-at,
  All-map, In, if◌then◌else◌, length,
}
use local_image_generator_se.Common.Text.{Text, codes, among, text_eq, text_eq_iff, In-among}
use local_image_generator_se.Common.Digits.{str}
use local_image_generator_se.Common.Dict.{Dict}
use local_image_generator_se.Validation.Request.{LoraSpec}
use local_image_generator_se.Workflows.Graph.{
  Value, link, Inputs, missing, not_a_dict, fields, Node, Graph, done, find_anchor,
}
use local_image_generator_se.Workflows.Loras.{
  Slot, infer_output_slot, next_id, rewrite_value, rewrite_inputs, map_values, map_inputs, map_node,
  rewire, inject_loras,
}
use local_image_generator_se.Workflows.Loras.Output.{IsOutput, infer_output_slot-IsOutput}
use local_image_generator_se.Workflows.Loras.Chain.{
  chain_of, ids_of, Below, Fresh, next_id-Fresh, next_id_pos, add_loaders_lem, Below-among,
  chain_of-In, last_id-ids_of, find_anchor-In,
}

-- What becomes of an input of a node that the graph had.
abbrev pub wired : Slot → Slot → Text → Value → Value
wired model clip last (link i s) =
    if text_eq i model.0 && s == model.1
    then link last 0
    else if text_eq i clip.0 && s == clip.1
    then link last 1
    else link i s
wired model clip last v = v

abbrev pub map_graph : (Value → Value) → Graph → Graph
map_graph f [] = []
map_graph f ((i, node) ∷ g) = (i, map_node f node) ∷ map_graph f g

module _ (f g h : Value → Value) (same : (v : Value) → f (g v) ≡ h v) where
  map_values_twice : (fs : Dict Value) → map_values f (map_values g fs) ≡ map_values h fs
  map_values_twice [] = refl
  map_values_twice ((k, v) ∷ fs) = rw (same v, map_values_twice fs)

  map_inputs_twice : (i : Inputs) → map_inputs f (map_inputs g i) ≡ map_inputs h i
  map_inputs_twice missing = refl
  map_inputs_twice not_a_dict = refl
  map_inputs_twice (fields fs) = ap fields (map_values_twice fs)

  map_graph_twice : (graph : Graph) → map_graph f (map_graph g graph) ≡ map_graph h graph
  map_graph_twice [] = refl
  map_graph_twice ((i, node) ∷ graph) =
      λ d. (i, record node { inputs = map_inputs_twice node.inputs d }) ∷ map_graph_twice graph d

module _ (source new : Slot) (skip : List Text) where
  rewrite_inputs-append :
      (g h : Graph)
      → rewrite_inputs source new skip (g ++ h)
        ≡ rewrite_inputs source new skip g ++ rewrite_inputs source new skip h
  unfolding rewrite_inputs
  rewrite_inputs-append [] h = refl
  rewrite_inputs-append ((i, node) ∷ g) h = rw (rewrite_inputs-append g h)

  -- A graph none of whose nodes is skipped.
  rewrite_inputs_all :
      (g : Graph)
      → All (λ p. among p.0 skip ≡ false) g
      → rewrite_inputs source new skip g ≡ map_graph (rewrite_value source new) g
  unfolding rewrite_inputs
  rewrite_inputs_all [] a = refl
  rewrite_inputs_all ((i, node) ∷ g) a = rw (a.0, rewrite_inputs_all g a.1)

  rewrite_inputs_none :
      (g : Graph) → All (λ p. among p.0 skip ≡ true) g → rewrite_inputs source new skip g ≡ g
  unfolding rewrite_inputs
  rewrite_inputs_none [] a = refl
  rewrite_inputs_none ((i, node) ∷ g) a = rw (a.0, rewrite_inputs_none g a.1)

map_graph-All :
    (P : Text → Type 0) (f : Value → Value) (g : Graph)
    → All (λ p. P p.0) g
    → All (λ p. P p.0) (map_graph f g)
map_graph-All P f [] a = tt
map_graph-All P f (p ∷ g) a = (a.0, map_graph-All P f g a.1)

-- The second rewriting leaves what the first one has put in.
wired_twice :
    (model clip : Slot) (last : Text) (v : Value)
    → text_eq last clip.0 ≡ false
    → rewrite_value clip (last, 1) (rewrite_value model (last, 0) v) ≡ wired model clip last v
unfolding rewrite_value
wired_twice model clip last (link i s) h = ground (arith, h)
wired_twice model clip last _ h = refl

module _ (model clip : Slot) (n : ℕ) (l : LoraSpec) (ls : List LoraSpec) (g : Graph) (f : Fresh n g)
    (clip_there : (node : Node) × In (clip.0, node) g) where
  last_ne_clip : text_eq (str (n + length ls)) clip.0 ≡ false
  last_ne_clip =
      let b =
        All-at (λ p. Below n p.0) (clip.0, clip_there.0) g f clip_there.1 (n + length ls)
          (omega arith) in
      ground (
        arith,
        b,
        text_eq_iff clip.0 (str (n + length ls)),
        text_eq_iff (str (n + length ls)) clip.0,
      )

  abbrev chain : Graph
  chain = chain_of n model clip (l ∷ ls)

  abbrev skip : List Text
  skip = ids_of n (l ∷ ls)

  chain_skipped : All (λ p. among p.0 skip ≡ true) chain
  chain_skipped = All-map chain (λ p i. In-among p.0 skip i) (chain_of-In n model clip (l ∷ ls))

  -- One rewriting changes the graph and leaves the chain.
  pass :
      (source new : Slot) (h : Graph)
      → Fresh n h
      → rewrite_inputs source new skip (h ++ chain)
        ≡ map_graph (rewrite_value source new) h ++ chain
  pass source new h b =
      rewrite_inputs-append source new skip h chain
      ∙ rw (
        rewrite_inputs_all source new skip h (All-map h (λ p k. Below-among n p.0 (l ∷ ls) k) b),
        rewrite_inputs_none source new skip chain chain_skipped,
      )

  rewire_lem :
      rewire model clip (g ++ chain, skip)
      ≡ map_graph (wired model clip (str (n + length ls))) g ++ chain
  unfolding rewire
  rewire_lem =
      let last = str (n + length ls) in
      rw (last_id-ids_of n l ls) (
        ap (rewrite_inputs clip (last, 1) skip) (pass model (last, 0) g f)
        ∙ pass clip (last, 1) (map_graph (rewrite_value model (last, 0)) g)
            (map_graph-All (Below n) (rewrite_value model (last, 0)) g f)
        ∙ ap (λ h. h ++ chain)
            (map_graph_twice (rewrite_value clip (last, 1)) (rewrite_value model (last, 0))
              (wired model clip last) (λ v. wired_twice model clip last v last_ne_clip) g))

-- With LoRAs to load, and the two source anchors in the graph, the graph is the old one, in which
-- every reference to the output of the model source goes to output 0 of the last loader, every
-- other one to the output of the clip source to its output 1, and every other input stays, followed
-- by one loader for each LoRA in their order. The output of a source is the only one that the nodes
-- read, and where they read none or several it is 0 for the model and 1 for the clip. The first
-- loader reads from the two sources, each later one from outputs 0 and 1 of the loader before it,
-- and no loader has the id of a node that the graph had.
pub inject_loras-chain :
    (g : Graph) (l : LoraSpec) (ls : List LoraSpec) (model_id clip_id : Text)
    → find_anchor g (codes "%MODEL_SOURCE%") ≡ done model_id
    → find_anchor g (codes "%CLIP_SOURCE%") ≡ done clip_id
    → let n = next_id g in
      (model clip : ℕ) × IsOutput g model_id 0 model
      × IsOutput g clip_id 1 clip
      × (inject_loras g (l ∷ ls)
          ≡ done (
              map_graph (wired (model_id, model) (clip_id, clip) (str (n + length ls))) g
              ++ chain_of n (model_id, model) (clip_id, clip) (l ∷ ls)))
      × All (λ p. among p.0 (ids_of n (l ∷ ls)) ≡ false) g
unfolding inject_loras
inject_loras-chain g l ls model_id clip_id em ec =
    let model : Slot = (model_id, infer_output_slot g model_id 0) in
    let clip : Slot = (clip_id, infer_output_slot g clip_id 1) in
    let n = next_id g in
    let fresh = next_id-Fresh g in
    (
      model.1,
      clip.1,
      infer_output_slot-IsOutput g model_id 0,
      infer_output_slot-IsOutput g clip_id 1,
      rw (em, ec)
          (ap (λ x. done (rewire model clip x))
              (add_loaders_lem n model clip (l ∷ ls) g [] (next_id_pos g) fresh)
            ∙ ap done (
                rewire_lem model clip n l ls g fresh
                  (find_anchor-In g (codes "%CLIP_SOURCE%") clip_id ec))),
      All-map g (λ p b. Below-among n p.0 (l ∷ ls) b) fresh,
    )
