-- ===== src/Workflows/Ltxv/Values.antt =====
-- app/registry/workflows.py: the values at the anchors of an LTXV graph.
use local_image_generator_se.Common.{
  false, ℕ, ◌%◌, ◌<◌, ◌≡◌, refl, sym, ap, ◌∙◌, some, [], ◌∷◌, arith, Bool-cases, inl, inr,
}
use local_image_generator_se.Common.Text.{Text, codes, text_eq, text_eq_iff}
use local_image_generator_se.Common.Dict.{Dict, put, get, get-put}
use local_image_generator_se.Workflows.Graph.{
  Value, int, Inputs, fields, missing, not_a_dict, Node, Graph, workflow_validation, Attempt, done,
  raised, anchor_not_found, not_implemented, bad_inputs, or_invalid, find_anchor, ◌>>=◌,
}
use local_image_generator_se.Workflows.Sources.{edit_node, edit_inputs, on_inputs}
use local_image_generator_se.Workflows.Kept.{
  titles, bind-done, done-inj, edit_inputs-title, edit_node-titles,
}
use local_image_generator_se.Workflows.Ltxv.{
  edit_anchor, inject_ltxv_seed, inject_ltxv_frames, input_of, input_at,
}

or_invalid-done : (m : Attempt Text) (i : Text) → or_invalid m ≡ done i → m ≡ done i
or_invalid-done (done j) i e = e
or_invalid-done (raised anchor_not_found) i e = absurd (ground (arith, e))
or_invalid-done (raised workflow_validation) i e = absurd (ground (arith, e))
or_invalid-done (raised not_implemented) i e = absurd (ground (arith, e))
or_invalid-done (raised bad_inputs) i e = absurd (ground (arith, e))

pub get-put_same : (k : Text) (v : Value) (fs : Dict Value) → get k (put k v fs) ≡ some v
get-put_same k v fs = get-put k k v fs ∙ rw ((text_eq_iff k k).1 refl) refl

-- An edit of inputs after which a key has a value.
module _ (k : Text) (v : Value) (f : Dict Value → Dict Value)
    (has : (fs : Dict Value) → get k (f fs) ≡ some v) where
  abbrev placed : Node → Attempt Node
  placed = edit_inputs workflow_validation (λ fs. done (f fs))

  placed-input : (node node' : Node) → placed node ≡ done node' → input_of k node'.inputs ≡ some v
  placed-input node node' e = go node.inputs e
    where
      go :
          (i : Inputs)
          → (on_inputs workflow_validation (λ fs. done (f fs)) i >>= λ x.
              done (record node { inputs = x }))
            ≡ done node'
          → input_of k node'.inputs ≡ some v
      go missing q = absurd (ground (arith, q))
      go not_a_dict q = absurd (ground (arith, q))
      go (fields fs) q = sym (ap (λ n. input_of k n.inputs) (done-inj q)) ∙ has fs

  pub edit_node-input :
      (id : Text) (g g' : Graph) → edit_node id placed g ≡ done g' → input_at id k g' ≡ some v
  unfolding edit_node input_at
  edit_node-input id [] g' h = absurd (ground (arith, h))
  edit_node-input id ((i, node) ∷ g) g' h = elim (Bool-cases (text_eq i id)) [
    | inl t ↦
        let h1 : (placed node >>= λ node'. done ((i, node') ∷ g)) ≡ done g' =
          ground (arith, h, t) in
        let (n, p, q) = bind-done (placed node) (λ node'. done ((i, node') ∷ g)) g' h1 in
        sym (ap (input_at id k) (done-inj q)) ∙ rw t (placed-input node n p)
    | inr t ↦
        let h1 : (edit_node id placed g >>= λ graph'. done ((i, node) ∷ graph')) ≡ done g' =
          ground (arith, h, t) in
        let (r, p, q) =
          bind-done (edit_node id placed g) (λ graph'. done ((i, node) ∷ graph')) g' h1 in
        sym (ap (input_at id k) (done-inj q)) ∙ rw t (edit_node-input id g r p)
  ]

edit_anchor-input :
    (k : Text) (v : Value) (anchor : Text) (g g' : Graph)
    → edit_anchor anchor (put k v) g ≡ done g'
    → (id : Text) × (find_anchor g anchor ≡ done id)
      × (input_at id k g' ≡ some v)
      × (titles g' ≡ titles g)
unfolding edit_anchor
edit_anchor-input k v anchor g g' h =
    let put_at : Node → Attempt Node = placed k v (put k v) (get-put_same k v) in
    let (id, e, q) =
      bind-done (or_invalid (find_anchor g anchor)) (λ i. edit_node i put_at g) g' h in
    (
      id,
      or_invalid-done (find_anchor g anchor) id e,
      edit_node-input k v (put k v) (get-put_same k v) id g g' q,
      edit_node-titles put_at
          (λ n n' p. edit_inputs-title workflow_validation (λ fs. done (put k v fs)) n n' p) id g g'
          q,
    )

-- An edit of inputs that leaves a key leaves it at every node.
module _ (k : Text) (f : Dict Value → Dict Value)
    (leaves : (fs : Dict Value) → get k (f fs) ≡ get k fs) where
  left-input :
      (node node' : Node)
      → edit_inputs workflow_validation (λ fs. done (f fs)) node ≡ done node'
      → input_of k node'.inputs ≡ input_of k node.inputs
  left-input node node' e = go node.inputs e
    where
      go :
          (i : Inputs)
          → (on_inputs workflow_validation (λ fs. done (f fs)) i >>= λ x.
              done (record node { inputs = x }))
            ≡ done node'
          → input_of k node'.inputs ≡ input_of k i
      go missing q = absurd (ground (arith, q))
      go not_a_dict q = absurd (ground (arith, q))
      go (fields fs) q = sym (ap (λ n. input_of k n.inputs) (done-inj q)) ∙ leaves fs

  edit_node-leaves :
      (id j : Text) (g g' : Graph)
      → edit_node id (edit_inputs workflow_validation (λ fs. done (f fs))) g ≡ done g'
      → input_at j k g' ≡ input_at j k g
  unfolding edit_node input_at
  edit_node-leaves id j [] g' h = absurd (ground (arith, h))
  edit_node-leaves id j ((i, node) ∷ g) g' h =
      let edit = edit_inputs workflow_validation (λ fs. done (f fs)) in
      elim (Bool-cases (text_eq i id)) [
        | inl t ↦
            let h1 : (edit node >>= λ node'. done ((i, node') ∷ g)) ≡ done g' =
              ground (arith, h, t) in
            let (n, p, q) = bind-done (edit node) (λ node'. done ((i, node') ∷ g)) g' h1 in
            sym (ap (input_at j k) (done-inj q)) ∙ rw (left-input node n p) refl
        | inr t ↦
            let h1 : (edit_node id edit g >>= λ graph'. done ((i, node) ∷ graph')) ≡ done g' =
              ground (arith, h, t) in
            let (r, p, q) =
              bind-done (edit_node id edit g) (λ graph'. done ((i, node) ∷ graph')) g' h1 in
            sym (ap (input_at j k) (done-inj q)) ∙ rw (edit_node-leaves id j g r p) refl
      ]

edit_anchor-leaves :
    (k l : Text) (v : Value) (anchor j : Text) (g g' : Graph)
    → text_eq l k ≡ false
    → edit_anchor anchor (put l v) g ≡ done g'
    → input_at j k g' ≡ input_at j k g
unfolding edit_anchor
edit_anchor-leaves k l v anchor j g g' n h =
    let edit : Node → Attempt Node = edit_inputs workflow_validation (λ fs. done (put l v fs)) in
    let (id, e, q) = bind-done (or_invalid (find_anchor g anchor)) (λ i. edit_node i edit g) g' h in
    edit_node-leaves k (put l v) (λ fs. get-put k l v fs ∙ rw n refl) id j g g' q

-- Where the seed, and after it the frame count, could be put into a graph, the node of the seed's
-- anchor has in the end the seed modulo 2 ^ 50, which is below the bound of that node's class, and
-- the node of the count's anchor the count, also where they are one node. The ids and titles of the
-- graph are the same, and so is every input with another name than these two.
pub inject_ltxv-values :
    (seed frames : ℕ) (g g1 g2 : Graph)
    → inject_ltxv_seed seed g ≡ done g1
    → inject_ltxv_frames frames g1 ≡ done g2
    → ((id : Text) × (find_anchor g (codes "%LTXV_SEED%") ≡ done id)
        × (input_at id (codes "seed") g2 ≡ some (int (seed % 1125899906842624))))
      × ((id : Text) × (find_anchor g1 (codes "%LTXV_FRAMES%") ≡ done id)
          × (input_at id (codes "value") g2 ≡ some (int frames)))
      × (seed % 1125899906842624 < 1125899906842624)
      × (titles g2 ≡ titles g)
      × ((id k : Text)
          → text_eq (codes "seed") k ≡ false
          → text_eq (codes "value") k ≡ false
          → input_at id k g2 ≡ input_at id k g)
unfolding inject_ltxv_seed inject_ltxv_frames text_eq
inject_ltxv-values seed frames g g1 g2 a b =
    let (i, e, s, t) =
      edit_anchor-input (codes "seed") (int (seed % 1125899906842624)) (codes "%LTXV_SEED%") g g1
        a in
    let (j, f, w, u) =
      edit_anchor-input (codes "value") (int frames) (codes "%LTXV_FRAMES%") g1 g2 b in
    (
      (
        i,
        e,
        edit_anchor-leaves (codes "seed") (codes "value") (int frames) (codes "%LTXV_FRAMES%") i g1
              g2 refl b
            ∙ s,
      ),
      (j, f, w),
      omega arith,
      u ∙ t,
      λ id k n m.
          edit_anchor-leaves k (codes "value") (int frames) (codes "%LTXV_FRAMES%") id g1 g2 m b
          ∙ edit_anchor-leaves k (codes "seed") (int (seed % 1125899906842624))
              (codes "%LTXV_SEED%") id g g1 n a,
    )
