-- ===== src/Workflows/Kept.antt =====
-- app/registry/workflows.py: what the file names that are put into a graph leave as it was.
use local_image_generator_se.Common.{
  ◌≡◌, refl, sym, ap, ◌∙◌, arith, Option, none, some, List, [], ◌∷◌, Bool-cases, inl, inr,
  if◌then◌else◌,
}
use local_image_generator_se.Common.Text.{Text, codes, text_eq, among, truthy}
use local_image_generator_se.Common.Dict.{Dict}
use local_image_generator_se.Validation.Request.{ModelConfig}
use local_image_generator_se.Workflows.Graph.{
  Value, missing, Node, Graph, Fault, workflow_validation, Attempt, done, raised, or_invalid,
  title_anchors, find_anchor, ◌>>=◌,
}
use local_image_generator_se.Workflows.Sources.{
  edit_node, edit_inputs, on_inputs, basename, set_checkpoint, set_clip, set_vaes, vae_node,
  class_is, optional_vae, inject_model_source,
}

-- The ids of a graph, each with the title of its node.
abbrev pub titles : Graph → List (Text × Option Text)
titles [] = []
titles ((i, node) ∷ g) = (i, node.title) ∷ titles g

pub bind-done {ℓ κ} :
    {A : Type ℓ} {B : Type κ} (m : Attempt A) (f : A → Attempt B) (b : B)
    → (m >>= f) ≡ done b
    → (a : A) × (m ≡ done a) × (f a ≡ done b)
bind-done (done a) f b e = (a, refl, e)
bind-done (raised x) f b e = absurd (ground (arith, e))

abbrev result {ℓ} : {A : Type ℓ} → A → Attempt A → A
result a (done b) = b
result a (raised e) = a

pub done-inj {ℓ} : {A : Type ℓ} {a b : A} → done a ≡ done b → a ≡ b
done-inj {a} e = ap (result a) e

pub edit_inputs-title :
    (e : Fault) (f : Dict Value → Attempt (Dict Value)) (node node' : Node)
    → edit_inputs e f node ≡ done node'
    → node'.title ≡ node.title
edit_inputs-title e f node node' h =
    let (i, p, q) =
      bind-done (on_inputs e f node.inputs) (λ i. done (record node { inputs = i })) node' h in
    sym (ap (λ n. n.title) (done-inj q))

module _ (f : Node → Attempt Node)
    (keeps : (n n' : Node) → f n ≡ done n' → n'.title ≡ n.title) where
  pub edit_node-titles :
      (node_id : Text) (g g' : Graph) → edit_node node_id f g ≡ done g' → titles g' ≡ titles g
  unfolding edit_node
  edit_node-titles node_id [] g' h = absurd (ground (arith, h))
  edit_node-titles node_id ((i, node) ∷ g) g' h = elim (Bool-cases (text_eq i node_id)) [
    | inl t ↦
        let h1 : (f node >>= λ node'. done ((i, node') ∷ g)) ≡ done g' = ground (arith, h, t) in
        let (n, p, q) = bind-done (f node) (λ node'. done ((i, node') ∷ g)) g' h1 in
        sym (ap titles (done-inj q)) ∙ ap (λ x. (i, x) ∷ titles g) (keeps node n p)
    | inr t ↦
        let h1 : (edit_node node_id f g >>= λ graph'. done ((i, node) ∷ graph')) ≡ done g' =
          ground (arith, h, t) in
        let (r, p, q) =
          bind-done (edit_node node_id f g) (λ graph'. done ((i, node) ∷ graph')) g' h1 in
        sym (ap titles (done-inj q))
        ∙ ap (λ x. (i, node.title) ∷ x) (edit_node-titles node_id g r p)
  ]

set_vaes-titles : (name : Text) (g : Graph) → titles (set_vaes name g) ≡ titles g
unfolding set_vaes
set_vaes-titles name [] = refl
set_vaes-titles name ((i, node) ∷ g) =
    ap (λ x. (i, x) ∷ titles (set_vaes name g)) (vae_node-title name node)
    ∙ ap (λ x. (i, node.title) ∷ x) (set_vaes-titles name g)
  where
    vae_node-title : (name : Text) (node : Node) → (vae_node name node).title ≡ node.title
    vae_node-title name node = elim (Bool-cases (class_is (codes "VAELoader") node)) [
      | inl t ↦ rw t refl
      | inr t ↦ rw t refl
    ]

optional_vae-titles : (v : Option Text) (g : Graph) → titles (optional_vae v g) ≡ titles g
optional_vae-titles none g = refl
optional_vae-titles (some v) g = set_vaes-titles (basename v) g

abbrev title_text : Option Text → Node
title_text t = record { class_type = none; inputs = missing; title = t }

-- The search for an anchor reads the ids and the titles only.
find_anchor-titles :
    (g h : Graph) (a : Text) → titles g ≡ titles h → find_anchor g a ≡ find_anchor h a
unfolding find_anchor title_anchors
find_anchor-titles [] [] a e = refl
find_anchor-titles [] (p ∷ h) a e = absurd (ground (arith, e))
find_anchor-titles (p ∷ g) [] a e = absurd (ground (arith, e))
find_anchor-titles ((i, n) ∷ g) ((j, m) ∷ h) a e =
    let ih = find_anchor-titles g h a (ap tail e) in
    let first : (i, n.title) ≡ (j, m.title) = ap (head (i, n.title)) e in
    ap (λ p. if among a (title_anchors (title_text p.1)) then done p.0 else find_anchor g a) first
    ∙ ap (λ r. if among a (title_anchors m) then done j else r) ih
  where
    head : Text × Option Text → List (Text × Option Text) → Text × Option Text
    head x [] = x
    head x (y ∷ ys) = y

    tail : List (Text × Option Text) → List (Text × Option Text)
    tail [] = []
    tail (x ∷ xs) = xs

-- Where the file names of a model could be put into a graph, each node has kept its id, its place
-- and its title, so the search for any anchor gives what it gave before.
pub inject_model_source-anchors :
    (model_cfg : ModelConfig) (g g' : Graph)
    → inject_model_source model_cfg g ≡ done g'
    → (titles g' ≡ titles g) × ((a : Text) → find_anchor g' a ≡ find_anchor g a)
unfolding inject_model_source set_checkpoint set_clip
inject_model_source-anchors c g g' h =
    let (m, e1, h1) = bind-done (or_invalid (find_anchor g (codes "%MODEL_SOURCE%"))) _ g' h in
    let (l, e2, h2) = bind-done (or_invalid (find_anchor g (codes "%CLIP_SOURCE%"))) _ g' h1 in
    let (g1, e3, h3) = bind-done (edit_node m (set_checkpoint c) g) _ g' h2 in
    let (g2, e4, h4) = bind-done (edit_node l (set_clip c) g1) _ g' h3 in
    let same : titles g' ≡ titles g =
      sym (ap titles (done-inj h4))
      ∙ optional_vae-titles (truthy c.vae) g2
      ∙ edit_node-titles (set_clip c) (λ n n' k. edit_inputs-title workflow_validation _ n n' k) l
          g1 g2 e4
      ∙ edit_node-titles (set_checkpoint c)
          (λ n n' k. edit_inputs-title workflow_validation _ n n' k) m g g1 e3 in
    (same, λ a. find_anchor-titles g' g a same)
