-- ===== src/Workflows/Loras/Output.antt =====
-- app/registry/workflows.py: the output that `_infer_output_slot` finds, told by the inputs that the
-- nodes of a graph read.
use local_image_generator_se.Common.{
  ℕ, ◌≡◌, refl, sym, ap, ◌∙◌, true, List, [], ◌∷◌, arith, In, inl, inr, ◌⊎◌, Bool-cases, subst,
  In-append_cases, In-append_left, In-append_right,
}
use local_image_generator_se.Common.Text.{Text, text_eq, text_eq_iff}
use local_image_generator_se.Common.Dict.{Dict}
use local_image_generator_se.Workflows.Graph.{
  Value, link, Inputs, fields, missing, not_a_dict, Node, Graph,
}
use local_image_generator_se.Workflows.Loras.{
  slot_of, values_slots, inputs_slots, consumed_slots, all_same, only_slot, infer_output_slot,
}

-- An input that is read from an output of a node.
abbrev ReadsIn : Text → ℕ → Inputs → Type 0
ReadsIn source s (fields fs) = (k : Text) × In (k, link source s) fs
ReadsIn source s _ = ⊥

-- Some node of the graph reads this output of the source.
abbrev pub Reads : Graph → Text → ℕ → Type 0
Reads g source s = (i : Text) × (node : Node) × In (i, node) g × ReadsIn source s node.inputs

-- The one output of the source that is read, or else the fallback.
abbrev pub IsOutput : Graph → Text → ℕ → ℕ → Type 0
IsOutput g source fallback slot =
    (Reads g source slot × ((s : ℕ) → Reads g source s → s ≡ slot))
    ⊎ ((slot ≡ fallback) × ¬ ((s : ℕ) × Reads g source s × ((t : ℕ) → Reads g source t → t ≡ s)))

slot_of_sound : (source : Text) (v : Value) (s : ℕ) → In s (slot_of source v) → v ≡ link source s
slot_of_sound source (link i t) s h = elim (Bool-cases (text_eq i source)) [
  | inl e ↦ found ((text_eq_iff i source).0 e) (rw e at h)
  | inr e ↦ absurd (rw e at h)
]
  where
    found : i ≡ source → In s (t ∷ []) → link i t ≡ link source s
    found p (inl q) = λ d. link (p d) (sym q d)
    found p (inr b) = absurd b
slot_of_sound source _ s h = absurd h

values_sound :
    (source : Text) (fs : Dict Value) (s : ℕ)
    → In s (values_slots source fs)
    → (k : Text) × In (k, link source s) fs
values_sound source [] s h = absurd h
values_sound source ((k, v) ∷ fs) s h =
    elim (In-append_cases s (slot_of source v) (values_slots source fs) h) [
      | inl a ↦ (k, inl (ap (λ x. (k, x)) (sym (slot_of_sound source v s a))))
      | inr b ↦ let (j, i) = values_sound source fs s b in (j, inr i)
    ]

values_complete :
    (source : Text) (fs : Dict Value) (s : ℕ) (k : Text)
    → In (k, link source s) fs
    → In s (values_slots source fs)
values_complete source [] s k h = absurd h
values_complete source ((j, v) ∷ fs) s k (inl e) =
    let read : In s (slot_of source (link source s)) =
      rw ((text_eq_iff source source).1 refl) (inl refl) in
    In-append_left s (slot_of source v) (values_slots source fs)
      (subst (λ p. In s (slot_of source p.1)) e read)
values_complete source ((j, v) ∷ fs) s k (inr i) =
    In-append_right s (slot_of source v) (values_slots source fs) (values_complete source fs s k i)

inputs_sound :
    (source : Text) (i : Inputs) (s : ℕ) → In s (inputs_slots source i) → ReadsIn source s i
inputs_sound source (fields fs) s h = values_sound source fs s h
inputs_sound source missing s h = h
inputs_sound source not_a_dict s h = h

inputs_complete :
    (source : Text) (i : Inputs) (s : ℕ) → ReadsIn source s i → In s (inputs_slots source i)
inputs_complete source (fields fs) s (k, h) = values_complete source fs s k h
inputs_complete source missing s h = h
inputs_complete source not_a_dict s h = h

consumed_sound :
    (source : Text) (g : Graph) (s : ℕ) → In s (consumed_slots source g) → Reads g source s
unfolding consumed_slots
consumed_sound source [] s h = absurd h
consumed_sound source ((i, node) ∷ g) s h =
    elim (In-append_cases s (inputs_slots source node.inputs) (consumed_slots source g) h) [
      | inl a ↦ (i, node, inl refl, inputs_sound source node.inputs s a)
      | inr b ↦ let (j, m, k, r) = consumed_sound source g s b in (j, m, inr k, r)
    ]

consumed_complete :
    (source : Text) (g : Graph) (s : ℕ) (i : Text) (node : Node)
    → In (i, node) g
    → ReadsIn source s node.inputs
    → In s (consumed_slots source g)
unfolding consumed_slots
consumed_complete source [] s i node h r = absurd h
consumed_complete source ((j, m) ∷ g) s i node (inl e) r =
    In-append_left s (inputs_slots source m.inputs) (consumed_slots source g)
      (inputs_complete source m.inputs s (subst (λ p. ReadsIn source s p.1.inputs) e r))
consumed_complete source ((j, m) ∷ g) s i node (inr k) r =
    In-append_right s (inputs_slots source m.inputs) (consumed_slots source g)
      (consumed_complete source g s i node k r)

all_same_sound : (s : ℕ) (ts : List ℕ) (t : ℕ) → all_same s ts ≡ true → In t ts → t ≡ s
all_same_sound s [] t h i = absurd i
all_same_sound s (u ∷ ts) t h (inl e) = ground (arith, h, e)
all_same_sound s (u ∷ ts) t h (inr i) = all_same_sound s ts t (ground (arith, h)) i

all_same_complete : (s : ℕ) (ts : List ℕ) → ((t : ℕ) → In t ts → t ≡ s) → all_same s ts ≡ true
all_same_complete s [] h = refl
all_same_complete s (t ∷ ts) h =
    let rest = all_same_complete s ts (λ u i. h u (inr i)) in
    let e : t ≡ s = h t (inl refl) in ground (arith, rest, e)

module _ (g : Graph) (source : Text) (fallback : ℕ) where
  read : (s : ℕ) → Reads g source s → In s (consumed_slots source g)
  read s (i, node, k, r) = consumed_complete source g s i node k r

  only-IsOutput :
      (ss : List ℕ)
      → ((s : ℕ) → In s ss → Reads g source s)
      → ((s : ℕ) → Reads g source s → In s ss)
      → IsOutput g source fallback (only_slot ss fallback)
  only-IsOutput [] sound complete = inr (refl, λ (s, r, one). complete s r)
  only-IsOutput (s ∷ ss) sound complete = elim (Bool-cases (all_same s ss)) [
    | inl e ↦ rw e (
        inl (
          sound s (inl refl),
          λ t r. elim (complete t r) [ inl q ↦ q | inr i ↦ all_same_sound s ss t e i ],
        ))
    | inr e ↦ rw e (
        inr (
          refl,
          λ (u, r, one).
              let first : s ≡ u = one s (sound s (inl refl)) in
              let same = all_same_complete s ss (λ t i. one t (sound t (inr i)) ∙ sym first) in
              ground (arith, same, e),
        ))
  ]

  pub infer_output_slot-IsOutput : IsOutput g source fallback (infer_output_slot g source fallback)
  unfolding infer_output_slot
  infer_output_slot-IsOutput =
      only-IsOutput (consumed_slots source g) (consumed_sound source g) read
