-- ===== src/Workflows/Anchors.antt =====
-- app/registry/workflows.py: graphs whose anchors were validated.
use local_image_generator_se.Common.{
  ◌≡◌, refl, ap, Bool, true, false, inl, inr, List, [], ◌∷◌, ◌++◌, arith, In, Bool-cases, subst,
  In-append_left, In-append_right,
}
use local_image_generator_se.Common.Text.{Text, among, text_eq, text_eq_iff, among-In}
use local_image_generator_se.Common.Table.{select}
use local_image_generator_se.Workflows.Graph.{
  Node, Graph, done, title_anchors, find_anchor, owners_in, owners, no_ids, many_ids,
  missing_anchors, duplicated_anchors, validate_anchors,
}

rejected :
    (p : Text → Bool) (xs : List Text) (a : Text)
    → no_ids (select p xs) ≡ true
    → In a xs
    → p a ≡ false
unfolding select
rejected p [] a h i = absurd i
rejected p (x ∷ xs) a h (inl e) = ground (arith, h, ap p e)
rejected p (x ∷ xs) a h (inr i) = ground (arith, h, rejected p xs a)

single_owner :
    (ids : List Text) → no_ids ids ≡ false → many_ids ids ≡ false → (i : Text) × (ids ≡ i ∷ [])
single_owner [] h k = cc
single_owner (i ∷ []) h k = (i, refl)
single_owner (i ∷ j ∷ ids) h k = cc

module _ (a : Text) where
  owners_in-In : (i : Text) (as' : List Text) → In a as' → In i (owners_in a i as')
  unfolding owners_in
  owners_in-In i (b ∷ bs) (inl e) = rw ((text_eq_iff a b).1 e) (inl refl)
  owners_in-In i (b ∷ bs) (inr h) = elim (Bool-cases (text_eq a b)) [
    | inl t ↦ rw t (inr (owners_in-In i bs h))
    | inr t ↦ rw t (owners_in-In i bs h)
  ]
  owners_in-In i [] h = absurd h

  owners_in_none : (i : Text) (as' : List Text) → among a as' ≡ false → owners_in a i as' ≡ []
  unfolding owners_in among
  owners_in_none i [] h = refl
  owners_in_none i (b ∷ bs) h = ground (arith, h, owners_in_none i bs)

  -- Every node that declares the anchor is one of its owners.
  owners-In :
      (g : Graph) (j : Text) (n : Node) → In (j, n) g → In a (title_anchors n) → In j (owners g a)
  unfolding owners
  owners-In [] j n i h = absurd i
  owners-In ((i, m) ∷ g) j n (inl e) h =
      In-append_left j (owners_in a i (title_anchors m)) (owners g a) (
        rw (← ap (λ p. p.0) e)
          (owners_in-In j (title_anchors m) (subst (λ p. In a (title_anchors p.1)) e h)))
  owners-In ((i, m) ∷ g) j n (inr k) h =
      In-append_right j (owners_in a i (title_anchors m)) (owners g a) (owners-In g j n k h)

  head_owner :
      (i : Text) (as' : List Text) (rest : List Text) (k : Text)
      → In a as'
      → owners_in a i as' ++ rest ≡ k ∷ []
      → i ≡ k
  unfolding owners_in
  head_owner i [] rest k h e = absurd h
  head_owner i (b ∷ bs) rest k (inl q) e = ground (arith, (text_eq_iff a b).1 q, e)
  head_owner i (b ∷ bs) rest k (inr q) e = elim (Bool-cases (text_eq a b)) [
    | inl t ↦ ground (arith, t, e)
    | inr t ↦ head_owner i bs rest k q (rw t at e)
  ]

  owned-find :
      (g : Graph) (i : Text)
      → owners g a ≡ i ∷ []
      → (find_anchor g a ≡ done i) × (n : Node) × In (i, n) g × In a (title_anchors n)
  unfolding owners find_anchor
  owned-find [] i e = absurd (ground (arith, e))
  owned-find ((j, n) ∷ g) i e = elim (Bool-cases (among a (title_anchors n))) [
    | inl t ↦
        let h : In a (title_anchors n) = among-In a (title_anchors n) t in
        let same : j ≡ i = head_owner j (title_anchors n) (owners g a) i h e in
        (rw (t, same), n, inl (rw same), h)
    | inr t ↦
        let rest : owners g a ≡ i ∷ [] = ground (arith, owners_in_none j (title_anchors n) t, e) in
        let (f, m, k, h) = owned-find g i rest in (rw t f, m, inr k, h)
  ]

-- Where the anchors of a graph were validated, the search for a required anchor gives the id of a
-- node that declares it, and every node that declares it has that id.
pub validate_anchors-find :
    (g : Graph) (required : List Text) (a : Text)
    → validate_anchors g required ≡ done tt
    → In a required
    → (i : Text) × (find_anchor g a ≡ done i)
      × ((n : Node) × In (i, n) g × In a (title_anchors n))
      × ((j : Text) (n : Node) → In (j, n) g → In a (title_anchors n) → j ≡ i)
unfolding validate_anchors
validate_anchors-find g required a v r =
    let none_missing : no_ids (missing_anchors g required) ≡ true = ground arith in
    let none_twice : no_ids (duplicated_anchors g required) ≡ true = ground arith in
    let (i, e) =
      single_owner (owners g a) (rejected (λ b. no_ids (owners g b)) required a none_missing r)
        (rejected (λ b. many_ids (owners g b)) required a none_twice r) in
    let (f, n, k, h) = owned-find a g i e in
    (i, f, (n, k, h), λ j m p q. only i j (subst (In j) e (owners-In a g j m p q)))
  where
    only : (i j : Text) → In j (i ∷ []) → j ≡ i
    only i j (inl q) = q
    only i j (inr q) = absurd q
