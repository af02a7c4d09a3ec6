-- ===== src/Workflows/Loras/Chain.antt =====
-- app/registry/workflows.py: the loaders that the loop of `inject_loras` adds, under ids that the
-- graph does not have.
use mathlib.Core.List.{append-nil, append_assoc}
use native.Mathlib.Nat.{add-zero}
use local_image_generator_se.Common.{
  ℕ, suc, ◌+◌, ◌≤◌, ◌<◌, ◌≡◌, refl, sym, ap, ◌∙◌, false, none, some, List, [], ◌∷◌, ◌++◌, arith,
  All, In, inl, inr, ltb, Bool-cases, Option-cases, if◌then◌else◌, length,
}
use local_image_generator_se.Common.Text.{Text, codes, among, text_eq, text_eq_iff}
use local_image_generator_se.Common.Digits.{str, int_of, int_of-str, str-injective}
use local_image_generator_se.Common.Dict.{get, put_absent}
use local_image_generator_se.Validation.Request.{LoraSpec}
use local_image_generator_se.Workflows.Graph.{
  text, float, link, fields, Node, Graph, done, find_anchor, title_anchors,
}
use local_image_generator_se.Workflows.Loras.{
  Slot, digit_keys, max_of, above, next_id, lora_loader, add_loaders, last_of, last_id,
}

-- The loader of a LoRA, which reads its model and its clip from two outputs.
abbrev loader_between : Slot → Slot → LoraSpec → Node
loader_between model clip l = record {
  class_type = some (codes "LoraLoader");
  inputs = fields (
      (codes "lora_name", text (l.name ++ codes ".safetensors"))
      ∷ (codes "strength_model", float l.weight)
      ∷ (codes "strength_clip", float l.weight)
      ∷ (codes "model", link model.0 model.1)
      ∷ (codes "clip", link clip.0 clip.1)
      ∷ []);
  title = some (codes "lora:" ++ l.name);
}

-- The chain, each loader fed by the one before it.
unfoldable pub chain_of : ℕ → Slot → Slot → List LoraSpec → Graph
chain_of n model clip [] = []
chain_of n model clip (l ∷ ls) =
    (str n, loader_between model clip l) ∷ chain_of (suc n) (str n, 0) (str n, 1) ls

unfoldable pub ids_of : ℕ → List LoraSpec → List Text
ids_of n [] = []
ids_of n (l ∷ ls) = str n ∷ ids_of (suc n) ls

-- A key that is not printed from a number at or above `n`.
abbrev pub Below : ℕ → Text → Type 0
Below n key = (k : ℕ) → n ≤ k → text_eq key (str k) ≡ false

abbrev pub Fresh : ℕ → Graph → Type 0
Fresh n = All (λ p. Below n p.0)

max_of_bound : (n : ℕ) (ms : List ℕ) → (n ≤ max_of n ms) × ((m : ℕ) → In m ms → m ≤ max_of n ms)
unfolding max_of
max_of_bound n [] = (omega arith, λ m i. absurd i)
max_of_bound n (m ∷ ms) =
    let (a, b) = max_of_bound (if ltb n m then m else n) ms in
    (ground (arith, a), λ k i. elim i [ inl e ↦ ground (arith, a, e) | inr j ↦ b k j ])

above_bound : (n : ℕ) (ns : List ℕ) → In n ns → n < above ns
above_bound n [] i = absurd i
above_bound n (m ∷ ns) (inl e) = let (a, b) = max_of_bound m ns in ground (arith, a, e)
above_bound n (m ∷ ns) (inr i) = let (a, b) = max_of_bound m ns in omega (arith, b n i)

digit_keys-In :
    (g : Graph) (k : Text) (node : Node) (n : ℕ)
    → In (k, node) g
    → int_of k ≡ some n
    → In n (digit_keys g)
unfolding digit_keys
digit_keys-In [] k node n i e = absurd i
digit_keys-In ((j, m) ∷ g) k node n (inl q) e =
    let same : j ≡ k = sym (ap (λ p. p.0) q) in rw (same, e) (inl refl)
digit_keys-In ((j, m) ∷ g) k node n (inr i) e = elim (Option-cases (int_of j)) [
  | inl q ↦ rw q (digit_keys-In g k node n i e)
  | inr (x, q) ↦ rw q (inr (digit_keys-In g k node n i e))
]

pub next_id_pos : (g : Graph) → 0 < next_id g
unfolding next_id
next_id_pos g = positive (digit_keys g)
  where
    positive : (ns : List ℕ) → 0 < above ns
    positive [] = omega arith
    positive (n ∷ ns) = omega arith

next_id-Below : (g : Graph) (k : Text) (node : Node) → In (k, node) g → Below (next_id g) k
unfolding next_id
next_id-Below g k node i n h = elim (Bool-cases (text_eq k (str n))) [
  | inr f ↦ f
  | inl t ↦
      let same : k ≡ str n = (text_eq_iff k (str n)).0 t in
      let value : int_of k ≡ some n =
        ap int_of same ∙ int_of-str n (omega (arith, next_id_pos g)) in
      absurd (omega (arith, above_bound n (digit_keys g) (digit_keys-In g k node n i value)))
]

Below-all :
    (n : ℕ) (g h : Graph)
    → ((k : Text) (node : Node) → In (k, node) g → In (k, node) h)
    → ((k : Text) (node : Node) → In (k, node) h → Below n k)
    → Fresh n g
Below-all n [] h s b = tt
Below-all n ((k, node) ∷ g) h s b =
    (b k node (s k node (inl refl)), Below-all n g h (λ j m i. s j m (inr i)) b)

-- No key of the graph is printed from a number at or above the next id.
pub next_id-Fresh : (g : Graph) → Fresh (next_id g) g
next_id-Fresh g = Below-all (next_id g) g g (λ k m i. i) (next_id-Below g)

Below-suc : (n : ℕ) (k : Text) → Below n k → Below (suc n) k
Below-suc n k b m h = b m (omega arith)

str-Below : (n : ℕ) → 0 < n → Below (suc n) (str n)
str-Below n p m h = elim (Bool-cases (text_eq (str n) (str m))) [
  | inr f ↦ f
  | inl t ↦
      absurd (omega (arith, str-injective n m p (omega arith) ((text_eq_iff (str n) (str m)).0 t)))
]

pub Fresh-get : (n : ℕ) (g : Graph) → Fresh n g → get (str n) g ≡ none
unfolding get
Fresh-get n [] f = refl
Fresh-get n ((k, node) ∷ g) f = rw (f.0 n (omega arith)) (Fresh-get n g f.1)

pub Fresh-append :
    (n : ℕ) (g : Graph) (node : Node) → 0 < n → Fresh n g → Fresh (suc n) (g ++ (str n, node) ∷ [])
Fresh-append n [] node p f = (str-Below n p, tt)
Fresh-append n ((k, m) ∷ g) node p f = (Below-suc n k f.0, Fresh-append n g node p f.1)

-- The loop appends the chain, and its ids.
pub add_loaders_lem :
    (n : ℕ) (model clip : Slot) (ls : List LoraSpec) (g : Graph) (ids : List Text)
    → 0 < n
    → Fresh n g
    → add_loaders n model clip ls g ids ≡ (g ++ chain_of n model clip ls, ids ++ ids_of n ls)
unfolding add_loaders chain_of ids_of lora_loader
add_loaders_lem n model clip [] g ids p f = rw (append-nil g, append-nil ids)
add_loaders_lem n model clip (l ∷ ls) g ids p f =
    rw (put_absent (str n) (lora_loader model clip l) g (Fresh-get n g f)) (
      add_loaders_lem (suc n) (str n, 0) (str n, 1) ls (g ++ (str n, lora_loader model clip l) ∷ [])
        (ids ++ str n ∷ []) (omega arith) (Fresh-append n g (lora_loader model clip l) p f)
      ∙ rw (
        append_assoc g ((str n, lora_loader model clip l) ∷ [])
            (chain_of (suc n) (str n, 0) (str n, 1) ls),
        append_assoc ids (str n ∷ []) (ids_of (suc n) ls),
      ))

-- A key of the graph is none of the new ids.
pub Below-among :
    (n : ℕ) (k : Text) (ls : List LoraSpec) → Below n k → among k (ids_of n ls) ≡ false
unfolding among ids_of
Below-among n k [] b = refl
Below-among n k (l ∷ ls) b = rw (b n (omega arith)) (Below-among (suc n) k ls (Below-suc n k b))

pub chain_of-In :
    (n : ℕ) (model clip : Slot) (ls : List LoraSpec)
    → All (λ p. In p.0 (ids_of n ls)) (chain_of n model clip ls)
unfolding chain_of ids_of
chain_of-In n model clip [] = tt
chain_of-In n model clip (l ∷ ls) = (
  inl refl,
  weaken (str n) (ids_of (suc n) ls) (chain_of (suc n) (str n, 0) (str n, 1) ls)
      (chain_of-In (suc n) (str n, 0) (str n, 1) ls),
)
  where
    weaken :
        (i : Text) (ids : List Text) (g : Graph)
        → All (λ p. In p.0 ids) g
        → All (λ p. In p.0 (i ∷ ids)) g
    weaken i ids [] a = tt
    weaken i ids (x ∷ g) a = (inr a.0, weaken i ids g a.1)

last_of-ids_of :
    (n : ℕ) (ls : List LoraSpec) → last_of (str n) (ids_of (suc n) ls) ≡ str (n + length ls)
unfolding ids_of
last_of-ids_of n [] = rw add-zero
last_of-ids_of n (l ∷ ls) =
    let e : suc n + length ls ≡ n + suc (length ls) = omega arith in
    last_of-ids_of (suc n) ls ∙ ap str e

pub last_id-ids_of :
    (n : ℕ) (l : LoraSpec) (ls : List LoraSpec) → last_id (ids_of n (l ∷ ls)) ≡ str (n + length ls)
unfolding ids_of
last_id-ids_of n l ls = last_of-ids_of n ls

pub find_anchor-In :
    (g : Graph) (a i : Text) → find_anchor g a ≡ done i → (node : Node) × In (i, node) g
unfolding find_anchor
find_anchor-In [] a i h = cc
find_anchor-In ((j, node) ∷ g) a i h = elim (Bool-cases (among a (title_anchors node))) [
  | inl t ↦ let same : j ≡ i = cc (rw t at h) in (node, inl (rw same))
  | inr f ↦ let (m, k) = find_anchor-In g a i (rw f at h) in (m, inr k)
]
