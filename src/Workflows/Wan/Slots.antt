-- ===== src/Workflows/Wan/Slots.antt =====
-- app/registry/workflows.py: the slots that `inject_wan_lora_multi` fills.
use local_image_generator_se.Common.{
  ℕ, zero, suc, ◌+◌, ◌≤◌, ◌<◌, ◌≡◌, refl, sym, ap, ◌∙◌, true, false, Option, none, some, Bool, List,
  [], ◌∷◌, take, length, arith, inl, inr, Bool-cases,
}
use local_image_generator_se.Common.Text.{Text, codes, text_eq, text_eq_iff}
use local_image_generator_se.Common.Digits.{str}
use local_image_generator_se.Common.Dict.{Dict, get, put, get-put}
use local_image_generator_se.Validation.Request.{LoraSpec, plus}
use local_image_generator_se.Workflows.Graph.{Value, text, float, flag}
use local_image_generator_se.Workflows.Wan.{
  lora_key, strength_key, lora_file, free_slots, fill_slots, put_slots, put_flag,
}

-- What a slot has: the LoRA at its index, or nothing.
abbrev pub slot_file : ℕ → List LoraSpec → Value
slot_file i [] = text (codes "none")
slot_file zero (l ∷ ls) = lora_file l
slot_file (suc i) (l ∷ ls) = slot_file i ls

abbrev pub slot_strength : ℕ → List LoraSpec → Value
slot_strength i [] = float (plus 1000)
slot_strength zero (l ∷ ls) = float l.weight
slot_strength (suc i) (l ∷ ls) = slot_strength i ls

str-digit : (n : ℕ) → n < 10 → str n ≡ (48 + n) ∷ []
unfolding str
str-digit n h = ground (arith, h)

abbrev head_of : Text → ℕ
head_of [] = 0
head_of (c ∷ cs) = c

str-differ : (i j : ℕ) → i < 10 → j < 10 → (i ≡ j → ⊥) → text_eq (str i) (str j) ≡ false
str-differ i j hi hj ne = elim (Bool-cases (text_eq (str i) (str j))) [
  | inr f ↦ f
  | inl t ↦
      let e : 48 + i ≡ 48 + j =
        ap head_of (sym (str-digit i hi) ∙ (text_eq_iff (str i) (str j)).0 t ∙ str-digit j hj) in
      absurd (ne (omega (arith, e)))
]

abbrev slot : ℕ → Value → Value → Dict Value → Dict Value
slot i a b fs = put (strength_key i) b (put (lora_key i) a fs)

same_str : (i : ℕ) → text_eq (str i) (str i) ≡ true
same_str i = (text_eq_iff (str i) (str i)).1 refl

abbrev second : Value → Value → Value
second a b = b

abbrev first : Value → Value → Value
first a b = a

-- A family of keys, of which a slot has one.
record IsKey (key : ℕ → Text) (pick : Value → Value → Value) : Type 0 where
  own : (i : ℕ) (a b : Value) (fs : Dict Value) → get (key i) (slot i a b fs) ≡ some (pick a b)
  apart :
      (i j : ℕ) (a b : Value) (fs : Dict Value)
      → text_eq (str i) (str j) ≡ false
      → get (key j) (slot i a b fs) ≡ get (key j) fs
  unflagged :
      (i : ℕ) (merge low : Option Bool) (fs : Dict Value)
      → get (key i) (put_flag (codes "low_mem_load") low (put_flag (codes "merge_loras") merge fs))
        ≡ get (key i) fs

put_flag-apart :
    (j k : Text) (b : Option Bool) (fs : Dict Value)
    → text_eq k j ≡ false
    → get j (put_flag k b fs) ≡ get j fs
put_flag-apart j k none fs h = refl
put_flag-apart j k (some b) fs h = get-put j k (flag b) fs ∙ rw h refl

length-take : (n : ℕ) (ls : List LoraSpec) → length (take n ls) ≤ n
length-take zero ls = omega arith
length-take (suc n) [] = omega arith
length-take (suc n) (l ∷ ls) = omega (arith, length-take n ls)

lora_key-IsKey : IsKey lora_key first
unfolding text_eq
lora_key-IsKey = record {
  own = λ i a b fs.
      get-put (lora_key i) (strength_key i) b (put (lora_key i) a fs)
      ∙ get-put (lora_key i) (lora_key i) a fs
      ∙ rw (same_str i) refl;
  apart = λ i j a b fs h.
      get-put (lora_key j) (strength_key i) b (put (lora_key i) a fs)
      ∙ get-put (lora_key j) (lora_key i) a fs
      ∙ rw h refl;
  unflagged = λ i merge low fs.
      put_flag-apart (lora_key i) (codes "low_mem_load") low
        (put_flag (codes "merge_loras") merge fs) refl
      ∙ put_flag-apart (lora_key i) (codes "merge_loras") merge fs refl;
}

strength_key-IsKey : IsKey strength_key second
unfolding text_eq
strength_key-IsKey = record {
  own = λ i a b fs.
      get-put (strength_key i) (strength_key i) b (put (lora_key i) a fs) ∙ rw (same_str i) refl;
  apart = λ i j a b fs h.
      get-put (strength_key j) (strength_key i) b (put (lora_key i) a fs)
      ∙ rw h (get-put (strength_key j) (lora_key i) a fs);
  unflagged = λ i merge low fs.
      put_flag-apart (strength_key i) (codes "low_mem_load") low
        (put_flag (codes "merge_loras") merge fs) refl
      ∙ put_flag-apart (strength_key i) (codes "merge_loras") merge fs refl;
}

abbrev taken : (Value → Value → Value) → Option Value → ℕ → List LoraSpec → Option Value
taken pick other i [] = other
taken pick other zero (l ∷ ls) = some (pick (lora_file l) (float l.weight))
taken pick other (suc i) (l ∷ ls) = taken pick other i ls

abbrev free : (Value → Value → Value) → Value
free pick = pick (text (codes "none")) (float (plus 1000))

module _ (key : ℕ → Text) (pick : Value → Value → Value) (k : IsKey key pick) where
  fill_slots-below :
      (s j : ℕ) (ls : List LoraSpec) (fs : Dict Value)
      → j < s
      → s + length ls ≤ 10
      → get (key j) (fill_slots s ls fs) ≡ get (key j) fs
  unfolding fill_slots
  fill_slots-below s j [] fs h b = refl
  fill_slots-below s j (l ∷ ls) fs h b =
      fill_slots-below (suc s) j ls (slot s (lora_file l) (float l.weight) fs) (omega arith)
        (omega arith)
      ∙ k.apart s j (lora_file l) (float l.weight) fs
          (str-differ s j (omega arith) (omega arith) (λ e. absurd (omega (arith, e))))

  fill_slots-at :
      (s i j : ℕ) (ls : List LoraSpec) (fs : Dict Value)
      → j ≡ s + i
      → j < 10
      → s + length ls ≤ 10
      → get (key j) (fill_slots s ls fs) ≡ taken pick (get (key j) fs) i ls
  unfolding fill_slots
  fill_slots-at s i j [] fs e h b = refl
  fill_slots-at s zero j (l ∷ ls) fs e h b =
      let here : s ≡ j = omega (arith, e) in
      let after : Dict Value = slot s (lora_file l) (float l.weight) fs in
      ap (λ n. get (key n) (fill_slots (suc s) ls after)) (sym here)
      ∙ fill_slots-below (suc s) s ls after (omega arith) (omega arith)
      ∙ k.own s (lora_file l) (float l.weight) fs
  fill_slots-at s (suc i) j (l ∷ ls) fs e h b =
      let after : Dict Value = slot s (lora_file l) (float l.weight) fs in
      fill_slots-at (suc s) i j ls after (omega (arith, e)) h (omega arith)
      ∙ ap (λ o. taken pick o i ls)
          (k.apart s j (lora_file l) (float l.weight) fs
            (str-differ s j (omega (arith, e)) h (λ q. absurd (omega (arith, q, e)))))

  abbrev freed : ℕ → Dict Value → Dict Value
  freed s = slot s (text (codes "none")) (float (plus 1000))

  free_slots-below :
      (n s j : ℕ) (fs : Dict Value)
      → j < s
      → s + n ≤ 10
      → get (key j) (free_slots n s fs) ≡ get (key j) fs
  unfolding free_slots
  free_slots-below zero s j fs h b = refl
  free_slots-below (suc n) s j fs h b =
      free_slots-below n (suc s) j (freed s fs) (omega arith) (omega arith)
      ∙ k.apart s j (text (codes "none")) (float (plus 1000)) fs
          (str-differ s j (omega arith) (omega arith) (λ e. absurd (omega (arith, e))))

  free_slots-at :
      (n s i j : ℕ) (fs : Dict Value)
      → j ≡ s + i
      → i < n
      → s + n ≤ 10
      → get (key j) (free_slots n s fs) ≡ some (free pick)
  unfolding free_slots
  free_slots-at zero s i j fs e h b = absurd (omega (arith, h))
  free_slots-at (suc n) s zero j fs e h b =
      let here : s ≡ j = omega (arith, e) in
      ap (λ m. get (key m) (free_slots n (suc s) (freed s fs))) (sym here)
      ∙ free_slots-below n (suc s) s (freed s fs) (omega arith) (omega arith)
      ∙ k.own s (text (codes "none")) (float (plus 1000)) fs
  free_slots-at (suc n) s (suc i) j fs e h b =
      free_slots-at n (suc s) i j (freed s fs) (omega (arith, e)) (omega (arith, h)) (omega arith)

  put_slots-at :
      (i : ℕ) (loras : List LoraSpec) (merge low : Option Bool) (fs : Dict Value)
      → i < 5
      → get (key i) (put_slots loras merge low fs) ≡ taken pick (some (free pick)) i (take 5 loras)
  unfolding put_slots
  put_slots-at i loras merge low fs h =
      k.unflagged i merge low (fill_slots 0 (take 5 loras) (free_slots 5 0 fs))
      ∙ fill_slots-at 0 i i (take 5 loras) (free_slots 5 0 fs) (omega arith) (omega arith)
          (omega (arith, length-take 5 loras))
      ∙ ap (λ o. taken pick o i (take 5 loras))
          (free_slots-at 5 0 i i fs (omega arith) h (omega arith))

taken-file :
    (n i : ℕ) (ls : List LoraSpec)
    → i < n
    → taken first (some (free first)) i (take n ls) ≡ some (slot_file i ls)
taken-file zero i ls h = absurd (omega (arith, h))
taken-file (suc n) i [] h = refl
taken-file (suc n) zero (l ∷ ls) h = refl
taken-file (suc n) (suc i) (l ∷ ls) h = taken-file n i ls (omega (arith, h))

taken-strength :
    (n i : ℕ) (ls : List LoraSpec)
    → i < n
    → taken second (some (free second)) i (take n ls) ≡ some (slot_strength i ls)
taken-strength zero i ls h = absurd (omega (arith, h))
taken-strength (suc n) i [] h = refl
taken-strength (suc n) zero (l ∷ ls) h = refl
taken-strength (suc n) (suc i) (l ∷ ls) h = taken-strength n i ls (omega (arith, h))

pub lora_slot :
    (i : ℕ) (loras : List LoraSpec) (merge low : Option Bool) (fs : Dict Value)
    → i < 5
    → get (lora_key i) (put_slots loras merge low fs) ≡ some (slot_file i loras)
lora_slot i loras merge low fs h =
    put_slots-at lora_key first lora_key-IsKey i loras merge low fs h ∙ taken-file 5 i loras h

pub strength_slot :
    (i : ℕ) (loras : List LoraSpec) (merge low : Option Bool) (fs : Dict Value)
    → i < 5
    → get (strength_key i) (put_slots loras merge low fs) ≡ some (slot_strength i loras)
strength_slot i loras merge low fs h =
    put_slots-at strength_key second strength_key-IsKey i loras merge low fs h
    ∙ taken-strength 5 i loras h
