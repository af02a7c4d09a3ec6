-- ===== src/Eviction/Sizes.antt =====
-- app/loras/eviction.py: the bytes that an eviction frees.
use native.Mathlib.Nat.{add_comm}
use local_image_generator_se.Common.{
  ℕ, suc, ◌+◌, ◌-◌, ◌*◌, ◌≤◌, ◌≡◌, refl, sym, ap, ◌∙◌, String, false, not, List, [], ◌∷◌, arith,
  str_eq, eq_iff, subst, inl, inr, In, All, All-of_In, All-at, Bool-cases, leb, ltb,
}
use local_image_generator_se.Common.Keys.{keyed, Distinct, Distinct-select, Distinct-order_by}
use local_image_generator_se.Common.Table.{
  select, select_sound, select_complete, order_by, order_by-In, by,
}
use local_image_generator_se.Eviction.{
  LoraFile, Surroundings, Eviction, reclaimed, insufficient_storage, size_of, directory_size,
  protected, is_candidate, sort_key, candidates, unlink, evict, ended, evict_for,
}

abbrev pub name_of : LoraFile → String
name_of f = f.name

unlink_none :
    (name : String) (files : List LoraFile)
    → All (λ g. keyed name_of name g ≡ false) files
    → unlink name files ≡ files
unfolding unlink select
unlink_none name [] a = refl
unlink_none name (f ∷ files) a = rw a.0 (ap (λ x. f ∷ x) (unlink_none name files a.1))

unlink_first :
    (f : LoraFile) (files : List LoraFile)
    → Distinct name_of (f ∷ files)
    → directory_size (unlink f.name (f ∷ files)) + size_of f ≡ directory_size (f ∷ files)
unfolding unlink select directory_size
unlink_first f files d = rw ((eq_iff f.name f.name).1 refl) (
    ap (λ x. directory_size x + size_of f) (unlink_none f.name files d.0)
    ∙ add_comm (directory_size files) (size_of f))

-- Deleting one of the files frees its size.
directory_size-unlink :
    (c : LoraFile) (files : List LoraFile)
    → Distinct name_of files
    → In c files
    → directory_size (unlink c.name files) + size_of c ≡ directory_size files
unfolding unlink select directory_size
directory_size-unlink c [] d i = absurd i
directory_size-unlink c (f ∷ files) d (inl e) =
    subst (λ x. directory_size (unlink x.name (f ∷ files)) + size_of x ≡ directory_size (f ∷ files))
      (sym e) (unlink_first f files d)
directory_size-unlink c (f ∷ files) d (inr i) =
    let other : keyed name_of f.name c ≡ false =
      All-at (λ z. keyed name_of f.name z ≡ false) c files d.0 i in
    let differs : str_eq f.name c.name ≡ false =
      ground (arith, eq_iff f.name c.name, eq_iff c.name f.name) in
    let rest = directory_size-unlink c files d.1 i in rw differs (omega (arith, rest))

-- The candidates that are left after one was deleted are still there.
still_there :
    (c : LoraFile) (cs files : List LoraFile)
    → All (λ y. keyed name_of c.name y ≡ false) cs
    → All (λ x. In x files) cs
    → All (λ x. In x (unlink c.name files)) cs
unfolding unlink
still_there c [] files a h = tt
still_there c (x ∷ cs) files a h = (
  select_complete (λ f. not (keyed name_of c.name f)) files x h.0 (ap not a.0),
  still_there c cs files a.1 h.1,
)

Distinct-unlink :
    (name : String) (files : List LoraFile)
    → Distinct name_of files
    → Distinct name_of (unlink name files)
unfolding unlink
Distinct-unlink name files d = Distinct-select name_of (λ f. not (keyed name_of name f)) files d

module _ (env : Surroundings) (required : ℕ) where
  -- What is counted is what is freed.
  evict_total :
      (k : ℕ) (cs : List LoraFile) (total : ℕ) (files : List LoraFile)
      → Distinct name_of files
      → Distinct name_of cs
      → All (λ x. In x files) cs
      → let r = evict env required k cs total files in
        directory_size r.1 + r.0 ≡ directory_size files + total
  unfolding evict
  evict_total k [] total files d dc h = refl
  evict_total k (c ∷ cs) total files d dc h =
      let skipped = evict_total (suc k) cs total files d dc.1 h.1 in
      let deleted =
        evict_total (suc k) cs (total + size_of c) (unlink c.name files)
          (Distinct-unlink c.name files d) dc.1 (still_there c cs files dc.0 h.1) in
      let freed = directory_size-unlink c files d h.0 in
      elim (Bool-cases (leb required total)) [
        | inl t ↦ rw t refl
        | inr t ↦ elim (Bool-cases (protected env k c.name)) [
          | inl p ↦ rw (t, p) skipped
          | inr p ↦ elim (Bool-cases (env.can_unlink c.name)) [
            | inl u ↦ rw (t, p, u) (omega (arith, deleted, freed))
            | inr u ↦ rw (t, p, u) skipped
          ]
        ]
      ]

candidates-In :
    (env : Surroundings) (cutoff : ℕ) (files : List LoraFile)
    → All (λ x. In x files) (candidates env cutoff files)
unfolding candidates
candidates-In env cutoff files =
    let chosen = select (is_candidate env cutoff) files in
    All-of_In (λ x. In x files) (order_by (by sort_key) chosen)
      λ c i.
        (select_sound (is_candidate env cutoff) files c
          ((order_by-In (by sort_key) chosen c).0 i)).0

candidates-Distinct :
    (env : Surroundings) (cutoff : ℕ) (files : List LoraFile)
    → Distinct name_of files
    → Distinct name_of (candidates env cutoff files)
unfolding candidates
candidates-Distinct env cutoff files d =
    Distinct-order_by name_of (by sort_key) (select (is_candidate env cutoff) files)
      (Distinct-select name_of (is_candidate env cutoff) files d)

abbrev freed_of : Eviction → ℕ
freed_of (reclaimed n) = n
freed_of insufficient_storage = 0

ended-reclaimed :
    (required freed : ℕ) (r : ℕ × List LoraFile) (left : List LoraFile)
    → ended required r ≡ (reclaimed freed, left)
    → (r.0 ≡ freed) × (r.1 ≡ left) × (required ≤ freed)
ended-reclaimed required freed (total, files) left e = elim (Bool-cases (ltb total required)) [
  | inl t ↦
      let same : insufficient_storage ≡ reclaimed freed = ap (λ x. x.0) (rw t at e) in
      absurd (ground (arith, same))
  | inr t ↦
      let same : (reclaimed total, files) ≡ (reclaimed freed, left) = rw t at e in
      let count : total ≡ freed = ap (λ x. freed_of x.0) same in
      (count, ap (λ x. x.1) same, ground (arith, t, count))
]

-- Over files of distinct names, an eviction that returns a number has freed exactly as many bytes,
-- and what is left leaves room for the incoming file under the limit.
pub evict_for-fits :
    (env : Surroundings) (now incoming_size dir_max_bytes recent_use_days freed : ℕ)
    (files left : List LoraFile)
    → Distinct name_of files
    → evict_for env now incoming_size dir_max_bytes recent_use_days files ≡ (reclaimed freed, left)
    → (directory_size left + freed ≡ directory_size files)
      × (incoming_size + directory_size left ≤ dir_max_bytes)
unfolding evict_for
evict_for-fits env now incoming limit days freed files left d e =
    elim (Bool-cases (leb (incoming + directory_size files) limit)) [
      | inl t ↦
          let same : (reclaimed 0, files) ≡ (reclaimed freed, left) = rw t at e in
          let none_freed : 0 ≡ freed = ap (λ x. freed_of x.0) same in
          let size : directory_size files ≡ directory_size left =
            ap (λ x. directory_size x.1) same in
          (omega (arith, none_freed, size), ground (arith, t, size))
      | inr t ↦
          let cutoff = now - days * 86400000000 in
          let required = incoming + directory_size files - limit in
          let cs = candidates env cutoff files in
          let result = evict env required 1 cs 0 files in
          let (count, kept, enough) = ended-reclaimed required freed result left (rw t at e) in
          let total =
            evict_total env required 1 cs 0 files d (candidates-Distinct env cutoff files d)
              (candidates-In env cutoff files) in
          let size : directory_size result.1 ≡ directory_size left = ap directory_size kept in
          (omega (arith, total, count, size), omega (arith, total, count, size, enough))
    ]
