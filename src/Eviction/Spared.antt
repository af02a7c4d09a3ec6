-- ===== src/Eviction/Spared.antt =====
-- app/loras/eviction.py: which files an eviction may delete.
use local_image_generator_se.Common.{
  In-append_left, In-append_right, ℕ, suc, ◌+◌, ◌-◌, ◌*◌, ◌≤◌, ◌≡◌, refl, ap, subst, String, true,
  false, not, Option, none, some, List, [], ◌∷◌, arith, inl, inr, ◌⊎◌, In, Bool-cases, leb, ltb,
  any, str_eq, eq_iff,
}
use local_image_generator_se.Common.Keys.{keyed, Distinct, find-In, find_unique}
use local_image_generator_se.Common.Table.{select, select_sound, select_complete, order_by-In, by}
use local_image_generator_se.Eviction.{
  Body, dict, entries, names_in, body_names, names_of, is_non_terminal, LoraFile, Sidecar,
  Surroundings, size_of, directory_size, protected, non_terminal_lora_names, is_candidate, may_go,
  is_civitai, is_recent, sort_key, candidates, unlink, evict, evict_for,
}
use local_image_generator_se.Schema.{Job, JobStatus, queued, running}
use local_image_generator_se.Eviction.Sizes.{name_of}

any-In : (name : String) (names : List String) → any (str_eq name) names ≡ false → ¬ In name names
any-In name [] h i = i
any-In name (n ∷ names) h (inl e) = absurd (ground (arith, h, (eq_iff name n).1 e))
any-In name (n ∷ names) h (inr i) = any-In name names (ground (arith, h)) i

-- At this query no job that is queued or running has the name in the list `loras` at the top of its
-- stored input.
abbrev pub Unused : Surroundings → ℕ → String → Type 0
Unused env k name =
    (job : Job) (es : List (Option String))
    → In job (env.store_at k).jobs
    → (job.status ≡ queued) ⊎ (job.status ≡ running)
    → env.loads job.input_json ≡ dict (entries es)
    → ¬ In (some name) es

names_in-complete : (n : String) (es : List (Option String)) → In (some n) es → In n (names_in es)
names_in-complete n [] i = i
names_in-complete n (none ∷ es) (inl e) = absurd (ground (arith, e))
names_in-complete n (none ∷ es) (inr i) = names_in-complete n es i
names_in-complete n (some m ∷ es) (inl e) = inl (ground (arith, e))
names_in-complete n (some m ∷ es) (inr i) = inr (names_in-complete n es i)

names_of-complete :
    (loads : String → Body) (jobs : List Job) (job : Job) (n : String)
    → In job jobs
    → In n (body_names (loads job.input_json))
    → In n (names_of loads jobs)
unfolding names_of
names_of-complete loads [] job n i h = i
names_of-complete loads (j ∷ jobs) job n (inl e) h =
    In-append_left n (body_names (loads j.input_json)) (names_of loads jobs)
      (subst (λ x. In n (body_names (loads x.input_json))) e h)
names_of-complete loads (j ∷ jobs) job n (inr i) h =
    In-append_right n (body_names (loads j.input_json)) (names_of loads jobs)
      (names_of-complete loads jobs job n i h)

open_status : (s : JobStatus) → (s ≡ queued) ⊎ (s ≡ running) → is_non_terminal s ≡ true
unfolding is_non_terminal
open_status s (inl e) = rw e refl
open_status s (inr e) = rw e refl

absent-Unused :
    (env : Surroundings) (k : ℕ) (name : String)
    → ¬ In name (non_terminal_lora_names env.loads (env.store_at k))
    → Unused env k name
unfolding non_terminal_lora_names
absent-Unused env k name absent job es i s l m =
    let open_job : In job (select (λ (j : Job). is_non_terminal j.status) (env.store_at k).jobs) =
      select_complete (λ (j : Job). is_non_terminal j.status) (env.store_at k).jobs job i
        (open_status job.status s) in
    let named : In name (body_names (env.loads job.input_json)) =
      rw l (names_in-complete name es m) in
    absent (names_of-complete env.loads _ job name open_job named)

-- A sidecar of the fetcher, whose last use is unknown or not after the cutoff.
abbrev pub IsStale : ℕ → LoraFile → Type 0
IsStale cutoff f =
    (s : Sidecar) × (f.sidecar ≡ some s)
    × (s.source ≡ some "civitai")
    × ((t : ℕ) → s.last_used ≡ some t → t ≤ cutoff)

may_go-IsStale : (cutoff : ℕ) (f : LoraFile) → may_go cutoff f.sidecar ≡ true → IsStale cutoff f
may_go-IsStale cutoff f h = go f.sidecar refl h
  where
    source_is : (o : Option String) → is_civitai o ≡ true → o ≡ some "civitai"
    source_is none q = absurd (ground (arith, q))
    source_is (some x) q = ap some ((eq_iff x "civitai").0 q)

    go : (o : Option Sidecar) → f.sidecar ≡ o → may_go cutoff o ≡ true → IsStale cutoff f
    go none e q = absurd (ground (arith, q))
    go (some s) e q = (
      s,
      e,
      source_is s.source (ground (arith, q)),
      λ t u. old t (ap (is_recent cutoff) u) (ground (arith, q)),
    )
      where
        old :
            (t : ℕ)
            → is_recent cutoff s.last_used ≡ ltb cutoff t
            → is_recent cutoff s.last_used ≡ false
            → t ≤ cutoff
        old t u v = ground (arith, u, v)

candidate_sound :
    (env : Surroundings) (cutoff : ℕ) (files : List LoraFile) (c : LoraFile)
    → In c (candidates env cutoff files)
    → In c files × IsStale cutoff c × Unused env 0 c.name
unfolding candidates is_candidate
candidate_sound env cutoff files c i =
    let (there, t) =
      select_sound (is_candidate env cutoff) files c
        ((order_by-In (by sort_key) (select (is_candidate env cutoff) files) c).0 i) in
    let go : may_go cutoff c.sidecar ≡ true = ground (arith, t) in
    let free : protected env 0 c.name ≡ false = ground (arith, t) in
    (
      there,
      may_go-IsStale cutoff c go,
      absent-Unused env 0 c.name
          (any-In c.name (non_terminal_lora_names env.loads (env.store_at 0)) free),
    )

module _ (env : Surroundings) (required : ℕ) (f : LoraFile) where
  -- A candidate of the same name was free at a later query.
  abbrev Taken : List LoraFile → Type 0
  Taken cs =
      (c : LoraFile) × In c cs
      × (f.name ≡ c.name)
      × (k : ℕ) × (1 ≤ k)
      × (protected env k c.name ≡ false)

  more :
      (x : LoraFile) (cs : List LoraFile) (files : List LoraFile)
      → In f files ⊎ Taken cs
      → In f files ⊎ Taken (x ∷ cs)
  more x cs files (inl i) = inl i
  more x cs files (inr (c, i, e, k, l, p)) = inr (c, inr i, e, k, l, p)

  evict_spares :
      (k : ℕ) (cs : List LoraFile) (total : ℕ) (files : List LoraFile)
      → 1 ≤ k
      → In f files
      → In f (evict env required k cs total files).1 ⊎ Taken cs
  unfolding evict unlink
  evict_spares k [] total files l i = inl i
  evict_spares k (c ∷ cs) total files l i = elim (Bool-cases (leb required total)) [
    | inl t ↦ rw t (inl i)
    | inr t ↦ elim (Bool-cases (protected env k c.name)) [
      | inl p ↦ rw (t, p) (more c cs _ (evict_spares (suc k) cs total files (omega arith) i))
      | inr p ↦ elim (Bool-cases (env.can_unlink c.name)) [
        | inr u ↦ rw (t, p, u) (more c cs _ (evict_spares (suc k) cs total files (omega arith) i))
        | inl u ↦ elim (Bool-cases (keyed name_of c.name f)) [
          | inl s ↦ inr (c, inl refl, (eq_iff f.name c.name).0 s, k, l, p)
          | inr s ↦
              rw (t, p, u)
                (more c cs _ (
                  evict_spares (suc k) cs (total + size_of c) (unlink c.name files) (omega arith)
                    (select_complete (λ g. not (keyed name_of c.name g)) files f i (ap not s))))
        ]
      ]
    ]
  ]

-- Over files of distinct names, whether the eviction succeeds or not, a file is left where it is
-- unless its sidecar is one of the fetcher with no use after the cutoff, no queued or running job
-- had its name in the list `loras` at the top of its stored input when the candidates were chosen,
-- and none had at a later query. The LoRAs of a video job are not in that list.
pub evict_for-spares :
    (env : Surroundings) (now incoming_size dir_max_bytes recent_use_days : ℕ)
    (files : List LoraFile) (f : LoraFile)
    → Distinct name_of files
    → In f files
    → In f (evict_for env now incoming_size dir_max_bytes recent_use_days files).1
      ⊎ (IsStale (now - recent_use_days * 86400000000) f
          × Unused env 0 f.name
          × (k : ℕ) × (1 ≤ k)
          × Unused env k f.name)
unfolding evict_for
evict_for-spares env now incoming limit days files f d i =
    elim (Bool-cases (leb (incoming + directory_size files) limit)) [
      | inl t ↦ rw t (inl i)
      | inr t ↦
          rw t (
            go
              (evict_spares env required f 1 (candidates env cutoff files) 0 files (omega arith) i))
    ]
  where
    required : ℕ
    required = incoming + directory_size files - limit

    cutoff : ℕ
    cutoff = now - days * 86400000000

    go :
        {B : Type 0}
        → B ⊎ Taken env required f (candidates env cutoff files)
        → B ⊎ (IsStale cutoff f × Unused env 0 f.name × (k : ℕ) × (1 ≤ k) × Unused env k f.name)
    go (inl b) = inl b
    go (inr (c, j, e, k, l, p)) =
        let (there, stale, free) = candidate_sound env cutoff files c j in
        let same : c ≡ f =
          find_unique name_of c.name files c f d (find-In name_of files c d there) i
            ((eq_iff f.name c.name).1 e) in
        inr (
          subst (IsStale cutoff) same stale,
          subst (λ x. Unused env 0 x.name) same free,
          k,
          l,
          subst (λ x. Unused env k x.name) same
              (absent-Unused env k c.name
                (any-In c.name (non_terminal_lora_names env.loads (env.store_at k)) p)),
        )
