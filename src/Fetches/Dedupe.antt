-- ===== src/Fetches/Dedupe.antt =====
-- app/queue/fetches.py: two requests for one version of a LoRA.
use local_image_generator_se.Common.{
  ℕ, String, ◌≡◌, Option, some, [], ◌∷◌, arith, Option-cases, inl, inr,
}
use local_image_generator_se.Common.Table.{find, find-append_none}
use local_image_generator_se.Schema.{Database, LoraFetch, integrity}
use local_image_generator_se.Store.{ok, err, connected}
use local_image_generator_se.Fetches.{
  has_request_id, active_version, pending_row, create_pending, find_active_by_version,
}

fresh_active :
    (now : ℕ) (k url : String) (m : Option ℕ) (v : ℕ)
    → find (active_version v) (pending_row now k url m v ∷ []) ≡ some (pending_row now k url m v)
unfolding find pending_row
fresh_active now k url m v = ground arith

created :
    (now : ℕ) (k url : String) (m : Option ℕ) (v : ℕ) (d d' : Database) (row : LoraFetch)
    → create_pending now k url m v (connected d) ≡ (ok row, connected d')
    → find (active_version v) d'.lora_fetches ≡ some row
unfolding create_pending find
created now k url m v d d' row h = elim (Option-cases (find (has_request_id k) d.lora_fetches)) [
  | inr (f, e) ↦ absurd (ground (arith, h, e))
  | inl n ↦ elim (Option-cases (find (active_version v) d.lora_fetches)) [
    | inr (f, e) ↦ absurd (ground (arith, h, e, n))
    | inl a ↦ ground (
      arith,
      h,
      n,
      a,
      find-append_none (active_version v) d.lora_fetches (pending_row now k url m v ∷ []) a,
      fresh_active now k url m v,
    )
  ]
]

-- After one request for a version was let in, the search for the active fetch of the version gives
-- its row, and any other request for the version is refused and changes nothing.
pub create_pending_dedupe :
    (now : ℕ) (k url : String) (m : Option ℕ) (v : ℕ) (d d' : Database) (row : LoraFetch)
    → create_pending now k url m v (connected d) ≡ (ok row, connected d')
    → (find_active_by_version v (connected d') ≡ (ok (some row), connected d'))
      × ((later : ℕ) (k' url' : String) (m' : Option ℕ)
          → create_pending later k' url' m' v (connected d') ≡ (err integrity, connected d'))
unfolding find_active_by_version create_pending
create_pending_dedupe now k url m v d d' row h =
    let there = created now k url m v d d' row h in
    (
      rw there,
      λ later k' url' m'. elim (Option-cases (find (has_request_id k') d'.lora_fetches)) [
        | inl n ↦ rw (n, there)
        | inr (f, e) ↦ rw e
      ],
    )
