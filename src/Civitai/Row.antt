-- ===== src/Civitai/Row.antt =====
-- app/loras/civitai.py: the row of the request while the fetch runs, and what the steps keep.
use local_image_generator_se.Common.{
  ℕ, String, ◌≡◌, refl, ◌∙◌, Bool, true, some, List, ◌≤◌, ◌<◌, length,
}
use local_image_generator_se.Common.Effect.{returned, Ends}
use local_image_generator_se.Common.Table.{find, set_where, find-update, find_sound}
use local_image_generator_se.Common.Text.{Text}
use local_image_generator_se.Schema.{Database, LoraFetch, FetchStatus}
use local_image_generator_se.Store.{JobStore, Exec, connected, ok}
use local_image_generator_se.Fetches.{
  has_request_id, allowed_transitions, update_fetch, change_status, fetch_status, assert_allowed,
  as_status, as_failed, set_status, set_failed, set_total_bytes, set_progress, set_dest_name,
}
use local_image_generator_se.Eviction.{LoraFile}
use local_image_generator_se.Civitai.{
  Bytes, Json, Files, Disk, Fetcher, World, on_store, on_files, files_of, note_request,
  note_download,
}
use local_image_generator_se.Civitai.Url.{validate_download_url}
use local_image_generator_se.Civitai.Metadata.{FileEntry, metadata_request, pick_primary_file}
use local_image_generator_se.Civitai.Room.{remaining}
use local_image_generator_se.Civitai.Fetch.{canonical_name, sha_expected, install}

-- The store is connected, and its row of this request is such.
abbrev pub Row : String → (LoraFetch → Type 0) → Fetcher → Type 0
Row k P m =
    (d : Database) × (f : LoraFetch) × (m.store ≡ connected d)
    × (find (has_request_id k) d.lora_fetches ≡ some f)
    × P f

-- The bytes that the metadata answers for, and that are no more than a cap allows.
pub record IsVerified (world : World) (row : LoraFetch) (entry : FileEntry) (bytes : Bytes)
    : Type 0 where
  pub attempt : ℕ
  pub metadata : Json
  pub answered : world.on_get attempt ≡ returned metadata
  pub picked : pick_primary_file world metadata ≡ returned entry
  pub hashed : world.sha256 bytes ≡ sha_expected entry
  pub within : 0 < world.file_max_bytes → length bytes ≤ world.file_max_bytes

-- A predicate that every step of the fetch of a row keeps.
pub record IsFrame (world : World) (row : LoraFetch) (I : Fetcher → Type 0) : Type 0 where
  pub on_row : (m : Fetcher) (s : JobStore) → I m → I (record m { store = s })
  pub on_metadata :
      (m : Fetcher) → I m → I (note_request (metadata_request world row.civitai_version_id) m)
  pub on_download :
      (m : Fetcher) (url : Text)
      → validate_download_url (world.urlparse url) ≡ true
      → I m
      → I (note_download world url m)
  pub on_scratch :
      (m : Fetcher) (name : Text) (g : Files → Files)
      → ((f : Files) → (g f).safetensors ≡ f.safetensors)
      → I m
      → I (on_files name g m)
  pub on_sweep :
      (m : Fetcher) (files : List LoraFile)
      → I m
      → I (record m { disk = remaining world files m.disk })
  pub on_install :
      (m : Fetcher) (entry : FileEntry) (bytes : Bytes)
      → IsVerified world row entry bytes
      → (files_of (canonical_name row entry) m.disk).tmp ≡ some bytes
      → I m
      → I (on_files (canonical_name row entry) install m)

find-updated :
    (k : String) (g : LoraFetch → LoraFetch) (d : Database) (f : LoraFetch)
    → ((x : LoraFetch) → (g x).id ≡ x.id)
    → find (has_request_id k) d.lora_fetches ≡ some f
    → find (has_request_id k) (update_fetch k g d).lora_fetches ≡ some (g f)
unfolding set_where
find-updated k g d f hi e =
    let here : has_request_id k f ≡ true = (find_sound (has_request_id k) d.lora_fetches f e).1 in
    find-update (has_request_id k) (has_request_id k) g d.lora_fetches (λ x. rw (hi x) refl)
    ∙ rw (e, here) refl

module _ (world : World) (row : LoraFetch) (I : Fetcher → Type 0)
    (frame : IsFrame world row I) where
  -- What holds of the row, of the disk, and the predicate.
  abbrev pub Here : (LoraFetch → Type 0) → (Disk → Type 0) → Fetcher → Type 0
  Here P D m = Row row.id P m × D m.disk × I m

  -- A statement that changes the row alone, and does not raise where the row is such.
  pub step-Here :
      (P Q : LoraFetch → Type 0) (D : Disk → Type 0) (g : LoraFetch → LoraFetch)
      (x : Exec (Unit {0})) (m : Fetcher)
      → ((d : Database) (f : LoraFetch)
          → find (has_request_id row.id) d.lora_fetches ≡ some f
          → P f
          → x (connected d) ≡ (ok tt, connected (update_fetch row.id g d)))
      → ((f : LoraFetch) → (g f).id ≡ f.id)
      → ((f : LoraFetch) → P f → Q (g f))
      → Here P D m
      → Ends (λ _. Here Q D) (λ _ _. ⊥) (on_store x m)
  step-Here P Q D g x m hx hi hq ((d, f, s, e, p), dd, i) =
      rw (s, hx d f e p)
        (
          (update_fetch row.id g d, g f, refl, find-updated row.id g d f hi e, hq f p),
          dd,
          frame.on_row m (connected (update_fetch row.id g d)) i,
        )

change_allowed :
    (k : String) (t : FetchStatus) (g : LoraFetch → LoraFetch) (d : Database) (f : LoraFetch)
    → find (has_request_id k) d.lora_fetches ≡ some f
    → allowed_transitions f.status t ≡ true
    → change_status k t g d ≡ ok (tt, update_fetch k g d)
unfolding change_status fetch_status assert_allowed
change_allowed k t g d f e a = rw (e, a) refl

module _ (world : World) (row : LoraFetch) (I : Fetcher → Type 0) (frame : IsFrame world row I)
    (P Q : LoraFetch → Type 0) (D : Disk → Type 0) (now : ℕ) (m : Fetcher) where
  pub status-Here :
      (t : FetchStatus)
      → ((f : LoraFetch) → P f → allowed_transitions f.status t ≡ true)
      → ((f : LoraFetch) → P f → Q (as_status now t f))
      → Here world row I frame P D m
      → Ends (λ _. Here world row I frame Q D) (λ _ _. ⊥) (on_store (set_status now row.id t) m)
  unfolding set_status as_status
  status-Here t a q h =
      step-Here world row I frame P Q D (as_status now t) (set_status now row.id t) m
        (λ d f e p. rw (change_allowed row.id t (as_status now t) d f e (a f p)) refl) (λ f. refl) q
        h

  pub failed-Here :
      (code message : String) (handover : Bool)
      → ((f : LoraFetch) → P f → allowed_transitions f.status FetchStatus.failed ≡ true)
      → ((f : LoraFetch) → P f → Q (as_failed now code message handover f))
      → Here world row I frame P D m
      → Ends
          (λ _. Here world row I frame Q D)
          (λ _ _. ⊥)
          (on_store (set_failed now row.id code message handover) m)
  unfolding set_failed as_failed
  failed-Here code message handover a q h =
      step-Here world row I frame P Q D (as_failed now code message handover)
        (set_failed now row.id code message handover) m
        (λ d f e p.
          rw
            (change_allowed row.id FetchStatus.failed (as_failed now code message handover) d f e
              (a f p))
            refl)
        (λ f. refl) q h

  pub dest-Here :
      (name : String)
      → ((f : LoraFetch) → P f → Q (record f { dest_name = some name; updated_at = now }))
      → Here world row I frame P D m
      → Ends
          (λ _. Here world row I frame Q D)
          (λ _ _. ⊥)
          (on_store (set_dest_name now row.id name) m)
  unfolding set_dest_name
  dest-Here name q h =
      step-Here world row I frame P Q D (λ f. record f { dest_name = some name; updated_at = now })
        (set_dest_name now row.id name) m (λ d f e p. refl) (λ f. refl) q h

  pub total-Here :
      (n : ℕ)
      → ((f : LoraFetch) → P f → Q (record f { total_bytes = some n; updated_at = now }))
      → Here world row I frame P D m
      → Ends
          (λ _. Here world row I frame Q D)
          (λ _ _. ⊥)
          (on_store (set_total_bytes now row.id n) m)
  unfolding set_total_bytes
  total-Here n q h =
      step-Here world row I frame P Q D (λ f. record f { total_bytes = some n; updated_at = now })
        (set_total_bytes now row.id n) m (λ d f e p. refl) (λ f. refl) q h

  pub progress-Here :
      (n : ℕ)
      → ((f : LoraFetch) → P f → Q (record f { progress_bytes = n; updated_at = now }))
      → Here world row I frame P D m
      → Ends (λ _. Here world row I frame Q D) (λ _ _. ⊥) (on_store (set_progress now row.id n) m)
  unfolding set_progress
  progress-Here n q h =
      step-Here world row I frame P Q D (λ f. record f { progress_bytes = n; updated_at = now })
        (set_progress now row.id n) m (λ d f e p. refl) (λ f. refl) q h
