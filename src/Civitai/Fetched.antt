-- ===== src/Civitai/Fetched.antt =====
-- app/loras/civitai.py: a fetch from its first status change to its end.
use local_image_generator_se.Common.{
  ℕ, suc, zero, String, ◌≡◌, refl, true, Option, none, some, ◌*◌, ◌&&◌, ltb, Bool-cases,
  Option-cases, inl, inr,
}
use local_image_generator_se.Common.Effect.{
  returned, Ends, sure-Ends, bind-Ends, Outcome-cases, try_else-Ends, ◌>>◌, answer,
}
use local_image_generator_se.Common.Text.{Text}
use local_image_generator_se.Schema.{LoraFetch, FetchStatus}
use local_image_generator_se.Fetches.{allowed_transitions, as_status}
use local_image_generator_se.Civitai.{
  Json, Raised, fetching_metadata, picking, sizing, evicting, checking_url, value_error, Fetcher,
  World, on_files, files_of, note_request, streaming,
}
use local_image_generator_se.Civitai.Url.{validate_download_url}
use local_image_generator_se.Civitai.Metadata.{
  FileEntry, pick_primary_file, attempts, fetch_metadata, metadata_request, is_retryable,
}
use local_image_generator_se.Civitai.Stream.{stream_download}
use local_image_generator_se.Civitai.Room.{make_room}
use local_image_generator_se.Civitai.Fetch.{
  canonical_name, caught, caught_download, download_failure, metadata_failure, pick_failure,
  download_file, with_room, place, check_size, note_total, expected_size, picked, pick, fetch,
  verify, to,
}
use local_image_generator_se.Civitai.Row.{IsFrame, Here, total-Here, status-Here}
use local_image_generator_se.Civitai.Streamed.{
  IsDownloading, Alive, Open, alive, Streamed, stream_download-Ends,
}
use local_image_generator_se.Civitai.Settled.{Settled, Settles, fail-Settles, caught-Settles}
use local_image_generator_se.Civitai.Written.{verify-Settles, already_there-Settles}

module _ (world : World) (row : LoraFetch) (I : Fetcher → Type 0)
    (frame : IsFrame world row I) where
  -- The row is being downloaded, whatever the disk.
  abbrev pub Running : Fetcher → Type 0
  Running = Here world row I frame IsDownloading (λ _. Unit {0})

  caught_download-Settles :
      (name : Text) (e : Raised) (code : Option String) (m : Fetcher)
      → Alive world row I frame m
      → Settles world row I frame (caught_download world row name e code m)
  caught_download-Settles name e none m h = h
  caught_download-Settles name e (some code) m (r, _, i) =
      fail-Settles world row I frame streaming (some e) code
        (on_files name (λ g. record g { tmp = none }) m)
        (r, tt, frame.on_scratch m name (λ g. record g { tmp = none }) (λ g. refl) i)

  module _ (k : ℕ) (metadata : Json) (entry : FileEntry)
      (answered : world.on_get k ≡ returned metadata)
      (chosen : pick_primary_file world metadata ≡ returned entry) where
    download_file-Settles :
        (size : ℕ) (m : Fetcher)
        → Running m
        → Settles world row I frame (download_file world row metadata entry size m)
    unfolding download_file
    download_file-Settles size m h =
        let name = canonical_name row entry in
        elim (Bool-cases (validate_download_url (world.urlparse entry.download_url))) [
          | inr bad ↦ rw bad (
              fail-Settles world row I frame checking_url (some value_error) "validation_error" m
                (alive world row I frame (λ _. Unit {0}) m h))
          | inl good ↦ rw good (
              try_else-Ends (Streamed world row I frame name) (Open world row I frame)
                (λ _. Settled world row I frame) (Open world row I frame)
                (stream_download world row.id entry.download_url name size)
                (verify world row metadata entry)
                (λ e. caught_download world row name e (download_failure e)) m
                (stream_download-Ends world row I frame name entry.download_url size m
                  (λ _. Unit {0}) good h)
                (λ sha m' s.
                  verify-Settles world row I frame k metadata entry sha m' answered chosen s)
                (λ e m' a. caught_download-Settles name e (download_failure e) m' a))
        ]

    make_room-Ends :
        (needed : ℕ) (m : Fetcher)
        → Running m
        → Ends (λ _. Running) (λ _ _. ⊥) (make_room world needed m)
    unfolding make_room
    make_room-Ends needed m (r, _, i) = elim (Bool-cases (ltb world.free needed)) [
      | inl short ↦ rw short (r, tt, frame.on_sweep m _ i)
      | inr room ↦ rw room (r, tt, i)
    ]

    with_room-Settles :
        (size : ℕ) (m : Fetcher)
        → Running m
        → Settles world row I frame (with_room world row metadata entry size m)
    unfolding with_room
    with_room-Settles size m h =
        sure-Ends (λ _. Running) (λ _. Settled world row I frame) (Open world row I frame)
          (make_room world (size * 2)) _ m (make_room-Ends (size * 2) m h)
          (λ fits m' h'. elim (Bool-cases fits) [
            | inl e ↦ rw e (download_file-Settles size m' h')
            | inr e ↦ rw e (
                fail-Settles world row I frame evicting none "insufficient_storage" m'
                  (alive world row I frame (λ _. Unit {0}) m' h'))
          ])

    place-Settles :
        (size : ℕ) (m : Fetcher)
        → Running m
        → Settles world row I frame (place world row metadata entry size m)
    unfolding place
    place-Settles size m (r, _, i) =
        let files = files_of (canonical_name row entry) m.disk in
        elim (Option-cases files.safetensors) [
          | inl e ↦ rw e (with_room-Settles size m (r, tt, i))
          | inr (bytes, e) ↦
              rw e
                (already_there-Settles world row I frame metadata entry files m (r, (bytes, e), i))
        ]

    note_total-Ends :
        (size : ℕ) (m : Fetcher)
        → Running m
        → Ends (λ _. Running) (λ _ _. ⊥) (note_total world row size m)
    note_total-Ends size m h = elim (Bool-cases (ltb 0 size)) [
      | inl e ↦ rw e (
          total-Here world row I frame IsDownloading IsDownloading (λ _. Unit {0}) (world.clock 1) m
            size (λ f s. s) h)
      | inr e ↦ rw e h
    ]

    mkdir-Ends :
        (m : Fetcher)
        → Running m
        → Ends (λ _. Running) (Open world row I frame) (answer world.on_mkdir m)
    mkdir-Ends m h = elim (Outcome-cases world.on_mkdir) [
      | inl (a, e) ↦ rw e h
      | inr (x, e) ↦ rw e (alive world row I frame (λ _. Unit {0}) m h)
    ]

    check_size-Settles :
        (size : ℕ) (m : Fetcher)
        → Running m
        → Settles world row I frame (check_size world row metadata entry size m)
    unfolding check_size
    check_size-Settles size m h = elim (Bool-cases (ltb world.file_max_bytes size)) [
      | inl e ↦ rw e (
          fail-Settles world row I frame sizing none "lora_too_large" m
            (alive world row I frame (λ _. Unit {0}) m h))
      | inr e ↦ rw e (
          bind-Ends (λ _. Running) (λ _. Settled world row I frame) (Open world row I frame)
            (note_total world row size >> answer world.on_mkdir)
            (λ _. place world row metadata entry size) m
            (sure-Ends (λ _. Running) (λ _. Running) (Open world row I frame)
              (note_total world row size) (λ _. answer world.on_mkdir) m (note_total-Ends size m h)
              (λ _ m' h'. mkdir-Ends m' h'))
            (λ _ m' h'. place-Settles size m' h'))
    ]

    expected_size-Ends :
        (size_kb : Option Json) (m : Fetcher)
        → Running m
        → Ends (λ _. Running) (Open world row I frame) (expected_size world size_kb m)
    unfolding expected_size
    expected_size-Ends none m h = h
    expected_size-Ends (some v) m h = elim (Outcome-cases (world.times_1024 v)) [
      | inl (a, e) ↦ rw e h
      | inr (x, e) ↦ rw e (alive world row I frame (λ _. Unit {0}) m h)
    ]

    picked-Settles :
        (m : Fetcher) → Running m → Settles world row I frame (picked world row metadata entry m)
    picked-Settles m h =
        bind-Ends (λ _. Running) (λ _. Settled world row I frame) (Open world row I frame)
          (expected_size world entry.size_kb) (check_size world row metadata entry) m
          (expected_size-Ends entry.size_kb m h) (λ size m' h'. check_size-Settles size m' h')

  -- Metadata that an attempt answered.
  abbrev Answered : Json → Fetcher → Type 0
  Answered metadata m = ((k : ℕ) × (world.on_get k ≡ returned metadata)) × Running m

  pick-Settles :
      (metadata : Json) (m : Fetcher)
      → Answered metadata m
      → Settles world row I frame (pick world row metadata m)
  unfolding pick
  pick-Settles metadata m ((k, answered), h) =
      elim (Outcome-cases (pick_primary_file world metadata)) [
        | inl (entry, e) ↦ rw e (picked-Settles k metadata entry answered e m h)
        | inr (x, e) ↦ rw e (
            caught-Settles world row I frame picking x (pick_failure x) m
              (alive world row I frame (λ _. Unit {0}) m h))
      ]

  attempts-Ends :
      (left k : ℕ) (m : Fetcher)
      → Running m
      → Ends Answered (Open world row I frame) (attempts world row.civitai_version_id k left m)
  unfolding attempts
  attempts-Ends zero k m h = alive world row I frame (λ _. Unit {0}) m h
  attempts-Ends (suc left) k m (r, _, i) =
      let sent = note_request (metadata_request world row.civitai_version_id) m in
      let h : Running sent = (r, tt, frame.on_metadata m i) in
      elim (Outcome-cases (world.on_get k)) [
        | inl (metadata, e) ↦ rw e ((k, e), h)
        | inr (x, e) ↦ elim (Bool-cases (is_retryable x && ltb 0 left)) [
          | inl t ↦ rw (e, t) (attempts-Ends left (suc k) sent h)
          | inr f ↦ rw (e, f) (alive world row I frame (λ _. Unit {0}) sent h)
        ]
      ]

  -- A pending row that is fetched settles, or something unforeseen is raised while it is open.
  pub fetch-Settles :
      (m : Fetcher)
      → Here world row I frame (λ f. f.status ≡ FetchStatus.pending) (λ _. Unit {0}) m
      → Settles world row I frame (fetch world row m)
  unfolding fetch fetch_metadata as_status allowed_transitions
  fetch-Settles m h =
      sure-Ends (λ _. Running) (λ _. Settled world row I frame) (Open world row I frame)
        (to world 0 row FetchStatus.downloading) _ m
        (status-Here world row I frame (λ f. f.status ≡ FetchStatus.pending) IsDownloading
          (λ _. Unit {0}) (world.clock 0) m FetchStatus.downloading pending_allowed (λ f _. refl) h)
        (λ _ m' h'.
          try_else-Ends Answered (Open world row I frame) (λ _. Settled world row I frame)
            (Open world row I frame) (fetch_metadata world row.civitai_version_id) (pick world row)
            (λ e. caught world row fetching_metadata e (metadata_failure e)) m'
            (attempts-Ends 3 1 m' h') pick-Settles
            (λ e m'' a.
              caught-Settles world row I frame fetching_metadata e (metadata_failure e) m'' a))
    where
      pending_allowed :
          (f : LoraFetch)
          → f.status ≡ FetchStatus.pending
          → allowed_transitions f.status FetchStatus.downloading ≡ true
      pending_allowed f p = rw p refl
