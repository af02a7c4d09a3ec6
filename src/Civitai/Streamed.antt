-- ===== src/Civitai/Streamed.antt =====
-- app/loras/civitai.py: while the stream runs, the temporary file holds the bytes that were hashed,
-- and no more than the cap.
use local_image_generator_se.Common.{
  ℕ, ◌≡◌, refl, ap, true, false, ◌&&◌, Option, none, some, List, [], ◌∷◌, arith, ◌≤◌, ◌<◌, ◌-◌, ltb,
  leb, length, length-append, Bool-cases, Option-cases, inl, inr,
}
use local_image_generator_se.Common.Dict.{put, get-put}
use local_image_generator_se.Common.Effect.{
  Ends, bind-Ends, sure-Ends, answer-Ends, ◌>>◌, modify, answer,
}
use local_image_generator_se.Common.Text.{Text, text_eq, text_eq_iff}
use local_image_generator_se.Schema.{LoraFetch, FetchStatus}
use local_image_generator_se.Fetches.{non_terminal, set_progress}
use local_image_generator_se.Civitai.{
  Bytes, Raised, Files, Disk, Fetcher, World, Chunk, Download, refused, stream, on_store, on_files,
  files_of, note_download,
}
use local_image_generator_se.Civitai.Url.{validate_download_url}
use local_image_generator_se.Civitai.Stream.{
  Progress, append_tmp, exceeds_cap, too_slow, recheck_due, disk_short, grown, rechecked, report,
  take_chunk, one_chunk, chunks_loop, at_start, finish, download, stream_download,
  progress_update_every,
}
use local_image_generator_se.Civitai.Row.{IsFrame, Here, progress-Here}

pub files_of-put : (name : Text) (f : Files) (disk : Disk) → files_of name (put name f disk) ≡ f
files_of-put name f disk =
    let same : text_eq name name ≡ true = (text_eq_iff name name).1 refl in
    rw (get-put name name f disk, same) refl

abbrev pub IsDownloading : LoraFetch → Type 0
IsDownloading f = f.status ≡ FetchStatus.downloading

abbrev pub IsOpen : LoraFetch → Type 0
IsOpen f = non_terminal f.status ≡ true

-- The temporary file of the name holds these bytes.
abbrev pub Tmp : Text → Bytes → Disk → Type 0
Tmp name bytes disk = (files_of name disk).tmp ≡ some bytes

-- The count is that of the bytes, and no more than a cap allows.
abbrev pub Sized : World → Progress → Type 0
Sized world p =
    (p.written ≡ length p.hashed) × (0 < world.file_max_bytes → p.written ≤ world.file_max_bytes)

grown-Sized :
    (world : World) (p : Progress) (c : Chunk)
    → Sized world p
    → exceeds_cap world (grown p c).written ≡ false
    → Sized world (grown p c)
unfolding exceeds_cap
grown-Sized world p c (w, cap) e =
    (omega (arith, length-append p.hashed c.bytes), λ pos. ground (arith, pos))

module _ (world : World) (row : LoraFetch) (I : Fetcher → Type 0)
    (frame : IsFrame world row I) where
  abbrev pub Alive : Fetcher → Type 0
  Alive = Here world row I frame IsOpen (λ _. Unit {0})

  abbrev pub Open : Raised → Fetcher → Type 0
  Open e = Alive

  pub alive : (D : Disk → Type 0) (m : Fetcher) → Here world row I frame IsDownloading D m → Alive m
  alive D m ((d, f, s, h, st), _, i) = ((d, f, s, h, rw st refl), tt, i)

module _ (world : World) (row : LoraFetch) (I : Fetcher → Type 0) (frame : IsFrame world row I)
    (name : Text) where
  abbrev pub Streaming : Progress → Fetcher → Type 0
  Streaming p m = Sized world p × Here world row I frame IsDownloading (Tmp name p.hashed) m

  Streaming-Alive : (p : Progress) (m : Fetcher) → Streaming p m → Alive world row I frame m
  Streaming-Alive p m (_, h) = alive world row I frame (Tmp name p.hashed) m h

  report-Ends :
      (p : Progress) (m : Fetcher)
      → Streaming p m
      → Ends Streaming (Open world row I frame) (report world row.id p m)
  unfolding report
  report-Ends p m (z, h) =
      elim (Bool-cases (leb progress_update_every (p.written - p.last_progress_update))) [
        | inr e ↦ rw e (z, h)
        | inl e ↦ rw e (
            sure-Ends (λ _. Here world row I frame IsDownloading (Tmp name p.hashed)) Streaming
              (Open world row I frame) (on_store (set_progress (world.clock 3) row.id p.written)) _
              m
              (progress-Here world row I frame IsDownloading IsDownloading (Tmp name p.hashed)
                (world.clock 3) m p.written (λ f st. st) h)
              (λ _ m' h'. (z, h')))
      ]

  rechecked-Streaming : (p : Progress) (m : Fetcher) → Streaming p m → Streaming (rechecked p) m
  rechecked-Streaming p m h = elim (Bool-cases (recheck_due p)) [ inl e ↦ rw e h | inr e ↦ rw e h ]

  append-Streaming :
      (p : Progress) (c : Chunk) (m : Fetcher)
      → Sized world (grown p c)
      → Streaming p m
      → Streaming (grown p c) (on_files name (append_tmp c.bytes) m)
  append-Streaming p c m z (_, (r, t, i)) = (
    z,
    (
      r,
      rw (files_of-put name (append_tmp c.bytes (files_of name m.disk)) m.disk, t) refl,
      frame.on_scratch m name (append_tmp c.bytes) (λ f. refl) i,
    ),
  )

  take-Ends :
      (size : ℕ) (c : Chunk) (p : Progress) (m : Fetcher)
      → Streaming p m
      → Ends Streaming (Open world row I frame) (take_chunk world row.id name size c p m)
  unfolding take_chunk
  take-Ends size c p m h = elim (Bool-cases (exceeds_cap world (grown p c).written)) [
    | inl over ↦ rw over (Streaming-Alive p m h)
    | inr fits ↦ elim (Option-cases c.on_write) [
      | inr (e, w) ↦ rw (fits, w) (Streaming-Alive p m h)
      | inl w ↦
          let m' = on_files name (append_tmp c.bytes) m in
          let q = grown p c in
          let h' : Streaming q m' = append-Streaming p c m (grown-Sized world p c h.0 fits) h in
          elim (Bool-cases (too_slow q.written c.elapsed)) [
            | inl slow ↦ rw (fits, w, slow) (Streaming-Alive q m' h')
            | inr fast ↦ elim (Bool-cases (recheck_due q && disk_short size q c.free)) [
              | inl short ↦ rw (fits, w, fast, short) (Streaming-Alive q m' h')
              | inr room ↦
                  rw (fits, w, fast, room)
                    (report-Ends (rechecked q) m' (rechecked-Streaming q m' h'))
            ]
          ]
    ]
  ]

  one-Ends :
      (size : ℕ) (c : Chunk) (p : Progress) (m : Fetcher)
      → Streaming p m
      → Ends Streaming (Open world row I frame) (one_chunk world row.id name size c p m)
  unfolding one_chunk
  one-Ends size c p m h = elim (Bool-cases (ltb 0 (length c.bytes))) [
    | inl e ↦ rw e (take-Ends size c p m h)
    | inr e ↦ rw e h
  ]

  loop-Ends :
      (size : ℕ) (cs : List Chunk) (e : Option Raised) (p : Progress) (m : Fetcher)
      → Streaming p m
      → Ends Streaming (Open world row I frame) (chunks_loop world row.id name size cs e p m)
  unfolding chunks_loop
  loop-Ends size [] none p m h = h
  loop-Ends size [] (some e) p m h = Streaming-Alive p m h
  loop-Ends size (c ∷ cs) e p m h =
      bind-Ends Streaming Streaming (Open world row I frame) (one_chunk world row.id name size c p)
        _ m (one-Ends size c p m h) (λ q m' h'. loop-Ends size cs e q m' h')

  -- What a download that ends leaves: the hash is that of the bytes in the temporary file.
  abbrev pub Streamed : Text → Fetcher → Type 0
  Streamed sha m =
      (bytes : Bytes) × (world.sha256 bytes ≡ sha)
      × (0 < world.file_max_bytes → length bytes ≤ world.file_max_bytes)
      × Here world row I frame IsDownloading (Tmp name bytes) m

  finish-Ends :
      (p : Progress) (m : Fetcher)
      → Streaming p m
      → Ends Streamed (Open world row I frame) (finish world row.id p m)
  finish-Ends p m ((w, cap), h) =
      sure-Ends (λ _. Here world row I frame IsDownloading (Tmp name p.hashed)) Streamed
        (Open world row I frame) (on_store (set_progress (world.clock 4) row.id p.written)) _ m
        (progress-Here world row I frame IsDownloading IsDownloading (Tmp name p.hashed)
          (world.clock 4) m p.written (λ f st. st) h)
        (λ _ m' h'. (p.hashed, refl, (λ pos. omega (arith, cap pos, w)), h'))

  opened :
      (m : Fetcher) (D : Disk → Type 0)
      → Here world row I frame IsDownloading D m
      → Streaming at_start (on_files name (λ f. record f { tmp = some [] }) m)
  opened m D (r, _, i) = (
    (refl, λ pos. omega arith),
    (
      r,
      ap (λ (f : Files). f.tmp)
          (files_of-put name (record (files_of name m.disk) { tmp = some [] }) m.disk),
      frame.on_scratch m name (λ f. record f { tmp = some [] }) (λ f. refl) i,
    ),
  )

  download-Ends :
      (size : ℕ) (reply : Download) (m : Fetcher) (D : Disk → Type 0)
      → Here world row I frame IsDownloading D m
      → Ends Streamed (Open world row I frame) (download world row.id name size reply m)
  unfolding download
  download-Ends size (refused e) m D h = alive world row I frame D m h
  download-Ends size (stream chunks e) m D h =
      bind-Ends Streaming Streamed (Open world row I frame)
        (answer world.on_mkdir
          >> modify (on_files name λ f. record f { tmp = some [] })
          >> chunks_loop world row.id name size chunks e at_start)
        (finish world row.id) m
        (bind-Ends (λ _. Streaming at_start) Streaming (Open world row I frame)
          (answer world.on_mkdir >> modify (on_files name λ f. record f { tmp = some [] }))
          (λ _. chunks_loop world row.id name size chunks e at_start) m
          (answer-Ends (λ _. Streaming at_start) (Open world row I frame) world.on_mkdir _ m
            (λ _ _. opened m D h) (λ _ _. alive world row I frame D m h))
          (λ _ m' h'. loop-Ends size chunks e at_start m' h'))
        (λ p m' h'. finish-Ends p m' h')

  -- A stream from an allowed URL ends with the bytes of the hash, or with the row still open.
  pub stream_download-Ends :
      (url : Text) (size : ℕ) (m : Fetcher) (D : Disk → Type 0)
      → validate_download_url (world.urlparse url) ≡ true
      → Here world row I frame IsDownloading D m
      → Ends Streamed (Open world row I frame) (stream_download world row.id url name size m)
  unfolding stream_download
  stream_download-Ends url size m D v (r, dd, i) =
      download-Ends size (world.on_stream url) (note_download world url m) D
        (r, dd, frame.on_download m url v i)
