-- ===== src/Civitai/Written.antt =====
-- app/loras/civitai.py: the last steps of a fetch, where the file is already there and where it was
-- downloaded.
use local_image_generator_se.Common.{
  ℕ, ◌≡◌, refl, ap, ◌∙◌, none, some, is_none, Bool-cases, inl, inr,
}
use local_image_generator_se.Common.Effect.{
  returned, Ends, sure-Ends, bind-Ends, weaken-Ends, answer-Ends, ◌>>◌,
}
use local_image_generator_se.Common.Text.{Text, text_eq, text_eq_iff}
use local_image_generator_se.Schema.{LoraFetch, FetchStatus, verifying}
use local_image_generator_se.Fetches.{as_status, set_dest_name}
use local_image_generator_se.Civitai.{
  Bytes, Json, comparing, Document, Files, Fetcher, World, on_store, on_files, files_of,
}
use local_image_generator_se.Civitai.Metadata.{
  FileEntry, pick_primary_file, write_sidecar, sidecar_of,
}
use local_image_generator_se.Civitai.Fetch.{
  canonical_name, sha_expected, fail, to, install, replace, finish, verify, already_there,
  unlink_quiet, backfill, named,
}
use local_image_generator_se.Civitai.Row.{IsFrame, IsVerified, Here, status-Here, dest-Here}
use local_image_generator_se.Civitai.Streamed.{
  IsDownloading, IsOpen, Tmp, Open, Streamed, files_of-put,
}
use local_image_generator_se.Civitai.Settled.{
  Stands, Settled, Settles, fail-Settles, IsVerifying, IsNamed, verifying_allowed, finish-Settles,
  to_done,
}

module _ (world : World) (row : LoraFetch) (I : Fetcher → Type 0)
    (frame : IsFrame world row I) where
  -- A sidecar is written, and the other two files stay.
  sidecar-Here :
      (P : LoraFetch → Type 0) (X : Files → Type 0) (name : Text) (document : Document)
      (m : Fetcher)
      → ((f : LoraFetch) → P f → IsOpen f)
      → ((f : Files) → X f → X (record f { sidecar = some document }))
      → Here world row I frame P (λ disk. X (files_of name disk)) m
      → Ends
          (λ _. Here world row I frame P (λ disk. X (files_of name disk)))
          (Open world row I frame)
          (write_sidecar world name document m)
  unfolding write_sidecar
  sidecar-Here P X name document m po hx ((d, f, s, e, p), x, i) =
      answer-Ends (λ _. Here world row I frame P (λ disk. X (files_of name disk)))
        (Open world row I frame) world.on_sidecar _ m
        (λ _ _. (
          (d, f, s, e, p),
          rw (files_of-put name (record (files_of name m.disk) { sidecar = some document }) m.disk)
              (hx (files_of name m.disk) x),
          frame.on_scratch m name (λ g. record g { sidecar = some document }) (λ g. refl) i,
        ))
        (λ _ _. ((d, f, s, e, po f p), tt, i))

  IsVerifying-IsOpen : (f : LoraFetch) → IsVerifying f → IsOpen f
  IsVerifying-IsOpen f h = rw h refl

  IsDownloading-IsOpen : (f : LoraFetch) → IsDownloading f → IsOpen f
  IsDownloading-IsOpen f h = rw h refl

  replace-Here :
      (entry : FileEntry) (bytes : Bytes) (m : Fetcher)
      → let name = canonical_name row entry in
        IsVerified world row entry bytes
        → Here world row I frame IsVerifying (Tmp name bytes) m
        → Ends
            (λ _. Here world row I frame IsVerifying (Stands name))
            (Open world row I frame)
            (replace world name m)
  replace-Here entry bytes m v ((d, f, s, e, p), t, i) =
      let name = canonical_name row entry in
      answer-Ends (λ _. Here world row I frame IsVerifying (Stands name)) (Open world row I frame)
        world.on_replace _ m
        (λ _ _. (
          (d, f, s, e, p),
          (
            bytes,
            ap (λ (g : Files). g.safetensors)
                  (files_of-put name (install (files_of name m.disk)) m.disk)
                ∙ t,
          ),
          frame.on_install m entry bytes v t i,
        ))
        (λ _ _. ((d, f, s, e, IsVerifying-IsOpen f p), tt, i))

  -- Where the hashes agree.
  install-Settles :
      (entry : FileEntry) (bytes : Bytes) (document : Document) (m : Fetcher)
      → let name = canonical_name row entry in
        IsVerified world row entry bytes
        → Here world row I frame IsVerifying (Tmp name bytes) m
        → Settles world row I frame
            ((write_sidecar world name document >> replace world name >> finish world row name) m)
  install-Settles entry bytes document m v h =
      let name = canonical_name row entry in
      bind-Ends (λ _. Here world row I frame IsVerifying (Stands name))
        (λ _. Settled world row I frame) (Open world row I frame)
        (write_sidecar world name document >> replace world name) (λ _. finish world row name) m
        (bind-Ends (λ _. Here world row I frame IsVerifying (Tmp name bytes))
          (λ _. Here world row I frame IsVerifying (Stands name)) (Open world row I frame)
          (write_sidecar world name document) (λ _. replace world name) m
          (sidecar-Here IsVerifying (λ g. g.tmp ≡ some bytes) name document m IsVerifying-IsOpen
            (λ g t. t) h)
          (λ _ m' h'. replace-Here entry bytes m' v h'))
        (λ _ m' h'. finish-Settles world row I frame name m' h')

  -- Where they differ.
  mismatch-Settles :
      (name : Text) (bytes : Bytes) (expected actual : Text) (m : Fetcher)
      → Here world row I frame IsVerifying (Tmp name bytes) m
      → Settles world row I frame
          ((unlink_quiet name >> fail world row (comparing expected actual) none "sha_mismatch") m)
  mismatch-Settles name bytes expected actual m ((d, f, s, e, p), t, i) =
      fail-Settles world row I frame (comparing expected actual) none "sha_mismatch"
        (on_files name (λ g. record g { tmp = none }) m)
        (
          (d, f, s, e, IsVerifying-IsOpen f p),
          tt,
          frame.on_scratch m name (λ g. record g { tmp = none }) (λ g. refl) i,
        )

  -- What was downloaded is verified: it is installed, or the row fails.
  pub verify-Settles :
      (k : ℕ) (metadata : Json) (entry : FileEntry) (actual : Text) (m : Fetcher)
      → world.on_get k ≡ returned metadata
      → pick_primary_file world metadata ≡ returned entry
      → Streamed world row I frame (canonical_name row entry) actual m
      → Settles world row I frame (verify world row metadata entry actual m)
  unfolding verify as_status
  verify-Settles k metadata entry actual m answered picked (bytes, hashed, within, h) =
      let name = canonical_name row entry in
      sure-Ends (λ _. Here world row I frame IsVerifying (Tmp name bytes))
        (λ _. Settled world row I frame) (Open world row I frame) (to world 6 row verifying) _ m
        (status-Here world row I frame IsDownloading IsVerifying (Tmp name bytes) (world.clock 6) m
          verifying verifying_allowed (λ f _. refl) h)
        (λ _ m' h'. elim (Bool-cases (text_eq actual (sha_expected entry))) [
          | inl same ↦ rw same (
              install-Settles entry bytes
                (sidecar_of world name (sha_expected entry) row.civitai_model_id
                  row.civitai_version_id metadata)
                m'
                (record {
                  attempt = k;
                  metadata = metadata;
                  answered = answered;
                  picked = picked;
                  hashed = hashed ∙ (text_eq_iff actual (sha_expected entry)).0 same;
                  within = within;
                })
                h')
          | inr other ↦ rw other (mismatch-Settles name bytes (sha_expected entry) actual m' h')
        ])

  named-Settles :
      (name : Text) (m : Fetcher)
      → Here world row I frame IsDownloading (Stands name) m
      → Settles world row I frame (named world row name m)
  unfolding as_status
  named-Settles name m h =
      let dest = world.name_text name in
      let at = Here world row I frame in
      bind-Ends (λ _. at (IsNamed verifying dest) (Stands name)) (λ _. Settled world row I frame)
        (Open world row I frame)
        (on_store (set_dest_name (world.clock 5) row.id dest) >> to world 6 row verifying)
        (λ _. to world 7 row FetchStatus.done) m
        (sure-Ends (λ _. at (IsNamed FetchStatus.downloading dest) (Stands name))
          (λ _. at (IsNamed verifying dest) (Stands name)) (Open world row I frame)
          (on_store (set_dest_name (world.clock 5) row.id dest)) (λ _. to world 6 row verifying) m
          (dest-Here world row I frame IsDownloading (IsNamed FetchStatus.downloading dest)
            (Stands name) (world.clock 5) m dest (λ f s. (s, refl)) h)
          (λ _ m' h'.
            weaken-Ends (λ _. at (IsNamed verifying dest) (Stands name))
              (λ _. at (IsNamed verifying dest) (Stands name)) (λ _ _. ⊥) (Open world row I frame) _
              (status-Here world row I frame (IsNamed FetchStatus.downloading dest)
                (IsNamed verifying dest) (Stands name) (world.clock 6) m' verifying
                (λ f n. verifying_allowed f n.0) (λ f n. (refl, n.1)) h')
              (λ _ _ x. x) (λ _ _ b. absurd b)))
        (λ _ m' h'. to_done world row I frame name m' h')

  backfill-Ends :
      (name : Text) (document : Document) (files : Files) (m : Fetcher)
      → Here world row I frame IsDownloading (Stands name) m
      → Ends
          (λ _. Here world row I frame IsDownloading (Stands name))
          (Open world row I frame)
          (backfill world name document files m)
  backfill-Ends name document files m h = elim (Bool-cases (is_none files.sidecar)) [
    | inr there ↦ rw there h
    | inl missing ↦ rw missing (
        sidecar-Here IsDownloading (λ g. (bytes : Bytes) × (g.safetensors ≡ some bytes)) name
          document m IsDownloading-IsOpen (λ g x. x) h)
  ]

  -- A file that stands already is taken as it is.
  pub already_there-Settles :
      (metadata : Json) (entry : FileEntry) (files : Files) (m : Fetcher)
      → Here world row I frame IsDownloading (Stands (canonical_name row entry)) m
      → Settles world row I frame (already_there world row metadata entry files m)
  unfolding already_there
  already_there-Settles metadata entry files m h =
      let name = canonical_name row entry in
      let document =
        sidecar_of world name (sha_expected entry) row.civitai_model_id row.civitai_version_id
          metadata in
      bind-Ends (λ _. Here world row I frame IsDownloading (Stands name))
        (λ _. Settled world row I frame) (Open world row I frame)
        (backfill world name document files) (λ _. named world row name) m
        (backfill-Ends name document files m h) (λ _ m' h'. named-Settles name m' h')
