-- ===== src/Civitai/Integrity.antt =====
-- app/loras/civitai.py: no file appears that was not verified.
use local_image_generator_se.Common.{
  ◌≡◌, refl, sym, ap, subst, ◌∙◌, Bool, true, false, ◌⊎◌, inl, inr, some, List, [], ◌∷◌, Bool-cases,
}
use local_image_generator_se.Common.Dict.{put, get, get-put}
use local_image_generator_se.Common.Text.{Text, text_eq, text_eq_iff}
use local_image_generator_se.Schema.{LoraFetch}
use local_image_generator_se.Eviction.{LoraFile}
use local_image_generator_se.Civitai.{Bytes, Files, Disk, Fetcher, World, files_of}
use local_image_generator_se.Civitai.Metadata.{FileEntry}
use local_image_generator_se.Civitai.Room.{remaining, swept, left}
use local_image_generator_se.Civitai.Fetch.{canonical_name, install, run}
use local_image_generator_se.Civitai.Row.{IsFrame, IsVerified}
use local_image_generator_se.Civitai.Closed.{IsPending, run-kept}

files_of-put_cases :
    (n name : Text) (f : Files) (disk : Disk)
    → ((name ≡ n) × (files_of n (put name f disk) ≡ f))
      ⊎ (files_of n (put name f disk) ≡ files_of n disk)
files_of-put_cases n name f disk = elim (Bool-cases (text_eq name n)) [
  | inl e ↦ inl ((text_eq_iff name n).0 e, rw (get-put n name f disk, e) refl)
  | inr e ↦ inr (rw (get-put n name f disk, e) refl)
]

abbrev Stored : Disk → Text → Bytes → Type 0
Stored disk name bytes = (files_of name disk).safetensors ≡ some bytes

swept-Stored :
    (b : Bool) (f : Files) (bytes : Bytes)
    → (swept b f).safetensors ≡ some bytes
    → f.safetensors ≡ some bytes
swept-Stored true f bytes h = h
swept-Stored false f bytes h = cc

remaining-Stored :
    (world : World) (files : List LoraFile) (disk : Disk) (name : Text) (bytes : Bytes)
    → Stored (remaining world files disk) name bytes
    → Stored disk name bytes
unfolding remaining get
remaining-Stored world files [] name bytes h = h
remaining-Stored world files ((n, f) ∷ rest) name bytes h = elim (Bool-cases (text_eq n name)) [
  | inl e ↦ rw e (swept-Stored (left files (world.name_text n)) f bytes (rw e at h))
  | inr e ↦ rw e (remaining-Stored world files rest name bytes (rw e at h))
]

-- A file was there before, or is the row's, under the name and with the hash that the metadata
-- gives.
abbrev pub AllVerified : World → LoraFetch → Disk → Disk → Type 0
AllVerified world row before after =
    (name : Text) (bytes : Bytes)
    → (files_of name after).safetensors ≡ some bytes
    → ((files_of name before).safetensors ≡ some bytes)
      ⊎ ((entry : FileEntry) × (name ≡ canonical_name row entry) × IsVerified world row entry bytes)

module _ (world : World) (row : LoraFetch) (before : Disk) where
  scratch-AllVerified :
      (disk : Disk) (name : Text) (g : Files → Files)
      → ((f : Files) → (g f).safetensors ≡ f.safetensors)
      → AllVerified world row before disk
      → AllVerified world row before (put name (g (files_of name disk)) disk)
  scratch-AllVerified disk name g hg i n bytes h =
      elim (files_of-put_cases n name (g (files_of name disk)) disk) [
        | inl (same, e) ↦ i n bytes (
            ap (λ x. (files_of x disk).safetensors) (sym same)
            ∙ sym (hg (files_of name disk))
            ∙ ap (λ (f : Files). f.safetensors) (sym e)
            ∙ h)
        | inr e ↦ i n bytes (ap (λ (f : Files). f.safetensors) (sym e) ∙ h)
      ]

  install-AllVerified :
      (disk : Disk) (entry : FileEntry) (bytes : Bytes)
      → let name = canonical_name row entry in
        IsVerified world row entry bytes
        → (files_of name disk).tmp ≡ some bytes
        → AllVerified world row before disk
        → AllVerified world row before (put name (install (files_of name disk)) disk)
  install-AllVerified disk entry bytes v t i n b h =
      let name = canonical_name row entry in
      elim (files_of-put_cases n name (install (files_of name disk)) disk) [
        | inl (same, e) ↦
            let is : some b ≡ some bytes = sym h ∙ ap (λ (f : Files). f.safetensors) e ∙ t in
            inr (entry, sym same, subst (IsVerified world row entry) (cc is) v)
        | inr e ↦ i n b (ap (λ (f : Files). f.safetensors) (sym e) ∙ h)
      ]

  integrity_frame : IsFrame world row (λ m. AllVerified world row before m.disk)
  integrity_frame = record {
    on_row = λ m s i. i;
    on_metadata = λ m i. i;
    on_download = λ m url v i. i;
    on_scratch = λ m name g hg i. scratch-AllVerified m.disk name g hg i;
    on_sweep = λ m files i n b h. i n b (remaining-Stored world files m.disk n b h);
    on_install = λ m entry bytes v t i. install-AllVerified m.disk entry bytes v t i;
  }

-- However the run of a pending request ends, every file of the folder was there before under its
-- name, or stands under the name of the row, hashes to the SHA256 that an answered metadata request
-- names for its primary file, and is no longer than the cap, where one is set.
pub run-AllVerified :
    (world : World) (row : LoraFetch) (m : Fetcher)
    → IsPending row m
    → AllVerified world row m.disk (run world row.id m).1.disk
run-AllVerified world row m p =
    run-kept world row (λ m'. AllVerified world row m.disk m'.disk)
      (integrity_frame world row m.disk) m p (λ n b h. inl h)
