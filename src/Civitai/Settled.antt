-- ===== src/Civitai/Settled.antt =====
-- app/loras/civitai.py: the ends of a fetch.
use local_image_generator_se.Common.{
  String, ◌≡◌, refl, true, false, ◌⊎◌, inl, inr, Option, none, some, arith,
}
use local_image_generator_se.Common.Effect.{Outcome, Ends, sure-Ends, weaken-Ends}
use local_image_generator_se.Common.Text.{Text}
use local_image_generator_se.Schema.{LoraFetch, FetchStatus, verifying}
use local_image_generator_se.Fetches.{as_status, as_failed, allowed_transitions, set_dest_name}
use local_image_generator_se.Civitai.{
  Bytes, Raised, Stage, Disk, Fetcher, World, on_store, files_of,
}
use local_image_generator_se.Civitai.Fetch.{fail, caught, to, finish}
use local_image_generator_se.Civitai.Row.{IsFrame, Here, status-Here, failed-Here, dest-Here}
use local_image_generator_se.Civitai.Streamed.{IsDownloading, IsOpen, Alive, Open}

abbrev pub IsFailed : LoraFetch → Type 0
IsFailed f = (f.status ≡ FetchStatus.failed) × (code : String) × (f.error_code ≡ some code)

-- A row that is done and names its file.
abbrev pub IsDone : String → LoraFetch → Type 0
IsDone name f = (f.status ≡ FetchStatus.done) × (f.dest_name ≡ some name)

-- A file stands under the name.
abbrev pub Stands : Text → Disk → Type 0
Stands name disk = (bytes : Bytes) × ((files_of name disk).safetensors ≡ some bytes)

pub open_fails : (f : LoraFetch) → IsOpen f → allowed_transitions f.status FetchStatus.failed ≡ true
unfolding allowed_transitions
open_fails f h = ground arith

abbrev pub IsVerifying : LoraFetch → Type 0
IsVerifying f = f.status ≡ verifying

abbrev pub IsNamed : FetchStatus → String → LoraFetch → Type 0
IsNamed s name f = (f.status ≡ s) × (f.dest_name ≡ some name)

pub verifying_allowed :
    (f : LoraFetch) → IsDownloading f → allowed_transitions f.status verifying ≡ true
unfolding allowed_transitions
verifying_allowed f h = rw h refl

done_allowed :
    (name : String) (f : LoraFetch)
    → IsNamed verifying name f
    → allowed_transitions f.status FetchStatus.done ≡ true
unfolding allowed_transitions
done_allowed name f h = rw (h.0) refl

module _ (world : World) (row : LoraFetch) (I : Fetcher → Type 0)
    (frame : IsFrame world row I) where
  -- The row failed with a code, or it is done and its file stands.
  abbrev pub Settled : Fetcher → Type 0
  Settled m =
      Here world row I frame IsFailed (λ _. Unit {0}) m
      ⊎ ((name : Text) × Here world row I frame (IsDone (world.name_text name)) (Stands name) m)

  abbrev pub Settles : Outcome Raised (Unit {0}) × Fetcher → Type 0
  Settles = Ends (λ _. Settled) (Open world row I frame)

  pub fail-Settles :
      (stage : Stage) (e : Option Raised) (code : String) (m : Fetcher)
      → Alive world row I frame m
      → Settles (fail world row stage e code m)
  unfolding as_failed
  fail-Settles stage e code m h =
      weaken-Ends (λ _. Here world row I frame IsFailed (λ _. Unit {0})) (λ _. Settled) (λ _ _. ⊥)
        (Open world row I frame) (fail world row stage e code m)
        (failed-Here world row I frame IsOpen IsFailed (λ _. Unit {0}) (world.clock 9) m code
          (world.message stage e) false open_fails (λ f _. (refl, code, refl)) h)
        (λ _ _ h'. inl h') (λ _ _ b. absurd b)

  pub caught-Settles :
      (stage : Stage) (e : Raised) (code : Option String) (m : Fetcher)
      → Alive world row I frame m
      → Settles (caught world row stage e code m)
  caught-Settles stage e none m h = h
  caught-Settles stage e (some code) m h = fail-Settles stage (some e) code m h

  -- The last status change, where the file stands.
  pub to_done :
      (name : Text) (m : Fetcher)
      → Here world row I frame (IsNamed verifying (world.name_text name)) (Stands name) m
      → Settles (to world 7 row FetchStatus.done m)
  unfolding as_status
  to_done name m h =
      weaken-Ends (λ _. Here world row I frame (IsDone (world.name_text name)) (Stands name))
        (λ _. Settled) (λ _ _. ⊥) (Open world row I frame) (to world 7 row FetchStatus.done m)
        (status-Here world row I frame (IsNamed verifying (world.name_text name))
          (IsDone (world.name_text name)) (Stands name) (world.clock 7) m FetchStatus.done
          (done_allowed (world.name_text name)) (λ f n. (refl, n.1)) h)
        (λ _ _ h'. inr (name, h')) (λ _ _ b. absurd b)

  pub finish-Settles :
      (name : Text) (m : Fetcher)
      → Here world row I frame IsVerifying (Stands name) m
      → Settles (finish world row name m)
  finish-Settles name m h =
      sure-Ends
        (λ _. Here world row I frame (IsNamed verifying (world.name_text name)) (Stands name))
        (λ _. Settled) (Open world row I frame)
        (on_store (set_dest_name (world.clock 5) row.id (world.name_text name)))
        (λ _. to world 7 row FetchStatus.done) m
        (dest-Here world row I frame IsVerifying (IsNamed verifying (world.name_text name))
          (Stands name) (world.clock 5) m (world.name_text name) (λ f s. (s, refl)) h)
        (λ _ m' h'. to_done name m' h')
