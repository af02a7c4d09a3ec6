-- ===== src/Civitai/Fetch.antt =====
-- app/loras/civitai.py: one fetch from the pending row to its end. The folder of the files is made,
-- the store written, and the failure recorded as the code orders it; logging is left out.
use local_image_generator_se.Common.{
  ℕ, ◌*◌, ◌++◌, String, Bool, true, false, ◌||◌, not, Option, none, some, ltb, ◌==◌, is_none,
  is_some, if◌then◌else◌,
}
use local_image_generator_se.Common.Digits.{str}
use local_image_generator_se.Common.Effect.{◌>>=◌, ◌>>◌, answer, modify, throw, give, try_else}
use local_image_generator_se.Common.Text.{Text, codes, lower, text_eq}
use local_image_generator_se.Schema.{LoraFetch, FetchStatus, verifying}
use local_image_generator_se.Fetches.{
  get_by_id, set_status, set_total_bytes, set_dest_name, set_failed,
}
use local_image_generator_se.Slug.{sanitize_slug}
use local_image_generator_se.Civitai.{
  Json, Raised, http_status, transport, download_too_large, slow_download, mid_stream_disk_full,
  timed_out, cancelled, os_error, value_error, Stage, fetching_metadata, picking, sizing, evicting,
  checking_url, streaming, comparing, unexpected, Document, Files, World, Fetching, on_store,
  on_files, files_of,
}
use local_image_generator_se.Civitai.Url.{validate_download_url}
use local_image_generator_se.Civitai.Metadata.{
  FileEntry, fetch_metadata, pick_primary_file, sidecar_of, write_sidecar,
}
use local_image_generator_se.Civitai.Stream.{stream_download}
use local_image_generator_se.Civitai.Room.{make_room}

abbrev pub to : World → ℕ → LoraFetch → FetchStatus → Fetching (Unit {0})
to world k row status = on_store (set_status (world.clock k) row.id status)

-- set_failed, without a handover, and the return.
abbrev pub fail : World → LoraFetch → Stage → Option Raised → String → Fetching (Unit {0})
fail world row stage e error_code =
    on_store (set_failed (world.clock 9) row.id error_code (world.message stage e) false)

-- The codes of a refused metadata request.
abbrev pub metadata_code : ℕ → String
metadata_code code =
    if code == 401 || code == 403
    then "civitai_auth"
    else if code == 404
    then "civitai_version_not_found"
    else "civitai_unavailable"

-- The error code of the `except` clause that takes the exception; any other is not caught.
unfoldable pub metadata_failure : Raised → Option String
metadata_failure (http_status code) = some (metadata_code code)
metadata_failure (transport e) = some "civitai_unavailable"
metadata_failure e = none

abbrev pub pick_failure : Raised → Option String
pick_failure value_error = some "validation_error"
pick_failure e = none

unfoldable pub download_failure : Raised → Option String
download_failure download_too_large = some "lora_too_large"
download_failure slow_download = some "civitai_unavailable"
download_failure mid_stream_disk_full = some "insufficient_storage"
download_failure (http_status code) =
    some (if code == 401 || code == 403 then "civitai_auth" else "civitai_unavailable")
download_failure (transport e) = some "civitai_unavailable"
download_failure timed_out = some "civitai_unavailable"
download_failure (os_error no_space) =
    some (if no_space then "insufficient_storage" else "internal")
download_failure e = none

-- The clause of an exception that has a code, and else the exception again.
abbrev pub caught : World → LoraFetch → Stage → Raised → Option String → Fetching (Unit {0})
caught world row stage e none = throw e
caught world row stage e (some error_code) = fail world row stage (some e) error_code

-- _unlink_quiet(tmp)
abbrev pub unlink_quiet : Text → Fetching (Unit {0})
unlink_quiet name = modify (on_files name λ f. record f { tmp = none })

abbrev pub caught_download : World → LoraFetch → Text → Raised → Option String → Fetching (Unit {0})
caught_download world row name e none = throw e
caught_download world row name e (some error_code) =
    unlink_quiet name >> fail world row streaming (some e) error_code

abbrev slug_of : LoraFetch → FileEntry → Text
slug_of row entry = sanitize_slug entry.name ++ codes "_" ++ str row.civitai_version_id

unfoldable pub canonical_name : LoraFetch → FileEntry → Text
unfolding sanitize_slug str
canonical_name row entry = codes "civitai/" ++ slug_of row entry

unfoldable pub sha_expected : FileEntry → Text
sha_expected entry = lower entry.sha256

unfoldable pub expected_size : World → Option Json → Fetching ℕ
expected_size world none = give 0
expected_size world (some v) = answer (world.times_1024 v)

-- os.replace(tmp, dest)
abbrev pub install : Files → Files
install f = record f { safetensors = f.tmp; tmp = none }

abbrev pub replace : World → Text → Fetching (Unit {0})
replace world name = answer world.on_replace >> modify (on_files name install)

abbrev pub finish : World → LoraFetch → Text → Fetching (Unit {0})
finish world row name =
    on_store (set_dest_name (world.clock 5) row.id (world.name_text name))
    >> to world 7 row FetchStatus.done

-- Steps 7 and 8, with the hash of what came.
unfoldable pub verify : World → LoraFetch → Json → FileEntry → Text → Fetching (Unit {0})
unfolding canonical_name sha_expected sidecar_of write_sidecar set_status set_failed set_dest_name
verify world row metadata entry actual =
    let name = canonical_name row entry in
    let expected = sha_expected entry in
    to world 6 row verifying
    >> (if not (text_eq actual expected)
        then unlink_quiet name >> fail world row (comparing expected actual) none "sha_mismatch"
        else (write_sidecar world name
              (sidecar_of world name expected row.civitai_model_id row.civitai_version_id metadata)
            >> replace world name
            >> finish world row name))

-- Step 6.
unfoldable pub download_file : World → LoraFetch → Json → FileEntry → ℕ → Fetching (Unit {0})
unfolding validate_download_url stream_download verify canonical_name download_failure set_failed
download_file world row metadata entry size =
    let name = canonical_name row entry in
    if not (validate_download_url (world.urlparse entry.download_url))
    then fail world row checking_url (some value_error) "validation_error"
    else try_else (stream_download world row.id entry.download_url name size)
        (verify world row metadata entry)
        (λ e. caught_download world row name e (download_failure e))

-- Step 5.
unfoldable pub with_room : World → LoraFetch → Json → FileEntry → ℕ → Fetching (Unit {0})
unfolding download_file set_failed
with_room world row metadata entry size = make_room world (size * 2) >>= λ fits.
    if fits
    then download_file world row metadata entry size
    else fail world row evicting none "insufficient_storage"

abbrev pub backfill : World → Text → Document → Files → Fetching (Unit {0})
backfill world name document files =
    if is_none files.sidecar then write_sidecar world name document else give tt

abbrev pub named : World → LoraFetch → Text → Fetching (Unit {0})
named world row name =
    on_store (set_dest_name (world.clock 5) row.id (world.name_text name))
    >> to world 6 row verifying
    >> to world 7 row FetchStatus.done

-- Step 4: the file is there, and its sidecar is written when it is missing.
unfoldable pub already_there : World → LoraFetch → Json → FileEntry → Files → Fetching (Unit {0})
unfolding canonical_name sha_expected sidecar_of write_sidecar set_status set_dest_name
already_there world row metadata entry files =
    let name = canonical_name row entry in
    backfill world name
      (sidecar_of world name (sha_expected entry) row.civitai_model_id row.civitai_version_id
        metadata)
      files
    >> named world row name

unfoldable pub place : World → LoraFetch → Json → FileEntry → ℕ → Fetching (Unit {0})
unfolding canonical_name already_there with_room
place world row metadata entry size m =
    let files = files_of (canonical_name row entry) m.disk in
    (if is_some files.safetensors
        then already_there world row metadata entry files
        else with_room world row metadata entry size)
      m

abbrev pub note_total : World → LoraFetch → ℕ → Fetching (Unit {0})
note_total world row size =
    if ltb 0 size then on_store (set_total_bytes (world.clock 1) row.id size) else give tt

-- The rest of step 2, and step 3.
unfoldable pub check_size : World → LoraFetch → Json → FileEntry → ℕ → Fetching (Unit {0})
unfolding place set_total_bytes set_failed
check_size world row metadata entry size =
    if ltb world.file_max_bytes size
    then fail world row sizing none "lora_too_large"
    else note_total world row size >> answer world.on_mkdir >> place world row metadata entry size

abbrev pub picked : World → LoraFetch → Json → FileEntry → Fetching (Unit {0})
picked world row metadata entry =
    expected_size world entry.size_kb >>= check_size world row metadata entry

-- Step 2.
unfoldable pub pick : World → LoraFetch → Json → Fetching (Unit {0})
unfolding check_size expected_size pick_primary_file set_failed
pick world row metadata =
    try_else (answer (pick_primary_file world metadata)) (picked world row metadata)
      (λ e. caught world row picking e (pick_failure e))

unfoldable pub fetch : World → LoraFetch → Fetching (Unit {0})
unfolding pick fetch_metadata metadata_failure set_status set_failed
fetch world row =
    to world 0 row FetchStatus.downloading
    >> try_else (fetch_metadata world row.civitai_version_id) (pick world row)
        (λ e. caught world row fetching_metadata e (metadata_failure e))

-- The `except` clauses around the fetch.
unfoldable pub unexpected_end : World → LoraFetch → Raised → Fetching (Unit {0})
unfolding set_failed
unexpected_end world row cancelled =
    on_store (
      set_failed (world.clock 9) row.id "service_restarted" "fetcher cancelled during shutdown"
        true)
    >> throw cancelled
unexpected_end world row e = fail world row unexpected (some e) "internal"

-- The waits for the semaphore and for the lock, of which each may be cancelled.
abbrev pub waited : Bool → Bool → Fetching (Unit {0}) → Fetching (Unit {0})
waited true at_lock fetched = throw cancelled
waited false true fetched = throw cancelled
waited false false fetched = fetched

abbrev pub run_row : World → Option LoraFetch → Fetching (Unit {0})
run_row world none = give tt
run_row world (some row) =
    waited world.cancelled_at_semaphore world.cancelled_at_lock
      (try_else (fetch world row) give (unexpected_end world row))

-- The row of a request, fetched while the semaphore and the lock of the version are held. A
-- cancellation while the task waits for one of them is caught by no clause.
unfoldable pub run : World → String → Fetching (Unit {0})
unfolding fetch unexpected_end get_by_id
run world request_id = on_store (get_by_id request_id) >>= run_row world
