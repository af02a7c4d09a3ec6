-- ===== src/Fetches.antt =====
-- app/queue/fetches.py: the LoRA fetches, table lora_fetches, with the unique partial index of its
-- migration on the version of a fetch that is not terminal.
pub mod Lifecycle
pub mod Dedupe
use local_image_generator_se.Common.{
  ℕ, String, Bool, true, false, ◌&&◌, ◌||◌, Option, none, some, List, [], ◌∷◌, ◌++◌, is_some,
  str_eq, ◌==◌, if◌then◌else◌, length,
}
use local_image_generator_se.Common.Table.{select, find, update, order_by, by}
use local_image_generator_se.Schema.{
  Database, LoraFetch, FetchStatus, downloading, verifying, done, fetch_not_found, integrity,
  invalid_fetch_transition,
}
use local_image_generator_se.Store.{
  Result, ok, err, Exec, Transaction, write, read, then_do, ◌>>=◌, ◌>>◌, pure,
}

-- `target in _ALLOWED_TRANSITIONS[current]`
unfoldable pub allowed_transitions : FetchStatus → FetchStatus → Bool
allowed_transitions FetchStatus.pending downloading = true
allowed_transitions FetchStatus.pending FetchStatus.failed = true
allowed_transitions downloading verifying = true
allowed_transitions downloading FetchStatus.failed = true
allowed_transitions verifying done = true
allowed_transitions verifying FetchStatus.failed = true
allowed_transitions _ _ = false

abbrev pub non_terminal : FetchStatus → Bool
non_terminal FetchStatus.pending = true
non_terminal downloading = true
non_terminal verifying = true
non_terminal _ = false

abbrev pub has_request_id : String → LoraFetch → Bool
has_request_id k f = str_eq f.id k

abbrev pub active_version : ℕ → LoraFetch → Bool
active_version v f = f.civitai_version_id == v && non_terminal f.status

unfoldable pub pending_row : ℕ → String → String → Option ℕ → ℕ → LoraFetch
pending_row now request_id url civitai_model_id civitai_version_id = record {
  id = request_id;
  url = url;
  civitai_model_id = civitai_model_id;
  civitai_version_id = civitai_version_id;
  status = FetchStatus.pending;
  progress_bytes = 0;
  total_bytes = none;
  dest_name = none;
  error_code = none;
  error_message = none;
  handover = false;
  created_at = now;
  updated_at = now;
}

-- `request_id` is the id that was drawn. The primary key or the partial index refuses the row.
unfoldable pub create_pending : ℕ → String → String → Option ℕ → ℕ → Exec LoraFetch
unfolding pending_row
create_pending now request_id url civitai_model_id civitai_version_id = write λ d.
    let row = pending_row now request_id url civitai_model_id civitai_version_id in
    if is_some (find (has_request_id request_id) d.lora_fetches)
      || is_some (find (active_version civitai_version_id) d.lora_fetches)
    then err integrity
    else ok (row, record d { lora_fetches = d.lora_fetches ++ row ∷ [] })

unfoldable pub get_by_id : String → Exec (Option LoraFetch)
get_by_id request_id = read (λ d. find (has_request_id request_id) d.lora_fetches)

unfoldable pub find_active_by_version : ℕ → Exec (Option LoraFetch)
find_active_by_version civitai_version_id =
    read (λ d. find (active_version civitai_version_id) d.lora_fetches)

abbrev status_or_raise : String → Option LoraFetch → Result FetchStatus
status_or_raise k none = err (fetch_not_found k)
status_or_raise k (some f) = ok f.status

unfoldable pub fetch_status : Database → String → Result FetchStatus
fetch_status d k = status_or_raise k (find (has_request_id k) d.lora_fetches)

unfoldable pub assert_allowed : FetchStatus → FetchStatus → Result (Unit {0})
unfolding allowed_transitions
assert_allowed current target =
    if allowed_transitions current target
    then ok tt
    else err (invalid_fetch_transition current target)

-- UPDATE lora_fetches SET … WHERE id = ?
abbrev pub update_fetch : String → (LoraFetch → LoraFetch) → Database → Database
update_fetch k f d = record d { lora_fetches = update (has_request_id k) f d.lora_fetches }

-- The three statements that `set_status` and `set_failed` share.
unfoldable pub change_status :
    String → FetchStatus → (LoraFetch → LoraFetch) → Transaction (Unit {0})
unfolding fetch_status assert_allowed
change_status k target f d =
    then_do (fetch_status d k)
      λ current. then_do (assert_allowed current target) λ _. ok (tt, update_fetch k f d)

unfoldable pub as_status : ℕ → FetchStatus → LoraFetch → LoraFetch
as_status now target f = record f { status = target; updated_at = now }

unfoldable pub set_status : ℕ → String → FetchStatus → Exec (Unit {0})
unfolding change_status as_status
set_status now request_id target = write (change_status request_id target (as_status now target))

abbrev set_column : String → (LoraFetch → LoraFetch) → Exec (Unit {0})
set_column k f = write (λ d. ok (tt, update_fetch k f d))

unfoldable pub set_total_bytes : ℕ → String → ℕ → Exec (Unit {0})
set_total_bytes now request_id total =
    set_column request_id λ f. record f { total_bytes = some total; updated_at = now }

unfoldable pub set_progress : ℕ → String → ℕ → Exec (Unit {0})
set_progress now request_id progress =
    set_column request_id λ f. record f { progress_bytes = progress; updated_at = now }

unfoldable pub set_dest_name : ℕ → String → String → Exec (Unit {0})
set_dest_name now request_id dest_name =
    set_column request_id λ f. record f { dest_name = some dest_name; updated_at = now }

unfoldable pub as_failed : ℕ → String → String → Bool → LoraFetch → LoraFetch
as_failed now error_code error_message handover f = record f {
  status = FetchStatus.failed;
  error_code = some error_code;
  error_message = some error_message;
  handover = handover;
  updated_at = now;
}

unfoldable pub set_failed : ℕ → String → String → String → Bool → Exec (Unit {0})
unfolding change_status as_failed
set_failed now request_id error_code error_message handover =
    write (
      change_status request_id FetchStatus.failed (as_failed now error_code error_message handover))

unfoldable pub scan_non_terminal : Exec (List LoraFetch)
scan_non_terminal =
    read
      (λ d. order_by (by (λ f. f.updated_at)) (select (λ f. non_terminal f.status) d.lora_fetches))
