-- ===== src/Recovery.antt =====
-- app/queue/recovery.py, app/queue/fetches_recovery.py and app/queue/reaper.py: what runs at boot
-- over the rows of a former process, and the passes of the orphan reaper.
pub mod Boot
use local_image_generator_se.Common.{
  ℕ, zero, suc, ◌+◌, ◌-◌, ◌*◌, String, Bool, true, false, ◌&&◌, Option, none, some, List, [], ◌∷◌,
  ◌++◌, is_none, ltb, if◌then◌else◌, length,
}
use local_image_generator_se.Common.Table.{select}
use local_image_generator_se.Common.Text.{Text}
use local_image_generator_se.Schema.{
  Database, Job, JobStatus, LoraFetch, queued, running, completed, abandoned,
}
use local_image_generator_se.Store.{Exec, JobStore, read, pure, ◌>>=◌, ◌>>◌}
use local_image_generator_se.Jobs.Transitions.{set_failed}
use local_image_generator_se.Jobs.Flags.{scan_non_terminal, mark_handover}
use local_image_generator_se.Fetches

-- The returned dict, and the in-memory queue that `enqueue_recovery` puts at the end of.
pub record Recovered : Type 0 where
  pub requeued : ℕ
  pub failed_restart : ℕ
  pub queue : List Job

abbrev clock_after : (ℕ → ℕ) → ℕ → ℕ
clock_after clock n = clock (n + 2)

fail_running : (ℕ → ℕ) → Job → Exec (Unit {0})
fail_running clock job = do
  set_failed (clock 0) job.id "service_restarted" "process restart mid-generation"
  mark_handover (clock 1) job.id

-- One round of the loop, by the status of the scanned row.
recover_one : (ℕ → ℕ) → Recovered → Job → JobStatus → Exec Recovered
unfolding fail_running
recover_one clock r job running = do
  fail_running clock job
  pure (record r { failed_restart = r.failed_restart + 1 })
recover_one clock r job queued =
    pure (record r { queue = r.queue ++ job ∷ []; requeued = r.requeued + 1 })
recover_one clock r job _ = pure r

recover_loop : (ℕ → ℕ) → Recovered → List Job → Exec Recovered
unfolding recover_one
recover_loop clock r [] = pure r
recover_loop clock r (job ∷ jobs) = do
  r' ← recover_one clock r job job.status
  recover_loop (clock_after clock) r' jobs

-- `queue` holds what the worker has not taken yet.
unfoldable pub recover_jobs : (ℕ → ℕ) → List Job → Exec Recovered
unfolding recover_loop
recover_jobs clock queue = do
  jobs ← scan_non_terminal
  recover_loop clock (record { requeued = 0; failed_restart = 0; queue = queue }) jobs

-- The loop of `recover_fetches` over the rows. `tmp_files` are the outcomes of the unlinks, `true`
-- where one succeeded, and `none` where the folder is missing.
recover_rows : (ℕ → ℕ) → List LoraFetch → Exec (Unit {0})
recover_rows clock [] = pure tt
recover_rows clock (row ∷ rows) = do
  Fetches.set_failed (clock 0) row.id "service_restarted" "fetcher interrupted by service restart"
      true
  recover_rows (clock_after clock) rows

pub record FetchRecoveryStats : Type 0 where
  pub rows_handed_over : ℕ
  pub tmp_files_cleaned : ℕ

abbrev unlinked : Option (List Bool) → ℕ
unlinked none = 0
unlinked (some outcomes) = length (select (λ b. b) outcomes)

unfoldable pub recover_fetches : (ℕ → ℕ) → Option (List Bool) → Exec FetchRecoveryStats
unfolding recover_rows
recover_fetches clock tmp_files = do
  rows ← Fetches.scan_non_terminal
  recover_rows clock rows
  pure (record { rows_handed_over = length rows; tmp_files_cleaned = unlinked tmp_files })

abbrev is_completed : JobStatus → Bool
is_completed completed = true
is_completed _ = false

-- The rows of the reaper's SELECT.
unfoldable pub is_orphan : ℕ → Job → Bool
is_orphan cutoff j = is_completed j.status && (is_none j.fetched_at && ltb j.updated_at cutoff)

-- `entry.partition("/")` gives the bucket and the key of an object; the storage answers whether the
-- deletion succeeded.
pub record Storage : Type 0 where
  pub partition : String → String × String
  pub delete_object : String → String → Bool

delete_keys : Storage → List String → List (String × String)
delete_keys s3 [] = []
delete_keys s3 (entry ∷ entries) =
    let (bucket, key) = s3.partition entry in
    if s3.delete_object bucket key
    then (bucket, key) ∷ delete_keys s3 entries
    else delete_keys s3 entries

delete_all : Storage → List Job → List (String × String)
unfolding delete_keys
delete_all s3 [] = []
delete_all s3 (row ∷ rows) = delete_keys s3 row.output_keys ++ delete_all s3 rows

-- One pass: the objects that were deleted, of which the program returns the number. The rows are
-- not touched.
unfoldable pub reap_once : Storage → ℕ → ℕ → Exec (List (String × String))
unfolding delete_all is_orphan
reap_once s3 now ttl = read (λ d. delete_all s3 (select (is_orphan (now - ttl * 1000000)) d.jobs))
