-- ===== src/Tests/Queue.antt =====
-- Examples for app/queue.
use local_image_generator_se.Common.{
  ℕ, ◌+◌, ◌≡◌, refl, ◌↔◌, ◌⊎◌, ◌++◌, String, false, Option, none, some, List, [], ◌∷◌, arith, All,
  In, length,
}
use local_image_generator_se.Common.Table.{find, select, SortedBy}
use local_image_generator_se.Schema.{
  Database, Job, JobStatus, LoraFetch, queued, running, completed, integrity,
}
use local_image_generator_se.Store.{ok, err, connected, ◌>>◌}
use local_image_generator_se.Jobs.Transitions.{has_id}
use local_image_generator_se.Jobs.Flags.{
  scan_webhook_candidates, scan_non_terminal, count_active, mark_response_delivered,
  mark_async_with_handover,
}
use local_image_generator_se.Jobs.Flags.Races.{response-disconnect}
use local_image_generator_se.Jobs.Flags.Scans.{
  IsCandidate, scan_webhook_candidates_lem, scan_non_terminal_lem,
}
use local_image_generator_se.Jobs.Operations.{
  to_completed, to_running, to_failed, change, changed, outcome, change-outcome, JobOp, change_to,
  fetched, run,
}
use local_image_generator_se.Jobs.Lifecycle.{status_in, Trail, run-Trail, run-terminal}
use local_image_generator_se.Recovery.{Recovered, recover_jobs}
use local_image_generator_se.Recovery.Boot.{Became}
use local_image_generator_se.Recovery.Boot.Complete.{recover_jobs_lem}
use local_image_generator_se.Fetches.{create_pending, find_active_by_version, pending_row}
use local_image_generator_se.Fetches.Lifecycle.{
  FetchOp, create, to_status, fail, fetches_in, IsSound, run-IsSound,
}
use local_image_generator_se.Fetches.Lifecycle
use local_image_generator_se.Fetches.Dedupe.{create_pending_dedupe}
use local_image_generator_se.Tests.Samples.{database}

change-outcome_example :
    change 9 "b" (to_completed ("k" ∷ []) "{}") (connected database)
    ≡ outcome "b" completed
        (changed 9 (to_completed ("k" ∷ []) "{}"))
        database
        (find (has_id "b") database.jobs)
change-outcome_example = change-outcome 9 "b" (to_completed ("k" ∷ []) "{}") database

abbrev history : List (ℕ × JobOp)
history =
    (9, change_to "a" (to_running "p" "c"))
    ∷ (10, fetched "c")
    ∷ (11, change_to "c" (to_failed "late" ""))
    ∷ (12, change_to "a" (to_failed "oom" ""))
    ∷ []

run-Trail_example :
    (b : JobStatus) × (status_in (run history (connected database)) "a" ≡ some b) × Trail queued b
unfolding find
run-Trail_example = run-Trail history (connected database) "a" queued refl

run-terminal_example : status_in (run history (connected database)) "c" ≡ some completed
unfolding find
run-terminal_example = run-terminal history (connected database) "c" completed refl refl

recover_jobs_example :
    (r : Recovered) × (d' : Database) × (recover_jobs (λ n. 20 + n) [] (connected database)
      ≡ (ok r, connected d'))
    × All (λ j. (j' : Job) × (find (has_id j.id) d'.jobs ≡ some j') × Became j j') database.jobs
    × (waiting : List Job) × (r.queue ≡ [] ++ waiting)
    × (r.requeued ≡ length waiting)
    × ((j : Job) → In j waiting ↔ (In j database.jobs × (j.status ≡ queued)))
    × SortedBy (λ j. j.created_at) waiting
recover_jobs_example =
    recover_jobs_lem (λ n. 20 + n) [] database ((refl, (refl, tt)), ((refl, tt), (tt, tt)))

scan_webhook_candidates_example :
    (js : List Job) × (scan_webhook_candidates (connected database) ≡ (ok js, connected database))
    × ((j : Job) → In j js ↔ (In j database.jobs × IsCandidate j))
    × SortedBy (λ j. j.updated_at) js
scan_webhook_candidates_example = scan_webhook_candidates_lem database

scan_non_terminal_example :
    (js : List Job) × (scan_non_terminal (connected database) ≡ (ok js, connected database))
    × ((j : Job) → In j js ↔ (In j database.jobs × ((j.status ≡ queued) ⊎ (j.status ≡ running))))
    × SortedBy (λ j. j.created_at) js
    × (count_active (connected database) ≡ (ok (length js), connected database))
scan_non_terminal_example = scan_non_terminal_lem database

response-disconnect_example :
    (mark_async_with_handover 8 "b" >> mark_response_delivered 9 "b") (connected database)
    ≡ mark_async_with_handover 8 "b" (connected database)
response-disconnect_example = response-disconnect 8 9 "b" database

abbrev fetch_history : List (ℕ × FetchOp)
fetch_history =
    (1, create "r" "https://civitai.com/models/7" none 70)
    ∷ (2, create "s" "https://civitai.com/models/7" none 70)
    ∷ (3, fail "r" "timeout" "" false)
    ∷ (4, create "s" "https://civitai.com/models/7" none 70)
    ∷ []

no_fetches_IsSound : IsSound []
unfolding select
no_fetches_IsSound = record { distinct = tt; one_active = λ v. omega arith }

run-IsSound_example : IsSound (fetches_in (Lifecycle.run fetch_history (connected database)))
run-IsSound_example = run-IsSound fetch_history (connected database) no_fetches_IsSound

abbrev requested : LoraFetch
unfolding pending_row
requested = pending_row 1 "r" "https://civitai.com/models/7" none 70

create_pending_dedupe_example :
    let d' = record database { lora_fetches = requested ∷ [] } in
    (find_active_by_version 70 (connected d') ≡ (ok (some requested), connected d'))
    × ((later : ℕ) (k' url' : String) (m' : Option ℕ)
        → create_pending later k' url' m' 70 (connected d') ≡ (err integrity, connected d'))
unfolding create_pending find
create_pending_dedupe_example =
    create_pending_dedupe 1 "r" "https://civitai.com/models/7" none 70 database
      (record database { lora_fetches = requested ∷ [] }) requested refl
