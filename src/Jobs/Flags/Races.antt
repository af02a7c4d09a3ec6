-- ===== src/Jobs/Flags/Races.antt =====
-- app/queue/jobs.py: writes to one job that may come in either order: the background task that
-- records a delivered response, the watcher of a disconnected client, and repeated fetches of a
-- result.
use local_image_generator_se.Common.{
  ℕ, String, ◌≡◌, refl, ap, Bool, false, ◌&&◌, List, [], ◌∷◌, arith, is_none,
}
use local_image_generator_se.Common.Table.{set_where, update}
use local_image_generator_se.Schema.{Database, Job}
use local_image_generator_se.Store.{ok, connected, ◌>>◌}
use local_image_generator_se.Jobs.Transitions.{has_id}
use local_image_generator_se.Jobs.Flags.{
  set_fetched, mark_response_delivered, mark_async_with_handover, is_sync,
}

-- A second update that no row of the updated table meets.
update-noop :
    (p q : Job → Bool) (f g : Job → Job) (js : List Job)
    → ((j : Job) → q (set_where p f j) ≡ false)
    → update q g (update p f js) ≡ update p f js
unfolding update set_where
update-noop p q f g [] h = refl
update-noop p q f g (j ∷ js) h = ground (arith, h j, update-noop p q f g js h)

-- Once a client's disconnection is recorded, the record of a delivered response changes nothing.
pub response-disconnect :
    (earlier later : ℕ) (k : String) (d : Database)
    → (mark_async_with_handover earlier k >> mark_response_delivered later k) (connected d)
      ≡ mark_async_with_handover earlier k (connected d)
unfolding mark_async_with_handover mark_response_delivered set_where
response-disconnect earlier later k d =
    ap (λ js. (ok tt, connected (record d { jobs = js })))
      (update-noop (has_id k) (λ j. has_id k j && is_sync j.mode) _ _ d.jobs (λ j. ground arith))

-- The time of the first fetch stays: a later fetch changes nothing.
pub set_fetched_twice :
    (first later : ℕ) (k : String) (d : Database)
    → (set_fetched first k >> set_fetched later k) (connected d) ≡ set_fetched first k (connected d)
unfolding set_fetched set_where
set_fetched_twice first later k d =
    ap (λ js. (ok tt, connected (record d { jobs = js })))
      (update-noop (λ j. has_id k j && is_none j.fetched_at)
        (λ j. has_id k j && is_none j.fetched_at) _ _ d.jobs (λ j. ground arith))
