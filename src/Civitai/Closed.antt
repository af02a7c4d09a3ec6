-- ===== src/Civitai/Closed.antt =====
-- app/loras/civitai.py: the run of a request, with the clauses around its fetch.
use local_image_generator_se.Common.{
  Bool, ◌||◌, ◌≡◌, refl, sym, subst, true, false, ◌⊎◌, inl, inr, some,
}
use local_image_generator_se.Common.Effect.{
  returned, Ends, sure-Ends, try_else, try_else-Ends, weaken-Ends, Ends-state, give, throw, Outcome,
  after,
}
use local_image_generator_se.Common.Table.{find}
use local_image_generator_se.Common.Text.{Text}
use local_image_generator_se.Schema.{Database, LoraFetch, FetchStatus}
use local_image_generator_se.Store.{connected}
use local_image_generator_se.Fetches.{has_request_id, get_by_id, as_failed, set_failed}
use local_image_generator_se.Civitai.{
  Raised, cancelled, unexpected, Fetcher, World, Fetching, on_store,
}
use local_image_generator_se.Civitai.Fetch.{fetch, unexpected_end, run, run_row, waited, fail}
use local_image_generator_se.Civitai.Row.{Row, IsFrame, Here, failed-Here}
use local_image_generator_se.Civitai.Streamed.{IsOpen, Alive, Open}
use local_image_generator_se.Civitai.Settled.{IsFailed, Settled, open_fails}
use local_image_generator_se.Civitai.Fetched.{fetch-Settles}

-- The row failed because the service was going down, and is handed over to its next start.
abbrev pub IsHandedOver : LoraFetch → Type 0
IsHandedOver f =
    (f.status ≡ FetchStatus.failed)
    × (f.error_code ≡ some "service_restarted")
    × (f.handover ≡ true)

-- The row of the request is there and pending.
abbrev pub IsPending : LoraFetch → Fetcher → Type 0
IsPending row m =
    (d : Database) × (m.store ≡ connected d)
    × (find (has_request_id row.id) d.lora_fetches ≡ some row)
    × (row.status ≡ FetchStatus.pending)

module _ (world : World) (row : LoraFetch) (I : Fetcher → Type 0)
    (frame : IsFrame world row I) where
  -- What the run raises: only a cancellation, with the row handed over.
  abbrev pub HandedOver : Raised → Fetcher → Type 0
  HandedOver e m = (e ≡ cancelled) × Here world row I frame IsHandedOver (λ _. Unit {0}) m

  -- A cancellation while the task waits: the row is as it was.
  abbrev Waits : Bool → Bool → Raised → Fetcher → Type 0
  Waits at_semaphore at_lock e m =
      (e ≡ cancelled)
      × ((at_semaphore || at_lock) ≡ true)
      × Here world row I frame (λ f. f ≡ row) (λ _. Unit {0}) m

  abbrev Leaves : Bool → Bool → Raised → Fetcher → Type 0
  Leaves at_semaphore at_lock e m = HandedOver e m ⊎ Waits at_semaphore at_lock e m

  waited-Leaves :
      (at_semaphore at_lock : Bool) (fetched : Fetching (Unit {0})) (m : Fetcher)
      → Here world row I frame (λ f. f ≡ row) (λ _. Unit {0}) m
      → Ends (λ _. Settled world row I frame) HandedOver (fetched m)
      → Ends
          (λ _. Settled world row I frame)
          (Leaves at_semaphore at_lock)
          (waited at_semaphore at_lock fetched m)
  waited-Leaves true at_lock fetched m still h = inr (refl, refl, still)
  waited-Leaves false true fetched m still h = inr (refl, refl, still)
  waited-Leaves false false fetched m still h =
      weaken-Ends (λ _. Settled world row I frame) (λ _. Settled world row I frame) HandedOver
        (Leaves false false) (fetched m) h (λ _ _ s. s) (λ _ _ s. inl s)

  abbrev pub Closes : Outcome Raised (Unit {0}) × Fetcher → Type 0
  Closes = Ends (λ _. Settled world row I frame) HandedOver

  internal-Closes :
      (e : Raised) (m : Fetcher)
      → Alive world row I frame m
      → Closes (fail world row unexpected (some e) "internal" m)
  unfolding as_failed
  internal-Closes e m h =
      weaken-Ends (λ _. Here world row I frame IsFailed (λ _. Unit {0}))
        (λ _. Settled world row I frame) (λ _ _. ⊥) HandedOver
        (fail world row unexpected (some e) "internal" m)
        (failed-Here world row I frame IsOpen IsFailed (λ _. Unit {0}) (world.clock 9) m "internal"
          (world.message unexpected (some e)) false open_fails (λ f _. (refl, "internal", refl)) h)
        (λ _ _ h'. inl h') (λ _ _ b. absurd b)

  unexpected_end-Closes :
      (e : Raised) (m : Fetcher) → Alive world row I frame m → Closes (unexpected_end world row e m)
  unfolding unexpected_end as_failed
  unexpected_end-Closes cancelled m h =
      sure-Ends (λ _. Here world row I frame IsHandedOver (λ _. Unit {0}))
        (λ _. Settled world row I frame) HandedOver
        (on_store (
          set_failed (world.clock 9) row.id "service_restarted" "fetcher cancelled during shutdown"
            true))
        (λ _. throw cancelled) m
        (failed-Here world row I frame IsOpen IsHandedOver (λ _. Unit {0}) (world.clock 9) m
          "service_restarted" "fetcher cancelled during shutdown" true open_fails
          (λ f _. (refl, refl, refl)) h)
        (λ _ m' h'. (refl, h'))
  unexpected_end-Closes e m h = internal-Closes e m h

  loaded :
      (m : Fetcher) (d : Database)
      → m.store ≡ connected d
      → find (has_request_id row.id) d.lora_fetches ≡ some row
      → on_store (get_by_id row.id) m ≡ (returned (some row), record m { store = connected d })
  unfolding get_by_id
  loaded m d s f = rw (s, f) refl

  -- The run of a pending row closes it, and keeps what every step keeps.
  row-Leaves :
      (m : Fetcher) (d : Database)
      → m.store ≡ connected d
      → find (has_request_id row.id) d.lora_fetches ≡ some row
      → row.status ≡ FetchStatus.pending
      → I m
      → Ends
          (λ _. Settled world row I frame)
          (Leaves world.cancelled_at_semaphore world.cancelled_at_lock)
          (run_row world (some row) m)
  row-Leaves m d s f p i =
      let still : Here world row I frame (λ x. x ≡ row) (λ _. Unit {0}) m =
        ((d, row, s, f, refl), tt, i) in
      waited-Leaves world.cancelled_at_semaphore world.cancelled_at_lock
        (try_else (fetch world row) give (unexpected_end world row)) m still
        (try_else-Ends (λ _. Settled world row I frame) (Open world row I frame)
          (λ _. Settled world row I frame) HandedOver (fetch world row) give
          (unexpected_end world row) m
          (fetch-Settles world row I frame m ((d, row, s, f, p), tt, i)) (λ _ m' h. h)
          (λ e m' h. unexpected_end-Closes e m' h))

  pub run-Closes :
      (m : Fetcher)
      → IsPending row m
      → I m
      → Ends
          (λ _. Settled world row I frame)
          (Leaves world.cancelled_at_semaphore world.cancelled_at_lock)
          (run world row.id m)
  unfolding run
  run-Closes m (d, s, f, p) i =
      let m' = record m { store = connected d } in
      subst
        (λ r.
          Ends (λ _. Settled world row I frame)
            (Leaves world.cancelled_at_semaphore world.cancelled_at_lock) (after (run_row world) r))
        (sym (loaded m d s f)) (row-Leaves m' d refl f p (frame.on_row m (connected d) i))

  pub run-kept : (m : Fetcher) → IsPending row m → I m → I (run world row.id m).1
  run-kept m p i =
      Ends-state (λ _. Settled world row I frame)
        (Leaves world.cancelled_at_semaphore world.cancelled_at_lock) I (run world row.id m)
        (λ _ s h. elim h [ inl f ↦ f.2 | inr d ↦ d.1.2 ])
        (λ _ s h. elim h [ inl a ↦ a.1.2 | inr b ↦ b.2.2 ]) (run-Closes m p i)
