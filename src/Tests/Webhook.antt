-- ===== src/Tests/Webhook.antt =====
-- Examples for app/webhooks.
use local_image_generator_se.Common.{◌+◌, ◌≤◌, ◌≡◌, ◌≢◌, refl, ◌↔◌, true, List, [], ◌∷◌, arith, In}
use local_image_generator_se.Common.Effect.{raised}
use local_image_generator_se.Common.Table.{find, select, order_by}
use local_image_generator_se.Common.Text.{Text, codes, text_eq, split, strip, among, starts_with}
use local_image_generator_se.Schema.{Database, completed, integrity}
use local_image_generator_se.Jobs.Deliveries.{latest_of}
use local_image_generator_se.Webhooks.Retry.{next_retry_at, next_retry_at-backoff}
use local_image_generator_se.Webhooks.Policy.{
  is_prod, scheme_allowed, allow_any_host, host_allowed, allowed_hosts, toctou_allows,
  first_signing_secret,
}
use local_image_generator_se.Webhooks.Policy.Production.{
  host_of, ResolvesPublic, toctou_allows-prod,
}
use local_image_generator_se.Webhooks.Payload.{own_headers, is_reserved, add_headers}
use local_image_generator_se.Webhooks.Payload.Headers.{add_headers-reserved}
use local_image_generator_se.Webhooks.Dispatcher.{World, review, request, process_one, store_error}
use local_image_generator_se.Webhooks.Dispatcher.Signed.{IsSigned}
use local_image_generator_se.Webhooks.Dispatcher.Verdict.{at, IsDelivered, process_one-verdict}
use local_image_generator_se.Webhooks.Dispatcher.Stuck.{IsExhausted, passes, passes_stuck}
use local_image_generator_se.Tests.Samples.{
  row, database, environment, parsed_url, world, fifth_attempt, exhausted_database,
}

next_retry_at-backoff_example :
    (5 + 60000000 ≤ 60000005) × (60000005 ≤ 900000005) × (900000005 ≤ 5 + 3600000000)
unfolding next_retry_at
next_retry_at-backoff_example =
    next_retry_at-backoff 1 3 5 60000005 900000005 (omega arith) (omega arith) refl refl

toctou_allows-prod_example : (toctou_allows environment world.resolve parsed_url ≡ true) ↔ (
    (parsed_url.scheme ≡ codes "https")
    × In (host_of parsed_url) (allowed_hosts environment)
    × (host_of parsed_url ≢ [])
    × ResolvesPublic world.resolve (host_of parsed_url))
unfolding is_prod text_eq
toctou_allows-prod_example = toctou_allows-prod environment world.resolve parsed_url refl

abbrev own : List (Text × Text)
own = own_headers (codes "job.completed") (codes "c") (codes "d") (codes "1") (codes "s")

abbrev callers : List (Text × Text)
callers = (codes "X-ImageGen-Event", codes "forged") ∷ (codes "X-Trace", codes "7") ∷ []

add_headers-reserved_example :
    In (codes "X-ImageGen-Event", codes "forged") (add_headers own callers)
    ↔ In (codes "X-ImageGen-Event", codes "forged") own
unfolding is_reserved starts_with
add_headers-reserved_example =
    add_headers-reserved own callers (codes "X-ImageGen-Event", codes "forged") refl

process_one-verdict_example :
    let job = row "c" 2 completed in
    let p = request world job "https://hooks.example/done" (codes "s1") in
    IsSigned world job "https://hooks.example/done" (codes "s1") p
    × IsDelivered world job 1 p database []
        (world.on_post p)
        (process_one world job (at database []))
unfolding review latest_of find order_by select toctou_allows scheme_allowed is_prod allow_any_host
    host_allowed first_signing_secret text_eq split strip among
process_one-verdict_example =
    process_one-verdict world (row "c" 2 completed) "https://hooks.example/done" (codes "s1")
      database [] refl refl tt refl refl refl refl

exhausted : IsExhausted "c" exhausted_database.webhook_deliveries
unfolding latest_of select order_by
exhausted = record {
  last = fifth_attempt;
  is_latest = refl;
  number = omega arith;
  no_retry = refl;
  not_delivered = λ e. cc;
}

passes_stuck_example :
    (d' : Database) × (passes (world ∷ world ∷ []) (row "c" 2 completed) (at exhausted_database [])
      ≡ at d' [])
    × (d'.jobs ≡ exhausted_database.jobs)
    × ((w : World)
        → (process_one w (row "c" 2 completed) (at d' [])).0 ≡ raised (store_error integrity))
passes_stuck_example =
    passes_stuck (world ∷ world ∷ []) (row "c" 2 completed) "https://hooks.example/done"
      exhausted_database [] refl refl exhausted
