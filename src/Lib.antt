-- ===== src/Lib.antt =====
-- local-image-generator-service: an HTTP service that queues image and video generation jobs in
-- SQLite, runs them one at a time against ComfyUI, and reports the results by response and webhook.
--
-- The parts, and how they interact. A request is checked against the model registry and turned into
-- a job (app/validation.py). The job is a row of the jobs table (app/queue/jobs.py), written
-- through the store (app/queue/store.py). At boot the rows of a former process are recovered
-- (app/queue/recovery.py, app/queue/fetches_recovery.py). When a job has ended, and its response
-- has been handed over, the dispatcher posts its webhook and records the attempts
-- (app/webhooks/dispatcher.py, retry.py, signing.py). LoRA files are fetched from Civitai
-- (app/loras/civitai.py) under a table of their own (app/queue/fetches.py), and old ones make room
-- for new ones (app/loras/eviction.py). The worker takes the jobs from the queue one at a time,
-- prepares a graph from the template of the model (app/registry/workflows.py), submits it, and
-- writes to the row how the job goes on (app/queue/worker.py). Requests carry a key of one of two
-- scopes (app/auth.py). A reaper deletes results that nobody fetched (app/queue/reaper.py).
--
-- Which file models which part:
-- - Common and below: library names, lists, SQL statements over lists of rows (Table), tables with
--   a primary key (Keys), Python's text methods over code points (Text), decimal numerals (Digits),
--   dicts (Dict), and coroutines that change a state and may raise (Effect).
-- - Schema: the rows of migrations/*.sql, which are the dataclasses of jobs.py and fetches.py.
-- - Store: `JobStore.write` and `JobStore.read` as a state monad that keeps the store after a
--   raise.
-- - Jobs.Transitions: `create_queued`, `get_by_id`, and `set_running`, `set_completed`,
--   `set_failed`, `set_abandoned`. Jobs.Flags: the flag updates, the counts and the scans.
--   Jobs.Deliveries: the attempts of webhooks. Jobs.Operations: all operations as one type, and
--   histories of them.
-- - Fetches: the operations of fetches.py, with the unique partial index of its migration.
-- - Recovery: `recover_jobs`, `recover_fetches`, and `OrphanReaper.reap_once`.
-- - Webhooks.Policy: `_toctou_allows`, `_first_signing_secret`. Webhooks.Retry: `next_retry_at`.
--   Webhooks.Payload: `_build_payload`, the signature and the headers. Webhooks.Dispatcher:
--   `_process_one` (Signed: what is posted; Verdict: what it leaves; Stuck: the sixth attempt).
-- - Validation: the request models (Request), `_parse_size` (Size), the frame counts (Frames), the
--   webhook checks (Webhook), LoRA resolution and the VRAM guard (Loras), `resolve_and_validate`
--   (Image) and `resolve_and_validate_video` (Video).
-- - Workflows: graphs and anchors (Graph, Anchors: `_title_anchors`, `find_anchor`,
--   `validate_anchors`; Required: the anchors of each family), `inject_model_source`,
--   `inject_vpred`, `inject_init_image` (Sources, Kept), and `inject_loras` with its helpers
--   (Loras; Output: the output of a source), and the injections of the LTXV family (Ltxv) and of the
--   WAN family (Weights, and Wan and below) of app/registry/workflows.py;
--   `apply_wan_advanced_patches` of
--   app/registry/wan_advanced.py (Advanced).
-- - Worker: the queue worker of app/queue/worker.py for image jobs, LTX videos and WAN videos.
--   Backend has its state, the calls that it makes and their answers, and exceptions as values;
--   Prompt the graph of an image job, Ltxv that of an LTX video and Wan that of a WAN video; Steps
--   and Finish the steps of `_run_pipeline`, each with its `except` clauses; Video
--   `_run_ltxv_pipeline` and `_run_video_pipeline`; Pipeline `_run_pipeline`, `_process_one` and
--   `run`. Row, Settled, Stages, Outputs, Media, Completed and Verdict follow the row of
--   the job, and Quiet and Swap the calls. Frame and below: what one job leaves to the others,
--   and the loop over the queue.
-- - Eviction: `evict_for` of app/loras/eviction.py over files with sizes and sidecars (Sizes: the
--   bytes; Spared: the files that are kept).
-- - Civitai: the fetcher of app/loras/civitai.py. Url has `_validate_download_url`, Metadata
--   `_fetch_metadata`, `_pick_primary_file` and the sidecar, Stream `_stream_download`, Room the
--   call of `evict_for`, and Fetch `_fetch` with `_run`. Row, Streamed, Settled, Written, Fetched
--   and Closed follow the row of the request, Integrity the files, and Requested the requests.
-- - Auth: keys, bearer tokens, `require_auth`, `require_admin` and `verify_key` of app/auth.py.
-- - Slug: `sanitize_slug` of app/loras/civitai_url.py.
-- - Tests: concrete rows, and each result at concrete values.
--
-- How state and code correspond. A coroutine that uses the store is a function from the store to a
-- result and the store after it; a write is one transaction, which commits or rolls back. A list of
-- rows in the order of insertion stands for a table. Times are instants in microseconds, given to
-- an operation as an argument or by a numbered clock. Floats that are at least 0 are whole
-- thousandths, and are added exactly. Python's text methods are modelled for ASCII letters and
-- all white space. Loops over rows, headers, keys, nodes and chunks are structural recursion. Only
-- the digits of a number n are made on fuel, n + 1 of it, and a number has no more digits than that.
--
-- What is a parameter: the hash of a key, URL parsing, name resolution, the HTTP client, HMAC,
-- JSON, base64, `float`, the file tree of the LoRAs, the object storage, the adapter of ComfyUI,
-- the imaging library, the environment, the division of floats, the clocks and the drawn ids and
-- seeds.
--
-- What is not modelled: the HTTP routes and middleware, logging, the totals that the metrics keep,
-- the sockets of the ComfyUI client, the S3 client, who holds the semaphore and the locks of the
-- Civitai client (a wait for one of them may be cancelled), migrations, and the endless loops that
-- only sleep between passes.
pub mod Common
pub mod Schema
pub mod Store
pub mod Jobs
pub mod Webhooks
pub mod Fetches
pub mod Recovery
pub mod Validation
pub mod Workflows
pub mod Worker
pub mod Eviction
pub mod Auth
pub mod Slug
pub mod Civitai
pub mod Tests
