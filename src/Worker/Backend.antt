-- ===== src/Worker/Backend.antt =====
-- app/queue/worker.py and app/backends/base.py: the state of a worker, what it calls, and its
-- coroutines as functions from the worker to an answer and the worker after it.
use local_image_generator_se.Common.{ℕ, String, Bool, Option, none, some, List, [], ◌∷◌, ◌++◌}
use local_image_generator_se.Common.Text.{Text}
use local_image_generator_se.Schema.{Error, Job}
use local_image_generator_se.Store
use local_image_generator_se.Store.{JobStore, Exec, ok, err}
use local_image_generator_se.Jobs.Transitions.{set_failed}
use local_image_generator_se.Validation.Request.{
  Site, GenerateRequest, VideoGenerateRequest, Task, ErrorCode, Reason,
}
use local_image_generator_se.Workflows.Graph.{Value, Graph, Attempt, done, raised as fault, Fault}

abbrev pub Bytes : Type 0
Bytes = List ℕ

-- An exception with its text: the three BackendErrors, StorageError, and any other class.
pub data Raised : Type 0 where
  comfy_unreachable comfy_node comfy_timeout storage_error other : String → Raised

pub data Answer {ℓ} (A : Type ℓ) : Type ℓ where
  returned : A → Answer A
  raised : Raised → Answer A

-- The calls of the adapter and of the object storage.
pub data Call : Type 0 where
  upload_image : Text → Call
  unload_models health free : Call
  submit : Graph → Call
  wait_for_completion fetch_outputs cancel_prompt : String → Call
  fetch_media_outputs : String → Call
  upload_png upload_blob : ℕ → Call

-- record_job_event
pub record Event : Type 0 where
  pub status : String
  pub error_code : Option String

-- `events` is `none` for a worker without metrics.
pub record Worker : Type 0 where
  pub store : JobStore
  pub last_model_name : Option Text
  pub calls : List Call
  pub events : Option (List Event)

-- What `health` reports. `vram_free_gb` is what `float` makes of the entry.
pub record Snapshot : Type 0 where
  pub is_ok : Bool
  pub vram_free_gb : Option ℕ

-- A stored body, read by the request model.
pub data Posted (A : Type 0) : Type 0 where
  invalid : String → Posted A
  body : A → Posted A

-- The payload of the envelope of a video: a false value that is no dict, a true one that is none
-- either, or a dict with the text of its model and the request that it makes. A model that is no text
-- counts as the empty one.
pub data Payload : Type 0 where
  absent odd : Payload
  named : Text → Posted VideoGenerateRequest → Payload

-- A stored `input_json`, read by `json.loads`. The envelope of a video has the task, when it is one
-- of the two, and the payload.
pub data Stored : Type 0 where
  not_json : String → Stored
  request : Posted GenerateRequest → Stored
  video : Option Task → Payload → Stored

pub data Datum : Type 0 where
  url_of b64_of : Text → Datum

pub record JobResult : Type 0 where
  pub data_entries : List Datum
  pub duration_ms : ℕ
  pub resolved_seed : ℕ

-- What one job meets outside the program: files, clocks, chance, the texts of exceptions, JSON and
-- base64, the imaging library, the adapter, and the object storage. The last two are methods that an adapter and a
-- storage may lack.
pub record World : Type 0 where
  pub site : Site
  pub load : String → Stored
  pub load_workflow : Text → Option Graph
  pub randbelow : ℕ
  pub clock : ℕ → ℕ
  pub duration_ms : ℕ
  pub quotient : ℕ → ℕ → Value
  pub job_timeout_s : ℕ
  pub public_base_url : Text
  pub id_text : String → Text
  pub name_text : Text → String
  pub refusal_text : ErrorCode → Reason → String
  pub fault_text : Fault → String
  pub error_text : Error → String
  pub repr : Bytes → String
  pub dumps : JobResult → String
  pub b64encode : Bytes → Text
  pub apply_transparent_background : Bytes → Answer Bytes
  pub client_id : String
  pub on_upload_image : Bytes → Text → Answer (Unit {0})
  pub on_unload_models : Answer Bool
  pub on_health : Answer Snapshot
  pub on_submit : Graph → Answer String
  pub on_wait : String → ℕ → Answer (Unit {0})
  pub on_fetch_outputs : String → Answer (List Bytes)
  pub on_upload_png : String → ℕ → Bytes → Answer String
  pub on_fetch_media : Option (String → Answer (List (Bytes × Text)))
  pub on_upload_blob : Option (String → ℕ → Bytes → Text → Text → Answer String)

abbrev pub Work : Type 0 → Type 0
Work A = Worker → Answer A × Worker

abbrev pub after : {A B : Type 0} → (A → Work B) → Answer A × Worker → Answer B × Worker
after f (returned a, w) = f a w
after f (raised e, w) = (raised e, w)

infixl 5 ◌>>=◌ ◌>>◌
abbrev pub ◌>>=◌ : {A B : Type 0} → Work A → (A → Work B) → Work B
◌>>=◌ m f w = after f (m w)

abbrev pub ◌>>◌ : {A B : Type 0} → Work A → Work B → Work B
m >> k = m >>= λ _. k

abbrev pub give : {A : Type 0} → A → Work A
give a w = (returned a, w)

abbrev pub throw : {A : Type 0} → Raised → Work A
throw e w = (raised e, w)

abbrev pub handled : {A : Type 0} → (Raised → Work A) → Answer A × Worker → Answer A × Worker
handled h (returned a, w) = (returned a, w)
handled h (raised e, w) = h e w

-- `try: m` with the `except` clauses of `h`.
abbrev pub attempt : {A : Type 0} → Work A → (Raised → Work A) → Work A
attempt m h w = handled h (m w)

-- A call, which is logged, and what it answers.
abbrev pub call : {A : Type 0} → Call → Answer A → Work A
call c a w = (a, record w { calls = w.calls ++ c ∷ [] })

abbrev note_event : Event → Option (List Event) → Option (List Event)
note_event e none = none
note_event e (some es) = some (es ++ e ∷ [])

abbrev pub record_job_event : String → Option String → Work (Unit {0})
record_job_event status error_code w = (
  returned tt,
  record w { events = note_event (record { status = status; error_code = error_code }) w.events },
)

abbrev pub of_exec : {A : Type 0} → World → Worker → Store.Result A × JobStore → Answer A × Worker
of_exec world w (ok a, s) = (returned a, record w { store = s })
of_exec world w (err e, s) = (raised (other (world.error_text e)), record w { store = s })

-- A call of app/queue/jobs.py.
abbrev pub on_store : {A : Type 0} → World → Exec A → Work A
on_store world x w = of_exec world w (x w.store)

abbrev pub on_graph : {A : Type 0} → World → Attempt A → Work A
on_graph world (done a) = give a
on_graph world (fault e) = throw (other (world.fault_text e))

-- set_failed, and the exception that is raised then, without an event.
unfoldable pub fail_unmetered : {A : Type 0} → World → Job → String → String → Raised → Work A
unfolding set_failed
fail_unmetered world job error_code message e =
    on_store world (set_failed (world.clock 1) job.id error_code message) >> throw e

-- set_failed, the event, and the exception that is raised then.
unfoldable pub fail : {A : Type 0} → World → Job → String → String → Raised → Work A
unfolding set_failed
fail world job error_code message e = do
  on_store world (set_failed (world.clock 1) job.id error_code message)
  record_job_event "failed" (some error_code)
  throw e
