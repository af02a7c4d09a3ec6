-- ===== src/Civitai.antt =====
-- app/loras/civitai.py: the fetch of a LoRA from Civitai. A fetcher keeps the store and the files
-- of the folder civitai/, each under its canonical name with the temporary file and the sidecar
-- beside it, and notes the requests that it sends.
pub mod Url
pub mod Metadata
pub mod Stream
pub mod Room
pub mod Fetch
pub mod Row
pub mod Streamed
pub mod Settled
pub mod Written
pub mod Fetched
pub mod Closed
pub mod Integrity
pub mod Requested
use local_image_generator_se.Common.{
  ℕ, String, Bool, Option, none, some, List, [], ◌∷◌, ◌++◌, if◌then◌else◌,
}
use local_image_generator_se.Common.Dict.{Dict, get, put}
use local_image_generator_se.Common.Effect.{Outcome, returned, raised, Effect}
use local_image_generator_se.Common.Text.{Text, text_eq}
use local_image_generator_se.Schema.{Error, LoraFetch}
use local_image_generator_se.Store
use local_image_generator_se.Store.{JobStore, Exec, ok, err}
use local_image_generator_se.Eviction.{Surroundings}

abbrev pub Bytes : Type 0
Bytes = List ℕ

-- A JSON value; a number is its literal.
mutual
  pub data Json : Type 0 where
    null : Json
    flag : Bool → Json
    number text : Text → Json
    array : Elements → Json
    object : Members → Json

  pub data Elements : Type 0 where
    no_elements : Elements
    element : Json → Elements → Elements

  pub data Members : Type 0 where
    no_members : Members
    member : Text → Json → Members → Members

-- `value.get(key)` of a dict.
unfoldable pub member_of : Text → Members → Option Json
member_of k no_members = none
member_of k (member j v rest) =
    let later = member_of k rest in if text_eq j k then some v else later

-- What `urlparse` reports. `port` is `none` where reading it raises ValueError.
pub record ParsedUrl : Type 0 where
  pub scheme : Text
  pub username : Option Text
  pub password : Option Text
  pub port : Option (Option ℕ)
  pub hostname : Option Text

-- The exceptions of a fetch: httpx's, those of the stream, and Python's. `os_error` says whether
-- no space is left.
pub data Raised : Type 0 where
  http_status : ℕ → Raised
  transport : String → Raised
  download_too_large slow_download mid_stream_disk_full timed_out cancelled : Raised
  os_error : Bool → Raised
  value_error : Raised
  other : String → Raised
  store_error : Error → Raised

-- The statement whose failure a message speaks of; `comparing` has the hash that is expected and
-- the one that came.
pub data Stage : Type 0 where
  fetching_metadata picking sizing evicting checking_url streaming unexpected : Stage
  comparing : Text → Text → Stage

-- A request with the token of its Authorization header.
pub record Request : Type 0 where
  pub url : Text
  pub token : Option Text

-- The sidecar of a file.
pub record Document : Type 0 where
  pub name : Text
  pub filename : Text
  pub sha256 : Text
  pub source : String
  pub civitai_model_id : Option ℕ
  pub civitai_version_id : ℕ
  pub base_model_hint : Option Text
  pub trigger_words : List Text
  pub fetched_at : Text
  pub last_used : Option ℕ

-- The three paths of one canonical name.
pub record Files : Type 0 where
  pub safetensors : Option Bytes
  pub tmp : Option Bytes
  pub sidecar : Option Document

abbrev pub Disk : Type 0
Disk = Dict Files

pub record Fetcher : Type 0 where
  pub store : JobStore
  pub disk : Disk
  pub requests : List Request

-- A chunk of the answer as the loop meets it: its bytes, the microseconds since the start, what
-- writing it raises, and the free space of the disk after it.
pub record Chunk : Type 0 where
  pub bytes : Bytes
  pub elapsed : ℕ
  pub on_write : Option Raised
  pub free : ℕ

-- An answer with its status raised for, or its chunks and what the stream raises after them.
pub data Download : Type 0 where
  refused : Raised → Download
  stream : List Chunk → Option Raised → Download

-- What one fetch meets outside the program: the configuration, clocks, disk, network, hash and
-- floats. `times_1024` is `int(value * 1024)`, where a negative size counts as 0; `redirects` are the
-- URLs to which the answers to a download lead, in turn; and `cancelled_at_semaphore` and
-- `cancelled_at_lock` tell whether the task is cancelled while it waits for the one or the other.
pub record World : Type 0 where
  pub api_token : Option Text
  pub file_max_bytes : ℕ
  pub dir_max_bytes : ℕ
  pub recent_use_days : ℕ
  pub clock : ℕ → ℕ
  pub now_text : Text
  pub free : ℕ
  pub surroundings : Surroundings
  pub urlparse : Text → ParsedUrl
  pub is_zero : Text → Bool
  pub times_1024 : Json → Outcome Raised ℕ
  pub sha256 : Bytes → Text
  pub name_text : Text → String
  pub message : Stage → Option Raised → String
  pub on_get : ℕ → Outcome Raised Json
  pub redirects : Text → List Text
  pub on_stream : Text → Download
  pub cancelled_at_semaphore : Bool
  pub cancelled_at_lock : Bool
  pub on_mkdir : Outcome Raised (Unit {0})
  pub on_sidecar : Outcome Raised (Unit {0})
  pub on_replace : Outcome Raised (Unit {0})

abbrev pub Fetching : Type 0 → Type 0
Fetching A = Effect Fetcher Raised A

abbrev of_exec : {A : Type 0} → Fetcher → Store.Result A × JobStore → Outcome Raised A × Fetcher
of_exec m (ok a, s) = (returned a, record m { store = s })
of_exec m (err e, s) = (raised (store_error e), record m { store = s })

-- A call of app/queue/fetches.py.
abbrev pub on_store : {A : Type 0} → Exec A → Fetching A
on_store x m = of_exec m (x m.store)

abbrev files_or_none : Option Files → Files
files_or_none none = record { safetensors = none; tmp = none; sidecar = none }
files_or_none (some f) = f

abbrev pub files_of : Text → Disk → Files
files_of name disk = files_or_none (get name disk)

-- A change of the files of one canonical name.
abbrev pub on_files : Text → (Files → Files) → Fetcher → Fetcher
on_files name f m = record m { disk = put name (f (files_of name m.disk)) m.disk }

abbrev pub note_request : Request → Fetcher → Fetcher
note_request r m = record m { requests = m.requests ++ r ∷ [] }

abbrev pub without_token : List Text → List Request
without_token [] = []
without_token (url ∷ urls) = record { url = url; token = none } ∷ without_token urls

-- The requests of a download with `follow_redirects=True`, none of which has the token.
abbrev pub note_download : World → Text → Fetcher → Fetcher
note_download world url m = record m {
  requests = m.requests ++ without_token (url ∷ world.redirects url);
}
