-- ===== src/Tests/Fetch.antt =====
-- Examples for app/loras/civitai.py: a version whose file is downloaded, verified and installed.
use local_image_generator_se.Common.{◌≡◌, refl, true, false, none, some, [], ◌∷◌}
use local_image_generator_se.Common.Dict.{get, put}
use local_image_generator_se.Common.Table.{find, update, set_where}
use local_image_generator_se.Common.Effect.{returned}
use local_image_generator_se.Common.Text.{Text, codes}
use local_image_generator_se.Schema.{Database, LoraFetch, FetchStatus}
use local_image_generator_se.Store.{connected}
use local_image_generator_se.Eviction.{Surroundings, not_a_dict}
use local_image_generator_se.Civitai.{
  Json, flag, text, array, object, no_elements, element, no_members, member, ParsedUrl, Fetcher,
  World, Chunk, stream, files_of,
}
use local_image_generator_se.Civitai.Room.{make_room}
use local_image_generator_se.Civitai.Fetch.{run}
use local_image_generator_se.Civitai.Row.{Row}
use local_image_generator_se.Civitai.Closed.{IsPending}
use local_image_generator_se.Civitai.Integrity.{AllVerified, run-AllVerified}
use local_image_generator_se.Civitai.Requested.{AllAllowed, run-AllAllowed}

abbrev pending_fetch : LoraFetch
pending_fetch = record {
  id = "f1";
  url = "https://civitai.com/models/1?modelVersionId=7";
  civitai_model_id = some 1;
  civitai_version_id = 7;
  status = FetchStatus.pending;
  progress_bytes = 0;
  total_bytes = none;
  dest_name = none;
  error_code = none;
  error_message = none;
  handover = false;
  created_at = 1;
  updated_at = 1;
}

abbrev fetches : Database
fetches = record { jobs = []; webhook_deliveries = []; lora_fetches = pending_fetch ∷ [] }

abbrev primary_file : Json
primary_file = object (
    member (codes "primary") (flag true) (
      member (codes "name") (text (codes "My Style.safetensors")) (
        member (codes "downloadUrl") (text (codes "https://civitai.com/api/download/models/7")) (
          member (codes "hashes") (object (member (codes "SHA256") (text (codes "ABC")) no_members))
            no_members))))

abbrev version_metadata : Json
version_metadata =
    object (member (codes "files") (array (element primary_file no_elements)) no_members)

abbrev first_chunk : Chunk
first_chunk = record { bytes = codes "abc"; elapsed = 20; on_write = none; free = 1000 }

abbrev download_url : ParsedUrl
download_url = record {
  scheme = codes "https";
  username = none;
  password = none;
  port = some none;
  hostname = some (codes "CDN.civitai.com");
}

abbrev no_jobs : Surroundings
no_jobs = record { store_at = λ k. fetches; loads = λ t. not_a_dict; can_unlink = λ name. true }

-- The hash of the examples is the identity.
abbrev outside : World
outside = record {
  api_token = some (codes "secret");
  file_max_bytes = 1000;
  dir_max_bytes = 5000;
  recent_use_days = 7;
  clock = λ k. k;
  now_text = codes "2026-01-01";
  free = 1000;
  surroundings = no_jobs;
  urlparse = λ url. download_url;
  is_zero = λ n. false;
  times_1024 = λ v. returned 3;
  sha256 = λ bytes. bytes;
  name_text = λ name. "civitai/My_Style_7";
  message = λ stage e. "message";
  on_get = λ k. returned version_metadata;
  redirects = λ url. [];
  cancelled_at_semaphore = false;
  cancelled_at_lock = false;
  on_stream = λ url. stream (first_chunk ∷ []) none;
  on_mkdir = returned tt;
  on_sidecar = returned tt;
  on_replace = returned tt;
}

abbrev fetcher : Fetcher
fetcher = record { store = connected fetches; disk = []; requests = [] }

fetcher-IsPending : IsPending pending_fetch fetcher
unfolding find
fetcher-IsPending = (fetches, refl, refl, refl)

installs :
    (files_of (codes "civitai/My_Style_7") (run outside "f1" fetcher).1.disk).safetensors
    ≡ some (codes "abc")
unfolding run get put find update set_where make_room
installs = refl

run-AllVerified_example : AllVerified outside pending_fetch [] (run outside "f1" fetcher).1.disk
run-AllVerified_example = run-AllVerified outside pending_fetch fetcher fetcher-IsPending

run-AllAllowed_example : AllAllowed outside pending_fetch [] (run outside "f1" fetcher).1.requests
run-AllAllowed_example = run-AllAllowed outside pending_fetch fetcher fetcher-IsPending
