-- ===== src/Civitai/Metadata.antt =====
-- app/loras/civitai.py: the metadata of a version, asked for at most three times, its primary file,
-- and the sidecar that is written from it.
use local_image_generator_se.Common.{
  ℕ, zero, suc, Bool, true, false, ◌&&◌, not, Option, none, some, List, [], ◌∷◌, ◌++◌, leb, ltb,
  if◌then◌else◌,
}
use local_image_generator_se.Common.Digits.{str}
use local_image_generator_se.Common.Effect.{
  Outcome, returned, raised, ◌>>◌, answer, modify, throw, give, try_else,
}
use local_image_generator_se.Common.Text.{Text, codes, ends_with, is_empty, truthy}
use local_image_generator_se.Civitai.{
  Json, flag, number, text, array, object, Elements, Members, no_elements, no_members, element,
  member, member_of, Raised, http_status, transport, value_error, other, Document, Request, World,
  Fetching, note_request, on_files,
}

-- The entry that the checks read: its name, its URL, its hash, and the value of `sizeKB`.
pub record FileEntry : Type 0 where
  pub name : Text
  pub download_url : Text
  pub sha256 : Text
  pub size_kb : Option Json

abbrev pub is_retryable : Raised → Bool
is_retryable (http_status code) = leb 500 code && ltb code 600
is_retryable (transport e) = true
is_retryable e = false

abbrev pub api_url : ℕ → Text
api_url version_id = codes "https://civitai.com/api/v1/model-versions/" ++ str version_id

-- The request that is sent for the metadata: an empty token is none.
abbrev pub metadata_request : World → ℕ → Request
metadata_request world version_id = record {
  url = api_url version_id;
  token = truthy world.api_token;
}

-- The attempts from the attempt `k` on, of which `left` may still fail.
unfoldable pub attempts : World → ℕ → ℕ → ℕ → Fetching Json
unfolding str
attempts world version_id k zero = throw (other "unreachable")
attempts world version_id k (suc left) =
    modify (note_request (metadata_request world version_id))
    >> try_else (answer (world.on_get k)) give (λ e.
      let again = attempts world version_id (suc k) left in
      if is_retryable e && ltb 0 left then again else throw e)

unfoldable pub fetch_metadata : World → ℕ → Fetching Json
unfolding attempts
fetch_metadata world version_id = attempts world version_id 1 3

-- Whether a JSON value counts as true.
truth : World → Option Json → Bool
truth world (some (flag b)) = b
truth world (some (number n)) = not (world.is_zero n)
truth world (some (text t)) = not (is_empty t)
truth world (some (array (element e es))) = true
truth world (some (object (member k v ms))) = true
truth world _ = false

-- The first dict of the list whose `primary` is true.
unfoldable pub primary_of : World → Elements → Option Members
unfolding truth member_of
primary_of world no_elements = none
primary_of world (element (object entry) rest) =
    let later = primary_of world rest in
    if truth world (member_of (codes "primary") entry) then some entry else later
primary_of world (element _ rest) = primary_of world rest

abbrev as_text : Option Json → Option Text
as_text (some (text (c ∷ cs))) = some (c ∷ cs)
as_text _ = none

-- A text that is there and not empty.
abbrev text_member : Text → Members → Option Text
text_member k ms = as_text (member_of k ms)

abbrev files_in : Option Json → Elements
files_in (some (array es)) = es
files_in _ = no_elements

abbrev hashes_in : Option Json → Members
hashes_in (some (object ms)) = ms
hashes_in _ = no_members

abbrev entry_of : Option Json → Text → Option Text → Option Text → Option FileEntry
entry_of size_kb name (some url) (some sha) =
    some (record { name = name; download_url = url; sha256 = sha; size_kb = size_kb })
entry_of size_kb name _ _ = none

abbrev checked : Members → Option Text → Option FileEntry
checked entry none = none
checked entry (some name) =
    if ends_with name (codes ".safetensors")
    then entry_of (member_of (codes "sizeKB") entry) name (text_member (codes "downloadUrl") entry)
        (text_member (codes "SHA256") (hashes_in (member_of (codes "hashes") entry)))
    else none

abbrev file_entry : Option Members → Option FileEntry
file_entry none = none
file_entry (some entry) = checked entry (text_member (codes "name") entry)

abbrev or_value_error : {A : Type 0} → Option A → Outcome Raised A
or_value_error none = raised value_error
or_value_error (some a) = returned a

-- A missing, a wrong and an empty value of a key raise alike. What is no dict has no `get`.
unfoldable pub pick_primary_file : World → Json → Outcome Raised FileEntry
unfolding primary_of member_of ends_with
pick_primary_file world (object metadata) =
    or_value_error (file_entry (primary_of world (files_in (member_of (codes "files") metadata))))
pick_primary_file world _ = raised (other "AttributeError")

unfoldable pub words : Elements → List Text
words no_elements = []
words (element (text t) rest) = t ∷ words rest
words (element _ rest) = words rest

abbrev text_or_none : Option Json → Option Text
text_or_none (some (text t)) = some t
text_or_none _ = none

abbrev members_in : Json → Members
members_in (object ms) = ms
members_in _ = no_members

unfoldable pub sidecar_of : World → Text → Text → Option ℕ → ℕ → Json → Document
unfolding words member_of
sidecar_of world canonical_name sha256 model_id version_id metadata =
    let ms = members_in metadata in
    record {
      name = canonical_name;
      filename = canonical_name ++ codes ".safetensors";
      sha256 = sha256;
      source = "civitai";
      civitai_model_id = model_id;
      civitai_version_id = version_id;
      base_model_hint = text_or_none (member_of (codes "baseModel") ms);
      trigger_words = words (files_in (member_of (codes "trainedWords") ms));
      fetched_at = world.now_text;
      last_used = none;
    }

-- _write_sidecar_atomic
unfoldable pub write_sidecar : World → Text → Document → Fetching (Unit {0})
write_sidecar world canonical_name document =
    answer world.on_sidecar
    >> modify (on_files canonical_name λ f. record f { sidecar = some document })
