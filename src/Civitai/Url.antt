-- ===== src/Civitai/Url.antt =====
-- app/loras/civitai.py: the URLs that a fetch may stream from.
use local_image_generator_se.Common.{
  ℕ, Bool, true, false, ◌||◌, not, Option, none, some, List, [], ◌∷◌, is_some, any, if◌then◌else◌,
}
use local_image_generator_se.Common.Text.{Text, codes, lower, text_eq, among, ends_with}
use local_image_generator_se.Civitai.{ParsedUrl}

abbrev pub download_allowed_hosts : List Text
download_allowed_hosts = codes "civitai.com" ∷ codes "civitai.red" ∷ []

abbrev pub download_allowed_suffixes : List Text
download_allowed_suffixes = codes ".civitai.com" ∷ codes ".civitai.red" ∷ []

abbrev host_or_empty : Option Text → Text
host_or_empty none = []
host_or_empty (some h) = h

-- Whether an explicit port, or one that cannot be read, stands in the URL.
abbrev bad_port : Option (Option ℕ) → Bool
bad_port none = true
bad_port (some p) = is_some p

-- `false` where the code raises ValueError.
unfoldable pub validate_download_url : ParsedUrl → Bool
unfolding text_eq among ends_with
validate_download_url parsed =
    let host = lower (host_or_empty parsed.hostname) in
    if not (text_eq parsed.scheme (codes "https"))
    then false
    else if is_some parsed.username || is_some parsed.password
    then false
    else if bad_port parsed.port
    then false
    else if among host download_allowed_hosts
    then true
    else any (ends_with host) download_allowed_suffixes
