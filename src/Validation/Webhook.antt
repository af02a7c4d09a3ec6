-- ===== src/Validation/Webhook.antt =====
-- The webhook part of `resolve_and_validate` and `resolve_and_validate_video`.
pub mod Accepted
use local_image_generator_se.Common.{
  ℕ, String, Bool, true, false, ◌&&◌, ◌||◌, not, Option, none, some, List, [], ◌∷◌, ◌==◌, leb, ltb,
  length, if◌then◌else◌,
}
use local_image_generator_se.Common.Text.{
  Text, codes, lower, starts_with, among, is_alnum, is_empty, text_eq,
}
use local_image_generator_se.Webhooks.Policy.{ParsedUrl}
use local_image_generator_se.Validation.Request.{
  WebhookSpec, Checked, valid, refused, refuse_if, validation_error, webhook_scheme, webhook_host,
  header_reserved, header_characters, header_length, ◌>>=◌, ◌>>◌,
}

unfoldable pub reserved_webhook_headers : List Text
reserved_webhook_headers =
    codes "host" ∷ codes "authorization" ∷ codes "content-type" ∷ codes "user-agent" ∷ []

-- [A-Za-z0-9\-_]
abbrev pub key_char : ℕ → Bool
key_char c = is_alnum c || (c == 45 || c == 95)

unfoldable pub all_key_chars : Text → Bool
all_key_chars [] = true
all_key_chars (c ∷ cs) = key_char c && all_key_chars cs

-- `$` of Python matches at the end, and before a newline that ends the text.
before_newline : Text → Text
before_newline [] = []
before_newline (c ∷ []) = if c == 10 then [] else c ∷ []
before_newline (c ∷ d ∷ cs) = c ∷ before_newline (d ∷ cs)

unfoldable pub key_matches : Text → Bool
unfolding all_key_chars before_newline
key_matches k =
    let body = before_newline k in
    all_key_chars body && (leb 1 (length body) && leb (length body) 64)

unfoldable pub is_reserved_key : Text → Bool
unfolding reserved_webhook_headers
is_reserved_key k =
    let lk = lower k in among lk reserved_webhook_headers || starts_with lk (codes "x-imagegen-")

-- The loop over the headers, whose keys are those of a dict.
unfoldable pub normalize_headers : List (Text × Text) → Checked (List (Text × Text))
unfolding is_reserved_key key_matches
normalize_headers [] = valid []
normalize_headers ((k, v) ∷ rest) = do
  refuse_if (is_reserved_key k) validation_error header_reserved
  refuse_if (not (key_matches k)) validation_error header_characters
  refuse_if (ltb 256 (length v)) validation_error header_length
  normalized ← normalize_headers rest
  valid ((k, v) ∷ normalized)

-- `if req.webhook.headers:` does nothing for an empty dict.
checked_headers : Option (List (Text × Text)) → Checked (Option (List (Text × Text)))
unfolding normalize_headers
checked_headers none = valid none
checked_headers (some []) = valid none
checked_headers (some (h ∷ hs)) = do
  normalized ← normalize_headers (h ∷ hs)
  valid (some normalized)

abbrev pub no_host : Option Text → Bool
no_host none = true
no_host (some h) = is_empty h

abbrev pub WebhookTarget : Type 0
WebhookTarget = Option String × Option (List (Text × Text))

unfoldable pub resolve_webhook : (String → ParsedUrl) → Option WebhookSpec → Checked WebhookTarget
unfolding checked_headers
resolve_webhook urlparse none = valid (none, none)
resolve_webhook urlparse (some spec) = do
  let parsed = urlparse spec.url
  refuse_if (not (among parsed.scheme (codes "http" ∷ codes "https" ∷ []))) validation_error
      webhook_scheme
  refuse_if (no_host parsed.hostname) validation_error webhook_host
  headers ← checked_headers spec.headers
  valid (some spec.url, headers)
