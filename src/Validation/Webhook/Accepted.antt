-- ===== src/Validation/Webhook/Accepted.antt =====
-- app/validation.py: the check of a webhook's header keys.
use local_image_generator_se.Common.{
  String, Option, none, some, ◌⊎◌, ◌≢◌, inl, inr, false, ◌≤◌, ◌≡◌, refl, sym, ap, ◌∙◌, true, false,
  not, List, [], ◌∷◌, ◌++◌, arith, All, ltb, length, ◌↔◌,
}
use local_image_generator_se.Common.Text.{Text, codes, among, among-In, In-among}
use local_image_generator_se.Webhooks.Policy.{ParsedUrl}
use local_image_generator_se.Validation.Request.{
  WebhookSpec, webhook_scheme, webhook_host, valid, refuse_if, validation_error, header_reserved,
  header_characters, header_length,
}
use local_image_generator_se.Validation.Inversion.{bind-valid}
use local_image_generator_se.Validation.Webhook.{
  all_key_chars, before_newline, key_matches, is_reserved_key, normalize_headers, checked_headers,
  no_host, WebhookTarget, resolve_webhook,
}

-- The three checks of one header.
abbrev pub IsAcceptable : Text × Text → Type 0
IsAcceptable (k, v) = (is_reserved_key k ≡ false) × (key_matches k ≡ true) × (length v ≤ 256)

normalized-All :
    (hs out : List (Text × Text))
    → normalize_headers hs ≡ valid out
    → (out ≡ hs) × All IsAcceptable hs
unfolding normalize_headers
normalized-All [] out h = (ground arith, tt)
normalized-All ((k, v) ∷ rest) out h =
    let (u, free, h1) =
      bind-valid (refuse_if (is_reserved_key k) validation_error header_reserved) _ h in
    let (w, shape, h2) =
      bind-valid (refuse_if (not (key_matches k)) validation_error header_characters) _ h1 in
    let (x, short, h3) =
      bind-valid (refuse_if (ltb 256 (length v)) validation_error header_length) _ h2 in
    let (tail, later, h4) = bind-valid (normalize_headers rest) _ h3 in
    let (same, all) = normalized-All rest tail later in
    (
      ground (arith, h4, same),
      ((ground (arith, free), ground (arith, shape), ground (arith, short)), all),
    )

acceptable-All : (hs : List (Text × Text)) → All IsAcceptable hs → normalize_headers hs ≡ valid hs
unfolding normalize_headers
acceptable-All [] a = refl
acceptable-All ((k, v) ∷ rest) a = rw (a.0.0, a.0.1, short v a.0.2, acceptable-All rest a.1)
  where
    short : (v : Text) → length v ≤ 256 → ltb 256 (length v) ≡ false
    short v h = ground arith

-- The headers of a webhook are accepted, unchanged, exactly when no key is reserved, every key
-- matches the pattern and no value is longer than 256.
pub normalize_headers_iff :
    (hs out : List (Text × Text))
    → (normalize_headers hs ≡ valid out) ↔ ((out ≡ hs) × All IsAcceptable hs)
normalize_headers_iff hs out =
    (normalized-All hs out, λ p. acceptable-All hs p.1 ∙ ap valid (sym p.0))

-- `http` or `https`.
abbrev IsHttp : Text → Type 0
IsHttp scheme = (scheme ≡ codes "http") ⊎ (scheme ≡ codes "https")

abbrev given_headers : Option (List (Text × Text)) → List (Text × Text)
given_headers none = []
given_headers (some hs) = hs

-- The headers of the job: none where the request has none or an empty dict.
abbrev kept_headers : List (Text × Text) → Option (List (Text × Text))
kept_headers [] = none
kept_headers (h ∷ hs) = some (h ∷ hs)

-- What a webhook of a request becomes, when it is accepted.
abbrev pub IsTarget : (String → ParsedUrl) → Option WebhookSpec → WebhookTarget → Type 0
IsTarget urlparse none target = target ≡ (none, none)
IsTarget urlparse (some spec) target =
    IsHttp (urlparse spec.url).scheme
    × ((host : Text) × ((urlparse spec.url).hostname ≡ some host) × (host ≢ []))
    × All IsAcceptable (given_headers spec.headers)
    × (target ≡ (some spec.url, kept_headers (given_headers spec.headers)))

checked_headers-kept :
    (o out : Option (List (Text × Text)))
    → checked_headers o ≡ valid out
    → All IsAcceptable (given_headers o) × (out ≡ kept_headers (given_headers o))
unfolding checked_headers
checked_headers-kept none out h = (tt, ground (arith, h))
checked_headers-kept (some []) out h = (tt, ground (arith, h))
checked_headers-kept (some (x ∷ xs)) out h =
    let (hs, e, q) = bind-valid (normalize_headers (x ∷ xs)) _ h in
    let (same, all) = normalized-All (x ∷ xs) hs e in (all, ground (arith, q, same))

kept-checked_headers :
    (o : Option (List (Text × Text)))
    → All IsAcceptable (given_headers o)
    → checked_headers o ≡ valid (kept_headers (given_headers o))
unfolding checked_headers
kept-checked_headers none a = refl
kept-checked_headers (some []) a = refl
kept-checked_headers (some (x ∷ xs)) a = rw (acceptable-All (x ∷ xs) a) refl

IsHttp-iff :
    (scheme : Text) → (among scheme (codes "http" ∷ codes "https" ∷ []) ≡ true) ↔ IsHttp scheme
IsHttp-iff scheme = (
  λ h. elim (among-In scheme (codes "http" ∷ codes "https" ∷ []) h) [
    | inl e ↦ inl e
    | inr (inl e) ↦ inr e
    | inr (inr b) ↦ absurd b
  ],
  λ p.
      In-among scheme (codes "http" ∷ codes "https" ∷ [])
        (elim p [ inl e ↦ inl e | inr e ↦ inr (inl e) ]),
)

no_host_iff :
    (o : Option Text) → (no_host o ≡ false) ↔ ((host : Text) × (o ≡ some host) × (host ≢ []))
no_host_iff none = ((λ h. absurd (ground (arith, h))), λ (x, e, n). absurd (ground (arith, e)))
no_host_iff (some []) =
    ((λ h. absurd (ground (arith, h))), λ (x, e, n). absurd (n (sym (some_inj e))))
  where
    some_inj : {x y : Text} → some x ≡ some y → x ≡ y
    some_inj h = ground (arith, h)
no_host_iff (some (c ∷ cs)) = ((λ h. (c ∷ cs, refl, λ e. absurd (ground (arith, e)))), λ p. refl)

-- The check of a webhook accepts exactly these, with this target.
pub resolve_webhook_iff :
    (urlparse : String → ParsedUrl) (o : Option WebhookSpec) (target : WebhookTarget)
    → (resolve_webhook urlparse o ≡ valid target) ↔ IsTarget urlparse o target
unfolding resolve_webhook
resolve_webhook_iff urlparse none target = ((λ h. ground (arith, h)), λ e. rw e refl)
resolve_webhook_iff urlparse (some spec) target = (
  λ h.
      let (u, e1, h1) =
        bind-valid
          (refuse_if (not (among (urlparse spec.url).scheme (codes "http" ∷ codes "https" ∷ [])))
            validation_error webhook_scheme)
          _ h in
      let (v, e2, h2) =
        bind-valid (refuse_if (no_host (urlparse spec.url).hostname) validation_error webhook_host)
          _ h1 in
      let (hs, e3, h3) = bind-valid (checked_headers spec.headers) _ h2 in
      let (all, same) = checked_headers-kept spec.headers hs e3 in
      (
        (IsHttp-iff (urlparse spec.url).scheme).0 (ground (arith, e1)),
        (no_host_iff (urlparse spec.url).hostname).0 (ground (arith, e2)),
        all,
        ground (arith, h3, same),
      ),
  λ (s, host, all, same).
      rw
        (
          (IsHttp-iff (urlparse spec.url).scheme).1 s,
          (no_host_iff (urlparse spec.url).hostname).1 host,
          kept-checked_headers spec.headers all,
          same,
        )
        refl,
)

before_newline-append : (k : Text) → before_newline (k ++ 10 ∷ []) ≡ k
unfolding before_newline
before_newline-append [] = refl
before_newline-append (c ∷ []) = refl
before_newline-append (c ∷ d ∷ cs) = ap (◌∷◌ c) (before_newline-append (d ∷ cs))

-- A key of 1 to 64 key characters is matched also with a newline after it, so a header with a line
-- break in its key passes the check of the characters.
pub key_matches-newline :
    (k : Text)
    → all_key_chars k ≡ true
    → 1 ≤ length k
    → length k ≤ 64
    → key_matches (k ++ 10 ∷ []) ≡ true
unfolding key_matches
key_matches-newline k h low high = rw (before_newline-append k, h) (ground arith)
