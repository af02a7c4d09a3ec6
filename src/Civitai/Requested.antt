-- ===== src/Civitai/Requested.antt =====
-- app/loras/civitai.py: the requests that a fetch sends.
use local_image_generator_se.Common.{
  ◌≡◌, refl, sym, subst, ap, true, ◌⊎◌, inl, inr, none, List, [], ◌∷◌, ◌++◌, In, In-append_cases,
}
use local_image_generator_se.Common.Text.{Text}
use local_image_generator_se.Schema.{LoraFetch}
use local_image_generator_se.Civitai.{Request, Fetcher, World, without_token}
use local_image_generator_se.Civitai.Url.{validate_download_url}
use local_image_generator_se.Civitai.Metadata.{metadata_request}
use local_image_generator_se.Civitai.Fetch.{run}
use local_image_generator_se.Civitai.Row.{IsFrame}
use local_image_generator_se.Civitai.Closed.{IsPending, run-kept}

-- A request for the metadata of the version, or one without a token, to an allowed URL or to one to
-- which the download from an allowed URL is redirected.
abbrev pub IsAllowed : World → LoraFetch → Request → Type 0
IsAllowed world row r =
    (r ≡ metadata_request world row.civitai_version_id)
    ⊎ ((r.token ≡ none)
        × (url : Text) × (validate_download_url (world.urlparse url) ≡ true)
        × In r.url (url ∷ world.redirects url))

abbrev pub AllAllowed : World → LoraFetch → List Request → List Request → Type 0
AllAllowed world row before after = (r : Request) → In r after → In r before ⊎ IsAllowed world row r

without_token-In :
    (urls : List Text) (r : Request) → In r (without_token urls) → (r.token ≡ none) × In r.url urls
without_token-In [] r i = absurd i
without_token-In (url ∷ urls) r (inl e) = (ap (λ q. q.token) e, inl (ap (λ q. q.url) e))
without_token-In (url ∷ urls) r (inr i) = let (t, j) = without_token-In urls r i in (t, inr j)

module _ (world : World) (row : LoraFetch) (before : List Request) where
  append-AllAllowed :
      (rs : List Request) (q : Request)
      → IsAllowed world row q
      → AllAllowed world row before rs
      → AllAllowed world row before (rs ++ q ∷ [])
  append-AllAllowed rs q a i r h = elim (In-append_cases r rs (q ∷ []) h) [
    | inl old ↦ i r old
    | inr (inl e) ↦ inr (subst (IsAllowed world row) (sym e) a)
    | inr (inr b) ↦ absurd b
  ]

  request_frame : IsFrame world row (λ m. AllAllowed world row before m.requests)
  request_frame = record {
    on_row = λ m s i. i;
    on_metadata = λ m i. append-AllAllowed m.requests _ (inl refl) i;
    on_download = λ m url v i r h.
        elim (In-append_cases r m.requests (without_token (url ∷ world.redirects url)) h) [
          | inl old ↦ i r old
          | inr new ↦
              let (token, there) = without_token-In (url ∷ world.redirects url) r new in
              inr (inr (token, url, v, there))
        ];
    on_scratch = λ m name g hg i. i;
    on_sweep = λ m files i. i;
    on_install = λ m entry bytes v t i. i;
  }

-- Every request that the run of a pending request sends asks Civitai's API for the metadata of the
-- row's version, or carries no token and goes to a URL that the check of download URLs accepts or to
-- one to which the download from such a URL is redirected. The check does not see the latter.
pub run-AllAllowed :
    (world : World) (row : LoraFetch) (m : Fetcher)
    → IsPending row m
    → AllAllowed world row m.requests (run world row.id m).1.requests
run-AllAllowed world row m p =
    run-kept world row (λ m'. AllAllowed world row m.requests m'.requests)
      (request_frame world row m.requests) m p (λ r h. inl h)
