-- ===== src/Webhooks/Policy.antt =====
-- app/webhooks/dispatcher.py: which destinations a delivery may reach, checked at each attempt, and
-- the first signing secret. The environment variables are a record, read at each call; URL parsing
-- (urllib), name resolution and the classification of addresses (socket, ipaddress) are parameters.
pub mod Production
use local_image_generator_se.Common.{
  ℕ, Bool, true, false, ◌&&◌, ◌||◌, not, Option, none, some, List, [], ◌∷◌, map, if◌then◌else◌,
}
use local_image_generator_se.Common.Table.{select}
use local_image_generator_se.Common.Text.{
  Text, codes, text_eq, lower, strip, split, among, is_empty,
}

-- `os.environ.get(…)` of each variable.
pub record Environment : Type 0 where
  pub imagegen_env : Option Text
  pub webhook_allow_any_host : Option Text
  pub webhook_allowed_hosts : Option Text
  pub webhook_allow_private : Option Text
  pub webhook_signing_secrets : Option Text

-- The result of `urlparse` as far as it is read: `hostname` is `none` when there is none.
pub record ParsedUrl : Type 0 where
  pub scheme : Text
  pub hostname : Option Text

pub record Address : Type 0 where
  pub is_private : Bool
  pub is_loopback : Bool
  pub is_link_local : Bool
  pub is_multicast : Bool
  pub is_reserved : Bool
  pub is_unspecified : Bool

-- `getaddrinfo`: `none` is an OSError; a text that is no address is `none` in the list.
abbrev pub Resolver : Type 0
Resolver = Text → Option (List (Option Address))

abbrev or_default : Option Text → Text → Text
or_default none d = d
or_default (some t) d = t

abbrev comma : ℕ
comma = 44

-- `[p.strip() for p in raw.split(",") if p.strip()]`
unfoldable pub parts : Text → List Text
parts raw = select (λ p. not (is_empty p)) (map strip (split comma raw))

abbrev first_text : List Text → Option Text
first_text [] = none
first_text (p ∷ ps) = some p

unfoldable pub first_signing_secret : Environment → Option Text
unfolding parts
first_signing_secret env = first_text (parts (or_default env.webhook_signing_secrets []))

unfoldable pub is_public : Address → Bool
is_public ip = not (
    ip.is_private
    || (ip.is_loopback
        || (ip.is_link_local || (ip.is_multicast || (ip.is_reserved || ip.is_unspecified)))))

-- The loop over the addresses.
unfoldable pub all_public : List (Option Address) → Bool
unfolding is_public
all_public [] = true
all_public (none ∷ infos) = false
all_public (some ip ∷ infos) = if is_public ip then all_public infos else false

abbrev resolved_public : Option (List (Option Address)) → Bool
resolved_public none = false
resolved_public (some []) = false
resolved_public (some (info ∷ infos)) = all_public (info ∷ infos)

unfoldable pub host_resolves_public : Resolver → Text → Bool
unfolding all_public
host_resolves_public resolve host = resolved_public (resolve host)

abbrev is_word : Option Text → Text → Text → Bool
is_word value default word = text_eq (lower (or_default value default)) word

unfoldable pub is_prod : Environment → Bool
is_prod env = is_word env.imagegen_env (codes "dev") (codes "prod")

unfoldable pub is_dev : Environment → Bool
is_dev env = is_word env.imagegen_env (codes "dev") (codes "dev")

unfoldable pub allow_any_host : Environment → Bool
allow_any_host env = is_word env.webhook_allow_any_host (codes "false") (codes "true")

unfoldable pub allow_private : Environment → Bool
allow_private env = is_word env.webhook_allow_private (codes "false") (codes "true")

unfoldable pub allowed_hosts : Environment → List Text
unfolding parts
allowed_hosts env = map lower (parts (or_default env.webhook_allowed_hosts []))

unfoldable pub scheme_allowed : Environment → Text → Bool
scheme_allowed env scheme =
    if is_prod env
    then text_eq scheme (codes "https")
    else among scheme (codes "http" ∷ codes "https" ∷ [])

no_hosts : List Text → Bool
no_hosts [] = true
no_hosts (h ∷ hs) = false

unfoldable pub host_allowed : Environment → Resolver → Text → Bool
unfolding is_dev allow_private allowed_hosts host_resolves_public no_hosts
host_allowed env resolve host =
    let hosts = allowed_hosts env in
    if no_hosts hosts
    then false
    else if not (among host hosts)
    then false
    else if allow_private env && is_dev env
    then true
    else if is_empty host
    then false
    else host_resolves_public resolve host

unfoldable pub toctou_allows : Environment → Resolver → ParsedUrl → Bool
toctou_allows env resolve parsed =
    if not (scheme_allowed env parsed.scheme)
    then false
    else if allow_any_host env && is_dev env
    then true
    else host_allowed env resolve (lower (or_default parsed.hostname []))
