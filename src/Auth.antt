-- ===== src/Auth.antt =====
-- app/auth.py: the keys of the two scopes, bearer tokens, and the decisions of the two dependencies.
pub mod Decisions
use local_image_generator_se.Common.{
  ℕ, Bool, true, false, ◌&&◌, ◌||◌, Option, none, some, List, [], ◌∷◌, map, take, ltb, not,
  if◌then◌else◌,
}
use local_image_generator_se.Common.Text.{
  Text, codes, text_eq, lower, strip, split, is_empty, truthy,
}
use local_image_generator_se.Common.Table.{select}

pub record Keyset : Type 0 where
  pub generation : List Text
  pub admin : List Text

-- A kid, AuthError, AuthScopeError, or the TypeError of `compare_digest`.
pub data Decision : Type 0 where
  accepted : Text → Decision
  auth_error auth_scope_error type_error : Decision

abbrev parts_of : Option Text → List Text
parts_of none = []
parts_of (some raw) = select (λ s. not (is_empty s)) (map strip (split 44 raw))

unfoldable pub parse_keys : Option Text → List Text
parse_keys raw = parts_of (truthy raw)

unfoldable pub load_keyset : Option Text → Option Text → Keyset
unfolding parse_keys
load_keyset api_keys admin_api_keys = record {
  generation = parse_keys api_keys;
  admin = parse_keys admin_api_keys;
}

abbrev drop : ℕ → Text → Text
drop ℕ.zero t = t
drop (ℕ.suc n) [] = []
drop (ℕ.suc n) (c ∷ cs) = drop n cs

abbrev token_of : Option Text → Option Text
token_of none = none
token_of (some authorization) =
    if text_eq (lower (take 7 authorization)) (codes "bearer ")
    then truthy (some (strip (drop 7 authorization)))
    else none

unfoldable pub extract_bearer : Option Text → Option Text
extract_bearer authorization = token_of (truthy authorization)

abbrev pub is_ascii : Text → Bool
is_ascii [] = true
is_ascii (c ∷ cs) = ltb c 128 && is_ascii cs

-- hmac.compare_digest of two texts, which raises unless both are ASCII.
abbrev pub compare_digest : Text → Text → Option Bool
compare_digest a b = if is_ascii a && is_ascii b then some (text_eq a b) else none

abbrev pub or_found : Option Bool → Option Bool → Option Bool
or_found (some b) (some found) = some (b || found)
or_found _ _ = none

-- The whole set is compared with.
unfoldable pub match_any : Text → List Text → Option Bool
match_any candidate [] = some false
match_any candidate (k ∷ keys) = or_found (compare_digest candidate k) (match_any candidate keys)

-- `b or c`, where `c` is computed only for a false `b`.
abbrev pub or_else : Option Bool → Option Bool → Option Bool
or_else (some false) c = c
or_else b c = b

abbrev pub matches : Text → Keyset → Option Bool
matches token keyset = or_else (match_any token keyset.generation) (match_any token keyset.admin)

abbrev pub decide : Option Bool → Decision → Decision → Decision
decide none granted denied = type_error
decide (some true) granted denied = granted
decide (some false) granted denied = denied

abbrev auth_token : (Text → Text) → Keyset → Option Text → Decision
auth_token kid_for keyset none = auth_error
auth_token kid_for keyset (some token) =
    decide (matches token keyset) (accepted (kid_for token)) auth_error

unfoldable pub require_auth : (Text → Text) → Keyset → Option Text → Decision
unfolding extract_bearer match_any
require_auth kid_for keyset authorization = auth_token kid_for keyset (extract_bearer authorization)

abbrev admin_token : (Text → Text) → Keyset → Option Text → Decision
admin_token kid_for keyset none = auth_error
admin_token kid_for keyset (some token) =
    decide (match_any token keyset.admin) (accepted (kid_for token))
      (decide (match_any token keyset.generation) auth_scope_error auth_error)

unfoldable pub require_admin : (Text → Text) → Keyset → Option Text → Decision
unfolding extract_bearer match_any
require_admin kid_for keyset authorization =
    admin_token kid_for keyset (extract_bearer authorization)

abbrev verify_token : Keyset → Option Text → Option Bool
verify_token keyset none = some false
verify_token keyset (some token) = matches token keyset

-- `none` where the comparison raises.
unfoldable pub verify_key : Keyset → Option Text → Option Bool
unfolding extract_bearer match_any
verify_key keyset authorization = verify_token keyset (extract_bearer authorization)
