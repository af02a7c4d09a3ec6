-- ===== src/Tests/Access.antt =====
-- Examples for app/auth.py.
use local_image_generator_se.Common.{◌≡◌, refl, some, [], ◌∷◌, In}
use local_image_generator_se.Common.Text.{Text, codes, lstrip, strip, text_eq}
use local_image_generator_se.Auth.{
  Keyset, accepted, auth_error, auth_scope_error, extract_bearer, require_auth, require_admin,
}
use local_image_generator_se.Auth.Decisions.{require_admin-scopes}

abbrev keyset : Keyset
keyset = record { generation = codes "gen" ∷ []; admin = codes "root" ∷ [] }

abbrev kid : Text → Text
kid key = codes "kid"

root_token : extract_bearer (some (codes "BEARER root ")) ≡ some (codes "root")
unfolding extract_bearer text_eq strip lstrip
root_token = refl

require_admin-scopes_example :
    (In (codes "root") keyset.admin
      → (require_admin kid keyset (some (codes "BEARER root ")) ≡ accepted (codes "kid"))
        × (require_auth kid keyset (some (codes "BEARER root ")) ≡ accepted (codes "kid")))
    × (¬ In (codes "root") keyset.admin
        → In (codes "root") keyset.generation
        → (require_admin kid keyset (some (codes "BEARER root ")) ≡ auth_scope_error)
          × (require_auth kid keyset (some (codes "BEARER root ")) ≡ accepted (codes "kid")))
    × (¬ In (codes "root") keyset.admin
        → ¬ In (codes "root") keyset.generation
        → (require_admin kid keyset (some (codes "BEARER root ")) ≡ auth_error)
          × (require_auth kid keyset (some (codes "BEARER root ")) ≡ auth_error))
require_admin-scopes_example =
    require_admin-scopes kid keyset (some (codes "BEARER root ")) (codes "root") root_token refl
      (refl, tt) (refl, tt)
