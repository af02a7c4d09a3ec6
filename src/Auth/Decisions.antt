-- ===== src/Auth/Decisions.antt =====
-- app/auth.py: who is let in.
use local_image_generator_se.Common.{
  ◌≡◌, refl, Bool, true, false, Option, some, List, [], ◌∷◌, In, All, inl, inr, Bool-cases,
}
use local_image_generator_se.Common.Text.{Text, among, In-among, among-In}
use local_image_generator_se.Auth.{
  Keyset, accepted, auth_error, auth_scope_error, extract_bearer, is_ascii, match_any, or_else,
  decide, require_auth, require_admin,
}

abbrev pub IsAscii : Text → Type 0
IsAscii t = is_ascii t ≡ true

-- Over ASCII texts the loop decides membership.
match_any-among :
    (token : Text) (keys : List Text)
    → IsAscii token
    → All IsAscii keys
    → match_any token keys ≡ some (among token keys)
unfolding match_any among
match_any-among token [] h a = refl
match_any-among token (k ∷ keys) h a = rw (h, a.0, match_any-among token keys h a.1) refl

-- For ASCII keys and an ASCII token in the header, the admin check lets in exactly the admin keys,
-- reports the scope for exactly the other keys that are known, and refuses all others as unknown.
-- The general check lets in exactly the keys of the two scopes and refuses all others.
pub require_admin-scopes :
    (kid_for : Text → Text) (keyset : Keyset) (authorization : Option Text) (token : Text)
    → extract_bearer authorization ≡ some token
    → IsAscii token
    → All IsAscii keyset.generation
    → All IsAscii keyset.admin
    → (In token keyset.admin
        → (require_admin kid_for keyset authorization ≡ accepted (kid_for token))
          × (require_auth kid_for keyset authorization ≡ accepted (kid_for token)))
      × (¬ In token keyset.admin
          → In token keyset.generation
          → (require_admin kid_for keyset authorization ≡ auth_scope_error)
            × (require_auth kid_for keyset authorization ≡ accepted (kid_for token)))
      × (¬ In token keyset.admin
          → ¬ In token keyset.generation
          → (require_admin kid_for keyset authorization ≡ auth_error)
            × (require_auth kid_for keyset authorization ≡ auth_error))
unfolding require_admin require_auth
require_admin-scopes kid_for keyset authorization token e h ag aa =
    let g = match_any-among token keyset.generation h ag in
    let a = match_any-among token keyset.admin h aa in
    (
      λ i.
          rw (e, g, a, In-among token keyset.admin i)
            (refl, either (among token keyset.generation)),
      (λ n i.
          rw (e, g, a, absent token keyset.admin n, In-among token keyset.generation i)
            (refl, refl)),
      λ n m.
          rw (e, g, a, absent token keyset.admin n, absent token keyset.generation m) (refl, refl),
    )
  where
    absent : (t : Text) (xs : List Text) → ¬ In t xs → among t xs ≡ false
    absent t xs n = elim (Bool-cases (among t xs)) [
      | inl p ↦ absurd (n (among-In t xs p))
      | inr p ↦ p
    ]

    either :
        (b : Bool)
        → decide (or_else (some b) (some true)) (accepted (kid_for token)) auth_error
          ≡ accepted (kid_for token)
    either true = refl
    either false = refl
