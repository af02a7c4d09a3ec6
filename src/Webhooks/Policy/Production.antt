-- ===== src/Webhooks/Policy/Production.antt =====
-- app/webhooks/dispatcher.py: the policy on destinations where IMAGEGEN_ENV is prod.
use local_image_generator_se.Common.{
  ◌≡◌, refl, Bool, true, false, ◌&&◌, Option, none, some, List, [], ◌∷◌, arith, All, In, Bool-cases,
  inl, inr, ◌↔◌, ◌≢◌,
}
use local_image_generator_se.Common.Text.{
  Text, codes, text_eq, text_eq_iff, lower, is_empty, among-In, In-among,
}
use local_image_generator_se.Webhooks.Policy.{
  Environment, ParsedUrl, Address, Resolver, or_default, is_public, all_public,
  host_resolves_public, resolved_public, is_prod, is_dev, allow_any_host, allowed_hosts,
  scheme_allowed, no_hosts, host_allowed, toctou_allows,
}

abbrev pub IsPublic : Option Address → Type 0
IsPublic none = ⊥
IsPublic (some ip) = is_public ip ≡ true

all_public-All : (infos : List (Option Address)) → (all_public infos ≡ true) ↔ All IsPublic infos
unfolding all_public
all_public-All [] = ((λ h. tt), (λ h. refl))
all_public-All (none ∷ infos) = ((λ h. cc), (λ h. absurd h.0))
all_public-All (some ip ∷ infos) = elim (Bool-cases (is_public ip)) [
  | inl t ↦ rw t ((λ h. (refl, (all_public-All infos).0 h)), (λ h. (all_public-All infos).1 h.1))
  | inr f ↦ rw f ((λ h. cc), (λ h. cc))
]

-- Every address that the host resolves to is public, and there is one.
pub record ResolvesPublic (resolve : Resolver) (host : Text) : Type 0 where
  pub first : Option Address
  pub others : List (Option Address)
  pub resolves : resolve host ≡ some (first ∷ others)
  pub public : All IsPublic (first ∷ others)

resolved-out :
    (resolve : Resolver) (host : Text) (r : Option (List (Option Address)))
    → resolve host ≡ r
    → resolved_public r ≡ true
    → ResolvesPublic resolve host
resolved-out resolve host none e h = cc
resolved-out resolve host (some []) e h = cc
resolved-out resolve host (some (x ∷ xs)) e h = record {
  first = x;
  others = xs;
  resolves = e;
  public = (all_public-All (x ∷ xs)).0 h;
}

resolves_iff :
    (resolve : Resolver) (host : Text)
    → (host_resolves_public resolve host ≡ true) ↔ ResolvesPublic resolve host
unfolding host_resolves_public
resolves_iff resolve host = (
  λ h. resolved-out resolve host (resolve host) refl h,
  λ p. rw p.resolves ((all_public-All (p.first ∷ p.others)).1 p.public),
)

prod_not_dev : (env : Environment) → is_prod env ≡ true → is_dev env ≡ false
unfolding is_prod is_dev text_eq
prod_not_dev env h =
    let word = lower (or_default env.imagegen_env (codes "dev")) in
    rw ((text_eq_iff word (codes "prod")).0 h) refl

abbrev pub host_of : ParsedUrl → Text
host_of parsed = lower (or_default parsed.hostname [])

-- The four checks of the host in production.
abbrev HostAllowed : Environment → Resolver → Text → Type 0
HostAllowed env resolve host =
    In host (allowed_hosts env) × (host ≢ []) × ResolvesPublic resolve host

empty_iff : (t : Text) → (is_empty t ≡ false) ↔ (t ≢ [])
empty_iff [] = ((λ h. cc), (λ h. absurd (h refl)))
empty_iff (c ∷ cs) = ((λ h e. cc), (λ h. refl))

some_hosts : (t : Text) (hs : List Text) → In t hs → no_hosts hs ≡ false
unfolding no_hosts
some_hosts t [] i = absurd i
some_hosts t (h ∷ hs) i = refl

host_allowed_iff :
    (env : Environment) (resolve : Resolver) (host : Text)
    → is_dev env ≡ false
    → (host_allowed env resolve host ≡ true) ↔ HostAllowed env resolve host
unfolding host_allowed
host_allowed_iff env resolve host nd = (
  λ h. (
    among-In host (allowed_hosts env) (ground (arith, h, nd)),
    (empty_iff host).0 (ground (arith, h, nd)),
    (resolves_iff resolve host).0 (ground (arith, h, nd)),
  ),
  λ p.
      rw
        (
          some_hosts host (allowed_hosts env) p.0,
          In-among host (allowed_hosts env) p.0,
          nd,
          (empty_iff host).1 p.1,
          (resolves_iff resolve host).1 p.2,
        )
        (ground arith),
)

toctou_allows-and :
    (env : Environment) (resolve : Resolver) (parsed : ParsedUrl)
    → is_prod env ≡ true
    → toctou_allows env resolve parsed
      ≡ (text_eq parsed.scheme (codes "https") && host_allowed env resolve (host_of parsed))
unfolding toctou_allows scheme_allowed
toctou_allows-and env resolve parsed p = elim (Bool-cases (text_eq parsed.scheme (codes "https"))) [
  | inl t ↦ elim (Bool-cases (allow_any_host env)) [
    | inl a ↦ rw (p, t, a, prod_not_dev env p)
    | inr a ↦ rw (p, t, a)
  ]
  | inr f ↦ rw (p, f)
]

-- In production a delivery is allowed exactly when the scheme is https, the host is listed and not
-- empty, and the host resolves to at least one address and to public ones only. The variables that
-- allow any host or private addresses have no effect there.
pub toctou_allows-prod :
    (env : Environment) (resolve : Resolver) (parsed : ParsedUrl)
    → is_prod env ≡ true
    → (toctou_allows env resolve parsed ≡ true) ↔ (
        (parsed.scheme ≡ codes "https")
        × In (host_of parsed) (allowed_hosts env)
        × (host_of parsed ≢ [])
        × ResolvesPublic resolve (host_of parsed))
toctou_allows-prod env resolve parsed p =
    let host = host_allowed_iff env resolve (host_of parsed) (prod_not_dev env p) in
    let https = text_eq_iff parsed.scheme (codes "https") in
    rw (toctou_allows-and env resolve parsed p) (
      λ h.
          let (a, b) = both _ _ h in
          let (listed, filled, public) = host.0 b in (https.0 a, listed, filled, public),
      λ q. rw (https.1 q.0, host.1 (q.1, q.2, q.3)),
    )
  where
    both : (x y : Bool) → (x && y) ≡ true → (x ≡ true) × (y ≡ true)
    both true y h = (refl, h)
    both false y h = cc
