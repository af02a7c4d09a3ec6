-- ===== src/Slug.antt =====
-- app/loras/civitai_url.py: the name under which a fetched LoRA is saved.
use local_image_generator_se.Common.{
  ℕ, ◌-◌, ◌≡◌, refl, Bool, true, false, ◌&&◌, ◌||◌, [], ◌∷◌, All, inl, inr, take, length, ◌==◌,
  Bool-cases, if◌then◌else◌,
}
use local_image_generator_se.Common.Text.{Text, codes, is_alnum, ends_with, is_empty}

-- [A-Za-z0-9_.\-]
abbrev pub is_slug_char : ℕ → Bool
is_slug_char c = is_alnum c || (c == 95 || (c == 46 || c == 45))

abbrev pub is_separator : ℕ → Bool
is_separator c = c == 95 || c == 46

abbrev suffix : Text
suffix = codes ".safetensors"

abbrev drop_suffix : Text → Text
drop_suffix filename =
    if ends_with filename suffix then take (length filename - length suffix) filename else filename

-- _SLUG_CLEAN_RE.sub("_", t), where `b` says that the run before was replaced already.
unfoldable pub clean : Bool → Text → Text
clean b [] = []
clean b (c ∷ cs) =
    let kept = clean false cs in
    let replaced = clean true cs in
    if is_slug_char c then c ∷ kept else if b then replaced else 95 ∷ replaced

-- _SLUG_COLLAPSE_RE.sub("_", t), where `b` says that the character before is "_".
unfoldable pub collapse : Bool → Text → Text
collapse b [] = []
collapse b (c ∷ cs) =
    let kept = collapse false cs in
    let run = collapse true cs in if c == 95 then if b then run else 95 ∷ run else c ∷ kept

unfoldable pub lstrip_separators : Text → Text
lstrip_separators [] = []
lstrip_separators (c ∷ cs) = if is_separator c then lstrip_separators cs else c ∷ cs

unfoldable pub rstrip_separators : Text → Text
rstrip_separators [] = []
rstrip_separators (c ∷ cs) =
    let rest = rstrip_separators cs in if is_empty rest && is_separator c then [] else c ∷ rest

abbrev or_unnamed : Text → Text
or_unnamed [] = codes "unnamed"
or_unnamed (c ∷ cs) = c ∷ cs

unfoldable pub sanitize_slug : Text → Text
unfolding clean collapse lstrip_separators rstrip_separators
sanitize_slug filename =
    or_unnamed
      (rstrip_separators (lstrip_separators (collapse false (clean false (drop_suffix filename)))))

abbrev pub StartsClean : Text → Type 0
StartsClean [] = Unit
StartsClean (c ∷ cs) = is_separator c ≡ false

abbrev pub EndsClean : Text → Type 0
EndsClean [] = Unit
EndsClean (c ∷ []) = is_separator c ≡ false
EndsClean (c ∷ d ∷ cs) = EndsClean (d ∷ cs)

abbrev pub Allowed : Text → Type 0
Allowed = All (λ c. is_slug_char c ≡ true)

-- No "_" follows a "_".
abbrev pub Single : Bool → Text → Type 0
Single b [] = Unit
Single b (c ∷ cs) = ((b && c == 95) ≡ false) × Single (c == 95) cs

clean-Allowed : (b : Bool) (t : Text) → Allowed (clean b t)
unfolding clean
clean-Allowed b [] = tt
clean-Allowed true (c ∷ cs) = elim (Bool-cases (is_slug_char c)) [
  | inl e ↦ rw e (e, clean-Allowed false cs)
  | inr e ↦ rw e (clean-Allowed true cs)
]
clean-Allowed false (c ∷ cs) = elim (Bool-cases (is_slug_char c)) [
  | inl e ↦ rw e (e, clean-Allowed false cs)
  | inr e ↦ rw e (refl, clean-Allowed true cs)
]

collapse-Single :
    (b : Bool) (t : Text) → Allowed t → Allowed (collapse b t) × Single b (collapse b t)
unfolding collapse
collapse-Single b [] a = (tt, tt)
collapse-Single true (c ∷ cs) a = elim (Bool-cases (c == 95)) [
  | inl e ↦ rw e (collapse-Single true cs a.1)
  | inr e ↦ let (k, s) = collapse-Single false cs a.1 in rw e ((a.0, k), (e, rw e s))
]
collapse-Single false (c ∷ cs) a = elim (Bool-cases (c == 95)) [
  | inl e ↦ let (k, s) = collapse-Single true cs a.1 in rw e ((refl, k), (refl, s))
  | inr e ↦ let (k, s) = collapse-Single false cs a.1 in rw e ((a.0, k), (refl, rw e s))
]

Single-false : (b : Bool) (t : Text) → Single b t → Single false t
Single-false b [] h = tt
Single-false b (c ∷ cs) h = (refl, h.1)

lstrip-clean :
    (b : Bool) (t : Text)
    → Allowed t
    → Single b t
    → let r = lstrip_separators t in Allowed r × Single false r × StartsClean r
unfolding lstrip_separators
lstrip-clean b [] a s = (tt, tt, tt)
lstrip-clean b (c ∷ cs) a s = elim (Bool-cases (is_separator c)) [
  | inl e ↦ rw e (lstrip-clean (c == 95) cs a.1 s.1)
  | inr e ↦ rw e (a, Single-false b (c ∷ cs) s, e)
]

ends : (c : ℕ) (r : Text) → (is_empty r && is_separator c) ≡ false → EndsClean r → EndsClean (c ∷ r)
ends c [] e h = e
ends c (d ∷ r) e h = h

rstrip-clean :
    (b : Bool) (t : Text)
    → Allowed t
    → Single b t
    → let r = rstrip_separators t in
      Allowed r × Single b r × EndsClean r × (StartsClean t → StartsClean r)
unfolding rstrip_separators
rstrip-clean b [] a s = (tt, tt, tt, λ h. h)
rstrip-clean b (c ∷ cs) a s =
    let (ka, ks, ke, kf) = rstrip-clean (c == 95) cs a.1 s.1 in
    elim (Bool-cases (is_empty (rstrip_separators cs) && is_separator c)) [
      | inl e ↦ rw e (tt, tt, tt, λ h. tt)
      | inr e ↦ rw e ((a.0, ka), (s.0, ks), ends c (rstrip_separators cs) e ke, λ h. h)
    ]

-- A name that is not empty, of letters, digits, `_`, `.` and `-` only, which neither starts nor ends
-- with `_` or `.`, and has no two `_` in a row.
abbrev pub IsSlug : Text → Type 0
IsSlug t = (is_empty t ≡ false) × Allowed t × Single false t × StartsClean t × EndsClean t

or_unnamed-IsSlug :
    (t : Text) → Allowed t → Single false t → StartsClean t → EndsClean t → IsSlug (or_unnamed t)
or_unnamed-IsSlug [] a s h e = (
  refl,
  (refl, (refl, (refl, (refl, (refl, (refl, (refl, tt))))))),
  (refl, (refl, (refl, (refl, (refl, (refl, (refl, tt))))))),
  refl,
  refl,
)
or_unnamed-IsSlug (c ∷ cs) a s h e = (refl, a, s, h, e)

-- Whatever the name of the file is, the slug is not empty, has letters, digits, `_`, `.` and `-`
-- only, neither starts nor ends with `_` or `.`, and has no two `_` in a row.
pub sanitize_slug-IsSlug : (filename : Text) → IsSlug (sanitize_slug filename)
unfolding sanitize_slug
sanitize_slug-IsSlug filename =
    let cleaned = clean false (drop_suffix filename) in
    let (a1, s1) = collapse-Single false cleaned (clean-Allowed false (drop_suffix filename)) in
    let (a2, s2, f2) = lstrip-clean false (collapse false cleaned) a1 s1 in
    let (a3, s3, e3, keep) =
      rstrip-clean false (lstrip_separators (collapse false cleaned)) a2 s2 in
    or_unnamed-IsSlug (rstrip_separators (lstrip_separators (collapse false cleaned))) a3 s3
      (keep f2) e3
