-- ===== src/Common/Text.antt =====
-- Text that the program takes apart, as the code points of its characters, with the methods of
-- Python's `str` that it uses. Letters and white space are those of ASCII.
use Prim.Native.Nat.{ℕ, ◌+◌}
use Prim.Native.Char.{code}
use Prim.Native.String.{String}
use mathlib.Core.Path.{◌≡◌, refl}
use mathlib.Core.Logic.{◌↔◌, inl, inr}
use mathlib.Core.Bool.{Bool, true, false, ◌&&◌, ◌||◌}
use mathlib.Core.Option.{Option, none, some}
use mathlib.Core.List.{List, [], ◌∷◌, ◌++◌, map, reverse, reverse-cons, reverse-reverse}
use native.Mathlib.Omega.{arith}
use local_image_generator_se.Common.Tests.{if◌then◌else◌, leb, ◌==◌, Bool-cases}
use local_image_generator_se.Common.Lists.{All, In}

abbrev pub Text : Type 0
Text = List ℕ

abbrev pub codes : String → Text
codes String.[] = []
codes (String.◌∷◌ c s) = code c ∷ codes s

unfoldable pub text_eq : Text → Text → Bool
text_eq [] [] = true
text_eq [] (y ∷ ys) = false
text_eq (x ∷ xs) [] = false
text_eq (x ∷ xs) (y ∷ ys) = x == y && text_eq xs ys

pub text_eq_iff : (s t : Text) → (text_eq s t ≡ true) ↔ (s ≡ t)
unfolding text_eq
text_eq_iff [] [] = ((λ h. refl), (λ h. refl))
text_eq_iff [] (y ∷ ys) = ((λ h. cc), (λ h. cc))
text_eq_iff (x ∷ xs) [] = ((λ h. cc), (λ h. cc))
text_eq_iff (x ∷ xs) (y ∷ ys) =
    (λ h. ground (arith, (text_eq_iff xs ys).0), λ h. ground (arith, (text_eq_iff xs ys).1))

unfoldable pub is_space : ℕ → Bool
is_space c =
    (leb 9 c && leb c 13)
    || ((leb 28 c && leb c 32)
        || (c == 133
            || (c == 160
                || (c == 5760
                    || ((leb 8192 c && leb c 8202)
                        || (c == 8232
                            || (c == 8233 || (c == 8239 || (c == 8287 || c == 12288)))))))))

abbrev pub is_digit : ℕ → Bool
is_digit c = leb 48 c && leb c 57

abbrev pub is_upper : ℕ → Bool
is_upper c = leb 65 c && leb c 90

abbrev pub is_lower : ℕ → Bool
is_lower c = leb 97 c && leb c 122

-- A character of the class `[A-Za-z0-9]`.
abbrev pub is_alnum : ℕ → Bool
is_alnum c = is_digit c || (is_upper c || is_lower c)

abbrev pub lower_char : ℕ → ℕ
lower_char c = if is_upper c then c + 32 else c

-- s.lower()
abbrev pub lower : Text → Text
lower = map lower_char

unfoldable pub lstrip : Text → Text
unfolding is_space
lstrip [] = []
lstrip (c ∷ cs) = if is_space c then lstrip cs else c ∷ cs

-- s.strip()
unfoldable pub strip : Text → Text
unfolding lstrip
strip s = reverse (lstrip (reverse (lstrip s)))

abbrev push_first : ℕ → List Text → List Text
push_first c [] = (c ∷ []) ∷ []
push_first c (p ∷ ps) = (c ∷ p) ∷ ps

-- s.split(sep) for one character: never empty, as in Python.
unfoldable pub split : ℕ → Text → List Text
split sep [] = [] ∷ []
split sep (c ∷ cs) = let rest = split sep cs in if c == sep then [] ∷ rest else push_first c rest

-- s.startswith(p)
unfoldable pub starts_with : Text → Text → Bool
starts_with s [] = true
starts_with [] (p ∷ ps) = false
starts_with (c ∷ cs) (p ∷ ps) = c == p && starts_with cs ps

-- s.endswith(p)
unfoldable pub ends_with : Text → Text → Bool
unfolding starts_with
ends_with s p = starts_with (reverse s) (reverse p)

-- t in xs
unfoldable pub among : Text → List Text → Bool
unfolding text_eq
among t [] = false
among t (x ∷ xs) = text_eq t x || among t xs

abbrev pub is_empty : Text → Bool
is_empty [] = true
is_empty (c ∷ cs) = false

-- What a test `if t:` lets through: a missing and an empty text are false.
abbrev pub truthy : Option Text → Option Text
truthy none = none
truthy (some []) = none
truthy (some (c ∷ cs)) = some (c ∷ cs)

abbrev pub Lacks : ℕ → Text → Type 0
Lacks sep = All (λ c. (c == sep) ≡ false)

push_first-Lacks :
    (sep c : ℕ) (ps : List Text)
    → (c == sep) ≡ false
    → All (Lacks sep) ps
    → All (Lacks sep) (push_first c ps)
push_first-Lacks sep c [] h hs = ((h, tt), tt)
push_first-Lacks sep c (p ∷ ps) h hs = ((h, hs.0), hs.1)

-- No part of a split holds the separator.
pub split-Lacks : (sep : ℕ) (s : Text) → All (Lacks sep) (split sep s)
unfolding split
split-Lacks sep [] = (tt, tt)
split-Lacks sep (c ∷ cs) = elim (Bool-cases (c == sep)) [
  | inl t ↦ rw t (tt, split-Lacks sep cs)
  | inr f ↦ rw f (push_first-Lacks sep c (split sep cs) f (split-Lacks sep cs))
]

module _ (P : ℕ → Type 0) where
  All-append : (xs ys : Text) → All P xs → All P ys → All P (xs ++ ys)
  All-append [] ys hx hy = hy
  All-append (x ∷ xs) ys hx hy = (hx.0, All-append xs ys hx.1 hy)

  All-reverse : (xs : Text) → All P xs → All P (reverse xs)
  All-reverse [] h = tt
  All-reverse (x ∷ xs) h =
      rw (reverse-cons x xs) (All-append (reverse xs) (x ∷ []) (All-reverse xs h.1) (h.0, tt))

  lstrip-All : (s : Text) → All P s → All P (lstrip s)
  unfolding lstrip
  lstrip-All [] h = tt
  lstrip-All (c ∷ cs) h = elim (Bool-cases (is_space c)) [
    | inl t ↦ rw t (lstrip-All cs h.1)
    | inr f ↦ rw f h
  ]

  -- Stripping only removes characters.
  pub strip-All : (s : Text) → All P s → All P (strip s)
  unfolding strip
  strip-All s h =
      All-reverse (lstrip (reverse (lstrip s)))
        (lstrip-All (reverse (lstrip s)) (All-reverse (lstrip s) (lstrip-All s h)))

-- No white space at the front.
abbrev pub IsTrimmed : Text → Type 0
IsTrimmed [] = Unit
IsTrimmed (c ∷ cs) = is_space c ≡ false

lstrip-IsTrimmed : (s : Text) → IsTrimmed (lstrip s)
unfolding lstrip
lstrip-IsTrimmed [] = tt
lstrip-IsTrimmed (c ∷ cs) = elim (Bool-cases (is_space c)) [
  | inl t ↦ rw t (lstrip-IsTrimmed cs)
  | inr f ↦ rw f f
]

-- A stripped text has no white space at its end.
pub strip-end : (s : Text) → IsTrimmed (reverse (strip s))
unfolding strip
strip-end s =
    rw (reverse-reverse (lstrip (reverse (lstrip s)))) (lstrip-IsTrimmed (reverse (lstrip s)))

pub among-In : (t : Text) (xs : List Text) → among t xs ≡ true → In t xs
unfolding among
among-In t [] h = cc
among-In t (x ∷ xs) h = ground (arith, (text_eq_iff t x).0, among-In t xs)

pub In-among : (t : Text) (xs : List Text) → In t xs → among t xs ≡ true
unfolding among
In-among t [] h = absurd h
In-among t (x ∷ xs) (inl e) = ground (arith, (text_eq_iff t x).1 e)
In-among t (x ∷ xs) (inr i) = ground (arith, In-among t xs i)
