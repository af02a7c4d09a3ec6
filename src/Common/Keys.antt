-- ===== src/Common/Keys.antt =====
-- Tables whose rows have distinct keys, as a PRIMARY KEY of text makes them.
use Prim.Native.String.{String}
use mathlib.Core.Path.{◌≡◌, sym, ap}
use mathlib.Core.Bool.{Bool, true, false}
use mathlib.Core.Logic.{inl, inr}
use mathlib.Core.Option.{none, some}
use mathlib.Core.List.{List, [], ◌∷◌, ◌++◌, map}
use native.Mathlib.Omega.{arith}
use text.Mathlib.Text.{◌==◌ as str_eq}
use text.Mathlib.TextEquality.{eq_iff}
use local_image_generator_se.Common.Tests.{Bool-cases}
use local_image_generator_se.Common.Lists.{In, All, All-at}
use local_image_generator_se.Common.Table.{
  select, find, set_where, update, order_by, insert_by, insert_by-All, select-All,
}

module _ {A : Type 0} (key : A → String) where
  abbrev pub keyed : String → A → Bool
  keyed k x = str_eq (key x) k

  abbrev pub Distinct : List A → Type 0
  Distinct [] = Unit
  Distinct (x ∷ xs) = All (λ y. keyed (key x) y ≡ false) xs × Distinct xs

  -- The row of a key is the only one.
  pub find-In : (xs : List A) (x : A) → Distinct xs → In x xs → find (keyed (key x)) xs ≡ some x
  unfolding find
  find-In [] x h i = absurd i
  find-In (y ∷ ys) x h (inl e) = ground (arith, (eq_iff (key y) (key x)).1 (ap key (sym e)))
  find-In (y ∷ ys) x h (inr i) =
      let other : keyed (key y) x ≡ false = All-at (λ z. keyed (key y) z ≡ false) x ys h.0 i in
      ground (arith, find-In ys x h.1 i, eq_iff (key y) (key x), eq_iff (key x) (key y))

  pub find_unique :
      (k : String) (xs : List A) (x y : A)
      → Distinct xs
      → find (keyed k) xs ≡ some x
      → In y xs
      → keyed k y ≡ true
      → x ≡ y
  find_unique k xs x y h e i t =
      let found : find (keyed (key y)) xs ≡ some y = find-In xs y h i in
      ground (arith, found, e, (eq_iff (key y) k).0 t)

  map-All :
      (k : String) (g : A → A) (xs : List A)
      → ((x : A) → key (g x) ≡ key x)
      → All (λ y. keyed k y ≡ false) xs
      → All (λ y. keyed k y ≡ false) (map g xs)
  map-All k g [] h a = tt
  map-All k g (x ∷ xs) h a = (rw (h x) a.0, map-All k g xs h a.1)

  pub Distinct-map :
      (g : A → A) (xs : List A) → ((x : A) → key (g x) ≡ key x) → Distinct xs → Distinct (map g xs)
  Distinct-map g [] h d = tt
  Distinct-map g (x ∷ xs) h d = (rw (h x) (map-All (key x) g xs h d.0), Distinct-map g xs h d.1)

  pub Distinct-update :
      (p : A → Bool) (f : A → A) (xs : List A)
      → ((x : A) → key (f x) ≡ key x)
      → Distinct xs
      → Distinct (update p f xs)
  unfolding update set_where
  Distinct-update p f xs h d = Distinct-map (set_where p f) xs (λ x. ground (arith, h x)) d

  absent-All :
      (x : A) (xs : List A) (y : A)
      → find (keyed (key y)) (x ∷ xs) ≡ none
      → All (λ z. keyed (key x) z ≡ false) xs
      → All (λ z. keyed (key x) z ≡ false) (xs ++ y ∷ [])
  unfolding find
  absent-All x [] y h a = (ground (arith, eq_iff (key y) (key x), eq_iff (key x) (key y)), tt)
  absent-All x (z ∷ zs) y h a = (a.0, absent-All x zs y (ground arith) a.1)

  -- An insertion that the primary key lets pass.
  pub Distinct-append :
      (xs : List A) (y : A) → find (keyed (key y)) xs ≡ none → Distinct xs → Distinct (xs ++ y ∷ [])
  unfolding find
  Distinct-append [] y h d = (tt, tt)
  Distinct-append (x ∷ xs) y h d =
      (absent-All x xs y h d.0, Distinct-append xs y (ground arith) d.1)

  pub Distinct-select : (p : A → Bool) (xs : List A) → Distinct xs → Distinct (select p xs)
  unfolding select
  Distinct-select p [] d = tt
  Distinct-select p (x ∷ xs) d = elim (Bool-cases (p x)) [
    | inl t ↦ rw t (select-All (λ z. keyed (key x) z ≡ false) p xs d.0, Distinct-select p xs d.1)
    | inr f ↦ rw f (Distinct-select p xs d.1)
  ]

  insert_by-Distinct :
      (le : A → A → Bool) (x : A) (ys : List A)
      → All (λ z. keyed (key x) z ≡ false) ys
      → Distinct ys
      → Distinct (insert_by le x ys)
  unfolding insert_by
  insert_by-Distinct le x [] a d = (tt, tt)
  insert_by-Distinct le x (y ∷ ys) a d = elim (Bool-cases (le x y)) [
    | inl t ↦ rw t (a, d)
    | inr f ↦ rw f (
      insert_by-All (λ z. keyed (key y) z ≡ false) le x ys
          (ground (arith, eq_iff (key x) (key y), eq_iff (key y) (key x))) d.0,
      insert_by-Distinct le x ys a.1 d.1,
    )
  ]

  order_by-All :
      (P : A → Type 0) (le : A → A → Bool) (xs : List A) → All P xs → All P (order_by le xs)
  unfolding order_by
  order_by-All P le [] a = tt
  order_by-All P le (x ∷ xs) a =
      insert_by-All P le x (order_by le xs) a.0 (order_by-All P le xs a.1)

  pub Distinct-order_by :
      (le : A → A → Bool) (xs : List A) → Distinct xs → Distinct (order_by le xs)
  unfolding order_by
  Distinct-order_by le [] d = tt
  Distinct-order_by le (x ∷ xs) d =
      insert_by-Distinct le x (order_by le xs)
        (order_by-All (λ z. keyed (key x) z ≡ false) le xs d.0) (Distinct-order_by le xs d.1)
