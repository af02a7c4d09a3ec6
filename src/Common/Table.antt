-- ===== src/Common/Table.antt =====
-- What the SQL statements of the program do to a table: `WHERE`, `UPDATE … WHERE`, `COUNT`, and
-- `ORDER BY`, where rows with equal keys keep the table's order.
use Prim.Native.Nat.{ℕ, suc, ◌≤◌}
use mathlib.Core.Path.{◌≡◌, refl, sym}
use mathlib.Core.Bool.{Bool, true}
use mathlib.Core.Logic.{◌↔◌, inl, inr}
use mathlib.Core.Option
use mathlib.Core.Option.{Option, none, some}
use mathlib.Core.List.{List, [], ◌∷◌, ◌++◌, map}
use native.Mathlib.Omega.{arith}
use local_image_generator_se.Common.Tests.{if◌then◌else◌, leb, Bool-cases}
use local_image_generator_se.Common.Lists.{length, In, All}

module _ {ℓ} {A : Type ℓ} where
  -- SELECT … WHERE p
  unfoldable pub select : (A → Bool) → List A → List A
  select p [] = []
  select p (x ∷ xs) = if p x then x ∷ select p xs else select p xs

  -- SELECT … WHERE p, of which the program reads the first row.
  unfoldable pub find : (A → Bool) → List A → Option A
  find p [] = none
  find p (x ∷ xs) = if p x then some x else find p xs

  -- One row of UPDATE … SET f WHERE p.
  unfoldable pub set_where : (A → Bool) → (A → A) → A → A
  set_where p f x = if p x then f x else x

  -- UPDATE … SET f WHERE p
  unfoldable pub update : (A → Bool) → (A → A) → List A → List A
  update p f = map (set_where p f)

  unfoldable pub insert_by : (A → A → Bool) → A → List A → List A
  insert_by le x [] = x ∷ []
  insert_by le x (y ∷ ys) = if le x y then x ∷ y ∷ ys else y ∷ insert_by le x ys

  -- ORDER BY: `le x y` when `x` may stand before `y`.
  unfoldable pub order_by : (A → A → Bool) → List A → List A
  unfolding insert_by
  order_by le [] = []
  order_by le (x ∷ xs) = insert_by le x (order_by le xs)

module _ {A : Type 0} where
  pub select_sound :
      (p : A → Bool) (xs : List A) (a : A) → In a (select p xs) → In a xs × (p a ≡ true)
  unfolding select
  select_sound p [] a h = absurd h
  select_sound p (x ∷ xs) a h = elim (Bool-cases (p x)) [
    | inl t ↦ elim (rw t at h) [
      | inl e ↦ (inl e, rw e t)
      | inr i ↦ let (j, q) = select_sound p xs a i in (inr j, q)
    ]
    | inr f ↦ let (j, q) = select_sound p xs a (rw f at h) in (inr j, q)
  ]

  pub select_complete :
      (p : A → Bool) (xs : List A) (a : A) → In a xs → p a ≡ true → In a (select p xs)
  unfolding select
  select_complete p [] a h e = absurd h
  select_complete p (x ∷ xs) a (inl q) e = rw (← q, e) (inl refl)
  select_complete p (x ∷ xs) a (inr i) e = elim (Bool-cases (p x)) [
    | inl t ↦ rw t (inr (select_complete p xs a i e))
    | inr f ↦ rw f (select_complete p xs a i e)
  ]

  insert_by-In_out :
      (le : A → A → Bool) (x : A) (ys : List A) (a : A) → In a (insert_by le x ys) → In a (x ∷ ys)
  unfolding insert_by
  insert_by-In_out le x [] a h = h
  insert_by-In_out le x (y ∷ ys) a h = elim (Bool-cases (le x y)) [
    | inl t ↦ rw t at h
    | inr f ↦ elim (rw f at h) [
      | inl e ↦ inr (inl e)
      | inr i ↦ ground (arith, insert_by-In_out le x ys a i)
    ]
  ]

  insert_by-In_into :
      (le : A → A → Bool) (x : A) (ys : List A) (a : A) → In a (x ∷ ys) → In a (insert_by le x ys)
  unfolding insert_by
  insert_by-In_into le x [] a h = h
  insert_by-In_into le x (y ∷ ys) a h = elim (Bool-cases (le x y)) [
    | inl t ↦ rw t h
    | inr f ↦ rw f (elim h [
      | inl e ↦ inr (insert_by-In_into le x ys a (inl e))
      | inr i ↦ elim i [ inl e ↦ inl e | inr j ↦ inr (insert_by-In_into le x ys a (inr j)) ]
    ])
  ]

  -- Ordering neither drops a row nor makes one up.
  pub order_by-In : (le : A → A → Bool) (xs : List A) (a : A) → In a (order_by le xs) ↔ In a xs
  unfolding order_by
  order_by-In le [] a = ((λ h. h), (λ h. h))
  order_by-In le (x ∷ xs) a = (
    λ h. elim (insert_by-In_out le x (order_by le xs) a h) [
      | inl e ↦ inl e
      | inr i ↦ inr ((order_by-In le xs a).0 i)
    ],
    λ h.
        insert_by-In_into le x (order_by le xs) a
          (elim h [ inl e ↦ inl e | inr i ↦ inr ((order_by-In le xs a).1 i) ]),
  )

  -- No later row has a smaller key than an earlier one.
  abbrev pub SortedBy : (A → ℕ) → List A → Type 0
  SortedBy key [] = Unit
  SortedBy key (x ∷ xs) = All (λ y. key x ≤ key y) xs × SortedBy key xs

  abbrev pub by : (A → ℕ) → A → A → Bool
  by key x y = leb (key x) (key y)

  pub insert_by-All :
      (P : A → Type 0) (le : A → A → Bool) (x : A) (ys : List A)
      → P x
      → All P ys
      → All P (insert_by le x ys)
  unfolding insert_by
  insert_by-All P le x [] h hs = (h, tt)
  insert_by-All P le x (y ∷ ys) h hs = elim (Bool-cases (le x y)) [
    | inl t ↦ rw t (h, hs)
    | inr f ↦ rw f (hs.0, insert_by-All P le x ys h hs.1)
  ]

  All-trans :
      (key : A → ℕ) (x y : A) (ys : List A)
      → key x ≤ key y
      → All (λ z. key y ≤ key z) ys
      → All (λ z. key x ≤ key z) ys
  All-trans key x y [] h hs = tt
  All-trans key x y (z ∷ zs) h hs = (omega arith, All-trans key x y zs h hs.1)

  insert_by-SortedBy :
      (key : A → ℕ) (x : A) (ys : List A) → SortedBy key ys → SortedBy key (insert_by (by key) x ys)
  unfolding insert_by
  insert_by-SortedBy key x [] s = (tt, tt)
  insert_by-SortedBy key x (y ∷ ys) s = elim (Bool-cases (leb (key x) (key y))) [
    | inl t ↦ let le : key x ≤ key y = ground arith in rw t ((le, All-trans key x y ys le s.0), s)
    | inr f ↦
        let le : key y ≤ key x = ground arith in
        rw f
          (insert_by-All (λ z. key y ≤ key z) (by key) x ys le s.0, insert_by-SortedBy key x ys s.1)
  ]

  pub order_by-SortedBy : (key : A → ℕ) (xs : List A) → SortedBy key (order_by (by key) xs)
  unfolding order_by
  order_by-SortedBy key [] = tt
  order_by-SortedBy key (x ∷ xs) =
      insert_by-SortedBy key x (order_by (by key) xs) (order_by-SortedBy key xs)

  length-insert_by :
      (le : A → A → Bool) (x : A) (ys : List A) → length (insert_by le x ys) ≡ suc (length ys)
  unfolding insert_by
  length-insert_by le x [] = refl
  length-insert_by le x (y ∷ ys) = ground (arith, length-insert_by le x ys)

  pub length-order_by : (le : A → A → Bool) (xs : List A) → length (order_by le xs) ≡ length xs
  unfolding order_by
  length-order_by le [] = refl
  length-order_by le (x ∷ xs) =
      omega (arith, length-order_by le xs, length-insert_by le x (order_by le xs))

  -- A row that the search finds is a row of the table, and meets the test.
  pub find_sound :
      (p : A → Bool) (xs : List A) (a : A) → find p xs ≡ some a → In a xs × (p a ≡ true)
  unfolding find
  find_sound p [] a h = cc
  find_sound p (x ∷ xs) a h = elim (Bool-cases (p x)) [
    | inl t ↦ let e : x ≡ a = cc (rw t at h) in (inl (sym e), rw (← e) t)
    | inr f ↦ let (i, q) = find_sound p xs a (rw f at h) in (inr i, q)
  ]

  -- An update that leaves the search's test alone acts on what the search finds.
  pub find-update :
      (p q : A → Bool) (f : A → A) (xs : List A)
      → ((x : A) → p (f x) ≡ p x)
      → find p (update q f xs) ≡ Option.map (set_where q f) (find p xs)
  unfolding find update set_where
  find-update p q f [] h = refl
  find-update p q f (x ∷ xs) h = ground (arith, h x, find-update p q f xs h)

  pub find-append :
      (p : A → Bool) (xs ys : List A) (a : A) → find p xs ≡ some a → find p (xs ++ ys) ≡ some a
  unfolding find
  find-append p [] ys a h = cc
  find-append p (x ∷ xs) ys a h = ground (arith, find-append p xs ys a)

  pub find-append_none :
      (p : A → Bool) (xs ys : List A) → find p xs ≡ none → find p (xs ++ ys) ≡ find p ys
  unfolding find
  find-append_none p [] ys h = refl
  find-append_none p (x ∷ xs) ys h = ground (arith, find-append_none p xs ys)

  -- An update whose test only the last row meets.
  pub update-append_new :
      (p : A → Bool) (f : A → A) (xs : List A) (y : A)
      → find p xs ≡ none
      → p y ≡ true
      → update p f (xs ++ y ∷ []) ≡ xs ++ f y ∷ []
  unfolding update find set_where
  update-append_new p f [] y h e = ground (arith, e)
  update-append_new p f (x ∷ xs) y h e = ground (arith, update-append_new p f xs y)

  -- Searching and ordering pass through an update that leaves their tests alone.
  pub select-map :
      (p : A → Bool) (g : A → A) (xs : List A)
      → ((x : A) → p (g x) ≡ p x)
      → select p (map g xs) ≡ map g (select p xs)
  unfolding select
  select-map p g [] h = refl
  select-map p g (x ∷ xs) h = ground (arith, h x, select-map p g xs h)

  insert_by-map :
      (le : A → A → Bool) (g : A → A) (x : A) (ys : List A)
      → ((x y : A) → le (g x) (g y) ≡ le x y)
      → insert_by le (g x) (map g ys) ≡ map g (insert_by le x ys)
  unfolding insert_by
  insert_by-map le g x [] h = refl
  insert_by-map le g x (y ∷ ys) h = ground (arith, h x y, insert_by-map le g x ys h)

  pub order_by-map :
      (le : A → A → Bool) (g : A → A) (xs : List A)
      → ((x y : A) → le (g x) (g y) ≡ le x y)
      → order_by le (map g xs) ≡ map g (order_by le xs)
  unfolding order_by
  order_by-map le g [] h = refl
  order_by-map le g (x ∷ xs) h =
      rw (order_by-map le g xs h) (insert_by-map le g x (order_by le xs) h)

  pub select-All : (P : A → Type 0) (p : A → Bool) (xs : List A) → All P xs → All P (select p xs)
  unfolding select
  select-All P p [] a = tt
  select-All P p (x ∷ xs) a = elim (Bool-cases (p x)) [
    | inl t ↦ rw t (a.0, select-All P p xs a.1)
    | inr f ↦ rw f (select-All P p xs a.1)
  ]

  pub select-SortedBy :
      (key : A → ℕ) (p : A → Bool) (xs : List A) → SortedBy key xs → SortedBy key (select p xs)
  unfolding select
  select-SortedBy key p [] s = tt
  select-SortedBy key p (x ∷ xs) s = elim (Bool-cases (p x)) [
    | inl t ↦ rw t (select-All (λ y. key x ≤ key y) p xs s.0, select-SortedBy key p xs s.1)
    | inr f ↦ rw f (select-SortedBy key p xs s.1)
  ]
