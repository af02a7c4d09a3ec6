-- ===== src/Common/Digits.antt =====
-- Decimal digits: `str(n)`, and `int(t)` of a text of ASCII digits.
use Prim.Native.Nat.{ℕ, zero, suc, ◌+◌, ◌-◌, ◌*◌, ◌/◌, ◌%◌, ◌<◌}
use mathlib.Core.Path.{◌≡◌, ◌∙◌}
use mathlib.Core.Bool.{true}
use mathlib.Core.Logic.{inl, inr}
use mathlib.Core.Option.{Option, none, some}
use mathlib.Core.List.{[], ◌∷◌}
use native.Mathlib.Omega.{arith}
use native.Mathlib.Nat.{zero-add}
use local_image_generator_se.Common.Tests.{if◌then◌else◌, ltb, Bool-cases}
use local_image_generator_se.Common.Text.{Text, is_digit}

-- The digits of `n` in front of `acc`, on fuel.
digits_before : ℕ → ℕ → Text → Text
digits_before zero n acc = acc
digits_before (suc f) n acc =
    let rest = digits_before f (n / 10) ((48 + n % 10) ∷ acc) in
    if ltb n 10 then (48 + n) ∷ acc else rest

-- str(n): a number has fewer digits than `n + 1`.
unfoldable pub str : ℕ → Text
unfolding digits_before
str n = digits_before (suc n) n []

unfoldable pub digits_value : ℕ → Text → Option ℕ
digits_value n [] = some n
digits_value n (c ∷ cs) =
    let rest = digits_value (n * 10 + (c - 48)) cs in if is_digit c then rest else none

-- int(t) of a text of digits.
unfoldable pub int_of : Text → Option ℕ
unfolding digits_value
int_of [] = none
int_of (c ∷ cs) = digits_value 0 (c ∷ cs)

digit_step :
    (m n : ℕ) (acc : Text)
    → n < 10
    → digits_value m ((48 + n) ∷ acc) ≡ digits_value (m * 10 + n) acc
unfolding digits_value
digit_step m n acc h =
    let e : m * 10 + (48 + n - 48) ≡ m * 10 + n = omega arith in
    let digit : is_digit (48 + n) ≡ true = ground arith in rw (digit, e)

digits_before_value :
    (f n : ℕ) (acc : Text) → n < f → digits_value 0 (digits_before f n acc) ≡ digits_value n acc
unfolding digits_before
digits_before_value zero n acc h = absurd (omega arith)
digits_before_value (suc f) n acc h = elim (Bool-cases (ltb n 10)) [
  | inl t ↦ rw t (digit_step 0 n acc (ground arith) ∙ rw zero-add)
  | inr t ↦
      let whole : n / 10 * 10 + n % 10 ≡ n = omega arith in
      rw t (
        digits_before_value f (n / 10) ((48 + n % 10) ∷ acc) (ground arith)
        ∙ digit_step (n / 10) (n % 10) acc (omega arith)
        ∙ rw whole)
]

nonempty_int : (t : Text) (n : ℕ) → digits_value 0 t ≡ some n → 0 < n → int_of t ≡ some n
unfolding int_of digits_value
nonempty_int [] n h p = absurd (ground arith)
nonempty_int (c ∷ cs) n h p = h

-- Reading back what was printed, for a number above 0.
pub int_of-str : (n : ℕ) → 0 < n → int_of (str n) ≡ some n
unfolding str digits_value
int_of-str n p = nonempty_int (str n) n (digits_before_value (suc n) n [] (omega arith)) p

pub str-injective : (m n : ℕ) → 0 < m → 0 < n → str m ≡ str n → m ≡ n
str-injective m n p q e = ground (arith, int_of-str m p, int_of-str n q)
