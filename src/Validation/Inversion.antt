-- ===== src/Validation/Inversion.antt =====
-- Chains of checks, taken apart.
use local_image_generator_se.Common.{◌≡◌, refl, Bool, true, false, Option, none, some, arith}
use local_image_generator_se.Validation.Request.{
  Checked, valid, refused, refuse_if, or_refuse, ErrorCode, Reason, ◌>>=◌,
}

pub bind-valid {ℓ κ} :
    {A : Type ℓ} {B : Type κ} (m : Checked A) (f : A → Checked B) {b : B}
    → (m >>= f) ≡ valid b
    → (a : A) × (m ≡ valid a) × (f a ≡ valid b)
bind-valid (valid a) f h = (a, refl, h)
bind-valid (refused c r) f h = cc

pub refuse_if-valid :
    (b : Bool) (c : ErrorCode) (r : Reason) → refuse_if b c r ≡ valid tt → b ≡ false
refuse_if-valid true c r h = cc
refuse_if-valid false c r h = refl

pub or_refuse-valid {ℓ} :
    {A : Type ℓ} (o : Option A) (c : ErrorCode) (r : Reason) {a : A}
    → or_refuse o c r ≡ valid a
    → o ≡ some a
or_refuse-valid none c r h = cc
or_refuse-valid (some x) c r h = ground arith
