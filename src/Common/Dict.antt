-- ===== src/Common/Dict.antt =====
-- Python dicts with text keys, in the order of insertion.
use mathlib.Core.Path.{◌≡◌, refl}
use mathlib.Core.Option.{Option, none, some}
use mathlib.Core.List.{List, [], ◌∷◌, ◌++◌}
use native.Mathlib.Omega.{arith}
use local_image_generator_se.Common.Tests.{if◌then◌else◌}
use local_image_generator_se.Common.Text.{Text, text_eq, text_eq_iff}

abbrev pub Dict {ℓ} : Type ℓ → Type ℓ
Dict A = List (Text × A)

module _ {ℓ} {A : Type ℓ} where
  -- d.get(k)
  unfoldable pub get : Text → Dict A → Option A
  get k [] = none
  get k ((j, v) ∷ d) = if text_eq j k then some v else get k d

  -- d[k] = v
  unfoldable pub put : Text → A → Dict A → Dict A
  put k v [] = (k, v) ∷ []
  put k v ((j, w) ∷ d) = if text_eq j k then (j, v) ∷ d else (j, w) ∷ put k v d

  pub get-put :
      (j k : Text) (v : A) (d : Dict A)
      → get j (put k v d) ≡ (if text_eq k j then some v else get j d)
  unfolding get put
  get-put j k v [] = refl
  get-put j k v ((i, w) ∷ d) =
      ground (arith, text_eq_iff i k, text_eq_iff i j, text_eq_iff k j, get-put j k v d)

  pub put_absent : (k : Text) (v : A) (d : Dict A) → get k d ≡ none → put k v d ≡ d ++ (k, v) ∷ []
  unfolding get put
  put_absent k v [] h = refl
  put_absent k v ((j, w) ∷ d) h = ground (arith, put_absent k v d)

  abbrev pub keys : Dict A → List Text
  keys [] = []
  keys ((k, v) ∷ d) = k ∷ keys d
