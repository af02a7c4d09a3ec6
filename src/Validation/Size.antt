-- ===== src/Validation/Size.antt =====
-- `_parse_size`: the text is lowered, split at its first x, and each part read by `int`, of which
-- the model has the decimal digits of ASCII.
use local_image_generator_se.Common.{ℕ, Option, none, some, [], ◌∷◌, ◌==◌, if◌then◌else◌}
use local_image_generator_se.Common.Text.{Text, lower}
use local_image_generator_se.Common.Digits.{int_of}

-- s.split(sep, 1), when it gives two parts.
unfoldable pub split_once : ℕ → Text → Option (Text × Text)
split_once sep [] = none
split_once sep (c ∷ cs) = if c == sep then some ([], cs) else push c (split_once sep cs)
  where
    push : ℕ → Option (Text × Text) → Option (Text × Text)
    push c none = none
    push c (some (a, b)) = some (c ∷ a, b)

abbrev pair_of : Option ℕ → Option ℕ → Option (ℕ × ℕ)
pair_of (some w) (some h) = some (w, h)
pair_of _ _ = none

abbrev sizes_of : Option (Text × Text) → Option (ℕ × ℕ)
sizes_of none = none
sizes_of (some (w, h)) = pair_of (int_of w) (int_of h)

-- `none` is a ValueError.
unfoldable pub parse_size : Text → Option (ℕ × ℕ)
unfolding split_once int_of
parse_size size = sizes_of (split_once 120 (lower size))
