-- ===== src/Validation/Frames.antt =====
-- app/validation.py: the frame counts of the two video families.
use local_image_generator_se.Common.{ℕ, ◌+◌, ◌-◌, ◌%◌, ◌≤◌, ◌≡◌, ◌==◌, ltb, arith, if◌then◌else◌}

unfoldable pub normalize_wan_num_frames : ℕ → ℕ
normalize_wan_num_frames raw =
    if ltb raw 5 then 5 else let rem = (raw - 1) % 4 in if rem == 0 then raw else raw + (4 - rem)

unfoldable pub normalize_ltxv_num_frames : ℕ → ℕ
normalize_ltxv_num_frames raw =
    if ltb raw 9 then 9 else let rem = (raw - 1) % 8 in if rem == 0 then raw else raw + (8 - rem)

-- The result is of the form 4 k + 1, at least 5 and at least the requested count, and it is at
-- most any other number of that kind.
pub normalize_wan-least :
    (raw m : ℕ)
    → 5 ≤ m
    → raw ≤ m
    → m % 4 ≡ 1
    → (normalize_wan_num_frames raw % 4 ≡ 1)
      × (5 ≤ normalize_wan_num_frames raw)
      × (raw ≤ normalize_wan_num_frames raw)
      × (normalize_wan_num_frames raw ≤ m)
unfolding normalize_wan_num_frames
normalize_wan-least raw m low high form = (ground arith, ground arith, ground arith, ground arith)

-- The result is of the form 8 k + 1, at least 9 and at least the requested count, and it is at
-- most any other number of that kind.
pub normalize_ltxv-least :
    (raw m : ℕ)
    → 9 ≤ m
    → raw ≤ m
    → m % 8 ≡ 1
    → (normalize_ltxv_num_frames raw % 8 ≡ 1)
      × (9 ≤ normalize_ltxv_num_frames raw)
      × (raw ≤ normalize_ltxv_num_frames raw)
      × (normalize_ltxv_num_frames raw ≤ m)
unfolding normalize_ltxv_num_frames
normalize_ltxv-least raw m low high form = (ground arith, ground arith, ground arith, ground arith)
