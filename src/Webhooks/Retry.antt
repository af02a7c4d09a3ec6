-- ===== src/Webhooks/Retry.antt =====
-- app/webhooks/retry.py: the schedule of the retries.
use local_image_generator_se.Common.{
  ℕ, zero, suc, ◌+◌, ◌*◌, ◌≤◌, ◌≡◌, Option, none, some, List, [], ◌∷◌, arith, leb, if◌then◌else◌,
  length,
}

abbrev pub schedule_s : List ℕ
schedule_s = 15 ∷ 60 ∷ 300 ∷ 900 ∷ 3600 ∷ []

abbrev at : List ℕ → ℕ → ℕ
at [] n = 0
at (s ∷ ss) zero = s
at (s ∷ ss) (suc n) = at ss n

-- The instant in microseconds, or `none` when the attempt is the last.
unfoldable pub next_retry_at : ℕ → ℕ → Option ℕ
next_retry_at attempt_n now =
    if leb (length schedule_s) attempt_n
    then none
    else some (now + at schedule_s attempt_n * 1000000)

-- The waits do not get shorter: a later attempt that is retried waits at least as long as an earlier
-- one, and both wait between one minute and one hour.
pub next_retry_at-backoff :
    (m n now t u : ℕ)
    → 1 ≤ m
    → m ≤ n
    → next_retry_at m now ≡ some t
    → next_retry_at n now ≡ some u
    → (now + 60000000 ≤ t) × (t ≤ u) × (u ≤ now + 3600000000)
unfolding next_retry_at
next_retry_at-backoff m n now t u one order first second =
    (ground arith, ground arith, ground arith)
