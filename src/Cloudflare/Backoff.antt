-- ===== src/Cloudflare/Backoff.antt =====
-- internal/cloudflare/send.go: `backoffDelay` and `parseRetryAfter`. A `time.Duration` is an int64
-- of nanoseconds, with its wrap-around written out.
pub mod Delay
pub mod RetryAfter
use cloudflare_smtp_relay.Shared.{
  ℕ, suc, ◌-◌, ◌*◌, ◌%◌, ◌^◌, ◌||◌, Option, none, some, [], if◌then◌else◌,
}
use cloudflare_smtp_relay.Shared.Int.{
  ℤ, pos, negsuc, pos_part, ◌-ℤ◌, ltb_ℤ, leb_ℤ, signed64, wrap64, saturate64,
}
use cloudflare_smtp_relay.Shared.Text.{Text, is_empty, atoi}

abbrev pub second : ℕ
second = 1_000_000_000

abbrev pub retry_base_delay : ℕ
retry_base_delay = 500_000_000

abbrev pub retry_cap_delay : ℕ
retry_cap_delay = 5_000_000_000

-- The 64 bits of `retryBaseDelay * time.Duration(1<<uint(attempt-1))`. Attempts count from 1.
unfoldable pub shifted_base : ℕ → ℕ
shifted_base attempt = retry_base_delay * (2 ^ (attempt - 1) % 2 ^ 64) % 2 ^ 64

-- `maxDelay` behind its `if`.
unfoldable pub max_delay : ℕ → ℤ
max_delay attempt =
    let d = signed64 (shifted_base attempt) in
    if ltb_ℤ (pos retry_cap_delay) d || leb_ℤ d (pos 0) then pos retry_cap_delay else d

-- `rand.Int63n n`, of a random number that is drawn.
abbrev pub int63n : ℕ → ℤ → ℤ
int63n drawn (pos n) = pos (drawn % n)
int63n drawn (negsuc n) = pos 0

-- `backoffDelay`; `drawn` is the random number that `rand` draws.
unfoldable pub backoff_delay : ℕ → ℕ → ℤ → ℤ
backoff_delay drawn attempt retry_after =
    if ltb_ℤ (pos 0) retry_after
    then retry_after
    else int63n drawn (pos (suc (pos_part (max_delay attempt))))

-- The outside that a Retry-After header is read with: `http.ParseTime`, in nanoseconds since some
-- epoch, and the clock.
pub record Clock : Type 0 where
  pub parse_time : Text → Option ℤ
  pub now : ℤ

abbrev date_delay : ℤ → ℤ → ℤ
date_delay t now = let d = saturate64 (t -ℤ now) in if ltb_ℤ d (pos 0) then pos 0 else d

abbrev mul_second : ℤ → ℤ
mul_second (pos n) = wrap64 (pos (n * second))
mul_second (negsuc n) = wrap64 (negsuc (suc n * second - 1))

unfoldable pub parse_retry_after : Clock → Text → Option ℤ
parse_retry_after c value = if is_empty value then none else elim (atoi value) [
  | some secs ↦ if ltb_ℤ secs (pos 0) then none else some (mul_second secs)
  | none ↦ elim (c.parse_time value) [ some t ↦ some (date_delay t c.now) | none ↦ none ]
]
