-- ===== src/Cloudflare/Backoff/RetryAfter.antt =====
-- Laws of `parseRetryAfter` (internal/cloudflare/send.go).
use cloudflare_smtp_relay.Shared.{
  ℕ, suc, ◌-◌, ◌*◌, ◌%◌, ◌^◌, ◌≤◌, ◌<◌, ◌≡◌, refl, ap, ◌∙◌, false, none, some, [], ◌∷◌, arith,
}
use cloudflare_smtp_relay.Shared.Int.{ℤ, pos, negsuc, ◌≤ℤ◌, ◌<ℤ◌, ltb_ℤ}
use cloudflare_smtp_relay.Shared.Text.{Text, is_empty, atoi}
use cloudflare_smtp_relay.Cloudflare.Backoff.{
  second, Clock, mul_second, parse_retry_after, backoff_delay,
}
use cloudflare_smtp_relay.Cloudflare.Backoff.Delay.{capped, backoff_delay_lem}

atoi-nonempty : (value : Text) {z : ℤ} → atoi value ≡ some z → is_empty value ≡ false
unfolding atoi
atoi-nonempty [] h = cc
atoi-nonempty (c ∷ s) h = refl

ltb_ℤ-pos : (secs : ℕ) → ltb_ℤ (pos secs) (pos 0) ≡ false
ltb_ℤ-pos secs = ground arith

parse_retry_after-secs :
    (c : Clock) (value : Text) (secs : ℕ)
    → atoi value ≡ some (pos secs)
    → parse_retry_after c value ≡ some (mul_second (pos secs))
unfolding parse_retry_after
parse_retry_after-secs c value secs h = rw (atoi-nonempty value h) (rw h (rw (ltb_ℤ-pos secs) refl))

-- A Retry-After in seconds whose nanoseconds fit 63 bits is honoured exactly.
pub parse_retry_after-exact :
    (c : Clock) (value : Text) (secs : ℕ)
    → atoi value ≡ some (pos secs)
    → secs * second < 2 ^ 63
    → parse_retry_after c value ≡ some (pos (secs * second))
parse_retry_after-exact c value secs h fits =
    rw (parse_retry_after-secs c value secs h) (ap some wraps)
  where
    wraps : mul_second (pos secs) ≡ pos (secs * second)
    wraps = ground arith

-- A Retry-After of so many seconds that the nanoseconds need the 64th bit comes out negative, and
-- the delay is then drawn as if there was no Retry-After header.
pub retry_after_overflow :
    (c : Clock) (value : Text) (secs drawn n : ℕ)
    → atoi value ≡ some (pos secs)
    → 2 ^ 63 ≤ secs * second
    → secs * second < 2 ^ 64
    → (hint : ℤ) × (parse_retry_after c value ≡ some hint)
      × (hint <ℤ pos 0)
      × (backoff_delay drawn (suc n) hint ≡ pos (drawn % suc (capped n)))
retry_after_overflow c value secs drawn n h low high =
    let wraps : mul_second (pos secs) ≡ negsuc (2 ^ 64 - secs * second - 1) = ground arith in
    (
      negsuc (2 ^ 64 - secs * second - 1),
      parse_retry_after-secs c value secs h ∙ ap some wraps,
      omega arith,
      (backoff_delay_lem drawn n (negsuc (2 ^ 64 - secs * second - 1)) (ground arith)).0,
    )

-- A hint from a date is never negative: a date that has passed asks for no delay.
pub parse_retry_after-date :
    (c : Clock) (value : Text) {hint : ℤ}
    → atoi value ≡ none
    → parse_retry_after c value ≡ some hint
    → pos 0 ≤ℤ hint
unfolding parse_retry_after
parse_retry_after-date c value h e = ground arith
