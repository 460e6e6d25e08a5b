-- ===== src/Cloudflare/Loop/History.antt =====
-- What a history of `sendLoop` (internal/cloudflare/send.go) shows: its requests and its sleeps.
use cloudflare_smtp_relay.Shared.{ℕ, suc, ◌+◌, [], ◌∷◌, All}
use cloudflare_smtp_relay.Shared.Int.{pos, pos_part, ◌≤ℤ◌}
use cloudflare_smtp_relay.Cloudflare.Backoff.{retry_cap_delay}
use cloudflare_smtp_relay.Cloudflare.Loop.{
  Event, checked_ctx, requested, drew, slept, History, Outcome, sent, unsent,
}

abbrev pub count_requests : History → ℕ
count_requests [] = 0
count_requests (requested req ∷ h) = suc (count_requests h)
count_requests (checked_ctx ∷ h) = count_requests h
count_requests (drew ∷ h) = count_requests h
count_requests (slept d ∷ h) = count_requests h

abbrev pub IsShort : Event → Type 0
IsShort (slept d) = (pos 0 ≤ℤ d) × (d ≤ℤ pos retry_cap_delay)
IsShort (requested req) = Unit
IsShort checked_ctx = Unit
IsShort drew = Unit

-- No sleep is longer than the cap.
abbrev pub SleepsCapped : History → Type 0
SleepsCapped = All IsShort

-- The nanoseconds that were slept.
abbrev pub total_slept : History → ℕ
total_slept [] = 0
total_slept (slept d ∷ h) = pos_part d + total_slept h
total_slept (requested req ∷ h) = total_slept h
total_slept (checked_ctx ∷ h) = total_slept h
total_slept (drew ∷ h) = total_slept h

abbrev pub attempts_of : Outcome → ℕ
attempts_of (sent r) = r.attempts
attempts_of (unsent de) = de.attempts
