-- ===== src/Tests/Sending.antt =====
-- The theorems on the provider's answers and the retry loop, at one message and two servers.
use cloudflare_smtp_relay.Shared.{
  suc, ◌%◌, ◌≤◌, ◌<◌, ◌≡◌, refl, true, not, ◌&&◌, some, [], ◌∷◌, arith, ◌==◌,
}
use cloudflare_smtp_relay.Shared.Int.{ℤ, pos, ◌<ℤ◌}
use cloudflare_smtp_relay.Shared.Text.{Text, codes, atoi}
use cloudflare_smtp_relay.Email.Errors.{Fallible, ok}
use cloudflare_smtp_relay.Email.Message.{Delivered}
use cloudflare_smtp_relay.Cloudflare.Backoff.{retry_cap_delay, backoff_delay, parse_retry_after}
use cloudflare_smtp_relay.Cloudflare.Backoff.Delay.{capped, backoff_delay_lem}
use cloudflare_smtp_relay.Cloudflare.Backoff.RetryAfter.{retry_after_overflow}
use cloudflare_smtp_relay.Cloudflare.Classify.{classify_http, classify_transport, is_retryable}
use cloudflare_smtp_relay.Cloudflare.Classify.Laws.{
  IsReply, IsOf, classify_http-IsReply, is_retryable_lem, classify_transport-IsReply,
}
use cloudflare_smtp_relay.Cloudflare.Contract.{IsKept}
use cloudflare_smtp_relay.Cloudflare.Loop.{
  Request, History, accepted, Parser, Outcome, sent, checked_ctx, requested, refused, done,
  send_loop, take_response, finish_attempt, read_and_drain_body,
}
use cloudflare_smtp_relay.Cloudflare.Loop.History.{count_requests}
use cloudflare_smtp_relay.Cloudflare.Loop.Bounds.{IsBounded, send_loop_total}
use cloudflare_smtp_relay.Cloudflare.Loop.Delivery.{send_loop-sent}
use cloudflare_smtp_relay.Cloudflare.Rest.{rest_send, json_post}
use cloudflare_smtp_relay.Cloudflare.Rest.Laws.{rest_send-IsKept}
use cloudflare_smtp_relay.Cloudflare.Worker.{worker_send}
use cloudflare_smtp_relay.Cloudflare.Worker.Laws.{worker_send-IsKept}
use cloudflare_smtp_relay.Tests.Fixtures.{
  up, down_at_first, connection_refused, clock, wire, rest_adapter, worker_adapter, message,
}

abbrev request : Request
request = json_post (codes "https://worker.example.com") (codes "secret") (codes "{}")

abbrev build : Text → Fallible Request
build payload = ok request

-- A parser that takes every response as accepted.
abbrev parse_all : Parser
parse_all status body n = accepted (record { provider_id = []; http_status = status; attempts = n })

classify_http-IsReply_example :
    IsReply (classify_http 429 (pos 0) (codes "slow down") 2)
    × IsOf 429 (pos 0) 2 (classify_http 429 (pos 0) (codes "slow down") 2)
classify_http-IsReply_example = classify_http-IsReply 429 (pos 0) (codes "slow down") 2

is_retryable_lem_example : is_retryable 401 (pos 10203) ≡ (
    (classify_http 401 (pos 10203) [] 1).temporary
    && not ((classify_http 401 (pos 10203) [] 1).enhanced_code.subject == 7))
is_retryable_lem_example = is_retryable_lem 401 (pos 10203) [] 1

classify_transport-IsReply_example :
    IsReply (classify_transport connection_refused 3)
    × IsOf 0 (pos 0) 3 (classify_transport connection_refused 3)
classify_transport-IsReply_example = classify_transport-IsReply connection_refused 3

backoff_delay_lem_example :
    (backoff_delay 7 2 (pos 0) ≡ pos (7 % suc (capped 1)))
    × (7 % suc (capped 1) ≤ capped 1)
    × (capped 1 ≤ retry_cap_delay)
backoff_delay_lem_example = backoff_delay_lem 7 1 (pos 0) refl

-- A date, 30 ns ahead of the clock.
hint_of_date : parse_retry_after clock (codes "Tue") ≡ some (pos 30)
unfolding parse_retry_after atoi codes
hint_of_date = refl

retry_after_overflow_example :
    (hint : ℤ) × (parse_retry_after clock (codes "10000000000") ≡ some hint)
    × (hint <ℤ pos 0)
    × (backoff_delay 7 2 hint ≡ pos (7 % suc (capped 1)))
unfolding atoi codes
retry_after_overflow_example =
    retry_after_overflow clock (codes "10000000000") 10_000_000_000 7 1 refl (omega arith)
      (omega arith)

send_loop_total_example :
    (out : Outcome) × (h : History) × (send_loop down_at_first build parse_all (codes "{}") 2
      ≡ some (out, h))
    × IsBounded 2 out h
send_loop_total_example =
    send_loop_total down_at_first build parse_all (codes "{}") (λ status body n. refl) 2 request
      refl

abbrev second_try : Delivered
second_try = record { provider_id = []; http_status = 200; attempts = 2 }

first_fails :
    (h : History)
    → count_requests h < 1
    → take_response down_at_first build parse_all
        (codes "{}")
        (suc (count_requests h))
        (down_at_first.exchange (checked_ctx ∷ h) request)
        (requested request ∷ checked_ctx ∷ h)
      ≡ refused (classify_transport connection_refused (suc (count_requests h))) true (pos 0)
unfolding take_response
first_fails h lt = let none_yet : count_requests h ≡ 0 = omega arith in rw none_yet refl

second_succeeds :
    (h : History)
    → count_requests h ≡ 1
    → take_response down_at_first build parse_all
        (codes "{}")
        (suc (count_requests h))
        (down_at_first.exchange (checked_ctx ∷ h) request)
        (requested request ∷ checked_ctx ∷ h)
      ≡ done second_try
unfolding take_response finish_attempt read_and_drain_body
second_succeeds h one = rw one refl

send_loop-sent_example :
    (h : History) × (send_loop down_at_first build parse_all (codes "{}") 2
      ≡ some (sent second_try, h))
    × (count_requests h ≡ 2)
send_loop-sent_example =
    send_loop-sent down_at_first build parse_all (codes "{}") 2 request refl (λ h. refl)
      (λ h d. refl) 1 second_try (λ n. classify_transport connection_refused (suc n)) (λ n. pos 0)
      (omega arith) (λ n. omega arith) first_fails second_succeeds

rest_send-IsKept_example :
    (out : Outcome) × (h : History) × (rest_send wire down_at_first rest_adapter message
      ≡ some (out, h))
    × IsKept 2 out h
rest_send-IsKept_example =
    rest_send-IsKept wire down_at_first rest_adapter message (codes "{}") refl refl

worker_send-IsKept_example :
    (out : Outcome) × (h : History) × (worker_send wire up worker_adapter message ≡ some (out, h))
    × IsKept 2 out h
worker_send-IsKept_example =
    worker_send-IsKept wire up worker_adapter message (codes "{}") refl refl
