-- ===== src/Cloudflare/Loop.antt =====
-- internal/cloudflare/send.go: `sendLoop`, the retry engine of both adapters. What the loop asks of
-- the outside is an event of its history, and the outside answers as a function of the history: so
-- it may answer in any way, and in another way each time.
pub mod History
pub mod Rounds
pub mod Bounds
pub mod Delivery
pub mod Replies
pub mod Once
pub mod Requests
use cloudflare_smtp_relay.Shared.{
  ℕ, zero, suc, ◌-◌, Bool, true, ◌&&◌, Option, none, some, List, [], ◌∷◌, leb, ◌==◌, if◌then◌else◌,
  length, take,
}
use cloudflare_smtp_relay.Shared.Int.{ℤ, pos, ltb_ℤ}
use cloudflare_smtp_relay.Shared.Text.{Text}
use cloudflare_smtp_relay.Email.Errors.{Fault, DeliveryError, Fallible, ok, failed}
use cloudflare_smtp_relay.Email.Message.{Delivered}
use cloudflare_smtp_relay.Cloudflare.Classify.{classify_transport}
use cloudflare_smtp_relay.Cloudflare.Backoff.{
  Clock, retry_cap_delay, parse_retry_after, backoff_delay,
}

-- The request that a `requestBuilder` makes.
pub record Request : Type 0 where
  pub method : Text
  pub url : Text
  pub authorization : Text
  pub content_type : Text
  pub body : Text

-- A response: the bytes that its body yields, and the error that stands behind them, if any.
pub record Response : Type 0 where
  pub status : ℕ
  pub body : Text
  pub body_err : Option Fault
  pub retry_after : Text

pub data Event : Type 0 where
  checked_ctx : Event
  requested : Request → Event
  drew : Event
  slept : ℤ → Event

-- The newest event stands first.
abbrev pub History : Type 0
History = List Event

-- The context, the HTTP client, the clock, the random numbers and the sleep. A context or a client
-- that times out answers with an error.
pub record Outside : Type 0 where
  pub ctx_err : History → Option Fault
  pub exchange : History → Request → Fallible Response
  pub clock : History → Clock
  pub draw : History → ℕ
  pub sleep : History → ℤ → Option Fault

-- What a `responseParser` returns: a result, or an error and whether to try again.
pub data Parsed : Type 0 where
  accepted : Delivered → Parsed
  rejected : DeliveryError → Bool → Parsed

abbrev pub Builder : Type 0
Builder = Text → Fallible Request

abbrev pub Parser : Type 0
Parser = ℕ → Text → ℕ → Parsed

-- What `doAttempt` returns.
pub data Attempted : Type 0 where
  done : Delivered → Attempted
  refused : DeliveryError → Bool → ℤ → Attempted

pub data Outcome : Type 0 where
  sent : Delivered → Outcome
  unsent : DeliveryError → Outcome

abbrev pub max_response_body_bytes : ℕ
max_response_body_bytes = 65536

-- `readAndDrainBody`: an error behind the limit is not seen.
unfoldable pub read_and_drain_body : Response → Fallible Text
read_and_drain_body r =
    if leb max_response_body_bytes (length r.body)
    then ok (take max_response_body_bytes r.body)
    else elim r.body_err [ some e ↦ failed e | none ↦ ok r.body ]

-- The Retry-After hint of `doAttempt`, for a failure with this status.
unfoldable pub hint_of : Clock → ℕ → Text → ℤ
hint_of c status value =
    if status == 429 then elim (parse_retry_after c value) [ some d ↦ d | none ↦ pos 0 ] else pos 0

-- One round of the loop ends it, or leaves `lastErr` for the next one.
pub data Round : Type 0 where
  stop : Outcome → History → Round
  again : DeliveryError → History → Round

abbrev pub last_or : Option DeliveryError → DeliveryError → DeliveryError
last_or none de = de
last_or (some last) de = last

module _ (o : Outside) where
  -- The end of a round: the delay and the sleep.
  unfoldable pub pause : ℕ → DeliveryError → ℤ → History → Round
  pause attempt de hint h =
      let delay = backoff_delay (o.draw h) attempt hint in
      if ltb_ℤ (pos retry_cap_delay) delay
      then stop (unsent de) (drew ∷ h)
      else elim (o.sleep (drew ∷ h) delay) [
        | some e ↦ stop (unsent (classify_transport e attempt)) (slept delay ∷ drew ∷ h)
        | none ↦ again de (slept delay ∷ drew ∷ h)
      ]

  -- `shouldRetry`, which asks the context once more where the other two tests pass.
  unfoldable pub consider : ℕ → ℕ → DeliveryError → Bool → ℤ → History → Round
  consider max_retries attempt de retryable hint h =
      if retryable && leb attempt max_retries
      then elim (o.ctx_err h) [
        | some e ↦ stop (unsent de) (checked_ctx ∷ h)
        | none ↦ pause attempt de hint (checked_ctx ∷ h)
      ]
      else stop (unsent de) h

  unfoldable pub after_attempt : ℕ → ℕ → Attempted × History → Round
  after_attempt max_retries attempt (done result, h) = stop (sent result) h
  after_attempt max_retries attempt (refused de retryable hint, h) =
      consider max_retries attempt de retryable hint h

module _ (o : Outside) (build : Builder) (parse : Parser) (payload : Text) where
  -- The part of `doAttempt` behind a response whose body was read.
  unfoldable pub finish_attempt : ℕ → Response → Text → History → Attempted
  finish_attempt attempt r body h = elim (parse r.status body attempt) [
    | accepted result ↦ done result
    | rejected de retryable ↦ refused de retryable (hint_of (o.clock h) r.status r.retry_after)
  ]

  -- The part of `doAttempt` behind the request.
  unfoldable pub take_response : ℕ → Fallible Response → History → Attempted
  take_response attempt (failed e) h = refused (classify_transport e attempt) true (pos 0)
  take_response attempt (ok r) h = elim (read_and_drain_body r) [
    | failed e ↦ refused (classify_transport e attempt) true (pos 0)
    | ok body ↦ finish_attempt attempt r body h
  ]

  unfoldable pub do_attempt : ℕ → History → Attempted × History
  do_attempt attempt h = elim (build payload) [
    | failed e ↦ (refused (classify_transport e attempt) true (pos 0), h)
    | ok req ↦ (take_response attempt (o.exchange h req) (requested req ∷ h), requested req ∷ h)
  ]

  -- The body of the loop.
  unfoldable pub round : ℕ → ℕ → Option DeliveryError → History → Round
  round max_retries attempt last h = elim (o.ctx_err h) [
    | some e ↦ stop (unsent (last_or last (classify_transport e (attempt - 1)))) (checked_ctx ∷ h)
    | none ↦ after_attempt o max_retries attempt (do_attempt attempt (checked_ctx ∷ h))
  ]

  -- `sendLoop` from an attempt on; `none` means that the fuel ran out.
  unfoldable pub loop_from : ℕ → ℕ → ℕ → Option DeliveryError → History → Option (Outcome × History)
  loop_from zero max_retries attempt last h = none
  loop_from (suc fuel) max_retries attempt last h = elim (round max_retries attempt last h) [
    | stop outcome h' ↦ some (outcome, h')
    | again de h' ↦ loop_from fuel max_retries (suc attempt) (some de) h'
  ]

  -- `sendLoop`, with as much fuel as it can use.
  unfoldable pub send_loop : ℕ → Option (Outcome × History)
  send_loop max_retries = loop_from (suc max_retries) max_retries 1 none []
