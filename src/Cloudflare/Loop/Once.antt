-- ===== src/Cloudflare/Loop/Once.antt =====
-- Laws of `sendLoop` (internal/cloudflare/send.go): which of its requests were accepted.
use cloudflare_smtp_relay.Shared.{
  ℕ, zero, suc, ◌≡◌, refl, inl, inr, Bool, ◌&&◌, Option, none, some, [], ◌∷◌, arith, leb,
  Bool-cases, Option-cases,
}
use cloudflare_smtp_relay.Shared.Int.{ℤ, pos, ltb_ℤ}
use cloudflare_smtp_relay.Shared.Text.{Text}
use cloudflare_smtp_relay.Email.Errors.{DeliveryError, Fallible, ok, failed, Fallible-cases}
use cloudflare_smtp_relay.Email.Message.{Delivered}
use cloudflare_smtp_relay.Cloudflare.Backoff.{retry_cap_delay, backoff_delay}
use cloudflare_smtp_relay.Cloudflare.Loop.{
  Request, Response, checked_ctx, requested, drew, slept, History, Outside, Parsed, accepted,
  rejected, Builder, Parser, Attempted, done, refused, Outcome, sent, unsent, read_and_drain_body,
  finish_attempt, take_response, do_attempt, Round, stop, again, pause, consider, after_attempt,
  round, loop_from, send_loop,
}
use cloudflare_smtp_relay.Cloudflare.Loop.Bounds.{Round-cases}
use cloudflare_smtp_relay.Cloudflare.Loop.History.{count_requests}

abbrev pub accepted_of : Parsed → Option Delivered
accepted_of (accepted r) = some r
accepted_of (rejected de retryable) = none

-- What the provider accepted with an answer to a request, as the parser reads it.
abbrev pub acceptance : Parser → ℕ → Fallible Response → Option Delivered
acceptance parse n (failed e) = none
acceptance parse n (ok r) = elim (read_and_drain_body r) [
  | failed e ↦ none
  | ok body ↦ accepted_of (parse r.status body n)
]

-- None of the requests of a history was accepted.
abbrev pub AllRefused : Outside → Parser → History → Type 0
AllRefused o parse [] = Unit
AllRefused o parse (requested req ∷ h) =
    (acceptance parse (suc (count_requests h)) (o.exchange h req) ≡ none) × AllRefused o parse h
AllRefused o parse (checked_ctx ∷ h) = AllRefused o parse h
AllRefused o parse (drew ∷ h) = AllRefused o parse h
AllRefused o parse (slept d ∷ h) = AllRefused o parse h

-- The last thing that happened is that the provider accepted the message, with this result.
abbrev pub AcceptedLast : Outside → Parser → Delivered → History → Type 0
AcceptedLast o parse r h =
    (req : Request) × (before : History) × (h ≡ requested req ∷ before)
    × (acceptance parse (suc (count_requests before)) (o.exchange before req) ≡ some r)
    × AllRefused o parse before

abbrev pub IsOnce : Outside → Parser → Outcome → History → Type 0
IsOnce o parse (sent r) h = AcceptedLast o parse r h
IsOnce o parse (unsent de) h = AllRefused o parse h

module _ (o : Outside) (parse : Parser) where
  abbrev OfAttempt : Attempted → Option Delivered → Type 0
  OfAttempt (done r) a = a ≡ some r
  OfAttempt (refused de retryable hint) a = a ≡ none

  -- Behind `n` attempts.
  abbrev OfRound : ℕ → Round → Type 0
  OfRound n (stop out h) = IsOnce o parse out h
  OfRound n (again de h) = AllRefused o parse h × (count_requests h ≡ n)

  pause-Once :
      (n : ℕ) (de : DeliveryError) (hint : ℤ) (h : History)
      → AllRefused o parse h
      → count_requests h ≡ n
      → OfRound n (pause o n de hint h)
  unfolding pause
  pause-Once n de hint h p c =
      let delay = backoff_delay (o.draw h) n hint in
      elim (Bool-cases (ltb_ℤ (pos retry_cap_delay) delay)) [
        | inl long ↦ rw (long, pause) p
        | inr short ↦ elim (Option-cases (o.sleep (drew ∷ h) delay)) [
          | inl woke ↦ rw (short, pause) (rw woke (p, c))
          | inr (e, ended) ↦ rw (short, pause) (rw ended p)
        ]
      ]

  consider-Once :
      (max_retries n : ℕ) (de : DeliveryError) (retryable : Bool) (hint : ℤ) (h : History)
      → AllRefused o parse h
      → count_requests h ≡ n
      → OfRound n (consider o max_retries n de retryable hint h)
  unfolding consider
  consider-Once max_retries n de retryable hint h p c =
      elim (Bool-cases (retryable && leb n max_retries)) [
        | inl more ↦ elim (Option-cases (o.ctx_err h)) [
          | inl live ↦ rw (more, consider) (rw live (pause-Once n de hint (checked_ctx ∷ h) p c))
          | inr (e, ended) ↦ rw (more, consider) (rw ended p)
        ]
        | inr last ↦ rw (last, consider) p
      ]

  after_attempt-Once :
      (max_retries n : ℕ) (a : Attempted) (req : Request) (h : History)
      → OfAttempt a (acceptance parse (suc (count_requests h)) (o.exchange h req))
      → AllRefused o parse h
      → suc (count_requests h) ≡ n
      → OfRound n (after_attempt o max_retries n (a, requested req ∷ h))
  unfolding after_attempt
  after_attempt-Once max_retries n (done r) req h a p c = (req, h, refl, a, p)
  after_attempt-Once max_retries n (refused de retryable hint) req h a p c =
      consider-Once max_retries n de retryable hint (requested req ∷ h) (a, p) c

  module _ (build : Builder) (payload : Text) where
    finish_attempt-Once :
        (n : ℕ) (r : Response) (body : Text) (h : History)
        → OfAttempt
            (finish_attempt o build parse payload n r body h)
            (accepted_of (parse r.status body n))
    unfolding finish_attempt
    finish_attempt-Once n r body h = go (parse r.status body n) refl
      where
        go :
            (q : Parsed)
            → parse r.status body n ≡ q
            → OfAttempt
                (finish_attempt o build parse payload n r body h)
                (accepted_of (parse r.status body n))
        go (accepted x) e = rw (e, finish_attempt) refl
        go (rejected de b) e = rw (e, finish_attempt) refl

    take_response-Once :
        (n : ℕ) (r : Fallible Response) (h : History)
        → OfAttempt (take_response o build parse payload n r h) (acceptance parse n r)
    unfolding take_response
    take_response-Once n (failed e) h = refl
    take_response-Once n (ok r) h = elim (Fallible-cases (read_and_drain_body r)) [
      | inl (body, read) ↦
          rw (read, take_response) (rw (read, acceptance) (finish_attempt-Once n r body h))
      | inr (e, broken) ↦ rw (broken, take_response) (rw (broken, acceptance) refl)
    ]

    module _ (req : Request) (built : build payload ≡ ok req) where
      round-Once :
          (max_retries : ℕ) (last : Option DeliveryError) (h : History)
          → AllRefused o parse h
          → OfRound
              (suc (count_requests h))
              (round o build parse payload max_retries (suc (count_requests h)) last h)
      unfolding round do_attempt
      round-Once max_retries last h p = elim (Option-cases (o.ctx_err h)) [
        | inr (e, ended) ↦ rw (ended, round) p
        | inl live ↦
            rw (live, round)
              (rw (built, do_attempt)
                (after_attempt-Once max_retries (suc (count_requests h)) _ req (checked_ctx ∷ h)
                  (take_response-Once (suc (count_requests h)) (o.exchange (checked_ctx ∷ h) req)
                    (requested req ∷ checked_ctx ∷ h))
                  p refl))
      ]

      loop_from-Once :
          (fuel max_retries n : ℕ) (last : Option DeliveryError) (h h' : History) (out : Outcome)
          → AllRefused o parse h
          → count_requests h ≡ n
          → loop_from o build parse payload fuel max_retries (suc n) last h ≡ some (out, h')
          → IsOnce o parse out h'
      unfolding loop_from
      loop_from-Once zero max_retries n last h h' out p c e = absurd (cc e)
      loop_from-Once (suc fuel) max_retries n last h h' out p c e =
          let facts : OfRound (suc n) (round o build parse payload max_retries (suc n) last h) =
            rw (← c) (round-Once max_retries last h p) in
          elim (Round-cases (round o build parse payload max_retries (suc n) last h)) [
            | inl (out', h'', ended) ↦
                let end : IsOnce o parse out' h'' = rw ended at facts in
                let same = rw (ended, loop_from) at e in
                let outs : out' ≡ out = ground (arith, same) in
                let hs : h'' ≡ h' = ground (arith, same) in rw (← outs, ← hs) end
            | inr (de, h'', more) ↦
                let next = rw more at facts in
                loop_from-Once fuel max_retries (suc n) (some de) h'' h' out next.0 next.1
                  (rw (more, loop_from) at e)
          ]

      -- Where the request can be built: a result of the retry loop is what the provider accepted
      -- with the last request, and it accepted none of the requests before; with an error of the
      -- loop, it accepted none at all.
      pub send_loop-IsOnce :
          (max_retries : ℕ) (out : Outcome) (h : History)
          → send_loop o build parse payload max_retries ≡ some (out, h)
          → IsOnce o parse out h
      unfolding send_loop
      send_loop-IsOnce max_retries out h e =
          loop_from-Once (suc max_retries) max_retries 0 none [] h out tt refl e
