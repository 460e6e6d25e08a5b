-- ===== src/Cloudflare/Loop/Replies.antt =====
-- Laws of `sendLoop` (internal/cloudflare/send.go): predicates on the errors that it returns.
use cloudflare_smtp_relay.Shared.{
  ℕ, zero, suc, ◌-◌, ◌≡◌, refl, inl, inr, Bool, ◌&&◌, Option, none, some, [], ◌∷◌, leb, Bool-cases,
  Option-cases,
}
use cloudflare_smtp_relay.Shared.Int.{ℤ, pos, ltb_ℤ}
use cloudflare_smtp_relay.Shared.Text.{Text}
use cloudflare_smtp_relay.Email.Errors.{Fault, DeliveryError, Fallible, ok, failed, Fallible-cases}
use cloudflare_smtp_relay.Cloudflare.Classify.{classify_transport}
use cloudflare_smtp_relay.Cloudflare.Backoff.{retry_cap_delay, backoff_delay}
use cloudflare_smtp_relay.Cloudflare.Loop.{
  Response, checked_ctx, requested, drew, History, Outside, Parsed, accepted, rejected, Builder,
  Parser, Attempted, done, refused, Outcome, sent, unsent, read_and_drain_body, finish_attempt,
  take_response, do_attempt, Round, stop, again, pause, consider, after_attempt, last_or, round,
  loop_from, send_loop,
}
use cloudflare_smtp_relay.Cloudflare.Loop.Bounds.{Round-cases}

module _ (P : DeliveryError → Type 0) where
  abbrev pub OfParsed : Parsed → Type 0
  OfParsed (accepted r) = Unit
  OfParsed (rejected de retryable) = P de

  abbrev OfAttempted : Attempted → Type 0
  OfAttempted (done r) = Unit
  OfAttempted (refused de retryable hint) = P de

  abbrev pub OfOutcome : Outcome → Type 0
  OfOutcome (sent r) = Unit
  OfOutcome (unsent de) = P de

  abbrev OfRound : Round → Type 0
  OfRound (stop out h) = OfOutcome out
  OfRound (again de h) = P de

  abbrev OfLast : Option DeliveryError → Type 0
  OfLast none = Unit
  OfLast (some de) = P de

  abbrev pub OfResult : Option (Outcome × History) → Type 0
  OfResult none = Unit
  OfResult (some (out, h)) = OfOutcome out

  module _ (transport : (e : Fault) (n : ℕ) → P (classify_transport e n)) where
    last_or-P :
        (last : Option DeliveryError) (e : Fault) (n : ℕ)
        → OfLast last
        → P (last_or last (classify_transport e n))
    last_or-P none e n l = transport e n
    last_or-P (some de) e n l = l

    module _ (o : Outside) where
      pause-P :
          (n : ℕ) (de : DeliveryError) (hint : ℤ) (h : History)
          → P de
          → OfRound (pause o n de hint h)
      unfolding pause
      pause-P n de hint h p =
          let delay = backoff_delay (o.draw h) n hint in
          elim (Bool-cases (ltb_ℤ (pos retry_cap_delay) delay)) [
            | inl long ↦ rw (long, pause) p
            | inr short ↦ elim (Option-cases (o.sleep (drew ∷ h) delay)) [
              | inl woke ↦ rw (short, pause) (rw woke p)
              | inr (e, ended) ↦ rw (short, pause) (rw ended (transport e n))
            ]
          ]

      consider-P :
          (max_retries n : ℕ) (de : DeliveryError) (retryable : Bool) (hint : ℤ) (h : History)
          → P de
          → OfRound (consider o max_retries n de retryable hint h)
      unfolding consider
      consider-P max_retries n de retryable hint h p =
          elim (Bool-cases (retryable && leb n max_retries)) [
            | inl more ↦ elim (Option-cases (o.ctx_err h)) [
              | inl live ↦ rw (more, consider) (rw live (pause-P n de hint (checked_ctx ∷ h) p))
              | inr (e, ended) ↦ rw (more, consider) (rw ended p)
            ]
            | inr last ↦ rw (last, consider) p
          ]

      after_attempt-P :
          (max_retries n : ℕ) (a : Attempted) (h : History)
          → OfAttempted a
          → OfRound (after_attempt o max_retries n (a, h))
      unfolding after_attempt
      after_attempt-P max_retries n (done r) h p = tt
      after_attempt-P max_retries n (refused de retryable hint) h p =
          consider-P max_retries n de retryable hint h p

      module _ (build : Builder) (parse : Parser) (payload : Text)
          (parser : (status : ℕ) (body : Text) (n : ℕ) → OfParsed (parse status body n)) where
        finish_attempt-P :
            (n : ℕ) (r : Response) (body : Text) (h : History)
            → OfAttempted (finish_attempt o build parse payload n r body h)
        unfolding finish_attempt
        finish_attempt-P n r body h = go (parse r.status body n) (parser r.status body n) refl
          where
            go :
                (q : Parsed)
                → OfParsed q
                → parse r.status body n ≡ q
                → OfAttempted (finish_attempt o build parse payload n r body h)
            go (accepted x) p e = rw (e, finish_attempt) tt
            go (rejected de b) p e = rw (e, finish_attempt) p

        take_response-P :
            (n : ℕ) (r : Fallible Response) (h : History)
            → OfAttempted (take_response o build parse payload n r h)
        unfolding take_response
        take_response-P n (failed e) h = transport e n
        take_response-P n (ok r) h = elim (Fallible-cases (read_and_drain_body r)) [
          | inl (body, read) ↦ rw (read, take_response) (finish_attempt-P n r body h)
          | inr (e, broken) ↦ rw (broken, take_response) (transport e n)
        ]

        do_attempt-P :
            (max_retries n : ℕ) (h : History)
            → OfRound (after_attempt o max_retries n (do_attempt o build parse payload n h))
        unfolding do_attempt
        do_attempt-P max_retries n h = elim (Fallible-cases (build payload)) [
          | inl (req, built) ↦
              rw (built, do_attempt)
                (after_attempt-P max_retries n _ _
                  (take_response-P n (o.exchange h req) (requested req ∷ h)))
          | inr (e, broken) ↦
              rw (broken, do_attempt) (after_attempt-P max_retries n _ h (transport e n))
        ]

        round-P :
            (max_retries n : ℕ) (last : Option DeliveryError) (h : History)
            → OfLast last
            → OfRound (round o build parse payload max_retries n last h)
        unfolding round
        round-P max_retries n last h l = elim (Option-cases (o.ctx_err h)) [
          | inl live ↦ rw (live, round) (do_attempt-P max_retries n (checked_ctx ∷ h))
          | inr (e, ended) ↦ rw (ended, round) (last_or-P last e (n - 1) l)
        ]

        loop_from-P :
            (fuel max_retries n : ℕ) (last : Option DeliveryError) (h : History)
            → OfLast last
            → OfResult (loop_from o build parse payload fuel max_retries n last h)
        unfolding loop_from
        loop_from-P zero max_retries n last h l = tt
        loop_from-P (suc fuel) max_retries n last h l =
            let p = round-P max_retries n last h l in
            elim (Round-cases (round o build parse payload max_retries n last h)) [
              | inl (out, h', ended) ↦ rw (ended, loop_from) (rw ended at p)
              | inr (de, h', more) ↦
                  rw (more, loop_from)
                    (loop_from-P fuel max_retries (suc n) (some de) h' (rw more at p))
            ]

        -- What holds of every error that the parser makes, and of every failure of the transport,
        -- holds of the error that the retry loop returns.
        pub send_loop-P : (max_retries : ℕ) → OfResult (send_loop o build parse payload max_retries)
        unfolding send_loop
        send_loop-P max_retries = loop_from-P (suc max_retries) max_retries 1 none [] tt
