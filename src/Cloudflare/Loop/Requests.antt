-- ===== src/Cloudflare/Loop/Requests.antt =====
-- Laws of `sendLoop` (internal/cloudflare/send.go): what it asks for, and when.
use cloudflare_smtp_relay.Shared.{
  ℕ, zero, suc, ◌≡◌, refl, inl, inr, Bool, ◌&&◌, Option, none, some, [], ◌∷◌, arith, leb,
  Bool-cases, Option-cases,
}
use cloudflare_smtp_relay.Shared.Int.{ℤ, pos, ltb_ℤ}
use cloudflare_smtp_relay.Shared.Text.{Text}
use cloudflare_smtp_relay.Email.Errors.{DeliveryError, ok}
use cloudflare_smtp_relay.Cloudflare.Backoff.{retry_cap_delay, backoff_delay}
use cloudflare_smtp_relay.Cloudflare.Loop.{
  Request, checked_ctx, requested, drew, slept, History, Outside, Builder, Parser, Attempted, done,
  refused, Outcome, take_response, do_attempt, Round, stop, again, pause, consider, after_attempt,
  round, loop_from, send_loop,
}
use cloudflare_smtp_relay.Cloudflare.Loop.Bounds.{Round-cases}

-- The last thing that was asked is whether the context is over, and it was not.
abbrev pub IsLive : Outside → History → Type 0
IsLive o h = (before : History) × (h ≡ checked_ctx ∷ before) × (o.ctx_err before ≡ none)

-- Every request of a history is this one, made right after the context was seen to live.
abbrev pub AllMade : Outside → Request → History → Type 0
AllMade o req [] = Unit
AllMade o req (requested r ∷ h) = (r ≡ req) × IsLive o h × AllMade o req h
AllMade o req (checked_ctx ∷ h) = AllMade o req h
AllMade o req (drew ∷ h) = AllMade o req h
AllMade o req (slept d ∷ h) = AllMade o req h

module _ (o : Outside) (req : Request) where
  abbrev OfRound : Round → Type 0
  OfRound (stop out h) = AllMade o req h
  OfRound (again de h) = AllMade o req h

  pause-AllMade :
      (n : ℕ) (de : DeliveryError) (hint : ℤ) (h : History)
      → AllMade o req h
      → OfRound (pause o n de hint h)
  unfolding pause
  pause-AllMade n de hint h p =
      let delay = backoff_delay (o.draw h) n hint in
      elim (Bool-cases (ltb_ℤ (pos retry_cap_delay) delay)) [
        | inl long ↦ rw (long, pause) p
        | inr short ↦ elim (Option-cases (o.sleep (drew ∷ h) delay)) [
          | inl woke ↦ rw (short, pause) (rw woke p)
          | inr (e, ended) ↦ rw (short, pause) (rw ended p)
        ]
      ]

  consider-AllMade :
      (max_retries n : ℕ) (de : DeliveryError) (retryable : Bool) (hint : ℤ) (h : History)
      → AllMade o req h
      → OfRound (consider o max_retries n de retryable hint h)
  unfolding consider
  consider-AllMade max_retries n de retryable hint h p =
      elim (Bool-cases (retryable && leb n max_retries)) [
        | inr last ↦ rw (last, consider) p
        | inl more ↦ elim (Option-cases (o.ctx_err h)) [
          | inl live ↦ rw (more, consider) (rw live (pause-AllMade n de hint (checked_ctx ∷ h) p))
          | inr (e, ended) ↦ rw (more, consider) (rw ended p)
        ]
      ]

  after_attempt-AllMade :
      (max_retries n : ℕ) (a : Attempted) (h : History)
      → AllMade o req h
      → OfRound (after_attempt o max_retries n (a, h))
  unfolding after_attempt
  after_attempt-AllMade max_retries n (done r) h p = p
  after_attempt-AllMade max_retries n (refused de retryable hint) h p =
      consider-AllMade max_retries n de retryable hint h p

  module _ (build : Builder) (parse : Parser) (payload : Text)
      (built : build payload ≡ ok req) where
    round-AllMade :
        (max_retries n : ℕ) (last : Option DeliveryError) (h : History)
        → AllMade o req h
        → OfRound (round o build parse payload max_retries n last h)
    unfolding round do_attempt
    round-AllMade max_retries n last h p = elim (Option-cases (o.ctx_err h)) [
      | inr (e, ended) ↦ rw (ended, round) p
      | inl live ↦
          rw (live, round)
            (rw (built, do_attempt)
              (after_attempt-AllMade max_retries n
                (take_response o build parse payload n (o.exchange (checked_ctx ∷ h) req)
                  (requested req ∷ checked_ctx ∷ h))
                (requested req ∷ checked_ctx ∷ h) (refl, (h, refl, live), p)))
    ]

    loop_from-AllMade :
        (fuel max_retries n : ℕ) (last : Option DeliveryError) (h h' : History) (out : Outcome)
        → AllMade o req h
        → loop_from o build parse payload fuel max_retries n last h ≡ some (out, h')
        → AllMade o req h'
    unfolding loop_from
    loop_from-AllMade zero max_retries n last h h' out p e = absurd (cc e)
    loop_from-AllMade (suc fuel) max_retries n last h h' out p e =
        let facts = round-AllMade max_retries n last h p in
        elim (Round-cases (round o build parse payload max_retries n last h)) [
          | inl (out', h'', ended) ↦
              let end : AllMade o req h'' = rw ended at facts in
              let same = rw (ended, loop_from) at e in
              let hs : h'' ≡ h' = ground (arith, same) in rw (← hs) end
          | inr (de, h'', more) ↦
              loop_from-AllMade fuel max_retries (suc n) (some de) h'' h' out (rw more at facts)
                (rw (more, loop_from) at e)
        ]

    -- Every request of the retry loop is the one that was built, and is made right after the context
    -- was seen to live.
    pub send_loop-AllMade :
        (max_retries : ℕ) (out : Outcome) (h : History)
        → send_loop o build parse payload max_retries ≡ some (out, h)
        → AllMade o req h
    unfolding send_loop
    send_loop-AllMade max_retries out h e =
        loop_from-AllMade (suc max_retries) max_retries 1 none [] h out tt e
