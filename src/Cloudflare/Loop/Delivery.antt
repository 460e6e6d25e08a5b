-- ===== src/Cloudflare/Loop/Delivery.antt =====
-- Laws of `sendLoop` (internal/cloudflare/send.go): runs in which an attempt is accepted.
use cloudflare_smtp_relay.Shared.{
  ℕ, zero, suc, ◌+◌, ◌≤◌, ◌<◌, ◌≡◌, refl, inl, inr, true, false, Option, none, some, [], ◌∷◌, arith,
  leb, Bool-cases,
}
use cloudflare_smtp_relay.Shared.Int.{ℤ, pos, ◌≤ℤ◌, ltb_ℤ}
use cloudflare_smtp_relay.Shared.Text.{Text}
use cloudflare_smtp_relay.Email.Errors.{DeliveryError, ok}
use cloudflare_smtp_relay.Email.Message.{Delivered}
use cloudflare_smtp_relay.Cloudflare.Backoff.{retry_cap_delay, backoff_delay}
use cloudflare_smtp_relay.Cloudflare.Backoff.Delay.{backoff_delay_lem}
use cloudflare_smtp_relay.Cloudflare.Loop.{
  Request, checked_ctx, requested, drew, slept, History, Outside, Builder, Parser, Attempted, done,
  refused, sent, take_response, do_attempt, stop, again, pause, consider, after_attempt, round,
  loop_from, send_loop,
}
use cloudflare_smtp_relay.Cloudflare.Loop.History.{count_requests}

module _ (o : Outside) (build : Builder) (parse : Parser) (payload : Text) (max_retries : ℕ)
    (req : Request) (built : build payload ≡ ok req) (live : (h : History) → o.ctx_err h ≡ none)
    (woken : (h : History) (d : ℤ) → o.sleep h d ≡ none) where
  short-delay :
      (drawn n : ℕ) (hint : ℤ)
      → hint ≤ℤ pos retry_cap_delay
      → ltb_ℤ (pos retry_cap_delay) (backoff_delay drawn (suc n) hint) ≡ false
  short-delay drawn n hint le = elim (Bool-cases (ltb_ℤ (pos 0) hint)) [
    | inl long ↦ unfold backoff_delay in rw (long, backoff_delay) (ground arith)
    | inr short ↦ let (e, low, cap) = backoff_delay_lem drawn n hint short in rw e (ground arith)
  ]

  pause-again :
      (n : ℕ) (de : DeliveryError) (hint : ℤ) (h : History)
      → hint ≤ℤ pos retry_cap_delay
      → pause o (suc n) de hint h
        ≡ again de (slept (backoff_delay (o.draw h) (suc n) hint) ∷ drew ∷ h)
  unfolding pause
  pause-again n de hint h le =
      rw (short-delay (o.draw h) n hint le, pause)
        (rw (woken (drew ∷ h) (backoff_delay (o.draw h) (suc n) hint)) refl)

  consider-pause :
      (n : ℕ) (de : DeliveryError) (hint : ℤ) (h : History)
      → suc n ≤ max_retries
      → consider o max_retries (suc n) de true hint h ≡ pause o (suc n) de hint (checked_ctx ∷ h)
  unfolding consider
  consider-pause n de hint h le =
      let more : leb (suc n) max_retries ≡ true = ground arith in
      rw (more, consider) (rw (live h) refl)

  round-after_attempt :
      (n : ℕ) (last : Option DeliveryError) (h : History)
      → round o build parse payload max_retries (suc n) last h
        ≡ after_attempt o max_retries (suc n) (
          take_response o build parse payload
              (suc n)
              (o.exchange (checked_ctx ∷ h) req)
              (requested req ∷ checked_ctx ∷ h),
          requested req ∷ checked_ctx ∷ h,
        )
  unfolding round do_attempt
  round-after_attempt n last h = rw (live h, round) (rw (built, do_attempt) refl)

  -- What the `n + 1`st attempt makes of the answer of the outside.
  abbrev attempt_at : ℕ → History → Attempted
  attempt_at n h =
      take_response o build parse payload (suc n) (o.exchange (checked_ctx ∷ h) req)
        (requested req ∷ checked_ctx ∷ h)

  -- A retryable failure with a short enough hint leads to the next round, with one request more.
  round-again :
      (n : ℕ) (last : Option DeliveryError) (de : DeliveryError) (hint : ℤ) (h : History)
      → suc n ≤ max_retries
      → hint ≤ℤ pos retry_cap_delay
      → attempt_at n h ≡ refused de true hint
      → (h' : History) × (round o build parse payload max_retries (suc n) last h ≡ again de h')
        × (count_requests h' ≡ suc (count_requests h))
  unfolding after_attempt
  round-again n last de hint h le short e =
      let h₂ : History = checked_ctx ∷ requested req ∷ checked_ctx ∷ h in
      (
        slept (backoff_delay (o.draw h₂) (suc n) hint) ∷ drew ∷ h₂,
        rw
            (
              round-after_attempt n last h,
              e,
              consider-pause n de hint (requested req ∷ checked_ctx ∷ h) le,
            )
            (pause-again n de hint h₂ short),
        refl,
      )

  round-stop :
      (n : ℕ) (last : Option DeliveryError) (r : Delivered) (h : History)
      → attempt_at n h ≡ done r
      → round o build parse payload max_retries (suc n) last h
        ≡ stop (sent r) (requested req ∷ checked_ctx ∷ h)
  unfolding after_attempt
  round-stop n last r h e = rw (round-after_attempt n last h, e) refl

  module _ (k : ℕ) (r : Delivered) (de : ℕ → DeliveryError) (hint : ℕ → ℤ)
      (within : k ≤ max_retries) (short : (n : ℕ) → hint n ≤ℤ pos retry_cap_delay)
      (fails : (h : History)
        → count_requests h < k
        → attempt_at (count_requests h) h
          ≡ refused (de (count_requests h)) true (hint (count_requests h)))
      (succeeds : (h : History)
        → count_requests h ≡ k
        → attempt_at (count_requests h) h ≡ done r) where
    loop_from-sent :
        (fuel n j : ℕ) (last : Option DeliveryError) (h : History)
        → n + j ≡ k
        → j < fuel
        → count_requests h ≡ n
        → (h' : History) × (loop_from o build parse payload fuel max_retries (suc n) last h
            ≡ some (sent r, h'))
          × (count_requests h' ≡ suc k)
    unfolding loop_from
    loop_from-sent zero n j last h e lt c = absurd (omega arith)
    loop_from-sent (suc fuel) n zero last h e lt c =
        let won = round-stop n last r h (rw c at (succeeds h (omega arith))) in
        (requested req ∷ checked_ctx ∷ h, rw (won, loop_from) refl, omega arith)
    loop_from-sent (suc fuel) n (suc j) last h e lt c =
        let failed : attempt_at n h ≡ refused (de n) true (hint n) =
          rw c at (fails h (omega arith)) in
        let (h', more, one) = round-again n last (de n) (hint n) h (omega arith) (short n) failed in
        let (h'', e', total) =
          loop_from-sent fuel (suc n) j (some (de n)) h' (omega arith) (omega arith)
            (omega arith) in
        (h'', rw (more, loop_from) e', total)

    -- Where the context lives on and sleeping is not interrupted: if the first k attempts fail in
    -- a way that is worth a retry and ask for no wait above the cap, k is within the retries that
    -- are allowed, and the next attempt is accepted, then the loop returns that result, after
    -- exactly k + 1 requests.
    pub send_loop-sent :
        (h' : History) × (send_loop o build parse payload max_retries ≡ some (sent r, h'))
        × (count_requests h' ≡ suc k)
    unfolding send_loop
    send_loop-sent = loop_from-sent (suc max_retries) 0 k none [] (omega arith) (omega arith) refl
