-- ===== src/Cloudflare/Loop/Rounds.antt =====
-- Laws of one round of `sendLoop` (internal/cloudflare/send.go): requests, sleeps and attempts.
use cloudflare_smtp_relay.Shared.{
  ℕ, suc, ◌+◌, ◌*◌, ◌-◌, ◌≤◌, ◌≡◌, refl, sym, ap, ◌∙◌, inl, inr, Bool, ◌&&◌, Option, none, some,
  ◌∷◌, arith, leb, Bool-cases, Option-cases,
}
use cloudflare_smtp_relay.Shared.Int.{ℤ, pos, negsuc, pos_part, ◌≤ℤ◌, ltb_ℤ}
use cloudflare_smtp_relay.Shared.Text.{Text}
use cloudflare_smtp_relay.Email.Errors.{Fault, DeliveryError, Fallible, ok, failed, Fallible-cases}
use cloudflare_smtp_relay.Cloudflare.Classify.{classify_transport}
use cloudflare_smtp_relay.Cloudflare.Backoff.{retry_cap_delay, backoff_delay}
use cloudflare_smtp_relay.Cloudflare.Backoff.Delay.{backoff_delay_lem}
use cloudflare_smtp_relay.Cloudflare.Loop.{
  Request, Response, checked_ctx, requested, drew, History, Outside, Parsed, accepted, rejected,
  Builder, Parser, Attempted, done, refused, read_and_drain_body, finish_attempt, take_response,
  do_attempt, Round, stop, again, pause, consider, after_attempt, last_or, round,
}
use cloudflare_smtp_relay.Cloudflare.Loop.History.{
  SleepsCapped, attempts_of, count_requests, total_slept,
}

abbrev pub IsCounted : Parsed → ℕ → Type 0
IsCounted (accepted r) n = r.attempts ≡ n
IsCounted (rejected de retryable) n = de.attempts ≡ n

-- A parser puts the number of the attempt into its result or its error.
abbrev pub IsCounting : Parser → Type 0
IsCounting parse = (status : ℕ) (body : Text) (n : ℕ) → IsCounted (parse status body n) n

abbrev IsAttempt : Attempted → ℕ → Type 0
IsAttempt (done r) n = r.attempts ≡ n
IsAttempt (refused de retryable hint) n = de.attempts ≡ n

abbrev pub IsLast : Option DeliveryError → ℕ → Type 0
IsLast none n = Unit
IsLast (some de) n = de.attempts ≡ n

classify_transport-attempts : (e : Fault) (n : ℕ) → (classify_transport e n).attempts ≡ n
unfolding classify_transport
classify_transport-attempts e n = refl

last_or-attempts :
    (last : Option DeliveryError) (e : Fault) (n : ℕ)
    → IsLast last n
    → (last_or last (classify_transport e (suc n - 1))).attempts ≡ n
last_or-attempts none e n h = omega (arith, classify_transport-attempts e (suc n - 1))
last_or-attempts (some de) e n h = h

-- What a round does from a history with `n` requests, at attempt `n + 1`.
abbrev pub RoundFacts : ℕ → ℕ → Round → Type 0
RoundFacts max_retries n (stop outcome h) =
    (count_requests h ≡ attempts_of outcome)
    × (attempts_of outcome ≤ suc n)
    × (total_slept h ≤ max_retries * retry_cap_delay)
    × SleepsCapped h
RoundFacts max_retries n (again de h) =
    (count_requests h ≡ suc n)
    × (de.attempts ≡ suc n)
    × (suc n ≤ max_retries)
    × (total_slept h ≤ suc n * retry_cap_delay)
    × SleepsCapped h

backoff_delay_nonneg : (drawn n : ℕ) (hint : ℤ) → pos 0 ≤ℤ backoff_delay drawn (suc n) hint
backoff_delay_nonneg drawn n hint = elim (Bool-cases (ltb_ℤ (pos 0) hint)) [
  | inl long ↦ unfold backoff_delay in rw (long, backoff_delay) (ground arith)
  | inr short ↦ rw ((backoff_delay_lem drawn n hint short).0) (omega arith)
]

-- One more sleep within the cap.
slept_more :
    (d : ℤ) (t n : ℕ)
    → t ≤ n * retry_cap_delay
    → d ≤ℤ pos retry_cap_delay
    → pos_part d + t ≤ suc n * retry_cap_delay
slept_more (pos k) t n h capped = omega arith
slept_more (negsuc k) t n h capped = omega arith

slept_bound : (t n m : ℕ) → t ≤ n * retry_cap_delay → n ≤ m → t ≤ m * retry_cap_delay
slept_bound t n m h le = omega arith

module _ (o : Outside) (max_retries n : ℕ) (de : DeliveryError) (hint : ℤ) where
  pause-RoundFacts :
      (h : History)
      → count_requests h ≡ suc n
      → de.attempts ≡ suc n
      → suc n ≤ max_retries
      → total_slept h ≤ n * retry_cap_delay
      → SleepsCapped h
      → RoundFacts max_retries n (pause o (suc n) de hint h)
  unfolding pause
  pause-RoundFacts h c a le w s =
      let delay = backoff_delay (o.draw h) (suc n) hint in
      elim (Bool-cases (ltb_ℤ (pos retry_cap_delay) delay)) [
        | inl long ↦
            rw (long, pause)
              (
                c ∙ sym a,
                omega arith,
                slept_bound (total_slept h) n max_retries w (omega arith),
                (tt, s),
              )
        | inr short ↦
            let capped : delay ≤ℤ pos retry_cap_delay = ground arith in
            let more = slept_more delay (total_slept h) n w capped in
            let low = backoff_delay_nonneg (o.draw h) n hint in
            elim (Option-cases (o.sleep (drew ∷ h) delay)) [
              | inl woke ↦ rw (short, pause) (rw woke (c, a, le, more, ((low, capped), (tt, s))))
              | inr (e, ended) ↦
                  let attempts = classify_transport-attempts e (suc n) in
                  rw (short, pause)
                    (rw ended (
                      c ∙ sym attempts,
                      omega (arith, attempts),
                      slept_bound (pos_part delay + total_slept h) (suc n) max_retries more le,
                      ((low, capped), (tt, s)),
                    ))
            ]
      ]

  consider-RoundFacts :
      (retryable : Bool) (h : History)
      → count_requests h ≡ suc n
      → de.attempts ≡ suc n
      → n ≤ max_retries
      → total_slept h ≤ n * retry_cap_delay
      → SleepsCapped h
      → RoundFacts max_retries n (consider o max_retries (suc n) de retryable hint h)
  unfolding consider
  consider-RoundFacts retryable h c a le w s =
      let bound = slept_bound (total_slept h) n max_retries w le in
      elim (Bool-cases (retryable && leb (suc n) max_retries)) [
        | inl more ↦ elim (Option-cases (o.ctx_err h)) [
          | inl live ↦
              rw (more, consider)
                (rw live (pause-RoundFacts (checked_ctx ∷ h) c a (ground arith) w (tt, s)))
          | inr (e, ended) ↦ rw (more, consider) (rw ended (c ∙ sym a, omega arith, bound, (tt, s)))
        ]
        | inr last ↦ rw (last, consider) (c ∙ sym a, omega arith, bound, s)
      ]

module _ (o : Outside) (build : Builder) (parse : Parser) (payload : Text)
    (counting : IsCounting parse) where
  finish_attempt-IsAttempt :
      (n : ℕ) (r : Response) (body : Text) (h : History)
      → IsAttempt (finish_attempt o build parse payload n r body h) n
  unfolding finish_attempt
  finish_attempt-IsAttempt n r body h = ground (arith, counting r.status body n)

  take_response-IsAttempt :
      (n : ℕ) (r : Fallible Response) (h : History)
      → IsAttempt (take_response o build parse payload n r h) n
  unfolding take_response
  take_response-IsAttempt n (failed e) h = classify_transport-attempts e n
  take_response-IsAttempt n (ok r) h = elim (Fallible-cases (read_and_drain_body r)) [
    | inl (body, read) ↦ rw (read, take_response) (finish_attempt-IsAttempt n r body h)
    | inr (e, broken) ↦ rw (broken, take_response) (classify_transport-attempts e n)
  ]

  -- Where the builder makes a request, an attempt makes one request.
  after_attempt-RoundFacts :
      (max_retries n : ℕ) (req : Request) (h : History)
      → build payload ≡ ok req
      → count_requests h ≡ n
      → n ≤ max_retries
      → total_slept h ≤ n * retry_cap_delay
      → SleepsCapped h
      → RoundFacts max_retries n
          (after_attempt o max_retries (suc n) (do_attempt o build parse payload (suc n) h))
  unfolding do_attempt after_attempt
  after_attempt-RoundFacts max_retries n req h built c le w s =
      rw (built, do_attempt)
        (go (take_response o build parse payload (suc n) (o.exchange h req) (requested req ∷ h))
          (take_response-IsAttempt (suc n) (o.exchange h req) (requested req ∷ h)))
    where
      go :
          (a : Attempted)
          → IsAttempt a (suc n)
          → RoundFacts max_retries n (after_attempt o max_retries (suc n) (a, requested req ∷ h))
      go (done r) e =
          (ap suc c ∙ sym e, omega arith, slept_bound (total_slept h) n max_retries w le, (tt, s))
      go (refused de retryable hint) e =
          consider-RoundFacts o max_retries n de hint retryable (requested req ∷ h) (ap suc c) e le
            w (tt, s)

  pub round-RoundFacts :
      (max_retries n : ℕ) (req : Request) (last : Option DeliveryError) (h : History)
      → build payload ≡ ok req
      → IsLast last n
      → count_requests h ≡ n
      → n ≤ max_retries
      → total_slept h ≤ n * retry_cap_delay
      → SleepsCapped h
      → RoundFacts max_retries n (round o build parse payload max_retries (suc n) last h)
  unfolding round
  round-RoundFacts max_retries n req last h built l c le w s = elim (Option-cases (o.ctx_err h)) [
    | inl live ↦
        rw (live, round)
          (after_attempt-RoundFacts max_retries n req (checked_ctx ∷ h) built c le w (tt, s))
    | inr (e, ended) ↦
        let same = last_or-attempts last e n l in
        rw (ended, round)
          (
            c ∙ sym same,
            omega (arith, same),
            slept_bound (total_slept h) n max_retries w le,
            (tt, s),
          )
  ]
