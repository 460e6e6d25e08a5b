-- ===== src/Cloudflare/Loop/Bounds.antt =====
-- Laws of `sendLoop` (internal/cloudflare/send.go): its end, its requests and its sleeps.
use cloudflare_smtp_relay.Shared.{
  ℕ, zero, suc, ◌+◌, ◌*◌, ◌≤◌, ◌<◌, ◌≡◌, refl, sym, ◌⊎◌, inl, inr, Option, none, some, [], arith,
}
use cloudflare_smtp_relay.Shared.Text.{Text}
use cloudflare_smtp_relay.Email.Errors.{DeliveryError, ok}
use cloudflare_smtp_relay.Cloudflare.Backoff.{retry_cap_delay}
use cloudflare_smtp_relay.Cloudflare.Loop.{
  Request, History, Outside, Builder, Parser, Outcome, Round, stop, again, round, loop_from,
  send_loop,
}
use cloudflare_smtp_relay.Cloudflare.Loop.Rounds.{IsCounting, IsLast, RoundFacts, round-RoundFacts}
use cloudflare_smtp_relay.Cloudflare.Loop.History.{
  count_requests, total_slept, SleepsCapped, attempts_of,
}

pub Round-cases :
    (r : Round)
    → ((out : Outcome) × (h : History) × (r ≡ stop out h))
      ⊎ ((de : DeliveryError) × (h : History) × (r ≡ again de h))
Round-cases (stop out h) = inl (out, h, refl)
Round-cases (again de h) = inr (de, h, refl)

-- What a finished loop shows of its outcome and its history.
pub record IsBounded (max_retries : ℕ) (out : Outcome) (h : History) : Type 0 where
  pub counted : attempts_of out ≡ count_requests h
  pub bounded : count_requests h ≤ max_retries + 1
  pub sleeps : SleepsCapped h
  pub slept : total_slept h ≤ max_retries * retry_cap_delay

module _ (o : Outside) (build : Builder) (parse : Parser) (payload : Text)
    (counting : IsCounting parse) (max_retries : ℕ) (req : Request)
    (built : build payload ≡ ok req) where
  loop_from_total :
      (fuel n : ℕ) (last : Option DeliveryError) (h : History)
      → max_retries < fuel + n
      → n ≤ max_retries
      → IsLast last n
      → count_requests h ≡ n
      → total_slept h ≤ n * retry_cap_delay
      → SleepsCapped h
      → (out : Outcome) × (h' : History) × (loop_from o build parse payload fuel max_retries
            (suc n)
            last
            h
          ≡ some (out, h'))
        × IsBounded max_retries out h'
  unfolding loop_from
  loop_from_total zero n last h fuel le l c w s = absurd (omega arith)
  loop_from_total (suc fuel) n last h enough le l c w s =
      let facts =
        round-RoundFacts o build parse payload counting max_retries n req last h built l c le w s in
      elim (Round-cases (round o build parse payload max_retries (suc n) last h)) [
        | inl (out, h', ended) ↦
            let end : RoundFacts max_retries n (stop out h') = rw ended at facts in
            (
              out,
              h',
              rw (ended, loop_from) refl,
              record {
                counted = sym end.0;
                bounded = omega (arith, end.0, end.1);
                sleeps = end.3;
                slept = end.2;
              },
            )
        | inr (de, h', more) ↦
            let next : RoundFacts max_retries n (again de h') = rw more at facts in
            let (out, h'', e, bounded) =
              loop_from_total fuel (suc n) (some de) h' (omega arith) next.2 next.1 next.0 next.3
                next.4 in
            (out, h'', rw (more, loop_from) e, bounded)
      ]

  -- Where the request can be built and the parser counts attempts truthfully, the retry loop
  -- always ends, after at most one request more than the retries that are allowed; its result or
  -- error says exactly how many requests were made; every sleep in between is at most 5 s, and all
  -- of them together are at most 5 s for each retry that is allowed.
  pub send_loop_total :
      (out : Outcome) × (h : History) × (send_loop o build parse payload max_retries
        ≡ some (out, h))
      × IsBounded max_retries out h
  unfolding send_loop
  send_loop_total =
      loop_from_total (suc max_retries) 0 none [] (omega arith) (omega arith) tt refl (omega arith)
        tt
