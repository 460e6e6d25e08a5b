-- ===== src/Cloudflare/Contract.antt =====
-- The contract of `email.Sender` (internal/email/message.go) as a predicate on what an adapter
-- does.
use cloudflare_smtp_relay.Shared.{ℕ, ◌≡◌, refl, Bool, true, not, ◌&&◌, some, arith, ◌==◌}
use cloudflare_smtp_relay.Shared.Int.{ℤ}
use cloudflare_smtp_relay.Shared.Text.{Text}
use cloudflare_smtp_relay.Email.Errors.{Fault, DeliveryError, ok}
use cloudflare_smtp_relay.Cloudflare.Classify.{classify_http, classify_transport, is_retryable}
use cloudflare_smtp_relay.Cloudflare.Classify.Laws.{
  IsReply, classify_http-IsReply, classify_transport-IsReply, is_retryable_lem,
}
use cloudflare_smtp_relay.Cloudflare.Loop.{
  Request, Outside, History, Parsed, accepted, rejected, Builder, Parser, Outcome, send_loop,
}
use cloudflare_smtp_relay.Cloudflare.Loop.Rounds.{IsCounted, IsCounting}
use cloudflare_smtp_relay.Cloudflare.Loop.Bounds.{IsBounded, send_loop_total}
use cloudflare_smtp_relay.Cloudflare.Loop.Replies.{OfParsed, OfOutcome, OfResult, send_loop-P}

-- A rejected response: the reply to the client is well formed, the error has the attempt's number,
-- and the loop tries again exactly if the failure is temporary and not about the credential.
pub record IsRejection (n : ℕ) (de : DeliveryError) (retryable : Bool) : Type 0 where
  pub reply : IsReply de
  pub attempts : de.attempts ≡ n
  pub retry : retryable ≡ (de.temporary && not (de.enhanced_code.subject == 7))

abbrev pub IsVerdict : ℕ → ℕ → Parsed → Type 0
IsVerdict status n (accepted r) = (r.http_status ≡ status) × (r.attempts ≡ n)
IsVerdict status n (rejected de retryable) = IsRejection n de retryable

-- What `Sender` promises of an outcome: a bounded and truthfully counted number of requests, and
-- an error only as a delivery error with a well-formed reply.
pub record IsKept (max_retries : ℕ) (out : Outcome) (h : History) : Type 0 where
  pub bounded : IsBounded max_retries out h
  pub reply : OfOutcome IsReply out

pub transport-IsRejection : (e : Fault) (n : ℕ) → IsRejection n (classify_transport e n) true
unfolding classify_transport
transport-IsRejection e n = record {
  reply = (classify_transport-IsReply e n).0;
  attempts = refl;
  retry = ground arith;
}

pub http-IsRejection :
    (status : ℕ) (code : ℤ) (message : Text) (n : ℕ)
    → IsRejection n (classify_http status code message n) (is_retryable status code)
http-IsRejection status code message n =
    let (reply, of) = classify_http-IsReply status code message n in
    record { reply = reply; attempts = of.attempts; retry = is_retryable_lem status code message n }

verdict-IsCounted : (status n : ℕ) (p : Parsed) → IsVerdict status n p → IsCounted p n
verdict-IsCounted status n (accepted r) v = v.1
verdict-IsCounted status n (rejected de retryable) v = v.attempts

verdict-IsReply : (status n : ℕ) (p : Parsed) → IsVerdict status n p → OfParsed IsReply p
verdict-IsReply status n (accepted r) v = tt
verdict-IsReply status n (rejected de retryable) v = v.reply

module _ (parse : Parser)
    (verdicts : (status : ℕ) (body : Text) (n : ℕ) → IsVerdict status n (parse status body n)) where
  counting : IsCounting parse
  counting status body n = verdict-IsCounted status n (parse status body n) (verdicts status body n)

  replies : (status : ℕ) (body : Text) (n : ℕ) → OfParsed IsReply (parse status body n)
  replies status body n = verdict-IsReply status n (parse status body n) (verdicts status body n)

  -- A parser of verdicts makes the retry loop keep the contract.
  pub send_loop-IsKept :
      (o : Outside) (build : Builder) (payload : Text) (max_retries : ℕ) (req : Request)
      → build payload ≡ ok req
      → (out : Outcome) × (h : History) × (send_loop o build parse payload max_retries
          ≡ some (out, h))
        × IsKept max_retries out h
  send_loop-IsKept o build payload max_retries req built =
      let (out, h, e, bounded) =
        send_loop_total o build parse payload counting max_retries req built in
      let reply : OfResult IsReply (some (out, h)) = rw e at (
        send_loop-P IsReply (λ f n. (classify_transport-IsReply f n).0) o build parse payload
          replies max_retries) in
      (out, h, e, record { bounded = bounded; reply = reply })
