-- ===== src/Cloudflare/Worker/Laws.antt =====
-- Laws of the Worker adapter (internal/cloudflare/worker.go).
use cloudflare_smtp_relay.Shared.{
  ℕ, ◌≡◌, refl, inl, inr, none, some, List, [], ◌∷◌, arith, Bool-cases, Option-cases, All,
}
use cloudflare_smtp_relay.Shared.Int.{pos, pos_part}
use cloudflare_smtp_relay.Shared.Text.{Text, codes, text_eq}
use cloudflare_smtp_relay.Email.Errors.{wrapped, ok, Fallible-cases}
use cloudflare_smtp_relay.Email.Message.{Message}
use cloudflare_smtp_relay.Cloudflare.Classify.{CodeBucket, bucket_error, new_delivery_error}
use cloudflare_smtp_relay.Cloudflare.Classify.Laws.{IsBucket, bucket_error-IsReply}
use cloudflare_smtp_relay.Cloudflare.Loop.{Outside, History, Outcome}
use cloudflare_smtp_relay.Cloudflare.Payload.{build_payload}
use cloudflare_smtp_relay.Cloudflare.Wire.{Wire}
use cloudflare_smtp_relay.Cloudflare.Contract.{
  IsRejection, IsVerdict, IsKept, transport-IsRejection, http-IsRejection, send_loop-IsKept,
}
use cloudflare_smtp_relay.Cloudflare.Rest.{json_post, build_request}
use cloudflare_smtp_relay.Cloudflare.Rest.Laws.{build_request-ok}
use cloudflare_smtp_relay.Cloudflare.Worker.{
  Worker, worker_code_buckets, find_worker_bucket, classify_worker_code, is_worker_retryable,
  parse_worker_response, worker_send,
}

find_worker_bucket_sound :
    (code : Text) (buckets : List (Text × CodeBucket)) {b : CodeBucket}
    → All (λ p. IsBucket p.1) buckets
    → find_worker_bucket code buckets ≡ some b
    → IsBucket b
unfolding find_worker_bucket
find_worker_bucket_sound code [] h e = cc
find_worker_bucket_sound code ((k, c) ∷ buckets) h e = elim (Bool-cases (text_eq code k)) [
  | inl here ↦ let first : IsBucket c = h.0 in ground arith
  | inr later ↦ find_worker_bucket_sound code buckets h.1 (rw (later, find_worker_bucket) at e)
]

worker_code_buckets-IsBucket : All (λ p. IsBucket p.1) worker_code_buckets
unfolding worker_code_buckets
worker_code_buckets-IsBucket = ground arith

bucket-IsRejection :
    (b : CodeBucket) (status n : ℕ) (message : Text)
    → IsBucket b
    → IsRejection n (bucket_error b status (pos 0) n message) b.retryable
unfolding new_delivery_error
bucket-IsRejection b status n message h = record {
  reply = bucket_error-IsReply status (pos 0) message n b h;
  attempts = refl;
  retry = h.retry;
}

-- The classification of a Worker's string code is a well-formed reply with the attempts that were
-- given, and the retry decision for the code is made exactly if it is temporary and not about the
-- credential.
pub classify_worker_code-IsRejection :
    (status : ℕ) (code message : Text) (n : ℕ)
    → IsRejection n (classify_worker_code status code message n) (is_worker_retryable status code)
unfolding classify_worker_code is_worker_retryable
classify_worker_code-IsRejection status code message n =
    elim (Option-cases (find_worker_bucket code worker_code_buckets)) [
      | inl absent ↦
          rw (absent, classify_worker_code, is_worker_retryable)
            (http-IsRejection status (pos 0) message n)
      | inr (b, found) ↦
          rw (found, classify_worker_code, is_worker_retryable)
            (bucket-IsRejection b status n message (
              find_worker_bucket_sound code worker_code_buckets worker_code_buckets-IsBucket found))
    ]

module _ (w : Wire) where
  -- Whatever the response, it is judged consistently: a result has the status and the attempt, and
  -- a rejection is a well-formed reply that is retried exactly if it is temporary and not about the
  -- relay's credential.
  pub parse_worker_response-IsVerdict :
      (status : ℕ) (body : Text) (n : ℕ)
      → IsVerdict status n (parse_worker_response w status body n)
  unfolding parse_worker_response
  parse_worker_response-IsVerdict status body n = elim (Fallible-cases (w.decode_worker body)) [
    | inr (e, broken) ↦
        rw (broken, parse_worker_response)
          (transport-IsRejection (wrapped (codes "decode response: ") e []) n)
    | inl (resp, decoded) ↦ elim (Bool-cases resp.success) [
      | inl success ↦ rw (decoded, parse_worker_response) (rw success (refl, refl))
      | inr failure ↦
          rw (decoded, parse_worker_response)
            (rw failure (classify_worker_code-IsRejection status resp.code resp.error n))
    ]
  ]

  -- Where the message can be encoded and the Worker's URL is one, Send of the Worker adapter ends,
  -- with a result or with a delivery error whose reply is well formed, after at most one request
  -- more than the retries that are configured, and it says exactly how many requests it made.
  pub worker_send-IsKept :
      (o : Outside) (c : Worker) (msg : Message) (payload : Text)
      → w.marshal (build_payload msg) ≡ ok payload
      → w.bad_url c.url ≡ none
      → (out : Outcome) × (h : History) × (worker_send w o c msg ≡ some (out, h))
        × IsKept (pos_part c.max_retries) out h
  unfolding worker_send
  worker_send-IsKept o c msg payload encoded url =
      rw (encoded, worker_send)
        (send_loop-IsKept (parse_worker_response w) parse_worker_response-IsVerdict o
          (build_request w c.url c.secret) payload (pos_part c.max_retries)
          (json_post c.url c.secret payload) (build_request-ok w c.url c.secret payload url))
