-- ===== src/Cloudflare/Worker.antt =====
-- internal/cloudflare/worker.go: the adapter for a Worker that the user deploys.
pub mod Laws
use cloudflare_smtp_relay.Shared.{
  ℕ, Bool, true, false, Option, none, some, List, [], ◌∷◌, if◌then◌else◌,
}
use cloudflare_smtp_relay.Shared.Int.{ℤ, pos, pos_part, ltb_ℤ}
use cloudflare_smtp_relay.Shared.Text.{Text, codes, text_eq, is_empty}
use cloudflare_smtp_relay.Email.Errors.{outside, wrapped, DeliveryError, Fallible, ok, failed}
use cloudflare_smtp_relay.Email.Message.{Message}
use cloudflare_smtp_relay.Cloudflare.Classify.{
  CodeBucket, bucket, enhanced, bucket_error, classify_http, classify_transport, is_retryable,
}
use cloudflare_smtp_relay.Cloudflare.Loop.{
  Outside, History, Parsed, accepted, rejected, Outcome, unsent, send_loop,
}
use cloudflare_smtp_relay.Cloudflare.Payload.{build_payload}
use cloudflare_smtp_relay.Cloudflare.Wire.{Wire}
use cloudflare_smtp_relay.Cloudflare.Rest.{effective_timeout, build_request}

pub record WorkerConfig : Type 0 where
  pub url : Text
  pub secret : Text
  pub timeout : ℤ
  pub max_retries : ℤ

pub record Worker : Type 0 where
  pub url : Text
  pub secret : Text
  pub timeout : ℤ
  pub max_retries : ℤ

unfoldable pub new_worker : WorkerConfig → Fallible Worker
new_worker cfg =
    if is_empty cfg.url
    then failed (outside (codes "cloudflare: WorkerConfig.URL must not be empty"))
    else if is_empty cfg.secret
    then failed (outside (codes "cloudflare: WorkerConfig.Secret must not be empty"))
    else if ltb_ℤ cfg.max_retries (pos 0)
    then failed (outside (codes "cloudflare: WorkerConfig.MaxRetries must not be negative"))
    else ok (record {
      url = cfg.url;
      secret = cfg.secret;
      timeout = effective_timeout cfg.timeout;
      max_retries = cfg.max_retries;
    })

-- The entries of the map `workerCodeBuckets`.
unfoldable pub worker_code_buckets : List (Text × CodeBucket)
worker_code_buckets =
    (
      codes "E_RATE_LIMIT_EXCEEDED",
      bucket true true 451 (enhanced 4 4 5) (codes "upstream rate limited"),
    )
    ∷ (
      codes "E_DAILY_LIMIT_EXCEEDED",
      bucket true true 451 (enhanced 4 4 5) (codes "upstream rate limited"),
    )
    ∷ (
      codes "E_SENDER_NOT_VERIFIED",
      bucket false false 550 (enhanced 5 7 1) (codes "upstream rejected sender"),
    )
    ∷ (
      codes "E_SENDER_DOMAIN_NOT_AVAILABLE",
      bucket false false 550 (enhanced 5 7 1) (codes "upstream rejected sender"),
    )
    ∷ (
      codes "E_RECIPIENT_NOT_ALLOWED",
      bucket false false 550 (enhanced 5 7 1) (codes "upstream rejected recipient"),
    )
    ∷ []

unfoldable pub find_worker_bucket : Text → List (Text × CodeBucket) → Option CodeBucket
find_worker_bucket code [] = none
find_worker_bucket code ((k, b) ∷ buckets) =
    if text_eq code k then some b else find_worker_bucket code buckets

unfoldable pub classify_worker_code : ℕ → Text → Text → ℕ → DeliveryError
classify_worker_code status code message attempts =
    elim (find_worker_bucket code worker_code_buckets) [
      | some b ↦ bucket_error b status (pos 0) attempts message
      | none ↦ classify_http status (pos 0) message attempts
    ]

unfoldable pub is_worker_retryable : ℕ → Text → Bool
is_worker_retryable status code = elim (find_worker_bucket code worker_code_buckets) [
  | some b ↦ b.retryable
  | none ↦ is_retryable status (pos 0)
]

unfoldable pub parse_worker_response : Wire → ℕ → Text → ℕ → Parsed
parse_worker_response w status body attempts = elim (w.decode_worker body) [
  | failed e ↦
      rejected (classify_transport (wrapped (codes "decode response: ") e []) attempts) true
  | ok resp ↦
      if resp.success
      then accepted
          (record { provider_id = resp.message_id; http_status = status; attempts = attempts })
      else rejected (classify_worker_code status resp.code resp.error attempts)
          (is_worker_retryable status resp.code)
]

-- `Send`.
unfoldable pub worker_send : Wire → Outside → Worker → Message → Option (Outcome × History)
worker_send w o c msg = elim (w.marshal (build_payload msg)) [
  | failed e ↦ some (unsent (classify_transport (wrapped (codes "encode request: ") e []) 0), [])
  | ok payload ↦
      send_loop o (build_request w c.url c.secret) (parse_worker_response w) payload
        (pos_part c.max_retries)
]
