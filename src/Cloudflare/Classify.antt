-- ===== src/Cloudflare/Classify.antt =====
-- internal/cloudflare/classify.go: an upstream outcome as a classified delivery error.
pub mod Laws
use cloudflare_smtp_relay.Shared.{
  ℕ, Bool, true, false, not, ◌&&◌, ◌||◌, Option, none, some, List, [], ◌∷◌, ◌++◌, ltb, leb, ◌==◌,
  if◌then◌else◌,
}
use cloudflare_smtp_relay.Shared.Int.{ℤ, pos, eq_ℤ}
use cloudflare_smtp_relay.Shared.Text.{Text, codes, is_empty}
use cloudflare_smtp_relay.Email.Errors.{
  Fault, outside, is_deadline_exceeded, EnhancedCode, DeliveryError,
}

pub record CodeBucket : Type 0 where
  pub temporary : Bool
  pub retryable : Bool
  pub smtp : ℕ
  pub enhanced : EnhancedCode
  pub reason : Text

abbrev pub enhanced : ℕ → ℕ → ℕ → EnhancedCode
enhanced a b c = record { class = a; subject = b; detail = c }

abbrev pub bucket : Bool → Bool → ℕ → EnhancedCode → Text → CodeBucket
bucket temporary retryable smtp code reason = record {
  temporary = temporary;
  retryable = retryable;
  smtp = smtp;
  enhanced = code;
  reason = reason;
}

-- The entries of the map `codeBuckets`.
unfoldable pub code_buckets : List (ℤ × CodeBucket)
code_buckets =
    (pos 10004, bucket true true 451 (enhanced 4 4 5) (codes "upstream rate limited"))
    ∷ (pos 10002, bucket true true 451 (enhanced 4 3 0) (codes "upstream server error"))
    ∷ (pos 10003, bucket true true 451 (enhanced 4 3 0) (codes "upstream server error"))
    ∷ (pos 10100, bucket true true 451 (enhanced 4 3 0) (codes "upstream server error"))
    ∷ (pos 10101, bucket true false 451 (enhanced 4 7 0) (codes "relay credential rejected"))
    ∷ (pos 10103, bucket true false 451 (enhanced 4 7 0) (codes "relay credential rejected"))
    ∷ (pos 10102, bucket true false 451 (enhanced 4 7 0) (codes "relay not entitled"))
    ∷ (pos 10105, bucket true false 451 (enhanced 4 7 0) (codes "relay not entitled"))
    ∷ (pos 10203, bucket true false 451 (enhanced 4 7 0) (codes "relay not entitled"))
    ∷ (pos 10001, bucket false false 550 (enhanced 5 6 0) (codes "upstream rejected message"))
    ∷ (pos 10200, bucket false false 550 (enhanced 5 6 0) (codes "upstream rejected message"))
    ∷ (pos 10201, bucket false false 550 (enhanced 5 6 0) (codes "upstream rejected message"))
    ∷ (pos 10202, bucket false false 550 (enhanced 5 6 0) (codes "upstream rejected message"))
    ∷ (pos 10000, bucket false false 550 (enhanced 5 1 2) (codes "upstream resource not found"))
    ∷ []

-- A read of such a map, with its presence.
unfoldable pub find_bucket : ℤ → List (ℤ × CodeBucket) → Option CodeBucket
find_bucket code [] = none
find_bucket code ((k, b) ∷ buckets) = if eq_ℤ code k then some b else find_bucket code buckets

unfoldable pub new_delivery_error :
    Bool → ℕ → EnhancedCode → Text → ℕ → ℤ → ℕ → Text → DeliveryError
new_delivery_error temporary smtp code reason status provider_code attempts provider_message =
    record {
      temporary = temporary;
      smtp_code = smtp;
      enhanced_code = code;
      reason = reason;
      http_status = status;
      provider_code = provider_code;
      attempts = attempts;
      err =
          if is_empty provider_message
          then none
          else some (outside (codes "provider message: " ++ provider_message));
    }

-- The `switch` on the status.
classify_status : ℕ → ℤ → Text → ℕ → DeliveryError
classify_status status code message attempts =
    if status == 429
    then new_delivery_error true 451 (enhanced 4 4 5) (codes "upstream rate limited") status code
        attempts message
    else if (status == 500 || status == 502) || (status == 503 || status == 504)
    then new_delivery_error true 451 (enhanced 4 3 0) (codes "upstream server error") status code
        attempts message
    else if status == 401
    then new_delivery_error true 451 (enhanced 4 7 0) (codes "relay credential rejected") status
        code attempts message
    else if status == 403
    then new_delivery_error true 451 (enhanced 4 7 0) (codes "relay not entitled") status code
        attempts message
    else if status == 400
    then new_delivery_error false 550 (enhanced 5 6 0) (codes "upstream rejected message") status
        code attempts message
    else if status == 404
    then new_delivery_error false 550 (enhanced 5 1 2) (codes "upstream resource not found") status
        code attempts message
    else if leb 400 status && ltb status 500
    then new_delivery_error false 550 (enhanced 5 6 0) (codes "upstream rejected message") status
        code attempts message
    else if leb 500 status && ltb status 600
    then new_delivery_error true 451 (enhanced 4 3 0) (codes "upstream server error") status code
        attempts message
    else new_delivery_error false 550 (enhanced 5 6 0) (codes "upstream rejected message") status
        code attempts message

-- The error of a bucket, as the lookups of `classifyHTTP` and `classifyWorkerCode` build it.
abbrev pub bucket_error : CodeBucket → ℕ → ℤ → ℕ → Text → DeliveryError
bucket_error b status code attempts message =
    new_delivery_error b.temporary b.smtp b.enhanced b.reason status code attempts message

unfoldable pub classify_http : ℕ → ℤ → Text → ℕ → DeliveryError
unfolding classify_status
classify_http status code message attempts = elim (find_bucket code code_buckets) [
  | some b ↦ bucket_error b status code attempts message
  | none ↦ classify_status status code message attempts
]

unfoldable pub classify_transport : Fault → ℕ → DeliveryError
classify_transport err attempts = record {
  temporary = true;
  smtp_code = 451;
  enhanced_code = enhanced 4 4 1;
  reason =
      if is_deadline_exceeded err
      then codes "upstream request timed out"
      else codes "upstream connection failed";
  http_status = 0;
  provider_code = pos 0;
  attempts = attempts;
  err = some err;
}

retryable_status : ℕ → Bool
retryable_status status = status == 429 || leb 500 status && ltb status 600

unfoldable pub is_retryable : ℕ → ℤ → Bool
unfolding retryable_status
is_retryable status code = elim (find_bucket code code_buckets) [
  | some b ↦ b.retryable
  | none ↦ retryable_status status
]
