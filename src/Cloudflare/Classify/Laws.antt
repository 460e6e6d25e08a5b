-- ===== src/Cloudflare/Classify/Laws.antt =====
-- Laws of the classification (internal/cloudflare/classify.go).
use cloudflare_smtp_relay.Shared.{
  ℕ, ◌≡◌, refl, inl, inr, not, ◌&&◌, none, some, List, [], ◌∷◌, arith, ◌==◌, if◌then◌else◌,
  Bool-cases, Option-cases, All,
}
use cloudflare_smtp_relay.Shared.Int.{ℤ, pos, eq_ℤ}
use cloudflare_smtp_relay.Shared.Text.{Text}
use cloudflare_smtp_relay.Email.Errors.{Fault, DeliveryError}
use cloudflare_smtp_relay.Cloudflare.Classify.{
  CodeBucket, code_buckets, find_bucket, bucket_error, new_delivery_error, classify_status,
  classify_http, classify_transport, retryable_status, is_retryable,
}

-- The reply to the client is 451 with a class 4 status for a temporary failure, and 550 with a
-- class 5 status for a permanent one.
pub record IsReply (e : DeliveryError) : Type 0 where
  pub smtp_code : e.smtp_code ≡ (if e.temporary then 451 else 550)
  pub class : e.enhanced_code.class ≡ (if e.temporary then 4 else 5)

-- What every bucket of a table satisfies.
pub record IsBucket (b : CodeBucket) : Type 0 where
  pub smtp : b.smtp ≡ (if b.temporary then 451 else 550)
  pub class : b.enhanced.class ≡ (if b.temporary then 4 else 5)
  pub retry : b.retryable ≡ (b.temporary && not (b.enhanced.subject == 7))

-- A bucket that is found has the property of all.
pub find_bucket_sound :
    (code : ℤ) (buckets : List (ℤ × CodeBucket)) {b : CodeBucket}
    → All (λ p. IsBucket p.1) buckets
    → find_bucket code buckets ≡ some b
    → IsBucket b
unfolding find_bucket
find_bucket_sound code [] h e = cc
find_bucket_sound code ((k, c) ∷ buckets) {b} h e = elim (Bool-cases (eq_ℤ code k)) [
  | inl here ↦ let first : IsBucket c = h.0 in ground arith
  | inr later ↦ find_bucket_sound code buckets h.1 (rw (later, find_bucket) at e)
]

code_buckets-IsBucket : All (λ p. IsBucket p.1) code_buckets
unfolding code_buckets
code_buckets-IsBucket = ground arith

-- What a classification keeps of the outcome that it is given.
pub record IsOf (status : ℕ) (code : ℤ) (n : ℕ) (e : DeliveryError) : Type 0 where
  pub http_status : e.http_status ≡ status
  pub provider_code : e.provider_code ≡ code
  pub attempts : e.attempts ≡ n

module _ (status : ℕ) (code : ℤ) (message : Text) (attempts : ℕ) where
  classify_status-IsReply : IsReply (classify_status status code message attempts)
  unfolding classify_status new_delivery_error
  classify_status-IsReply = ground arith

  classify_status-IsOf : IsOf status code attempts (classify_status status code message attempts)
  unfolding classify_status new_delivery_error
  classify_status-IsOf = ground arith

  retryable_status_lem : retryable_status status ≡ (
      (classify_status status code message attempts).temporary
      && not ((classify_status status code message attempts).enhanced_code.subject == 7))
  unfolding classify_status new_delivery_error retryable_status
  retryable_status_lem = ground arith

  pub bucket_error-IsReply :
      (b : CodeBucket) → IsBucket b → IsReply (bucket_error b status code attempts message)
  unfolding new_delivery_error
  bucket_error-IsReply b h = ground arith

  pub bucket_error-IsOf :
      (b : CodeBucket) → IsOf status code attempts (bucket_error b status code attempts message)
  unfolding new_delivery_error
  bucket_error-IsOf b = ground arith

  -- Whatever the provider answers, the reply to the client is well formed (451 and class 4 if
  -- temporary, 550 and class 5 if permanent), and the error has the status, the provider's code
  -- and the attempts that were given.
  pub classify_http-IsReply :
      IsReply (classify_http status code message attempts)
      × IsOf status code attempts (classify_http status code message attempts)
  unfolding classify_http
  classify_http-IsReply = elim (Option-cases (find_bucket code code_buckets)) [
    | inl absent ↦ rw (absent, classify_http) (classify_status-IsReply, classify_status-IsOf)
    | inr (b, found) ↦
        rw (found, classify_http)
          (
            bucket_error-IsReply b
                (find_bucket_sound code code_buckets code_buckets-IsBucket found),
            bucket_error-IsOf b,
          )
  ]

  -- The retry decision is made exactly for the failures that are classified as temporary and are
  -- not about the relay's own credential (a status 4.7.x).
  pub is_retryable_lem : is_retryable status code ≡ (
      (classify_http status code message attempts).temporary
      && not ((classify_http status code message attempts).enhanced_code.subject == 7))
  unfolding classify_http is_retryable
  is_retryable_lem = elim (Option-cases (find_bucket code code_buckets)) [
    | inl absent ↦ rw (absent, classify_http, is_retryable) retryable_status_lem
    | inr (b, found) ↦
        rw (found, classify_http, is_retryable)
          (unfold new_delivery_error in
            (find_bucket_sound code code_buckets code_buckets-IsBucket found).retry)
  ]

classify_status-message :
    (status : ℕ) (code : ℤ) (m n : Text) (attempts : ℕ)
    → record (classify_status status code m attempts) { err = none }
      ≡ record (classify_status status code n attempts) { err = none }
unfolding classify_status new_delivery_error
classify_status-message status code m n attempts = ground arith

-- The provider's message reaches the cause that is logged, and nothing that the client sees: two
-- outcomes that differ in it alone get the same reply.
pub classify_http-message :
    (status : ℕ) (code : ℤ) (m n : Text) (attempts : ℕ)
    → record (classify_http status code m attempts) { err = none }
      ≡ record (classify_http status code n attempts) { err = none }
unfolding classify_http new_delivery_error
classify_http-message status code m n attempts =
    elim (Option-cases (find_bucket code code_buckets)) [
      | inl absent ↦ rw (absent, classify_http) (classify_status-message status code m n attempts)
      | inr (b, found) ↦ rw (found, classify_http) refl
    ]

-- A failure of the transport is temporary to the client, with 451 and 4.4.1.
pub classify_transport-IsReply :
    (e : Fault) (attempts : ℕ)
    → IsReply (classify_transport e attempts)
      × IsOf 0 (pos 0) attempts (classify_transport e attempts)
unfolding classify_transport
classify_transport-IsReply e attempts = ground arith
