-- ===== src/Email/Errors.antt =====
-- internal/email/errors.go: the errors of the relay. A Go `error` is the data type `Error`; its
-- chain of wrapped errors is what `errors.Is` and `errors.As` walk.
use cloudflare_smtp_relay.Shared.{
  ℕ, ◌≡◌, refl, ◌⊎◌, inl, inr, Bool, true, false, Option, none, some, ◌++◌, if◌then◌else◌, ltb,
}
use cloudflare_smtp_relay.Shared.Int.{ℤ}
use cloudflare_smtp_relay.Shared.Text.{Text, codes, show_ℕ}

-- An error that is no delivery error. `outside` and `data_too_large` carry the text that the
-- library behind them gives.
pub data Fault : Type 0 where
  outside : Text → Fault
  deadline_exceeded : Fault
  canceled : Fault
  data_too_large : Text → Fault
  sender_not_allowed : Fault
  wrapped : Text → Fault → Text → Fault

-- A result or an error.
pub data Fallible {ℓ} (A : Type ℓ) : Type ℓ where
  ok : A → Fallible A
  failed : Fault → Fallible A

pub Fallible-cases {ℓ} :
    {A : Type ℓ} (r : Fallible A) → ((a : A) × (r ≡ ok a)) ⊎ ((e : Fault) × (r ≡ failed e))
Fallible-cases (ok a) = inl (a, refl)
Fallible-cases (failed e) = inr (e, refl)

unfoldable pub fault_text : Fault → Text
fault_text (outside s) = s
fault_text deadline_exceeded = codes "context deadline exceeded"
fault_text canceled = codes "context canceled"
fault_text (data_too_large s) = s
fault_text sender_not_allowed = codes "sender domain not allowed"
fault_text (wrapped a e b) = a ++ (fault_text e ++ b)

-- errors.Is(err, context.DeadlineExceeded)
unfoldable pub is_deadline_exceeded : Fault → Bool
is_deadline_exceeded deadline_exceeded = true
is_deadline_exceeded (wrapped a e b) = is_deadline_exceeded e
is_deadline_exceeded _ = false

-- errors.Is(err, gosmtp.ErrDataTooLarge)
unfoldable pub is_data_too_large : Fault → Bool
is_data_too_large (data_too_large s) = true
is_data_too_large (wrapped a e b) = is_data_too_large e
is_data_too_large _ = false

-- errors.Is(err, email.ErrSenderNotAllowed)
unfoldable pub is_sender_not_allowed : Fault → Bool
is_sender_not_allowed sender_not_allowed = true
is_sender_not_allowed (wrapped a e b) = is_sender_not_allowed e
is_sender_not_allowed _ = false

-- An RFC 3463 status, such as 4.4.1.
pub record EnhancedCode : Type 0 where
  pub class : ℕ
  pub subject : ℕ
  pub detail : ℕ

pub record DeliveryError : Type 0 where
  pub temporary : Bool
  pub smtp_code : ℕ
  pub enhanced_code : EnhancedCode
  pub reason : Text
  pub http_status : ℕ
  pub provider_code : ℤ
  pub attempts : ℕ
  pub err : Option Fault

pub data Error : Type 0 where
  plain : Fault → Error
  delivery : DeliveryError → Error
  wrapping : Text → Error → Text → Error

unfoldable pub delivery_text : DeliveryError → Text
delivery_text e =
    if ltb 0 e.http_status
    then codes "delivery failed (smtp "
      ++ (show_ℕ e.smtp_code
          ++ (codes ", http " ++ (show_ℕ e.http_status ++ (codes "): " ++ e.reason))))
    else codes "delivery failed (smtp " ++ (show_ℕ e.smtp_code ++ (codes "): " ++ e.reason))

unfoldable pub error_text : Error → Text
error_text (plain e) = fault_text e
error_text (delivery e) = delivery_text e
error_text (wrapping a e b) = a ++ (error_text e ++ b)

unfoldable pub as_delivery_error : Error → Option DeliveryError
as_delivery_error (plain e) = none
as_delivery_error (delivery e) = some e
as_delivery_error (wrapping a e b) = as_delivery_error e
