-- ===== src/Logging/Delivery.antt =====
-- internal/logging/delivery.go: one structured record for each message that was handled.
use cloudflare_smtp_relay.Shared.{
  ℕ, suc, ◌/◌, Bool, true, false, not, Option, none, some, List, [], ◌∷◌, ◌++◌, leb, ◌==◌,
  if◌then◌else◌, length, take,
}
use cloudflare_smtp_relay.Shared.Int.{ℤ, pos, negsuc, ◌-ℤ◌, eq_ℤ}
use cloudflare_smtp_relay.Shared.Text.{Text, codes, text_eq, is_empty}
use cloudflare_smtp_relay.Email.Errors.{Error, error_text}
use cloudflare_smtp_relay.Logging.{Level, info, warn, error}
use cloudflare_smtp_relay.Logging.Runes.{runes, encode_runes}

abbrev pub max_subject_runes : ℕ
max_subject_runes = 120

pub record Delivery : Type 0 where
  pub message_id : Text
  pub rfc_message_id : Text
  pub from : Text
  pub to : List Text
  pub subject : Text
  pub result : Text
  pub duration : ℤ
  pub http_status : ℕ
  pub provider_code : ℤ
  pub attempts : ℕ
  pub err : Option Error

-- The "…" is U+2026.
unfoldable pub truncate_subject : Text → ℕ → Text
unfolding runes encode_runes
truncate_subject s max =
    if leb (length (runes s)) max
    then s
    else encode_runes (take max (runes s)) ++ (0xe2 ∷ 0x80 ∷ 0xa6 ∷ [])

unfoldable pub level_for_result : Text → Level
level_for_result result =
    if text_eq result (codes "deferred")
    then warn
    else if text_eq result (codes "rejected")
    then error
    else info

-- The value of an attribute of log/slog.
pub data Value : Type 0 where
  string : Text → Value
  strings : List Text → Value
  int : ℤ → Value

abbrev pub Attr : Type 0
Attr = Text × Value

-- `Duration.Milliseconds`, which rounds towards zero.
abbrev milliseconds : ℤ → ℤ
milliseconds (pos n) = pos (n / 1_000_000)
milliseconds (negsuc n) = pos 0 -ℤ pos (suc n / 1_000_000)

abbrev pub when : Bool → Attr → List Attr
when true a = a ∷ []
when false a = []

abbrev pub err_attr : Option Error → List Attr
err_attr none = []
err_attr (some e) = (codes "error", string (error_text e)) ∷ []

-- A record as the handler gets it.
pub record Logged : Type 0 where
  pub level : Level
  pub message : Text
  pub attrs : List Attr

-- The attributes that every record has.
unfoldable pub base_attrs : Delivery → List Attr
base_attrs d =
    (codes "message_id", string d.message_id)
    ∷ (codes "from", string d.from)
    ∷ (codes "to", strings d.to)
    ∷ (codes "subject", string (truncate_subject d.subject max_subject_runes))
    ∷ (codes "result", string d.result)
    ∷ (codes "duration_ms", int (milliseconds d.duration))
    ∷ (codes "attempts", int (pos d.attempts))
    ∷ []

unfoldable pub log_delivery : Delivery → Logged
unfolding base_attrs
log_delivery d = record {
  level = level_for_result d.result;
  message = codes "message delivery handled";
  attrs =
      base_attrs d
      ++ (when (not (is_empty d.rfc_message_id)) (codes "rfc_message_id", string d.rfc_message_id)
          ++ (when (not (d.http_status == 0)) (codes "http_status", int (pos d.http_status))
              ++ (when (not (eq_ℤ d.provider_code (pos 0)))
                    (codes "provider_code", int d.provider_code)
                  ++ err_attr d.err)));
}
