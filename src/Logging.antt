-- ===== src/Logging.antt =====
-- internal/logging: levels, and the record that is logged for each message.
pub mod Runes
pub mod Delivery
pub mod Laws
use cloudflare_smtp_relay.Shared.{◌||◌, [], ◌++◌, if◌then◌else◌}
use cloudflare_smtp_relay.Shared.Text.{Text, codes, text_eq, Unicode, to_lower}
use cloudflare_smtp_relay.Email.Errors.{outside, Fallible, ok, failed}

-- The levels of log/slog.
pub data Level : Type 0 where
  debug info warn error : Level

-- `parseLevel`; `quote` is the verb %q of package fmt.
unfoldable pub parse_level : Unicode → (Text → Text) → Text → Fallible Level
parse_level u quote level =
    let lower = to_lower u level in
    if text_eq lower (codes "debug")
    then ok debug
    else if text_eq lower (codes "info")
    then ok info
    else if text_eq lower (codes "warn")
    then ok warn
    else if text_eq lower (codes "error")
    then ok error
    else failed (
        outside (
          codes "logging: unknown level "
          ++ (quote level ++ codes ", expected one of debug, info, warn, error")))

-- `New`, as far as the level that the handler filters by.
unfoldable pub new_logger : Unicode → (Text → Text) → Text → Fallible Level
new_logger u quote level = elim (parse_level u quote level) [
  | failed e ↦ failed e
  | ok lvl ↦ ok lvl
]
