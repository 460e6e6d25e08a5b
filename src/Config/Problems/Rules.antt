-- ===== src/Config/Problems/Rules.antt =====
-- internal/config: what an environment must satisfy, as two tables of rules, each with the variable
-- that breaks it.
use cloudflare_smtp_relay.Shared.{
  Bool, true, false, not, ◌&&◌, ◌||◌, Option, none, some, List, [], ◌∷◌, ◌++◌, if◌then◌else◌, ◌==◌,
}
use cloudflare_smtp_relay.Shared.Int.{ℤ, pos}
use cloudflare_smtp_relay.Shared.Text.{Text, codes, text_eq, is_empty, to_lower, atoi}
use cloudflare_smtp_relay.Email.Errors.{ok, failed}
use cloudflare_smtp_relay.Config.{Standard, Config, Env}
use cloudflare_smtp_relay.Config.Checks.{within, is_http, is_level}
use cloudflare_smtp_relay.Config.Load.{raw_log_level, read_config}

-- A variable, where its rule is broken.
abbrev pub key_if : Bool → Text → List Text
key_if broken key = if broken then key ∷ [] else []

abbrev pub broken_keys : List (Bool × Text) → List Text
broken_keys [] = []
broken_keys ((broken, key) ∷ rules) = key_if broken key ++ broken_keys rules

-- A variable that is set, not empty, and cannot be parsed.
abbrev pub unreadable : (Text → Option ℤ) → Option Text → Bool
unreadable parse none = false
unreadable parse (some []) = false
unreadable parse (some (c ∷ v)) = elim (parse (c ∷ v)) [ none ↦ true | some n ↦ false ]

-- A variable that is not set, or empty.
abbrev pub missing : Option Text → Bool
missing none = true
missing (some v) = is_empty v

abbrev pub is_http_url : Standard → Text → Bool
is_http_url std raw = elim (std.parse_url raw) [ failed e ↦ false | ok u ↦ is_http u ]

-- What cannot be read.
abbrev pub reading_rules : Standard → Env → List (Bool × Text)
reading_rules std env =
    (unreadable atoi (env (codes "SMTP_PORT")), codes "SMTP_PORT")
    ∷ (missing (env (codes "SMTP_USER")), codes "SMTP_USER")
    ∷ (missing (env (codes "SMTP_PASSWORD")), codes "SMTP_PASSWORD")
    ∷ (unreadable atoi (env (codes "SMTP_MAX_MESSAGE_BYTES")), codes "SMTP_MAX_MESSAGE_BYTES")
    ∷ (unreadable atoi (env (codes "SMTP_MAX_RECIPIENTS")), codes "SMTP_MAX_RECIPIENTS")
    ∷ (unreadable std.parse_duration (env (codes "SMTP_READ_TIMEOUT")), codes "SMTP_READ_TIMEOUT")
    ∷ (unreadable std.parse_duration (env (codes "SMTP_WRITE_TIMEOUT")), codes "SMTP_WRITE_TIMEOUT")
    ∷ (unreadable std.parse_duration (env (codes "CLOUDFLARE_TIMEOUT")), codes "CLOUDFLARE_TIMEOUT")
    ∷ (unreadable atoi (env (codes "CLOUDFLARE_MAX_RETRIES")), codes "CLOUDFLARE_MAX_RETRIES")
    ∷ (unreadable atoi (env (codes "HEALTH_PORT")), codes "HEALTH_PORT")
    ∷ []

-- What each transport needs.
abbrev pub transport_rules : Standard → Config → List (Bool × Text)
transport_rules std c =
    let by_rest = text_eq c.cloudflare_transport (codes "rest") in
    let by_worker = text_eq c.cloudflare_transport (codes "worker") in
    (by_rest && is_empty c.cloudflare_account_id, codes "CLOUDFLARE_ACCOUNT_ID")
    ∷ (by_rest && is_empty c.cloudflare_api_token, codes "CLOUDFLARE_API_TOKEN")
    ∷ (
      by_worker && (is_empty c.worker_url || not (is_http_url std c.worker_url)),
      codes "WORKER_URL",
    )
    ∷ (by_worker && is_empty c.worker_secret, codes "WORKER_SECRET")
    ∷ (not by_rest && not by_worker, codes "CLOUDFLARE_TRANSPORT")
    ∷ []

-- What is not allowed of a configuration, and of the level.
abbrev pub value_rules : Standard → Text → Config → List (Bool × Text)
value_rules std raw_level c =
    (not (within (pos 1) (pos 65535) c.smtp_port), codes "SMTP_PORT")
    ∷ (not (within (pos 1) (pos 65535) c.health_port), codes "HEALTH_PORT")
    ∷ (not (within (pos 1) (pos 5242880) c.smtp_max_message_bytes), codes "SMTP_MAX_MESSAGE_BYTES")
    ∷ (not (within (pos 1) (pos 50) c.smtp_max_recipients), codes "SMTP_MAX_RECIPIENTS")
    ∷ (not (within (pos 0) (pos 5) c.cloudflare_max_retries), codes "CLOUDFLARE_MAX_RETRIES")
    ∷ (is_empty c.smtp_tls_cert && not (is_empty c.smtp_tls_key), codes "SMTP_TLS_CERT")
    ∷ (not (is_empty c.smtp_tls_cert) && is_empty c.smtp_tls_key, codes "SMTP_TLS_KEY")
    ∷ (not (is_level (to_lower std.unicode raw_level)), codes "LOG_LEVEL")
    ∷ transport_rules std c

-- The variables that an environment has wrong.
abbrev pub wrong_keys : Standard → Env → List Text
wrong_keys std env =
    broken_keys (reading_rules std env)
    ++ broken_keys (value_rules std (raw_log_level env) (read_config std env).0)

-- The variable that a problem names: what stands before the first colon.
unfoldable pub before_colon : Text → Text
before_colon [] = []
before_colon (c ∷ s) = if c == b':' then [] else c ∷ before_colon s
