-- ===== src/Config/RoundTrip.antt =====
-- internal/config: the variables that say a configuration, and what reading them gives. Nothing of
-- the source prints them; the printer is the inverse that `loadFrom` is held against.
pub mod Domains
pub mod Checking
pub mod Reading
use cloudflare_smtp_relay.Shared.{
  ℕ, ◌^◌, ◌<◌, ◌≡◌, refl, true, false, ◌||◌, Option, none, some, List, [], ◌∷◌, arith,
  if◌then◌else◌,
}
use cloudflare_smtp_relay.Shared.Int.{ℤ, IsInt64, pos, negsuc}
use cloudflare_smtp_relay.Shared.Text.{Text, codes, text_eq, is_empty, show_ℤ, atoi}
use cloudflare_smtp_relay.Shared.Text.Decimal.RoundTrip.{atoi-show_ℤ, show_ℤ-nonempty}
use cloudflare_smtp_relay.Config.{
  Standard, Config, Env, string_or_default, require_string, parsed_with, int_or_default,
  int64_or_default, duration_or_default,
}
use cloudflare_smtp_relay.Config.Checks.{within}
use cloudflare_smtp_relay.Config.RoundTrip.Domains.{comma_separated}

-- The variables that say a configuration, all of them set.
abbrev pub settings : Standard → Config → List (Text × Text)
settings std c =
    (codes "SMTP_HOST", c.smtp_host)
    ∷ (codes "SMTP_PORT", show_ℤ c.smtp_port)
    ∷ (codes "SMTP_USER", c.smtp_user)
    ∷ (codes "SMTP_PASSWORD", c.smtp_password)
    ∷ (codes "SMTP_MAX_MESSAGE_BYTES", show_ℤ c.smtp_max_message_bytes)
    ∷ (codes "SMTP_MAX_RECIPIENTS", show_ℤ c.smtp_max_recipients)
    ∷ (codes "SMTP_READ_TIMEOUT", std.duration_string c.smtp_read_timeout)
    ∷ (codes "SMTP_WRITE_TIMEOUT", std.duration_string c.smtp_write_timeout)
    ∷ (codes "SMTP_TLS_CERT", c.smtp_tls_cert)
    ∷ (codes "SMTP_TLS_KEY", c.smtp_tls_key)
    ∷ (codes "CLOUDFLARE_TRANSPORT", c.cloudflare_transport)
    ∷ (codes "CLOUDFLARE_ACCOUNT_ID", c.cloudflare_account_id)
    ∷ (codes "CLOUDFLARE_API_TOKEN", c.cloudflare_api_token)
    ∷ (codes "CLOUDFLARE_API_BASE_URL", c.cloudflare_api_base_url)
    ∷ (codes "CLOUDFLARE_TIMEOUT", std.duration_string c.cloudflare_timeout)
    ∷ (codes "CLOUDFLARE_MAX_RETRIES", show_ℤ c.cloudflare_max_retries)
    ∷ (codes "WORKER_URL", c.worker_url)
    ∷ (codes "WORKER_SECRET", c.worker_secret)
    ∷ (codes "ALLOWED_FROM_DOMAINS", comma_separated c.allowed_from_domains)
    ∷ (codes "HEALTH_HOST", c.health_host)
    ∷ (codes "HEALTH_PORT", show_ℤ c.health_port)
    ∷ (codes "LOG_LEVEL", c.log_level)
    ∷ []

abbrev look_up : List (Text × Text) → Env
look_up [] key = none
look_up ((k, v) ∷ rest) key = if text_eq k key then some v else look_up rest key

-- The environment with these variables and no others.
unfoldable pub env_of : Standard → Config → Env
env_of std c = look_up (settings std c)

nonempty_cases : (t : Text) → is_empty t ≡ false → (c : ℕ) × (s : Text) × (t ≡ c ∷ s)
nonempty_cases [] full = absurd (cc full)
nonempty_cases (c ∷ s) full = (c, s, refl)

pub string_lem : (env : Env) (key d v : Text) → env key ≡ some v → string_or_default env key d ≡ v
unfolding string_or_default
string_lem env key d v given = rw (given, string_or_default) refl

pub require_given :
    (env : Env) (key v : Text)
    → env key ≡ some v
    → is_empty v ≡ false
    → require_string env key ≡ (v, [])
unfolding require_string
require_given env key [] given full = absurd (cc full)
require_given env key (x ∷ v) given full = rw (given, require_string) refl

parsed_given :
    (std : Standard) (key expected v : Text) (d n : ℤ) (parse : Text → Option ℤ)
    → is_empty v ≡ false
    → parse v ≡ some n
    → parsed_with std key d expected parse (some v) ≡ (n, [])
parsed_given std key expected [] d n parse full read = absurd (cc full)
parsed_given std key expected (x ∷ v) d n parse full read = rw read refl

pub int_lem :
    (std : Standard) (env : Env) (key : Text) (d n : ℤ)
    → env key ≡ some (show_ℤ n)
    → IsInt64 n
    → int_or_default std env key d ≡ (n, [])
unfolding int_or_default
int_lem std env key d n given fits =
    rw (given, int_or_default)
      (parsed_given std key (codes "an integer") (show_ℤ n) d n atoi (show_ℤ-nonempty n)
        (atoi-show_ℤ n fits))

pub int64_lem :
    (std : Standard) (env : Env) (key : Text) (d n : ℤ)
    → env key ≡ some (show_ℤ n)
    → IsInt64 n
    → int64_or_default std env key d ≡ (n, [])
unfolding int64_or_default
int64_lem std env key d n given fits =
    rw (given, int64_or_default)
      (parsed_given std key (codes "an integer") (show_ℤ n) d n atoi (show_ℤ-nonempty n)
        (atoi-show_ℤ n fits))

-- What time.ParseDuration reads of what Duration.String prints.
abbrev pub ReadsBack : Standard → Type 0
ReadsBack std =
    (d : ℤ)
    → IsInt64 d
    → (is_empty (std.duration_string d) ≡ false)
      × (std.parse_duration (std.duration_string d) ≡ some d)

pub duration_lem :
    (std : Standard) (env : Env) (key : Text) (d n : ℤ)
    → ReadsBack std
    → env key ≡ some (std.duration_string n)
    → IsInt64 n
    → duration_or_default std env key d ≡ (n, [])
unfolding duration_or_default
duration_lem std env key d n back given fits =
    rw (given, duration_or_default)
      (parsed_given std key (codes "a duration (e.g. \"30s\")") (std.duration_string n) d n
        std.parse_duration (back n fits).0 (back n fits).1)

pub within-IsInt64 :
    (n : ℤ) (lo hi : ℕ) → within (pos lo) (pos hi) n ≡ true → hi < 2 ^ 63 → IsInt64 n
within-IsInt64 (pos n) lo hi h lt = ground arith
within-IsInt64 (negsuc n) lo hi h lt = ground arith
