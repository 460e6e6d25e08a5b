-- ===== src/Config/RoundTrip/Reading.antt =====
-- internal/config/config.go: `loadFrom` of the variables that say a valid configuration.
use cloudflare_smtp_relay.Shared.{◌≡◌, refl, ap, true, [], ◌++◌, arith, All}
use cloudflare_smtp_relay.Shared.Int.{IsInt64, pos}
use cloudflare_smtp_relay.Shared.Text.{codes, is_empty}
use cloudflare_smtp_relay.Email.Errors.{ok}
use cloudflare_smtp_relay.Config.{transport_rest, Standard, Config}
use cloudflare_smtp_relay.Config.Load.{read_config, check_config, load_from}
use cloudflare_smtp_relay.Config.Laws.{IsValid}
use cloudflare_smtp_relay.Config.RoundTrip.{
  env_of, string_lem, require_given, int_lem, int64_lem, duration_lem, ReadsBack, within-IsInt64,
}
use cloudflare_smtp_relay.Config.RoundTrip.Domains.{
  comma_separated, IsClean, normalize_domains-comma_separated,
}
use cloudflare_smtp_relay.Config.RoundTrip.Checking.{env_of-settings, to_lower-level, checks_ok}

module _ (std : Standard) (c : Config) where
  reading_ok :
      IsValid std c
      → ReadsBack std
      → IsInt64 c.smtp_read_timeout
      → IsInt64 c.smtp_write_timeout
      → IsInt64 c.cloudflare_timeout
      → All (IsClean std.unicode) c.allowed_from_domains
      → read_config std (env_of std c) ≡ (c, [])
  unfolding read_config
  reading_ok valid back read write request clean =
      let env = env_of std c in
      let g = env_of-settings std c in
      rw
        (
          int_lem std env (codes "SMTP_PORT") (pos 2525) c.smtp_port g.1.0
              (within-IsInt64 c.smtp_port 1 65535 valid.limits.smtp_port (omega arith)),
          require_given env (codes "SMTP_USER") c.smtp_user g.1.1.0 valid.user,
          require_given env (codes "SMTP_PASSWORD") c.smtp_password g.1.1.1.0 valid.password,
          int64_lem std env (codes "SMTP_MAX_MESSAGE_BYTES") (pos 5242880) c.smtp_max_message_bytes
              g.1.1.1.1.0
              (within-IsInt64 c.smtp_max_message_bytes 1 5242880 valid.limits.bytes (omega arith)),
          int_lem std env (codes "SMTP_MAX_RECIPIENTS") (pos 50) c.smtp_max_recipients g.1.1.1.1.1.0
              (within-IsInt64 c.smtp_max_recipients 1 50 valid.limits.recipients (omega arith)),
          duration_lem std env (codes "SMTP_READ_TIMEOUT") (pos 30_000_000_000) c.smtp_read_timeout
              back g.1.1.1.1.1.1.0 read,
          duration_lem std env (codes "SMTP_WRITE_TIMEOUT") (pos 30_000_000_000)
              c.smtp_write_timeout back g.1.1.1.1.1.1.1.0 write,
          duration_lem std env (codes "CLOUDFLARE_TIMEOUT") (pos 15_000_000_000)
              c.cloudflare_timeout back g.1.1.1.1.1.1.1.1.1.1.1.1.1.1.0 request,
          int_lem std env (codes "CLOUDFLARE_MAX_RETRIES") (pos 2) c.cloudflare_max_retries
              g.1.1.1.1.1.1.1.1.1.1.1.1.1.1.1.0
              (within-IsInt64 c.cloudflare_max_retries 0 5 valid.limits.retries (omega arith)),
          int_lem std env (codes "HEALTH_PORT") (pos 8080) c.health_port
              g.1.1.1.1.1.1.1.1.1.1.1.1.1.1.1.1.1.1.1.1.0
              (within-IsInt64 c.health_port 1 65535 valid.limits.health_port (omega arith)),
          string_lem env (codes "SMTP_HOST") (codes "0.0.0.0") c.smtp_host g.0,
          string_lem env (codes "SMTP_TLS_CERT") [] c.smtp_tls_cert g.1.1.1.1.1.1.1.1.0,
          string_lem env (codes "SMTP_TLS_KEY") [] c.smtp_tls_key g.1.1.1.1.1.1.1.1.1.0,
          string_lem env (codes "CLOUDFLARE_TRANSPORT") transport_rest c.cloudflare_transport
              g.1.1.1.1.1.1.1.1.1.1.0,
          string_lem env (codes "CLOUDFLARE_ACCOUNT_ID") [] c.cloudflare_account_id
              g.1.1.1.1.1.1.1.1.1.1.1.0,
          string_lem env (codes "CLOUDFLARE_API_TOKEN") [] c.cloudflare_api_token
              g.1.1.1.1.1.1.1.1.1.1.1.1.0,
          string_lem env (codes "CLOUDFLARE_API_BASE_URL")
              (codes "https://api.cloudflare.com/client/v4") c.cloudflare_api_base_url
              g.1.1.1.1.1.1.1.1.1.1.1.1.1.0,
          string_lem env (codes "WORKER_URL") [] c.worker_url g.1.1.1.1.1.1.1.1.1.1.1.1.1.1.1.1.0,
          string_lem env (codes "WORKER_SECRET") [] c.worker_secret
              g.1.1.1.1.1.1.1.1.1.1.1.1.1.1.1.1.1.0,
          string_lem env (codes "ALLOWED_FROM_DOMAINS") [] (comma_separated c.allowed_from_domains)
              g.1.1.1.1.1.1.1.1.1.1.1.1.1.1.1.1.1.1.0,
          string_lem env (codes "HEALTH_HOST") (codes "0.0.0.0") c.health_host
              g.1.1.1.1.1.1.1.1.1.1.1.1.1.1.1.1.1.1.1.0,
          string_lem env (codes "LOG_LEVEL") (codes "info") c.log_level
              g.1.1.1.1.1.1.1.1.1.1.1.1.1.1.1.1.1.1.1.1.1.0,
          normalize_domains-comma_separated std.unicode c.allowed_from_domains clean valid.domains.0
              valid.domains.1,
          to_lower-level std.unicode c.log_level valid.level,
          valid.level,
        )
        refl

  no_problems :
      read_config std (env_of std c) ≡ (c, [])
      → IsValid std c
      → is_empty (
          (read_config std (env_of std c)).1
          ++ check_config std (env_of std c) (read_config std (env_of std c)).0)
        ≡ true
  no_problems whole valid = rw whole (checks_ok std c valid)

  -- Every valid configuration is loaded from the variables that say it: with each integer in
  -- decimal, each duration as it is printed, and the domains joined by commas, loading gives the
  -- same configuration. The timeouts are assumed to fit 64 bits, durations to be read back as they
  -- are printed, and the domains to be trimmed, in lower case and free of commas.
  pub load_from-env_of :
      IsValid std c
      → ReadsBack std
      → IsInt64 c.smtp_read_timeout
      → IsInt64 c.smtp_write_timeout
      → IsInt64 c.cloudflare_timeout
      → All (IsClean std.unicode) c.allowed_from_domains
      → load_from std (env_of std c) ≡ ok c
  unfolding load_from
  load_from-env_of valid back read write request clean =
      let whole = reading_ok valid back read write request clean in
      let fine = no_problems whole valid in rw (fine, load_from) (ap (λ found. ok found.0) whole)
