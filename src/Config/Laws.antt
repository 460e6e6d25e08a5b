-- ===== src/Config/Laws.antt =====
-- Laws of `loadFrom` (internal/config/config.go).
pub mod Checked
pub mod Domains
use cloudflare_smtp_relay.Shared.{
  ◌≡◌, refl, inl, inr, true, false, not, ◌&&◌, ◌||◌, [], ◌++◌, arith, Bool-cases,
}
use cloudflare_smtp_relay.Shared.Text.{Text, codes, is_empty, IsDistinct, to_lower}
use cloudflare_smtp_relay.Email.Errors.{ok}
use cloudflare_smtp_relay.Config.{Standard, Config, Env, require_string, string_or_default}
use cloudflare_smtp_relay.Config.Checks.{
  validate_port_range, check_limits, check_pair, is_level, check_level, check_transport,
}
use cloudflare_smtp_relay.Config.Load.{read_config, raw_log_level, check_config, load_from}
use cloudflare_smtp_relay.Config.Laws.Domains.{normalize_domains_lem, AllNonempty}
use cloudflare_smtp_relay.Config.Laws.Checked.{
  is_empty-append, IsLimited, is_transport, is_empty-problem_if, limited_lem, pair_lem,
  transport_lem,
}

require_lem :
    (env : Env) (key : Text)
    → is_empty (require_string env key).1 ≡ not (is_empty (require_string env key).0)
unfolding require_string
require_lem env key = ground arith

-- All that is checked of a configuration.
pub record IsValid (std : Standard) (c : Config) : Type 0 where
  pub limits : IsLimited c
  pub pair : is_empty c.smtp_tls_cert ≡ is_empty c.smtp_tls_key
  pub transport : is_transport std c ≡ true
  pub user : is_empty c.smtp_user ≡ false
  pub password : is_empty c.smtp_password ≡ false
  pub level : is_level c.log_level ≡ true
  pub domains : AllNonempty c.allowed_from_domains × IsDistinct c.allowed_from_domains

module _ (std : Standard) (env : Env) where
  reading_lem :
      is_empty (read_config std env).1 ≡ true
      → (is_empty (read_config std env).0.smtp_user ≡ false)
        × (is_empty (read_config std env).0.smtp_password ≡ false)
  unfolding read_config
  reading_lem h =
      let user = require_lem env (codes "SMTP_USER") in
      let password = require_lem env (codes "SMTP_PASSWORD") in
      let all = rw (is_empty-append, is_empty-append, is_empty-append, user, password) at h in
      ground arith

  pub checks_lem :
      (c : Config)
      → is_empty (check_config std env c) ≡ (
          is_empty (validate_port_range c.smtp_port (codes "SMTP_PORT"))
          && (is_empty (validate_port_range c.health_port (codes "HEALTH_PORT"))
              && (is_empty (check_limits c)
                  && (is_empty (check_pair c)
                      && (is_empty (check_level std (raw_log_level env))
                          && is_empty (check_transport std c))))))
  unfolding check_config
  checks_lem c =
      rw (is_empty-append, is_empty-append, is_empty-append, is_empty-append, is_empty-append) refl

  level_lem :
      is_empty (check_level std (raw_log_level env)) ≡ true
      → is_level (read_config std env).0.log_level ≡ true
  unfolding check_level read_config
  level_lem h =
      let twice = rw is_empty-problem_if at h in
      let known : is_level (to_lower std.unicode (raw_log_level env)) ≡ true = ground arith in
      rw known known

  domains_lem :
      AllNonempty (read_config std env).0.allowed_from_domains
      × IsDistinct (read_config std env).0.allowed_from_domains
  unfolding read_config
  domains_lem =
      let (full, once, all) =
        normalize_domains_lem std.unicode []
          (string_or_default env (codes "ALLOWED_FROM_DOMAINS") []) in
      (full, once)

  valid_lem :
      is_empty (read_config std env).1 ≡ true
      → is_empty (check_config std env (read_config std env).0) ≡ true
      → IsValid std (read_config std env).0
  valid_lem read checked =
      let c = (read_config std env).0 in
      let all = rw (checks_lem c) at checked in
      let pair : is_empty (check_pair c) ≡ true = ground arith in
      let transport : is_empty (check_transport std c) ≡ true = ground arith in
      let level : is_empty (check_level std (raw_log_level env)) ≡ true = ground arith in
      let (user, password) = reading_lem read in
      record {
        limits = limited_lem c (ground arith) (ground arith) (ground arith);
        pair = pair_lem c pair;
        transport = transport_lem std c transport;
        user = user;
        password = password;
        level = level_lem level;
        domains = domains_lem;
      }

  -- Every configuration that is loaded is valid: its ports, limits and retries are within their
  -- bounds, user and password are not empty, the two TLS files are both given or both missing, the
  -- level is one of the four, the transport is one of the two and has its credentials (the Worker
  -- an absolute http or https URL too), and the allowed domains are not empty and listed once
  -- each.
  pub load_from-IsValid : (c : Config) → load_from std env ≡ ok c → IsValid std c
  unfolding load_from
  load_from-IsValid c h =
      elim (Bool-cases
        (is_empty ((read_config std env).1 ++ check_config std env (read_config std env).0))) [
          | inr wrong ↦ absurd (cc (rw (wrong, load_from) at h))
          | inl fine ↦
              let both = rw is_empty-append at fine in
              let same : (read_config std env).0 ≡ c = ground (arith, rw (fine, load_from) at h) in
              rw (← same) (valid_lem (ground arith) (ground arith))
        ]
