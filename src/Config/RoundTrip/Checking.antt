-- ===== src/Config/RoundTrip/Checking.antt =====
-- internal/config/config.go: the checks of `loadFrom`, of the variables that say a valid
-- configuration.
use cloudflare_smtp_relay.Shared.{◌≡◌, refl, inl, inr, true, false, some, arith, Bool-cases, All}
use cloudflare_smtp_relay.Shared.Text.{
  Text, codes, text_eq, text_eq_iff, is_empty, Unicode, is_ascii, to_lower,
}
use cloudflare_smtp_relay.Config.{transport_rest, transport_worker, Standard, Config}
use cloudflare_smtp_relay.Config.Checks.{check_pair, is_level, check_level, check_transport}
use cloudflare_smtp_relay.Config.Load.{raw_log_level, check_config}
use cloudflare_smtp_relay.Config.Laws.{IsValid, checks_lem}
use cloudflare_smtp_relay.Config.Laws.Checked.{
  is_empty-append, is_transport, is_empty-problem_if, port_lem, limits_lem, url_lem,
}
use cloudflare_smtp_relay.Config.RoundTrip.{settings, env_of, string_lem}

-- Each of the variables is looked up under its own name.
pub env_of-settings :
    (std : Standard) (c : Config) → All (λ kv. env_of std c kv.0 ≡ some kv.1) (settings std c)
unfolding env_of text_eq codes
env_of-settings std c = (
  refl,
  (
    refl,
    (
      refl,
      (
        refl,
        (
          refl,
          (
            refl,
            (
              refl,
              (
                refl,
                (
                  refl,
                  (
                    refl,
                    (
                      refl,
                      (
                        refl,
                        (
                          refl,
                          (
                            refl,
                            (refl, (refl, (refl, (refl, (refl, (refl, (refl, (refl, tt)))))))),
                          ),
                        ),
                      ),
                    ),
                  ),
                ),
              ),
            ),
          ),
        ),
      ),
    ),
  ),
)

-- A level is in lower case.
pub to_lower-level : (u : Unicode) (s : Text) → is_level s ≡ true → to_lower u s ≡ s
unfolding to_lower is_ascii codes
to_lower-level u s h = elim (Bool-cases (text_eq s (codes "debug"))) [
  | inl debug ↦ rw ((text_eq_iff s (codes "debug")).0 debug) refl
  | inr no_debug ↦ elim (Bool-cases (text_eq s (codes "info"))) [
    | inl info ↦ rw ((text_eq_iff s (codes "info")).0 info) refl
    | inr no_info ↦ elim (Bool-cases (text_eq s (codes "warn"))) [
      | inl warn ↦ rw ((text_eq_iff s (codes "warn")).0 warn) refl
      | inr no_warn ↦
          let error : text_eq s (codes "error") ≡ true = ground arith in
          rw ((text_eq_iff s (codes "error")).0 error) refl
    ]
  ]
]

pair_ok :
    (c : Config)
    → is_empty c.smtp_tls_cert ≡ is_empty c.smtp_tls_key
    → is_empty (check_pair c) ≡ true
unfolding check_pair
pair_ok c h = ground arith

rest-no_worker : (t : Text) → text_eq t transport_rest ≡ true → text_eq t transport_worker ≡ false
unfolding text_eq codes
rest-no_worker t h = rw ((text_eq_iff t transport_rest).0 h) refl

transport_ok :
    (std : Standard) (c : Config)
    → is_transport std c ≡ true
    → is_empty (check_transport std c) ≡ true
unfolding check_transport
transport_ok std c h = elim (Bool-cases (text_eq c.cloudflare_transport transport_rest)) [
  | inl rest ↦
      let no_worker = rest-no_worker c.cloudflare_transport rest in
      rw (rest, is_empty-append, is_empty-problem_if, is_empty-problem_if) (ground arith)
  | inr other ↦
      let worker : text_eq c.cloudflare_transport transport_worker ≡ true = ground arith in
      let given : is_empty c.worker_url ≡ false = ground arith in
      rw
        (
          other,
          worker,
          given,
          is_empty-append,
          url_lem std c.worker_url (codes "WORKER_URL"),
          is_empty-problem_if,
        )
        (ground arith)
]

module _ (std : Standard) (c : Config) where
  pub checks_ok : IsValid std c → is_empty (check_config std (env_of std c) c) ≡ true
  unfolding check_level
  checks_ok valid =
      let level =
        string_lem (env_of std c) (codes "LOG_LEVEL") (codes "info") c.log_level
          (env_of-settings std c).1.1.1.1.1.1.1.1.1.1.1.1.1.1.1.1.1.1.1.1.1.0 in
      let known : is_level (to_lower std.unicode (raw_log_level (env_of std c))) ≡ true =
        rw (level, to_lower-level std.unicode c.log_level valid.level) valid.level in
      rw
        (
          checks_lem std (env_of std c) c,
          port_lem c.smtp_port (codes "SMTP_PORT"),
          port_lem c.health_port (codes "HEALTH_PORT"),
          limits_lem c,
          pair_ok c valid.pair,
          is_empty-problem_if,
          known,
          transport_ok std c valid.transport,
          valid.limits.smtp_port,
          valid.limits.health_port,
          valid.limits.bytes,
          valid.limits.recipients,
          valid.limits.retries,
        )
        refl
