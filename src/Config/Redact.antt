-- ===== src/Config/Redact.antt =====
-- internal/config/redact.go: how a configuration is printed and logged.
use cloudflare_smtp_relay.Shared.{◌≡◌, refl, List, [], ◌∷◌, ◌++◌, if◌then◌else◌}
use cloudflare_smtp_relay.Shared.Int.{ℤ}
use cloudflare_smtp_relay.Shared.Text.{Text, codes, is_empty, show_ℤ}
use cloudflare_smtp_relay.Config.{Standard, Config}

unfoldable pub redact : Text → Text
redact secret = if is_empty secret then codes "[EMPTY]" else codes "[REDACTED]"

-- The items of a list in %v, with spaces between them.
spaced : List Text → Text
spaced [] = []
spaced (d ∷ []) = d
spaced (d ∷ ds) = d ++ b' ' ∷ spaced ds

abbrev shown : Text → Text → Text
shown label v = label ++ (codes ": " ++ v)

-- The method `String`.
unfoldable pub config_string : Standard → Config → Text
unfolding redact spaced
config_string std c =
    codes "config.Config{"
    ++ (shown (codes "SMTPHost") c.smtp_host
        ++ (shown (codes ", SMTPPort") (show_ℤ c.smtp_port)
            ++ (shown (codes ", SMTPUser") c.smtp_user
                ++ (shown (codes ", SMTPPassword") (redact c.smtp_password)
                    ++ (shown (codes ", SMTPMaxMessageBytes") (show_ℤ c.smtp_max_message_bytes)
                        ++ (shown (codes ", SMTPMaxRecipients") (show_ℤ c.smtp_max_recipients)
                            ++ (shown (codes ", SMTPReadTimeout")
                                  (std.duration_string c.smtp_read_timeout)
                                ++ (shown (codes ", SMTPWriteTimeout")
                                      (std.duration_string c.smtp_write_timeout)
                                    ++ (shown (codes ", SMTPTLSCert") c.smtp_tls_cert
                                        ++ (shown (codes ", SMTPTLSKey") c.smtp_tls_key
                                            ++ (shown (codes ", CloudflareTransport")
                                                  c.cloudflare_transport
                                                ++ (shown (codes ", CloudflareAccountID")
                                                      c.cloudflare_account_id
                                                    ++ (shown (codes ", CloudflareAPIToken")
                                                          (redact c.cloudflare_api_token)
                                                        ++ (shown (codes ", CloudflareAPIBaseURL")
                                                            c.cloudflare_api_base_url
                                                            ++ (shown (codes ", CloudflareTimeout")
                                                            (std.duration_string
                                                            c.cloudflare_timeout)
                                                            ++ (shown
                                                            (codes ", CloudflareMaxRetries")
                                                            (show_ℤ c.cloudflare_max_retries)
                                                            ++ (shown (codes ", WorkerURL")
                                                            c.worker_url
                                                            ++ (shown (codes ", WorkerSecret")
                                                            (redact c.worker_secret)
                                                            ++ (shown (codes ", AllowedFromDomains")
                                                            (b'[' ∷ spaced c.allowed_from_domains
                                                            ++ b']' ∷ [])
                                                            ++ (shown (codes ", HealthHost")
                                                            c.health_host
                                                            ++ (shown (codes ", HealthPort")
                                                            (show_ℤ c.health_port)
                                                            ++ (shown (codes ", LogLevel")
                                                            c.log_level
                                                            ++ codes "}"))))))))))))))))))))))

pub data Setting : Type 0 where
  text : Text → Setting
  number : ℤ → Setting
  duration : ℤ → Setting
  texts : List Text → Setting

-- The method `LogValue`: the attributes of the group.
unfoldable pub log_value : Config → List (Text × Setting)
unfolding redact
log_value c =
    (codes "smtp_host", text c.smtp_host)
    ∷ (codes "smtp_port", number c.smtp_port)
    ∷ (codes "smtp_user", text c.smtp_user)
    ∷ (codes "smtp_password", text (redact c.smtp_password))
    ∷ (codes "smtp_max_message_bytes", number c.smtp_max_message_bytes)
    ∷ (codes "smtp_max_recipients", number c.smtp_max_recipients)
    ∷ (codes "smtp_read_timeout", duration c.smtp_read_timeout)
    ∷ (codes "smtp_write_timeout", duration c.smtp_write_timeout)
    ∷ (codes "smtp_tls_cert", text c.smtp_tls_cert)
    ∷ (codes "smtp_tls_key", text c.smtp_tls_key)
    ∷ (codes "cloudflare_transport", text c.cloudflare_transport)
    ∷ (codes "cloudflare_account_id", text c.cloudflare_account_id)
    ∷ (codes "cloudflare_api_token", text (redact c.cloudflare_api_token))
    ∷ (codes "cloudflare_api_base_url", text c.cloudflare_api_base_url)
    ∷ (codes "cloudflare_timeout", duration c.cloudflare_timeout)
    ∷ (codes "cloudflare_max_retries", number c.cloudflare_max_retries)
    ∷ (codes "worker_url", text c.worker_url)
    ∷ (codes "worker_secret", text (redact c.worker_secret))
    ∷ (codes "allowed_from_domains", texts c.allowed_from_domains)
    ∷ (codes "health_host", text c.health_host)
    ∷ (codes "health_port", number c.health_port)
    ∷ (codes "log_level", text c.log_level)
    ∷ []

-- A configuration with other secrets.
abbrev pub with_secrets : Config → Text → Text → Text → Config
with_secrets c password token secret = record {
  smtp_host = c.smtp_host;
  smtp_port = c.smtp_port;
  smtp_user = c.smtp_user;
  smtp_password = password;
  smtp_max_message_bytes = c.smtp_max_message_bytes;
  smtp_max_recipients = c.smtp_max_recipients;
  smtp_read_timeout = c.smtp_read_timeout;
  smtp_write_timeout = c.smtp_write_timeout;
  smtp_tls_cert = c.smtp_tls_cert;
  smtp_tls_key = c.smtp_tls_key;
  cloudflare_transport = c.cloudflare_transport;
  cloudflare_account_id = c.cloudflare_account_id;
  cloudflare_api_token = token;
  cloudflare_api_base_url = c.cloudflare_api_base_url;
  cloudflare_timeout = c.cloudflare_timeout;
  cloudflare_max_retries = c.cloudflare_max_retries;
  worker_url = c.worker_url;
  worker_secret = secret;
  allowed_from_domains = c.allowed_from_domains;
  health_host = c.health_host;
  health_port = c.health_port;
  log_level = c.log_level;
}

redact_lem : (s t : Text) → is_empty s ≡ is_empty t → redact s ≡ redact t
unfolding redact
redact_lem s t h = rw h refl

-- Two configurations that differ in their three secrets alone, each set in both or in neither,
-- give the same string and the same log attributes.
pub redact_noninterference :
    (std : Standard) (c : Config) (p p' t t' s s' : Text)
    → is_empty p ≡ is_empty p'
    → is_empty t ≡ is_empty t'
    → is_empty s ≡ is_empty s'
    → (config_string std (with_secrets c p t s) ≡ config_string std (with_secrets c p' t' s'))
      × (log_value (with_secrets c p t s) ≡ log_value (with_secrets c p' t' s'))
unfolding config_string log_value
redact_noninterference std c p p' t t' s s' hp ht hs =
    rw (redact_lem p p' hp, redact_lem t t' ht, redact_lem s s' hs) (refl, refl)
