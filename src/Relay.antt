-- ===== src/Relay.antt =====
-- cmd/relay/main.go: how the program puts its parts together before it serves.
pub mod Start
pub mod Serve
pub mod Told
pub mod Address
pub mod Success
pub mod Once
pub mod Command
pub mod Goroutines
use cloudflare_smtp_relay.Shared.{ℕ, ◌||◌, Option, none, some, [], ◌++◌, if◌then◌else◌}
use cloudflare_smtp_relay.Shared.Int.{ℤ, pos}
use cloudflare_smtp_relay.Shared.Text.{Text, codes, text_eq, is_empty, show_ℤ}
use cloudflare_smtp_relay.Email.Errors.{Fault, outside, wrapped, Fallible, ok, failed}
use cloudflare_smtp_relay.Email.Message.{Message}
use cloudflare_smtp_relay.Email.Policy.{new_sender_policy}
use cloudflare_smtp_relay.Cloudflare.Loop.{Outside, Outcome, History}
use cloudflare_smtp_relay.Cloudflare.Wire.{Wire}
use cloudflare_smtp_relay.Cloudflare.Rest.{Rest, new_rest, endpoint, rest_send}
use cloudflare_smtp_relay.Cloudflare.Worker.{Worker, new_worker, worker_send}
use cloudflare_smtp_relay.Config.{
  transport_rest, transport_worker, Standard, Config, Env, smtp_addr, health_addr,
}
use cloudflare_smtp_relay.Config.Load.{load_from}
use cloudflare_smtp_relay.Logging.{Level, new_logger}
use cloudflare_smtp_relay.Smtp.Options.{Options, Inner, new_server}
use cloudflare_smtp_relay.Health.{Client, check_health}
use cloudflare_smtp_relay.Health.Server.{HttpServer, new_health}

-- The two implementations of `email.Sender`.
pub data Adapter : Type 0 where
  rest : Rest → Adapter
  worker : Worker → Adapter

unfoldable pub adapter_send : Wire → Outside → Adapter → Message → Option (Outcome × History)
adapter_send w o (rest c) msg = rest_send w o c msg
adapter_send w o (worker c) msg = worker_send w o c msg

abbrev pub adapter_url : Adapter → Text
adapter_url (rest c) = endpoint c
adapter_url (worker c) = c.url

abbrev as_rest : Fallible Rest → Fallible Adapter
as_rest (ok c) = ok (rest c)
as_rest (failed e) = failed e

abbrev as_worker : Fallible Worker → Fallible Adapter
as_worker (ok c) = ok (worker c)
as_worker (failed e) = failed e

unfoldable pub build_sender : Standard → Config → Fallible Adapter
build_sender std cfg =
    if text_eq cfg.cloudflare_transport transport_rest
    then as_rest (
        new_rest (record {
          base_url = cfg.cloudflare_api_base_url;
          account_id = cfg.cloudflare_account_id;
          api_token = cfg.cloudflare_api_token;
          timeout = cfg.cloudflare_timeout;
          max_retries = cfg.cloudflare_max_retries;
        }))
    else if text_eq cfg.cloudflare_transport transport_worker
    then as_worker (
        new_worker (record {
          url = cfg.worker_url;
          secret = cfg.worker_secret;
          timeout = cfg.cloudflare_timeout;
          max_retries = cfg.cloudflare_max_retries;
        }))
    else failed (outside (codes "unsupported transport " ++ std.quote cfg.cloudflare_transport))

-- A configuration of crypto/tls: its one certificate, and its least version, 1.2 or 0x303.
pub record TlsConfig (Cert : Type 0) : Type 0 where
  pub certificate : Cert
  pub min_version : ℕ

abbrev loaded : {Cert : Type 0} → Fallible Cert → Fallible (Option (TlsConfig Cert))
loaded (failed e) = failed (wrapped (codes "load key pair: ") e [])
loaded (ok cert) = ok (some (record { certificate = cert; min_version = 0x303 }))

-- `load_pair` is `tls.LoadX509KeyPair`.
unfoldable pub build_tls :
    {Cert : Type 0} → (Text → Text → Fallible Cert) → Config → Fallible (Option (TlsConfig Cert))
build_tls load_pair cfg =
    if is_empty cfg.smtp_tls_cert || is_empty cfg.smtp_tls_key
    then ok none
    else loaded (load_pair cfg.smtp_tls_cert cfg.smtp_tls_key)

abbrev with_prefix : {A : Type 0} → Text → Fallible A → Fallible A
with_prefix s (ok a) = ok a
with_prefix s (failed e) = failed (wrapped s e [])

abbrev pub and_then : {A B : Type 0} → Fallible A → (A → Fallible B) → Fallible B
and_then (ok a) f = f a
and_then (failed e) f = failed e

-- What `run` has before it binds its listeners.
pub record Started (Cert Gen Now : Type 0) : Type 0 where
  pub config : Config
  pub level : Level
  pub sender : Adapter
  pub backend : Options (TlsConfig Cert) Adapter Level Gen Now
  pub inner : Inner (TlsConfig Cert)
  pub health : HttpServer

module _ {Cert Gen Now : Type 0} (std : Standard) (load_pair : Text → Text → Fallible Cert)
    (log : Level) (gen : Gen) (clock : Now) where
  -- The options that `run` gives to the SMTP server; the logger is its level.
  abbrev pub options_of :
      Config
      → Level
      → Adapter
      → Option (TlsConfig Cert)
      → Options (TlsConfig Cert) Adapter Level Gen Now
  options_of cfg level sender tls_config = record {
    addr = smtp_addr std cfg;
    domain = [];
    username = cfg.smtp_user;
    password = cfg.smtp_password;
    max_message_bytes = cfg.smtp_max_message_bytes;
    max_recipients = cfg.smtp_max_recipients;
    read_timeout = cfg.smtp_read_timeout;
    write_timeout = cfg.smtp_write_timeout;
    tls_config = tls_config;
    policy = some (new_sender_policy cfg.allowed_from_domains);
    sender = some sender;
    logger = some level;
    new_id = none;
    now = none;
  }

  -- `run`, up to the two servers that it makes.
  unfoldable pub start : Env → Fallible (Started Cert Gen Now)
  start env = and_then (load_from std env) (λ cfg.
      and_then (new_logger std.unicode std.quote cfg.log_level) (λ level.
        and_then (with_prefix (codes "cloudflare transport: ") (build_sender std cfg)) (λ sender.
          and_then (with_prefix (codes "smtp tls: ") (build_tls load_pair cfg)) (λ tls_config.
            and_then
              (with_prefix (codes "smtp server: ")
                (new_server log gen clock (options_of cfg level sender tls_config)))
              (λ server. ok (record {
                config = cfg;
                level = level;
                sender = sender;
                backend = server.0;
                inner = server.1;
                health = new_health (health_addr std cfg);
              }))))))

abbrev default_health_port : ℤ
default_health_port = pos 8080

-- `runHealthcheck`: the port is the default one where the configuration cannot be loaded.
unfoldable pub run_healthcheck : Standard → Env → Client → Option Fault
run_healthcheck std env client =
    let port : ℤ = elim (load_from std env) [
      | ok cfg ↦ cfg.health_port
      | failed e ↦ default_health_port
    ] in
    check_health client (codes "http://127.0.0.1:" ++ (show_ℤ port ++ codes "/health"))
