-- ===== src/Tests/Startup.antt =====
-- The theorems on the configuration, the start, the health probe and the log, at one environment.
use cloudflare_smtp_relay.Shared.{
  ◌≡◌, refl, ◌↔◌, false, not, ◌&&◌, none, some, [], ◌∷◌, ◌++◌, if◌then◌else◌, length,
}
use cloudflare_smtp_relay.Shared.Int.{pos}
use cloudflare_smtp_relay.Shared.Text.{
  Text, codes, text_eq, is_empty, contains, IsDistinct, is_ascii, to_lower, split,
}
use cloudflare_smtp_relay.Email.Errors.{outside, deadline_exceeded, Fallible, ok, failed}
use cloudflare_smtp_relay.Email.Policy.{new_sender_policy}
use cloudflare_smtp_relay.Config.{
  Standard, Config, Env, string_or_default, require_string, int_or_default, int64_or_default,
  duration_or_default, normalize_domains,
}
use cloudflare_smtp_relay.Config.Checks.{
  validate_port_range, check_limits, check_pair, check_level, check_transport,
}
use cloudflare_smtp_relay.Config.Load.{read_config, load_from}
use cloudflare_smtp_relay.Config.Laws.{IsValid, load_from-IsValid}
use cloudflare_smtp_relay.Config.Laws.Domains.{AllNonempty, cleaned, normalize_domains_lem}
use cloudflare_smtp_relay.Config.Redact.{
  config_string, log_value, with_secrets, redact_noninterference,
}
use cloudflare_smtp_relay.Logging.{Level, info}
use cloudflare_smtp_relay.Logging.Delivery.{truncate_subject}
use cloudflare_smtp_relay.Logging.Laws.{runes-truncate_subject}
use cloudflare_smtp_relay.Smtp.Options.{Options}
use cloudflare_smtp_relay.Health.{handler, Client}
use cloudflare_smtp_relay.Relay.{Started, start}
use cloudflare_smtp_relay.Relay.Start.{LoadsPair, IsReady, start-IsReady}
use cloudflare_smtp_relay.Relay.Serve.{World, signalled, run_servers}
use cloudflare_smtp_relay.Relay.Serve.Orderly.{down, Phases, Steps, AllClosed, run_servers-Steps}
use cloudflare_smtp_relay.Logging.Runes.{runes}
use cloudflare_smtp_relay.Shared.{take, leb, arith}
use cloudflare_smtp_relay.Shared.Text.{show_ℤ, atoi, trim_space, trim_left, trim_right}
use cloudflare_smtp_relay.Shared.Text.Decimal.RoundTrip.{show_ℤ-nonempty, atoi-show_ℤ}
use cloudflare_smtp_relay.Config.RoundTrip.{env_of, ReadsBack}
use cloudflare_smtp_relay.Shared.Text.{lacks}
use cloudflare_smtp_relay.Config.RoundTrip.Reading.{load_from-env_of}
use cloudflare_smtp_relay.Relay.Command.{Flags, main, Succeeds, main-code_iff}
use cloudflare_smtp_relay.Tests.Fixtures.{unicode}

abbrev standard : Standard
standard = record {
  unicode = unicode;
  quote = λ s. s;
  duration_string = λ d. [];
  parse_duration = λ s. none;
  parse_url = λ s. failed (outside []);
  join_host_port = λ host port. host ++ b':' ∷ port;
}

-- The variables that have no default, and a list of domains.
abbrev env : Env
env key =
    if text_eq key (codes "SMTP_USER")
    then some (codes "relay")
    else if text_eq key (codes "SMTP_PASSWORD")
    then some (codes "secret")
    else if text_eq key (codes "CLOUDFLARE_ACCOUNT_ID")
    then some (codes "account")
    else if text_eq key (codes "CLOUDFLARE_API_TOKEN")
    then some (codes "token")
    else if text_eq key (codes "ALLOWED_FROM_DOMAINS")
    then some (codes "Example.com,,example.com")
    else none

abbrev loaded : Config
loaded = (read_config standard env).0

loaded_ok : load_from standard env ≡ ok loaded
unfolding load_from read_config int_or_default int64_or_default duration_or_default require_string
    string_or_default validate_port_range check_limits check_pair check_level check_transport
    text_eq codes is_ascii to_lower
loaded_ok = refl

load_from-IsValid_example : IsValid standard loaded
load_from-IsValid_example = load_from-IsValid standard env loaded loaded_ok

normalize_domains_lem_example :
    AllNonempty (normalize_domains unicode (codes "Example.com,,example.com"))
    × IsDistinct (normalize_domains unicode (codes "Example.com,,example.com"))
    × (contains (codes "example.com") (normalize_domains unicode (codes "Example.com,,example.com"))
        ≡ (not (is_empty (codes "Example.com,,example.com"))
            && (not (is_empty (codes "example.com"))
                && contains
                    (codes "example.com")
                    (cleaned unicode (split (codes "Example.com,,example.com") b',')))))
normalize_domains_lem_example =
    normalize_domains_lem unicode (codes "example.com") (codes "Example.com,,example.com")

redact_noninterference_example :
    (config_string standard (with_secrets loaded (codes "a") (codes "b") [])
      ≡ config_string standard (with_secrets loaded (codes "longer") (codes "other") []))
    × (log_value (with_secrets loaded (codes "a") (codes "b") [])
        ≡ log_value (with_secrets loaded (codes "longer") (codes "other") []))
unfolding codes
redact_noninterference_example =
    redact_noninterference standard loaded (codes "a") (codes "longer") (codes "b") (codes "other")
      [] [] refl refl refl

abbrev load_pair : Text → Text → Fallible Text
load_pair cert key = ok (cert ++ key)

base_given : is_empty loaded.cloudflare_api_base_url ≡ false
unfolding read_config string_or_default text_eq codes
base_given = refl

without_tls : LoadsPair standard load_pair info tt tt loaded none
unfolding read_config string_or_default text_eq codes
without_tls = (refl, refl)

start-IsReady_example :
    (s : Started Text Unit Unit) × (start standard load_pair info tt tt env ≡ ok s)
    × IsReady standard load_pair info tt tt loaded none s
start-IsReady_example =
    start-IsReady standard load_pair info tt tt env loaded none loaded_ok base_given without_tls

abbrev options : Options Text Unit Level Unit Unit
options = record {
  addr = codes ":2525";
  domain = [];
  username = codes "relay";
  password = codes "secret";
  max_message_bytes = pos 1000;
  max_recipients = pos 5;
  read_timeout = pos 0;
  write_timeout = pos 0;
  tls_config = none;
  policy = some (new_sender_policy []);
  sender = some tt;
  logger = none;
  new_id = none;
  now = none;
}

abbrev client : Client
client = record {
  bad_url = λ url. none;
  exchange = λ method url. ok (handler method (codes "/health"));
  decode = λ body. ok (codes "ok");
  quote = λ s. s;
}

-- A world where a signal ends a run, and the grace period is over before the SMTP server is.
abbrev world : World
world = record {
  listen_smtp = none;
  listen_health = none;
  shutdown_smtp = some deadline_exceeded;
  shutdown_health = none;
  ending = signalled;
  is_server_closed = λ e. false;
  is_net_closed = λ e. false;
}

run_servers-Steps_example :
    (end : Phases) × Steps (down, down) (run_servers world).0 end × AllClosed end
run_servers-Steps_example = run_servers-Steps world

runes-truncate_subject_example :
    runes (truncate_subject (codes "Hello") 3)
    ≡ take 3 (runes (codes "Hello"))
      ++ (if leb (length (runes (codes "Hello"))) 3 then [] else 0x2026 ∷ [])
runes-truncate_subject_example = runes-truncate_subject (codes "Hello") 3

-- A library whose durations are printed as their nanoseconds.
abbrev printing : Standard
printing = record {
  unicode = unicode;
  quote = λ s. s;
  duration_string = show_ℤ;
  parse_duration = atoi;
  parse_url = λ s. failed (outside []);
  join_host_port = λ host port. host ++ b':' ∷ port;
}

printing-ReadsBack : ReadsBack printing
printing-ReadsBack d fits = (show_ℤ-nonempty d, atoi-show_ℤ d fits)

printing_loads : load_from printing env ≡ ok loaded
unfolding load_from read_config int_or_default int64_or_default duration_or_default require_string
    string_or_default validate_port_range check_limits check_pair check_level check_transport
    text_eq codes is_ascii to_lower
printing_loads = refl

load_from-env_of_example : load_from printing (env_of printing loaded) ≡ ok loaded
unfolding read_config duration_or_default string_or_default text_eq codes is_ascii to_lower
    trim_space trim_left trim_right lacks normalize_domains split contains
load_from-env_of_example =
    load_from-env_of printing loaded (load_from-IsValid printing env loaded printing_loads)
      printing-ReadsBack (omega arith, omega arith) (omega arith, omega arith)
      (omega arith, omega arith) ((refl, refl), tt)

abbrev flags : Flags
flags = record { healthcheck = false; show_version = false }

main-code_iff_example :
    ((main standard load_pair info tt tt client env world (codes "1.0") flags).code ≡ 0)
    ↔ Succeeds standard load_pair info tt tt client env world flags
main-code_iff_example =
    main-code_iff standard load_pair info tt tt client env world (codes "1.0") flags
