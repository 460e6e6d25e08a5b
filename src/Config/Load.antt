-- ===== src/Config/Load.antt =====
-- internal/config/config.go: `loadFrom` reads every variable, then checks, and fails with all of the
-- problems at once.
use cloudflare_smtp_relay.Shared.{ℕ, ◌*◌, List, [], ◌∷◌, ◌++◌, if◌then◌else◌}
use cloudflare_smtp_relay.Shared.Int.{ℤ, pos}
use cloudflare_smtp_relay.Shared.Text.{Text, codes, is_empty, to_lower}
use cloudflare_smtp_relay.Email.Errors.{outside, Fallible, ok, failed}
use cloudflare_smtp_relay.Config.{
  transport_rest, Standard, Config, Env, Found, string_or_default, require_string, int_or_default,
  int64_or_default, duration_or_default, normalize_domains,
}
use cloudflare_smtp_relay.Config.Checks.{
  validate_port_range, cloudflare_max_message_bytes, cloudflare_max_recipients, check_limits,
  check_pair, is_level, check_level, check_transport,
}

abbrev seconds : ℕ → ℤ
seconds n = pos (n * 1_000_000_000)

abbrev pub raw_log_level : Env → Text
raw_log_level env = string_or_default env (codes "LOG_LEVEL") (codes "info")

-- The value of `LogLevel`, which stays empty where the variable has no level.
abbrev pub level_or_empty : Text → Text
level_or_empty s = if is_level s then s else []

-- The configuration as it is read, and the problems of reading it.
unfoldable pub read_config : Standard → Env → Found Config
read_config std env =
    let (smtp_port, p1) = int_or_default std env (codes "SMTP_PORT") (pos 2525) in
    let (smtp_user, p2) = require_string env (codes "SMTP_USER") in
    let (smtp_password, p3) = require_string env (codes "SMTP_PASSWORD") in
    let (max_bytes, p4) =
      int64_or_default std env (codes "SMTP_MAX_MESSAGE_BYTES") cloudflare_max_message_bytes in
    let (max_recipients, p5) =
      int_or_default std env (codes "SMTP_MAX_RECIPIENTS") cloudflare_max_recipients in
    let (read_timeout, p6) = duration_or_default std env (codes "SMTP_READ_TIMEOUT") (seconds 30) in
    let (write_timeout, p7) =
      duration_or_default std env (codes "SMTP_WRITE_TIMEOUT") (seconds 30) in
    let (timeout, p8) = duration_or_default std env (codes "CLOUDFLARE_TIMEOUT") (seconds 15) in
    let (max_retries, p9) = int_or_default std env (codes "CLOUDFLARE_MAX_RETRIES") (pos 2) in
    let (health_port, p10) = int_or_default std env (codes "HEALTH_PORT") (pos 8080) in
    (
      record {
        smtp_host = string_or_default env (codes "SMTP_HOST") (codes "0.0.0.0");
        smtp_port = smtp_port;
        smtp_user = smtp_user;
        smtp_password = smtp_password;
        smtp_max_message_bytes = max_bytes;
        smtp_max_recipients = max_recipients;
        smtp_read_timeout = read_timeout;
        smtp_write_timeout = write_timeout;
        smtp_tls_cert = string_or_default env (codes "SMTP_TLS_CERT") [];
        smtp_tls_key = string_or_default env (codes "SMTP_TLS_KEY") [];
        cloudflare_transport = string_or_default env (codes "CLOUDFLARE_TRANSPORT") transport_rest;
        cloudflare_account_id = string_or_default env (codes "CLOUDFLARE_ACCOUNT_ID") [];
        cloudflare_api_token = string_or_default env (codes "CLOUDFLARE_API_TOKEN") [];
        cloudflare_api_base_url =
            string_or_default env (codes "CLOUDFLARE_API_BASE_URL")
              (codes "https://api.cloudflare.com/client/v4");
        cloudflare_timeout = timeout;
        cloudflare_max_retries = max_retries;
        worker_url = string_or_default env (codes "WORKER_URL") [];
        worker_secret = string_or_default env (codes "WORKER_SECRET") [];
        allowed_from_domains =
            normalize_domains std.unicode (string_or_default env (codes "ALLOWED_FROM_DOMAINS") []);
        health_host = string_or_default env (codes "HEALTH_HOST") (codes "0.0.0.0");
        health_port = health_port;
        log_level = level_or_empty (to_lower std.unicode (raw_log_level env));
      },
      p1 ++ (p2 ++ (p3 ++ (p4 ++ (p5 ++ (p6 ++ (p7 ++ (p8 ++ (p9 ++ p10)))))))),
    )

-- The problems of a configuration that has been read.
unfoldable pub check_config : Standard → Env → Config → List Text
check_config std env c =
    validate_port_range c.smtp_port (codes "SMTP_PORT")
    ++ (validate_port_range c.health_port (codes "HEALTH_PORT")
        ++ (check_limits c
            ++ (check_pair c ++ (check_level std (raw_log_level env) ++ check_transport std c))))

-- `errors.Join`: one line each.
unfoldable pub aggregate_error : List Text → Text
aggregate_error [] = []
aggregate_error (p ∷ []) = p
aggregate_error (p ∷ ps) = p ++ b'\n' ∷ aggregate_error ps

unfoldable pub load_from : Standard → Env → Fallible Config
unfolding read_config check_config aggregate_error
load_from std env =
    let (c, reading) = read_config std env in
    let problems = reading ++ check_config std env c in
    if is_empty problems then ok c else failed (outside (aggregate_error problems))
