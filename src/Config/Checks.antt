-- ===== src/Config/Checks.antt =====
-- internal/config: the checks of a configuration that has been read. Each gives its problems.
use cloudflare_smtp_relay.Shared.{Bool, true, false, not, ◌&&◌, ◌||◌, List, [], ◌++◌, if◌then◌else◌}
use cloudflare_smtp_relay.Shared.Int.{ℤ, pos, ltb_ℤ, leb_ℤ}
use cloudflare_smtp_relay.Shared.Text.{Text, codes, text_eq, is_empty, to_lower, show_ℤ}
use cloudflare_smtp_relay.Email.Errors.{fault_text, ok, failed}
use cloudflare_smtp_relay.Config.{transport_rest, transport_worker, Url, Standard, Config, problem}

abbrev pub problem_if : Bool → Text → Text → List Text
problem_if true key what = problem key what
problem_if false key what = []

-- The Boolean test lo ≤ n ≤ hi.
abbrev pub within : ℤ → ℤ → ℤ → Bool
within lo hi n = leb_ℤ lo n && leb_ℤ n hi

unfoldable pub validate_port_range : ℤ → Text → List Text
validate_port_range port key =
    problem_if (ltb_ℤ port (pos 1) || ltb_ℤ (pos 65535) port) key
      (codes "must be between 1 and 65535, got " ++ show_ℤ port)

abbrev pub is_http : Url → Bool
is_http u =
    u.absolute
    && ((text_eq u.scheme (codes "http") || text_eq u.scheme (codes "https"))
        && not (is_empty u.host))

unfoldable pub validate_absolute_http_url : Standard → Text → Text → List Text
validate_absolute_http_url std raw key = elim (std.parse_url raw) [
  | failed e ↦
      problem key
        (codes "must be a valid URL, got " ++ (std.quote raw ++ (codes ": " ++ fault_text e)))
  | ok u ↦
      problem_if
        (not u.absolute
          || ((not (text_eq u.scheme (codes "http")) && not (text_eq u.scheme (codes "https")))
              || is_empty u.host))
        key (codes "must be an absolute http or https URL, got " ++ std.quote raw)
]

abbrev pub cloudflare_max_message_bytes : ℤ
cloudflare_max_message_bytes = pos 5242880

abbrev pub cloudflare_max_recipients : ℤ
cloudflare_max_recipients = pos 50

unfoldable pub check_limits : Config → List Text
check_limits c =
    problem_if
      (leb_ℤ c.smtp_max_message_bytes (pos 0)
        || ltb_ℤ cloudflare_max_message_bytes c.smtp_max_message_bytes)
      (codes "SMTP_MAX_MESSAGE_BYTES")
      (codes "must be > 0 and <= "
        ++ (show_ℤ cloudflare_max_message_bytes
            ++ (codes " (Cloudflare hard cap), got " ++ show_ℤ c.smtp_max_message_bytes)))
    ++ (problem_if
          (leb_ℤ c.smtp_max_recipients (pos 0)
            || ltb_ℤ cloudflare_max_recipients c.smtp_max_recipients)
          (codes "SMTP_MAX_RECIPIENTS")
          (codes "must be > 0 and <= "
            ++ (show_ℤ cloudflare_max_recipients
                ++ (codes " (Cloudflare cap), got " ++ show_ℤ c.smtp_max_recipients)))
        ++ problem_if
            (ltb_ℤ c.cloudflare_max_retries (pos 0) || ltb_ℤ (pos 5) c.cloudflare_max_retries)
            (codes "CLOUDFLARE_MAX_RETRIES")
            (codes "must be >= 0 and <= 5, got " ++ show_ℤ c.cloudflare_max_retries))

-- One of the two files of the key pair is missing.
unfoldable pub check_pair : Config → List Text
check_pair c =
    let cert_missing = is_empty c.smtp_tls_cert in
    let key_missing = is_empty c.smtp_tls_key in
    if not ((cert_missing && not key_missing) || (not cert_missing && key_missing))
    then []
    else if is_empty c.smtp_tls_cert
    then problem (codes "SMTP_TLS_CERT") (codes "required when SMTP_TLS_KEY is set")
    else problem (codes "SMTP_TLS_KEY") (codes "required when SMTP_TLS_CERT is set")

abbrev pub is_level : Text → Bool
is_level s =
    text_eq s (codes "debug")
    || (text_eq s (codes "info") || (text_eq s (codes "warn") || text_eq s (codes "error")))

unfoldable pub check_level : Standard → Text → List Text
check_level std raw =
    problem_if (not (is_level (to_lower std.unicode raw))) (codes "LOG_LEVEL")
      (codes "must be one of debug, info, warn, error (case-insensitive), got " ++ std.quote raw)

abbrev required_for : Standard → Text → Text → Text → List Text
required_for std transport key v =
    problem_if (is_empty v) key
      (codes "required when CLOUDFLARE_TRANSPORT is " ++ std.quote transport)

unfoldable pub check_transport : Standard → Config → List Text
check_transport std c =
    if text_eq c.cloudflare_transport transport_rest
    then required_for std transport_rest (codes "CLOUDFLARE_ACCOUNT_ID") c.cloudflare_account_id
      ++ required_for std transport_rest (codes "CLOUDFLARE_API_TOKEN") c.cloudflare_api_token
    else if text_eq c.cloudflare_transport transport_worker
    then (if is_empty c.worker_url
        then required_for std transport_worker (codes "WORKER_URL") c.worker_url
        else validate_absolute_http_url std c.worker_url (codes "WORKER_URL"))
      ++ required_for std transport_worker (codes "WORKER_SECRET") c.worker_secret
    else problem (codes "CLOUDFLARE_TRANSPORT") (
        codes "must be "
        ++ (std.quote transport_rest
            ++ (codes " or "
                ++ (std.quote transport_worker
                    ++ (codes ", got " ++ std.quote c.cloudflare_transport)))))
