-- ===== src/Config.antt =====
-- internal/config: the configuration, and how each of its variables is read. What Go's library
-- brings is the record `Standard`: %q and Duration.String of fmt, time.ParseDuration, url.Parse.
pub mod Checks
pub mod Load
pub mod Redact
pub mod Laws
pub mod RoundTrip
pub mod Problems
use cloudflare_smtp_relay.Shared.{
  Bool, ◌||◌, Option, none, some, List, [], ◌∷◌, ◌++◌, if◌then◌else◌,
}
use cloudflare_smtp_relay.Shared.Int.{ℤ}
use cloudflare_smtp_relay.Shared.Text.{
  Text, codes, is_empty, contains, Unicode, to_lower, trim_space, split, show_ℤ, atoi,
}
use cloudflare_smtp_relay.Email.Errors.{Fallible}

-- The fields of `url.URL` that are used, by `IsAbs`, `Scheme` and `Host`.
pub record Url : Type 0 where
  pub absolute : Bool
  pub scheme : Text
  pub host : Text

pub record Standard : Type 0 where
  pub unicode : Unicode
  pub quote : Text → Text
  pub duration_string : ℤ → Text
  pub parse_duration : Text → Option ℤ
  pub parse_url : Text → Fallible Url
  pub join_host_port : Text → Text → Text

-- The two transports.
abbrev pub transport_rest : Text
transport_rest = codes "rest"

abbrev pub transport_worker : Text
transport_worker = codes "worker"

pub record Config : Type 0 where
  pub smtp_host : Text
  pub smtp_port : ℤ
  pub smtp_user : Text
  pub smtp_password : Text
  pub smtp_max_message_bytes : ℤ
  pub smtp_max_recipients : ℤ
  pub smtp_read_timeout : ℤ
  pub smtp_write_timeout : ℤ
  pub smtp_tls_cert : Text
  pub smtp_tls_key : Text
  pub cloudflare_transport : Text
  pub cloudflare_account_id : Text
  pub cloudflare_api_token : Text
  pub cloudflare_api_base_url : Text
  pub cloudflare_timeout : ℤ
  pub cloudflare_max_retries : ℤ
  pub worker_url : Text
  pub worker_secret : Text
  pub allowed_from_domains : List Text
  pub health_host : Text
  pub health_port : ℤ
  pub log_level : Text

-- `os.LookupEnv`
abbrev pub Env : Type 0
Env = Text → Option Text

-- A value, and the problems that reading it added.
abbrev pub Found : Type 0 → Type 0
Found A = A × List Text

unfoldable pub string_or_default : Env → Text → Text → Text
string_or_default env key d = elim (env key) [ some v ↦ v | none ↦ d ]

abbrev pub problem : Text → Text → List Text
problem key what = (key ++ (codes ": " ++ what)) ∷ []

abbrev nonempty : Text → Text → Found Text
nonempty key [] = ([], problem key (codes "required, no default"))
nonempty key (c ∷ v) = (c ∷ v, [])

unfoldable pub require_string : Env → Text → Found Text
require_string env key = elim (env key) [
  | none ↦ ([], problem key (codes "required, no default"))
  | some v ↦ nonempty key v
]

-- A variable that is set and not empty, parsed; the default where it is neither, and with a problem
-- where it cannot be parsed.
abbrev parsed_or : Standard → Text → ℤ → Text → Text → Option ℤ → Found ℤ
parsed_or std key d expected v (some n) = (n, [])
parsed_or std key d expected v none =
    (d, problem key (codes "expected " ++ (expected ++ (codes ", got " ++ std.quote v))))

abbrev pub parsed_with : Standard → Text → ℤ → Text → (Text → Option ℤ) → Option Text → Found ℤ
parsed_with std key d expected parse none = (d, [])
parsed_with std key d expected parse (some []) = (d, [])
parsed_with std key d expected parse (some (c ∷ v)) =
    parsed_or std key d expected (c ∷ v) (parse (c ∷ v))

unfoldable pub int_or_default : Standard → Env → Text → ℤ → Found ℤ
int_or_default std env key d = parsed_with std key d (codes "an integer") atoi (env key)

-- `strconv.ParseInt(v, 10, 64)` is `strconv.Atoi` where an int has 64 bits.
unfoldable pub int64_or_default : Standard → Env → Text → ℤ → Found ℤ
int64_or_default std env key d = parsed_with std key d (codes "an integer") atoi (env key)

unfoldable pub duration_or_default : Standard → Env → Text → ℤ → Found ℤ
duration_or_default std env key d =
    parsed_with std key d (codes "a duration (e.g. \"30s\")") std.parse_duration (env key)

-- The loop of `normalizeDomains`; `seen` has the same members as `out`.
add_domain : Unicode → List Text → List Text → List Text
add_domain u out [] = out
add_domain u out (p ∷ parts) =
    let d = to_lower u (trim_space u p) in
    add_domain u (if is_empty d || contains d out then out else out ++ d ∷ []) parts

unfoldable pub normalize_domains : Unicode → Text → List Text
unfolding add_domain
normalize_domains u raw = if is_empty raw then [] else add_domain u [] (split raw b',')

unfoldable pub smtp_addr : Standard → Config → Text
smtp_addr std c = std.join_host_port c.smtp_host (show_ℤ c.smtp_port)

unfoldable pub health_addr : Standard → Config → Text
health_addr std c = std.join_host_port c.health_host (show_ℤ c.health_port)
