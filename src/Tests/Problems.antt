-- ===== src/Tests/Problems.antt =====
-- The theorem on the problems of a configuration, at an environment without variables.
use cloudflare_smtp_relay.Shared.{◌≡◌, refl, none, [], ◌∷◌, ◌++◌, arith}
use cloudflare_smtp_relay.Shared.Text.{codes, text_eq, lacks, is_ascii, to_lower}
use cloudflare_smtp_relay.Email.Errors.{Fault, outside, fault_text, failed}
use cloudflare_smtp_relay.Config.{
  Standard, Env, string_or_default, require_string, int_or_default, int64_or_default,
  duration_or_default,
}
use cloudflare_smtp_relay.Config.Load.{read_config, load_from}
use cloudflare_smtp_relay.Config.Problems.{Printable}
use cloudflare_smtp_relay.Config.Problems.Reported.{IsReported, load_from-problems}
use cloudflare_smtp_relay.Config.Problems.Rules.{wrong_keys}
use cloudflare_smtp_relay.Tests.Fixtures.{unicode}

abbrev masking : Standard
masking = record {
  unicode = unicode;
  quote = λ s. codes "\"...\"";
  duration_string = λ d. [];
  parse_duration = λ s. none;
  parse_url = λ s. failed (outside []);
  join_host_port = λ host port. host ++ b':' ∷ port;
}

outside-failed : {e : Fault} → masking.parse_url [] ≡ failed e → e ≡ outside []
outside-failed h = ground (arith, h)

masking-Printable : Printable masking
unfolding lacks codes fault_text
masking-Printable = record {
  quoted = λ s. record { unbroken = refl };
  parse_error = λ raw e h. rw (outside-failed h) (record { unbroken = refl });
}

abbrev unset : Env
unset key = none

load_from-problems_example : IsReported (load_from masking unset) (wrong_keys masking unset)
load_from-problems_example = load_from-problems masking masking-Printable unset

-- The variables that are required are missing.
unset_wrong :
    wrong_keys masking unset
    ≡ codes "SMTP_USER"
      ∷ codes "SMTP_PASSWORD"
      ∷ codes "CLOUDFLARE_ACCOUNT_ID"
      ∷ codes "CLOUDFLARE_API_TOKEN"
      ∷ []
unfolding read_config int_or_default int64_or_default duration_or_default require_string
    string_or_default text_eq codes is_ascii to_lower
unset_wrong = refl
