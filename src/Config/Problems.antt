-- ===== src/Config/Problems.antt =====
-- internal/config: the problems that `loadFrom` collects, each a line of text.
pub mod Rules
mod Keys
pub mod Reported
use cloudflare_smtp_relay.Shared.{
  ◌≡◌, refl, inl, inr, Bool, true, false, ◌||◌, Option, none, some, List, [], ◌∷◌, ◌++◌,
  if◌then◌else◌, All, All-append, Option-cases,
}
use cloudflare_smtp_relay.Shared.Int.{ℤ}
use cloudflare_smtp_relay.Shared.Text.{Text, codes, show_ℤ, atoi, lacks, Lacks, Lacks-append}
use cloudflare_smtp_relay.Shared.Text.Decimal.RoundTrip.{show_ℤ-Lacks}
use cloudflare_smtp_relay.Email.Errors.{Fault, fault_text, failed, Fallible-cases}
use cloudflare_smtp_relay.Config.{
  Standard, Config, Env, problem, parsed_with, require_string, int_or_default, int64_or_default,
  duration_or_default,
}
use cloudflare_smtp_relay.Config.Checks.{
  problem_if, validate_port_range, validate_absolute_http_url, check_limits, check_pair,
  check_level, check_transport,
}
use cloudflare_smtp_relay.Config.Load.{read_config, check_config}

-- A text without a line break.
pub record IsLine (s : Text) : Type 0 where
  pub unbroken : Lacks b'\n' s

-- Problems, each a line of text.
pub record AreLines (ps : List Text) : Type 0 where
  pub each : All IsLine ps

IsLine-append : (s t : Text) → IsLine s → IsLine t → IsLine (s ++ t)
IsLine-append s t h k = record { unbroken = Lacks-append b'\n' s t h.unbroken k.unbroken }

IsLine-literal : (s : Text) → lacks b'\n' s ≡ true → IsLine s
IsLine-literal s h = record { unbroken = h }

IsLine-show_ℤ : (z : ℤ) → IsLine (show_ℤ z)
IsLine-show_ℤ z = record { unbroken = show_ℤ-Lacks z }

AreLines-nil : AreLines []
AreLines-nil = record { each = tt }

pub AreLines-append : (xs ys : List Text) → AreLines xs → AreLines ys → AreLines (xs ++ ys)
AreLines-append xs ys h k = record { each = All-append IsLine xs ys h.each k.each }

AreLines-problem : (key what : Text) → IsLine key → IsLine what → AreLines (problem key what)
unfolding lacks codes
AreLines-problem key what h k = record {
  each = (
    IsLine-append key (codes ": " ++ what) h
        (IsLine-append (codes ": ") what (IsLine-literal (codes ": ") refl) k),
    tt,
  );
}

AreLines-problem_if :
    (b : Bool) (key what : Text) → IsLine key → IsLine what → AreLines (problem_if b key what)
AreLines-problem_if true key what h k = AreLines-problem key what h k
AreLines-problem_if false key what h k = AreLines-nil

AreLines-if :
    (b : Bool) (xs ys : List Text) → AreLines xs → AreLines ys → AreLines (if b then xs else ys)
AreLines-if true xs ys h k = h
AreLines-if false xs ys h k = k

ruleset line_rules = (
  IsLine-append, IsLine-show_ℤ, IsLine-literal, AreLines-nil, AreLines-append, AreLines-problem_if,
  AreLines-problem, AreLines-if, refl,
)

port-AreLines : (port : ℤ) (key : Text) → IsLine key → AreLines (validate_port_range port key)
unfolding validate_port_range lacks codes
port-AreLines port key line = search line_rules

limits-AreLines : (c : Config) → AreLines (check_limits c)
unfolding check_limits lacks codes
limits-AreLines c = search line_rules depth 12

pair-AreLines : (c : Config) → AreLines (check_pair c)
unfolding check_pair lacks codes
pair-AreLines c = search line_rules

-- What a problem quotes of the outside is printed without line breaks.
pub record Printable (std : Standard) : Type 0 where
  pub quoted : (s : Text) → IsLine (std.quote s)
  pub parse_error : (raw : Text) (e : Fault) → std.parse_url raw ≡ failed e → IsLine (fault_text e)

module _ (std : Standard) (printable : Printable std) where
  IsLine-quote : (s : Text) → IsLine (std.quote s)
  IsLine-quote s = printable.quoted s

  url-AreLines : (raw key : Text) → IsLine key → AreLines (validate_absolute_http_url std raw key)
  unfolding validate_absolute_http_url lacks codes
  url-AreLines raw key line = elim (Fallible-cases (std.parse_url raw)) [
    | inr (e, bad) ↦
        let said = printable.parse_error raw e bad in
        rw (bad, validate_absolute_http_url) (search (line_rules, IsLine-quote))
    | inl (u, good) ↦ rw (good, validate_absolute_http_url) (search (line_rules, IsLine-quote))
  ]

  transport-AreLines : (c : Config) → AreLines (check_transport std c)
  unfolding check_transport lacks codes
  transport-AreLines c = search (line_rules, IsLine-quote, url-AreLines) depth 12

  level-AreLines : (raw : Text) → AreLines (check_level std raw)
  unfolding check_level lacks codes
  level-AreLines raw = search (line_rules, IsLine-quote)

  pub check_config-AreLines : (env : Env) (c : Config) → AreLines (check_config std env c)
  unfolding check_config lacks codes
  check_config-AreLines env c =
      search
        (
          line_rules, port-AreLines, limits-AreLines, pair-AreLines, level-AreLines,
          transport-AreLines,
        )
        depth 12

  parsed_with-AreLines :
      (key expected : Text) (d : ℤ) (parse : Text → Option ℤ) (o : Option Text)
      → IsLine key
      → IsLine expected
      → AreLines (parsed_with std key d expected parse o).1
  unfolding lacks codes
  parsed_with-AreLines key expected d parse none h k = search line_rules
  parsed_with-AreLines key expected d parse (some []) h k = search line_rules
  parsed_with-AreLines key expected d parse (some (x ∷ v)) h k =
      elim (Option-cases (parse (x ∷ v))) [
        | inl bad ↦ rw bad (search (line_rules, IsLine-quote))
        | inr (n, good) ↦ rw good (search line_rules)
      ]

  int-AreLines :
      (env : Env) (key : Text) (d : ℤ) → IsLine key → AreLines (int_or_default std env key d).1
  unfolding int_or_default lacks codes
  int-AreLines env key d h =
      parsed_with-AreLines key (codes "an integer") d atoi (env key) h
        (IsLine-literal (codes "an integer") refl)

  int64-AreLines :
      (env : Env) (key : Text) (d : ℤ) → IsLine key → AreLines (int64_or_default std env key d).1
  unfolding int64_or_default lacks codes
  int64-AreLines env key d h =
      parsed_with-AreLines key (codes "an integer") d atoi (env key) h
        (IsLine-literal (codes "an integer") refl)

  duration-AreLines :
      (env : Env) (key : Text) (d : ℤ) → IsLine key → AreLines (duration_or_default std env key d).1
  unfolding duration_or_default lacks codes
  duration-AreLines env key d h =
      parsed_with-AreLines key (codes "a duration (e.g. \"30s\")") d std.parse_duration (env key) h
        (IsLine-literal (codes "a duration (e.g. \"30s\")") refl)

  required-AreLines : (env : Env) (key : Text) → IsLine key → AreLines (require_string env key).1
  unfolding require_string lacks codes
  required-AreLines env key h = elim (Option-cases (env key)) [
    | inl absent ↦ rw (absent, require_string) (search line_rules)
    | inr ([], given) ↦ rw (given, require_string) (search line_rules)
    | inr (x ∷ v, given) ↦ rw (given, require_string) (search line_rules)
  ]

  pub read_config-AreLines : (env : Env) → AreLines (read_config std env).1
  unfolding read_config lacks codes
  read_config-AreLines env =
      search (line_rules, int-AreLines, int64-AreLines, duration-AreLines, required-AreLines) depth
        16
