-- ===== src/Config/Problems/Reported.antt =====
-- internal/config: the error of `loadFrom` and its lines.
use cloudflare_smtp_relay.Shared.{
  ◌≡◌, refl, ap, sym, ◌∙◌, inl, inr, map, false, List, [], ◌∷◌, ◌++◌, All, Bool-cases,
}
use cloudflare_smtp_relay.Shared.Text.{
  Text, is_empty, is_empty_iff, split, joined, Lacks, split-joined,
}
use cloudflare_smtp_relay.Email.Errors.{fault_text, Fallible, ok, failed}
use cloudflare_smtp_relay.Config.{Standard, Config, Env}
use cloudflare_smtp_relay.Config.Load.{read_config, check_config, aggregate_error, load_from}
use cloudflare_smtp_relay.Config.Problems.Rules.{wrong_keys, before_colon}
use cloudflare_smtp_relay.Config.Problems.Keys.{keys-problems}
use cloudflare_smtp_relay.Config.Problems.{
  IsLine, AreLines, AreLines-append, Printable, check_config-AreLines, read_config-AreLines,
}

-- All that is wrong with an environment: first what cannot be read, then what is out of bounds.
abbrev pub problems : Standard → Env → List Text
problems std env = (read_config std env).1 ++ check_config std env (read_config std env).0

aggregate_error-joined : (ps : List Text) → aggregate_error ps ≡ joined b'\n' ps
unfolding aggregate_error joined
aggregate_error-joined [] = refl
aggregate_error-joined (p ∷ []) = refl
aggregate_error-joined (p ∷ q ∷ ps) = ap (λ t. p ++ b'\n' ∷ t) (aggregate_error-joined (q ∷ ps))

IsLine-Lacks : (ps : List Text) → All IsLine ps → All (Lacks b'\n') ps
IsLine-Lacks [] h = tt
IsLine-Lacks (p ∷ ps) h = (h.0.unbroken, IsLine-Lacks ps h.1)

split-aggregate_error :
    (ps : List Text) → AreLines ps → is_empty ps ≡ false → split (aggregate_error ps) b'\n' ≡ ps
split-aggregate_error [] lines full = absurd (cc full)
split-aggregate_error (p ∷ ps) lines full =
    rw (aggregate_error-joined (p ∷ ps))
      (split-joined b'\n' p ps (IsLine-Lacks (p ∷ ps) lines.each))

is_empty-map : (ps : List Text) → is_empty (map before_colon ps) ≡ is_empty ps
is_empty-map [] = refl
is_empty-map (p ∷ ps) = refl

-- A configuration, and nothing is wrong; or an error, something is wrong, and the lines of the error
-- name the variables that are wrong, in their order.
abbrev pub IsReported : Fallible Config → List Text → Type 0
IsReported (ok c) wrong = wrong ≡ []
IsReported (failed e) wrong =
    (is_empty wrong ≡ false) × (map before_colon (split (fault_text e) b'\n') ≡ wrong)

module _ (std : Standard) (printable : Printable std) (env : Env) where
  problems-AreLines : AreLines (problems std env)
  problems-AreLines =
      AreLines-append (read_config std env).1 (check_config std env (read_config std env).0)
        (read_config-AreLines std printable env)
        (check_config-AreLines std printable env (read_config std env).0)

  problems-nonempty : is_empty (problems std env) ≡ false → is_empty (wrong_keys std env) ≡ false
  problems-nonempty wrong =
      ap is_empty (sym (keys-problems std env)) ∙ is_empty-map (problems std env) ∙ wrong

  -- Either a configuration is loaded, and no rule is broken; or loading fails, some rule is
  -- broken, and the lines of the error name, before their first colon, the variables whose rules
  -- are broken, all of them, in the order of the rules, and no other. The rules are, one by one,
  -- those of each variable that must be set or must be readable, and those of the values as they
  -- are read: the ports, the limits, the pair of the TLS files, the level, the transport and what
  -- it needs. An empty CLOUDFLARE_API_BASE_URL breaks none of them. What the problems quote is
  -- assumed to be printed without line breaks.
  pub load_from-problems : IsReported (load_from std env) (wrong_keys std env)
  unfolding load_from fault_text
  load_from-problems = elim (Bool-cases (is_empty (problems std env))) [
    | inl fine ↦
        rw (fine, load_from)
          (sym (keys-problems std env) ∙ rw ((is_empty_iff (problems std env)).0 fine) refl)
    | inr wrong ↦
        rw (wrong, load_from)
          (
            problems-nonempty wrong,
            rw (split-aggregate_error (problems std env) problems-AreLines wrong)
                (keys-problems std env),
          )
  ]
