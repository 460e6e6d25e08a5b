-- ===== src/Relay/Command.antt =====
-- cmd/relay/main.go: `run` as a whole, and `main` with its flags, its output and its exit status.
use cloudflare_smtp_relay.Shared.{
  ℕ, ◌≡◌, refl, ◌↔◌, ◌⊎◌, inl, inr, Bool, true, false, Option, none, some, List, [], ◌∷◌, ◌++◌,
  if◌then◌else◌, Bool-cases, arith,
}
use cloudflare_smtp_relay.Shared.Text.{Text, codes}
use cloudflare_smtp_relay.Email.Errors.{Fault, fault_text, Fallible, ok, failed, Fallible-cases}
use cloudflare_smtp_relay.Config.{Standard, Env}
use cloudflare_smtp_relay.Logging.{Level}
use cloudflare_smtp_relay.Health.{Client}
use cloudflare_smtp_relay.Relay.{Started, start, run_healthcheck}
use cloudflare_smtp_relay.Relay.Serve.{Action, World, run_servers}
use cloudflare_smtp_relay.Relay.Serve.Failure.{is_unexpected, run_servers-eq-none_iff}

pub record Flags : Type 0 where
  pub healthcheck : Bool
  pub show_version : Bool

pub record Exit : Type 0 where
  pub code : ℕ
  pub stdout : Text
  pub stderr : Text

-- `fmt.Println` of two operands has a space between them.
abbrev reported : Text → Option Fault → Exit
reported what none = record { code = 0; stdout = []; stderr = [] }
reported what (some e) = record {
  code = 1;
  stdout = [];
  stderr = what ++ b' ' ∷ fault_text e ++ b'\n' ∷ [];
}

module _ {Cert Gen Now : Type 0} (std : Standard) (load_pair : Text → Text → Fallible Cert)
    (log : Level) (gen : Gen) (clock : Now) (client : Client) (env : Env) (world : World) where
  -- What `run` does to the two servers, and its error.
  unfoldable pub run : List Action × Option Fault
  run = elim (start std load_pair log gen clock env) [
    | failed e ↦ ([], some e)
    | ok started ↦ run_servers world
  ]

  unfoldable pub main : Text → Flags → Exit
  unfolding run
  main version flags =
      if flags.show_version
      then record { code = 0; stdout = version ++ b'\n' ∷ []; stderr = [] }
      else if flags.healthcheck
      then reported (codes "healthcheck failed:") (run_healthcheck std env client)
      else reported (codes "fatal:") run.1

  -- The environment makes a server, both listeners are bound, and the wait ends as it may.
  abbrev pub RunsWell : Type 0
  RunsWell =
      ((started : Started Cert Gen Now) × (start std load_pair log gen clock env ≡ ok started))
      × (world.listen_smtp ≡ none)
      × (world.listen_health ≡ none)
      × (is_unexpected world world.ending ≡ false)

  run-eq-none_iff : (run.1 ≡ none) ↔ RunsWell
  unfolding run
  run-eq-none_iff = elim (Fallible-cases (start std load_pair log gen clock env)) [
    | inr (e, bad) ↦ (
      λ h. absurd (cc (rw (bad, run) at h)),
      λ (made, smtp, health, expected). absurd (cc (bad, made.1)),
    )
    | inl (started, good) ↦ (
      λ h.
          let (smtp, health, expected) = (run_servers-eq-none_iff world).0 (rw (good, run) at h) in
          ((started, good), smtp, health, expected),
      λ (made, smtp, health, expected).
          rw (good, run) ((run_servers-eq-none_iff world).1 (smtp, health, expected)),
    )
  ]

  -- What the flags ask for succeeds.
  abbrev pub Succeeds : Flags → Type 0
  Succeeds flags =
      (flags.show_version ≡ true)
      ⊎ ((flags.show_version ≡ false)
          × (((flags.healthcheck ≡ true) × (run_healthcheck std env client ≡ none))
              ⊎ ((flags.healthcheck ≡ false) × RunsWell)))

  reported-code : (what : Text) (e : Option Fault) → ((reported what e).code ≡ 0) ↔ (e ≡ none)
  reported-code what none = ground arith
  reported-code what (some e) = ground arith

  probe_of :
      {flags : Flags}
      → Succeeds flags
      → flags.show_version ≡ false
      → flags.healthcheck ≡ true
      → run_healthcheck std env client ≡ none
  probe_of (inl shown) hidden probes = absurd (cc (shown, hidden))
  probe_of (inr (_, inl (_, answered))) hidden probes = answered
  probe_of (inr (_, inr (serves, _))) hidden probes = absurd (cc (serves, probes))

  run_of :
      {flags : Flags}
      → Succeeds flags
      → flags.show_version ≡ false
      → flags.healthcheck ≡ false
      → RunsWell
  run_of (inl shown) hidden serves = absurd (cc (shown, hidden))
  run_of (inr (_, inl (probes, _))) hidden serves = absurd (cc (serves, probes))
  run_of (inr (_, inr (_, well))) hidden serves = well

  -- The program exits with status 0 exactly if it is asked for its version, or it is asked for the
  -- probe and the probe succeeds, or it is asked for neither, the environment makes a server, both
  -- listeners can be bound, and a signal or an error that a shutdown causes, or none, ends the
  -- wait.
  pub main-code_iff :
      (version : Text) (flags : Flags) → ((main version flags).code ≡ 0) ↔ Succeeds flags
  unfolding main
  main-code_iff version flags = elim (Bool-cases flags.show_version) [
    | inl shown ↦ (λ _. inl shown, λ _. simp (shown, main) refl)
    | inr hidden ↦ elim (Bool-cases flags.healthcheck) [
      | inl probes ↦
          let code = reported-code (codes "healthcheck failed:") (run_healthcheck std env client) in
          (
            λ h. inr (hidden, inl (probes, code.0 (simp (hidden, probes, main) at h))),
            λ w. simp (hidden, probes, main) (code.1 (probe_of w hidden probes)),
          )
      | inr serves ↦
          let code = reported-code (codes "fatal:") run.1 in
          (
            λ h. inr (
              hidden,
              inr (serves, run-eq-none_iff.0 (code.0 (simp (hidden, serves, main) at h))),
            ),
            λ w. simp (hidden, serves, main) (code.1 (run-eq-none_iff.1 (run_of w hidden serves))),
          )
    ]
  ]
