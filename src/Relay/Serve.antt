-- ===== src/Relay/Serve.antt =====
-- cmd/relay/main.go: the second half of `run`, from the listeners to the shutdown, as what it does
-- one after the other. The two goroutines that serve appear as the one event that `select` takes.
pub mod Orderly
pub mod Failure
use cloudflare_smtp_relay.Shared.{
  Bool, not, ◌&&◌, ◌||◌, Option, none, some, List, [], ◌∷◌, ◌++◌, if◌then◌else◌,
}
use cloudflare_smtp_relay.Shared.Text.{Text, codes}
use cloudflare_smtp_relay.Email.Errors.{Fault, wrapped, fault_text, is_deadline_exceeded}

-- What `run` does to the two servers, and what it logs; a server serves from the start of its
-- goroutine.
pub data Action : Type 0 where
  binds_smtp : Action
  binds_health : Action
  closes_smtp : Action
  serves_smtp : Action
  serves_health : Action
  shuts_smtp : Action
  shuts_health : Action
  logs : Text → Action

-- What ends the wait: a signal, or what the first `Serve` that returns gives.
pub data Ending : Type 0 where
  signalled : Ending
  served : Option Fault → Ending

-- The outside: the errors of the two `Listen`, of the two `Shutdown`, the event, and whether an
-- error is `http.ErrServerClosed` or `net.ErrClosed`.
pub record World : Type 0 where
  pub listen_smtp : Option Fault
  pub listen_health : Option Fault
  pub shutdown_smtp : Option Fault
  pub shutdown_health : Option Fault
  pub ending : Ending
  pub is_server_closed : Fault → Bool
  pub is_net_closed : Fault → Bool

-- A warning for an error other than the deadline of the grace period.
abbrev warning : Text → Option Fault → List Action
warning what none = []
warning what (some e) =
    if is_deadline_exceeded e then [] else logs (what ++ (codes ": " ++ fault_text e)) ∷ []

unfoldable pub shutdown : World → List Action
shutdown world =
    shuts_smtp ∷ warning (codes "smtp shutdown") world.shutdown_smtp
    ++ shuts_health ∷ warning (codes "health shutdown") world.shutdown_health

-- The end of `run` where nothing failed.
abbrev stopped : World → List Action → List Action × Option Fault
stopped world done = (done ++ (shutdown world ++ logs (codes "relay stopped") ∷ []), none)

abbrev failed_serving : World → List Action → Fault → List Action × Option Fault
failed_serving world done e =
    if not (world.is_server_closed e) && not (world.is_net_closed e)
    then (done ++ shutdown world, some (wrapped (codes "serve: ") e []))
    else stopped world done

abbrev pub serve_with : World → Ending → List Action → List Action × Option Fault
serve_with world signalled done =
    stopped world (done ++ logs (codes "shutdown signal received") ∷ [])
serve_with world (served none) done = stopped world done
serve_with world (served (some e)) done = failed_serving world done e

-- `run` from `Listen` on: what it does, and its error.
unfoldable pub run_servers : World → List Action × Option Fault
unfolding shutdown
run_servers world = elim world.listen_smtp [
  | some e ↦ ([], some (wrapped (codes "listen smtp: ") e []))
  | none ↦ elim world.listen_health [
    | some e ↦ (binds_smtp ∷ closes_smtp ∷ [], some (wrapped (codes "listen health: ") e []))
    | none ↦ serve_with world world.ending (
        binds_smtp
        ∷ binds_health
        ∷ logs (codes "relay starting")
        ∷ serves_smtp
        ∷ serves_health
        ∷ [])
  ]
]
