-- ===== src/Relay/Goroutines.antt =====
-- cmd/relay/main.go: the end of `run` as three goroutines, the two that serve and the one of `main`,
-- with the channel `serveErr` between them. A move is what one of them does next.
pub mod Laws
pub mod Reach
pub mod Waiting
pub mod Refines
use cloudflare_smtp_relay.Shared.{
  ℕ, not, ◌&&◌, Option, none, some, List, [], ◌∷◌, ◌++◌, ltb, if◌then◌else◌, length,
}
use cloudflare_smtp_relay.Shared.Text.{codes}
use cloudflare_smtp_relay.Email.Errors.{Fault, wrapped}
use cloudflare_smtp_relay.Relay.Address.{Which, smtp, health}
use cloudflare_smtp_relay.Relay.Serve.{World}

-- A goroutine that serves: its server runs, or has returned an error that is still to be sent.
pub data Life : Type 0 where
  serving : Life
  sending : Option Fault → Life
  ended : Life

-- `main` waits in its `select`, shuts the servers down one after the other, and exits. It keeps
-- what `run` will return.
pub data Main : Type 0 where
  waits : Main
  stops_smtp : Option Fault → Main
  stops_health : Option Fault → Main
  exits : Option Fault → Main

-- The channel has its oldest error first.
pub record Running : Type 0 where
  pub smtp_life : Life
  pub health_life : Life
  pub channel : List (Option Fault)
  pub main : Main

abbrev pub life_of : Running → Which → Life
life_of s smtp = s.smtp_life
life_of s health = s.health_life

abbrev pub channel_capacity : ℕ
channel_capacity = 2

-- A server returns at any time, and a signal comes at any time. The others are the program's own.
pub data Move : Type 0 where
  returns : Which → Option Fault → Move
  takes_signal : Move
  sends : Which → Move
  takes_error : Move
  shuts_smtp : Move
  shuts_health : Move

abbrev pub with_life : Running → Which → Life → List (Option Fault) → Running
with_life s smtp life channel = record {
  smtp_life = life;
  health_life = s.health_life;
  channel = channel;
  main = s.main;
}
with_life s health life channel = record {
  smtp_life = s.smtp_life;
  health_life = life;
  channel = channel;
  main = s.main;
}

abbrev pub with_main : Running → List (Option Fault) → Main → Running
with_main s channel main = record {
  smtp_life = s.smtp_life;
  health_life = s.health_life;
  channel = channel;
  main = main;
}

abbrev return_from : Running → Which → Option Fault → Life → Option Running
return_from s who e serving = some (with_life s who (sending e) s.channel)
return_from s who e (sending e') = none
return_from s who e ended = none

-- A send waits while the channel is full.
abbrev pub send_from : Running → Which → Life → Option Running
send_from s who (sending e) =
    if ltb (length s.channel) channel_capacity
    then some (with_life s who ended (s.channel ++ e ∷ []))
    else none
send_from s who serving = none
send_from s who ended = none

-- What `run` returns for an error from the channel: nil, or the error of a server that died.
abbrev pub returned_for : World → Option Fault → Option Fault
returned_for world none = none
returned_for world (some e) =
    if not (world.is_server_closed e) && not (world.is_net_closed e)
    then some (wrapped (codes "serve: ") e [])
    else none

abbrev pub receive : World → Running → List (Option Fault) → Main → Option Running
receive world s (e ∷ rest) waits = some (with_main s rest (stops_smtp (returned_for world e)))
receive world s [] waits = none
receive world s channel (stops_smtp r) = none
receive world s channel (stops_health r) = none
receive world s channel (exits r) = none

abbrev signal : Running → Main → Option Running
signal s waits = some (with_main s s.channel (stops_smtp none))
signal s (stops_smtp r) = none
signal s (stops_health r) = none
signal s (exits r) = none

abbrev pub shut_smtp : Running → Main → Option Running
shut_smtp s (stops_smtp r) = some (with_main s s.channel (stops_health r))
shut_smtp s waits = none
shut_smtp s (stops_health r) = none
shut_smtp s (exits r) = none

abbrev pub shut_health : Running → Main → Option Running
shut_health s (stops_health r) = some (with_main s s.channel (exits r))
shut_health s waits = none
shut_health s (stops_smtp r) = none
shut_health s (exits r) = none

unfoldable pub move : World → Move → Running → Option Running
move world (returns who e) s = return_from s who e (life_of s who)
move world takes_signal s = signal s s.main
move world (sends who) s = send_from s who (life_of s who)
move world takes_error s = receive world s s.channel s.main
move world shuts_smtp s = shut_smtp s s.main
move world shuts_health s = shut_health s s.main

-- Both goroutines have been started.
abbrev pub begun : Running
begun = record { smtp_life = serving; health_life = serving; channel = []; main = waits }

unfoldable pub run_moves : World → List Move → Running → Option Running
unfolding move
run_moves world [] s = some s
run_moves world (m ∷ moves) s = elim (move world m s) [
  | none ↦ none
  | some t ↦ run_moves world moves t
]
