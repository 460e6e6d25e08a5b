-- ===== src/Relay/Goroutines/Refines.antt =====
-- The goroutines of `run` (cmd/relay/main.go) and the sequential account of it: how they end.
use cloudflare_smtp_relay.Shared.{
  ◌≤◌, ◌≡◌, refl, ◌⊎◌, inl, inr, Bool, true, false, Option, none, some, List, [], ◌∷◌, ◌++◌, arith,
  ltb, length,
}
use cloudflare_smtp_relay.Email.Errors.{Fault}
use cloudflare_smtp_relay.Relay.Address.{Which, smtp, health}
use cloudflare_smtp_relay.Relay.Serve.{Ending, World, run_servers}
use cloudflare_smtp_relay.Relay.Goroutines.{
  Life, life_of, channel_capacity, with_life, serving, sending, ended, Main, waits, stops_smtp,
  stops_health, exits, Running, Move, returns, takes_signal, sends, takes_error, shuts_smtp,
  shuts_health, send_from, move, begun, run_moves,
}
use cloudflare_smtp_relay.Relay.Goroutines.Laws.{load, OfMain}
use cloudflare_smtp_relay.Relay.Goroutines.Reach.{reached-Inv}
use cloudflare_smtp_relay.Relay.Goroutines.Waiting.{ended_by, first_sent, EndsWait, waited-Ended}

-- In every schedule of the goroutines of run, with both listeners bound, where main exits: the
-- signal or the error that main takes first in the schedule ended the wait, and the error of main
-- is the one of the sequential account of run at that event. Where it is an error, it is the one
-- that the server returned whose goroutine sends first in the schedule.
pub exits-run_servers :
    (world : World) (moves : List Move) (t : Running) (r : Option Fault)
    → run_moves world moves begun ≡ some t
    → t.main ≡ exits r
    → (ending : Ending) × EndsWait (first_sent none none moves) moves ending
      × (r ≡ (run_servers (ended_by world ending)).1)
exits-run_servers world moves t r run exit = waited-Ended world moves begun t r refl run exit

-- Moves that the program makes by itself.
abbrev pub is_own : Move → Bool
is_own (returns who e) = false
is_own takes_signal = false
is_own (sends who) = true
is_own takes_error = true
is_own shuts_smtp = true
is_own shuts_health = true

abbrev pub IsExited : Main → Type 0
IsExited m = (r : Option Fault) × (m ≡ exits r)

-- `main` waits while both servers run.
abbrev pub IsIdle : Running → Type 0
IsIdle s = (s.main ≡ waits) × (s.smtp_life ≡ serving) × (s.health_life ≡ serving)

abbrev pub MovesOn : World → Running → Type 0
MovesOn world s = (m : Move) × (is_own m ≡ true) × (t : Running) × (move world m s ≡ some t)

abbrev Progress : World → Running → Type 0
Progress world s = IsExited s.main ⊎ (IsIdle s ⊎ MovesOn world s)

module _ (world : World) where
  waits-Progress :
      (a b : Life) (channel : List (Option Fault))
      → load a b channel ≡ 2
      → Progress world (record { smtp_life = a; health_life = b; channel = channel; main = waits })
  unfolding move
  waits-Progress a b (e ∷ rest) room = inr (inr (takes_error, refl, _, refl))
  waits-Progress serving serving [] room = inr (inl (refl, refl, refl))
  waits-Progress (sending e) b [] room = inr (inr (sends smtp, refl, _, refl))
  waits-Progress serving (sending e) [] room = inr (inr (sends health, refl, _, refl))
  waits-Progress serving ended [] room = absurd (omega arith)
  waits-Progress ended serving [] room = absurd (omega arith)
  waits-Progress ended (sending e) [] room = absurd (omega arith)
  waits-Progress ended ended [] room = absurd (omega arith)

  main-Progress :
      (a b : Life) (channel : List (Option Fault)) (m : Main)
      → OfMain world (load a b channel) m
      → Progress world (record { smtp_life = a; health_life = b; channel = channel; main = m })
  unfolding move
  main-Progress a b channel waits of = waits-Progress a b channel of
  main-Progress a b channel (stops_smtp ending) of = inr (inr (shuts_smtp, refl, _, refl))
  main-Progress a b channel (stops_health ending) of = inr (inr (shuts_health, refl, _, refl))
  main-Progress a b channel (exits r) of = inl (r, refl)

  -- In every schedule of the goroutines of run: main has exited, or it waits while both servers
  -- run, or the program has a move of its own; so it is never stuck once a server has returned or
  -- a signal has come.
  pub run_moves-MovesOn :
      (moves : List Move) (t : Running)
      → run_moves world moves begun ≡ some t
      → IsExited t.main ⊎ (IsIdle t ⊎ MovesOn world t)
  run_moves-MovesOn moves t run =
      let inv = reached-Inv world moves t run in
      main-Progress t.smtp_life t.health_life t.channel t.main inv.main_of

  send-room :
      (t : Running) (who : Which) (e : Option Fault)
      → load t.smtp_life t.health_life t.channel ≤ 2
      → life_of t who ≡ sending e
      → ltb (length t.channel) channel_capacity ≡ true
  send-room t smtp e room at_send = let full = rw at_send at room in ground arith
  send-room t health e room at_send = let full = rw at_send at room in ground arith

  -- In every schedule of the goroutines of run, a goroutine whose server has returned is never
  -- blocked on the channel, also when main no longer reads it.
  pub sends-moves :
      (moves : List Move) (t : Running) (who : Which) (e : Option Fault)
      → run_moves world moves begun ≡ some t
      → life_of t who ≡ sending e
      → (u : Running) × (move world (sends who) t ≡ some u)
  unfolding move
  sends-moves moves t who e run at_send =
      let inv = reached-Inv world moves t run in
      let free = send-room t who e inv.room at_send in
      (with_life t who ended (t.channel ++ e ∷ []), simp (at_send, send_from) (rw free refl))
