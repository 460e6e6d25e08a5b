-- ===== src/Relay/Goroutines/Waiting.antt =====
-- The goroutine of `main` (cmd/relay/main.go, `run`) in a schedule: what ends its wait, and what it
-- returns.
use cloudflare_smtp_relay.Shared.{
  ◌≡◌, refl, ap, sym, ◌∙◌, inl, inr, not, ◌&&◌, Option, none, some, List, [], ◌∷◌, arith, ltb,
  length, Bool-cases, Option-cases,
}
use cloudflare_smtp_relay.Email.Errors.{Fault}
use cloudflare_smtp_relay.Relay.Address.{Which, smtp, health}
use cloudflare_smtp_relay.Relay.Serve.{Ending, signalled, served, World, run_servers}
use cloudflare_smtp_relay.Relay.Goroutines.{
  Life, channel_capacity, serving, sending, ended, Main, waits, stops_smtp, stops_health, exits,
  Running, Move, returns, takes_signal, sends, takes_error, shuts_smtp, shuts_health, returned_for,
  move, run_moves,
}

-- A world with both listeners bound, where the wait ends as given.
abbrev pub ended_by : World → Ending → World
ended_by world ending = record {
  listen_smtp = none;
  listen_health = none;
  shutdown_smtp = world.shutdown_smtp;
  shutdown_health = world.shutdown_health;
  ending = ending;
  is_server_closed = world.is_server_closed;
  is_net_closed = world.is_net_closed;
}

-- The error of the goroutine that sends first in a schedule: the first that its server returned. The
-- two errors are those that the servers have returned before.
abbrev pub first_sent :
    Option (Option Fault) → Option (Option Fault) → List Move → Option (Option Fault)
first_sent a b [] = none
first_sent none b (returns smtp e ∷ moves) = first_sent (some e) b moves
first_sent (some e') b (returns smtp e ∷ moves) = first_sent (some e') b moves
first_sent a none (returns health e ∷ moves) = first_sent a (some e) moves
first_sent a (some e') (returns health e ∷ moves) = first_sent a (some e') moves
first_sent a b (sends smtp ∷ moves) = a
first_sent a b (sends health ∷ moves) = b
first_sent a b (takes_signal ∷ moves) = first_sent a b moves
first_sent a b (takes_error ∷ moves) = first_sent a b moves
first_sent a b (shuts_smtp ∷ moves) = first_sent a b moves
first_sent a b (shuts_health ∷ moves) = first_sent a b moves

-- What ends the wait in a schedule, the signal or the first error, whichever `main` takes first.
abbrev pub EndsWait : Option (Option Fault) → List Move → Ending → Type 0
EndsWait first [] ending = ⊥
EndsWait first (takes_signal ∷ moves) ending = ending ≡ signalled
EndsWait first (takes_error ∷ moves) ending =
    (e : Option Fault) × (first ≡ some e) × (ending ≡ served e)
EndsWait first (returns who e ∷ moves) ending = EndsWait first moves ending
EndsWait first (sends who ∷ moves) ending = EndsWait first moves ending
EndsWait first (shuts_smtp ∷ moves) ending = EndsWait first moves ending
EndsWait first (shuts_health ∷ moves) ending = EndsWait first moves ending

EndsWait-first :
    (first other : Option (Option Fault)) (moves : List Move) (ending : Ending)
    → first ≡ other
    → EndsWait other moves ending
    → EndsWait first moves ending
EndsWait-first first other moves ending same ends = rw same ends

served-run_servers :
    (world : World) (e : Option Fault)
    → returned_for world e ≡ (run_servers (ended_by world (served e))).1
unfolding run_servers
served-run_servers world none = refl
served-run_servers world (some e) =
    elim (Bool-cases (not (world.is_server_closed e) && not (world.is_net_closed e))) [
      | inl unexpected ↦ rw unexpected refl
      | inr expected ↦ rw expected refl
    ]

signalled-run_servers : (world : World) → none ≡ (run_servers (ended_by world signalled)).1
unfolding run_servers
signalled-run_servers world = refl

-- What `run` will return, once the wait is over.
abbrev outcome_of : Main → Option (Option Fault)
outcome_of waits = none
outcome_of (stops_smtp r) = some r
outcome_of (stops_health r) = some r
outcome_of (exits r) = some r

-- The error that a goroutine is about to send.
abbrev held_by : Life → Option (Option Fault)
held_by serving = none
held_by (sending e) = some e
held_by ended = none

-- The error that `main` takes next, if it waits.
abbrev head_of : Life → Life → List (Option Fault) → List Move → Option (Option Fault)
head_of a b (e ∷ rest) moves = some e
head_of a b [] moves = first_sent (held_by a) (held_by b) moves

abbrev head_in : Running → List Move → Option (Option Fault)
head_in s moves = head_of s.smtp_life s.health_life s.channel moves

abbrev SameHead : Move → Running → Running → Type 0
SameHead mv s u = (moves : List Move) → head_in s (mv ∷ moves) ≡ head_in u moves

module _ (world : World) where
  -- What a move makes of `main`.
  abbrev Next : Move → Running → Running → Type 0
  Next (returns who e) s u = (u.main ≡ s.main) × SameHead (returns who e) s u
  Next (sends who) s u = (u.main ≡ s.main) × SameHead (sends who) s u
  Next takes_signal s u = (s.main ≡ waits) × (u.main ≡ stops_smtp none)
  Next takes_error s u =
      (s.main ≡ waits)
      × (e : Option Fault) × ((moves : List Move) → head_in s (takes_error ∷ moves) ≡ some e)
      × (u.main ≡ stops_smtp (returned_for world e))
  Next shuts_smtp s u = (r : Option Fault) × (s.main ≡ stops_smtp r) × (u.main ≡ stops_health r)
  Next shuts_health s u = (r : Option Fault) × (s.main ≡ stops_health r) × (u.main ≡ exits r)

  abbrev IfMoved : Move → Running → Option Running → Type 0
  IfMoved mv s none = Unit
  IfMoved mv s (some u) = Next mv s u

  state : Life → Life → List (Option Fault) → Main → Running
  state a b channel m = record { smtp_life = a; health_life = b; channel = channel; main = m }

  returned-Next :
      (who : Which) (a b : Life) (channel : List (Option Fault)) (m : Main) (e : Option Fault)
      → IfMoved
          (returns who e)
          (state a b channel m)
          (move world (returns who e) (state a b channel m))
  unfolding move state
  returned-Next smtp serving b [] m e = (refl, λ moves. refl)
  returned-Next smtp serving b (c ∷ channel) m e = (refl, λ moves. refl)
  returned-Next smtp (sending e') b channel m e = tt
  returned-Next smtp ended b channel m e = tt
  returned-Next health a serving [] m e = (refl, λ moves. refl)
  returned-Next health a serving (c ∷ channel) m e = (refl, λ moves. refl)
  returned-Next health a (sending e') channel m e = tt
  returned-Next health a ended channel m e = tt

  sent-Next :
      (who : Which) (a b : Life) (channel : List (Option Fault)) (m : Main)
      → IfMoved (sends who) (state a b channel m) (move world (sends who) (state a b channel m))
  unfolding move state
  sent-Next smtp serving b channel m = tt
  sent-Next smtp ended b channel m = tt
  sent-Next smtp (sending e) b [] m = (refl, λ moves. refl)
  sent-Next smtp (sending e) b (c ∷ channel) m =
      elim (Bool-cases (ltb (length (c ∷ channel)) channel_capacity)) [
        | inl free ↦ rw free (refl, λ moves. refl)
        | inr full ↦ rw full tt
      ]
  sent-Next health a serving channel m = tt
  sent-Next health a ended channel m = tt
  sent-Next health a (sending e) [] m = (refl, λ moves. refl)
  sent-Next health a (sending e) (c ∷ channel) m =
      elim (Bool-cases (ltb (length (c ∷ channel)) channel_capacity)) [
        | inl free ↦ rw free (refl, λ moves. refl)
        | inr full ↦ rw full tt
      ]

  own-Next :
      (mv : Move) (a b : Life) (channel : List (Option Fault)) (m : Main)
      → IfMoved mv (state a b channel m) (move world mv (state a b channel m))
  unfolding move state
  own-Next (returns who e) a b channel m = returned-Next who a b channel m e
  own-Next (sends who) a b channel m = sent-Next who a b channel m
  own-Next takes_signal a b channel waits = (refl, refl)
  own-Next takes_signal a b channel (stops_smtp r) = tt
  own-Next takes_signal a b channel (stops_health r) = tt
  own-Next takes_signal a b channel (exits r) = tt
  own-Next takes_error a b (e ∷ rest) waits = (refl, e, λ moves. refl, refl)
  own-Next takes_error a b [] waits = tt
  own-Next takes_error a b channel (stops_smtp r) = tt
  own-Next takes_error a b channel (stops_health r) = tt
  own-Next takes_error a b channel (exits r) = tt
  own-Next shuts_smtp a b channel (stops_smtp r) = (r, refl, refl)
  own-Next shuts_smtp a b channel waits = tt
  own-Next shuts_smtp a b channel (stops_health r) = tt
  own-Next shuts_smtp a b channel (exits r) = tt
  own-Next shuts_health a b channel (stops_health r) = (r, refl, refl)
  own-Next shuts_health a b channel waits = tt
  own-Next shuts_health a b channel (stops_smtp r) = tt
  own-Next shuts_health a b channel (exits r) = tt

  move-Next : (mv : Move) (s : Running) → IfMoved mv s (move world mv s)
  unfolding state
  move-Next mv s = own-Next mv s.smtp_life s.health_life s.channel s.main

  decided-Next :
      (mv : Move) (s u : Running) (r : Option Fault)
      → Next mv s u
      → outcome_of s.main ≡ some r
      → outcome_of u.main ≡ some r
  decided-Next (returns who e) s u r next d = ap outcome_of next.0 ∙ d
  decided-Next (sends who) s u r next d = ap outcome_of next.0 ∙ d
  decided-Next takes_signal s u r next d = absurd (cc (sym (ap outcome_of next.0) ∙ d))
  decided-Next takes_error s u r next d = absurd (cc (sym (ap outcome_of next.0) ∙ d))
  decided-Next shuts_smtp s u r (r', before, after) d =
      ap outcome_of after ∙ (sym (ap outcome_of before) ∙ d)
  decided-Next shuts_health s u r (r', before, after) d =
      ap outcome_of after ∙ (sym (ap outcome_of before) ∙ d)

  -- A schedule that is not empty makes its first move.
  run_moves-cons :
      (mv : Move) (moves : List Move) (s t : Running)
      → run_moves world (mv ∷ moves) s ≡ some t
      → (u : Running) × Next mv s u × (run_moves world moves u ≡ some t)
  unfolding run_moves
  run_moves-cons mv moves s t run = elim (Option-cases (move world mv s)) [
    | inl stuck ↦ absurd (cc (rw (stuck, run_moves) at run))
    | inr (u, moved) ↦ (u, rw moved at (move-Next mv s), rw (moved, run_moves) at run)
  ]

  decided :
      (moves : List Move) (s t : Running) (r r' : Option Fault)
      → outcome_of s.main ≡ some r
      → run_moves world moves s ≡ some t
      → t.main ≡ exits r'
      → r' ≡ r
  unfolding run_moves
  decided [] s t r r' d run exit =
      let same : s ≡ t = ground (arith, run) in
      let out : some r' ≡ some r = rw (same, exit) at d in ground (arith, out)
  decided (mv ∷ moves) s t r r' d run exit =
      let (u, next, rest) = run_moves-cons mv moves s t run in
      decided moves u t r r' (decided-Next mv s u r next d) rest exit

  -- An event that ended the wait, and the error of the sequential account at it.
  abbrev pub Ended : Option (Option Fault) → List Move → Option Fault → Type 0
  Ended first moves r =
      (ending : Ending) × EndsWait first moves ending
      × (r ≡ (run_servers (ended_by world ending)).1)

  Ended-cons :
      (mv : Move) (moves : List Move) (s u : Running) (r : Option Fault)
      → Next mv s u
      → s.main ≡ waits
      → (u.main ≡ waits → Ended (head_in u moves) moves r)
      → ((r' : Option Fault) → outcome_of u.main ≡ some r' → r ≡ r')
      → Ended (head_in s (mv ∷ moves)) (mv ∷ moves) r
  Ended-cons (returns who e) moves s u r (kept, heads) waiting later over =
      let (ending, ends, same) = later (kept ∙ waiting) in
      (ending, EndsWait-first _ _ moves ending (heads moves) ends, same)
  Ended-cons (sends who) moves s u r (kept, heads) waiting later over =
      let (ending, ends, same) = later (kept ∙ waiting) in
      (ending, EndsWait-first _ _ moves ending (heads moves) ends, same)
  Ended-cons takes_signal moves s u r (was, after) waiting later over =
      (signalled, refl, over none (ap outcome_of after) ∙ signalled-run_servers world)
  Ended-cons takes_error moves s u r (was, e, head, after) waiting later over = (
    served e,
    (e, head moves, refl),
    over (returned_for world e) (ap outcome_of after) ∙ served-run_servers world e,
  )
  Ended-cons shuts_smtp moves s u r (r', before, after) waiting later over =
      absurd (cc (sym before ∙ waiting))
  Ended-cons shuts_health moves s u r (r', before, after) waiting later over =
      absurd (cc (sym before ∙ waiting))

  pub waited-Ended :
      (moves : List Move) (s t : Running) (r : Option Fault)
      → s.main ≡ waits
      → run_moves world moves s ≡ some t
      → t.main ≡ exits r
      → Ended (head_in s moves) moves r
  unfolding run_moves
  waited-Ended [] s t r waiting run exit =
      let same : s ≡ t = ground (arith, run) in absurd (cc (rw (same, exit) at waiting))
  waited-Ended (mv ∷ moves) s t r waiting run exit =
      let (u, next, rest) = run_moves-cons mv moves s t run in
      Ended-cons mv moves s u r next waiting (λ still. waited-Ended moves u t r still rest exit)
        (λ r' d. decided moves u t r' r d rest exit)
