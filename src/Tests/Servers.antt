-- ===== src/Tests/Servers.antt =====
-- The theorems on the addresses of the servers, at one schedule of two goroutines.
use cloudflare_smtp_relay.Shared.{
  ℕ, zero, suc, ◌≡◌, refl, ◌⊎◌, true, false, none, some, List, [], ◌∷◌, All,
}
use cloudflare_smtp_relay.Shared.Text.{Text, codes, text_eq, is_empty}
use cloudflare_smtp_relay.Listening.{
  Call, serving, asking, unlock, State, step, Run, stay, then_step, start,
}
use cloudflare_smtp_relay.Listening.Discipline.{listeners}
use cloudflare_smtp_relay.Listening.Invariant.{IsKnown}
use cloudflare_smtp_relay.Listening.Laws.{locks, Moves}
use cloudflare_smtp_relay.Smtp
use cloudflare_smtp_relay.Email.Errors.{Fault, outside, wrapped}
use cloudflare_smtp_relay.Relay.Serve.{Ending, served, World, run_servers}
use cloudflare_smtp_relay.Relay.Goroutines.{
  Running, Move, returns, sends, takes_error, shuts_smtp, shuts_health, move, begun, run_moves,
}
use cloudflare_smtp_relay.Relay.Goroutines.Waiting.{ended_by, first_sent, EndsWait}
use cloudflare_smtp_relay.Relay.Goroutines.Refines.{
  exits-run_servers, IsExited, IsIdle, MovesOn, run_moves-MovesOn, sends-moves,
}
use cloudflare_smtp_relay.Relay.Address.{
  smtp, body_of, answers-IsKnown, answer-served, accesses-exclusive, step-Moves,
}

abbrev bound : Text
bound = codes "10.0.0.1:2525"

-- The first goroutine serves, and the second asks for the address.
abbrev calls : ℕ → List Call
calls zero = serving bound ∷ []
calls (suc zero) = asking ∷ []
calls (suc (suc i)) = []

abbrev IsBound : Text → Type 0
IsBound a = text_eq a bound ≡ true

IsBound-nonempty : (a : Text) → IsBound a → is_empty a ≡ false
unfolding text_eq codes
IsBound-nonempty [] h = absurd (cc h)
IsBound-nonempty (c ∷ a) h = refl

listeners-IsBound : (i : ℕ) → All IsBound (listeners (calls i))
unfolding text_eq codes
listeners-IsBound zero = (refl, tt)
listeners-IsBound (suc zero) = tt
listeners-IsBound (suc (suc i)) = tt

listeners-nonempty : (i : ℕ) → All (λ a. is_empty a ≡ false) (listeners (calls i))
unfolding codes
listeners-nonempty zero = (refl, tt)
listeners-nonempty (suc zero) = tt
listeners-nonempty (suc (suc i)) = tt

abbrev moved : ℕ → State → State
moved i s = elim (step i s) [ some t ↦ t | none ↦ s ]

abbrev first : State
first = start (body_of smtp) calls

abbrev locked_by_first : State
locked_by_first = moved 0 first

at_lock : Run first locked_by_first
unfolding step Smtp.Server.serve
at_lock = then_step 0 stay refl

step-Moves_example :
    Moves locked_by_first 1
    ⊎ ((locks (locked_by_first.todo 1) ≡ true)
        × (h : ℕ) × (locked_by_first.holder ≡ some h)
        × Moves locked_by_first h)
unfolding step Smtp.Server.serve Smtp.Server.addr
step-Moves_example = step-Moves smtp calls locked_by_first listeners-nonempty at_lock 1 refl

-- The first goroutine is serving, and the second has the mutex.
abbrev about_to_read : State
about_to_read = moved 1 (moved 0 (moved 0 (moved 0 locked_by_first)))

at_read : Run first about_to_read
unfolding step Smtp.Server.serve Smtp.Server.addr
at_read = then_step 1 (then_step 0 (then_step 0 (then_step 0 at_lock refl) refl) refl) refl

abbrev reading : ℕ
reading = 1

accesses-exclusive_example : (reading ≡ reading) × (about_to_read.holder ≡ some 1)
unfolding step Smtp.Server.serve Smtp.Server.addr
accesses-exclusive_example =
    accesses-exclusive smtp calls about_to_read listeners-nonempty at_read reading reading refl refl

answer-served_example :
    (u : State) × (step 1 about_to_read ≡ some u)
    × (u.answers 1 ≡ about_to_read.addr ∷ about_to_read.answers 1)
    × IsBound about_to_read.addr
unfolding step Smtp.Server.serve Smtp.Server.addr
answer-served_example =
    answer-served smtp calls IsBound about_to_read 1 (unlock ∷ []) IsBound-nonempty
      listeners-IsBound at_read refl refl

abbrev has_read : State
has_read = moved 1 about_to_read

past_read : Run first has_read
unfolding step Smtp.Server.serve Smtp.Server.addr
past_read = then_step 1 at_read refl

answers-IsKnown_example : All (IsKnown IsBound) (has_read.answers 1)
answers-IsKnown_example =
    answers-IsKnown smtp calls IsBound has_read IsBound-nonempty listeners-IsBound past_read 1

-- The SMTP server fails, and the program ends.
abbrev address_lost : Fault
address_lost = outside (codes "address lost")

abbrev world : World
world = record {
  listen_smtp = none;
  listen_health = none;
  shutdown_smtp = none;
  shutdown_health = none;
  ending = served (some address_lost);
  is_server_closed = λ e. false;
  is_net_closed = λ e. false;
}

abbrev moves : List Move
moves = returns smtp (some address_lost) ∷ sends smtp ∷ takes_error ∷ shuts_smtp ∷ shuts_health ∷ []

abbrev reached : List Move → Running
reached ms = elim (run_moves world ms begun) [ some t ↦ t | none ↦ begun ]

exits-run_servers_example :
    (ending : Ending) × EndsWait (first_sent none none moves) moves ending
    × (some (wrapped (codes "serve: ") address_lost []) ≡ (run_servers (ended_by world ending)).1)
unfolding run_moves move
exits-run_servers_example =
    exits-run_servers world moves (reached moves) (some (wrapped (codes "serve: ") address_lost []))
      refl refl

abbrev to_send : Running
to_send = reached (returns smtp (some address_lost) ∷ [])

run_moves-MovesOn_example : IsExited to_send.main ⊎ (IsIdle to_send ⊎ MovesOn world to_send)
unfolding run_moves move
run_moves-MovesOn_example =
    run_moves-MovesOn world (returns smtp (some address_lost) ∷ []) to_send refl

sends-moves_example : (u : Running) × (move world (sends smtp) to_send ≡ some u)
unfolding run_moves move
sends-moves_example =
    sends-moves world (returns smtp (some address_lost) ∷ []) to_send smtp (some address_lost) refl
      refl
