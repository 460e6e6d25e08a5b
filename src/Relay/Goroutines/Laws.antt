-- ===== src/Relay/Goroutines/Laws.antt =====
-- Laws of the goroutines of `run` (cmd/relay/main.go) under every schedule.
use cloudflare_smtp_relay.Shared.{
  ℕ, ◌+◌, ◌≤◌, ◌≡◌, inl, inr, Option, none, some, List, [], ◌∷◌, ◌++◌, arith, ltb, length,
  length-append, Bool-cases,
}
use cloudflare_smtp_relay.Email.Errors.{Fault}
use cloudflare_smtp_relay.Relay.Address.{Which, smtp, health}
use cloudflare_smtp_relay.Relay.Serve.{World}
use cloudflare_smtp_relay.Relay.Goroutines.{
  Life, serving, sending, ended, Main, waits, stops_smtp, stops_health, exits, Running, Move,
  returns, takes_signal, sends, takes_error, shuts_smtp, shuts_health, returned_for, move,
}

-- A goroutine has an error to send, now or later.
abbrev pub pending : Life → ℕ
pending serving = 1
pending (sending e) = 1
pending ended = 0

-- The errors that are in the channel, or are going to be.
abbrev pub load : Life → Life → List (Option Fault) → ℕ
load a b channel = length channel + (pending a + pending b)

module _ (world : World) where
  -- While `main` waits, no error has been taken out of the channel.
  abbrev pub OfMain : ℕ → Main → Type 0
  OfMain n waits = n ≡ 2
  OfMain n (stops_smtp r) = Unit
  OfMain n (stops_health r) = Unit
  OfMain n (exits r) = Unit

  pub record InvOf (a b : Life) (channel : List (Option Fault)) (m : Main) : Type 0 where
    pub room : load a b channel ≤ 2
    pub main_of : OfMain (load a b channel) m

  abbrev pub Inv : Running → Type 0
  Inv s = InvOf s.smtp_life s.health_life s.channel s.main

  abbrev pub IfSome : Option Running → Type 0
  IfSome none = Unit
  IfSome (some s) = Inv s

  module _ (channel : List (Option Fault)) (m : Main) where
    state : Life → Life → Running
    state a b = record { smtp_life = a; health_life = b; channel = channel; main = m }

    returned-Inv :
        (who : Which) (a b : Life) (e : Option Fault)
        → InvOf a b channel m
        → IfSome (move world (returns who e) (state a b))
    unfolding move state
    returned-Inv smtp serving b e inv = record { room = inv.room; main_of = inv.main_of }
    returned-Inv smtp (sending e') b e inv = tt
    returned-Inv smtp ended b e inv = tt
    returned-Inv health a serving e inv = record { room = inv.room; main_of = inv.main_of }
    returned-Inv health a (sending e') e inv = tt
    returned-Inv health a ended e inv = tt

    sent-Inv :
        (who : Which) (a b : Life)
        → InvOf a b channel m
        → IfSome (move world (sends who) (state a b))
    unfolding move state
    sent-Inv smtp (sending e) b inv = elim (Bool-cases (ltb (length channel) 2)) [
      | inr full ↦ rw full tt
      | inl free ↦
          let same : load ended b (channel ++ e ∷ []) ≡ load (sending e) b channel =
            omega (arith, length-append channel (e ∷ [])) in
          rw free (record { room = rw same inv.room; main_of = rw same inv.main_of })
    ]
    sent-Inv smtp serving b inv = tt
    sent-Inv smtp ended b inv = tt
    sent-Inv health a (sending e) inv = elim (Bool-cases (ltb (length channel) 2)) [
      | inr full ↦ rw full tt
      | inl free ↦
          let same : load a ended (channel ++ e ∷ []) ≡ load a (sending e) channel =
            omega (arith, length-append channel (e ∷ [])) in
          rw free (record { room = rw same inv.room; main_of = rw same inv.main_of })
    ]
    sent-Inv health a serving inv = tt
    sent-Inv health a ended inv = tt

  -- `main` goes on, with what was left of the channel.
  main-Inv :
      (a b : Life) (channel rest : List (Option Fault)) (m next : Main)
      → InvOf a b channel m
      → length rest ≤ length channel
      → OfMain (load a b rest) next
      → InvOf a b rest next
  main-Inv a b channel rest m next inv le of = record {
    room = let full = inv.room in omega arith;
    main_of = of;
  }

  module _ (a b : Life) where
    received-Inv :
        (channel : List (Option Fault)) (m : Main)
        → InvOf a b channel m
        → IfSome (move world takes_error (state channel m a b))
    unfolding move state
    received-Inv (e ∷ rest) waits inv =
        main-Inv a b (e ∷ rest) rest waits (stops_smtp (returned_for world e)) inv (omega arith) tt
    received-Inv [] waits inv = tt
    received-Inv channel (stops_smtp r) inv = tt
    received-Inv channel (stops_health r) inv = tt
    received-Inv channel (exits e) inv = tt

    own-Inv :
        (mv : Move) (channel : List (Option Fault)) (m : Main)
        → InvOf a b channel m
        → IfSome (move world mv (state channel m a b))
    unfolding move state
    own-Inv (returns who e) channel m inv = returned-Inv channel m who a b e inv
    own-Inv (sends who) channel m inv = sent-Inv channel m who a b inv
    own-Inv takes_error channel m inv = received-Inv channel m inv
    own-Inv takes_signal channel waits inv =
        main-Inv a b channel channel waits (stops_smtp none) inv (omega arith) tt
    own-Inv takes_signal channel (stops_smtp r) inv = tt
    own-Inv takes_signal channel (stops_health r) inv = tt
    own-Inv takes_signal channel (exits e) inv = tt
    own-Inv shuts_smtp channel (stops_smtp r) inv =
        main-Inv a b channel channel (stops_smtp r) (stops_health r) inv (omega arith) tt
    own-Inv shuts_smtp channel waits inv = tt
    own-Inv shuts_smtp channel (stops_health r) inv = tt
    own-Inv shuts_smtp channel (exits e) inv = tt
    own-Inv shuts_health channel (stops_health r) inv =
        main-Inv a b channel channel (stops_health r) (exits r) inv (omega arith) tt
    own-Inv shuts_health channel waits inv = tt
    own-Inv shuts_health channel (stops_smtp r) inv = tt
    own-Inv shuts_health channel (exits e) inv = tt

  pub move-Inv : (mv : Move) (s : Running) → Inv s → IfSome (move world mv s)
  unfolding state
  move-Inv mv s inv = own-Inv s.smtp_life s.health_life mv s.channel s.main inv
