-- ===== src/Relay/Serve/Orderly.antt =====
-- Laws of `run` and `shutdown` (cmd/relay/main.go): the order of actions, as a step relation.
use cloudflare_smtp_relay.Shared.{
  ◌≡◌, refl, ◌⊎◌, inl, inr, not, ◌&&◌, Option, none, some, List, [], ◌∷◌, ◌++◌, Bool-cases,
  Option-cases,
}
use cloudflare_smtp_relay.Shared.Text.{Text}
use cloudflare_smtp_relay.Email.Errors.{Fault, is_deadline_exceeded}
use cloudflare_smtp_relay.Relay.Serve.{
  Action, binds_smtp, binds_health, closes_smtp, serves_smtp, serves_health, shuts_smtp,
  shuts_health, logs, Ending, signalled, served, World, warning, shutdown, stopped, serve_with,
  run_servers,
}

-- How far a server has come.
pub data Phase : Type 0 where
  down bound serving gone : Phase

-- The two servers, SMTP first.
abbrev pub Phases : Type 0
Phases = Phase × Phase

-- The actions that are in order: both listeners are bound before either server serves, a server is
-- shut down while it serves, and the health server only when the SMTP server is gone.
pub data Step : Phases → Action → Phases → Type 0 where
  bind_smtp : {h : Phase} → Step (down, h) binds_smtp (bound, h)
  bind_health : Step (bound, down) binds_health (bound, bound)
  close_smtp : {h : Phase} → Step (bound, h) closes_smtp (gone, h)
  serve_smtp : Step (bound, bound) serves_smtp (serving, bound)
  serve_health : Step (serving, bound) serves_health (serving, serving)
  shut_smtp : {h : Phase} → Step (serving, h) shuts_smtp (gone, h)
  shut_health : Step (gone, serving) shuts_health (gone, gone)
  log : {p : Phases} {s : Text} → Step p (logs s) p

pub data Steps : Phases → List Action → Phases → Type 0 where
  finished : {p : Phases} → Steps p [] p
  next_step :
      {p q r : Phases} {a : Action} {acts : List Action}
      → Step p a q
      → Steps q acts r
      → Steps p (a ∷ acts) r

Steps-append :
    {p q r : Phases} {acts more : List Action}
    → Steps p acts q
    → Steps q more r
    → Steps p (acts ++ more) r
Steps-append finished t = t
Steps-append (next_step s ss) t = next_step s (Steps-append ss t)

warning-Steps : {p : Phases} (what : Text) (e : Option Fault) → Steps p (warning what e) p
warning-Steps what none = finished
warning-Steps what (some e) = elim (Bool-cases (is_deadline_exceeded e)) [
  | inl late ↦ rw late finished
  | inr other ↦ rw other (next_step log finished)
]

shutdown-Steps : (world : World) → Steps (serving, serving) (shutdown world) (gone, gone)
unfolding shutdown
shutdown-Steps world = next_step shut_smtp (
    Steps-append (warning-Steps _ world.shutdown_smtp)
      (next_step shut_health (warning-Steps _ world.shutdown_health)))

stopped-Steps :
    (world : World) {acts : List Action}
    → Steps (down, down) acts (serving, serving)
    → Steps (down, down) (stopped world acts).0 (gone, gone)
stopped-Steps world run =
    Steps-append run (Steps-append (shutdown-Steps world) (next_step log finished))

serve_with-Steps :
    (world : World) (ending : Ending) {acts : List Action}
    → Steps (down, down) acts (serving, serving)
    → Steps (down, down) (serve_with world ending acts).0 (gone, gone)
serve_with-Steps world signalled run =
    stopped-Steps world (Steps-append run (next_step log finished))
serve_with-Steps world (served none) run = stopped-Steps world run
serve_with-Steps world (served (some e)) run =
    elim (Bool-cases (not (world.is_server_closed e) && not (world.is_net_closed e))) [
      | inl unexpected ↦ rw unexpected (Steps-append run (shutdown-Steps world))
      | inr expected ↦ rw expected (stopped-Steps world run)
    ]

-- No server is bound or serving any more.
abbrev pub AllClosed : Phases → Type 0
AllClosed p = (p ≡ (down, down)) ⊎ (p ≡ (gone, down)) ⊎ (p ≡ (gone, gone))

-- However a run ends, its actions are in order: both listeners are bound before either server
-- serves, a server is shut down while it serves, and the health server only when the SMTP server
-- is gone; and at the end no listener is left bound or serving.
pub run_servers-Steps :
    (world : World) → (end : Phases) × Steps (down, down) (run_servers world).0 end × AllClosed end
unfolding run_servers
run_servers-Steps world = elim (Option-cases world.listen_smtp) [
  | inr (e, taken) ↦ ((down, down), rw (taken, run_servers) finished, inl refl)
  | inl free ↦ elim (Option-cases world.listen_health) [
    | inr (e, taken) ↦ (
      (gone, down),
      rw (free, run_servers) (rw taken (next_step bind_smtp (next_step close_smtp finished))),
      inr (inl refl),
    )
    | inl open_too ↦ (
      (gone, gone),
      rw (free, run_servers)
          (rw open_too (
            serve_with-Steps world world.ending (
              next_step bind_smtp (
                next_step bind_health
                  (next_step log (next_step serve_smtp (next_step serve_health finished))))))),
      inr (inr refl),
    )
  ]
]
