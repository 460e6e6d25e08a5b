-- ===== src/Relay/Serve/Failure.antt =====
-- Laws of `run` (cmd/relay/main.go): the error that the program ends with.
use cloudflare_smtp_relay.Shared.{
  ◌≡◌, refl, ◌↔◌, inl, inr, Bool, false, not, ◌&&◌, none, some, List, Bool-cases, Option-cases,
}
use cloudflare_smtp_relay.Relay.Serve.{
  Action, Ending, signalled, served, World, serve_with, run_servers,
}

-- A server stopped on its own with an error other than the two that a shutdown causes.
abbrev pub is_unexpected : World → Ending → Bool
is_unexpected world signalled = false
is_unexpected world (served none) = false
is_unexpected world (served (some e)) =
    not (world.is_server_closed e) && not (world.is_net_closed e)

serve_with-eq-none_iff :
    (world : World) (ending : Ending) (acts : List Action)
    → ((serve_with world ending acts).1 ≡ none) ↔ (is_unexpected world ending ≡ false)
serve_with-eq-none_iff world signalled acts = (λ _. refl, λ _. refl)
serve_with-eq-none_iff world (served none) acts = (λ _. refl, λ _. refl)
serve_with-eq-none_iff world (served (some e)) acts =
    elim (Bool-cases (not (world.is_server_closed e) && not (world.is_net_closed e))) [
      | inl unexpected ↦ rw unexpected ((λ h. absurd (cc h)), (λ h. absurd (cc h)))
      | inr expected ↦ rw expected ((λ _. refl), (λ _. refl))
    ]

-- The program ends without an error exactly if both listeners could be bound, and a signal or an
-- error that a shutdown causes, or none, ended the wait.
pub run_servers-eq-none_iff :
    (world : World)
    → ((run_servers world).1 ≡ none) ↔ (
        (world.listen_smtp ≡ none)
        × (world.listen_health ≡ none)
        × (is_unexpected world world.ending ≡ false))
unfolding run_servers
run_servers-eq-none_iff world = elim (Option-cases world.listen_smtp) [
  | inr (e, taken) ↦
      (λ h. absurd (cc (rw (taken, run_servers) at h)), λ h. absurd (cc (h.0, taken)))
  | inl free ↦ elim (Option-cases world.listen_health) [
    | inr (e, taken) ↦ (
      λ h. absurd (cc (rw taken at (rw (free, run_servers) at h))),
      λ h. absurd (cc (h.1, taken)),
    )
    | inl open_too ↦ (
      λ h. (
        free,
        open_too,
        (serve_with-eq-none_iff world world.ending _).0
            (rw open_too at (rw (free, run_servers) at h)),
      ),
      λ h.
          rw (free, run_servers)
            (rw open_too ((serve_with-eq-none_iff world world.ending _).1 h.2)),
    )
  ]
]
