-- ===== src/Relay/Goroutines/Reach.antt =====
-- Every schedule of the goroutines of `run` (cmd/relay/main.go) keeps the invariant.
use cloudflare_smtp_relay.Shared.{◌≡◌, refl, inl, inr, some, List, [], ◌∷◌, arith, Option-cases}
use cloudflare_smtp_relay.Relay.Serve.{World}
use cloudflare_smtp_relay.Relay.Goroutines.{Running, Move, move, begun, run_moves}
use cloudflare_smtp_relay.Relay.Goroutines.Laws.{Inv, move-Inv}

module _ (world : World) where
  run_moves-Inv :
      (moves : List Move) (s t : Running)
      → Inv world s
      → run_moves world moves s ≡ some t
      → Inv world t
  unfolding run_moves
  run_moves-Inv [] s t inv e = let same : s ≡ t = ground (arith, e) in rw (← same) inv
  run_moves-Inv (m ∷ moves) s t inv e = elim (Option-cases (move world m s)) [
    | inl stuck ↦ absurd (cc (rw (stuck, run_moves) at e))
    | inr (u, moved) ↦
        let next : Inv world u = rw moved at (move-Inv world m s inv) in
        run_moves-Inv moves u t next (rw (moved, run_moves) at e)
  ]

  begun-Inv : Inv world begun
  begun-Inv = record { room = omega arith; main_of = refl }

  pub reached-Inv :
      (moves : List Move) (t : Running) → run_moves world moves begun ≡ some t → Inv world t
  reached-Inv moves t e = run_moves-Inv moves begun t begun-Inv e
