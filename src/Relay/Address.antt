-- ===== src/Relay/Address.antt =====
-- The addresses of the two servers of cmd/relay/main.go, under the calls of any goroutines
-- (internal/smtpserver/server.go, internal/health/health.go).
use cloudflare_smtp_relay.Shared.{ℕ, ◌≡◌, ◌⊎◌, false, true, some, List, ◌∷◌, All}
use cloudflare_smtp_relay.Shared.Text.{Text, is_empty}
use cloudflare_smtp_relay.Listening.{Call, Action, get_addr, State, step, Run, start}
use cloudflare_smtp_relay.Listening.Discipline.{listeners, IsDisciplined}
use cloudflare_smtp_relay.Listening.Invariant.{IsKnown, reached-Inv}
use cloudflare_smtp_relay.Listening.Laws.{
  accesses, locks, Moves, accesses-holder, Moves-cases, answer_known, holder-injective,
}
use cloudflare_smtp_relay.Smtp
use cloudflare_smtp_relay.Health

pub data Which : Type 0 where
  smtp : Which
  health : Which

abbrev pub body_of : Which → Call → List Action
body_of smtp = Smtp.Server.body
body_of health = Health.Server.body

body_of-IsDisciplined : (which : Which) → IsDisciplined (body_of which)
body_of-IsDisciplined smtp = Smtp.Server.body-IsDisciplined
body_of-IsDisciplined health = Health.Server.body-IsDisciplined

module _ (which : Which) (calls : ℕ → List Call) where
  -- However the calls of any number of goroutines to one of the two servers interleave, every
  -- answer of Addr is empty or has whatever property the addresses of all listeners given to Serve
  -- have, where that property excludes the empty string; ListenAndServe adds none, so without
  -- Serve every answer is empty.
  pub answers-IsKnown :
      (P : Text → Type 0) (t : State)
      → ((a : Text) → P a → is_empty a ≡ false)
      → ((i : ℕ) → All P (listeners (calls i)))
      → Run (start (body_of which) calls) t
      → (i : ℕ) → All (IsKnown P) (t.answers i)
  answers-IsKnown P t full given run i =
      let inv =
        reached-Inv P full (body_of which) calls t (body_of-IsDisciplined which) given run in
      inv.answers i

  -- However the calls of any number of goroutines to one of the two servers interleave: once the
  -- wrapped server has been given a listener, a goroutine that has come to the read in Addr takes
  -- it, and its answer is the address then set, which has every property that excludes the empty
  -- string and that the addresses of all listeners given to Serve have.
  pub answer-served :
      (P : Text → Type 0) (t : State) (i : ℕ) (rest : List Action)
      → ((a : Text) → P a → is_empty a ≡ false)
      → ((i : ℕ) → All P (listeners (calls i)))
      → Run (start (body_of which) calls) t
      → t.todo i ≡ get_addr ∷ rest
      → is_empty t.served ≡ false
      → (u : State) × (step i t ≡ some u) × (u.answers i ≡ t.addr ∷ t.answers i) × P t.addr
  answer-served P t i rest full given run next served =
      answer_known t
        (reached-Inv P full (body_of which) calls t (body_of-IsDisciplined which) given run) i rest
        next served

module _ (which : Which) (calls : ℕ → List Call) (t : State) where
  -- However the calls of any number of goroutines to one of the two servers interleave, where no
  -- listener has an empty address: at most one goroutine is at a read or a write of the address,
  -- and it holds the mutex.
  pub accesses-exclusive :
      ((i : ℕ) → All (λ a. is_empty a ≡ false) (listeners (calls i)))
      → Run (start (body_of which) calls) t
      → (i j : ℕ) → accesses (t.todo i) ≡ true
      → accesses (t.todo j) ≡ true
      → (i ≡ j) × (t.holder ≡ some i)
  accesses-exclusive given run i j here there =
      let inv =
        reached-Inv (λ a. is_empty a ≡ false) (λ a h. h) (body_of which) calls t
          (body_of-IsDisciplined which) given run in
      let held = accesses-holder t inv i here in
      (holder-injective held (accesses-holder t inv j there), held)

  -- However the calls of any number of goroutines to one of the two servers interleave, where no
  -- listener has an empty address: each goroutine with calls left takes its next step, or it asks
  -- for the mutex while a goroutine that takes its own next step holds it; so there is no
  -- deadlock, and no unlock of a mutex that is not locked.
  pub step-Moves :
      ((i : ℕ) → All (λ a. is_empty a ≡ false) (listeners (calls i)))
      → Run (start (body_of which) calls) t
      → (i : ℕ) → is_empty (t.todo i) ≡ false
      → Moves t i ⊎ ((locks (t.todo i) ≡ true) × (h : ℕ) × (t.holder ≡ some h) × Moves t h)
  step-Moves given run i more =
      let inv =
        reached-Inv (λ a. is_empty a ≡ false) (λ a h. h) (body_of which) calls t
          (body_of-IsDisciplined which) given run in
      Moves-cases t inv i more
