-- ===== src/Listening/Laws.antt =====
-- Laws of the calls of a server under every schedule (internal/smtpserver/server.go,
-- internal/health/health.go).
use cloudflare_smtp_relay.Shared.{
  ℕ, ◌≡◌, refl, ◌⊎◌, inl, inr, Bool, true, false, Option, none, some, List, [], ◌∷◌, arith, ◌==◌,
  ==_iff, Bool-cases, Option-cases,
}
use cloudflare_smtp_relay.Shared.Text.{Text, is_empty}
use cloudflare_smtp_relay.Listening.{
  Action, lock, unlock, set_addr, get_addr, inner_serve, inner_listen_and_serve, inner_shutdown,
  State, locked, unlocked, answered, perform, perform_next, step,
}
use cloudflare_smtp_relay.Listening.Discipline.{guarded}
use cloudflare_smtp_relay.Listening.Invariant.{holds, Inv}

-- What a goroutine does next is to read or to write the address.
abbrev pub accesses : List Action → Bool
accesses [] = false
accesses (set_addr a ∷ rest) = true
accesses (get_addr ∷ rest) = true
accesses (lock ∷ rest) = false
accesses (unlock ∷ rest) = false
accesses (inner_serve a ∷ rest) = false
accesses (inner_listen_and_serve ∷ rest) = false
accesses (inner_shutdown ∷ rest) = false

-- It waits for the mutex, or takes it.
abbrev pub locks : List Action → Bool
locks [] = false
locks (lock ∷ rest) = true
locks (set_addr a ∷ rest) = false
locks (get_addr ∷ rest) = false
locks (unlock ∷ rest) = false
locks (inner_serve a ∷ rest) = false
locks (inner_listen_and_serve ∷ rest) = false
locks (inner_shutdown ∷ rest) = false

access-held :
    (held : Bool) (xs : List Action) → guarded held xs ≡ true → accesses xs ≡ true → held ≡ true
unfolding guarded
access-held held [] h k = absurd (cc k)
access-held held (set_addr a ∷ xs) h k = ground arith
access-held held (get_addr ∷ xs) h k = ground arith
access-held held (lock ∷ xs) h k = absurd (cc k)
access-held held (unlock ∷ xs) h k = absurd (cc k)
access-held held (inner_serve a ∷ xs) h k = absurd (cc k)
access-held held (inner_listen_and_serve ∷ xs) h k = absurd (cc k)
access-held held (inner_shutdown ∷ xs) h k = absurd (cc k)

holds-eq : (o : Option ℕ) (i : ℕ) → holds o i ≡ true → o ≡ some i
holds-eq none i h = absurd (cc h)
holds-eq (some j) i h = rw ((==_iff i j).0 h) refl

-- A goroutine that has the mutex, or does not ask for it, takes its step.
perform_next-moves :
    (i : ℕ) (s : State) (xs : List Action)
    → guarded (holds s.holder i) xs ≡ true
    → is_empty xs ≡ false
    → (locks xs ≡ true → s.holder ≡ none)
    → (t : State) × (perform_next i s xs ≡ some t)
unfolding guarded
perform_next-moves i s [] guard more free = absurd (cc more)
perform_next-moves i s (lock ∷ xs) guard more free = (locked i s xs, simp (free refl, perform) refl)
perform_next-moves i s (unlock ∷ xs) guard more free =
    (unlocked i s xs, simp (holds-eq s.holder i (ground arith), perform) refl)
perform_next-moves i s (set_addr a ∷ xs) guard more free = (_, refl)
perform_next-moves i s (get_addr ∷ xs) guard more free = (_, refl)
perform_next-moves i s (inner_serve a ∷ xs) guard more free = (_, refl)
perform_next-moves i s (inner_listen_and_serve ∷ xs) guard more free = (_, refl)
perform_next-moves i s (inner_shutdown ∷ xs) guard more free = (_, refl)

-- The holder of the mutex is not finished, and does not ask for it again.
guarded-held :
    (xs : List Action) → guarded true xs ≡ true → (is_empty xs ≡ false) × (locks xs ≡ false)
unfolding guarded
guarded-held [] h = absurd (cc h)
guarded-held (lock ∷ xs) h = absurd (cc h)
guarded-held (unlock ∷ xs) h = (refl, refl)
guarded-held (set_addr a ∷ xs) h = (refl, refl)
guarded-held (get_addr ∷ xs) h = (refl, refl)
guarded-held (inner_serve a ∷ xs) h = absurd (cc h)
guarded-held (inner_listen_and_serve ∷ xs) h = absurd (cc h)
guarded-held (inner_shutdown ∷ xs) h = absurd (cc h)

-- Goroutine `i` has a step.
abbrev pub Moves : State → ℕ → Type 0
Moves s i = (t : State) × (step i s ≡ some t)

pub holder-injective : {o : Option ℕ} {i j : ℕ} → o ≡ some i → o ≡ some j → i ≡ j
holder-injective h k = ground (arith, h, k)

module _ {P : Text → Type 0} (s : State) (inv : Inv P s) where
  pub accesses-holder : (i : ℕ) → accesses (s.todo i) ≡ true → s.holder ≡ some i
  accesses-holder i at_it =
      holds-eq s.holder i (access-held (holds s.holder i) (s.todo i) (inv.guards i) at_it)

  holder-Moves : (h : ℕ) → s.holder ≡ some h → Moves s h
  unfolding step
  holder-Moves h taken =
      let mine : holds s.holder h ≡ true = simp taken (ground arith) in
      let (more, no_lock) = guarded-held (s.todo h) (rw mine at (inv.guards h)) in
      perform_next-moves h s (s.todo h) (inv.guards h) more (λ e. absurd (cc (e, no_lock)))

  pub Moves-cases :
      (i : ℕ)
      → is_empty (s.todo i) ≡ false
      → Moves s i ⊎ ((locks (s.todo i) ≡ true) × (h : ℕ) × (s.holder ≡ some h) × Moves s h)
  unfolding step
  Moves-cases i more = elim (Option-cases s.holder) [
    | inl free ↦ inl (perform_next-moves i s (s.todo i) (inv.guards i) more (λ _. free))
    | inr (h, taken) ↦ elim (Bool-cases (locks (s.todo i))) [
      | inl asks ↦ inr (asks, h, taken, holder-Moves h taken)
      | inr no_lock ↦
          inl
            (perform_next-moves i s (s.todo i) (inv.guards i) more (λ e. absurd (cc (e, no_lock))))
    ]
  ]

  known_addr : is_empty s.served ≡ false → P s.addr
  known_addr served = elim inv.addr [
    | inr known ↦ known
    | inl unknown ↦ elim inv.served [
      | inl nobody ↦ absurd (cc (nobody, served))
      | inr given ↦ absurd (cc (unknown, given))
    ]
  ]

  pub answer_known :
      (i : ℕ) (rest : List Action)
      → s.todo i ≡ get_addr ∷ rest
      → is_empty s.served ≡ false
      → (t : State) × (step i s ≡ some t) × (t.answers i ≡ s.addr ∷ s.answers i) × P s.addr
  unfolding step
  answer_known i rest next served =
      let here : (i == i) ≡ true = ground arith in
      (answered i s rest, simp (next, perform_next) refl, rw here refl, known_addr served)
