-- ===== src/Listening/Invariant.antt =====
-- What every schedule of the calls of a server keeps (internal/smtpserver/server.go,
-- internal/health/health.go).
use cloudflare_smtp_relay.Shared.{
  ℕ, ◌≡◌, refl, ◌⊎◌, inl, inr, Bool, true, false, not, Option, none, some, List, [], ◌∷◌, arith,
  ◌==◌, ==_iff, Bool-cases, Option-cases, All,
}
use cloudflare_smtp_relay.Shared.Text.{Text, is_empty}
use cloudflare_smtp_relay.Listening.{
  Call, Action, lock, unlock, set_addr, get_addr, inner_serve, inner_listen_and_serve,
  inner_shutdown, State, update, perform, perform_next, step, Run, stay, then_step, start,
}
use cloudflare_smtp_relay.Listening.Discipline.{
  guarded, writes, announced, listeners, IsDisciplined, announced_mono, guarded-bodies,
  announced-bodies, writes-bodies,
}

-- Goroutine `i` holds the mutex.
abbrev pub holds : Option ℕ → ℕ → Bool
holds none i = false
holds (some h) i = i == h

update-all {ℓ κ} :
    {A : Type ℓ} (Q : ℕ → A → Type κ) (f : ℕ → A) (i : ℕ) (a : A)
    → ((j : ℕ) → (j == i) ≡ false → Q j (f j))
    → Q i a
    → (j : ℕ) → Q j (update f i a j)
update-all Q f i a others here j = elim (Bool-cases (j == i)) [
  | inr other ↦ rw other (others j other)
  | inl same ↦ rw same (rw ((==_iff j i).0 same) here)
]

announced_weaken :
    (known : Bool) (xs : List Action) → announced known xs ≡ true → announced true xs ≡ true
announced_weaken true xs h = h
announced_weaken false xs h = announced_mono true xs h

module _ (P : Text → Type 0) where
  -- The address is still unknown, or one of those that the calls were given.
  abbrev pub IsKnown : Text → Type 0
  IsKnown a = (a ≡ []) ⊎ P a

  pub record Inv (s : State) : Type 0 where
    pub guards : (i : ℕ) → guarded (holds s.holder i) (s.todo i) ≡ true
    pub announces : (i : ℕ) → announced (not (is_empty s.addr)) (s.todo i) ≡ true
    pub sets : (i : ℕ) → All P (writes (s.todo i))
    pub addr : IsKnown s.addr
    pub answers : (i : ℕ) → All IsKnown (s.answers i)
    pub served : (is_empty s.served ≡ true) ⊎ (is_empty s.addr ≡ false)

  abbrev IfSome : Option State → Type 0
  IfSome none = Unit
  IfSome (some s) = Inv s

  -- A state where goroutine `i` has `rest` left, and the others what they had.
  advanced :
      (s : State) (i : ℕ) (rest : List Action) (h : Option ℕ) (a : Text) (l : List Text)
      (answers : ℕ → List Text)
      → Inv s
      → ((j : ℕ) → (j == i) ≡ false → guarded (holds h j) (s.todo j) ≡ true)
      → guarded (holds h i) rest ≡ true
      → ((j : ℕ) → announced (not (is_empty a)) (s.todo j) ≡ true)
      → announced (not (is_empty a)) rest ≡ true
      → All P (writes rest)
      → IsKnown a
      → ((j : ℕ) → All IsKnown (answers j))
      → (is_empty l ≡ true) ⊎ (is_empty a ≡ false)
      → Inv (record {
        holder = h;
        addr = a;
        served = l;
        todo = update s.todo i rest;
        answers = answers;
      })
  advanced s i rest h a l answers inv others own announce_all announce own_sets known all served =
      record {
        guards = update-all (λ j xs. guarded (holds h j) xs ≡ true) s.todo i rest others own;
        announces =
            update-all (λ j xs. announced (not (is_empty a)) xs ≡ true) s.todo i rest
              (λ j other. announce_all j) announce;
        sets =
            update-all (λ j xs. All P (writes xs)) s.todo i rest (λ j other. inv.sets j) own_sets;
        addr = known;
        answers = all;
        served = served;
      }

  module _ (full : (a : Text) → P a → is_empty a ≡ false) where
    perform-Inv :
        (i : ℕ) (s : State) (a : Action) (rest : List Action)
        → guarded (holds s.holder i) (a ∷ rest) ≡ true
        → announced (not (is_empty s.addr)) (a ∷ rest) ≡ true
        → All P (writes (a ∷ rest))
        → Inv s
        → IfSome (perform i s a rest)
    unfolding guarded announced writes
    perform-Inv i s lock rest guard announce own inv = elim (Option-cases s.holder) [
      | inr (h, taken) ↦ simp (taken, perform) tt
      | inl free ↦
          let here : (i == i) ≡ true = ground arith in
          simp (free, perform)
            (advanced s i rest (some i) s.addr s.served s.answers inv
              (λ j other. rw other (simp free at (inv.guards j))) (rw here (simp free at guard))
              inv.announces announce own inv.addr inv.answers inv.served)
    ]
    perform-Inv i s unlock rest guard announce own inv = elim (Option-cases s.holder) [
      | inl free ↦ simp (free, perform) tt
      | inr (h, taken) ↦
          let mine = simp taken at guard in
          let same : i ≡ h = ground arith in
          simp (taken, perform)
            (advanced s i rest none s.addr s.served s.answers inv
              (λ j other.
                let off : (j == h) ≡ false = rw (← same) other in
                rw off at (simp taken at (inv.guards j)))
              (ground arith) inv.announces announce own inv.addr inv.answers inv.served)
    ]
    perform-Inv i s (set_addr a) rest guard announce own inv =
        let nonempty = full a own.0 in
        advanced s i rest s.holder a s.served s.answers inv (λ j other. inv.guards j) (ground arith)
          (λ j. rw nonempty (announced_weaken (not (is_empty s.addr)) (s.todo j) (inv.announces j)))
          (rw nonempty announce) own.1 (inr own.0) inv.answers (inr nonempty)
    perform-Inv i s get_addr rest guard announce own inv =
        advanced s i rest s.holder s.addr s.served (update s.answers i (s.addr ∷ s.answers i)) inv
          (λ j other. inv.guards j) (ground arith) inv.announces announce own inv.addr
          (update-all (λ j as'. All IsKnown as') s.answers i (s.addr ∷ s.answers i)
            (λ j other. inv.answers j) (inv.addr, inv.answers i))
          inv.served
    perform-Inv i s (inner_serve a) rest guard announce own inv =
        advanced s i rest s.holder s.addr (a ∷ s.served) s.answers inv (λ j other. inv.guards j)
          (ground arith) inv.announces (ground arith) own inv.addr inv.answers (inr (ground arith))
    perform-Inv i s inner_listen_and_serve rest guard announce own inv =
        advanced s i rest s.holder s.addr s.served s.answers inv (λ j other. inv.guards j)
          (ground arith) inv.announces announce own inv.addr inv.answers inv.served
    perform-Inv i s inner_shutdown rest guard announce own inv =
        advanced s i rest s.holder s.addr s.served s.answers inv (λ j other. inv.guards j)
          (ground arith) inv.announces announce own inv.addr inv.answers inv.served

    perform_next-Inv :
        (i : ℕ) (s : State) (xs : List Action)
        → guarded (holds s.holder i) xs ≡ true
        → announced (not (is_empty s.addr)) xs ≡ true
        → All P (writes xs)
        → Inv s
        → IfSome (perform_next i s xs)
    perform_next-Inv i s [] guard announce own inv = tt
    perform_next-Inv i s (a ∷ rest) guard announce own inv =
        perform-Inv i s a rest guard announce own inv

    step-Inv : (i : ℕ) (s t : State) → Inv s → step i s ≡ some t → Inv t
    unfolding step
    step-Inv i s t inv eq =
        rw eq at (perform_next-Inv i s (s.todo i) (inv.guards i) (inv.announces i) (inv.sets i) inv)

    Run-Inv : (s t : State) → Run s t → Inv s → Inv t
    Run-Inv s t stay inv = inv
    Run-Inv s u (then_step {t} i run eq) inv = step-Inv i t u (Run-Inv s t run inv) eq

    start-Inv :
        (body : Call → List Action) (calls : ℕ → List Call)
        → IsDisciplined body
        → ((i : ℕ) → All P (listeners (calls i)))
        → Inv (start body calls)
    start-Inv body calls disciplined given = record {
      guards = λ i. guarded-bodies body disciplined (calls i);
      announces = λ i. announced-bodies body disciplined (calls i);
      sets = λ i. rw (writes-bodies body disciplined (calls i)) (given i);
      addr = inl refl;
      answers = λ i. tt;
      served = inl refl;
    }

    pub reached-Inv :
        (body : Call → List Action) (calls : ℕ → List Call) (t : State)
        → IsDisciplined body
        → ((i : ℕ) → All P (listeners (calls i)))
        → Run (start body calls) t
        → Inv t
    reached-Inv body calls t disciplined given run =
        Run-Inv (start body calls) t run (start-Inv body calls disciplined given)
