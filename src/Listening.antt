-- ===== src/Listening.antt =====
-- The mutex around the address of a server, which internal/smtpserver/server.go and
-- internal/health/health.go have alike: the calls of any number of goroutines, interleaved. What the
-- servers do is in Smtp/Server.antt and Health/Server.antt; the server of the library that each of
-- them wraps only records the listeners it has been given.
pub mod Discipline
pub mod Invariant
pub mod Laws
use cloudflare_smtp_relay.Shared.{
  ℕ, ◌≡◌, Option, none, some, List, [], ◌∷◌, ◌++◌, ◌==◌, if◌then◌else◌,
}
use cloudflare_smtp_relay.Shared.Text.{Text}

-- The calls of a server; a listener is its address.
pub data Call : Type 0 where
  serving : Text → Call
  listening : Call
  shutting_down : Call
  asking : Call

-- The statements of these calls. `get_addr` evaluates what `Addr` returns.
pub data Action : Type 0 where
  lock : Action
  unlock : Action
  set_addr : Text → Action
  get_addr : Action
  inner_serve : Text → Action
  inner_listen_and_serve : Action
  inner_shutdown : Action

-- `todo` has what is left of each goroutine's calls, and `answers` what its calls of Addr have
-- returned, the last first. `served` are the listeners that the wrapped server has been given.
pub record State : Type 0 where
  pub holder : Option ℕ
  pub addr : Text
  pub served : List Text
  pub todo : ℕ → List Action
  pub answers : ℕ → List Text

abbrev pub update {ℓ} : {A : Type ℓ} → (ℕ → A) → ℕ → A → ℕ → A
update f i a j = if j == i then a else f j

-- The state once goroutine `i` has locked the mutex, with `rest` behind it; has unlocked it; and
-- has read the address.
abbrev pub locked : ℕ → State → List Action → State
locked i s rest = record {
  holder = some i;
  addr = s.addr;
  served = s.served;
  todo = update s.todo i rest;
  answers = s.answers;
}

abbrev pub unlocked : ℕ → State → List Action → State
unlocked i s rest = record {
  holder = none;
  addr = s.addr;
  served = s.served;
  todo = update s.todo i rest;
  answers = s.answers;
}

abbrev pub answered : ℕ → State → List Action → State
answered i s rest = record {
  holder = s.holder;
  addr = s.addr;
  served = s.served;
  todo = update s.todo i rest;
  answers = update s.answers i (s.addr ∷ s.answers i);
}

-- A statement that sets the address and the listeners of the wrapped server, or leaves them.
abbrev passed : ℕ → State → List Action → Text → List Text → State
passed i s rest addr served = record {
  holder = s.holder;
  addr = addr;
  served = served;
  todo = update s.todo i rest;
  answers = s.answers;
}

-- The effect of the statement that goroutine `i` has reached, with `rest` behind it. There is none
-- where it waits for the mutex, and where it unlocks a mutex that is not locked, which ends the
-- program.
abbrev pub perform : ℕ → State → Action → List Action → Option State
perform i s lock rest = elim s.holder [ some h ↦ none | none ↦ some (locked i s rest) ]
perform i s unlock rest = elim s.holder [ none ↦ none | some h ↦ some (unlocked i s rest) ]
perform i s (set_addr a) rest = some (passed i s rest a s.served)
perform i s get_addr rest = some (answered i s rest)
perform i s (inner_serve a) rest = some (passed i s rest s.addr (a ∷ s.served))
perform i s inner_listen_and_serve rest = some (passed i s rest s.addr s.served)
perform i s inner_shutdown rest = some (passed i s rest s.addr s.served)

abbrev pub perform_next : ℕ → State → List Action → Option State
perform_next i s [] = none
perform_next i s (a ∷ rest) = perform i s a rest

-- One step of goroutine `i`.
unfoldable pub step : ℕ → State → Option State
step i s = perform_next i s (s.todo i)

-- The schedules that lead from one state to another.
pub data Run (s : State) : State → Type 0 where
  stay : Run s s
  then_step : {t u : State} (i : ℕ) → Run s t → step i t ≡ some u → Run s u

abbrev pub bodies : (Call → List Action) → List Call → List Action
bodies body [] = []
bodies body (c ∷ calls) = body c ++ bodies body calls

-- The goroutines with their calls, before any of them has begun; a new server has no address.
abbrev pub start : (Call → List Action) → (ℕ → List Call) → State
start body calls = record {
  holder = none;
  addr = [];
  served = [];
  todo = λ i. bodies body (calls i);
  answers = λ i. [];
}
