-- ===== src/Listening/Discipline.antt =====
-- What the body of a call keeps to: the address is read and written under the mutex alone, and is
-- written before the wrapped server is given the listener.
use cloudflare_smtp_relay.Shared.{
  ◌≡◌, refl, Bool, true, false, not, ◌&&◌, List, [], ◌∷◌, ◌++◌, arith,
}
use cloudflare_smtp_relay.Shared.Text.{Text}
use cloudflare_smtp_relay.Listening.{
  Call, serving, listening, shutting_down, asking, Action, lock, unlock, set_addr, get_addr,
  inner_serve, inner_listen_and_serve, inner_shutdown, bodies,
}

-- From a point where the mutex is held or not, each lock is followed by an unlock, the address is
-- accessed only in between, and the wrapped server is called only outside.
unfoldable pub guarded : Bool → List Action → Bool
guarded held [] = not held
guarded held (lock ∷ rest) = not held && guarded true rest
guarded held (unlock ∷ rest) = held && guarded false rest
guarded held (set_addr a ∷ rest) = held && guarded held rest
guarded held (get_addr ∷ rest) = held && guarded held rest
guarded held (inner_serve a ∷ rest) = not held && guarded held rest
guarded held (inner_listen_and_serve ∷ rest) = not held && guarded held rest
guarded held (inner_shutdown ∷ rest) = not held && guarded held rest

-- What is written to the address.
unfoldable pub writes : List Action → List Text
writes [] = []
writes (set_addr a ∷ rest) = a ∷ writes rest
writes (lock ∷ rest) = writes rest
writes (unlock ∷ rest) = writes rest
writes (get_addr ∷ rest) = writes rest
writes (inner_serve a ∷ rest) = writes rest
writes (inner_listen_and_serve ∷ rest) = writes rest
writes (inner_shutdown ∷ rest) = writes rest

-- Where an address is set or not, one is set before the wrapped server is given a listener.
unfoldable pub announced : Bool → List Action → Bool
announced known [] = true
announced known (set_addr a ∷ rest) = announced true rest
announced known (inner_serve a ∷ rest) = known && announced known rest
announced known (lock ∷ rest) = announced known rest
announced known (unlock ∷ rest) = announced known rest
announced known (get_addr ∷ rest) = announced known rest
announced known (inner_listen_and_serve ∷ rest) = announced known rest
announced known (inner_shutdown ∷ rest) = announced known rest

abbrev pub listeners_of : Call → List Text
listeners_of (serving a) = a ∷ []
listeners_of listening = []
listeners_of shutting_down = []
listeners_of asking = []

abbrev pub listeners : List Call → List Text
listeners [] = []
listeners (c ∷ calls) = listeners_of c ++ listeners calls

-- What the calls of a server promise.
pub record IsDisciplined (body : Call → List Action) : Type 0 where
  pub guards : (c : Call) → guarded false (body c) ≡ true
  pub announces : (c : Call) → announced false (body c) ≡ true
  pub sets : (c : Call) → writes (body c) ≡ listeners_of c

guarded-append :
    (held : Bool) (xs ys : List Action)
    → guarded held xs ≡ true
    → guarded false ys ≡ true
    → guarded held (xs ++ ys) ≡ true
unfolding guarded
guarded-append true [] ys h k = absurd (cc h)
guarded-append false [] ys h k = k
guarded-append held (lock ∷ xs) ys h k = ground (arith, guarded-append true xs ys)
guarded-append held (unlock ∷ xs) ys h k = ground (arith, guarded-append false xs ys)
guarded-append held (set_addr a ∷ xs) ys h k = ground (arith, guarded-append held xs ys)
guarded-append held (get_addr ∷ xs) ys h k = ground (arith, guarded-append held xs ys)
guarded-append held (inner_serve a ∷ xs) ys h k = ground (arith, guarded-append held xs ys)
guarded-append held (inner_listen_and_serve ∷ xs) ys h k = ground (arith, guarded-append held xs ys)
guarded-append held (inner_shutdown ∷ xs) ys h k = ground (arith, guarded-append held xs ys)

pub announced_mono :
    (known : Bool) (xs : List Action) → announced false xs ≡ true → announced known xs ≡ true
unfolding announced
announced_mono known [] h = refl
announced_mono known (set_addr a ∷ xs) h = h
announced_mono known (inner_serve a ∷ xs) h = absurd (cc h)
announced_mono known (lock ∷ xs) h = announced_mono known xs h
announced_mono known (unlock ∷ xs) h = announced_mono known xs h
announced_mono known (get_addr ∷ xs) h = announced_mono known xs h
announced_mono known (inner_listen_and_serve ∷ xs) h = announced_mono known xs h
announced_mono known (inner_shutdown ∷ xs) h = announced_mono known xs h

announced-append :
    (known : Bool) (xs ys : List Action)
    → announced known xs ≡ true
    → announced false ys ≡ true
    → announced known (xs ++ ys) ≡ true
unfolding announced
announced-append known [] ys h k = announced_mono known ys k
announced-append known (set_addr a ∷ xs) ys h k = announced-append true xs ys h k
announced-append known (inner_serve a ∷ xs) ys h k = ground (arith, announced-append known xs ys)
announced-append known (lock ∷ xs) ys h k = announced-append known xs ys h k
announced-append known (unlock ∷ xs) ys h k = announced-append known xs ys h k
announced-append known (get_addr ∷ xs) ys h k = announced-append known xs ys h k
announced-append known (inner_listen_and_serve ∷ xs) ys h k = announced-append known xs ys h k
announced-append known (inner_shutdown ∷ xs) ys h k = announced-append known xs ys h k

writes-append : (xs ys : List Action) → writes (xs ++ ys) ≡ writes xs ++ writes ys
unfolding writes
writes-append [] ys = refl
writes-append (set_addr a ∷ xs) ys = cc (writes-append xs ys)
writes-append (inner_serve a ∷ xs) ys = writes-append xs ys
writes-append (lock ∷ xs) ys = writes-append xs ys
writes-append (unlock ∷ xs) ys = writes-append xs ys
writes-append (get_addr ∷ xs) ys = writes-append xs ys
writes-append (inner_listen_and_serve ∷ xs) ys = writes-append xs ys
writes-append (inner_shutdown ∷ xs) ys = writes-append xs ys

module _ (body : Call → List Action) (disciplined : IsDisciplined body) where
  pub guarded-bodies : (calls : List Call) → guarded false (bodies body calls) ≡ true
  guarded-bodies [] = unfold guarded in refl
  guarded-bodies (c ∷ calls) =
      guarded-append false (body c) (bodies body calls) (disciplined.guards c)
        (guarded-bodies calls)

  pub announced-bodies : (calls : List Call) → announced false (bodies body calls) ≡ true
  announced-bodies [] = unfold announced in refl
  announced-bodies (c ∷ calls) =
      announced-append false (body c) (bodies body calls) (disciplined.announces c)
        (announced-bodies calls)

  pub writes-bodies : (calls : List Call) → writes (bodies body calls) ≡ listeners calls
  writes-bodies [] = unfold writes in refl
  writes-bodies (c ∷ calls) =
      rw (writes-append (body c) (bodies body calls), disciplined.sets c, writes-bodies calls) refl
