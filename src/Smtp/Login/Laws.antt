-- ===== src/Smtp/Login/Laws.antt =====
-- Laws of `loginServer` (internal/smtpserver/login.go), on whole exchanges.
use cloudflare_smtp_relay.Shared.{
  ℕ, ◌+◌, ◌≡◌, refl, Option, none, some, List, [], ◌∷◌, if◌then◌else◌, length, arith,
}
use cloudflare_smtp_relay.Shared.Text.{Text}
use cloudflare_smtp_relay.Email.Errors.{Fault}
use cloudflare_smtp_relay.Smtp.Login.{
  login_state_username, login_state_done, Answer, bytes_of, next_in, next, exchange,
}

-- The credentials of a list of responses: the first that is not nil, and the next one.
unfoldable pub credentials : List (Option Text) → Option (Text × Text)
credentials [] = none
credentials (none ∷ responses) = credentials responses
credentials (some name ∷ []) = none
credentials (some name ∷ response ∷ responses) = some (name, bytes_of response)

-- How many responses there are from the one with the password on.
unfoldable pub closing : List (Option Text) → ℕ
closing [] = 0
closing (none ∷ responses) = closing responses
closing (some name ∷ responses) = length responses

-- How many of the answers say that the exchange is done.
unfoldable pub count_done : List Answer → ℕ
count_done [] = 0
count_done (a ∷ answers) = (if a.done then 1 else 0) + count_done answers

module _ {S : Type 0} (unexpected : Fault) (authenticate : S → Text → Text → Option Fault × S) where
  -- What the session becomes by one authentication, or none.
  unfoldable pub settled : S → Option (Text × Text) → S
  settled s none = s
  settled s (some (name, password)) = (authenticate s name password).1

  finished :
      (name : Text) (s : S) (responses : List (Option Text))
      → ((exchange unexpected authenticate
            (record { state = login_state_done; username = name })
            s
            responses).1
          ≡ s)
        × (count_done
              (exchange unexpected authenticate
                (record { state = login_state_done; username = name })
                s
                responses).0
            ≡ length responses)
  unfolding exchange next next_in count_done
  finished name s [] = (refl, refl)
  finished name s (response ∷ responses) =
      let (same, all) = finished name s responses in (same, omega arith)

  -- However many responses a client sends in a LOGIN exchange, the credentials are checked at most
  -- once, with the first response that is not nil as the user and the one after it as the
  -- password; the exchange is reported as done from then on and never before.
  pub exchange_lem :
      (name : Text) (s : S) (responses : List (Option Text))
      → ((exchange unexpected authenticate
            (record { state = login_state_username; username = name })
            s
            responses).1
          ≡ settled s (credentials responses))
        × (count_done
              (exchange unexpected authenticate
                (record { state = login_state_username; username = name })
                s
                responses).0
            ≡ closing responses)
  unfolding exchange next next_in count_done credentials closing settled
  exchange_lem name s [] = (refl, refl)
  exchange_lem name s (none ∷ responses) =
      let (same, all) = exchange_lem name s responses in (same, omega arith)
  exchange_lem name s (some user ∷ []) = (refl, refl)
  exchange_lem name s (some user ∷ response ∷ responses) =
      let (same, all) = finished user ((authenticate s user (bytes_of response)).1) responses in
      (same, omega arith)
