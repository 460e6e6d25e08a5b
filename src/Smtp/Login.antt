-- ===== src/Smtp/Login.antt =====
-- internal/smtpserver/login.go: the server side of the mechanism LOGIN. `authenticate` is a closure
-- over the session, whose state is passed along; a nil response is `none`.
pub mod Laws
use cloudflare_smtp_relay.Shared.{Bool, true, false, ◌||◌, Option, none, some, List, [], ◌∷◌}
use cloudflare_smtp_relay.Shared.Text.{Text, codes}
use cloudflare_smtp_relay.Email.Errors.{Fault}

pub data LoginState : Type 0 where
  login_state_username login_state_password login_state_done : LoginState

pub record LoginServer : Type 0 where
  pub state : LoginState
  pub username : Text

unfoldable pub new_login_server : LoginServer
new_login_server = record { state = login_state_username; username = [] }

-- What `Next` returns: a challenge, whether the exchange is done, and an error.
pub record Answer : Type 0 where
  pub challenge : Option Text
  pub done : Bool
  pub err : Option Fault

-- `string(response)` for a slice that may be nil.
abbrev pub bytes_of : Option Text → Text
bytes_of none = []
bytes_of (some s) = s

-- `sasl.ErrUnexpectedClientResponse` is `unexpected`.
module _ {S : Type 0} (unexpected : Fault) (authenticate : S → Text → Text → Option Fault × S) where
  next_in : LoginState → Text → S → Option Text → Answer × LoginServer × S
  next_in login_state_username name s none = (
    record { challenge = some (codes "Username:"); done = false; err = none },
    record { state = login_state_username; username = name },
    s,
  )
  next_in login_state_username name s (some response) = (
    record { challenge = some (codes "Password:"); done = false; err = none },
    record { state = login_state_password; username = response },
    s,
  )
  next_in login_state_password name s response =
      let (err, after) = authenticate s name (bytes_of response) in
      (
        record { challenge = none; done = true; err = err },
        record { state = login_state_done; username = name },
        after,
      )
  next_in login_state_done name s response = (
    record { challenge = none; done = true; err = some unexpected },
    record { state = login_state_done; username = name },
    s,
  )

  unfoldable pub next : LoginServer → S → Option Text → Answer × LoginServer × S
  unfolding next_in
  next l s response = next_in l.state l.username s response

  -- A client's responses one after the other: the answers, and the session at the end.
  unfoldable pub exchange : LoginServer → S → List (Option Text) → List Answer × S
  unfolding next
  exchange l s [] = ([], s)
  exchange l s (response ∷ responses) =
      let (answer, l', s') = next l s response in
      let (answers, end) = exchange l' s' responses in (answer ∷ answers, end)
