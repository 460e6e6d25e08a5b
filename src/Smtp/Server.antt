-- ===== src/Smtp/Server.antt =====
-- internal/smtpserver/server.go: the methods of `Server` that share its address, by their statements.
use cloudflare_smtp_relay.Shared.{refl, List, [], ◌∷◌}
use cloudflare_smtp_relay.Shared.Text.{Text}
use cloudflare_smtp_relay.Listening.{
  Call, serving, listening, shutting_down, asking, Action, lock, unlock, set_addr, get_addr,
  inner_serve, inner_listen_and_serve, inner_shutdown,
}
use cloudflare_smtp_relay.Listening.Discipline.{guarded, writes, announced, IsDisciplined}

unfoldable pub serve : Text → List Action
serve l = lock ∷ set_addr l ∷ unlock ∷ inner_serve l ∷ []

unfoldable pub listen_and_serve : List Action
listen_and_serve = inner_listen_and_serve ∷ []

unfoldable pub shutdown : List Action
shutdown = inner_shutdown ∷ []

-- The deferred unlock is after the evaluation of the result.
unfoldable pub addr : List Action
addr = lock ∷ get_addr ∷ unlock ∷ []

abbrev pub body : Call → List Action
body (serving l) = serve l
body listening = listen_and_serve
body shutting_down = shutdown
body asking = addr

pub body-IsDisciplined : IsDisciplined body
unfolding serve listen_and_serve shutdown addr guarded writes announced
body-IsDisciplined = record {
  guards = elim [ serving l ↦ refl | listening ↦ refl | shutting_down ↦ refl | asking ↦ refl ];
  announces = elim [ serving l ↦ refl | listening ↦ refl | shutting_down ↦ refl | asking ↦ refl ];
  sets = elim [ serving l ↦ refl | listening ↦ refl | shutting_down ↦ refl | asking ↦ refl ];
}
