-- ===== src/Health/Server.antt =====
-- internal/health/health.go: the methods of `Server` that share its address, by their statements.
use cloudflare_smtp_relay.Health.{Answer, handler}
use cloudflare_smtp_relay.Shared.Int.{ℤ, pos}
use cloudflare_smtp_relay.Shared.{◌*◌, refl, List, [], ◌∷◌}
use cloudflare_smtp_relay.Shared.Text.{Text}
use cloudflare_smtp_relay.Listening.{
  Call, serving, listening, shutting_down, asking, Action, lock, unlock, set_addr, get_addr,
  inner_serve, inner_listen_and_serve, inner_shutdown,
}
use cloudflare_smtp_relay.Listening.Discipline.{guarded, writes, announced, IsDisciplined}

unfoldable pub serve : Text → List Action
serve l = lock ∷ set_addr l ∷ unlock ∷ inner_serve l ∷ []

unfoldable pub listen_and_serve : List Action
listen_and_serve = inner_listen_and_serve ∷ []

unfoldable pub shutdown : List Action
shutdown = inner_shutdown ∷ []

-- The deferred unlock is after the evaluation of the result.
unfoldable pub addr : List Action
addr = lock ∷ get_addr ∷ unlock ∷ []

abbrev pub body : Call → List Action
body (serving l) = serve l
body listening = listen_and_serve
body shutting_down = shutdown
body asking = addr

pub body-IsDisciplined : IsDisciplined body
unfolding serve listen_and_serve shutdown addr guarded writes announced
body-IsDisciplined = record {
  guards = elim [ serving l ↦ refl | listening ↦ refl | shutting_down ↦ refl | asking ↦ refl ];
  announces = elim [ serving l ↦ refl | listening ↦ refl | shutting_down ↦ refl | asking ↦ refl ];
  sets = elim [ serving l ↦ refl | listening ↦ refl | shutting_down ↦ refl | asking ↦ refl ];
}

-- The `http.Server` that `New` fills in, with the handler by method and path.
pub record HttpServer : Type 0 where
  pub addr : Text
  pub serve_http : Text → Text → Answer
  pub read_header_timeout : ℤ

abbrev pub read_header_timeout : ℤ
read_header_timeout = pos (5 * 1_000_000_000)

unfoldable pub new_health : Text → HttpServer
new_health addr = record {
  addr = addr;
  serve_http = handler;
  read_header_timeout = read_header_timeout;
}
