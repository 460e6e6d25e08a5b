-- ===== src/Tests/Edge.antt =====
-- The theorems on the Worker, at one message that it accepts.
use cloudflare_smtp_relay.Shared.{
  zero, suc, ◌≡◌, refl, ◌↔◌, false, Option, none, some, [], ◌∷◌, ◌++◌, arith, leb, length,
}
use cloudflare_smtp_relay.Shared.Text.{Text, codes}
use cloudflare_smtp_relay.Email.Errors.{Fallible, ok}
use cloudflare_smtp_relay.Cloudflare.Loop.{
  max_response_body_bytes, Outside, Response, History, Outcome,
}
use cloudflare_smtp_relay.Cloudflare.Rest.{json_post}
use cloudflare_smtp_relay.Cloudflare.Wire.{Wire, WorkerResponse}
use cloudflare_smtp_relay.Cloudflare.Worker.{worker_send}
use cloudflare_smtp_relay.Edge.{
  Answer, Body, delivered, refused, Env, HttpRequest, sent, answer_of, fetch,
}
use cloudflare_smtp_relay.Edge.Values.{Runtime}
use cloudflare_smtp_relay.Edge.Binding.{BindingMessage}
use cloudflare_smtp_relay.Edge.Laws.{IsAdmitted, fetch_iff}
use cloudflare_smtp_relay.Edge.Agreement.{decoded, verdict, IsAgreed, fetch-IsAgreed}
use cloudflare_smtp_relay.Edge.Relayed.{relayed_json, binding_of, complaint}
use cloudflare_smtp_relay.Edge.Exchange.{seen, handled, fetch-relayed}
use cloudflare_smtp_relay.Edge.Delivered.{IsAnswer, IsServed}
use cloudflare_smtp_relay.Edge.Reached.{IsReached, worker_send-IsReached}
use cloudflare_smtp_relay.Tests.Fixtures.{wire, up, worker_adapter, message}

-- A body in the tests' encoding: a mark, and texts that end at a zero.
abbrev ended : Text → Text → Text
ended [] rest = 0 ∷ rest
ended (c ∷ s) rest = suc c ∷ ended s rest

abbrev stringify : Body → Text
stringify (delivered id) = 1 ∷ id
stringify (refused code error) = 0 ∷ ended code error

abbrev split_end : Text → Text × Text
split_end [] = ([], [])
split_end (zero ∷ rest) = ([], rest)
split_end (suc c ∷ s) = let (t, rest) = split_end s in (c ∷ t, rest)

abbrev decode : Text → Fallible WorkerResponse
decode [] = ok (decoded (refused [] []))
decode (zero ∷ s) = let (code, error) = split_end s in ok (decoded (refused code error))
decode (suc c ∷ id) = ok (decoded (delivered id))

abbrev edge_wire : Wire
edge_wire = record wire { decode_worker = decode }

split_end-ended : (s rest : Text) → split_end (ended s rest) ≡ (s, rest)
split_end-ended [] rest = refl
split_end-ended (c ∷ s) rest = rw (split_end-ended s rest) refl

reads : (b : Body) → decode (stringify b) ≡ ok (decoded b)
reads (delivered id) = refl
reads (refused code error) = rw (split_end-ended code error) refl

abbrev js : Runtime
js = record { is_zero = λ literal. false; exceeds = λ text limit. false; type_error = [] }

abbrev env : Env
env = record { relay_secret = some worker_adapter.secret; send = λ m. sent (some (codes "id-1")) }

abbrev posted : HttpRequest
posted =
    seen (json_post worker_adapter.url worker_adapter.secret (codes "{}")) (codes "2")
      (relayed_json message)

fetch-relayed_example : fetch js env posted ≡ handled env message
unfolding codes
fetch-relayed_example =
    fetch-relayed js env worker_adapter.url worker_adapter.secret (codes "{}") (codes "2") message
      refl refl refl (refl, tt) (refl, tt) tt

fetch-IsAgreed_example :
    IsAgreed env
      (verdict edge_wire stringify reads (fetch js env posted).0 1)
      (fetch js env posted).1
fetch-IsAgreed_example = fetch-IsAgreed edge_wire stringify reads js env posted 1

fetch_iff_example : ((fetch js env posted).1 ≡ some (binding_of message)) ↔ (
    (posted.authorization ≡ some (codes "Bearer " ++ worker_adapter.secret))
    × IsAdmitted js env posted (binding_of message))
unfolding codes
fetch_iff_example = fetch_iff js env posted (binding_of message) (ground arith, tt) (ground arith)

posted-handled : fetch js env posted ≡ handled env message
unfolding codes
posted-handled =
    fetch-relayed js env worker_adapter.url worker_adapter.secret (codes "{}") (codes "2") message
      refl refl refl (refl, tt) (refl, tt) tt

abbrev answer : Answer
answer = (fetch js env posted).0

abbrev response : Response
response = record {
  status = answer.status;
  body = stringify answer.body;
  body_err = none;
  retry_after = [];
}

-- The Worker behind the client, which sends the message.
abbrev edge : Outside
edge = record up { exchange = λ h req. ok response }

handled-small :
    (x : Answer × Option BindingMessage)
    → x ≡ handled env message
    → leb max_response_body_bytes (length (stringify x.0.body)) ≡ false
unfolding answer_of codes complaint
handled-small x e = rw e refl

answer-small : leb max_response_body_bytes (length response.body) ≡ false
answer-small = handled-small (fetch js env posted) posted-handled

response-IsAnswer : IsAnswer stringify answer response
response-IsAnswer = record { status = refl; body = refl; whole = refl; small = answer-small }

edge-IsServed : IsServed js (λ h. env) (λ h req. posted) stringify edge
edge-IsServed h req r e = let same : response ≡ r = cc e in rw (← same) response-IsAnswer

worker_send-IsReached_example :
    (out : Outcome) × (h : History) × (worker_send edge_wire edge worker_adapter message
      ≡ some (out, h))
    × IsReached edge_wire stringify reads js
        (λ h. env)
        (λ h req. posted)
        edge
        edge-IsServed
        worker_adapter
        message
        (codes "{}")
        (codes "2")
        out
        h
unfolding codes
worker_send-IsReached_example =
    worker_send-IsReached edge_wire stringify reads js (λ h. env) (λ h req. posted) edge
      edge-IsServed worker_adapter message (codes "{}") (codes "2") refl refl (λ h. refl) refl refl
      (λ h. refl) (refl, tt) (refl, tt) tt
