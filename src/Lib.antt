-- ===== src/Lib.antt =====
-- Verification of the SMTP relay: a submission server that takes mail from authenticated clients and
-- sends it on through Cloudflare, by its REST API or by a Worker that the user deploys.
--
-- The parts of the program, the files that model them, and how they interact:
--
-- * internal/email is the core. `Parse` makes a `Message` of the bytes of a DATA command and of its
--   envelope; `SenderPolicy` decides who may send; `DeliveryError` is the error that reaches the client.
--   Email/Errors, Email/Message, Email/Policy, Email/Recipients (`splitRecipients` and its loops) and
--   Email/Parse have a definition for each function, by the name of the function in snake case.
-- * internal/cloudflare sends a message. Cloudflare/Payload is the body of a request (payload.go),
--   Cloudflare/Classify what an answer means (classify.go), Cloudflare/Backoff and Cloudflare/Loop the
--   retry engine of send.go, Cloudflare/Rest and Cloudflare/Worker the two adapters (rest.go, worker.go),
--   Cloudflare/Wire the shapes of the answers, and Cloudflare/Contract what an adapter promises.
-- * worker/src/index.js is Edge: the Worker that stands between the relay and the send_email binding.
--   Edge/Values are JSON values as JavaScript reads them, Edge/Secret is `authorized`, Edge/Binding is
--   `toBindingMessage`, and Edge.fetch the handler. Edge/Relayed is the relay's payload as JSON;
--   Edge/Exchange is one request, Edge/Agreement what the relay makes of an answer, and Edge/Delivered and
--   Edge/Reached have the retry loop with the Worker behind it.
-- * internal/logging is Logging: the levels and the record that is logged for each message.
-- * internal/config is Config: reading (Config, Config/Load), checking (Config/Checks) and printing
--   (Config/Redact) a configuration. Config/RoundTrip has the variables that say a configuration, and
--   Config/Problems the problems that an environment has, with the rules that it may break in
--   Config/Problems/Rules.
-- * internal/smtpserver is Smtp: the mechanism LOGIN (Smtp/Login), the session (Smtp/Session,
--   with the method `Data` in Smtp/Session/Data), sequences of
--   the calls that go-smtp makes of a session (Smtp/Calls), what those calls mean for an abstract transaction
--   (Smtp/Audience), the options of the server (Smtp/Options) and its methods (Smtp/Server).
-- * internal/health is Health: the endpoint and the probe, and the server around it (Health/Server).
-- * Listening is the mutex around the address that each of the two servers keeps: the statements of their
--   methods, interleaved. Relay/Address has what follows for both servers.
-- * cmd/relay is Relay: how `run` puts the parts together, the session with an adapter behind it
--   (Relay/Told, Relay/Once, with what the provider's answers say in Relay/Success), how `run` serves and shuts down, as one
--   sequence of actions (Relay/Serve) and as goroutines (Relay/Goroutines), and `main` (Relay/Command).
--
-- Shared has the numbers, the lists and the strings that all of them use; Tests applies the theorems to
-- concrete inputs.
--
-- How the code is rendered. A string is the list of its bytes; an int of Go is an integer, and where it can
-- leave its 64 bits, as in the backoff and in Retry-After, the wrap-around is written out. A map is an
-- association list or the list of its keys. State is passed along: a handler takes the session and returns
-- the next one. An error is a value, with the chain of errors that it wraps.
--
-- The outside. The case mapping and the trimming of strings beyond ASCII are the record `Unicode`. The mail
-- reader of go-message is the function `create_reader`, with the results of `NextPart` as a list. The
-- context, the HTTP client, the clock, the random numbers and the sleep of the retry loop are the record
-- `Outside`: what the loop asks is an event of its history, and an answer may depend on all that went
-- before, so it covers every behaviour of a network that answers. The Worker's runtime and its binding are
-- the records `Runtime` and `Env`. JSON and the parsing of URLs are the record
-- `Wire`. go-smtp appears as the sequence of its calls; of their order it is assumed only that DATA comes in
-- an open transaction.
--
-- Fuel. The retry loop runs on fuel, one more than the retries that are allowed, since each round ends the
-- loop or uses up one of them; send_loop_total below shows that this is enough. The printing of
-- a number n runs on fuel n + 1, and n has at most n + 1 digits. All other loops are structural recursion.
--
-- Not modelled: the HTTP and SMTP servers of the libraries that the two servers wrap, and the length of the
-- grace period and of the timeout of the probe; the JSON handler of log/slog; and the script of the release process.
pub mod Shared
pub mod Email
pub mod Cloudflare
pub mod Edge
pub mod Logging
pub mod Config
pub mod Listening
pub mod Smtp
pub mod Health
pub mod Relay
pub mod Tests
