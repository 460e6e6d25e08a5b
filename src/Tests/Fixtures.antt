-- ===== src/Tests/Fixtures.antt =====
-- The data of the tests: one message, one policy, and a server that accepts or is down at first.
use cloudflare_smtp_relay.Shared.{true, none, some, List, [], ◌∷◌, ◌==◌, if◌then◌else◌}
use cloudflare_smtp_relay.Shared.Int.{pos}
use cloudflare_smtp_relay.Shared.Text.{Text, codes, text_eq, Unicode}
use cloudflare_smtp_relay.Email.Errors.{Fault, outside, Fallible, ok, failed}
use cloudflare_smtp_relay.Email.Message.{Address, Message, Delivered}
use cloudflare_smtp_relay.Email.Policy.{new_sender_policy}
use cloudflare_smtp_relay.Email.Parse.{Field, Header, inline, attachment, NextPart, Created}
use cloudflare_smtp_relay.Cloudflare.Backoff.{Clock}
use cloudflare_smtp_relay.Cloudflare.Loop.{Response, Outside}
use cloudflare_smtp_relay.Cloudflare.Loop.History.{count_requests}
use cloudflare_smtp_relay.Cloudflare.Wire.{Wire}
use cloudflare_smtp_relay.Cloudflare.Rest.{Rest}
use cloudflare_smtp_relay.Cloudflare.Worker.{Worker}
use cloudflare_smtp_relay.Smtp.Session.{Library, Settings, Session}
use cloudflare_smtp_relay.Smtp.Session.Data.{Sending, delivered, Incoming}

abbrev pub unicode : Unicode
unicode = record { lower = λ s. s; trim = λ s. s; fold_eq = text_eq }

abbrev pub alice : Text
alice = codes "alice@example.com"

abbrev pub bob : Text
bob = codes "bob@example.org"

abbrev pub carol : Text
carol = codes "carol@example.net"

abbrev pub address : Text → Address
address a = record { name = []; address = a }

abbrev pub subject_field : Field
subject_field = record { key = codes "X-Mailer"; text = ok (codes "mutt"); value = codes "mutt" }

-- To names bob; there is no Cc.
abbrev named : Text → Fallible (List Address)
named key =
    if text_eq key (codes "To")
    then ok (address bob ∷ [])
    else if text_eq key (codes "From")
    then ok (record { name = codes "Alice"; address = alice } ∷ [])
    else ok []

abbrev pub header : Header
header = record {
  subject = ok (codes "Hello");
  message_id = ok (codes "1@example.com");
  text_of = λ key. ok [];
  get = λ key. [];
  address_list = named;
  fields = subject_field ∷ [];
}

abbrev pub body_part : NextPart
body_part = record { part = some (inline (codes "text/plain") (ok (codes "Hi"))); err = none }

abbrev pub file_part : NextPart
file_part = record { part = some attachment; err = none }

abbrev pub create_reader : Text → Created
create_reader raw = record {
  reader = record { header = header; parts = body_part ∷ file_part ∷ [] };
  err = none;
}

-- The reader of a message whose header names nobody.
abbrev pub create_anonymous_reader : Text → Created
create_anonymous_reader raw = record {
  reader = record {
    header = record header { address_list = λ key. ok [] };
    parts = body_part ∷ [];
  };
  err = none;
}

abbrev pub raw_message : Text
raw_message = codes "Subject: Hello"

abbrev pub clock : Clock
clock = record { parse_time = λ value. some (pos 90); now = pos 60 }

abbrev pub accepted_response : Response
accepted_response = record { status = 200; body = []; body_err = none; retry_after = [] }

-- A server that accepts at once.
abbrev pub up : Outside
up = record {
  ctx_err = λ h. none;
  exchange = λ h req. ok accepted_response;
  clock = λ h. clock;
  draw = λ h. 0;
  sleep = λ h d. none;
}

abbrev pub connection_refused : Fault
connection_refused = outside (codes "connection refused")

-- A server that cannot be reached at the first request.
abbrev pub down_at_first : Outside
down_at_first = record {
  ctx_err = λ h. none;
  exchange =
      λ h req. if count_requests h == 0 then failed connection_refused else ok accepted_response;
  clock = λ h. clock;
  draw = λ h. 0;
  sleep = λ h d. none;
}

abbrev pub wire : Wire
wire = record {
  marshal = λ p. ok (codes "{}");
  decode_rest = λ body. ok (record { success = true; errors = []; result = some (bob ∷ []) });
  decode_worker =
      λ body. ok (record { success = true; message_id = codes "7"; code = []; error = [] });
  bad_url = λ url. none;
}

abbrev pub rest_adapter : Rest
rest_adapter = record {
  base_url = codes "https://api.cloudflare.com/client/v4";
  account_id = codes "account";
  api_token = codes "token";
  timeout = pos 15_000_000_000;
  max_retries = pos 2;
}

abbrev pub worker_adapter : Worker
worker_adapter = record {
  url = codes "https://worker.example.com";
  secret = codes "secret";
  timeout = pos 15_000_000_000;
  max_retries = pos 2;
}

abbrev pub message : Message
message = record {
  id = codes "1";
  rfc_message_id = [];
  from = address alice;
  to = address bob ∷ [];
  cc = address carol ∷ [];
  bcc = [];
  reply_to = [];
  subject = codes "Hello";
  text = codes "Hi";
  html = [];
  headers = [];
  size = 2;
  received_at = pos 0;
}

abbrev pub library : Library
library = record {
  unicode = unicode;
  quote = λ s. s;
  create_reader = create_reader;
  auth_failed = outside (codes "authentication failed");
  unknown_mechanism = outside (codes "unknown mechanism");
}

abbrev pub settings : Settings
settings = record {
  username = codes "relay";
  password = codes "secret";
  policy = new_sender_policy (codes "example.com" ∷ []);
}

abbrev pub result : Delivered
result = record { provider_id = codes "7"; http_status = 200; attempts = 1 }

abbrev pub incoming_with : (Message → Sending) → Incoming
incoming_with send = record {
  body = ok raw_message;
  start = pos 0;
  finish = pos 5;
  now = pos 0;
  new_id = codes "1";
  send = send;
}

abbrev pub incoming : Incoming
incoming = incoming_with (λ m. delivered (some result))

abbrev pub opened : Session
opened = record { authenticated = true; from = alice; recipients = bob ∷ carol ∷ [] }
