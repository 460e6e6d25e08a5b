-- ===== src/Email/Recipients.antt =====
-- internal/email/parse.go, `splitRecipients`: the To, Cc and Bcc lists of a delivery, from the
-- message headers and the envelope recipients.
pub mod Assign
pub mod Laws
use cloudflare_smtp_relay.Shared.{Bool, not, ◌&&◌, ◌||◌, List, [], ◌∷◌, ◌++◌, if◌then◌else◌}
use cloudflare_smtp_relay.Shared.Text.{Text, is_empty, contains, Unicode, to_lower, trim_space}
use cloudflare_smtp_relay.Email.Message.{Address}

-- The loop that fills `envelopeSet`; a set of strings is its keys.
pub envelope_set : Unicode → List Text → List Text → List Text
envelope_set u set [] = set
envelope_set u set (r ∷ rcpts) =
    let key = to_lower u (trim_space u r) in
    envelope_set u (if is_empty key then set else key ∷ set) rcpts

-- What a loop over addresses changes: the set `assigned` and the list that it fills.
pub record Assigning : Type 0 where
  pub assigned : List Text
  pub out : List Address

-- The end of each loop's body, behind its `continue`s.
pub assign : Bool → Text → Address → Assigning → Assigning
assign skip key a s =
    if skip then s else record { assigned = key ∷ s.assigned; out = s.out ++ a ∷ [] }

-- The loop over a header's addresses.
pub assign_header : Unicode → List Text → Assigning → List Address → Assigning
assign_header u envelope s [] = s
assign_header u envelope s (a ∷ header) =
    let key = to_lower u a.address in
    let skip = is_empty key || (not (contains key envelope) || contains key s.assigned) in
    assign_header u envelope (assign skip key a s) header

-- The loop over the envelope's recipients.
pub assign_envelope : Unicode → Assigning → List Text → Assigning
assign_envelope u s [] = s
assign_envelope u s (r ∷ rcpts) =
    let addr = trim_space u r in
    let key = to_lower u addr in
    let skip = is_empty key || contains key s.assigned in
    assign_envelope u (assign skip key (record { name = []; address = addr }) s) rcpts

pub record Recipients : Type 0 where
  pub to : List Address
  pub cc : List Address
  pub bcc : List Address

unfoldable pub split_recipients : Unicode → List Address → List Address → List Text → Recipients
split_recipients u header_to header_cc rcpts =
    let envelope = envelope_set u [] rcpts in
    let plain = assign_envelope u (record { assigned = []; out = [] }) rcpts in
    let to = assign_header u envelope (record { assigned = []; out = [] }) header_to in
    let cc = assign_header u envelope (record { assigned = to.assigned; out = [] }) header_cc in
    let bcc = assign_envelope u (record { assigned = cc.assigned; out = [] }) rcpts in
    if is_empty header_to && is_empty header_cc
    then record { to = plain.out; cc = []; bcc = [] }
    else record { to = to.out; cc = cc.out; bcc = bcc.out }
