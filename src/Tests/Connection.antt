-- ===== src/Tests/Connection.antt =====
-- The theorems on sessions, at one connection.
use cloudflare_smtp_relay.Shared.{
  ◌+◌, ◌≤◌, ◌≡◌, refl, true, false, Option, none, some, List, [], ◌∷◌, length, All,
}
use cloudflare_smtp_relay.Shared.Int.{pos}
use cloudflare_smtp_relay.Shared.Text.{Text, codes, text_eq, contains, has_prefix}
use cloudflare_smtp_relay.Email.Errors.{Fault, outside}
use cloudflare_smtp_relay.Email.Message.{Message, domain, lower_ascii}
use cloudflare_smtp_relay.Email.Policy.{allows, check, new_sender_policy}
use cloudflare_smtp_relay.Cloudflare.Loop.{Outcome, History}
use cloudflare_smtp_relay.Cloudflare.Loop.History.{count_requests}
use cloudflare_smtp_relay.Smtp.Session.{authenticate, mail, rcpt, reset, new_session}
use cloudflare_smtp_relay.Smtp.Session.Data.{Sending, delivered, handle_data, with_message, with_id}
use cloudflare_smtp_relay.Smtp.Session.Outcome.{IsTold}
use cloudflare_smtp_relay.Smtp.Calls.{
  Call, authenticates, mails, rcpts, resets, reads_data, perform, perform_all, in_order,
}
use cloudflare_smtp_relay.Smtp.Calls.Laws.{IsAuthorised, sender_of, perform_all-IsAuthorised}
use cloudflare_smtp_relay.Smtp.Login.{login_state_username, exchange}
use cloudflare_smtp_relay.Smtp.Login.Laws.{credentials, closing, settled, count_done, exchange_lem}
use cloudflare_smtp_relay.Email.Parse.{parse, read_body_parts, take_part, store_body, assemble}
use cloudflare_smtp_relay.Relay.{Adapter, rest, adapter_send}
use cloudflare_smtp_relay.Relay.Told.{sending_of, relayed-IsTold, relayed-attempts}
use cloudflare_smtp_relay.Cloudflare.Loop.Requests.{AllMade}
use cloudflare_smtp_relay.Relay.Success.{post_of}
use cloudflare_smtp_relay.Relay.Once.{IsTruthful, relayed-IsTruthful}
use cloudflare_smtp_relay.Smtp.Audience.{meaning_all}
use cloudflare_smtp_relay.Smtp.Audience.Refines.{view, IsAddressed, perform_all-meaning_all}
use cloudflare_smtp_relay.Tests.Fixtures.{
  unicode, alice, bob, carol, header, raw_message, library, settings, incoming, incoming_with,
  opened, wire, down_at_first, rest_adapter,
}

-- A wrong password, the right one, and a message to bob and carol.
abbrev calls : List Call
calls =
    mails alice
    ∷ authenticates (codes "relay") (codes "guess")
    ∷ authenticates (codes "relay") (codes "secret")
    ∷ mails alice
    ∷ rcpts bob
    ∷ rcpts carol
    ∷ reads_data incoming
    ∷ resets
    ∷ []

in_order-calls : in_order library settings false new_session calls ≡ true
unfolding in_order perform authenticate mail rcpt reset new_session text_eq codes check allows
    domain new_sender_policy contains lower_ascii
in_order-calls = refl

perform_all-IsAuthorised_example :
    All (IsAuthorised library settings) (perform_all library settings new_session calls).1
perform_all-IsAuthorised_example = perform_all-IsAuthorised library settings calls in_order-calls

alice_allowed : allows settings.policy (sender_of alice) ≡ true
unfolding allows codes text_eq domain new_sender_policy contains lower_ascii
alice_allowed = refl

-- Nothing, the user, the password, and one response too many.
abbrev responses : List (Option Text)
responses = none ∷ some (codes "relay") ∷ some (codes "secret") ∷ some [] ∷ []

abbrev unexpected : Fault
unexpected = outside (codes "unexpected client response")

exchange_lem_example :
    ((exchange unexpected
        (authenticate library settings)
        (record { state = login_state_username; username = [] })
        new_session
        responses).1
      ≡ settled unexpected (authenticate library settings) new_session (credentials responses))
    × (count_done
          (exchange unexpected
            (authenticate library settings)
            (record { state = login_state_username; username = [] })
            new_session
            responses).0
        ≡ closing responses)
exchange_lem_example =
    exchange_lem unexpected (authenticate library settings) [] new_session responses

-- The sender that the adapter is; it never fails to end.
abbrev send_by : Adapter → Message → Sending
send_by a m = elim (adapter_send wire down_at_first a m) [
  | some result ↦ sending_of result.0
  | none ↦ delivered none
]

send_by_lem :
    (m : Message) (out : Outcome) (h : History)
    → adapter_send wire down_at_first (rest rest_adapter) m ≡ some (out, h)
    → send_by (rest rest_adapter) m ≡ sending_of out
send_by_lem m out h e = rw (e, send_by) refl

relayed-IsTold_example :
    IsTold
      (handle_data library opened (incoming_with (send_by (rest rest_adapter)))).delivery.result
      (handle_data library opened (incoming_with (send_by (rest rest_adapter)))).returned
relayed-IsTold_example =
    relayed-IsTold wire down_at_first (rest rest_adapter) library opened
      (incoming_with (send_by (rest rest_adapter))) (λ m. codes "{}") (λ m. refl) refl send_by_lem

-- The message that the session hands to the adapter.
abbrev handed : Message
handed = with_id (codes "1") (
    assemble unicode (length raw_message) (pos 0) header alice (bob ∷ carol ∷ [])
      (record { text = codes "Hi"; html = [] }))

handed_ok :
    (handle_data library opened (incoming_with (send_by (rest rest_adapter)))).handed ≡ some handed
unfolding handle_data with_message parse read_body_parts take_part store_body text_eq codes
    has_prefix
handed_ok = refl

relayed-attempts_example :
    (out : Outcome) × (h : History) × (adapter_send wire down_at_first (rest rest_adapter) handed
      ≡ some (out, h))
    × ((handle_data library opened (incoming_with (send_by (rest rest_adapter)))).delivery.attempts
        ≡ count_requests h)
    × (count_requests h ≤ 2 + 1)
relayed-attempts_example =
    relayed-attempts wire down_at_first (rest rest_adapter) library opened
      (incoming_with (send_by (rest rest_adapter))) (λ m. codes "{}") (λ m. refl) refl send_by_lem
      handed handed_ok

relayed-IsTruthful_example :
    (out : Outcome) × (h : History) × (adapter_send wire down_at_first (rest rest_adapter) handed
      ≡ some (out, h))
    × AllMade down_at_first (post_of (rest rest_adapter) (codes "{}")) h
    × IsTruthful wire down_at_first
        (rest rest_adapter)
        (codes "{}")
        h
        (handle_data library opened (incoming_with (send_by (rest rest_adapter)))).returned
relayed-IsTruthful_example =
    relayed-IsTruthful wire down_at_first (rest rest_adapter) library opened
      (incoming_with (send_by (rest rest_adapter))) (λ m. codes "{}") handed (λ m. refl) refl
      send_by_lem handed_ok

perform_all-meaning_all_example :
    (view unicode (perform_all library settings new_session calls).0
      ≡ meaning_all unicode settings (view unicode new_session) calls)
    × All (IsAddressed library settings) (perform_all library settings new_session calls).1
unfolding new_session
perform_all-meaning_all_example = perform_all-meaning_all library settings new_session calls
