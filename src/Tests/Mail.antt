-- ===== src/Tests/Mail.antt =====
-- The theorems on addresses, policies, messages and recipients, at one message.
use cloudflare_smtp_relay.Shared.{
  ◌≡◌, refl, true, not, ◌&&◌, ◌||◌, none, List, [], ◌∷◌, ◌++◌, map, arith, if◌then◌else◌, length,
}
use cloudflare_smtp_relay.Shared.Int.{pos}
use cloudflare_smtp_relay.Shared.Text.{
  Text, codes, text_eq, is_empty, contains, IsDistinct, to_lower, trim_space, has_prefix,
}
use cloudflare_smtp_relay.Email.Errors.{ok}
use cloudflare_smtp_relay.Email.Message.{Message, lower_ascii}
use cloudflare_smtp_relay.Email.Policy.{new_sender_policy, allows}
use cloudflare_smtp_relay.Email.Policy.Laws.{allows_lem}
use cloudflare_smtp_relay.Email.Recipients.{split_recipients}
use cloudflare_smtp_relay.Email.Recipients.Assign.{keys, envelope_keys}
use cloudflare_smtp_relay.Email.Recipients.Laws.{split_recipients_partition, split_recipients_lists}
use cloudflare_smtp_relay.Email.Parse.{
  excluded_headers, header_addresses, parse, assemble, read_body_parts, take_part, store_body,
}
use cloudflare_smtp_relay.Email.Parse.Headers.{get_header, last_field}
use cloudflare_smtp_relay.Email.Parse.Parts.{succeeds, all_readable, last_body, is_plain, is_html}
use cloudflare_smtp_relay.Email.Parse.Laws.{succeeds-parse, parse_lem, parse_plain}
use cloudflare_smtp_relay.Tests.Fixtures.{
  unicode, alice, bob, carol, address, header, subject_field, create_reader,
  create_anonymous_reader, raw_message,
}

-- The recipients of the envelope: bob, carol, and bob again.
abbrev rcpts : List Text
rcpts = bob ∷ carol ∷ bob ∷ []

split_recipients_partition_example :
    (contains bob (
        (keys unicode (split_recipients unicode (address bob ∷ []) [] rcpts).to
          ++ keys unicode (split_recipients unicode (address bob ∷ []) [] rcpts).cc)
        ++ keys unicode (split_recipients unicode (address bob ∷ []) [] rcpts).bcc)
      ≡ contains bob (envelope_keys unicode rcpts))
    × IsDistinct (
        (keys unicode (split_recipients unicode (address bob ∷ []) [] rcpts).to
          ++ keys unicode (split_recipients unicode (address bob ∷ []) [] rcpts).cc)
        ++ keys unicode (split_recipients unicode (address bob ∷ []) [] rcpts).bcc)
split_recipients_partition_example =
    split_recipients_partition unicode (address bob ∷ []) [] rcpts bob

split_recipients_lists_example :
    (contains carol (keys unicode (split_recipients unicode (address bob ∷ []) [] rcpts).to) ≡ (
      contains carol (envelope_keys unicode rcpts)
      && contains carol (keys unicode (address bob ∷ []))))
    × (contains carol (keys unicode (split_recipients unicode (address bob ∷ []) [] rcpts).cc) ≡ (
        contains carol (envelope_keys unicode rcpts)
        && (contains carol (keys unicode [])
            && not (contains carol (keys unicode (address bob ∷ []))))))
    × (contains carol (keys unicode (split_recipients unicode (address bob ∷ []) [] rcpts).bcc) ≡ (
        contains carol (envelope_keys unicode rcpts)
        && (not (contains carol (keys unicode (address bob ∷ [])))
            && not (contains carol (keys unicode [])))))
split_recipients_lists_example =
    split_recipients_lists unicode (address bob ∷ []) [] rcpts carol refl

allows_lem_example :
    (allows
        (new_sender_policy (codes "Example.com" ∷ []))
        (address (codes "alice" ++ b'@' ∷ codes "example.com"))
      ≡ (is_empty (codes "Example.com" ∷ [])
          || not (is_empty (codes "example.com"))
            && contains
                (lower_ascii (codes "example.com"))
                (map lower_ascii (codes "Example.com" ∷ []))))
    × (allows (new_sender_policy (codes "Example.com" ∷ [])) (address (codes "example.com"))
        ≡ is_empty (codes "Example.com" ∷ []))
    × (allows (new_sender_policy []) (address alice) ≡ true)
unfolding codes
allows_lem_example =
    allows_lem (codes "Example.com" ∷ []) [] (codes "alice") (codes "example.com") (address alice)
      (ground arith)

succeeds-parse_example :
    succeeds (parse unicode create_reader (pos 0) raw_message alice rcpts)
    ≡ (true && all_readable (create_reader raw_message).reader.parts)
succeeds-parse_example = succeeds-parse unicode create_reader (pos 0) raw_message alice rcpts

-- The message that `Parse` makes of the test message, and of the one whose header names nobody.
abbrev parsed : Message
parsed =
    assemble unicode (length raw_message) (pos 0) header alice rcpts
      (record { text = codes "Hi"; html = [] })

abbrev anonymous : Message
anonymous =
    assemble unicode (length raw_message) (pos 0) (record header { address_list = λ key. ok [] })
      alice rcpts (record { text = codes "Hi"; html = [] })

parsed_ok : parse unicode create_reader (pos 0) raw_message alice rcpts ≡ ok parsed
unfolding parse read_body_parts take_part store_body text_eq codes has_prefix
parsed_ok = refl

anonymous_ok : parse unicode create_anonymous_reader (pos 0) raw_message alice rcpts ≡ ok anonymous
unfolding parse read_body_parts take_part store_body text_eq codes has_prefix
anonymous_ok = refl

parse_lem_example :
    (parsed.from.address ≡ trim_space unicode alice)
    × (contains carol
          ((keys unicode parsed.to ++ keys unicode parsed.cc) ++ keys unicode parsed.bcc)
        ≡ contains carol (envelope_keys unicode rcpts))
    × IsDistinct ((keys unicode parsed.to ++ keys unicode parsed.cc) ++ keys unicode parsed.bcc)
    × (get_header carol parsed.headers ≡ (
        if contains (to_lower unicode carol) excluded_headers
        then none
        else last_field carol none (subject_field ∷ [])))
    × (parsed.text ≡ last_body is_plain [] (create_reader raw_message).reader.parts)
    × (parsed.html ≡ last_body is_html [] (create_reader raw_message).reader.parts)
    × (parsed.size ≡ length raw_message)
parse_lem_example = parse_lem unicode create_reader (pos 0) raw_message alice rcpts carol parsed_ok

parse_plain_example :
    (contains carol (keys unicode anonymous.to) ≡ contains carol (envelope_keys unicode rcpts))
    × (anonymous.cc ≡ [])
    × (anonymous.bcc ≡ [])
unfolding header_addresses
parse_plain_example =
    parse_plain unicode create_anonymous_reader (pos 0) raw_message alice rcpts carol anonymous_ok
      refl refl
