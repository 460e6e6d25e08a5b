-- ===== src/Email/Recipients/Laws.antt =====
-- Laws of `splitRecipients` (internal/email/parse.go).
use mathlib.Core.List.{append-nil}
use cloudflare_smtp_relay.Shared.{
  ◌≡◌, refl, ◌∙◌, inl, inr, true, false, not, ◌&&◌, ◌||◌, List, [], ◌∷◌, ◌++◌, arith, Bool-cases,
}
use cloudflare_smtp_relay.Shared.Text.{
  Text, text_eq_iff, is_empty, is_empty_iff, contains, IsDistinct, contains-append, Unicode, split,
}
use cloudflare_smtp_relay.Email.Message.{Address}
use cloudflare_smtp_relay.Email.Recipients.{
  Assigning, Recipients, envelope_set, assign_header, assign_envelope, split_recipients,
}
use cloudflare_smtp_relay.Email.Recipients.Assign.{
  keys, envelope_keys, IsSound, contains-envelope_set, contains_nil-envelope_keys,
  assign_header-IsSound, assign_envelope-IsSound, contains-assign_header, contains-assign_envelope,
}

contains-right_of_IsDistinct :
    (k : Text) (xs ys : List Text)
    → IsDistinct (xs ++ ys)
    → contains k ys ≡ (contains k (xs ++ ys) && not (contains k xs))
unfolding contains
contains-right_of_IsDistinct k [] ys h = ground arith
contains-right_of_IsDistinct k (x ∷ xs) ys h = ground (
  arith,
  contains-right_of_IsDistinct k xs ys h.1,
  contains-append x xs ys,
  contains-append k xs ys,
  text_eq_iff k x,
)

module _ (u : Unicode) (header_to header_cc : List Address) (rcpts : List Text) where
  abbrev start : List Text → Assigning
  start assigned = record { assigned = assigned; out = [] }

  abbrev envelope : List Text
  envelope = envelope_set u [] rcpts

  abbrev to_loop : Assigning
  to_loop = assign_header u envelope (start []) header_to

  abbrev cc_loop : Assigning
  cc_loop = assign_header u envelope (start to_loop.assigned) header_cc

  abbrev bcc_loop : Assigning
  bcc_loop = assign_envelope u (start cc_loop.assigned) rcpts

  next-IsSound :
      (ks : List Text) (s : Assigning)
      → IsSound u ks s
      → IsSound u (ks ++ keys u s.out) (start s.assigned)
  next-IsSound ks s h = (λ k. rw append-nil (h.0 k), rw append-nil h.1)

  to_loop-IsSound : IsSound u [] to_loop
  to_loop-IsSound = assign_header-IsSound u [] envelope (start []) header_to (λ k. refl, tt)

  cc_loop-IsSound : IsSound u (keys u to_loop.out) cc_loop
  cc_loop-IsSound =
      assign_header-IsSound u (keys u to_loop.out) envelope (start to_loop.assigned) header_cc
        (next-IsSound [] to_loop to_loop-IsSound)

  bcc_loop-IsSound : IsSound u (keys u to_loop.out ++ keys u cc_loop.out) bcc_loop
  bcc_loop-IsSound =
      assign_envelope-IsSound u (keys u to_loop.out ++ keys u cc_loop.out) (start cc_loop.assigned)
        rcpts (next-IsSound (keys u to_loop.out) cc_loop cc_loop-IsSound)

  module _ (k : Text) where
    envelope_lem : contains k envelope ≡ contains k (envelope_keys u rcpts)
    envelope_lem = contains-envelope_set u k [] rcpts ∙ (unfold contains in refl)

    -- A key of the envelope is not empty.
    nonempty :
        (contains k (envelope_keys u rcpts) && not (is_empty k))
        ≡ contains k (envelope_keys u rcpts)
    nonempty = ground (arith, contains_nil-envelope_keys u rcpts, is_empty_iff k)

    in_to :
        contains k (keys u to_loop.out)
        ≡ (contains k (envelope_keys u rcpts) && contains k (keys u header_to))
    unfolding contains
    in_to = ground (
      arith,
      envelope_lem,
      nonempty,
      contains-assign_header u k [] envelope (start []) header_to (λ k. refl, tt),
    )

    to_or_cc : contains k (keys u to_loop.out ++ keys u cc_loop.out) ≡ (
        contains k (envelope_keys u rcpts)
        && (contains k (keys u header_to) || contains k (keys u header_cc)))
    unfolding contains
    to_or_cc = ground (
      arith,
      envelope_lem,
      nonempty,
      in_to,
      contains-append k (keys u to_loop.out) [],
      contains-assign_header u k (keys u to_loop.out) envelope (start to_loop.assigned) header_cc
          (next-IsSound [] to_loop to_loop-IsSound),
    )

    in_cc : contains k (keys u cc_loop.out) ≡ (
        contains k (envelope_keys u rcpts)
        && (contains k (keys u header_cc) && not (contains k (keys u header_to))))
    in_cc = ground (
      arith,
      in_to,
      to_or_cc,
      contains-right_of_IsDistinct k (keys u to_loop.out) (keys u cc_loop.out) cc_loop-IsSound.1,
    )

    all_in :
        contains k ((keys u to_loop.out ++ keys u cc_loop.out) ++ keys u bcc_loop.out)
        ≡ contains k (envelope_keys u rcpts)
    unfolding contains
    all_in = ground (
      arith,
      to_or_cc,
      contains-append k (keys u to_loop.out ++ keys u cc_loop.out) [],
      contains-assign_envelope u k (keys u to_loop.out ++ keys u cc_loop.out)
          (start cc_loop.assigned) rcpts
          (next-IsSound (keys u to_loop.out) cc_loop cc_loop-IsSound),
    )

    in_bcc : contains k (keys u bcc_loop.out) ≡ (
        contains k (envelope_keys u rcpts)
        && (not (contains k (keys u header_to)) && not (contains k (keys u header_cc))))
    in_bcc = ground (
      arith,
      to_or_cc,
      all_in,
      contains-right_of_IsDistinct k (keys u to_loop.out ++ keys u cc_loop.out)
          (keys u bcc_loop.out) bcc_loop-IsSound.1,
    )

  -- Where a To or a Cc header names somebody: the To list reaches the envelope's recipients that
  -- the To header names, the Cc list those that the Cc header names and the To header does not,
  -- and the Bcc list those that neither names.
  pub split_recipients_lists :
      (k : Text)
      → (is_empty header_to && is_empty header_cc) ≡ false
      → (contains k (keys u (split_recipients u header_to header_cc rcpts).to)
          ≡ (contains k (envelope_keys u rcpts) && contains k (keys u header_to)))
        × (contains k (keys u (split_recipients u header_to header_cc rcpts).cc) ≡ (
            contains k (envelope_keys u rcpts)
            && (contains k (keys u header_cc) && not (contains k (keys u header_to)))))
        × (contains k (keys u (split_recipients u header_to header_cc rcpts).bcc) ≡ (
            contains k (envelope_keys u rcpts)
            && (not (contains k (keys u header_to)) && not (contains k (keys u header_cc)))))
  unfolding split_recipients
  split_recipients_lists k e = rw e (in_to k, in_cc k, in_bcc k)

  abbrev plain_loop : Assigning
  plain_loop = assign_envelope u (start []) rcpts

  plain_loop-IsSound : IsSound u [] plain_loop
  plain_loop-IsSound = assign_envelope-IsSound u [] (start []) rcpts (λ k. refl, tt)

  plain_in : (k : Text) → contains k (keys u plain_loop.out) ≡ contains k (envelope_keys u rcpts)
  unfolding contains
  plain_in k = contains-assign_envelope u k [] (start []) rcpts (λ k. refl, tt)

  abbrev result : Recipients
  result = split_recipients u header_to header_cc rcpts

  -- The To, Cc and Bcc lists together reach each recipient of the envelope that is not blank,
  -- nobody else, and nobody twice.
  pub split_recipients_partition :
      (k : Text)
      → (contains k ((keys u result.to ++ keys u result.cc) ++ keys u result.bcc)
          ≡ contains k (envelope_keys u rcpts))
        × IsDistinct ((keys u result.to ++ keys u result.cc) ++ keys u result.bcc)
  unfolding split_recipients
  split_recipients_partition k = elim (Bool-cases (is_empty header_to && is_empty header_cc)) [
    | inl plain ↦ simp (plain, append-nil) (plain_in k, plain_loop-IsSound.1)
    | inr split ↦ rw split (all_in k, bcc_loop-IsSound.1)
  ]

  -- Where neither header names anybody, every recipient of the envelope is in the To list, and the
  -- Cc and Bcc lists are empty.
  pub split_recipients_plain :
      (k : Text)
      → (is_empty header_to && is_empty header_cc) ≡ true
      → (contains k (keys u result.to) ≡ contains k (envelope_keys u rcpts))
        × (result.cc ≡ [])
        × (result.bcc ≡ [])
  unfolding split_recipients
  split_recipients_plain k e = rw e (plain_in k, refl, refl)
