-- ===== src/Email/Recipients/Assign.antt =====
-- Laws of the loops of `splitRecipients` (internal/email/parse.go), one by one.
use mathlib.Core.List.{append_assoc, map-append}
use cloudflare_smtp_relay.Shared.{
  ◌≡◌, refl, sym, ◌∙◌, Bool, true, false, not, ◌&&◌, ◌||◌, List, [], ◌∷◌, ◌++◌, map, arith,
  if◌then◌else◌,
}
use cloudflare_smtp_relay.Shared.Text.{
  Text, text_eq, text_eq_iff, is_empty, contains, IsDistinct, contains-snoc, IsDistinct-snoc,
  Unicode, to_lower, trim_space,
}
use cloudflare_smtp_relay.Email.Message.{Address}
use cloudflare_smtp_relay.Email.Recipients.{
  Assigning, envelope_set, assign, assign_header, assign_envelope,
}

unfold_contains :
    (k x : Text) (xs : List Text) → contains k (x ∷ xs) ≡ (text_eq k x || contains k xs)
unfolding contains
unfold_contains k x xs = refl

module _ (u : Unicode) where
  -- The string by which recipients are compared.
  abbrev pub key_of : Address → Text
  key_of a = to_lower u a.address

  abbrev pub keys : List Address → List Text
  keys = map key_of

  -- The keys of the envelope's recipients that are not blank.
  abbrev pub envelope_keys : List Text → List Text
  envelope_keys [] = []
  envelope_keys (r ∷ rcpts) =
      let key = to_lower u (trim_space u r) in
      if is_empty key then envelope_keys rcpts else key ∷ envelope_keys rcpts

  -- The set holds the keys assigned, in the lists before (`ks`) and in this one, each once.
  abbrev pub IsSound : List Text → Assigning → Type 0
  IsSound ks s =
      ((k : Text) → contains k s.assigned ≡ contains k (ks ++ keys s.out))
      × IsDistinct (ks ++ keys s.out)

  pub contains-envelope_set :
      (k : Text) (set rcpts : List Text)
      → contains k (envelope_set u set rcpts) ≡ (contains k set || contains k (envelope_keys rcpts))
  unfolding envelope_set contains
  contains-envelope_set k set [] = ground arith
  contains-envelope_set k set (r ∷ rcpts) =
      let key = to_lower u (trim_space u r) in
      ground (arith, contains-envelope_set k set rcpts, contains-envelope_set k (key ∷ set) rcpts)

  -- No key of the envelope is empty.
  pub contains_nil-envelope_keys : (rcpts : List Text) → contains [] (envelope_keys rcpts) ≡ false
  unfolding contains text_eq
  contains_nil-envelope_keys [] = refl
  contains_nil-envelope_keys (r ∷ rcpts) = ground (arith, contains_nil-envelope_keys rcpts)

  keys-snoc :
      (ks : List Text) (out : List Address) (a : Address)
      → ks ++ keys (out ++ a ∷ []) ≡ (ks ++ keys out) ++ key_of a ∷ []
  keys-snoc ks out a = simp (map-append, append_assoc)

  assign-IsSound :
      (ks : List Text) (skip : Bool) (a : Address) (s : Assigning)
      → IsSound ks s
      → (skip ≡ false → contains (key_of a) s.assigned ≡ false)
      → IsSound ks (assign skip (key_of a) a s)
  unfolding assign
  assign-IsSound ks true a s h new = h
  assign-IsSound ks false a s h new = (
    λ k. rw (keys-snoc ks s.out a) (
        ground (
          arith,
          unfold_contains k (key_of a) s.assigned,
          contains-snoc k (key_of a) (ks ++ keys s.out),
          h.0 k,
        )),
    rw (keys-snoc ks s.out a)
        (IsDistinct-snoc (key_of a) (ks ++ keys s.out) h.1 (sym (h.0 (key_of a)) ∙ new refl)),
  )

  contains-assign :
      (k : Text) (ks : List Text) (skip : Bool) (a : Address) (s : Assigning)
      → contains k (ks ++ keys (assign skip (key_of a) a s).out)
        ≡ (contains k (ks ++ keys s.out) || not skip && text_eq k (key_of a))
  unfolding assign
  contains-assign k ks true a s = ground arith
  contains-assign k ks false a s =
      rw (keys-snoc ks s.out a) (contains-snoc k (key_of a) (ks ++ keys s.out))

  pub assign_header-IsSound :
      (ks envelope : List Text) (s : Assigning) (header : List Address)
      → IsSound ks s
      → IsSound ks (assign_header u envelope s header)
  unfolding assign_header
  assign_header-IsSound ks envelope s [] h = h
  assign_header-IsSound ks envelope s (a ∷ header) h =
      let skip =
        is_empty (key_of a)
        || (not (contains (key_of a) envelope) || contains (key_of a) s.assigned) in
      assign_header-IsSound ks envelope (assign skip (key_of a) a s) header
        (assign-IsSound ks skip a s h (λ e. ground arith))

  pub assign_envelope-IsSound :
      (ks : List Text) (s : Assigning) (rcpts : List Text)
      → IsSound ks s
      → IsSound ks (assign_envelope u s rcpts)
  unfolding assign_envelope
  assign_envelope-IsSound ks s [] h = h
  assign_envelope-IsSound ks s (r ∷ rcpts) h =
      let a : Address = record { name = []; address = trim_space u r } in
      let skip = is_empty (key_of a) || contains (key_of a) s.assigned in
      assign_envelope-IsSound ks (assign skip (key_of a) a s) rcpts
        (assign-IsSound ks skip a s h (λ e. ground arith))

  -- A header's loop adds the keys of the header that are in the envelope.
  pub contains-assign_header :
      (k : Text) (ks envelope : List Text) (s : Assigning) (header : List Address)
      → IsSound ks s
      → contains k (ks ++ keys (assign_header u envelope s header).out) ≡ (
          contains k (ks ++ keys s.out)
          || contains k envelope && (not (is_empty k) && contains k (keys header)))
  unfolding assign_header contains
  contains-assign_header k ks envelope s [] h = ground arith
  contains-assign_header k ks envelope s (a ∷ header) h =
      let skip =
        is_empty (key_of a)
        || (not (contains (key_of a) envelope) || contains (key_of a) s.assigned) in
      rw
        (contains-assign_header k ks envelope (assign skip (key_of a) a s) header
          (assign-IsSound ks skip a s h (λ e. ground arith)))
        (rw (contains-assign k ks skip a s)
          (ground (arith, h.0 (key_of a), text_eq_iff k (key_of a))))

  -- The envelope's loop adds the keys of the envelope.
  pub contains-assign_envelope :
      (k : Text) (ks : List Text) (s : Assigning) (rcpts : List Text)
      → IsSound ks s
      → contains k (ks ++ keys (assign_envelope u s rcpts).out)
        ≡ (contains k (ks ++ keys s.out) || contains k (envelope_keys rcpts))
  unfolding assign_envelope contains
  contains-assign_envelope k ks s [] h = ground arith
  contains-assign_envelope k ks s (r ∷ rcpts) h =
      let a : Address = record { name = []; address = trim_space u r } in
      let skip = is_empty (key_of a) || contains (key_of a) s.assigned in
      rw
        (contains-assign_envelope k ks (assign skip (key_of a) a s) rcpts
          (assign-IsSound ks skip a s h (λ e. ground arith)))
        (rw (contains-assign k ks skip a s)
          (ground (arith, h.0 (key_of a), text_eq_iff k (key_of a))))
