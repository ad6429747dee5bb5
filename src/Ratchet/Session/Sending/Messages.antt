-- ===== src/Ratchet/Session/Sending/Messages.antt =====
-- What a session sends: the message of its counter, and the message that rotates its ratchet.
use noise_ssu.Base.{
  ℕ, ◌+◌, ◌≤◌, ◌<◌, ◌≡◌, refl, sym, ◌∙◌, ap, true, false, not, ◌&&◌, some, List, [], ◌∷◌, ◌++◌, ltb,
  leb, arith, length, take, drop, ok, All, take-append, drop-append, take_all, drop_beyond,
  append_assoc, length-drop, append-nil,
}
use noise_ssu.Base.U32.{add32}
use noise_ssu.Ratchet.Payload.{PayloadBlock, serialize_size, max_block_data_size}
use noise_ssu.Ratchet.Payload.Fields.{length-zeros}
use noise_ssu.Ratchet.Builder.{total_size}
use noise_ssu.Ratchet.Builder.RoundTrip.{encoding, encodings, serialize-ok}
use noise_ssu.Ratchet.Session.{Crypto, Session}
use noise_ssu.Ratchet.Session.Ratchets.{
  next_key_and_tag, advance_ratchets, attempt_dh_ratchet_rotation, next_message_key,
  generate_and_track_session_tag, get_pending_next_keys, get_pending_acks,
}
use noise_ssu.Ratchet.Session.Sending.{
  write_control, with_control, build_existing_session_message, is_some, prepend_pending_next_keys,
  encrypt_existing_session,
}

-- That a block has a length that fits its field.
abbrev pub IsSmall : PayloadBlock → Type 0
IsSmall b = length b.bytes ≤ max_block_data_size

write_control-ok :
    (bs : List PayloadBlock) (plaintext buf : List ℕ)
    → All IsSmall bs
    → length buf ≡ total_size bs + length plaintext
    → write_control bs plaintext buf ≡ ok (encodings bs ++ plaintext)
unfolding write_control encodings total_size
write_control-ok [] plaintext buf small exact =
    let whole : take (length buf) plaintext ≡ plaintext =
      ap (λ n. take n plaintext) (omega (arith, exact)) ∙ take_all plaintext in
    let rest : drop (length plaintext) buf ≡ [] = drop_beyond _ buf (omega (arith, exact)) in
    rw (whole, rest, append-nil) refl
write_control-ok (b ∷ bs) plaintext buf small exact =
    let n = serialize_size b in
    let rest = drop n buf in
    let left : length rest ≡ total_size bs + length plaintext =
      omega (arith, length-drop n buf, exact) in
    let cut : length (encoding b) ≡ n = omega arith in
    rw
      (
        serialize-ok b buf (omega (arith, exact)) small.0,
        write_control,
        drop-append n (encoding b) rest cut,
        write_control-ok bs plaintext rest small.1 left,
        write_control,
        take-append n (encoding b) rest cut,
      )
      (ap ok (sym (append_assoc (encoding b) (encodings bs) plaintext)))

-- The pending blocks stand before the plaintext, each as it is serialised.
with_control-ok :
    (bs : List PayloadBlock) (plaintext : List ℕ)
    → All IsSmall bs
    → with_control bs plaintext ≡ ok (encodings bs ++ plaintext)
unfolding with_control encodings
with_control-ok [] plaintext small = refl
with_control-ok (b ∷ bs) plaintext small =
    write_control-ok (b ∷ bs) plaintext _ small (length-zeros _)

module _ (C : Crypto) (s : Session C) where
  -- The guards of `encryptExistingSession`, and the bound of the counter.
  abbrev pub MaySend : Type 0
  MaySend =
      ((s.is_initiator && is_some s.handshake_state) ≡ false)
      × ((not s.is_initiator && s.awaiting_first_es) ≡ false)
      × (s.message_counter < 65535)

  -- The session after a message without a rotation.
  abbrev pub after_message : C.Sym → C.Tags → ℕ → Session C
  after_message sym tags now = record s {
    symmetric_ratchet = sym;
    tag_ratchet = tags;
    dh_ratchet_counter = s.dh_ratchet_counter + 1;
    pending_next_keys = [];
    pending_acks = [];
    last_used = now;
    message_counter = s.message_counter + 1;
  }

  -- The session once the ratchets have given a key and a tag.
  abbrev after_ratchets : C.Sym → C.Tags → Session C
  after_ratchets sym tags = record s {
    symmetric_ratchet = sym;
    tag_ratchet = tags;
    dh_ratchet_counter = s.dh_ratchet_counter + 1;
  }

  no_rotation :
      s.dh_ratchet_counter < 49
      → attempt_dh_ratchet_rotation C s
        ≡ (ok tt, record s { dh_ratchet_counter = s.dh_ratchet_counter + 1 })
  unfolding attempt_dh_ratchet_rotation
  no_rotation early =
      let counted : add32 s.dh_ratchet_counter 1 ≡ s.dh_ratchet_counter + 1 = omega arith in
      let soon : ltb (s.dh_ratchet_counter + 1) 50 ≡ true = ground (arith, early) in
      rw (counted, soon) refl

  pub key_then_tag :
      (k tag : ℕ) (sym : C.Sym) (tags : C.Tags)
      → C.derive_message_key s.symmetric_ratchet s.message_counter ≡ some (k, sym)
      → C.next_tag s.tag_ratchet ≡ some (tag, tags)
      → next_key_and_tag C s
        ≡ (ok (k, tag), record s { symmetric_ratchet = sym; tag_ratchet = tags })
  unfolding next_key_and_tag next_message_key generate_and_track_session_tag
  key_then_tag k tag sym tags keys next =
      rw (keys, next_message_key) (rw (next, generate_and_track_session_tag) refl)

module _ (C : Crypto) (s : Session C) (may : MaySend C s) where
  advance_lem :
      (k tag : ℕ) (sym : C.Sym) (tags : C.Tags)
      → s.dh_ratchet_counter < 49
      → C.derive_message_key s.symmetric_ratchet s.message_counter ≡ some (k, sym)
      → C.next_tag s.tag_ratchet ≡ some (tag, tags)
      → advance_ratchets C s ≡ (ok (k, tag), after_ratchets C s sym tags)
  unfolding advance_ratchets
  advance_lem k tag sym tags early keys next =
      let bounded : leb 65535 s.message_counter ≡ false = ground (arith, may.2) in
      let counted : Session C = record s { dh_ratchet_counter = s.dh_ratchet_counter + 1 } in
      rw (bounded, no_rotation C s early) (key_then_tag C counted k tag sym tags keys next)

pub prepend_lem :
    (C : Crypto) (s : Session C) (plaintext : List ℕ)
    → All IsSmall (s.pending_next_keys ++ s.pending_acks)
    → prepend_pending_next_keys C plaintext s ≡ (
      ok (encodings (s.pending_next_keys ++ s.pending_acks) ++ plaintext),
      record s { pending_next_keys = []; pending_acks = [] },
    )
unfolding prepend_pending_next_keys get_pending_next_keys get_pending_acks
prepend_lem C s plaintext small = rw (with_control-ok _ plaintext small) refl

module _ (C : Crypto) (s : Session C) (may : MaySend C s) where
  -- A message that rotates nothing is the plaintext after the pending blocks, sealed by the key and
  -- the tag that the chains give for the message counter.
  pub encrypt_lem :
      (plaintext : List ℕ) (now k tag : ℕ) (sym : C.Sym) (tags : C.Tags) (ciphertext auth : List ℕ)
      → All IsSmall (s.pending_next_keys ++ s.pending_acks)
      → s.dh_ratchet_counter < 49
      → C.derive_message_key s.symmetric_ratchet s.message_counter ≡ some (k, sym)
      → C.next_tag s.tag_ratchet ≡ some (tag, tags)
      → C.seal k s.message_counter tag
          (encodings (s.pending_next_keys ++ s.pending_acks) ++ plaintext)
        ≡ some (ciphertext, auth)
      → encrypt_existing_session C plaintext now s
        ≡ (ok (build_existing_session_message tag ciphertext auth), after_message C s sym tags now)
  unfolding encrypt_existing_session
  encrypt_lem plaintext now k tag sym tags ciphertext auth small early keys next sealed =
      let sent : add32 s.message_counter 1 ≡ s.message_counter + 1 = omega (arith, may.2) in
      let advanced = advance_lem C s may k tag sym tags early keys next in
      let prepended = prepend_lem C (after_ratchets C s sym tags) plaintext small in
      rw (may.0, may.1, advanced, prepended, sealed, sent) refl
