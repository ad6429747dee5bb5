-- ===== src/Ratchet/Session/Sending/Rotation.antt =====
-- The message that rotates the ratchet of the sender.
use noise_ssu.Base.{
  ℕ, ◌+◌, ◌≤◌, ◌<◌, ◌≡◌, refl, sym, true, false, some, List, [], ◌∷◌, ◌++◌, ltb, leb, arith, ok,
  All,
}
use noise_ssu.Base.U32.{add32}
use noise_ssu.Ratchet.Payload.{PayloadBlock, new_next_key_block}
use noise_ssu.Ratchet.Builder.RoundTrip.{encodings}
use noise_ssu.Ratchet.Session.{Crypto, Session}
use noise_ssu.Ratchet.Session.Ratchets.{
  advance_ratchets, attempt_dh_ratchet_rotation, perform_dh_ratchet_step, after_rotation,
  new_key_pair, apply_ratchet_keys, perform_dh_ratchet, derive_tag_and_sym_keys, queue_next_key,
}
use noise_ssu.Ratchet.Session.Sending.{build_existing_session_message, encrypt_existing_session}
use noise_ssu.Ratchet.Session.Sending.Messages.{MaySend, IsSmall, key_then_tag, prepend_lem}

module _ (C : Crypto) (s : Session C) where
  -- The block that announces a new key.
  abbrev pub announcement : List ℕ → PayloadBlock
  announcement pub_key = new_next_key_block s.send_key_id (some pub_key) false true

  -- The session after the step.
  abbrev rotated : List ℕ → C.Dh → ℕ → ℕ → Session C
  rotated pub_key dh tag_key sym_key = record s {
    dh_ratchet = dh;
    symmetric_ratchet = C.new_sym sym_key;
    tag_ratchet = C.new_tags tag_key;
    new_ephemeral_pub = some pub_key;
    pending_next_keys = s.pending_next_keys ++ announcement pub_key ∷ [];
    awaiting_reverse_key = true;
    send_key_id = s.send_key_id + 1;
  }

  apply_sending :
      (sending receiving tag_key sym_key : ℕ) (dh : C.Dh)
      → C.perform_ratchet s.dh_ratchet ≡ some (sending, receiving, dh)
      → C.derive_tag_keys sending ≡ some (tag_key, sym_key)
      → apply_ratchet_keys C true s ≡ (
        ok tt,
        record s {
          dh_ratchet = dh;
          symmetric_ratchet = C.new_sym sym_key;
          tag_ratchet = C.new_tags tag_key;
        },
      )
  unfolding apply_ratchet_keys perform_dh_ratchet derive_tag_and_sym_keys
  apply_sending sending receiving tag_key sym_key dh performed derived =
      rw (performed, perform_dh_ratchet) (rw (derived) refl)

module _ (C : Crypto) (s : Session C) where
  step_lem :
      (pub_key : List ℕ) (sending receiving tag_key sym_key : ℕ) (dh dh' : C.Dh)
      → s.send_key_id < 32767
      → C.generate_key_pair s.dh_ratchet ≡ some (pub_key, dh)
      → C.perform_ratchet dh ≡ some (sending, receiving, dh')
      → C.derive_tag_keys sending ≡ some (tag_key, sym_key)
      → perform_dh_ratchet_step C s ≡ (ok tt, rotated C s pub_key dh' tag_key sym_key)
  unfolding perform_dh_ratchet_step new_key_pair queue_next_key
  step_lem pub_key sending receiving tag_key sym_key dh dh' low made performed derived =
      let bounded : leb 32767 s.send_key_id ≡ false = ground (arith, low) in
      let applied =
        apply_sending C (record s { dh_ratchet = dh }) sending receiving tag_key sym_key dh'
          performed derived in
      rw (bounded, made, new_key_pair) (rw applied refl)

-- A rotation that is due and that succeeds: what the ratchet of the session gives.
pub record Rotation (C : Crypto) (s : Session C) : Type 0 where
  pub pub_key : List ℕ
  pub sending : ℕ
  pub receiving : ℕ
  pub tag_key : ℕ
  pub sym_key : ℕ
  pub dh : C.Dh
  pub dh' : C.Dh
  pub due : 49 ≤ s.dh_ratchet_counter
  pub counts : s.dh_ratchet_counter < 4294967295
  pub low : s.send_key_id < 32767
  pub made : C.generate_key_pair s.dh_ratchet ≡ some (pub_key, dh)
  pub performed : C.perform_ratchet dh ≡ some (sending, receiving, dh')
  pub derived : C.derive_tag_keys sending ≡ some (tag_key, sym_key)

module _ (C : Crypto) (s : Session C) (r : Rotation C s) where
  -- The session once it was rotated.
  abbrev after : Session C
  after = record (rotated C s r.pub_key r.dh' r.tag_key r.sym_key) {
    dh_ratchet_counter = 0;
    consecutive_dh_failures = 0;
  }

  attempt_lem : attempt_dh_ratchet_rotation C s ≡ (ok tt, after)
  unfolding attempt_dh_ratchet_rotation after_rotation
  attempt_lem =
      let counted : Session C = record s { dh_ratchet_counter = s.dh_ratchet_counter + 1 } in
      let added : add32 s.dh_ratchet_counter 1 ≡ s.dh_ratchet_counter + 1 =
        omega (arith, r.counts) in
      let due : ltb (s.dh_ratchet_counter + 1) 50 ≡ false = ground (arith, r.due) in
      let step =
        step_lem C counted r.pub_key r.sending r.receiving r.tag_key r.sym_key r.dh r.dh' r.low
          r.made r.performed r.derived in
      rw (added, due) (rw step refl)

  advance_rotated :
      (k tag : ℕ) (sym : C.Sym) (tags : C.Tags)
      → s.message_counter < 65535
      → C.derive_message_key (C.new_sym r.sym_key) s.message_counter ≡ some (k, sym)
      → C.next_tag (C.new_tags r.tag_key) ≡ some (tag, tags)
      → advance_ratchets C s
        ≡ (ok (k, tag), record after { symmetric_ratchet = sym; tag_ratchet = tags })
  unfolding advance_ratchets
  advance_rotated k tag sym tags room keys next =
      let bounded : leb 65535 s.message_counter ≡ false = ground (arith, room) in
      rw (bounded, attempt_lem) (key_then_tag C after k tag sym tags keys next)

module _ (C : Crypto) (s : Session C) (r : Rotation C s) where
  -- Where a rotation is due, the session may send, its control blocks fit their length fields and the
  -- calls of the ratchets succeed: the message is sealed by the key, and sent under the tag, of the new
  -- chain, and the block that announces the new public key to the peer stands inside it.
  pub rotation_seals_announcement :
      (plaintext : List ℕ) (now k tag : ℕ) (sym : C.Sym) (tags : C.Tags) (ciphertext auth : List ℕ)
      → MaySend C s
      → All IsSmall ((s.pending_next_keys ++ announcement C s r.pub_key ∷ []) ++ s.pending_acks)
      → C.derive_message_key (C.new_sym r.sym_key) s.message_counter ≡ some (k, sym)
      → C.next_tag (C.new_tags r.tag_key) ≡ some (tag, tags)
      → C.seal k s.message_counter tag (
          encodings ((s.pending_next_keys ++ announcement C s r.pub_key ∷ []) ++ s.pending_acks)
          ++ plaintext)
        ≡ some (ciphertext, auth)
      → (encrypt_existing_session C plaintext now s).0
        ≡ ok (build_existing_session_message tag ciphertext auth)
  unfolding encrypt_existing_session
  rotation_seals_announcement plaintext now k tag sym tags ciphertext auth may small keys next
        sealed =
      let advanced = advance_rotated C s r k tag sym tags may.2 keys next in
      let prepended =
        prepend_lem C (record (after C s r) { symmetric_ratchet = sym; tag_ratchet = tags })
          plaintext small in
      rw (may.0, may.1, advanced, prepended, sealed) refl
