-- ===== src/Ratchet/Manager/Messages.antt =====
-- ratchet/session_decrypt.go and session_encrypt.go: messages of the manager's existing sessions, and
-- those under a one-time key.
pub mod Delivery
pub mod UsedTags
pub mod Start
use noise_ssu.Base.{
  ℕ, zero, suc, ◌+◌, ◌-◌, ◌*◌, Bool, true, false, Option, none, some, List, [], ◌∷◌, ◌++◌, ltb, leb,
  ◌==◌, if◌then◌else◌, length, take, drop, min, Outcome, ok, err,
}
use noise_ssu.Base.Bytes.{uint32}
use noise_ssu.Base.Dict.{lookup, insert, erase}
use noise_ssu.Ratchet.Payload.{
  PayloadBlock, termination, message_number, ack_request, ack, message_number_of, acks_of,
  new_ack_block,
}
use noise_ssu.Ratchet.Builder.{parse_payload}
use noise_ssu.Ratchet.Session.{
  Crypto, Session, SessionError, max_message_number, message_too_short, no_counter_matches,
  plaintext_empty, no_session, seal_failed,
}
use noise_ssu.Ratchet.Session.Sending.{encrypt_existing_session, is_some}
use noise_ssu.Ratchet.Session.Receiving.{decrypt_existing_session, trim_recv_window_by_pn}
use noise_ssu.Ratchet.Manager.{
  Manager, store, lookup_session_by_tag, validate_and_consume_tag_from_session,
  remove_session_by_pointer, at_pointer,
}
use noise_ssu.Ratchet.Manager.Tags.{replenish_tag_window_outside_lock}

-- The tag in the first eight bytes, and the rest.
unfoldable pub split_tag : List ℕ → Option (ℕ × List ℕ)
split_tag (a ∷ b ∷ c ∷ d ∷ e ∷ f ∷ g ∷ h ∷ rest) =
    some (uint32 a b c d * 0x1_0000_0000 + uint32 e f g h, rest)
split_tag _ = none

module _ (C : Crypto) where
  -- `Session.processAckRequest`: an acknowledgment of the counters below the base is queued.
  unfoldable pub process_ack_request : Session C → Session C
  process_ack_request s =
      let highest_consumed =
        if ltb 1 s.recv_window_base then min (s.recv_window_base - 1) max_message_number else 0 in
      record s {
        pending_acks =
            s.pending_acks
            ++ new_ack_block (record { tag_set_id = s.recv_key_id; n = highest_consumed } ∷ [])
              ∷ [];
      }

  unfoldable pub process_ack : PayloadBlock → Session C → Session C
  process_ack b s = elim (acks_of b) [
    | err e ↦ s
    | ok acks ↦ record s { last_acked_entries = acks }
  ]

  unfoldable pub process_message_number : PayloadBlock → Session C → Session C
  process_message_number b s = elim (message_number_of b) [
    | err e ↦ s
    | ok pn ↦ trim_recv_window_by_pn C pn s
  ]

  -- A control block that does not end the session.
  unfoldable pub process_block : PayloadBlock → Session C → Session C
  process_block b s =
      if b.block_type == message_number
      then process_message_number b s
      else if b.block_type == ack_request
      then process_ack_request s
      else if b.block_type == ack
      then process_ack b s
      else s

  abbrev pub update_at : ℕ → (Session C → Session C) → Manager C → Manager C
  update_at p change sm = elim (lookup p sm.heap) [ none ↦ sm | some s ↦ store C p (change s) sm ]

  -- The loop of `processDecryptedESBlocks`, which a termination ends.
  unfoldable pub process_blocks : ℕ → List PayloadBlock → Manager C → Manager C
  process_blocks p [] sm = sm
  process_blocks p (b ∷ bs) sm =
      let later = process_blocks p bs (update_at p (process_block b) sm) in
      if b.block_type == termination then remove_session_by_pointer C p sm else later

  unfoldable pub process_decrypted_es_blocks : ℕ → List ℕ → Manager C → Manager C
  process_decrypted_es_blocks p plaintext sm = elim (parse_payload plaintext) [
    | none ↦ sm
    | some (err e) ↦ sm
    | some (ok blocks) ↦ process_blocks p blocks sm
  ]

  abbrev pub replenish_if : Bool → ℕ → Manager C → Manager C
  replenish_if needed p sm = if needed then replenish_tag_window_outside_lock C p sm else sm

  -- After the decryption: tags are replenished, and the control blocks of a plaintext are processed.
  abbrev pub after_decryption :
      ℕ
      → Bool
      → Outcome SessionError (List ℕ) × Manager C
      → Outcome SessionError (List ℕ) × Manager C
  after_decryption p needs (err e, sm) = (err e, replenish_if needs p sm)
  after_decryption p needs (ok plaintext, sm) =
      (ok plaintext, process_decrypted_es_blocks p plaintext (replenish_if needs p sm))

  -- The session of the tag; the result is `none` where no valid session has it.
  unfoldable pub decrypt_with :
      ℕ → List ℕ → ℕ → ℕ × Option ℕ → Manager C → Option (Outcome SessionError (List ℕ)) × Manager C
  decrypt_with tag body now (p, hint) sm = elim (lookup p sm.heap) [
    | none ↦ (none, sm)
    | some s ↦
        let ((valid, needs), s') =
          validate_and_consume_tag_from_session C now sm.session_timeout s tag in
        let (r, sm') =
          after_decryption p needs
            (at_pointer C p (decrypt_existing_session C body tag hint now) (store C p s' sm)) in
        if valid then (some r, sm') else (none, sm)
  ]

  abbrev pub decrypt_found :
      ℕ
      → List ℕ
      → ℕ
      → Option (ℕ × Option ℕ) × Manager C
      → Option (Outcome SessionError (List ℕ)) × Manager C
  decrypt_found tag body now (none, sm) = (none, sm)
  decrypt_found tag body now (some found, sm) = decrypt_with tag body now found sm

  unfoldable pub try_decrypt_existing :
      ℕ → List ℕ → ℕ → Manager C → Option (Outcome SessionError (List ℕ)) × Manager C
  try_decrypt_existing tag body now sm = decrypt_found tag body now (lookup_session_by_tag C tag sm)

  abbrev pub found_session : ℕ → ℕ → Option (ℕ × Option ℕ) × Manager C → Bool × Manager C
  found_session tag now (none, sm) = (false, sm)
  found_session tag now (some (p, hint), sm) = elim (lookup p sm.heap) [
    | none ↦ (false, sm)
    | some s ↦
        let ((valid, needs), s') =
          validate_and_consume_tag_from_session C now sm.session_timeout s tag in
        let sm' = replenish_if needs p (store C p s' sm) in
        if valid then (true, sm') else (false, sm)
  ]

  -- `FindSessionByTag`: whether a valid session has the tag, which is consumed.
  unfoldable pub find_session_by_tag : ℕ → ℕ → Manager C → Bool × Manager C
  find_session_by_tag tag now sm = found_session tag now (lookup_session_by_tag C tag sm)

  abbrev pub or_seal_failed : Option (List ℕ) → Outcome SessionError (List ℕ)
  or_seal_failed none = err seal_failed
  or_seal_failed (some plaintext) = ok plaintext

  -- A key is used once: it is deleted before the message is looked at. The nonce is 0.
  unfoldable pub try_decrypt_one_time_key :
      ℕ → List ℕ → Manager C → Option (Outcome SessionError (List ℕ)) × Manager C
  try_decrypt_one_time_key tag body sm = elim (lookup tag sm.one_time_keys) [
    | none ↦ (none, sm)
    | some key ↦
        let n = length body - 16 in
        let plaintext = or_seal_failed (C.unseal key 0 tag (take n body) (drop n body)) in
        (
          some (if ltb (length body) 16 then err message_too_short else plaintext),
          record sm { one_time_keys = erase tag sm.one_time_keys },
        )
  ]

  abbrev pub or_one_time :
      ℕ
      → List ℕ
      → Option (Outcome SessionError (List ℕ)) × Manager C
      → Option (Outcome SessionError (List ℕ)) × Manager C
  or_one_time tag body (some r, sm) = (some r, sm)
  or_one_time tag body (none, sm) =
      if is_some (lookup tag sm.nsr_tag_index)
      then (none, sm)
      else try_decrypt_one_time_key tag body sm

  -- `none` where the message goes on to a New Session Reply, whose tag it has, or a New Session.
  unfoldable pub decrypt_tagged :
      Option (ℕ × List ℕ) → ℕ → Manager C → Option (Outcome SessionError (List ℕ)) × Manager C
  decrypt_tagged none now sm = (some (err message_too_short), sm)
  decrypt_tagged (some (tag, body)) now sm =
      or_one_time tag body (try_decrypt_existing tag body now sm)

  unfoldable pub decrypt_garlic_message :
      List ℕ → ℕ → Manager C → Option (Outcome SessionError (List ℕ)) × Manager C
  decrypt_garlic_message msg now sm = decrypt_tagged (split_tag msg) now sm

  -- `none` where there is no session yet, and a New Session message is written.
  unfoldable pub encrypt_garlic_message :
      ℕ → List ℕ → ℕ → Manager C → Option (Outcome SessionError (List ℕ)) × Manager C
  encrypt_garlic_message destination_hash [] now sm = (some (err plaintext_empty), sm)
  encrypt_garlic_message destination_hash (x ∷ xs) now sm =
      elim (lookup destination_hash sm.sessions) [
        | none ↦ (none, sm)
        | some p ↦
            let (r, sm') = at_pointer C p (encrypt_existing_session C (x ∷ xs) now) sm in
            (some r, sm')
      ]
