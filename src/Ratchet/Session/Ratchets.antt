-- ===== src/Ratchet/Session/Ratchets.antt =====
-- ratchet/ratchet_step.go and crypto_helpers.go: the ratchets of a session, advanced for a message.
use noise_ssu.Base.{
  ℕ, ◌+◌, Bool, true, false, none, some, List, [], ◌∷◌, ◌++◌, leb, ltb, if◌then◌else◌, Outcome, ok,
  err,
}
use noise_ssu.Base.U32.{add32}
use noise_ssu.Base.Stateful.{◌>>=◌, ◌>>◌, pure, fail, get, modify}
use noise_ssu.Ratchet.Payload.{PayloadBlock, new_next_key_block}
use noise_ssu.Ratchet.Session.{
  Crypto, Session, SessionError, Method, or_fail, dh_ratchet_interval, max_consecutive_dh_failures,
  max_message_number, max_key_id, derivation_failed, dh_ratchet_failed, key_pair_failed,
  key_id_exceeded, dh_failed_too_often, symmetric_failed, tag_failed, message_number_exceeded,
}

module _ (C : Crypto) where
  open C use {
    new_sym, derive_message_key, new_tags, next_tag, update_keys, generate_key_pair,
    perform_ratchet, derive_tag_keys,
  }

  unfoldable pub get_pending_acks : Method C (List PayloadBlock)
  get_pending_acks s = (ok s.pending_acks, record s { pending_acks = [] })

  unfoldable pub get_pending_next_keys : Method C (List PayloadBlock)
  get_pending_next_keys s = (ok s.pending_next_keys, record s { pending_next_keys = [] })

  unfoldable pub derive_tag_and_sym_keys : ℕ → Method C (ℕ × ℕ)
  derive_tag_and_sym_keys chain_key = or_fail C derivation_failed (derive_tag_keys chain_key)

  -- `PerformRatchet`: the sending and the receiving chain key.
  unfoldable pub perform_dh_ratchet : Method C (ℕ × ℕ)
  perform_dh_ratchet s = elim (perform_ratchet s.dh_ratchet) [
    | none ↦ (err dh_ratchet_failed, s)
    | some (sending, receiving, dh) ↦ (ok (sending, receiving), record s { dh_ratchet = dh })
  ]

  unfoldable pub apply_ratchet_keys : Bool → Method C (Unit {0})
  apply_ratchet_keys send = do
    (sending, receiving) ← perform_dh_ratchet
    (tag_key, sym_key) ← derive_tag_and_sym_keys (if send then sending else receiving)
    modify λ s.
        if send
        then record s { symmetric_ratchet = new_sym sym_key; tag_ratchet = new_tags tag_key }
        else record s {
          recv_symmetric_ratchet = some (new_sym sym_key);
          recv_tag_ratchet = some (new_tags tag_key);
        }

  -- `GenerateNewKeyPair`: the new public key.
  unfoldable pub new_key_pair : Method C (List ℕ)
  new_key_pair s = elim (generate_key_pair s.dh_ratchet) [
    | none ↦ (err key_pair_failed, s)
    | some (pub_key, dh) ↦ (ok pub_key, record s { dh_ratchet = dh })
  ]

  unfoldable pub queue_next_key : List ℕ → Session C → Session C
  queue_next_key pub_key s = record s {
    new_ephemeral_pub = some pub_key;
    pending_next_keys =
        s.pending_next_keys ++ new_next_key_block s.send_key_id (some pub_key) false true ∷ [];
    awaiting_reverse_key = true;
    send_key_id = s.send_key_id + 1;
  }

  unfoldable pub perform_dh_ratchet_step : Method C (Unit {0})
  perform_dh_ratchet_step = do
    s ← get
    if leb max_key_id s.send_key_id then fail key_id_exceeded else pure tt
    pub_key ← new_key_pair
    apply_ratchet_keys true
    modify (queue_next_key pub_key)

  -- What `attemptDHRatchetRotation` does with the result of the step.
  unfoldable pub after_rotation :
      Outcome SessionError (Unit {0}) × Session C → Outcome SessionError (Unit {0}) × Session C
  after_rotation (ok u, s) =
      (ok tt, record s { dh_ratchet_counter = 0; consecutive_dh_failures = 0 })
  after_rotation (err e, s) =
      let failures = add32 s.consecutive_dh_failures 1 in
      let s' = record s { consecutive_dh_failures = failures } in
      if leb max_consecutive_dh_failures failures
      then (err dh_failed_too_often, s')
      else (ok tt, s')

  unfoldable pub attempt_dh_ratchet_rotation : Method C (Unit {0})
  attempt_dh_ratchet_rotation s =
      let counted = record s { dh_ratchet_counter = add32 s.dh_ratchet_counter 1 } in
      if ltb counted.dh_ratchet_counter dh_ratchet_interval
      then (ok tt, counted)
      else after_rotation (perform_dh_ratchet_step counted)

  unfoldable pub next_message_key : Method C ℕ
  next_message_key s = elim (derive_message_key s.symmetric_ratchet s.message_counter) [
    | none ↦ (err symmetric_failed, s)
    | some (key, sym) ↦ (ok key, record s { symmetric_ratchet = sym })
  ]

  unfoldable pub generate_and_track_session_tag : Method C ℕ
  generate_and_track_session_tag s = elim (next_tag s.tag_ratchet) [
    | none ↦ (err tag_failed, s)
    | some (tag, tags) ↦ (ok tag, record s { tag_ratchet = tags })
  ]

  -- The key of the message, and then its tag.
  unfoldable pub next_key_and_tag : Method C (ℕ × ℕ)
  next_key_and_tag = do
    message_key ← next_message_key
    session_tag ← generate_and_track_session_tag
    pure (message_key, session_tag)

  unfoldable pub advance_ratchets : Method C (ℕ × ℕ)
  advance_ratchets = do
    s ← get
    if leb max_message_number s.message_counter then fail message_number_exceeded else pure tt
    attempt_dh_ratchet_rotation
    next_key_and_tag
