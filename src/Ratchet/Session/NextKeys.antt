-- ===== src/Ratchet/Session/NextKeys.antt =====
-- ratchet/nextkey.go: what a NextKey block of the peer changes.
use noise_ssu.Base.{
  ℕ, ◌+◌, true, false, none, some, List, [], ◌∷◌, ◌++◌, leb, if◌then◌else◌, ok, err,
}
use noise_ssu.Base.Stateful.{◌>>=◌, ◌>>◌, pure, fail, get, modify}
use noise_ssu.Ratchet.Payload.{NextKeyInfo, new_next_key_block}
use noise_ssu.Ratchet.Session.{Crypto, Method, max_key_id, key_id_exceeded, update_failed}
use noise_ssu.Ratchet.Session.Ratchets.{new_key_pair, apply_ratchet_keys}

module _ (C : Crypto) where
  open C use {
    new_sym, derive_message_key, new_tags, next_tag, update_keys, generate_key_pair,
    perform_ratchet, derive_tag_keys,
  }

  -- The answer to a forward key: a key of ours.
  unfoldable pub generate_reverse_next_key : Method C (Unit {0})
  generate_reverse_next_key = do
    s ← get
    if leb max_key_id s.send_key_id then fail key_id_exceeded else pure tt
    pub_key ← new_key_pair C
    modify λ t. record t {
      pending_next_keys =
          t.pending_next_keys ++ new_next_key_block t.send_key_id (some pub_key) true false ∷ [];
      new_ephemeral_pub = some pub_key;
      send_key_id = t.send_key_id + 1;
    }

  unfoldable pub update_dh : List ℕ → Method C (Unit {0})
  update_dh remote_pub_key s = elim (update_keys s.dh_ratchet remote_pub_key) [
    | none ↦ (err update_failed, s)
    | some dh ↦ (ok tt, record s { dh_ratchet = dh })
  ]

  unfoldable pub apply_incoming_dh_key : List ℕ → Method C (Unit {0})
  apply_incoming_dh_key remote_pub_key = do
    update_dh remote_pub_key
    apply_ratchet_keys C false
    modify λ s. record s { remote_public_key = remote_pub_key }

  unfoldable pub process_forward_next_key : NextKeyInfo → Method C (Unit {0})
  process_forward_next_key info = do
    apply_incoming_dh_key info.public_key
    modify λ s. record s { recv_key_id = info.key_id }
    if info.request_reverse then generate_reverse_next_key else pure tt

  unfoldable pub process_reverse_next_key : NextKeyInfo → Method C (Unit {0})
  process_reverse_next_key info = do
    apply_incoming_dh_key info.public_key
    modify λ s. record s { recv_key_id = info.key_id; awaiting_reverse_key = false }

  unfoldable pub process_next_key_ack : NextKeyInfo → Method C (Unit {0})
  process_next_key_ack info = do
    s ← get
    apply_incoming_dh_key s.remote_public_key
    if info.reverse then modify (λ t. record t { awaiting_reverse_key = false }) else pure tt

  -- `ProcessReceivedNextKey`, once the session is found.
  unfoldable pub process_next_key : NextKeyInfo → Method C (Unit {0})
  process_next_key info =
      if info.key_present
      then (if info.reverse then process_reverse_next_key info else process_forward_next_key info)
      else process_next_key_ack info

  unfoldable pub increment_send_key_id : Method C (Unit {0})
  increment_send_key_id s =
      if leb max_key_id s.send_key_id
      then (err key_id_exceeded, s)
      else (ok tt, record s { send_key_id = s.send_key_id + 1 })
