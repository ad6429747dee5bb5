-- ===== src/Ratchet/Session/Sending.antt =====
-- ratchet/session_encrypt.go: a message of an existing session is encrypted and put on the wire.
pub mod Messages
pub mod Rotation
use noise_ssu.Base.{
  ℕ, ◌+◌, Bool, true, false, not, ◌&&◌, Option, none, some, List, [], ◌∷◌, ◌++◌, if◌then◌else◌,
  length, take, drop, Outcome, ok, err,
}
use noise_ssu.Base.U32.{add32}
use noise_ssu.Base.Stateful.{◌>>=◌, ◌>>◌, continue, pure, fail, get, modify}
use noise_ssu.Wire.Packet.{put_uint64}
use noise_ssu.Ratchet.Payload.{PayloadBlock, PayloadError, zeros, serialize}
use noise_ssu.Ratchet.Builder.{total_size}
use noise_ssu.Ratchet.Session.{
  Crypto, Session, SessionError, Method, or_fail, control_block_failed, seal_failed, awaiting_reply,
  awaiting_first_message,
}
use noise_ssu.Ratchet.Session.Ratchets.{get_pending_next_keys, get_pending_acks, advance_ratchets}

-- The loop over the pending blocks, on `combined[offset:]`, and the copy after it.
unfoldable pub write_control : List PayloadBlock → List ℕ → List ℕ → Outcome PayloadError (List ℕ)
write_control [] plaintext buf = ok (take (length buf) plaintext ++ drop (length plaintext) buf)
write_control (b ∷ bs) plaintext buf = elim (serialize b buf) [
  | err e ↦ err e
  | ok (written, n) ↦ elim (write_control bs plaintext (drop n written)) [
    | err e ↦ err e
    | ok rest ↦ ok (take n written ++ rest)
  ]
]

unfoldable pub with_control : List PayloadBlock → List ℕ → Outcome PayloadError (List ℕ)
with_control [] plaintext = ok plaintext
with_control (b ∷ bs) plaintext =
    write_control (b ∷ bs) plaintext (zeros (total_size (b ∷ bs) + length plaintext))

unfoldable pub build_existing_session_message : ℕ → List ℕ → List ℕ → List ℕ
build_existing_session_message session_tag ciphertext tag =
    put_uint64 session_tag ++ ciphertext ++ tag

abbrev pub is_some : {A : Type 0} → Option A → Bool
is_some none = false
is_some (some a) = true

module _ (C : Crypto) where
  open C use {seal}

  abbrev pub control_result : Outcome PayloadError (List ℕ) → Method C (List ℕ)
  control_result (ok payload) = pure payload
  control_result (err e) = fail control_block_failed

  unfoldable pub prepend_pending_next_keys : List ℕ → Method C (List ℕ)
  prepend_pending_next_keys plaintext = do
    next_keys ← get_pending_next_keys C
    acks ← get_pending_acks C
    control_result (with_control (next_keys ++ acks) plaintext)

  unfoldable pub encrypt_existing_session : List ℕ → ℕ → Method C (List ℕ)
  encrypt_existing_session plaintext now = do
    s ← get
    if s.is_initiator && is_some s.handshake_state then fail awaiting_reply else pure tt
    if not s.is_initiator && s.awaiting_first_es then fail awaiting_first_message else pure tt
    (message_key, session_tag) ← advance_ratchets C
    payload ← prepend_pending_next_keys plaintext
    t ← get
    (ciphertext, tag) ←
        or_fail C seal_failed (seal message_key t.message_counter session_tag payload)
    modify λ u. record u { last_used = now; message_counter = add32 u.message_counter 1 }
    pure (build_existing_session_message session_tag ciphertext tag)
