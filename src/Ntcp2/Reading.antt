-- ===== src/Ntcp2/Reading.antt =====
-- ntcp2/conn_framing.go: `Read`. The result of a `Read` is what it puts at the front of the caller's
-- buffer, of which the size is given.
pub mod Frame
use noise_ssu.Base.{
  ℕ, zero, suc, ◌+◌, Bool, true, false, Option, none, some, List, [], ◌∷◌, ltb, ◌==◌, if◌then◌else◌,
  length, take, drop, Outcome, ok, err,
}
use noise_ssu.Base.Bytes.{uint16}
use noise_ssu.Base.Xor.{xor16}
use noise_ssu.Handshake.{ModifierChain, ModifierError, modify_inbound, phase_data}
use noise_ssu.Handshake.SipHash.{Hash, LengthModifier, next_inbound_mask}
use noise_ssu.Ntcp2.{
  NoiseConn, Conn, Step, ◌>>=◌, ◌>>◌, modified, Socket, read_full, guard_read_nonce,
  handle_aead_error, FrameError, connection_broken, read_length_failed, frame_too_small,
  read_frame_failed, decrypt_failed, direct_failed, nil_pointer,
}

abbrev pub min_data_phase_frame_size : ℕ
min_data_phase_frame_size = 16

-- `binary.BigEndian.Uint16` of a buffer of two bytes.
abbrev pub uint16_of : List ℕ → ℕ
uint16_of (a ∷ b ∷ _) = uint16 a b
uint16_of _ = 0

-- What a chain undoes; without a chain, nothing.
abbrev pub inbound_of : Option ModifierChain → List ℕ → Outcome ModifierError (List ℕ)
inbound_of none bytes = ok bytes
inbound_of (some chain) bytes = modify_inbound chain phase_data bytes

module _ {N : Type 0} where
  unfoldable pub apply_inbound_modifier : List ℕ → Step N (List ℕ)
  apply_inbound_modifier bytes c = modified (inbound_of c.modifier_chain bytes) c

  unfoldable pub validate_frame_length : ℕ → ℕ → Step N (Unit {0})
  validate_frame_length junk frame_len c =
      if ltb frame_len min_data_phase_frame_size
      then (err frame_too_small, handle_aead_error junk c)
      else (ok tt, c)

  -- An invalid length breaks the connection.
  abbrev pub checked_length :
      ℕ → Outcome FrameError (Unit {0}) × Conn N → Outcome FrameError ℕ × Conn N
  checked_length frame_len (ok _, c) = (ok frame_len, c)
  checked_length frame_len (err e, c) = (err e, record c { broken = true })

  -- The end of `readObfuscatedFrameLength`, for the two bytes read; with a nil modifier it panics.
  abbrev pub deobfuscate_with : Hash → ℕ → List ℕ → Option LengthModifier → Step N ℕ
  deobfuscate_with hash junk length_buf none c = (err nil_pointer, c)
  deobfuscate_with hash junk length_buf (some slm) c =
      let (mask, slm') = next_inbound_mask hash slm in
      let frame_len = xor16 (uint16_of length_buf) mask in
      checked_length frame_len
        (validate_frame_length junk frame_len (record c { length_obfuscator = some slm' }))

  unfoldable pub deobfuscate : Hash → ℕ → List ℕ → Step N ℕ
  deobfuscate hash junk length_buf c = deobfuscate_with hash junk length_buf c.length_obfuscator c

  abbrev pub on_length : Hash → ℕ → Option (List ℕ) → Step N ℕ
  on_length hash junk none c = (err read_length_failed, c)
  on_length hash junk (some length_buf) c = deobfuscate hash junk length_buf c

  unfoldable pub read_obfuscated_frame_length : Hash → ℕ → Step N ℕ
  read_obfuscated_frame_length hash junk c =
      let (got, socket) = read_full 2 c.socket in
      on_length hash junk got (record c { socket = socket })

  -- What follows `Decrypt`.
  abbrev pub accept_decrypted : ℕ → Option (List ℕ) → Step N (List ℕ)
  accept_decrypted junk none c = (err decrypt_failed, handle_aead_error junk c)
  accept_decrypted junk (some plaintext) c = (ok plaintext, c)

  unfoldable pub decrypt_frame : NoiseConn N → ℕ → List ℕ → Step N (List ℕ)
  decrypt_frame ops junk ciphertext c =
      let (opened, noise) = ops.decrypt ciphertext c.noise in
      accept_decrypted junk opened (record c { noise = noise })

  abbrev pub on_ciphertext : NoiseConn N → ℕ → Option (List ℕ) → Step N (List ℕ)
  on_ciphertext ops junk none c = (err read_frame_failed, record c { broken = true })
  on_ciphertext ops junk (some ciphertext) c = decrypt_frame ops junk ciphertext c

  unfoldable pub read_and_decrypt_frame : NoiseConn N → ℕ → ℕ → Step N (List ℕ)
  read_and_decrypt_frame ops junk frame_len c =
      let (got, socket) = read_full frame_len c.socket in
      on_ciphertext ops junk got (record c { socket = socket })

  -- The bytes copied; the rest waits in `read_buffer`.
  unfoldable pub buffer_plaintext : ℕ → List ℕ → Step N (List ℕ)
  buffer_plaintext size plaintext c = (
    ok (take size plaintext),
    if ltb size (length plaintext) then record c { read_buffer = drop size plaintext } else c,
  )

  abbrev pub count_read : List ℕ → Step N (List ℕ)
  count_read copied c = (ok copied, record c { read_nonce = c.read_nonce + 1 })

  unfoldable pub read_framed : NoiseConn N → Hash → ℕ → ℕ → Step N (List ℕ)
  read_framed ops hash junk size = do
    guard_read_nonce
    frame_len ← read_obfuscated_frame_length hash junk
    decrypted ← read_and_decrypt_frame ops junk frame_len
    plaintext ← apply_inbound_modifier decrypted
    copied ← buffer_plaintext size plaintext
    count_read copied

  -- The bytes read and the error, which may come together.
  unfoldable pub read_direct : NoiseConn N → ℕ → Conn N → List ℕ × Option FrameError × Conn N
  read_direct ops size c =
      let ((bytes, failed), noise, socket) = ops.direct_read size c.noise c.socket in
      (
        bytes,
        if failed then some direct_failed else none,
        record c { noise = noise; socket = socket },
      )

  abbrev pub as_reply : Outcome FrameError (List ℕ) × Conn N → List ℕ × Option FrameError × Conn N
  as_reply (ok bytes, c) = (bytes, none, c)
  as_reply (err e, c) = ([], some e, c)

  unfoldable pub read : NoiseConn N → Hash → ℕ → ℕ → Conn N → List ℕ × Option FrameError × Conn N
  read ops hash junk size c =
      if c.broken then ([], some connection_broken, c) else elim c.length_obfuscator [
        | none ↦ read_direct ops size c
        | some _ ↦
            if ltb 0 (length c.read_buffer)
            then (take size c.read_buffer, none, record c { read_buffer = drop size c.read_buffer })
            else as_reply (read_framed ops hash junk size c)
      ]
