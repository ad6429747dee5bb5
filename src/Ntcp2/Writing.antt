-- ===== src/Ntcp2/Writing.antt =====
-- ntcp2/conn_framing.go: `Write`.
pub mod Frame
pub mod Returns
use noise_ssu.Base.{
  ℕ, zero, suc, ◌+◌, ◌-◌, Bool, true, false, ◌&&◌, Option, none, some, List, [], ◌∷◌, ◌++◌, ltb,
  leb, ◌==◌, if◌then◌else◌, length, take, drop, Outcome, ok, err,
}
use noise_ssu.Base.Bytes.{hi16, lo16}
use noise_ssu.Base.Xor.{xor16}
use noise_ssu.Handshake.{ModifierChain, ModifierError, modify_outbound, phase_data}
use noise_ssu.Handshake.SipHash.{Hash, LengthModifier, next_outbound_mask}
use noise_ssu.Ntcp2.{
  NoiseConn, Conn, Step, ◌>>=◌, ◌>>◌, modified, socket_write, guard_write_nonce, FrameError,
  connection_broken, encrypt_failed, frame_too_large, frame_too_large_at_cast, write_frame_failed,
  partial_write, invalid_frame_size, direct_failed, nil_pointer,
}

abbrev pub frame_length_field_size : ℕ
frame_length_field_size = 2

abbrev pub spec_max_frame_size : ℕ
spec_max_frame_size = 65535

abbrev pub default_max_frame_size : ℕ
default_max_frame_size = 16384

abbrev pub poly1305_overhead : ℕ
poly1305_overhead = 16

-- What `Write` returns, `none` where it does not return on the fuel given: the count of bytes
-- written, the error, and the connection.
abbrev pub Written : Type 0 → Type 0
Written N = Option (ℕ × Option FrameError × Conn N)

-- What a chain does to the plaintext of the data phase; without a chain, nothing.
abbrev pub outbound_of : Option ModifierChain → List ℕ → Outcome ModifierError (List ℕ)
outbound_of none bytes = ok bytes
outbound_of (some chain) bytes = modify_outbound chain phase_data bytes

module _ {N : Type 0} where
  unfoldable pub apply_outbound_modifier : List ℕ → Step N (List ℕ)
  apply_outbound_modifier bytes c = modified (outbound_of c.modifier_chain bytes) c

  unfoldable pub get_max_frame_size : Conn N → ℕ
  get_max_frame_size c = elim c.max_frame_size [
    | none ↦ default_max_frame_size
    | some size ↦
        if ltb 0 size && leb size spec_max_frame_size then size else default_max_frame_size
  ]

  -- What `encryptFrame` makes of the reply of `Encrypt`.
  abbrev pub accept_encrypted : Option (List ℕ) → Step N (List ℕ)
  accept_encrypted none c = (err encrypt_failed, c)
  accept_encrypted (some encrypted) c =
      if ltb spec_max_frame_size (length encrypted)
      then (err frame_too_large, c)
      else (ok encrypted, c)

  unfoldable pub encrypt_frame : NoiseConn N → List ℕ → Step N (List ℕ)
  encrypt_frame ops bytes c =
      let (reply, noise) = ops.encrypt bytes c.noise in
      accept_encrypted reply (record c { noise = noise })

  -- The mask that `buildWireFrameWithMask` also returns goes to a log line.
  unfoldable pub build_wire_frame : Hash → List ℕ → Step N (List ℕ)
  build_wire_frame hash encrypted c =
      if ltb 0xffff (length encrypted)
      then (err frame_too_large_at_cast, c)
      else elim c.length_obfuscator [
        | none ↦ (err nil_pointer, c)
        | some slm ↦
            let (mask, slm') = next_outbound_mask hash slm in
            let obfuscated_len = xor16 (length encrypted) mask in
            (
              ok (hi16 obfuscated_len ∷ lo16 obfuscated_len ∷ encrypted),
              record c { length_obfuscator = some slm' },
            )
      ]

  unfoldable pub write_wire_frame : List ℕ → Step N ℕ
  write_wire_frame frame c =
      let ((n, failed), socket) = socket_write frame c.socket in
      if failed
      then (err write_frame_failed, record c { broken = true; socket = socket })
      else if n == length frame
      then (ok n, record c { socket = socket })
      else (err partial_write, record c { broken = true; socket = socket })

  abbrev pub count_written : ℕ → Step N ℕ
  count_written n c = (ok n, record c { write_nonce = c.write_nonce + 1 })

  unfoldable pub write_single_frame : NoiseConn N → Hash → List ℕ → Step N ℕ
  write_single_frame ops hash bytes = do
    guard_write_nonce
    to_encrypt ← apply_outbound_modifier bytes
    encrypted ← encrypt_frame ops to_encrypt
    frame ← build_wire_frame hash encrypted
    write_wire_frame frame
    count_written (length bytes)

  -- The loop of `writeFramed`, on fuel.
  unfoldable pub write_chunks : NoiseConn N → Hash → ℕ → ℕ → List ℕ → ℕ → Conn N → Written N
  write_chunks ops hash fuel max_plaintext [] total_written c = some (total_written, none, c)
  write_chunks ops hash zero max_plaintext (b ∷ bs) total_written c = none
  write_chunks ops hash (suc fuel) max_plaintext (b ∷ bs) total_written c =
      let chunk = take max_plaintext (b ∷ bs) in
      let (reply, c') = write_single_frame ops hash chunk c in
      elim reply [
        | err e ↦ some (total_written, some e, c')
        | ok n ↦
            write_chunks ops hash fuel max_plaintext (drop (length chunk) (b ∷ bs))
              (total_written + n) c'
      ]

  unfoldable pub write_framed : NoiseConn N → Hash → ℕ → List ℕ → Conn N → Written N
  write_framed ops hash fuel bytes c =
      if ltb (get_max_frame_size c) poly1305_overhead
      then some (0, some invalid_frame_size, c)
      else write_chunks ops hash fuel (get_max_frame_size c - poly1305_overhead) bytes 0 c

  unfoldable pub write_direct : NoiseConn N → List ℕ → Conn N → ℕ × Option FrameError × Conn N
  write_direct ops bytes c =
      let ((n, failed), noise, socket) = ops.direct_write bytes c.noise c.socket in
      (n, if failed then some direct_failed else none, record c { noise = noise; socket = socket })

  unfoldable pub write : NoiseConn N → Hash → ℕ → List ℕ → Conn N → Written N
  write ops hash fuel bytes c =
      if c.broken then some (0, some connection_broken, c) else elim c.length_obfuscator [
        | none ↦ some (write_direct ops bytes c)
        | some _ ↦ write_framed ops hash fuel bytes c
      ]
