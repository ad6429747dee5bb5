-- ===== src/Ntcp2/Reading/Frame.antt =====
-- What a `readFramed` does with a well-formed frame, step by step.
use noise_ssu.Base.{
  ℕ, ◌+◌, ◌≤◌, ◌<◌, ◌≡◌, refl, sym, ap, ◌∙◌, inl, inr, false, some, List, [], ◌∷◌, ◌++◌, arith, ltb,
  length, length-append, take, drop, drop_beyond, take-append, drop-append, Bool-cases, Outcome, ok,
  ltb→le, le→ltb,
}
use noise_ssu.Base.Bytes.{uint16}
use noise_ssu.Base.Xor.{xor16}
use noise_ssu.Handshake.{ModifierError}
use noise_ssu.Handshake.SipHash.{Hash, LengthModifier, next_mask, next_inbound_mask}
use noise_ssu.Ntcp2.{
  NoiseConn, Conn, Socket, Step, ◌>>=◌, step-of-ok, read_full, guard_read_nonce, max_nonce,
  modified,
}
use noise_ssu.Ntcp2.Reading.{
  apply_inbound_modifier, inbound_of, read_obfuscated_frame_length, deobfuscate,
  validate_frame_length, read_and_decrypt_frame, decrypt_frame, buffer_plaintext, count_read,
  read_framed,
}
use noise_ssu.Ntcp2.Link.{IsFrame}

read_full_lem :
    (bytes rest : List ℕ) (n : ℕ) (s : Socket)
    → s.closed ≡ false
    → s.incoming ≡ bytes ++ rest
    → length bytes ≡ n
    → read_full n s ≡ (some bytes, record s { incoming = rest })
unfolding read_full
read_full_lem bytes rest n s connected laid size =
    let enough : ltb (length (bytes ++ rest)) n ≡ false =
      le→ltb _ _ (omega (arith, length-append bytes rest, size)) in
    simp (
      read_full,
      connected,
      laid,
      enough,
      take-append n bytes rest size,
      drop-append n bytes rest size,
    )

module _ {N : Type 0} where
  pub guard_read_nonce_lem :
      (c : Conn N) → c.read_nonce < max_nonce → guard_read_nonce c ≡ (ok tt, c)
  unfolding guard_read_nonce
  guard_read_nonce_lem c h = ground arith

  deobfuscate_lem :
      (hash : Hash) (junk a b : ℕ) (slm : LengthModifier) (c : Conn N)
      → c.length_obfuscator ≡ some slm
      → 16 ≤ xor16 (uint16 a b) (next_mask hash slm.inbound_keys slm.inbound_iv).0
      → let (mask, iv) = next_mask hash slm.inbound_keys slm.inbound_iv in
        deobfuscate hash junk (a ∷ b ∷ []) c ≡ (
          ok (xor16 (uint16 a b) mask),
          record c { length_obfuscator = some (record slm { inbound_iv = iv }) },
        )
  unfolding deobfuscate validate_frame_length next_inbound_mask
  deobfuscate_lem hash junk a b slm c masked long =
      let valid =
        le→ltb (xor16 (uint16 a b) (next_mask hash slm.inbound_keys slm.inbound_iv).0) 16 long in
      simp (deobfuscate, masked, validate_frame_length, valid)

  buffer_plaintext_lem :
      (size : ℕ) (plaintext : List ℕ) (c : Conn N)
      → c.read_buffer ≡ []
      → buffer_plaintext size plaintext c
        ≡ (ok (take size plaintext), record c { read_buffer = drop size plaintext })
  unfolding buffer_plaintext
  buffer_plaintext_lem size plaintext c empty = elim (Bool-cases (ltb size (length plaintext))) [
    | inl over ↦ simp over
    | inr fits ↦
        simp (fits, drop_beyond size plaintext (ltb→le _ _ fits))
          (ap (λ bs. (ok (take size plaintext), record c { read_buffer = bs })) empty)
  ]

  modified_lem :
      (reply : Outcome ModifierError (List ℕ)) (out : List ℕ) (c : Conn N)
      → reply ≡ ok out
      → modified reply c ≡ (ok out, c)
  modified_lem reply out c e = ap (λ r. modified r c) e

module _ {N : Type 0} (ops : NoiseConn N) (hash : Hash) where
  -- A reader after a frame: the bytes, the cipher, and what the caller's buffer had no room for.
  abbrev pub after_frame : LengthModifier → List ℕ → N → List ℕ → Conn N → Conn N
  after_frame slm rest noise left c = record c {
    length_obfuscator =
        some (record slm { inbound_iv = (next_mask hash slm.inbound_keys slm.inbound_iv).1 });
    read_nonce = c.read_nonce + 1;
    read_buffer = left;
    noise = noise;
    socket = record (c.socket) { incoming = rest };
  }

  abbrev pub after_inbound : ℕ → List ℕ → Step N (List ℕ)
  after_inbound size plaintext = buffer_plaintext size plaintext >>= count_read

  abbrev pub after_decrypt : ℕ → List ℕ → Step N (List ℕ)
  after_decrypt size decrypted = apply_inbound_modifier decrypted >>= after_inbound size

  abbrev pub after_length : ℕ → ℕ → ℕ → Step N (List ℕ)
  after_length junk size frame_len =
      read_and_decrypt_frame ops junk frame_len >>= after_decrypt size

  abbrev pub after_read_guard : ℕ → ℕ → Step N (List ℕ)
  after_read_guard junk size = read_obfuscated_frame_length hash junk >>= after_length junk size

  pub read_framed_lem :
      (junk size : ℕ) {noise' : N} {frame chunk : List ℕ} (rest : List ℕ) (slm : LengthModifier)
      (c : Conn N)
      → c.read_nonce < max_nonce
      → c.socket.closed ≡ false
      → c.read_buffer ≡ []
      → c.length_obfuscator ≡ some slm
      → c.socket.incoming ≡ frame ++ rest
      → IsFrame ops hash slm.inbound_keys c.modifier_chain slm.inbound_iv c.noise frame chunk noise'
      → read_framed ops hash junk size c
        ≡ (ok (take size chunk), after_frame slm rest noise' (drop size chunk) c)
  unfolding read_framed read_obfuscated_frame_length read_and_decrypt_frame decrypt_frame
      apply_inbound_modifier
  read_framed_lem junk size {noise'} {frame} {chunk} rest slm c young connected empty masked laid
        f =
      let (mask, iv') = next_mask hash slm.inbound_keys slm.inbound_iv in
      let len = xor16 (uint16 f.first f.second) mask in
      let long : 16 ≤ len = omega (arith, f.measured, f.long_enough) in
      let two = f.first ∷ f.second ∷ [] in
      let s1 = record (c.socket) { incoming = f.ciphertext ++ rest } in
      let s2 = record (c.socket) { incoming = rest } in
      let c1 = record c { socket = s1 } in
      let c2 = record c {
        socket = s1;
        length_obfuscator = some (record slm { inbound_iv = iv' });
      } in
      let c3 = record c2 { socket = s2 } in
      let c4 = record c3 { noise = noise' } in
      let got_two : read_full 2 c.socket ≡ (some two, s1) =
        read_full_lem two (f.ciphertext ++ rest) 2 c.socket connected
          (laid ∙ ap (λ bs. bs ++ rest) f.laid_out) (omega arith) in
      let length_read : read_obfuscated_frame_length hash junk c ≡ (ok len, c2) =
        simp (read_obfuscated_frame_length, got_two)
          (deobfuscate_lem hash junk f.first f.second slm c1 masked long) in
      let got_all : read_full len s1 ≡ (some f.ciphertext, s2) =
        read_full_lem f.ciphertext rest len s1 connected refl (sym f.measured) in
      let opened : read_and_decrypt_frame ops junk len c2 ≡ (ok f.decrypted, c4) =
        simp (read_and_decrypt_frame, got_all, decrypt_frame, f.opened) in
      step-of-ok (λ _. after_read_guard junk size) guard_read_nonce c (guard_read_nonce_lem c young)
      ∙ step-of-ok (after_length junk size) (read_obfuscated_frame_length hash junk) c length_read
      ∙ step-of-ok (after_decrypt size) (read_and_decrypt_frame ops junk len) c2 opened
      ∙ step-of-ok (after_inbound size) (apply_inbound_modifier f.decrypted) c4
          (modified_lem (inbound_of c.modifier_chain f.decrypted) chunk c4 f.undone)
      ∙ step-of-ok count_read (buffer_plaintext size chunk) c4
          (buffer_plaintext_lem size chunk c4 empty)
