-- ===== src/Ntcp2/Errors.antt =====
-- Which errors break a connection.
pub mod Final
use noise_ssu.Base.{
  ℕ, zero, suc, ◌+◌, ◌≤◌, ◌<◌, ◌≡◌, refl, sym, ap, ap₂, subst, ◌-◌, ◌∙◌, inl, inr, Bool, true,
  false, Option, none, some, List, [], ◌∷◌, arith, ltb, leb, ◌==◌, if◌then◌else◌, length,
  Bool-cases, Option-cases, Outcome-cases, Outcome, ok, err, lt→ltb, true-ne-false, take, drop,
}
use noise_ssu.Handshake.{ModifierError}
use noise_ssu.Handshake.SipHash.{Hash, LengthModifier, next_inbound_mask, next_outbound_mask}
use noise_ssu.Ntcp2.{
  NoiseConn, Conn, Socket, FrameError, Step, ◌>>=◌, step-of-ok, step-of-err, read_full,
  guard_read_nonce, guard_write_nonce, max_nonce, modified, handle_aead_error, replied,
  socket_write, connection_broken, nonce_exhausted, encrypt_failed, frame_too_large,
  frame_too_large_at_cast, write_frame_failed, partial_write, invalid_frame_size,
  read_length_failed, frame_too_small, read_frame_failed, decrypt_failed, direct_failed,
  nil_pointer, modifier_failed,
}
use noise_ssu.Ntcp2.Reading.{
  apply_inbound_modifier, inbound_of, read_obfuscated_frame_length, deobfuscate, deobfuscate_with,
  checked_length, on_length, on_ciphertext, accept_decrypted, validate_frame_length,
  read_and_decrypt_frame, decrypt_frame, buffer_plaintext, count_read, read_framed, read, as_reply,
  read_direct,
}
use noise_ssu.Ntcp2.Reading.Frame.{
  guard_read_nonce_lem, after_read_guard, after_length, after_decrypt, after_inbound,
}
use noise_ssu.Ntcp2.Writing.Frame.{after_guard, after_modify, after_encrypt, after_build}
use noise_ssu.Ntcp2.Writing.{
  apply_outbound_modifier, outbound_of, encrypt_frame, accept_encrypted, build_wire_frame,
  write_wire_frame, count_written, write_single_frame, write_chunks, write_framed, write,
  write_direct, get_max_frame_size,
}

-- The errors after which the two ends may no longer agree on masks, nonces or the place in the stream,
-- but for those of `READ_LENGTH_FAILED`.
abbrev pub breaks : FrameError → Bool
breaks connection_broken = true
breaks nonce_exhausted = true
breaks write_frame_failed = true
breaks partial_write = true
breaks frame_too_small = true
breaks read_frame_failed = true
breaks decrypt_failed = true
breaks _ = false

module _ {N : Type 0} where
  -- Such an error of a step leaves the connection broken.
  pub IsBreaking : {A : Type 0} → Outcome FrameError A × Conn N → Type 0
  IsBreaking (ok a, c) = Unit
  IsBreaking (err e, c) = breaks e ≡ true → c.broken ≡ true

  >>=-IsBreaking :
      {A B : Type 0} (next : A → Step N B) (first : Step N A) (c : Conn N)
      → IsBreaking (first c)
      → ((a : A) (mid : Conn N) → IsBreaking (next a mid))
      → IsBreaking ((first >>= next) c)
  unfolding IsBreaking
  >>=-IsBreaking {A} {B} next first c now later = go (first c) now
    where
      go :
          (r : Outcome FrameError A × Conn N)
          → IsBreaking r
          → IsBreaking {A = B}
              (let (reply, mid) = r in elim reply [ ok a ↦ next a mid | err e ↦ (err e, mid) ])
      go (ok a, mid) now = later a mid
      go (err e, mid) now = now

  modified-IsBreaking :
      {A : Type 0} (reply : Outcome ModifierError A) (c : Conn N) → IsBreaking (modified reply c)
  unfolding IsBreaking
  modified-IsBreaking (ok a) c = tt
  modified-IsBreaking (err e) c = λ h. absurd (true-ne-false (sym h))

  guard_read_nonce-IsBreaking : (c : Conn N) → IsBreaking (guard_read_nonce c)
  unfolding IsBreaking guard_read_nonce
  guard_read_nonce-IsBreaking c = elim (Bool-cases (leb max_nonce c.read_nonce)) [
    | inl over ↦ rw over (λ _. refl)
    | inr under ↦ rw under tt
  ]

  guard_write_nonce-IsBreaking : (c : Conn N) → IsBreaking (guard_write_nonce c)
  unfolding IsBreaking guard_write_nonce
  guard_write_nonce-IsBreaking c = elim (Bool-cases (leb max_nonce c.write_nonce)) [
    | inl over ↦ rw over (λ _. refl)
    | inr under ↦ rw under tt
  ]

  checked_length-IsBreaking :
      (len : ℕ) (reply : Outcome FrameError (Unit {0}) × Conn N)
      → IsBreaking (checked_length len reply)
  unfolding IsBreaking
  checked_length-IsBreaking len (ok _, c) = tt
  checked_length-IsBreaking len (err e, c) = λ _. refl

  deobfuscate_with-IsBreaking :
      (hash : Hash) (junk : ℕ) (two : List ℕ) (slm : Option LengthModifier) (c : Conn N)
      → IsBreaking (deobfuscate_with hash junk two slm c)
  unfolding IsBreaking validate_frame_length
  deobfuscate_with-IsBreaking hash junk two none c = λ h. absurd (true-ne-false (sym h))
  deobfuscate_with-IsBreaking hash junk two (some slm) c = checked_length-IsBreaking _ _

  accept_decrypted-IsBreaking :
      (junk : ℕ) (opened : Option (List ℕ)) (c : Conn N)
      → IsBreaking (accept_decrypted junk opened c)
  unfolding IsBreaking handle_aead_error
  accept_decrypted-IsBreaking junk none c = λ _. refl
  accept_decrypted-IsBreaking junk (some plain) c = tt

  on_ciphertext-IsBreaking :
      (ops : NoiseConn N) (junk : ℕ) (got : Option (List ℕ)) (c : Conn N)
      → IsBreaking (on_ciphertext ops junk got c)
  unfolding IsBreaking decrypt_frame
  on_ciphertext-IsBreaking ops junk none c = λ _. refl
  on_ciphertext-IsBreaking ops junk (some bytes) c =
      accept_decrypted-IsBreaking junk (ops.decrypt bytes c.noise).0
        (record c { noise = (ops.decrypt bytes c.noise).1 })

  on_length-IsBreaking :
      (hash : Hash) (junk : ℕ) (got : Option (List ℕ)) (c : Conn N)
      → IsBreaking (on_length hash junk got c)
  unfolding IsBreaking deobfuscate
  on_length-IsBreaking hash junk none c = λ h. absurd (true-ne-false (sym h))
  on_length-IsBreaking hash junk (some bytes) c =
      deobfuscate_with-IsBreaking hash junk bytes c.length_obfuscator c

  pub read_framed-IsBreaking :
      (ops : NoiseConn N) (hash : Hash) (junk size : ℕ) (c : Conn N)
      → IsBreaking (read_framed ops hash junk size c)
  unfolding read_framed read_obfuscated_frame_length read_and_decrypt_frame apply_inbound_modifier
      buffer_plaintext IsBreaking
  read_framed-IsBreaking ops hash junk size c =
      >>=-IsBreaking (λ _. after_read_guard ops hash junk size) guard_read_nonce c
        (guard_read_nonce-IsBreaking c)
        λ _ c1.
          >>=-IsBreaking (after_length ops hash junk size) (read_obfuscated_frame_length hash junk)
            c1
            (on_length-IsBreaking hash junk (read_full 2 c1.socket).0
              (record c1 { socket = (read_full 2 c1.socket).1 }))
            λ len c2.
              >>=-IsBreaking (after_decrypt ops hash size) (read_and_decrypt_frame ops junk len) c2
                (on_ciphertext-IsBreaking ops junk (read_full len c2.socket).0
                  (record c2 { socket = (read_full len c2.socket).1 }))
                λ decrypted c3.
                  >>=-IsBreaking (after_inbound ops hash size) (apply_inbound_modifier decrypted) c3
                    (modified-IsBreaking (inbound_of c3.modifier_chain decrypted) c3)
                    λ plaintext c4. tt

  accept_encrypted-IsBreaking :
      (reply : Option (List ℕ)) (c : Conn N) → IsBreaking (accept_encrypted reply c)
  unfolding IsBreaking
  accept_encrypted-IsBreaking none c = λ h. absurd (true-ne-false (sym h))
  accept_encrypted-IsBreaking (some made) c = elim (Bool-cases (ltb 65535 (length made))) [
    | inl long ↦ rw long (λ h. absurd (true-ne-false (sym h)))
    | inr short ↦ rw short tt
  ]

  build_wire_frame-IsBreaking :
      (hash : Hash) (encrypted : List ℕ) (c : Conn N)
      → IsBreaking (build_wire_frame hash encrypted c)
  unfolding IsBreaking build_wire_frame
  build_wire_frame-IsBreaking hash encrypted c = elim (Bool-cases (ltb 0xffff (length encrypted))) [
    | inl long ↦ rw long (λ h. absurd (true-ne-false (sym h)))
    | inr short ↦ rw short (elim (Option-cases c.length_obfuscator) [
      | inl bare ↦ rw bare (λ h. absurd (true-ne-false (sym h)))
      | inr (slm, masked) ↦ rw masked tt
    ])
  ]

  write_wire_frame-IsBreaking :
      (frame : List ℕ) (c : Conn N) → IsBreaking (write_wire_frame frame c)
  unfolding IsBreaking write_wire_frame
  write_wire_frame-IsBreaking frame c =
      let r = socket_write frame c.socket in
      elim (Bool-cases r.0.1) [
        | inl failed ↦ rw failed (λ _. refl)
        | inr taken ↦ rw taken (elim (Bool-cases (r.0.0 == length frame)) [
          | inl full ↦ rw full tt
          | inr partial ↦ rw partial (λ _. refl)
        ])
      ]

  pub write_single_frame-IsBreaking :
      (ops : NoiseConn N) (hash : Hash) (chunk : List ℕ) (c : Conn N)
      → IsBreaking (write_single_frame ops hash chunk c)
  unfolding write_single_frame apply_outbound_modifier encrypt_frame IsBreaking
  write_single_frame-IsBreaking ops hash chunk c =
      >>=-IsBreaking (λ _. after_guard ops hash chunk) guard_write_nonce c
        (guard_write_nonce-IsBreaking c)
        λ _ c1.
          >>=-IsBreaking (after_modify ops hash chunk) (apply_outbound_modifier chunk) c1
            (modified-IsBreaking (outbound_of c1.modifier_chain chunk) c1)
            λ out c2.
              >>=-IsBreaking (after_encrypt ops hash chunk) (encrypt_frame ops out) c2
                (accept_encrypted-IsBreaking (ops.encrypt out c2.noise).0
                  (record c2 { noise = (ops.encrypt out c2.noise).1 }))
                λ encrypted c3.
                  >>=-IsBreaking (after_build ops hash chunk) (build_wire_frame hash encrypted) c3
                    (build_wire_frame-IsBreaking hash encrypted c3)
                    λ frame c4.
                      >>=-IsBreaking (λ _. count_written (length chunk)) (write_wire_frame frame) c4
                        (write_wire_frame-IsBreaking frame c4) λ _ c5. tt

  pub broken_by :
      {A : Type 0} (step : Step N A) (e : FrameError) (c c' : Conn N)
      → IsBreaking (step c)
      → step c ≡ (err e, c')
      → breaks e ≡ true
      → c'.broken ≡ true
  unfolding IsBreaking
  broken_by {A} step e c c' b is = subst (IsBreaking {A = A}) is b
