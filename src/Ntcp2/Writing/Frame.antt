-- ===== src/Ntcp2/Writing/Frame.antt =====
-- What a `writeSingleFrame` that returns without an error has done, step by step.
use noise_ssu.Base.{
  ℕ, ◌+◌, ◌≤◌, ◌<◌, ◌≡◌, refl, sym, ap, subst, ◌∙◌, inl, inr, Bool, false, Option, none, some, List,
  [], ◌∷◌, ◌++◌, ltb, leb, ◌==◌, length, take, take_all, Bool-cases, true-ne-false, Outcome, ok,
  err, leb→lt, ltb→le, ==→eq,
}
use noise_ssu.Base.Bytes.{hi16, lo16}
use noise_ssu.Base.Xor.{xor16}
use noise_ssu.Handshake.{ModifierError}
use noise_ssu.Handshake.SipHash.{Hash, LengthModifier, next_mask, next_outbound_mask}
use noise_ssu.Ntcp2.{
  NoiseConn, Conn, Socket, Step, ◌>>=◌, step-eq-ok, socket_write, guard_write_nonce, max_nonce,
  replied, refused, modified, write_open,
}
use noise_ssu.Ntcp2.Writing.{
  apply_outbound_modifier, encrypt_frame, accept_encrypted, outbound_of, build_wire_frame,
  write_wire_frame, count_written, write_single_frame,
}

write_open-outgoing :
    (results : List (ℕ × Bool)) (bytes : List ℕ) (s : Socket)
    → (write_open results bytes s).0.0 ≡ length bytes
    → (write_open results bytes s).1.outgoing ≡ s.outgoing ++ bytes
unfolding write_open
write_open-outgoing [] bytes s full = refl
write_open-outgoing ((n, failed) ∷ later) bytes s full =
    ap (◌++◌ s.outgoing) (ap (λ k. take k bytes) full ∙ take_all bytes)

socket_write-outgoing :
    (bytes : List ℕ) (s : Socket)
    → (socket_write bytes s).0.1 ≡ false
    → (socket_write bytes s).0.0 ≡ length bytes
    → (socket_write bytes s).1.outgoing ≡ s.outgoing ++ bytes
unfolding socket_write
socket_write-outgoing bytes s fine full = elim (Bool-cases s.closed) [
  | inl gone ↦ absurd (true-ne-false (rw (socket_write, gone) at fine))
  | inr connected ↦ simp (
    connected,
    write_open-outgoing s.write_results bytes s (simp (socket_write, connected) at full),
  )
]

module _ {N : Type 0} where
  modified-ok :
      {A : Type 0} (reply : Outcome ModifierError A) (a : A) (c c' : Conn N)
      → modified reply c ≡ (ok a, c')
      → (reply ≡ ok a) × (c ≡ c')
  modified-ok (ok b) a c c' e = let (same, kept) = replied e in (ap ok same, kept)
  modified-ok (err reason) a c c' e = absurd (refused e)

  accept_encrypted-ok :
      (reply : Option (List ℕ)) (out : List ℕ) (c c' : Conn N)
      → accept_encrypted reply c ≡ (ok out, c')
      → (reply ≡ some out) × (length out ≤ 65535) × (c ≡ c')
  accept_encrypted-ok none out c c' e = absurd (refused e)
  accept_encrypted-ok (some made) out c c' e = elim (Bool-cases (ltb 65535 (length made))) [
    | inl long ↦ absurd (refused (rw long at e))
    | inr short ↦
        let (same, kept) = replied (rw short at e) in
        (ap some same, subst (λ bs. length bs ≤ 65535) same (ltb→le _ _ short), kept)
  ]

  guard_write_nonce-ok :
      (c c' : Conn N) → guard_write_nonce c ≡ (ok tt, c') → (c.write_nonce < max_nonce) × (c ≡ c')
  unfolding guard_write_nonce
  guard_write_nonce-ok c c' e = elim (Bool-cases (leb max_nonce c.write_nonce)) [
    | inl over ↦ absurd (cc (rw over at e))
    | inr under ↦ (leb→lt _ _ under, ap (λ r. r.1) (rw under at e))
  ]

  build_wire_frame-ok :
      (hash : Hash) (encrypted out : List ℕ) (slm : LengthModifier) (c c' : Conn N)
      → c.length_obfuscator ≡ some slm
      → build_wire_frame hash encrypted c ≡ (ok out, c')
      → let (mask, iv) = next_mask hash slm.outbound_keys slm.outbound_iv in
        let len = xor16 (length encrypted) mask in
        (hi16 len ∷ lo16 len ∷ encrypted ≡ out)
        × (record c { length_obfuscator = some (record slm { outbound_iv = iv }) } ≡ c')
  unfolding build_wire_frame next_outbound_mask
  build_wire_frame-ok hash encrypted out slm c c' o e =
      elim (Bool-cases (ltb 0xffff (length encrypted))) [
        | inl long ↦ absurd (refused (rw long at e))
        | inr short ↦ replied (rw (short, o) at e)
      ]

  write_wire_frame-ok :
      (frame : List ℕ) (n : ℕ) (c c' : Conn N)
      → write_wire_frame frame c ≡ (ok n, c')
      → (socket : Socket) × (socket.outgoing ≡ c.socket.outgoing ++ frame)
        × (record c { socket = socket } ≡ c')
  unfolding write_wire_frame
  write_wire_frame-ok frame n c c' e =
      let r = socket_write frame c.socket in
      elim (Bool-cases r.0.1) [
        | inl failed ↦ absurd (refused (rw failed at e))
        | inr taken ↦ elim (Bool-cases (r.0.0 == length frame)) [
          | inr partial ↦ absurd (refused (rw (taken, partial) at e))
          | inl full ↦
              let (_, kept) = replied (rw (taken, full) at e) in
              (r.1, socket_write-outgoing frame c.socket taken (==→eq _ _ full), kept)
        ]
      ]

module _ {N : Type 0} (ops : NoiseConn N) (hash : Hash) where
  -- What a `writeSingleFrame` that returns without an error has done.
  pub record IsSent (chunk : List ℕ) (n : ℕ) (slm : LengthModifier) (writer writer' : Conn N)
      : Type 0 where
    pub to_encrypt : List ℕ
    pub encrypted : List ℕ
    pub frame : List ℕ
    pub noise : N
    pub socket : Socket
    pub within : writer.write_nonce < max_nonce
    pub changed : outbound_of writer.modifier_chain chunk ≡ ok to_encrypt
    pub sealed : ops.encrypt to_encrypt writer.noise ≡ (some encrypted, noise)
    pub short : length encrypted ≤ 65535
    pub laid_out :
        let len = xor16 (length encrypted) (next_mask hash slm.outbound_keys slm.outbound_iv).0 in
        hi16 len ∷ lo16 len ∷ encrypted ≡ frame
    pub went : socket.outgoing ≡ writer.socket.outgoing ++ frame
    pub reported : length chunk ≡ n
    pub left :
        record writer {
          noise = noise;
          length_obfuscator =
              some
                (record slm { outbound_iv = (next_mask hash slm.outbound_keys slm.outbound_iv).1 });
          socket = socket;
          write_nonce = writer.write_nonce + 1;
        }
        ≡ writer'

  abbrev pub after_build : List ℕ → List ℕ → Step N ℕ
  after_build chunk frame = write_wire_frame frame >>= λ _. count_written (length chunk)

  abbrev pub after_encrypt : List ℕ → List ℕ → Step N ℕ
  after_encrypt chunk encrypted = build_wire_frame hash encrypted >>= after_build chunk

  abbrev pub after_modify : List ℕ → List ℕ → Step N ℕ
  after_modify chunk to_encrypt = encrypt_frame ops to_encrypt >>= after_encrypt chunk

  abbrev pub after_guard : List ℕ → Step N ℕ
  after_guard chunk = apply_outbound_modifier chunk >>= after_modify chunk

  pub write_single_frame-IsSent :
      (chunk : List ℕ) (n : ℕ) (slm : LengthModifier) (writer writer' : Conn N)
      → writer.length_obfuscator ≡ some slm
      → write_single_frame ops hash chunk writer ≡ (ok n, writer')
      → IsSent chunk n slm writer writer'
  unfolding write_single_frame apply_outbound_modifier encrypt_frame
  write_single_frame-IsSent chunk n slm writer writer' masks e =
      let on = λ (step : Step N ℕ) (c : Conn N). step c ≡ (ok n, writer') in
      let (_, c1, g, e1) = step-eq-ok (λ _. after_guard chunk) guard_write_nonce writer e in
      let (within, same1) = guard_write_nonce-ok writer c1 g in
      let at1 = subst (on (after_guard chunk)) (sym same1) e1 in
      let (out, c2, m, e2) =
        step-eq-ok (after_modify chunk) (apply_outbound_modifier chunk) writer at1 in
      let (was, same2) = modified-ok (outbound_of writer.modifier_chain chunk) out writer c2 m in
      let at2 = subst (on (after_modify chunk out)) (sym same2) e2 in
      let (enc, c3, x, e3) = step-eq-ok (after_encrypt chunk) (encrypt_frame ops out) writer at2 in
      let r = ops.encrypt out writer.noise in
      let w3 = record writer { noise = r.1 } in
      let (sealed, short, same3) = accept_encrypted-ok r.0 enc w3 c3 x in
      let at3 = subst (on (after_encrypt chunk enc)) (sym same3) e3 in
      let (frame, c4, b, e4) = step-eq-ok (after_build chunk) (build_wire_frame hash enc) w3 at3 in
      let (laid, same4) = build_wire_frame-ok hash enc frame slm w3 c4 masks b in
      let iv = (next_mask hash slm.outbound_keys slm.outbound_iv).1 in
      let w4 = record w3 { length_obfuscator = some (record slm { outbound_iv = iv }) } in
      let at4 = subst (on (after_build chunk frame)) (sym same4) e4 in
      let (k, c5, w, e5) =
        step-eq-ok (λ _. count_written (length chunk)) (write_wire_frame frame) w4 at4 in
      let (socket, went, same5) = write_wire_frame-ok frame k w4 c5 w in
      let (reported, left) = replied (subst (on (count_written (length chunk))) (sym same5) e5) in
      record {
        to_encrypt = out;
        encrypted = enc;
        frame = frame;
        noise = r.1;
        socket = socket;
        within = within;
        changed = was;
        sealed = ap (λ o. (o, r.1)) sealed;
        short = short;
        laid_out = laid;
        went = went;
        reported = reported;
        left = left;
      }
