-- ===== src/Ntcp2/Errors/Final.antt =====
-- After a fatal error nothing is read or written any more.
use noise_ssu.Base.{
  ℕ, zero, suc, ◌+◌, ◌≡◌, sym, ap, ap₂, subst, ◌-◌, ◌∙◌, inl, inr, true, none, some, List, [], ◌∷◌,
  ltb, length, Bool-cases, Option-cases, Outcome-cases, Outcome, ok, err, true-ne-false, take, drop,
}
use noise_ssu.Handshake.SipHash.{Hash}
use noise_ssu.Ntcp2.{
  NoiseConn, Conn, FrameError, connection_broken, invalid_frame_size, direct_failed,
}
use noise_ssu.Ntcp2.Reading.{read_framed, read, as_reply, read_direct}
use noise_ssu.Ntcp2.Writing.{
  write_single_frame, write_chunks, write_framed, write, write_direct, get_max_frame_size,
}
use noise_ssu.Ntcp2.Sending.{connection_of}
use noise_ssu.Ntcp2.Errors.{
  breaks, broken_by, read_framed-IsBreaking, write_single_frame-IsBreaking,
}

module _ {N : Type 0} (ops : NoiseConn N) (hash : Hash) where
  -- Each later call is refused with CONNECTION_BROKEN, and changes nothing.
  pub IsDead : Conn N → Type 0
  IsDead c =
      ((junk size : ℕ) → read ops hash junk size c ≡ ([], some connection_broken, c))
      × ((fuel : ℕ) (bytes : List ℕ)
          → write ops hash fuel bytes c ≡ some (0, some connection_broken, c))

  broken-IsDead : (c : Conn N) → c.broken ≡ true → IsDead c
  unfolding IsDead read write
  broken-IsDead c is = (λ junk size. simp (read, is), λ fuel bytes. simp (write, is))

  no_error : {e : FrameError} → ¬ (none ≡ some e)
  no_error h = cc h

  as_reply-err :
      (r : Outcome FrameError (List ℕ) × Conn N) (out : List ℕ) (e : FrameError) (c' : Conn N)
      → as_reply r ≡ (out, some e, c')
      → (out ≡ []) × (r ≡ (err e, c'))
  as_reply-err (ok bytes, c) out e c' is = absurd (no_error (ap (λ r. r.1) is))
  as_reply-err (err reason, c) out e c' is =
      let same : reason ≡ e = cc (ap (λ r. r.1) is) in
      (sym (ap (λ r. r.0) is), ap₂ (λ a b. (err a, b)) same (ap (λ r. r.2) is))

  mild_not_fatal : (e : FrameError) → some direct_failed ≡ some e → ¬ (breaks e ≡ true)
  mild_not_fatal e same fatal =
      let is : direct_failed ≡ e = cc same in
      true-ne-false (sym (subst (λ x. breaks x ≡ true) (sym is) fatal))

  direct_read_mild :
      (size : ℕ) (out : List ℕ) (e : FrameError) (c c' : Conn N)
      → read_direct ops size c ≡ (out, some e, c')
      → ¬ (breaks e ≡ true)
  unfolding read_direct
  direct_read_mild size out e c c' is =
      elim (Bool-cases (ops.direct_read size c.noise c.socket).0.1) [
        | inl failed ↦ mild_not_fatal e (rw failed at (ap (λ r. r.1) is))
        | inr fine ↦ absurd (no_error (rw fine at (ap (λ r. r.1) is)))
      ]

  direct_write_mild :
      (bytes : List ℕ) (n : ℕ) (e : FrameError) (c c' : Conn N)
      → write_direct ops bytes c ≡ (n, some e, c')
      → ¬ (breaks e ≡ true)
  unfolding write_direct
  direct_write_mild bytes n e c c' is =
      elim (Bool-cases (ops.direct_write bytes c.noise c.socket).0.1) [
        | inl failed ↦ mild_not_fatal e (rw failed at (ap (λ r. r.1) is))
        | inr fine ↦ absurd (no_error (rw fine at (ap (λ r. r.1) is)))
      ]

  -- A `Read` that returns an error which desynchronizes the ends (an exhausted nonce, an invalid frame
  -- length, a frame that is cut short or that does not decrypt, or an earlier such error) puts nothing
  -- into the caller's buffer, and every later `Read` and `Write` is refused and changes nothing.
  pub read_error_final :
      (junk size : ℕ) (out : List ℕ) (e : FrameError) (c c' : Conn N)
      → read ops hash junk size c ≡ (out, some e, c')
      → breaks e ≡ true
      → (out ≡ []) × IsDead c'
  unfolding read
  read_error_final junk size out e c c' is fatal = elim (Bool-cases c.broken) [
    | inl broken ↦
        let reply : ([], some connection_broken, c) ≡ (out, some e, c') =
          simp (read, broken) at is in
        (sym (ap (λ r. r.0) reply), subst IsDead (ap (λ r. r.2) reply) (broken-IsDead c broken))
    | inr alive ↦ elim (Option-cases c.length_obfuscator) [
      | inl bare ↦ absurd (direct_read_mild size out e c c' (simp (read, alive, bare) at is) fatal)
      | inr (slm, masked) ↦ elim (Bool-cases (ltb 0 (length c.read_buffer))) [
        | inl some_left ↦
            absurd (no_error (ap (λ r. r.1) (simp (read, alive, masked, some_left) at is)))
        | inr none_left ↦
            let (empty, framed) =
              as_reply-err (read_framed ops hash junk size c) out e c'
                (simp (read, alive, masked, none_left) at is) in
            (
              empty,
              broken-IsDead c' (
                  broken_by (read_framed ops hash junk size) e c c'
                    (read_framed-IsBreaking ops hash junk size c) framed fatal),
            )
      ]
    ]
  ]

  write_chunks_broken :
      (fuel most total n : ℕ) (bytes : List ℕ) (e : FrameError) (c c' : Conn N)
      → write_chunks ops hash fuel most bytes total c ≡ some (n, some e, c')
      → breaks e ≡ true
      → c'.broken ≡ true
  unfolding write_chunks
  write_chunks_broken fuel most total n [] e c c' is fatal = absurd (cc is)
  write_chunks_broken zero most total n (b ∷ bs) e c c' is fatal = absurd (cc is)
  write_chunks_broken (suc fuel) most total n (b ∷ bs) e c c' is fatal =
      let chunk = take most (b ∷ bs) in
      let r = write_single_frame ops hash chunk c in
      elim (Outcome-cases r.0) [
        | inl (k, fine) ↦
            write_chunks_broken fuel most (total + k) n (drop (length chunk) (b ∷ bs)) e r.1 c'
              (rw (write_chunks, fine) at is) fatal
        | inr (reason, failed) ↦
            let reply : some (total, some reason, r.1) ≡ some (n, some e, c') =
              rw (write_chunks, failed) at is in
            let same : reason ≡ e = cc reply in
            broken_by (write_single_frame ops hash chunk) e c c'
              (write_single_frame-IsBreaking ops hash chunk c)
              (ap (λ o. (o, r.1)) failed
                ∙ ap₂ (λ a b. (err a, b)) same (ap (connection_of c) reply))
              fatal
      ]

  -- A `Write` that returns an error which desynchronizes the ends (an exhausted nonce, a failed or a
  -- partial write of a frame, or an earlier such error) leaves a connection on which every later `Read`
  -- and `Write` is refused and changes nothing.
  pub write_error_final :
      (fuel n : ℕ) (bytes : List ℕ) (e : FrameError) (c c' : Conn N)
      → write ops hash fuel bytes c ≡ some (n, some e, c')
      → breaks e ≡ true
      → IsDead c'
  unfolding write write_framed
  write_error_final fuel n bytes e c c' is fatal = elim (Bool-cases c.broken) [
    | inl broken ↦
        let reply : some (0, some connection_broken, c) ≡ some (n, some e, c') =
          simp (write, broken) at is in
        subst IsDead (ap (connection_of c) reply) (broken-IsDead c broken)
    | inr alive ↦ elim (Option-cases c.length_obfuscator) [
      | inl bare ↦
          let reply : some (write_direct ops bytes c) ≡ some (n, some e, c') =
            simp (write, alive, bare) at is in
          absurd (direct_write_mild bytes n e c c' (cc reply) fatal)
      | inr (slm, masked) ↦ elim (Bool-cases (ltb (get_max_frame_size c) 16)) [
        | inl small ↦
            let reply : some (0, some invalid_frame_size, c) ≡ some (n, some e, c') =
              simp (write, alive, masked, write_framed, small) at is in
            let same : invalid_frame_size ≡ e = cc reply in
            absurd (true-ne-false (sym (subst (λ x. breaks x ≡ true) (sym same) fatal)))
        | inr roomy ↦ broken-IsDead c' (
            write_chunks_broken fuel (get_max_frame_size c - 16) 0 n bytes e c c'
              (simp (write, alive, masked, write_framed, roomy) at is) fatal)
      ]
    ]
  ]
