-- ===== src/Ntcp2/Writing/Returns.antt =====
-- The loop of `writeFramed` comes to an end.
use noise_ssu.Base.{
  ℕ, zero, suc, ◌+◌, ◌-◌, ◌≤◌, ◌<◌, ◌≡◌, refl, inl, inr, Option, none, some, List, [], ◌∷◌, arith,
  length, take, drop, length-take, length-drop, Bool-cases, Option-cases, Outcome-cases, le→ltb,
}
use noise_ssu.Handshake.SipHash.{Hash}
use noise_ssu.Ntcp2.{NoiseConn, Conn, FrameError, connection_broken}
use noise_ssu.Ntcp2.Writing.{
  write_single_frame, write_chunks, write_framed, write, write_direct, get_max_frame_size,
}

module _ {N : Type 0} (ops : NoiseConn N) (hash : Hash) where
  write_chunks_returns :
      (fuel max_plaintext total : ℕ) (bytes : List ℕ) (c : Conn N)
      → 0 < max_plaintext
      → length bytes ≤ fuel
      → (result : ℕ × Option FrameError × Conn N) × (write_chunks ops hash fuel max_plaintext bytes
            total c
          ≡ some result)
  unfolding write_chunks
  write_chunks_returns fuel most total [] c room enough = ((total, none, c), refl)
  write_chunks_returns zero most total (b ∷ bs) c room enough = absurd (omega arith)
  write_chunks_returns (suc fuel) most total (b ∷ bs) c room enough =
      let chunk = take most (b ∷ bs) in
      let size = length-take most (b ∷ bs) in
      let r = write_single_frame ops hash chunk c in
      let left = length-drop (length chunk) (b ∷ bs) in
      elim (Outcome-cases r.0) [
        | inr (reason, failed) ↦ ((total, some reason, r.1), rw (write_chunks, failed) refl)
        | inl (k, fine) ↦
            let (result, is) =
              write_chunks_returns fuel most (total + k) (drop (length chunk) (b ∷ bs)) r.1 room
                (omega (arith, enough, left, size)) in
            (result, rw (write_chunks, fine) is)
      ]

  -- With frames that have room for plaintext, a `Write` returns after at most as many rounds of its loop as
  -- there are bytes, whatever the socket, the ciphers and the modifiers do.
  pub write_returns :
      (fuel : ℕ) (bytes : List ℕ) (c : Conn N)
      → 16 < get_max_frame_size c
      → length bytes ≤ fuel
      → (result : ℕ × Option FrameError × Conn N) × (write ops hash fuel bytes c ≡ some result)
  unfolding write write_framed
  write_returns fuel bytes c roomy enough = elim (Bool-cases c.broken) [
    | inl broken ↦ ((0, some connection_broken, c), simp (write, broken))
    | inr alive ↦ elim (Option-cases c.length_obfuscator) [
      | inl bare ↦ (write_direct ops bytes c, simp (write, alive, bare))
      | inr (slm, masked) ↦
          let (result, is) =
            write_chunks_returns fuel (get_max_frame_size c - 16) 0 bytes c (omega arith) enough in
          (
            result,
            simp (
              write,
              alive,
              masked,
              write_framed,
              le→ltb (get_max_frame_size c) 16 (omega arith),
              is,
            ),
          )
    ]
  ]
