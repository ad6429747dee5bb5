-- ===== src/Ratchet/Manager/Tags/Window.antt =====
-- A new session's tags: each of the window leads to the session, with the counter of its message.
use noise_ssu.Base.{
  subst, ℕ, zero, suc, ◌+◌, ◌≤◌, ◌<◌, ◌≡◌, ◌≢◌, refl, ◌∙◌, ap, true, false, some, [], ◌∷◌, ◌++◌,
  ltb, ◌==◌, arith, length, Outcome, ok, inl, inr, Bool-cases, length-append, ==→eq, ==→ne, eq→==,
  ne→==,
}
use noise_ssu.Base.Dict.{lookup, insert, lookup-insert}
use noise_ssu.Base.U32.{add32}
use noise_ssu.Ratchet.Session.{Crypto, Session, SessionError}
use noise_ssu.Ratchet.Manager.{Manager}
use noise_ssu.Ratchet.Manager.Tags.{
  take_from, take_tag, collides, install_tag, fill_window, generate_tag_window, is_without_ratchet,
}

module _ (C : Crypto) (chain : ℕ → C.Tags) (tag : ℕ → ℕ) where
  -- The chain of tag ratchets for the counters from a start to an end, and the tag that each gives.
  abbrev pub IsTagChain : ℕ → ℕ → Type 0
  IsTagChain start end =
      (n : ℕ) → start ≤ n → n < end → C.next_tag (chain n) ≡ some (tag n, chain (suc n))

  abbrev pub AreDistinct : ℕ → ℕ → Type 0
  AreDistinct start end =
      (i j : ℕ) → start ≤ i → i < end → start ≤ j → j < end → i ≢ j → tag i ≢ tag j

  -- None of those tags belongs to another session.
  abbrev pub AreFree : ℕ → ℕ → ℕ → Manager C → Type 0
  AreFree start end p sm =
      (n : ℕ) → start ≤ n → n < end → collides C p (lookup (tag n) sm.tag_index) ≡ false

  -- The session whose next tag is that of counter `n`.
  abbrev pub IsAt : ℕ → Session C → Type 0
  IsAt n s = (s.recv_tag_ratchet ≡ some (chain n)) × (s.next_recv_tag_counter ≡ n)

  -- The session and the manager with the tag of `n` installed.
  abbrev with_tag : ℕ → Session C → Session C
  with_tag n s = record s {
    recv_tag_ratchet = some (chain (suc n));
    next_recv_tag_counter = suc n;
    pending_tags = s.pending_tags ++ tag n ∷ [];
  }

  abbrev with_index : ℕ → ℕ → Manager C → Manager C
  with_index p n sm = record sm {
    tag_index = insert (tag n) p sm.tag_index;
    tag_counter_index = insert (tag n) n sm.tag_counter_index;
  }

  free_after :
      (start end p n : ℕ) (sm : Manager C)
      → AreFree start end p sm
      → AreFree start end p (with_index p n sm)
  free_after start end p n sm free i low high =
      ap (collides C p) (lookup-insert (tag n) (tag i) p sm.tag_index)
      ∙ elim (Bool-cases (tag n == tag i)) [
        | inl same ↦ rw (same, eq→== p p refl) refl
        | inr other ↦ rw other (free i low high)
      ]

  -- What a draw gives, by the counter of the session.
  abbrev drawn : ℕ → Session C → ℕ → Outcome SessionError (ℕ × ℕ) × Session C
  drawn n s c = (
    ok (tag n, c),
    record s { recv_tag_ratchet = some (chain (suc n)); next_recv_tag_counter = add32 c 1 },
  )

  take_tag_lem :
      (n : ℕ) (s : Session C)
      → C.next_tag (chain n) ≡ some (tag n, chain (suc n))
      → IsAt n s
      → n < 4294967295
      → take_tag C s ≡ (
        ok (tag n, n),
        record s { recv_tag_ratchet = some (chain (suc n)); next_recv_tag_counter = suc n },
      )
  unfolding take_tag take_from
  take_tag_lem n s gives (at, count) room =
      let bumped : add32 n 1 ≡ suc n = omega arith in
      let first : take_from C (some (chain n)) s ≡ drawn n s s.next_recv_tag_counter =
        from_ratchet n s gives in
      ap (λ o. take_from C o s) at ∙ first ∙ ap (drawn n s) count ∙ rw bumped refl
    where
      from_ratchet :
          (n : ℕ) (s : Session C)
          → C.next_tag (chain n) ≡ some (tag n, chain (suc n))
          → take_from C (some (chain n)) s ≡ drawn n s s.next_recv_tag_counter
      from_ratchet n s gives = rw (gives, take_from) refl

  one_tag :
      (p n fuel : ℕ) (s : Session C) (sm : Manager C)
      → C.next_tag (chain n) ≡ some (tag n, chain (suc n))
      → IsAt n s
      → n < 4294967295
      → length s.pending_tags < 24
      → collides C p (lookup (tag n) sm.tag_index) ≡ false
      → fill_window C (suc fuel) p s sm ≡ fill_window C fuel p (with_tag n s) (with_index p n sm)
  unfolding fill_window install_tag
  one_tag p n fuel s sm gives at room few free =
      let open_window : ltb (length s.pending_tags) 24 ≡ true = ground (arith, few) in
      rw (open_window, fill_window) (rw (take_tag_lem n s gives at room) (rw free refl))

  -- That the tag of a counter leads to the session and the counter.
  abbrev pub Leads : ℕ → Manager C → ℕ → Type 0
  Leads p sm i =
      (lookup (tag i) sm.tag_index ≡ some p) × (lookup (tag i) sm.tag_counter_index ≡ some i)

  Leads-with : (p n : ℕ) (sm : Manager C) → Leads p (with_index p n sm) n
  Leads-with p n sm =
      let self : (tag n == tag n) ≡ true = eq→== _ _ refl in
      (
        lookup-insert (tag n) (tag n) p sm.tag_index ∙ rw self refl,
        lookup-insert (tag n) (tag n) n sm.tag_counter_index ∙ rw self refl,
      )

  Leads-still :
      (start end p n i : ℕ) (sm : Manager C)
      → AreDistinct start end
      → n < end
      → start ≤ i
      → i < n
      → Leads p sm i
      → Leads p (with_index p n sm) i
  Leads-still start end p n i sm distinct within from low (there, count) =
      let other : (tag n == tag i) ≡ false = ne→== _ _ (
        distinct n i (omega (arith, from, low)) within from (omega (arith, within, low))
          (λ e. absurd (omega (arith, e, low)))) in
      (
        lookup-insert (tag n) (tag i) p sm.tag_index ∙ rw other there,
        lookup-insert (tag n) (tag i) n sm.tag_counter_index ∙ rw other count,
      )

  -- What a session keeps while its tags are drawn.
  abbrev pub IsUnmoved : Session C → Session C → Type 0
  IsUnmoved s s' =
      (s'.recv_symmetric_ratchet ≡ s.recv_symmetric_ratchet)
      × (s'.recv_window_base ≡ s.recv_window_base)
      × (s'.recv_fill_mark ≡ s.recv_fill_mark)
      × (s'.recv_key_cache ≡ s.recv_key_cache)
      × (s'.last_used ≡ s.last_used)

  -- What the loop leaves, where it starts at counter `n` with `k` tags missing.
  abbrev pub IsWindow : ℕ → ℕ → ℕ → ℕ → Session C → Session C → Manager C → Manager C → Type 0
  IsWindow start p n k s s' sm sm' =
      (length s'.pending_tags ≡ 24)
      × IsAt (n + k) s'
      × ((i : ℕ) → n ≤ i → i < n + k → Leads p sm' i)
      × ((i : ℕ) → start ≤ i → i < n → Leads p sm i → Leads p sm' i)
      × IsUnmoved s s'
      × (sm'.session_timeout ≡ sm.session_timeout)

  fill_window_lem :
      (start end k p n fuel : ℕ) (s : Session C) (sm : Manager C)
      → IsTagChain start end
      → AreDistinct start end
      → AreFree start end p sm
      → start ≤ n
      → n + k ≤ end
      → IsAt n s
      → length s.pending_tags + k ≡ 24
      → n + k < 4294967295
      → k < fuel
      → (s' : Session C) × (sm' : Manager C) × (fill_window C fuel p s sm ≡ some (ok tt, s', sm'))
        × IsWindow start p n k s s' sm sm'
  unfolding fill_window
  fill_window_lem start end k p n zero s sm gives distinct free from within at full room enough =
      absurd (omega arith)
  fill_window_lem start end zero p n (suc fuel) s sm gives distinct free from within at full room
        enough =
      let done : ltb (length s.pending_tags) 24 ≡ false = ground (arith, full) in
      let same : n ≡ n + 0 = omega arith in
      (
        s,
        sm,
        rw (done, fill_window) refl,
        (
          omega (arith, full),
          (at.0 ∙ ap (λ i. some (chain i)) same, at.1 ∙ same),
          (λ i low high. absurd (omega (arith, low, high))),
          (λ i from low h. h),
          (refl, refl, refl, refl, refl),
          refl,
        ),
      )
  fill_window_lem start end (suc k) p n (suc fuel) s sm gives distinct free from within at full room
        enough =
      let sm1 = with_index p n sm in
      let s1 = with_tag n s in
      let shift : suc n + k ≡ n + suc k = omega arith in
      let (s', sm', e, (many, last, fresh, kept, unmoved, timeout)) =
        fill_window_lem start end k p (suc n) fuel s1 sm1 gives distinct
          (free_after start end p n sm free) (omega (arith, from)) (omega (arith, within))
          (refl, refl) (omega (arith, length-append s.pending_tags (tag n ∷ []), full))
          (omega (arith, room)) (omega (arith, enough)) in
      (
        s',
        sm',
        one_tag p n fuel s sm (gives n from (omega (arith, within))) at (omega (arith, room))
              (omega (arith, full)) (free n from (omega (arith, within)))
            ∙ e,
        (
          many,
          (last.0 ∙ ap (λ i. some (chain i)) shift, last.1 ∙ shift),
          (λ i low high. elim (Bool-cases (n == i)) [
            | inl same ↦
                subst (Leads p sm') (==→eq n i same) (kept n from (omega arith) (Leads-with p n sm))
            | inr other ↦
                fresh i (ground (arith, low, ==→ne n i other)) (omega (arith, high, shift))
          ]),
          (λ i early low h.
              kept i early (omega (arith, low))
                (Leads-still start end p n i sm distinct (omega (arith, within)) early low h)),
          unmoved,
          timeout,
        ),
      )

  -- Take the tags from a start up to those that this window lacks: where they are given by a chain of
  -- ratchets, distinct, and none of them another session's, and the counters stay below 2^32, the
  -- loop fills the window of a session that stands at the next one. It ends, without an error, with 24
  -- tags pending, and each tag that it drew leads to the session and to the counter of the message that
  -- carries it; those drawn before lead where they did, and the receive window and the timeout stay
  -- as they were.
  pub generate_tag_window_lem :
      (start k p n fuel : ℕ) (s : Session C) (sm : Manager C)
      → IsTagChain start (n + k)
      → AreDistinct start (n + k)
      → AreFree start (n + k) p sm
      → start ≤ n
      → IsAt n s
      → length s.pending_tags + k ≡ 24
      → n + k < 4294967295
      → k < fuel
      → (s' : Session C) × (sm' : Manager C) × (generate_tag_window C fuel p s sm
          ≡ some (ok tt, s', sm'))
        × IsWindow start p n k s s' sm sm'
  unfolding generate_tag_window is_without_ratchet
  generate_tag_window_lem start k p n fuel s sm gives distinct free from at full room enough =
      let (s', sm', e, window) =
        fill_window_lem start (n + k) k p n fuel s sm gives distinct free from (omega arith) at full
          room enough in
      let here : is_without_ratchet C s.recv_tag_ratchet ≡ false = ap (is_without_ratchet C) at.0 in
      (s', sm', rw (here, generate_tag_window) e, window)
