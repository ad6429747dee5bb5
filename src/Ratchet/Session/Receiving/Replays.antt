-- ===== src/Ratchet/Session/Receiving/Replays.antt =====
-- Messages that were opened before are refused, and what trimming takes from the window.
use noise_ssu.Base.{
  ℕ, zero, suc, ◌+◌, ◌-◌, ◌≤◌, ◌≡◌, ◌≢◌, refl, sym, ◌∙◌, ap, true, false, ◌&&◌, ◌||◌, Option, none,
  some, List, ◌++◌, ltb, leb, arith, length, err, inl, inr, Bool-cases, Option-cases,
}
use noise_ssu.Base.Dict.{lookup, lookup-retain_fresh, lookup-retain_kept}
use noise_ssu.Ratchet.Session.{Crypto, Session, no_counter_matches}
use noise_ssu.Ratchet.Session.Receiving.{
  try_counter, try_counter_hint_decrypt, scan_from, scan_window_decrypt, opened_by,
  decrypt_existing_session, trim_recv_window_by_pn,
}
use noise_ssu.Ratchet.Session.Receiving.Window.{IsChain, IsSynced, held, is_in}
use noise_ssu.Ratchet.Session.Receiving.Delivery.{Sealed, opened}

module _ (C : Crypto) (chain : ℕ → C.Sym) (key : ℕ → ℕ) (derives : IsChain C chain key) where
  -- That only the key of its counter opens a message: what the AEAD promises.
  abbrev pub IsAuthentic : Sealed → Type 0
  IsAuthentic m = (d : ℕ) → d ≢ m.counter → C.unseal (key d) d m.tag m.ciphertext m.auth ≡ none

  held-some :
      (spent : List ℕ) (mark d k : ℕ)
      → held C chain key spent mark d ≡ some k
      → (k ≡ key d) × (is_in d spent ≡ false)
  held-some spent mark d k e = ground (arith, e)

  -- No counter opens a message that was opened before.
  try_spent :
      (m : Sealed) (d : ℕ) (spent : List ℕ) (t : Session C)
      → IsAuthentic m
      → is_in m.counter spent ≡ true
      → IsSynced C chain key spent t
      → try_counter C t m.tag m.ciphertext m.auth d ≡ none
  unfolding try_counter
  try_spent m d spent t auth old v = elim (Option-cases (lookup d t.recv_key_cache)) [
    | inl gone ↦ rw (gone, try_counter) refl
    | inr (k, there) ↦
        let (same, new) = held-some spent t.recv_fill_mark d k (sym (v.cache d) ∙ there) in
        let other : d ≢ m.counter = λ e. cc (ap (λ x. is_in x spent) e) in
        let closed = auth d other in rw (there, try_counter, same, closed) refl
  ]

  scan_spent :
      (rounds d : ℕ) (m : Sealed) (spent : List ℕ) (t : Session C)
      → IsAuthentic m
      → is_in m.counter spent ≡ true
      → IsSynced C chain key spent t
      → scan_from C rounds d t m.ciphertext m.auth m.tag ≡ none
  unfolding scan_from
  scan_spent zero d m spent t auth old v = refl
  scan_spent (suc rounds) d m spent t auth old v =
      rw (try_spent m d spent t auth old v) (scan_spent rounds (d + 1) m spent t auth old v)

  hint_spent :
      (hint : Option ℕ) (m : Sealed) (end : ℕ) (spent : List ℕ) (t : Session C)
      → IsAuthentic m
      → is_in m.counter spent ≡ true
      → IsSynced C chain key spent t
      → try_counter_hint_decrypt C t hint m.ciphertext m.auth m.tag end ≡ none
  unfolding try_counter_hint_decrypt
  hint_spent none m end spent t auth old v = refl
  hint_spent (some c) m end spent t auth old v =
      elim (Bool-cases (ltb c t.recv_window_base || leb end c)) [
        | inl outside ↦ rw outside refl
        | inr inside ↦ rw inside (try_spent m c spent t auth old v)
      ]

  -- A message whose counter is spent is refused, whatever counter the tag gives, where only the key
  -- of its counter opens it and the base of the window is at most 65536; the base and the spent
  -- counters stay as they were.
  pub replayed_message_refused :
      (m : Sealed) (hint : Option ℕ) (now : ℕ) (spent : List ℕ) (s : Session C)
      → IsAuthentic m
      → length m.auth ≡ 16
      → IsSynced C chain key spent s
      → is_in m.counter spent ≡ true
      → s.recv_window_base ≤ 65536
      → (t : Session C) × (decrypt_existing_session C (m.ciphertext ++ m.auth) m.tag hint now s
          ≡ (err no_counter_matches, t))
        × IsSynced C chain key spent t
        × (t.recv_window_base ≡ s.recv_window_base)
  unfolding opened_by scan_window_decrypt
  replayed_message_refused m hint now spent s auth l v old low =
      let end = s.recv_window_base + 128 in
      let (t, e, (vt, _, base, _, _)) =
        opened C chain key derives m.ciphertext m.auth m.tag now hint spent s l v low in
      let first = hint_spent hint m end spent t auth old vt in
      let second = scan_spent (end - t.recv_window_base) t.recv_window_base m spent t auth old vt in
      (t, e ∙ rw (first, second) refl, vt, base)

  -- In a session whose keys follow its chain, `trimRecvWindowByPN` leaves the key of every counter: those
  -- that it looks for are gone already.
  pub trim_idle :
      (pn c : ℕ) (spent : List ℕ) (s : Session C)
      → IsSynced C chain key spent s
      → lookup c (trim_recv_window_by_pn C pn s).recv_key_cache ≡ lookup c s.recv_key_cache
  unfolding trim_recv_window_by_pn
  trim_idle pn c spent s v = elim (Bool-cases (ltb pn c && ltb c s.recv_window_base)) [
    | inl within ↦
        let old = v.passed c (ground (arith, within)) (ground (arith, within)) in
        let gone : lookup c s.recv_key_cache ≡ none = v.cache c ∙ ground (arith, old) in
        lookup-retain_fresh _ c s.recv_key_cache gone ∙ sym gone
    | inr outside ↦ lookup-retain_kept _ c s.recv_key_cache (λ k. rw outside refl)
  ]
