-- ===== src/Ratchet/Session/Receiving/Delivery.antt =====
-- Messages of one chain are opened in any order within the window, each once.
use noise_ssu.Base.{
  ℕ, ◌+◌, ◌-◌, ◌≤◌, ◌<◌, ◌≡◌, refl, ◌∙◌, ap, false, ◌||◌, Option, some, List, [], ◌∷◌, ◌++◌, map,
  ltb, leb, arith, length, Outcome, ok, inl, inr, Bool-cases, le→ltb, All, length-append,
  take-append, drop-append,
}
use noise_ssu.Base.Dict.{lookup}
use noise_ssu.Base.U32.{add32}
use noise_ssu.Ratchet.Session.{Crypto, Session, SessionError}
use noise_ssu.Ratchet.Session.Receiving.{
  parse_existing_session_message, try_counter, try_counter_hint_decrypt, scan_window_decrypt,
  window_end_of, opened_by, spend, decrypt_parsed, decrypt_existing_session, or_else,
}
use noise_ssu.Ratchet.Session.Receiving.Window.{
  IsChain, IsSynced, IsFilled, is_in, fill_recv_key_cache-IsFilled,
}
use noise_ssu.Ratchet.Session.Receiving.Spending.{spend-IsSynced}

parse_message :
    (ciphertext auth : List ℕ)
    → length auth ≡ 16
    → parse_existing_session_message (ciphertext ++ auth) ≡ ok (ciphertext, auth)
unfolding parse_existing_session_message
parse_message ciphertext auth l =
    let n = length-append ciphertext auth in
    let cut : length ciphertext ≡ length (ciphertext ++ auth) - 16 = omega (arith, n) in
    let long : ltb (length (ciphertext ++ auth)) 16 ≡ false = le→ltb _ _ (omega (arith, n)) in
    rw (long, take-append _ ciphertext auth cut, drop-append _ ciphertext auth cut) refl

-- A message as the peer sealed it.
pub record Sealed : Type 0 where
  pub counter : ℕ
  pub tag : ℕ
  pub ciphertext : List ℕ
  pub auth : List ℕ
  pub plaintext : List ℕ

module _ (C : Crypto) (chain : ℕ → C.Sym) (key : ℕ → ℕ) (derives : IsChain C chain key) where
  -- That the key of its counter opens it.
  abbrev pub IsSealed : Sealed → Type 0
  IsSealed m =
      (C.unseal (key m.counter) m.counter m.tag m.ciphertext m.auth ≡ some m.plaintext)
      × (length m.auth ≡ 16)
      × (1 ≤ m.counter)
      × (m.counter < 65536)

  window_end :
      (s : Session C) → s.recv_window_base ≤ 65536 → window_end_of C s ≡ s.recv_window_base + 128
  unfolding window_end_of
  window_end s low =
      let e : add32 s.recv_window_base 128 ≡ s.recv_window_base + 128 = omega arith in
      rw (e, le→ltb (s.recv_window_base + 128) s.recv_window_base (omega arith)) refl

  -- The decryption, once the keys are derived.
  pub opened :
      (ciphertext auth : List ℕ) (tag now : ℕ) (hint : Option ℕ) (spent : List ℕ) (s : Session C)
      → length auth ≡ 16
      → IsSynced C chain key spent s
      → s.recv_window_base ≤ 65536
      → let mark = s.recv_fill_mark in
        let end = s.recv_window_base + 128 in
        (t : Session C) × (decrypt_existing_session C (ciphertext ++ auth) tag hint now s
          ≡ opened_by C now
              (or_else C
                (try_counter_hint_decrypt C t hint ciphertext auth tag end)
                (scan_window_decrypt C t ciphertext auth tag end))
              t)
        × IsFilled C chain key spent (mark + (end - mark)) s t
  unfolding decrypt_existing_session decrypt_parsed
  opened ciphertext auth tag now hint spent s l v low =
      let (t, filled, f) =
        fill_recv_key_cache-IsFilled C chain key derives (s.recv_window_base + 128) spent s v
          (omega arith) in
      (t, rw (parse_message ciphertext auth l, window_end s low, filled) refl, f)

  try_counter-some :
      (s : Session C) (tag c : ℕ) (ciphertext auth plaintext : List ℕ)
      → lookup c s.recv_key_cache ≡ some (key c)
      → C.unseal (key c) c tag ciphertext auth ≡ some plaintext
      → try_counter C s tag ciphertext auth c ≡ some (plaintext, c)
  unfolding try_counter
  try_counter-some s tag c ciphertext auth plaintext there opens =
      rw (there, try_counter, opens) refl

  -- A message of the window that was not opened yet is opened with the hint of its counter, and is
  -- the only one that is spent by it.
  pub decrypt_delivers :
      (m : Sealed) (now : ℕ) (spent : List ℕ) (s : Session C)
      → IsSealed m
      → IsSynced C chain key spent s
      → is_in m.counter spent ≡ false
      → s.recv_window_base ≤ m.counter
      → m.counter < s.recv_window_base + 128
      → (t : Session C) × (decrypt_existing_session C
            (m.ciphertext ++ m.auth)
            m.tag
            (some m.counter)
            now
            s
          ≡ (ok m.plaintext, t))
        × IsSynced C chain key (m.counter ∷ spent) t
        × (s.recv_window_base ≤ t.recv_window_base)
  unfolding try_counter_hint_decrypt opened_by
  decrypt_delivers m now spent s (opens, l, pos, small) v new above below =
      let c = m.counter in
      let (t, e, (vt, mark, base, _, _)) =
        opened m.ciphertext m.auth m.tag now (some c) spent s l v (omega arith) in
      let there : lookup c t.recv_key_cache ≡ some (key c) =
        vt.cache c ∙ ground (arith, new, mark) in
      let inside : (ltb c t.recv_window_base || leb (s.recv_window_base + 128) c) ≡ false =
        ground (arith, base) in
      let (w, (_, _, _, moved)) =
        spend-IsSynced C chain key now c spent t vt (omega (arith, mark)) small in
      (
        spend C now c t,
        e
            ∙ rw (inside, try_counter-some t m.tag c m.ciphertext m.auth m.plaintext there opens)
                refl,
        w,
        omega (arith, moved, base),
      )

  -- Each message in turn, with the hint of its counter.
  abbrev pub receive_all : ℕ → List Sealed → Session C → List (Outcome SessionError (List ℕ))
  receive_all now [] s = []
  receive_all now (m ∷ ms) s =
      let (r, t) =
        decrypt_existing_session C (m.ciphertext ++ m.auth) m.tag (some m.counter) now s in
      r ∷ receive_all now ms t

  -- No counter comes twice, nor is one of `spent`.
  abbrev pub AreNew : List ℕ → List Sealed → Type 0
  AreNew spent [] = Unit {0}
  AreNew spent (m ∷ ms) = (is_in m.counter spent ≡ false) × AreNew (m.counter ∷ spent) ms

  -- A counter that is not spent is not below the base.
  not_passed :
      (c : ℕ) (spent : List ℕ) (s : Session C)
      → IsSynced C chain key spent s
      → is_in c spent ≡ false
      → 1 ≤ c
      → s.recv_window_base ≤ c
  not_passed c spent s v new pos = elim (Bool-cases (ltb c s.recv_window_base)) [
    | inl below ↦ let old = v.passed c pos (ground (arith, below)) in cc
    | inr above ↦ ground (arith, above)
  ]

  abbrev IsBelow : ℕ → Sealed → Type 0
  IsBelow end m = m.counter < end

  receive_all_from :
      (ms : List Sealed) (now end : ℕ) (spent : List ℕ) (s : Session C)
      → All IsSealed ms
      → IsSynced C chain key spent s
      → AreNew spent ms
      → All (IsBelow end) ms
      → end ≤ s.recv_window_base + 128
      → receive_all now ms s ≡ map (λ m. ok m.plaintext) ms
  receive_all_from [] now end spent s sealed v new low room = refl
  receive_all_from (m ∷ ms) now end spent s sealed v new low room =
      let (t, e, w, moved) =
        decrypt_delivers m now spent s sealed.0 v new.0
          (not_passed m.counter spent s v new.0 sealed.0.2) (omega (arith, low.0)) in
      rw e (
        ap (λ rest. ok m.plaintext ∷ rest)
          (receive_all_from ms now end (m.counter ∷ spent) t sealed.1 w new.1 low.1
            (omega (arith, moved))))

  -- Messages sealed along the chain on which a session receives are all opened, in whatever order they
  -- come, where no counter comes twice or was opened before and all lie below the end of the window of
  -- 128 counters: each gives its plaintext.
  pub receive_all_lem :
      (ms : List Sealed) (now : ℕ) (spent : List ℕ) (s : Session C)
      → All IsSealed ms
      → IsSynced C chain key spent s
      → AreNew spent ms
      → All (λ (m : Sealed). m.counter < s.recv_window_base + 128) ms
      → receive_all now ms s ≡ map (λ m. ok m.plaintext) ms
  receive_all_lem ms now spent s sealed v new low =
      receive_all_from ms now (s.recv_window_base + 128) spent s sealed v new low (omega arith)
