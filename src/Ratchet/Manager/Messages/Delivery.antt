-- ===== src/Ratchet/Manager/Messages/Delivery.antt =====
-- A message finds its session by its tag and is opened; its tag is used up by that.
use noise_ssu.Base.{
  ℕ, ◌+◌, ◌-◌, ◌≤◌, ◌<◌, ◌≡◌, refl, ◌∙◌, ap, true, false, Option, some, List, ◌++◌, ltb, leb, arith,
  ◌==◌, eq→==, length, Outcome, ok,
}
use noise_ssu.Base.Dict.{lookup, insert, erase, lookup-insert}
use noise_ssu.Wire.Packet.{put_uint64}
use noise_ssu.Ratchet.Session.{Crypto, Session, SessionError}
use noise_ssu.Ratchet.Session.Receiving.{decrypt_existing_session}
use noise_ssu.Ratchet.Session.Receiving.Window.{IsChain, IsSynced, is_in}
use noise_ssu.Ratchet.Session.Receiving.Delivery.{Sealed, IsSealed, decrypt_delivers}
use noise_ssu.Ratchet.Manager.{
  Manager, store, lookup_session_by_tag, validate_and_consume_tag_from_session, at_pointer,
  is_session_valid, remove_tag_from_pending_list,
}
use noise_ssu.Ratchet.Manager.Messages.{
  split_tag, decrypt_with, try_decrypt_existing, decrypt_tagged, decrypt_garlic_message,
  replenish_if, process_decrypted_es_blocks,
}

-- The tag is read as it was written.
split_tag-put :
    (tag : ℕ) (body : List ℕ)
    → tag < 0x1_0000_0000_0000_0000
    → split_tag (put_uint64 tag ++ body) ≡ some (tag, body)
unfolding split_tag
split_tag-put tag body h = ap (λ n. some (n, body)) (omega arith)

module _ (C : Crypto) where
  -- The session without a pending tag.
  abbrev pub without_tag : ℕ → Session C → Session C
  without_tag tag s = record s { pending_tags = remove_tag_from_pending_list tag s.pending_tags }

  -- The manager after a message was opened.
  abbrev pub after_opened : ℕ → ℕ → List ℕ → Session C → Session C → Manager C → Manager C
  after_opened tag p text s t sm = process_decrypted_es_blocks C p text (
      replenish_if C (ltb (length (without_tag tag s).pending_tags) 12) p
        (store C p t (store C p (without_tag tag s) sm)))

  at_pointer-ok :
      (p : ℕ) (s t : Session C) (text : List ℕ)
      (method : Session C → Outcome SessionError (List ℕ) × Session C) (sm : Manager C)
      → method s ≡ (ok text, t)
      → at_pointer C p method (store C p s sm) ≡ (ok text, store C p t (store C p s sm))
  unfolding store
  at_pointer-ok p s t text method sm e =
      let self : (p == p) ≡ true = eq→== p p refl in
      let there : lookup p (insert p s sm.heap) ≡ some s =
        lookup-insert p p s sm.heap ∙ rw self refl in
      rw (there, at_pointer) (rw e refl)

  decrypt_with-ok :
      (tag now p : ℕ) (hint : Option ℕ) (body text : List ℕ) (s t : Session C) (sm : Manager C)
      → lookup p sm.heap ≡ some s
      → now ≤ s.last_used + sm.session_timeout
      → decrypt_existing_session C body tag hint now (without_tag tag s) ≡ (ok text, t)
      → decrypt_with C tag body now (p, hint) sm ≡ (some (ok text), after_opened tag p text s t sm)
  unfolding decrypt_with validate_and_consume_tag_from_session is_session_valid
  decrypt_with-ok tag now p hint body text s t sm stored live e =
      let valid : leb (now - s.last_used) sm.session_timeout ≡ true = ground (arith, live) in
      rw (stored, decrypt_with)
        (rw
          (
            valid,
            at_pointer-ok p (without_tag tag s) t text
                (decrypt_existing_session C body tag hint now) sm e,
          )
          refl)

  -- The manager without a tag.
  abbrev pub without_index : ℕ → Manager C → Manager C
  without_index tag sm = record sm {
    tag_index = erase tag sm.tag_index;
    tag_counter_index = erase tag sm.tag_counter_index;
  }

  pub garlic_opened :
      (tag now p c : ℕ) (body text : List ℕ) (s t : Session C) (sm : Manager C)
      → tag < 0x1_0000_0000_0000_0000
      → lookup tag sm.tag_index ≡ some p
      → lookup tag sm.tag_counter_index ≡ some c
      → lookup p sm.heap ≡ some s
      → now ≤ s.last_used + sm.session_timeout
      → decrypt_existing_session C body tag (some c) now (without_tag tag s) ≡ (ok text, t)
      → decrypt_garlic_message C (put_uint64 tag ++ body) now sm
        ≡ (some (ok text), after_opened tag p text s t (without_index tag sm))
  unfolding decrypt_garlic_message decrypt_tagged try_decrypt_existing lookup_session_by_tag
  garlic_opened tag now p c body text s t sm fits indexed counted stored live e =
      let opened =
        decrypt_with-ok tag now p (some c) body text s t (without_index tag sm) stored live e in
      rw (split_tag-put tag body fits, decrypt_tagged)
        (rw (indexed, lookup_session_by_tag) (rw (counted, opened) refl))

module _ (C : Crypto) (chain : ℕ → C.Sym) (key : ℕ → ℕ) (derives : IsChain C chain key) where
  -- A message of the window, whose tag is indexed with its counter and whose session has not expired,
  -- is opened by the manager: `DecryptGarlicMessage` returns its plaintext.
  pub garlic_delivers :
      (m : Sealed) (now p : ℕ) (spent : List ℕ) (s : Session C) (sm : Manager C)
      → m.tag < 0x1_0000_0000_0000_0000
      → lookup m.tag sm.tag_index ≡ some p
      → lookup m.tag sm.tag_counter_index ≡ some m.counter
      → lookup p sm.heap ≡ some s
      → now ≤ s.last_used + sm.session_timeout
      → IsSealed C chain key derives m
      → IsSynced C chain key spent s
      → is_in m.counter spent ≡ false
      → s.recv_window_base ≤ m.counter
      → m.counter < s.recv_window_base + 128
      → (decrypt_garlic_message C (put_uint64 m.tag ++ m.ciphertext ++ m.auth) now sm).0
        ≡ some (ok m.plaintext)
  garlic_delivers m now p spent s sm fits indexed counted stored live sealed v new above below =
      let s1 : Session C = without_tag C m.tag s in
      let v1 : IsSynced C chain key spent s1 = record {
        ratchet = v.ratchet;
        cache = v.cache;
        passed = v.passed;
        known = v.known;
        positive = v.positive;
        ordered = v.ordered;
        bounded = v.bounded;
      } in
      let (t, e, _, _) =
        decrypt_delivers C chain key derives m now spent s1 sealed v1 new above below in
      ap (λ (r : Option (Outcome SessionError (List ℕ)) × Manager C). r.0)
        (garlic_opened C m.tag now p m.counter (m.ciphertext ++ m.auth) m.plaintext s t sm fits
          indexed counted stored live e)
