-- ===== src/Ratchet/Session/Link.antt =====
-- Two sessions whose chains agree: what one encrypts the other decrypts.
use noise_ssu.Base.{
  ℕ, suc, ◌+◌, ◌≤◌, ◌<◌, ◌≡◌, ◌∙◌, ap, false, some, List, ◌∷◌, ◌++◌, arith, length, ok, All,
}
use noise_ssu.Ratchet.Builder.RoundTrip.{encodings}
use noise_ssu.Ratchet.Session.{Crypto, Session}
use noise_ssu.Ratchet.Session.Sending.{encrypt_existing_session, build_existing_session_message}
use noise_ssu.Ratchet.Session.Sending.Messages.{MaySend, IsSmall, after_message, encrypt_lem}
use noise_ssu.Ratchet.Session.Receiving.{decrypt_existing_session}
use noise_ssu.Ratchet.Session.Receiving.Window.{IsChain, IsSynced, is_in}
use noise_ssu.Ratchet.Session.Receiving.Delivery.{Sealed, decrypt_delivers}

-- What an AEAD promises: it seals every text, under a tag of 16 bytes, and opens what it sealed.
abbrev pub IsAead : Crypto → Type 0
IsAead C =
    (k n tag : ℕ) (text : List ℕ)
    → (ciphertext : List ℕ) × (auth : List ℕ) × (C.seal k n tag text ≡ some (ciphertext, auth))
      × (C.unseal k n tag ciphertext auth ≡ some text)
      × (length auth ≡ 16)

module _ (C : Crypto) (chain : ℕ → C.Sym) (key : ℕ → ℕ) (derives : IsChain C chain key) where
  -- Over an AEAD that opens what it seals: a session that may send, with no rotation due and control
  -- blocks that fit their length fields, whose ratchet stands in a chain at its message counter,
  -- encrypts every plaintext and moves one step along the chain. A session that receives on that
  -- chain, where the counter lies in its window and is not spent, opens the message: it gets the
  -- pending control blocks and the plaintext, and afterwards it has spent that counter too.
  pub decrypt-encrypt :
      (plaintext spent : List ℕ) (now then_now tag : ℕ) (tags : C.Tags) (a b : Session C)
      → IsAead C
      → MaySend C a
      → All IsSmall (a.pending_next_keys ++ a.pending_acks)
      → a.dh_ratchet_counter < 49
      → 1 ≤ a.message_counter
      → a.symmetric_ratchet ≡ chain a.message_counter
      → C.next_tag a.tag_ratchet ≡ some (tag, tags)
      → IsSynced C chain key spent b
      → is_in a.message_counter spent ≡ false
      → b.recv_window_base ≤ a.message_counter
      → a.message_counter < b.recv_window_base + 128
      → (ciphertext : List ℕ) × (auth : List ℕ) × (b' : Session C) × (encrypt_existing_session C
            plaintext now a
          ≡ (
            ok (build_existing_session_message tag ciphertext auth),
            after_message C a (chain (suc a.message_counter)) tags now,
          ))
        × (decrypt_existing_session C (ciphertext ++ auth) tag (some a.message_counter) then_now b
            ≡ (ok (encodings (a.pending_next_keys ++ a.pending_acks) ++ plaintext), b'))
        × IsSynced C chain key (a.message_counter ∷ spent) b'
  decrypt-encrypt plaintext spent now then_now tag tags a b aead may small early pos at next v new
        above below =
      let n = a.message_counter in
      let text = encodings (a.pending_next_keys ++ a.pending_acks) ++ plaintext in
      let (ciphertext, auth, seals, opens, sixteen) = aead (key n) n tag text in
      let keys : C.derive_message_key a.symmetric_ratchet n ≡ some (key n, chain (suc n)) =
        ap (λ r. C.derive_message_key r n) at ∙ derives n in
      let m : Sealed = record {
        counter = n;
        tag = tag;
        ciphertext = ciphertext;
        auth = auth;
        plaintext = text;
      } in
      let (b', e, w, _) =
        decrypt_delivers C chain key derives m then_now spent b
          (opens, sixteen, pos, omega (arith, may.2)) v new above below in
      (
        ciphertext,
        auth,
        b',
        encrypt_lem C a may plaintext now (key n) tag (chain (suc n)) tags ciphertext auth small
            early keys next seals,
        e,
        w,
      )
