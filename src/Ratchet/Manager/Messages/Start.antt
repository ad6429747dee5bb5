-- ===== src/Ratchet/Manager/Messages/Start.antt =====
-- A session that a New Session message starts opens the messages that follow it.
use noise_ssu.Base.{
  ℕ, ◌+◌, ◌≤◌, ◌<◌, ◌≡◌, refl, sym, ◌∙◌, ap, false, some, List, [], ◌++◌, arith, ok, eq→==,
}
use noise_ssu.Base.Dict.{lookup, insert, lookup-insert}
use noise_ssu.Wire.Packet.{put_uint64}
use noise_ssu.Ratchet.Session.{
  Crypto, Session, SessionKeys, create_session, derive_directional_keys, new_session, by_role,
}
use noise_ssu.Ratchet.Session.Receiving.Window.{IsChain, IsSynced, is_in}
use noise_ssu.Ratchet.Session.Receiving.Delivery.{Sealed, IsSealed}
use noise_ssu.Ratchet.Manager.{Manager, store}
use noise_ssu.Ratchet.Manager.Tags.{generate_tag_window}
use noise_ssu.Ratchet.Manager.Tags.Window.{
  IsTagChain, AreDistinct, AreFree, generate_tag_window_lem,
}
use noise_ssu.Ratchet.Manager.Eviction.{
  make_room, put_session, stored, initialize_inbound_ratchet_state,
}
use noise_ssu.Ratchet.Manager.Eviction.Settings.{settings-make_room}
use noise_ssu.Ratchet.Manager.Messages.{decrypt_garlic_message}
use noise_ssu.Ratchet.Manager.Messages.Delivery.{garlic_delivers}

module _ (C : Crypto) (chain : ℕ → C.Sym) (key : ℕ → ℕ) (tags : ℕ → C.Tags) (tag : ℕ → ℕ) where
  -- The session of a responder, from the keys of the handshake.
  abbrev pub started : List ℕ → SessionKeys → C.Handshake → ℕ → ℕ → ℕ × ℕ → ℕ × ℕ → Session C
  started peer keys hs private_key now (root_ab, root_ba) (tag_ab, tag_ba) =
      record (new_session C peer keys private_key now (root_ba, root_ab) (tag_ba, tag_ab)) {
        handshake_state = some hs;
        is_initiator = false;
      }

  pub started-IsSynced :
      (s : Session C)
      → s.recv_symmetric_ratchet ≡ some (chain 1)
      → s.recv_window_base ≡ 1
      → s.recv_fill_mark ≡ 1
      → s.recv_key_cache ≡ []
      → IsSynced C chain key [] s
  unfolding lookup is_in
  started-IsSynced s at base mark cache = record {
    ratchet = at ∙ ap (λ n. some (chain n)) (sym mark);
    cache = λ c. ap (lookup c) cache ∙ ground (arith, mark);
    passed = λ c low high. absurd (omega (arith, low, high, base));
    known = λ c h. cc;
    positive = omega (arith, base);
    ordered = omega (arith, base, mark);
    bounded = omega (arith, mark);
  }

  directional :
      (base : ℕ) (keys : ℕ × ℕ)
      → C.derive_step_keys base ≡ some keys
      → derive_directional_keys C base false ≡ ok (by_role C false keys)
  unfolding derive_directional_keys
  directional base keys e = rw (e, derive_directional_keys) refl

  created :
      (peer : List ℕ) (keys : SessionKeys) (private_key now : ℕ) (roots tag_keys : ℕ × ℕ)
      → C.derive_step_keys keys.root_key ≡ some roots
      → C.derive_step_keys keys.tag_key ≡ some tag_keys
      → create_session C peer keys private_key false now
        ≡ ok (
            new_session C peer keys private_key now
              (by_role C false roots)
              (by_role C false tag_keys))
  unfolding create_session
  created peer keys private_key now roots tag_keys r t =
      rw (directional keys.root_key roots r, directional keys.tag_key tag_keys t) refl

  -- The session's window is filled, and it is stored.
  stores :
      (fuel now hash : ℕ) (peer : List ℕ) (keys : SessionKeys) (hs : C.Handshake) (sm : Manager C)
      (roots tag_keys : ℕ × ℕ)
      → C.derive_step_keys keys.root_key ≡ some roots
      → C.derive_step_keys keys.tag_key ≡ some tag_keys
      → let s = started peer keys hs sm.our_private_key now roots tag_keys in
        let (p, sm') = put_session C hash s (make_room C peer sm) in
        initialize_inbound_ratchet_state C fuel now hash peer keys hs sm
        ≡ stored C p (generate_tag_window C fuel p s sm')
  unfolding initialize_inbound_ratchet_state
  stores fuel now hash peer keys hs sm roots tag_keys r t =
      rw
        (
          created peer keys sm.our_private_key now roots tag_keys r t,
          initialize_inbound_ratchet_state,
        )
        refl

  -- A manager that gets the keys of a New Session message stores a session for the peer and fills the
  -- window of its tags without an error. Then it opens a message of one of the first 24 counters,
  -- under the counter's tag, before the timeout, and returns its plaintext. The keys and the tags are
  -- those of the chains that start at the keys of the handshake, those 24 tags are distinct, and none is
  -- another session's.
  pub started_session_delivers :
      (now later hash : ℕ) (peer : List ℕ) (keys : SessionKeys) (hs : C.Handshake) (sm : Manager C)
      (root_ab root_ba tag_ab tag_ba : ℕ) (m : Sealed) (derives : IsChain C chain key)
      → C.derive_step_keys keys.root_key ≡ some (root_ab, root_ba)
      → C.derive_step_keys keys.tag_key ≡ some (tag_ab, tag_ba)
      → C.new_sym root_ab ≡ chain 1
      → C.new_tags tag_ab ≡ tags 1
      → IsTagChain C tags tag 1 25
      → AreDistinct C tags tag 1 25
      → AreFree C tags tag 1 25 (make_room C peer sm).next_pointer (make_room C peer sm)
      → IsSealed C chain key derives m
      → m.counter ≤ 24
      → m.tag ≡ tag m.counter
      → m.tag < 0x1_0000_0000_0000_0000
      → later ≤ now + sm.session_timeout
      → (sm' : Manager C) × (initialize_inbound_ratchet_state C 25 now hash peer keys hs sm
          ≡ some (ok tt, sm'))
        × ((decrypt_garlic_message C (put_uint64 m.tag ++ m.ciphertext ++ m.auth) later sm').0
            ≡ some (ok m.plaintext))
  unfolding put_session new_session store is_in
  started_session_delivers now later hash peer keys hs sm root_ab root_ba tag_ab tag_ba m derives r
        t first_key first_tag gives distinct free sealed low its_tag fits live =
      let s = started peer keys hs sm.our_private_key now (root_ab, root_ba) (tag_ab, tag_ba) in
      let p = (make_room C peer sm).next_pointer in
      let placed = (put_session C hash s (make_room C peer sm)).1 in
      let (s', sm', e, (_, _, leads, _, (ratchet, base, mark, cache, used), timeout)) =
        generate_tag_window_lem C tags tag 1 24 p 1 25 s placed gives distinct free (omega arith)
          (ap some first_tag, refl) (omega arith) (omega arith) (omega arith) in
      let v = started-IsSynced s' (ratchet ∙ ap some first_key) base mark cache in
      let (indexed, counted) = leads m.counter sealed.2 (omega (arith, low)) in
      let there : lookup p (insert p s' sm'.heap) ≡ some s' =
        lookup-insert p p s' sm'.heap ∙ rw (eq→== p p refl) refl in
      (
        store C p s' sm',
        stores 25 now hash peer keys hs sm (root_ab, root_ba) (tag_ab, tag_ba) r t
            ∙ ap (stored C p) e,
        garlic_delivers C chain key derives m later p [] s' (store C p s' sm') fits
            (ap (λ x. lookup x sm'.tag_index) its_tag ∙ indexed)
            (ap (λ x. lookup x sm'.tag_counter_index) its_tag ∙ counted) there
            (omega (arith, live, used, timeout, ap (λ x. x.0) (settings-make_room C peer sm)))
            sealed v refl (omega (arith, base, sealed.2)) (omega (arith, base, low)),
      )
