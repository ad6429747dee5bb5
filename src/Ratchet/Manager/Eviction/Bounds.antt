-- ===== src/Ratchet/Manager/Eviction/Bounds.antt =====
-- The number of sessions is bounded: one is evicted before another is stored.
use noise_ssu.Base.{
  ℕ, zero, suc, ◌≤◌, ◌<◌, ◌≡◌, refl, sym, subst, ◌∙◌, ap, true, false, not, Option, none, some,
  List, ltb, leb, ◌==◌, arith, length, Outcome, ok, err, inl, inr, Bool-cases, Option-cases,
  Outcome-cases, eq→==,
}
use noise_ssu.Base.Dict.{
  lookup, insert, length-erase-lt, length-erase-le, lookup-insert, length-insert-le,
}
use noise_ssu.Ratchet.Session.{Crypto, Session, SessionError, SessionKeys, create_session}
use noise_ssu.Ratchet.Session.Sending.{is_some}
use noise_ssu.Ratchet.Manager.{Manager, store, forget_session, evict}
use noise_ssu.Ratchet.Manager.Tags.{
  generate_tag_window, fill_window, is_without_ratchet, install_tag, collides, after_tag, take_tag,
  WindowResult,
}
use noise_ssu.Ratchet.Manager.Eviction.{
  Oldest, find_lru, evict_found, evict_lru_session_locked, scan_peers,
  enforce_per_peer_quota_locked, hash_to_evict, make_room, put_session, stored,
  initialize_inbound_ratchet_state, store_new_session_state, register_nsr_tag_locked,
  after_register,
}
use noise_ssu.Ratchet.Manager.Eviction.Held.{
  IsKey-lookup, AreHeld, held_at, IsFrom, find_lru-none, sessions-forget, AreHeld-erase,
  AreHeld-store, AreHeld-insert,
}
use noise_ssu.Ratchet.Manager.Eviction.Settings.{settings}

module _ (C : Crypto) where
  -- The sessions are those on the heap, and no more than a number.
  abbrev pub IsBounded : ℕ → Manager C → Type 0
  IsBounded n sm = (length sm.sessions ≤ n) × AreHeld C sm.sessions sm.heap

  pub forget-IsBounded :
      (hash n : ℕ) (s : Session C) (sm : Manager C)
      → IsBounded n sm
      → IsBounded n (forget_session C hash s sm)
  forget-IsBounded hash n s sm v =
      let (d, h) = sessions-forget C hash s sm in
      (
        omega (arith, ap length d, length-erase-le hash sm.sessions, v.0),
        subst (λ x. AreHeld C (forget_session C hash s sm).sessions x) (sym h)
            (subst (λ x. AreHeld C x sm.heap) (sym d)
              (AreHeld-erase C hash sm.sessions sm.heap v.1)),
      )

  evict-IsBounded :
      (o : Option ℕ) (hash n : ℕ) (sm : Manager C)
      → IsBounded n sm
      → IsBounded n (evict C o hash sm)
  unfolding evict
  evict-IsBounded none hash n sm v = v
  evict-IsBounded (some p) hash n sm v = elim (Option-cases (lookup p sm.heap)) [
    | inl e ↦ rw (e, evict) v
    | inr (s, e) ↦ rw (e, evict) (forget-IsBounded hash n s sm v)
  ]

  evict_found-IsBounded :
      (o : Oldest) (n : ℕ) (sm : Manager C) → IsBounded n sm → IsBounded n (evict_found C o sm)
  evict_found-IsBounded none n sm v = v
  evict_found-IsBounded (some (hash, t)) n sm v =
      evict-IsBounded (lookup hash sm.sessions) hash n sm v

  -- The eviction of an entry makes room.
  evict_found-frees :
      (o : Oldest) (sm : Manager C)
      → AreHeld C sm.sessions sm.heap
      → IsFrom C sm.sessions o
      → length (evict_found C o sm).sessions < length sm.sessions
  unfolding evict
  evict_found-frees none sm held from = absurd from
  evict_found-frees (some (hash, t)) sm held from =
      let (p, entry) = IsKey-lookup hash sm.sessions from in
      let (s, there) = held_at C hash p sm.sessions sm.heap held entry in
      let (d, _) = sessions-forget C hash s sm in
      rw entry
        (rw (there, evict) (omega (arith, ap length d, length-erase-lt hash sm.sessions from)))

  quota-IsBounded :
      (peer : List ℕ) (n : ℕ) (sm : Manager C)
      → IsBounded n sm
      → IsBounded n (enforce_per_peer_quota_locked C peer sm)
  unfolding enforce_per_peer_quota_locked
  quota-IsBounded peer n sm v =
      let scan =
        scan_peers C peer sm.sessions sm.heap
          record { count = 0; oldest = none; oldest_established = none } in
      elim (Bool-cases (ltb scan.count 32)) [
        | inl few ↦ rw few v
        | inr many ↦ elim (Bool-cases (not (is_some scan.oldest))) [
          | inl nobody ↦ rw (many, nobody) v
          | inr someone ↦ rw (many, someone) (evict_found-IsBounded (hash_to_evict C scan) n sm v)
        ]
      ]

  make_room-IsBounded :
      (peer : List ℕ) (sm : Manager C) → IsBounded 5000 sm → IsBounded 4999 (make_room C peer sm)
  unfolding make_room evict_lru_session_locked
  make_room-IsBounded peer sm v = elim (Bool-cases (leb 5000 (length sm.sessions))) [
    | inl full ↦
        let oldest = find_lru C sm.sessions sm.heap none in
        let some_one : 1 ≤ length sm.sessions = ground (arith, full) in
        let freed =
          evict_found-frees oldest sm v.1 (find_lru-none C sm.sessions sm.heap v.1 some_one) in
        rw full (
          quota-IsBounded peer 4999 (evict_found C oldest sm)
            (omega (arith, freed, v.0), (evict_found-IsBounded oldest 5000 sm v).1))
    | inr room ↦ rw room (quota-IsBounded peer 4999 sm (ground (arith, room), v.1))
  ]

  put_session-IsBounded :
      (hash : ℕ) (s : Session C) (sm : Manager C)
      → IsBounded 4999 sm
      → IsBounded 5000 (put_session C hash s sm).1
  unfolding put_session store
  put_session-IsBounded hash s sm v =
      let p = sm.next_pointer in
      let self : (p == p) ≡ true = eq→== p p refl in
      let there : lookup p (insert p s sm.heap) ≡ some s =
        lookup-insert p p s sm.heap ∙ rw self refl in
      (
        omega (arith, length-insert-le hash p sm.sessions, v.0),
        AreHeld-insert C hash p sm.sessions (insert p s sm.heap) (s, there)
            (AreHeld-store C p s sm.sessions sm.heap v.1),
      )

  -- What the filling of the tag window leaves alone.
  abbrev pub IsSame : Manager C → WindowResult C → Type 0
  IsSame sm none = Unit {0}
  IsSame sm (some (r, s, sm')) =
      (sm'.sessions ≡ sm.sessions) × (sm'.heap ≡ sm.heap) × (settings C sm' ≡ settings C sm)

  same-install :
      (p : ℕ) (drawn : ℕ × ℕ) (s : Session C) (sm : Manager C)
      → ((install_tag C p drawn (s, sm)).1.sessions ≡ sm.sessions)
        × ((install_tag C p drawn (s, sm)).1.heap ≡ sm.heap)
        × (settings C (install_tag C p drawn (s, sm)).1 ≡ settings C sm)
  unfolding install_tag
  same-install p (tag, counter) s sm = elim (Bool-cases (collides C p (lookup tag sm.tag_index))) [
    | inl taken ↦ rw taken (refl, refl, refl)
    | inr free ↦ rw free (refl, refl, refl)
  ]

  IsSame-trans :
      (sm sm1 : Manager C) (o : WindowResult C)
      → sm1.sessions ≡ sm.sessions
      → sm1.heap ≡ sm.heap
      → settings C sm1 ≡ settings C sm
      → IsSame sm1 o
      → IsSame sm o
  IsSame-trans sm sm1 none d h t k = tt
  IsSame-trans sm sm1 (some (r, s, sm')) d h t (d', h', t') = (d' ∙ d, h' ∙ h, t' ∙ t)

  IsSame-after :
      (p : ℕ) (sm : Manager C) (x : Outcome SessionError (ℕ × ℕ) × Session C)
      (next : Session C → Manager C → WindowResult C)
      → ((s' : Session C) (sm' : Manager C) → IsSame sm' (next s' sm'))
      → IsSame sm (after_tag C p sm x next)
  IsSame-after p sm (err e, s) next all = (refl, refl, refl)
  IsSame-after p sm (ok drawn, s) next all =
      let (s', sm') = install_tag C p drawn (s, sm) in
      let (d, h, t) = same-install p drawn s sm in
      IsSame-trans sm sm' (next s' sm') d h t (all s' sm')

  IsSame-fill :
      (fuel p : ℕ) (s : Session C) (sm : Manager C) → IsSame sm (fill_window C fuel p s sm)
  unfolding fill_window
  IsSame-fill zero p s sm = tt
  IsSame-fill (suc fuel) p s sm = elim (Bool-cases (ltb (length s.pending_tags) 24)) [
    | inl more ↦
        rw (more, fill_window)
          (IsSame-after p sm (take_tag C s) (fill_window C fuel p) (IsSame-fill fuel p))
    | inr full ↦ rw (full, fill_window) (refl, refl, refl)
  ]

  pub IsSame-window :
      (fuel p : ℕ) (s : Session C) (sm : Manager C) → IsSame sm (generate_tag_window C fuel p s sm)
  unfolding generate_tag_window
  IsSame-window fuel p s sm = elim (Bool-cases (is_without_ratchet C s.recv_tag_ratchet)) [
    | inl without ↦ rw without (refl, refl, refl)
    | inr there ↦ rw there (IsSame-fill fuel p s sm)
  ]

  -- What is stored where the loop ended.
  abbrev pub IsBoundedResult : Option (Outcome SessionError (Unit {0}) × Manager C) → Type 0
  IsBoundedResult none = Unit {0}
  IsBoundedResult (some (r, sm)) = IsBounded 5000 sm

  stored-IsBounded :
      (p : ℕ) (sm : Manager C) (o : WindowResult C)
      → IsBounded 5000 sm
      → IsSame sm o
      → IsBoundedResult (stored C p o)
  unfolding store
  stored-IsBounded p sm none v same = tt
  stored-IsBounded p sm (some (r, s, sm')) v (d, h, _) = (
    omega (arith, ap length d, v.0),
    AreHeld-store C p s sm'.sessions sm'.heap (
        subst (λ x. AreHeld C sm'.sessions x) (sym h)
          (subst (λ x. AreHeld C x sm.heap) (sym d) v.1)),
  )

  window-IsBounded :
      (fuel hash : ℕ) (s : Session C) (sm : Manager C)
      → IsBounded 4999 sm
      → let (p, sm') = put_session C hash s sm in
        IsBoundedResult (stored C p (generate_tag_window C fuel p s sm'))
  window-IsBounded fuel hash s sm v =
      let (p, sm') = put_session C hash s sm in
      stored-IsBounded p sm' (generate_tag_window C fuel p s sm')
        (put_session-IsBounded hash s sm v) (IsSame-window fuel p s sm')

  -- What a New Session message of a peer stores: the bound holds after it.
  pub inbound-IsBounded :
      (fuel now hash : ℕ) (peer : List ℕ) (keys : SessionKeys) (hs : C.Handshake) (sm : Manager C)
      → IsBounded 5000 sm
      → IsBoundedResult (initialize_inbound_ratchet_state C fuel now hash peer keys hs sm)
  unfolding initialize_inbound_ratchet_state
  inbound-IsBounded fuel now hash peer keys hs sm v =
      elim (Outcome-cases (create_session C peer keys sm.our_private_key false now)) [
        | inl (s, e) ↦
            rw (e, initialize_inbound_ratchet_state)
              (window-IsBounded fuel hash _ (make_room C peer sm) (make_room-IsBounded peer sm v))
        | inr (x, e) ↦ rw (e, initialize_inbound_ratchet_state) v
      ]

  -- The bound of 5000 sessions holds after a session is stored for a peer, on errors too.
  pub outbound-IsBounded :
      (fuel now hash : ℕ) (peer : List ℕ) (keys : SessionKeys) (hs : C.Handshake) (tag : Option ℕ)
      (sm : Manager C)
      → IsBounded 5000 sm
      → IsBoundedResult (store_new_session_state C fuel now hash peer keys hs tag sm)
  unfolding store_new_session_state register_nsr_tag_locked
  outbound-IsBounded fuel now hash peer keys hs tag sm v =
      elim (Outcome-cases (create_session C peer keys sm.our_private_key true now)) [
        | inl (s, e) ↦
            rw (e, store_new_session_state) (registered tag _ (make_room-IsBounded peer sm v))
        | inr (x, e) ↦ rw (e, store_new_session_state) v
      ]
    where
      registered :
          (o : Option ℕ) (s : Session C)
          → IsBounded 4999 (make_room C peer sm)
          → IsBoundedResult (
              after_register C fuel hash (
                register_nsr_tag_locked C
                  (make_room C peer sm).next_pointer
                  o
                  s
                  (make_room C peer sm)))
      registered none s w = (omega (arith, w.0), w.1)
      registered (some t) s w =
          window-IsBounded fuel hash (record s { nsr_tag = some t })
            (record (make_room C peer sm) {
              nsr_tag_index =
                  insert t (make_room C peer sm).next_pointer (make_room C peer sm).nsr_tag_index;
            })
            w
