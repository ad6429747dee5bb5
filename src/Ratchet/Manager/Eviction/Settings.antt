-- ===== src/Ratchet/Manager/Eviction/Settings.antt =====
-- What is no session stays as it is where sessions are evicted.
use noise_ssu.Base.{
  ℕ, ◌≡◌, refl, ◌∙◌, not, Option, none, some, List, [], ◌∷◌, ltb, leb, length, inl, inr, Bool-cases,
  Option-cases,
}
use noise_ssu.Base.Dict.{lookup, erase}
use noise_ssu.Replay.{TtlCache}
use noise_ssu.Ratchet.Session.{Crypto}
use noise_ssu.Ratchet.Session.Sending.{is_some}
use noise_ssu.Ratchet.Manager.{Manager, remove_tags, forget_nsr_tag, forget_session, evict}
use noise_ssu.Ratchet.Manager.Eviction.{
  Oldest, evict_found, find_lru, evict_lru_session_locked, scan_peers,
  enforce_per_peer_quota_locked, hash_to_evict, make_room,
}

module _ (C : Crypto) where
  -- The fields of a manager that are not about its sessions.
  abbrev pub settings : Manager C → ℕ × ℕ × ℕ × ℕ × TtlCache
  settings sm = (
    sm.session_timeout, sm.our_private_key, sm.ns_max_past_age, sm.ns_max_future_age,
    sm.ns_replay_cache,
  )

  settings-remove_tags :
      (ts : List ℕ) (sm : Manager C) → settings (remove_tags C ts sm) ≡ settings sm
  unfolding remove_tags
  settings-remove_tags [] sm = refl
  settings-remove_tags (t ∷ ts) sm = settings-remove_tags ts (record sm {
    tag_index = erase t sm.tag_index;
    tag_counter_index = erase t sm.tag_counter_index;
  })

  settings-forget_nsr :
      (o : Option ℕ) (sm : Manager C) → settings (forget_nsr_tag C o sm) ≡ settings sm
  unfolding forget_nsr_tag
  settings-forget_nsr none sm = refl
  settings-forget_nsr (some t) sm = refl

  settings-evict :
      (o : Option ℕ) (hash : ℕ) (sm : Manager C) → settings (evict C o hash sm) ≡ settings sm
  unfolding evict forget_session
  settings-evict none hash sm = refl
  settings-evict (some p) hash sm = elim (Option-cases (lookup p sm.heap)) [
    | inl e ↦ rw (e, evict) refl
    | inr (s, e) ↦
        rw (e, evict)
          (settings-forget_nsr s.nsr_tag (remove_tags C s.pending_tags sm)
            ∙ settings-remove_tags s.pending_tags sm)
  ]

  settings-evict_found : (o : Oldest) (sm : Manager C) → settings (evict_found C o sm) ≡ settings sm
  settings-evict_found none sm = refl
  settings-evict_found (some (hash, t)) sm = settings-evict (lookup hash sm.sessions) hash sm

  settings-quota :
      (peer : List ℕ) (sm : Manager C)
      → settings (enforce_per_peer_quota_locked C peer sm) ≡ settings sm
  unfolding enforce_per_peer_quota_locked
  settings-quota peer sm =
      let scan =
        scan_peers C peer sm.sessions sm.heap
          record { count = 0; oldest = none; oldest_established = none } in
      elim (Bool-cases (ltb scan.count 32)) [
        | inl few ↦ rw few refl
        | inr many ↦ elim (Bool-cases (not (is_some scan.oldest))) [
          | inl nobody ↦ rw (many, nobody) refl
          | inr someone ↦ rw (many, someone) (settings-evict_found (hash_to_evict C scan) sm)
        ]
      ]

  pub settings-make_room :
      (peer : List ℕ) (sm : Manager C) → settings (make_room C peer sm) ≡ settings sm
  unfolding make_room evict_lru_session_locked
  settings-make_room peer sm = elim (Bool-cases (leb 5000 (length sm.sessions))) [
    | inl full ↦
        let oldest = find_lru C sm.sessions sm.heap none in
        rw full (settings-quota peer (evict_found C oldest sm) ∙ settings-evict_found oldest sm)
    | inr roomy ↦ rw roomy (settings-quota peer sm)
  ]
