-- ===== src/Ratchet/Manager/NewSessions/Replays.antt =====
-- A New Session message is accepted once: its age or its ephemeral key tells when it comes again.
use noise_ssu.Base.{
  ℕ, suc, ◌+◌, ◌≤◌, ◌<◌, ◌≡◌, refl, sym, subst, ◌∙◌, ap, Bool, true, false, Option, none, some,
  List, [], ◌∷◌, ltb, leb, arith, length, take, Outcome, ok, err, inl, inr, Bool-cases,
  Outcome-cases,
}
use noise_ssu.Replay.{TtlCache, check_and_add}
use noise_ssu.Replay.Bounded.{IsValid, Call, check, cleanup, clear, run}
use noise_ssu.Replay.Detection.{Before, replay_refused}
use noise_ssu.Ratchet.Session.{Crypto, SessionError, replayed}
use noise_ssu.Ratchet.Manager.{Manager}
use noise_ssu.Ratchet.Manager.Eviction.Settings.{settings}
use noise_ssu.Ratchet.Manager.NewSessions.{
  NewSession, validate_ns_date_time_freshness, check_ephemeral, spelled_by, ns_replay_cache_ttl,
  with_hash, unless_seen, accept_new_session, decrypt_new_session,
}
use noise_ssu.Ratchet.Manager.Eviction.Settled.{IsSettled, inbound-IsSettled}
use noise_ssu.Ratchet.Manager.NewSessions.Ages.{validate_old}

Before-weaken : (a b : ℕ) (es : List Call) → a ≤ b → Before a es → Before b es
Before-weaken a b [] le h = tt
Before-weaken a b (check key now ∷ es) le (h, t) = (omega (arith, h), Before-weaken a b es le t)
Before-weaken a b (cleanup now ∷ es) le (h, t) = (omega (arith, h), Before-weaken a b es le t)
Before-weaken a b (clear ∷ es) le h = absurd h

module _ (C : Crypto) (read_message : ℕ → List ℕ → Option (NewSession C))
    (sha256 : List ℕ → ℕ) where
  -- The ephemeral key is looked up and added where the message has room for one.
  check_ephemeral_lem :
      (now : ℕ) (msg : List ℕ) (sm : Manager C)
      → 32 ≤ length msg
      → let (seen, cache) = check_and_add (spelled_by 0 (take 32 msg)) now sm.ns_replay_cache in
        check_ephemeral C read_message sha256 now msg sm
        ≡ (seen, record sm { ns_replay_cache = cache })
  unfolding check_ephemeral
  check_ephemeral_lem now msg sm h =
      let long : leb 32 (length msg) ≡ true = ground (arith, h) in rw long refl

  abbrev pub Accepted : Type 0
  Accepted = List ℕ × Option ℕ

  settled-with_hash :
      (ns : NewSession C) (o : Option (Outcome SessionError (Unit {0}) × Manager C))
      (sm sm1 : Manager C) (r : Accepted)
      → IsSettled C sm o
      → with_hash C read_message sha256 ns o ≡ some (ok r, sm1)
      → settings C sm1 ≡ settings C sm
  settled-with_hash ns none sm sm1 r t h = cc
  settled-with_hash ns (some (err e, s)) sm sm1 r t h = cc
  settled-with_hash ns (some (ok u, s)) sm sm1 r t h =
      let same : s ≡ sm1 = cc in ap (settings C) (sym same) ∙ t

  unless_seen_lem :
      (fuel now : ℕ) (ns : NewSession C) (x : Bool × Manager C) (sm1 : Manager C) (r : Accepted)
      → unless_seen C read_message sha256 fuel now ns x ≡ some (ok r, sm1)
      → (x.0 ≡ false) × (settings C sm1 ≡ settings C x.1)
  unless_seen_lem fuel now ns (true, sm) sm1 r h = cc
  unless_seen_lem fuel now ns (false, sm) sm1 r h = (
    refl,
    settled-with_hash ns _ sm sm1 r
        (inbound-IsSettled C fuel now (sha256 ns.static_pub) ns.static_pub ns.keys ns.handshake sm)
        h,
  )

  -- What an accepted message shows.
  accepted_lem :
      (fuel now : ℕ) (msg : List ℕ) (ns : NewSession C) (sm sm1 : Manager C) (r : Accepted)
      → 32 ≤ length msg
      → accept_new_session C read_message sha256 fuel now msg ns sm ≡ some (ok r, sm1)
      → let (seen, cache) = check_and_add (spelled_by 0 (take 32 msg)) now sm.ns_replay_cache in
        (validate_ns_date_time_freshness C read_message sha256 now ns.plaintext sm ≡ ok tt)
        × (seen ≡ false)
        × (settings C sm1 ≡ settings C (record sm { ns_replay_cache = cache }))
  unfolding accept_new_session
  accepted_lem fuel now msg ns sm sm1 r long h =
      elim (Outcome-cases
        (validate_ns_date_time_freshness C read_message sha256 now ns.plaintext sm)) [
          | inl (u, e) ↦
              let opened = rw (e, accept_new_session) at h in
              let checked = rw (check_ephemeral_lem now msg sm long) at opened in
              let (new, same) = unless_seen_lem fuel now ns _ sm1 r checked in (e, new, same)
          | inr (x, e) ↦ let bad = rw (e, accept_new_session) at h in cc
        ]

  bound_lem :
      (fuel now : ℕ) (msg : List ℕ) (ns : NewSession C) (sm : Manager C)
      → read_message sm.our_private_key msg ≡ some ns
      → ns.is_unbound ≡ false
      → decrypt_new_session C read_message sha256 fuel now msg sm
        ≡ accept_new_session C read_message sha256 fuel now msg ns sm
  unfolding decrypt_new_session
  bound_lem fuel now msg ns sm reads bound = rw (reads, decrypt_new_session) (rw bound refl)

  abbrev pub IsRefused : ℕ → ℕ → List ℕ → Manager C → Type 0
  IsRefused fuel now msg sm =
      (e : SessionError) × (sm' : Manager C) × (decrypt_new_session C read_message sha256 fuel now
          msg sm
        ≡ some (err e, sm'))
      × (sm'.sessions ≡ sm.sessions)
      × (sm'.heap ≡ sm.heap)
      × (sm'.tag_index ≡ sm.tag_index)

  IsRefused-old :
      (fuel now : ℕ) (msg : List ℕ) (ns : NewSession C) (sm : Manager C) (e : SessionError)
      → read_message sm.our_private_key msg ≡ some ns
      → ns.is_unbound ≡ false
      → validate_ns_date_time_freshness C read_message sha256 now ns.plaintext sm ≡ err e
      → IsRefused fuel now msg sm
  unfolding accept_new_session
  IsRefused-old fuel now msg ns sm e reads bound stale = (
    e,
    sm,
    bound_lem fuel now msg ns sm reads bound ∙ rw (stale, accept_new_session) refl,
    refl,
    refl,
    refl,
  )

  IsRefused-seen :
      (fuel now : ℕ) (msg : List ℕ) (ns : NewSession C) (sm : Manager C)
      → read_message sm.our_private_key msg ≡ some ns
      → ns.is_unbound ≡ false
      → 32 ≤ length msg
      → (check_and_add (spelled_by 0 (take 32 msg)) now sm.ns_replay_cache).0 ≡ true
      → IsRefused fuel now msg sm
  unfolding accept_new_session
  IsRefused-seen fuel now msg ns sm reads bound long seen =
      elim (Outcome-cases
        (validate_ns_date_time_freshness C read_message sha256 now ns.plaintext sm)) [
          | inl (u, e) ↦
              let cache = (check_and_add (spelled_by 0 (take 32 msg)) now sm.ns_replay_cache).1 in
              (
                replayed,
                record sm { ns_replay_cache = cache },
                bound_lem fuel now msg ns sm reads bound
                    ∙ rw (e, accept_new_session)
                        (rw (check_ephemeral_lem now msg sm long) (rw seen refl)),
                refl,
                refl,
                refl,
              )
          | inr (x, e) ↦ IsRefused-old fuel now msg ns sm x reads bound e
        ]

  -- A bound New Session message that a manager accepted is refused when it comes again, and the
  -- manager's sessions and tags stay as they are: by its ephemeral key while that is in the replay
  -- cache, and by its age from then on. The manager has the settings that the first message left, but
  -- for checks and cleanups of its cache, none after the second message and none that runs out of
  -- room; the TTL of the cache is the one that `nsReplayCacheTTL` gives for two ages, none of them
  -- negative, whose sum with a minute more is below 2^63 ns.
  pub new_session_once :
      (fuel fuel2 first later : ℕ) (msg : List ℕ) (ns : NewSession C) (r : Accepted)
      (es : List Call) (sm sm1 sm2 : Manager C)
      → read_message sm.our_private_key msg ≡ some ns
      → ns.is_unbound ≡ false
      → 32 ≤ length msg
      → IsValid sm.ns_replay_cache
      → sm.ns_max_past_age + sm.ns_max_future_age + 60_000_000_000 < 0x8000_0000_0000_0000
      → sm.ns_replay_cache.ttl ≡ ns_replay_cache_ttl sm.ns_max_past_age sm.ns_max_future_age
      → decrypt_new_session C read_message sha256 fuel first msg sm ≡ some (ok r, sm1)
      → settings C sm2 ≡ settings C (record sm1 { ns_replay_cache = run es sm1.ns_replay_cache })
      → Before (suc later) es
      → length sm1.ns_replay_cache.entries + length es ≤ sm.ns_replay_cache.max_size
      → IsRefused fuel2 later msg sm2
  unfolding ns_replay_cache_ttl
  new_session_once fuel fuel2 first later msg ns r es sm sm1 sm2 reads bound long valid ages ttl
        accepts later_settings before room =
      let key = spelled_by 0 (take 32 msg) in
      let accepting = sym (bound_lem fuel first msg ns sm reads bound) ∙ accepts in
      let (in_time, new, same) = accepted_lem fuel first msg ns sm sm1 r long accepting in
      let settled = later_settings in
      let reads2 : read_message sm2.our_private_key msg ≡ some ns =
        ap (λ k. read_message k msg) (ap (λ x. x.1) settled ∙ ap (λ x. x.1) same) ∙ reads in
      let cached : sm1.ns_replay_cache ≡ (check_and_add key first sm.ns_replay_cache).1 =
        ap (λ x. x.4) same in
      let ran : sm2.ns_replay_cache ≡ run es (check_and_add key first sm.ns_replay_cache).1 =
        ap (λ x. x.4) settled ∙ ap (run es) cached in
      elim (Bool-cases (ltb later (first + sm.ns_replay_cache.ttl))) [
        | inl soon ↦
            let early : later < first + sm.ns_replay_cache.ttl = ground (arith, soon) in
            IsRefused-seen fuel2 later msg ns sm2 reads2 bound long (
              ap (λ c. (check_and_add key later c).0) ran
              ∙ replay_refused key first later es valid new
                  (Before-weaken (suc later) (first + sm.ns_replay_cache.ttl) es
                    (omega (arith, early)) before)
                  (subst
                    (λ (c : TtlCache). length c.entries + length es ≤ sm.ns_replay_cache.max_size)
                    cached room)
                  early)
        | inr late ↦
            let (e, stale) =
              validate_old C read_message sha256 first later ns.plaintext sm sm2 in_time
                (ap (λ x. x.2) settled ∙ ap (λ x. x.2) same) (ground (arith, late, ttl)) in
            IsRefused-old fuel2 later msg ns sm2 e reads2 bound stale
      ]
