-- ===== src/Ratchet/Manager/Eviction.antt =====
-- ratchet/session_table.go, session_encrypt.go and session_lifecycle.go: a new session is stored, and
-- others make room for it.
pub mod Held
pub mod Bounds
pub mod Runs
pub mod Settings
pub mod Settled
use noise_ssu.Base.{
  ℕ, zero, suc, ◌+◌, ◌-◌, Bool, true, false, Option, none, some, List, [], ◌∷◌, ltb, leb, ◌==◌,
  ◌&&◌, ◌||◌, not, if◌then◌else◌, length, Outcome, ok, err,
}
use noise_ssu.Base.Dict.{Dict, lookup, insert}
use noise_ssu.Tokens.{same_bytes}
use noise_ssu.Ratchet.Session.{
  Crypto, Session, SessionError, SessionKeys, create_session, tag_failed,
}
use noise_ssu.Ratchet.Session.Sending.{is_some}
use noise_ssu.Ratchet.Manager.{Manager, store, evict, forget_session, is_session_valid}
use noise_ssu.Ratchet.Manager.Tags.{generate_tag_window, WindowResult}

abbrev pub max_garlic_sessions : ℕ
max_garlic_sessions = 5000

abbrev pub max_sessions_per_peer : ℕ
max_sessions_per_peer = 32

-- A hash with the time of its session, the best found so far.
abbrev pub Oldest : Type 0
Oldest = Option (ℕ × ℕ)

module _ (C : Crypto) where
  -- One round of `evictLRUSessionLocked`; the lesser hash wins a tie.
  unfoldable pub older_of : ℕ → Session C → Oldest → Oldest
  older_of hash s none = some (hash, s.last_used)
  older_of hash s (some (oldest_hash, oldest_time)) =
      if ltb s.last_used oldest_time || (s.last_used == oldest_time && ltb hash oldest_hash)
      then some (hash, s.last_used)
      else some (oldest_hash, oldest_time)

  abbrev pub visit : {A : Type 0} → Option (Session C) → (Session C → A → A) → A → A
  visit none f a = a
  visit (some s) f a = f s a

  unfoldable pub find_lru : Dict ℕ → Dict (Session C) → Oldest → Oldest
  find_lru [] heap oldest = oldest
  find_lru ((hash, p) ∷ d) heap oldest =
      find_lru d heap (visit (lookup p heap) (older_of hash) oldest)

  abbrev pub evict_found : Oldest → Manager C → Manager C
  evict_found none sm = sm
  evict_found (some (hash, t)) sm = evict C (lookup hash sm.sessions) hash sm

  unfoldable pub evict_lru_session_locked : Manager C → Manager C
  evict_lru_session_locked sm = evict_found (find_lru sm.sessions sm.heap none) sm

  -- The variables of the loop of `enforcePerPeerQuotaLocked`.
  pub record PeerScan : Type 0 where
    pub count : ℕ
    pub oldest : Oldest
    pub oldest_established : Oldest

  -- The first of the oldest: a tie leaves the one that was found.
  unfoldable pub first_oldest : ℕ → Session C → Oldest → Oldest
  first_oldest hash s none = some (hash, s.last_used)
  first_oldest hash s (some (h, t)) =
      if ltb s.last_used t then some (hash, s.last_used) else some (h, t)

  unfoldable pub scan_peer : List ℕ → ℕ → Session C → PeerScan → PeerScan
  scan_peer remote_pub_key hash s scan =
      if not (same_bytes s.remote_public_key remote_pub_key) then scan else record {
        count = scan.count + 1;
        oldest = first_oldest hash s scan.oldest;
        oldest_established =
            if not (is_some s.nsr_tag) && not (is_some s.handshake_state)
            then first_oldest hash s scan.oldest_established
            else scan.oldest_established;
      }

  unfoldable pub scan_peers : List ℕ → Dict ℕ → Dict (Session C) → PeerScan → PeerScan
  scan_peers remote_pub_key [] heap scan = scan
  scan_peers remote_pub_key ((hash, p) ∷ d) heap scan =
      scan_peers remote_pub_key d heap (visit (lookup p heap) (scan_peer remote_pub_key hash) scan)

  abbrev pub hash_to_evict : PeerScan → Oldest
  hash_to_evict scan =
      if is_some scan.oldest_established then scan.oldest_established else scan.oldest

  unfoldable pub enforce_per_peer_quota_locked : List ℕ → Manager C → Manager C
  enforce_per_peer_quota_locked remote_pub_key sm =
      let scan =
        scan_peers remote_pub_key sm.sessions sm.heap
          record { count = 0; oldest = none; oldest_established = none } in
      if ltb scan.count max_sessions_per_peer
      then sm
      else if not (is_some scan.oldest)
      then sm
      else evict_found (hash_to_evict scan) sm

  -- Room is made for one session more.
  unfoldable pub make_room : List ℕ → Manager C → Manager C
  make_room remote_pub_key sm =
      let roomy =
        if leb max_garlic_sessions (length sm.sessions) then evict_lru_session_locked sm else sm in
      enforce_per_peer_quota_locked remote_pub_key roomy

  -- The session gets a pointer and the entry of its hash.
  unfoldable pub put_session : ℕ → Session C → Manager C → ℕ × Manager C
  put_session hash s sm =
      let p = sm.next_pointer in
      (p, record (store C p s sm) { sessions = insert hash p sm.sessions; next_pointer = p + 1 })

  abbrev pub stored : ℕ → WindowResult C → Option (Outcome SessionError (Unit {0}) × Manager C)
  stored p none = none
  stored p (some (r, s, sm)) = some (r, store C p s sm)

  -- `initializeInboundRatchetState`, from the handshake's keys and the hash of the peer's key.
  unfoldable pub initialize_inbound_ratchet_state :
      ℕ
      → ℕ
      → ℕ
      → List ℕ
      → SessionKeys
      → C.Handshake
      → Manager C
      → Option (Outcome SessionError (Unit {0}) × Manager C)
  initialize_inbound_ratchet_state fuel now session_hash remote_pub_key keys hs sm =
      elim (create_session C remote_pub_key keys sm.our_private_key false now) [
        | err e ↦ some (err e, sm)
        | ok created ↦
            let s = record created { handshake_state = some hs; is_initiator = false } in
            let (p, sm') = put_session session_hash s (make_room remote_pub_key sm) in
            stored p (generate_tag_window C fuel p s sm')
      ]

  -- The tag of the reply that an initiator waits for; `tag` is the first that the ratchet of the
  -- handshake gives.
  unfoldable pub register_nsr_tag_locked :
      ℕ → Option ℕ → Session C → Manager C → Outcome SessionError (Unit {0}) × Session C × Manager C
  register_nsr_tag_locked p none s sm = (err tag_failed, s, sm)
  register_nsr_tag_locked p (some tag) s sm = (
    ok tt,
    record s { nsr_tag = some tag },
    record sm { nsr_tag_index = insert tag p sm.nsr_tag_index },
  )

  abbrev pub after_register :
      ℕ
      → ℕ
      → Outcome SessionError (Unit {0}) × Session C × Manager C
      → Option (Outcome SessionError (Unit {0}) × Manager C)
  after_register fuel hash (err e, s, sm) = some (err e, sm)
  after_register fuel hash (ok u, s, sm) =
      let (p, sm') = put_session hash s sm in stored p (generate_tag_window C fuel p s sm')

  -- `storeNewSessionState` of an initiator, from the handshake's keys. The tag of the reply is indexed
  -- under the pointer that the session gets.
  unfoldable pub store_new_session_state :
      ℕ
      → ℕ
      → ℕ
      → List ℕ
      → SessionKeys
      → C.Handshake
      → Option ℕ
      → Manager C
      → Option (Outcome SessionError (Unit {0}) × Manager C)
  store_new_session_state fuel now destination_hash destination_pub_key keys hs tag sm =
      elim (create_session C destination_pub_key keys sm.our_private_key true now) [
        | err e ↦ some (err e, sm)
        | ok created ↦
            let s = record created { handshake_state = some hs; is_initiator = true } in
            let roomy = make_room destination_pub_key sm in
            after_register fuel destination_hash
              (register_nsr_tag_locked roomy.next_pointer tag s roomy)
      ]

  -- One round of `CleanupExpiredSessions`: how many sessions it removes.
  unfoldable pub cleanup_entry : ℕ → ℕ → Option (Session C) → Manager C → ℕ × Manager C
  cleanup_entry now hash none sm = (0, sm)
  cleanup_entry now hash (some s) sm =
      if is_session_valid C now sm.session_timeout s
      then (0, sm)
      else (1, forget_session C hash s sm)

  unfoldable pub cleanup_entries : ℕ → Dict ℕ → Manager C → ℕ × Manager C
  cleanup_entries now [] sm = (0, sm)
  cleanup_entries now ((hash, p) ∷ d) sm =
      let (n, sm') = cleanup_entry now hash (lookup p sm.heap) sm in
      let (m, sm'') = cleanup_entries now d sm' in (n + m, sm'')

  unfoldable pub cleanup_expired_sessions : ℕ → Manager C → ℕ × Manager C
  cleanup_expired_sessions now sm = cleanup_entries now sm.sessions sm
