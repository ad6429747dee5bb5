-- ===== src/Ratchet/Manager/NewSessions.antt =====
-- ratchet/session_freshness.go, and `decryptNewSession` of session_decrypt.go: a message that starts a
-- session. What `readNoiseIKMessage1` reads and the hash of a key are parameters.
pub mod Ages
pub mod Replays
use noise_ssu.Base.{
  ℕ, ◌+◌, ◌*◌, Bool, true, false, not, Option, none, some, List, [], ◌∷◌, ltb, leb, ◌==◌,
  if◌then◌else◌, length, take, Outcome, ok, err,
}
use noise_ssu.Base.I64.{add64, is_negative}
use noise_ssu.Replay.{TtlCache, check_and_add}
use noise_ssu.Ratchet.Payload.{PayloadBlock, date_time, date_time_of}
use noise_ssu.Ratchet.Builder.{parse_payload}
use noise_ssu.Ratchet.Session.{
  Crypto, SessionError, SessionKeys, payload_rejected, handshake_failed, too_old, in_the_future,
  replayed,
}
use noise_ssu.Ratchet.Manager.{Manager}
use noise_ssu.Ratchet.Manager.Eviction.{initialize_inbound_ratchet_state}

-- The number that bytes spell, the first one the highest.
unfoldable pub spelled_by : ℕ → List ℕ → ℕ
spelled_by n [] = n
spelled_by n (b ∷ bs) = spelled_by (n * 256 + b) bs

-- `nsReplayCacheTTL`, in ns: a minute more than the window of acceptance. The sum is an int64: 0 stands
-- for one that wraps below 0, and a cache with a TTL of 0 or below finds nothing fresh.
unfoldable pub ns_replay_cache_ttl : ℕ → ℕ → ℕ
ns_replay_cache_ttl past_age future_age =
    let ttl = add64 (add64 past_age future_age) 60_000_000_000 in if is_negative ttl then 0 else ttl

-- What a New Session message holds.
pub record NewSession (C : Crypto) : Type 0 where
  pub plaintext : List ℕ
  pub static_pub : List ℕ
  pub keys : SessionKeys
  pub handshake : C.Handshake
  pub is_unbound : Bool

module _ (C : Crypto) (read_message : ℕ → List ℕ → Option (NewSession C))
    (sha256 : List ℕ → ℕ) where
  -- The two comparisons of `elapsed`, with the seconds of the block in ns.
  unfoldable pub check_age : ℕ → ℕ → Manager C → Outcome SessionError (Unit {0})
  check_age now seconds sm =
      let sent = seconds * 1_000_000_000 in
      if ltb (sent + sm.ns_max_past_age) now
      then err too_old
      else if ltb (now + sm.ns_max_future_age) sent
      then err in_the_future
      else ok tt

  unfoldable pub check_date_time :
      ℕ → List PayloadBlock → Manager C → Outcome SessionError (Unit {0})
  check_date_time now [] sm = err payload_rejected
  check_date_time now (b ∷ bs) sm = elim (date_time_of b) [
    | err e ↦ err payload_rejected
    | ok seconds ↦
        let checked = check_age now seconds sm in
        if not (b.block_type == date_time) then err payload_rejected else checked
  ]

  unfoldable pub validate_ns_date_time_freshness :
      ℕ → List ℕ → Manager C → Outcome SessionError (Unit {0})
  validate_ns_date_time_freshness now payload sm = elim (parse_payload payload) [
    | none ↦ err payload_rejected
    | some (err e) ↦ err payload_rejected
    | some (ok blocks) ↦ check_date_time now blocks sm
  ]

  -- Whether the ephemeral key of the message was seen.
  unfoldable pub check_ephemeral : ℕ → List ℕ → Manager C → Bool × Manager C
  check_ephemeral now msg sm =
      let (seen, cache) = check_and_add (spelled_by 0 (take 32 msg)) now sm.ns_replay_cache in
      if leb 32 (length msg) then (seen, record sm { ns_replay_cache = cache }) else (false, sm)

  abbrev pub Received : Type 0
  Received = Option (Outcome SessionError (List ℕ × Option ℕ) × Manager C)

  abbrev pub with_hash :
      NewSession C → Option (Outcome SessionError (Unit {0}) × Manager C) → Received
  with_hash ns none = none
  with_hash ns (some (err e, sm)) = some (err e, sm)
  with_hash ns (some (ok u, sm)) = some (ok (ns.plaintext, some (sha256 ns.static_pub)), sm)

  abbrev pub unless_seen : ℕ → ℕ → NewSession C → Bool × Manager C → Received
  unless_seen fuel now ns (true, sm) = some (err replayed, sm)
  unless_seen fuel now ns (false, sm) = with_hash ns (
      initialize_inbound_ratchet_state C fuel now (sha256 ns.static_pub) ns.static_pub ns.keys
        ns.handshake sm)

  unfoldable pub accept_new_session : ℕ → ℕ → List ℕ → NewSession C → Manager C → Received
  accept_new_session fuel now msg ns sm =
      elim (validate_ns_date_time_freshness now ns.plaintext sm) [
        | err e ↦ some (err e, sm)
        | ok u ↦ unless_seen fuel now ns (check_ephemeral now msg sm)
      ]

  -- The plaintext, and the hash of the session where the message is bound to its sender. `none` as
  -- for the tag window.
  unfoldable pub decrypt_new_session : ℕ → ℕ → List ℕ → Manager C → Received
  decrypt_new_session fuel now msg sm = elim (read_message sm.our_private_key msg) [
    | none ↦ some (err handshake_failed, sm)
    | some ns ↦
        let accepted = accept_new_session fuel now msg ns sm in
        if ns.is_unbound then some (ok (ns.plaintext, none), sm) else accepted
  ]
