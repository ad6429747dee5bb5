-- ===== src/Ratchet/Manager/Tests.antt =====
-- The theorems on the manager at concrete inputs, over the cipher of the session's tests.
use noise_ssu.Base.{
  subst, sym, length, ap, ℕ, ◌≡◌, refl, true, false, Option, some, List, [], ◌∷◌, ◌++◌, arith, ok,
  err,
}
use noise_ssu.Base.Dict.{lookup, insert}
use noise_ssu.Wire.Packet.{put_uint64}
use noise_ssu.Replay.{check_and_add, is_fresh}
use noise_ssu.Replay.Bounded
use noise_ssu.Ratchet.Manager.Eviction.Settings.{settings}
use noise_ssu.Ratchet.Manager.Eviction.Settled.{IsSettled, inbound-IsSettled}
use noise_ssu.Ratchet.Manager.NewSessions.{
  NewSession, decrypt_new_session, accept_new_session, validate_ns_date_time_freshness,
  check_date_time, check_age, check_ephemeral, ns_replay_cache_ttl, spelled_by, with_hash,
}
use noise_ssu.Ratchet.Manager.NewSessions.Replays.{IsRefused, new_session_once}
use noise_ssu.Ratchet.Payload.{NextKeyInfo, zeros, date_time_of}
use noise_ssu.Ratchet.Payload.Fields.{length-zeros}
use noise_ssu.Ratchet.Builder.{parse_payload, parse_from}
use noise_ssu.Ratchet.Session.{Session, SessionKeys, no_session}
use noise_ssu.Ratchet.Session.Receiving.Window.{is_in}
use noise_ssu.Ratchet.Session.Receiving.Delivery.{decrypt_delivers}
use noise_ssu.Ratchet.Manager.{
  process_incoming_dh_ratchet, Manager, process_received_next_key, is_session_valid, close,
  forget_session, remove_tags, forget_nsr_tag, remove_tag_from_pending_list, fill_hole,
}
use noise_ssu.Ratchet.Manager.Tags.{generate_tag_window}
use noise_ssu.Ratchet.Manager.Tags.Window.{IsWindow, AreDistinct, AreFree, generate_tag_window_lem}
use noise_ssu.Ratchet.Manager.Eviction.{
  initialize_inbound_ratchet_state, make_room, enforce_per_peer_quota_locked, scan_peers,
  cleanup_expired_sessions, cleanup_entries, cleanup_entry,
}
use noise_ssu.Ratchet.Manager.Eviction.Bounds.{IsBounded}
use noise_ssu.Ratchet.Manager.Eviction.Runs.{cleanup, closing, run-IsBounded}
use noise_ssu.Ratchet.Manager.Messages.{decrypt_garlic_message}
use noise_ssu.Ratchet.Manager.Messages.Delivery.{without_tag}
use noise_ssu.Ratchet.Manager.Messages.UsedTags.{next_key_unreachable}
use noise_ssu.Ratchet.Manager.Messages.Start.{started-IsSynced, started_session_delivers}
use noise_ssu.Ratchet.Session.Tests.{stamp, toy, chain, key, derives, fresh, message}

abbrev empty : Manager toy
empty = record {
  heap = [];
  next_pointer = 5;
  sessions = [];
  tag_index = [];
  nsr_tag_index = [];
  tag_counter_index = [];
  one_time_keys = [];
  our_private_key = 8;
  session_timeout = 600;
  ns_max_past_age = 300_000_000_000;
  ns_max_future_age = 120_000_000_000;
  ns_replay_cache = record { entries = []; ttl = 480_000_000_000; max_size = 50_000 };
}

tags-AreDistinct : AreDistinct toy chain chain 1 25
tags-AreDistinct i j low high low' high' other same = other same

empty-AreFree : AreFree toy chain chain 1 25 5 empty
unfolding lookup
empty-AreFree n low high = refl

generate_tag_window_lem_example :
    (s' : Session toy) × (sm' : Manager toy) × (generate_tag_window toy 25 5 fresh empty
      ≡ some (ok tt, s', sm'))
    × IsWindow toy chain chain 1 5 1 24 fresh s' empty sm'
generate_tag_window_lem_example =
    generate_tag_window_lem toy chain chain 1 24 5 1 25 fresh empty (λ n low high. refl)
      tags-AreDistinct empty-AreFree (omega arith) (refl, refl) refl (omega arith) (omega arith)

abbrev keys : SessionKeys
keys = record { root_key = 11; sym_key = 12; tag_key = 13 }

-- A session with many tags, and the manager that has it.
abbrev tagged : Session toy
tagged = record fresh {
  pending_tags = 1 ∷ 2 ∷ 3 ∷ 4 ∷ 5 ∷ 6 ∷ 7 ∷ 8 ∷ 9 ∷ 10 ∷ 11 ∷ 12 ∷ 13 ∷ 14 ∷ [];
}

abbrev one_session : Manager toy
one_session = record empty {
  heap = (4, tagged) ∷ [];
  sessions = (77, 4) ∷ [];
  tag_index = (1, 4) ∷ [];
  tag_counter_index = (1, 1) ∷ [];
}

-- An expired session is removed with its tags, then the manager is closed.
run-IsBounded_example : IsBounded toy 5000 (record one_session {
  heap = (4, tagged) ∷ [];
  sessions = [];
  tag_index = [];
  tag_counter_index = [];
  our_private_key = 0;
})
unfolding cleanup_expired_sessions cleanup_entries cleanup_entry is_session_valid close
    forget_session remove_tags forget_nsr_tag lookup
run-IsBounded_example =
    run-IsBounded toy (cleanup 900 ∷ closing ∷ []) one_session (omega arith, ((tagged, refl), tt))
      refl

abbrev next_key_info : NextKeyInfo
next_key_info = record {
  key_present = true;
  reverse = false;
  request_reverse = true;
  key_id = 0;
  public_key = 9 ∷ [];
}

next_key_unreachable_example :
    let (r, sm') = decrypt_garlic_message toy (put_uint64 1 ++ 7 ∷ stamp 1001) 200 one_session in
    (r ≡ some (ok (7 ∷ [])))
    × ((process_received_next_key toy 1 next_key_info sm').0 ≡ err no_session)
    × ((process_incoming_dh_ratchet toy 1 (9 ∷ []) sm').0 ≡ err no_session)
unfolding lookup is_in remove_tag_from_pending_list fill_hole
next_key_unreachable_example =
    let less : Session toy = without_tag toy 1 tagged in
    let synced = started-IsSynced toy chain key chain chain less refl refl refl refl in
    let (t, e, _, _) =
      decrypt_delivers toy chain key derives (message 1) 200 [] less
        (refl, refl, omega arith, omega arith) synced refl (omega arith) (omega arith) in
    next_key_unreachable toy 1 200 4 1 (7 ∷ stamp 1001) (7 ∷ []) tagged t one_session next_key_info
      (omega arith) refl refl refl (omega arith) e (omega arith)

started_session_delivers_example :
    (sm' : Manager toy) × (initialize_inbound_ratchet_state toy 25 200 77 (3 ∷ []) keys 9 empty
      ≡ some (ok tt, sm'))
    × ((decrypt_garlic_message toy (put_uint64 20 ++ 7 ∷ stamp 1020) 300 sm').0
        ≡ some (ok (7 ∷ [])))
unfolding make_room enforce_per_peer_quota_locked scan_peers lookup
started_session_delivers_example =
    started_session_delivers toy chain key chain chain 200 300 77 (3 ∷ []) keys 9 empty 1 1 1 1
      (message 20) derives refl refl refl refl (λ n low high. refl) tags-AreDistinct
      (λ n low high. refl) (refl, refl, omega arith, omega arith) (omega arith) refl (omega arith)
      (omega arith)

-- A New Session message of the second 200 that reaches the manager at that second, and again later.
abbrev greeting : NewSession toy
greeting = record {
  plaintext = 0 ∷ 0 ∷ 4 ∷ 0 ∷ 0 ∷ 0 ∷ 200 ∷ [];
  static_pub = 3 ∷ [];
  keys = keys;
  handshake = 9;
  is_unbound = false;
}

abbrev read_greeting : ℕ → List ℕ → Option (NewSession toy)
read_greeting k msg = some greeting

abbrev hash_of : List ℕ → ℕ
hash_of bytes = 77

abbrev seen_once : Manager toy
seen_once = record empty {
  ns_replay_cache = record empty.ns_replay_cache { entries = (0, 200_000_000_000) ∷ [] };
}

new_session_once_example :
    IsRefused toy read_greeting hash_of 25 400_000_000_000 (zeros 32) seen_once
unfolding zeros decrypt_new_session accept_new_session validate_ns_date_time_freshness
    check_date_time check_age check_ephemeral ns_replay_cache_ttl spelled_by check_and_add is_fresh
    parse_payload parse_from date_time_of make_room enforce_per_peer_quota_locked scan_peers lookup
    insert noise_ssu.Replay.Bounded.run
new_session_once_example =
    let first : ℕ = 200_000_000_000 in
    let (sm1, e, _) =
      started_session_delivers toy chain key chain chain first first 77 (3 ∷ []) keys 9 seen_once 1
        1 1 1 (message 20) derives refl refl refl refl (λ n low high. refl) tags-AreDistinct
        (λ n low high. refl) (refl, refl, omega arith, omega arith) (omega arith) refl (omega arith)
        (omega arith) in
    let same : settings toy sm1 ≡ settings toy seen_once =
      subst (IsSettled toy seen_once) e
        (inbound-IsSettled toy 25 first 77 (3 ∷ []) keys 9 seen_once) in
    new_session_once toy read_greeting hash_of 25 25 first 400_000_000_000 (zeros 32) greeting
      (greeting.plaintext, some 77) [] empty sm1 seen_once refl refl
      (omega (arith, length-zeros 32))
      (record { keyed = tt; room = omega arith; bounded = omega arith }) (omega arith) refl
      (ap (with_hash toy read_greeting hash_of greeting) e) (sym same) tt
      (omega (arith, ap (λ x. length x.4.entries) same))
