-- ===== src/Ratchet/Manager.antt =====
-- ratchet/session_manager.go, session_table.go and session_lifecycle.go: the sessions of a manager and
-- the indexes by which a message finds its session. A session is shared by pointer: `heap` holds the
-- sessions, and the maps hold numbers that stand for pointers. Hashes and tags are the numbers that
-- their bytes spell, so their order is that of `bytesLess`. A lock makes each method one step; the
-- time that a method reads is an argument.
pub mod Tags
pub mod Eviction
pub mod Messages
pub mod NewSessions
mod Tests
use noise_ssu.Base.{
  ℕ, ◌+◌, ◌-◌, Bool, true, false, Option, none, some, List, [], ◌∷◌, ltb, leb, ◌==◌, if◌then◌else◌,
  length, Outcome, ok, err,
}
use noise_ssu.Base.Dict.{Dict, lookup, insert, erase}
use noise_ssu.Ratchet.Session.{Crypto, Session, SessionError, tag_window_size, no_session}
use noise_ssu.Ratchet.Session.NextKeys.{process_next_key, update_dh, apply_incoming_dh_key}
use noise_ssu.Ratchet.Payload.{NextKeyInfo}
use noise_ssu.Replay.{TtlCache, reset}

pub record Manager (C : Crypto) : Type 0 where
  pub heap : Dict (Session C)
  pub next_pointer : ℕ
  pub sessions : Dict ℕ
  pub tag_index : Dict ℕ
  pub nsr_tag_index : Dict ℕ
  pub tag_counter_index : Dict ℕ
  pub one_time_keys : Dict ℕ
  pub our_private_key : ℕ
  pub session_timeout : ℕ
  pub ns_max_past_age : ℕ
  pub ns_max_future_age : ℕ
  pub ns_replay_cache : TtlCache

abbrev pub tag_replenish_threshold : ℕ
tag_replenish_threshold = 12

unfoldable pub find_hash : ℕ → Dict ℕ → Option ℕ
find_hash p [] = none
find_hash p ((hash, q) ∷ d) = let later = find_hash p d in if q == p then some hash else later

-- The last item stands first, and the list is one shorter.
abbrev pub last_item : ℕ → List ℕ → ℕ
last_item x [] = x
last_item x (y ∷ ys) = last_item y ys

abbrev pub all_but_last : ℕ → List ℕ → List ℕ
all_but_last x [] = []
all_but_last x (y ∷ ys) = x ∷ all_but_last y ys

unfoldable pub fill_hole : List ℕ → List ℕ
fill_hole [] = []
fill_hole (x ∷ xs) = last_item x xs ∷ all_but_last x xs

unfoldable pub remove_tag_from_pending_list : ℕ → List ℕ → List ℕ
remove_tag_from_pending_list tag [] = []
remove_tag_from_pending_list tag (t ∷ ts) =
    let later = remove_tag_from_pending_list tag ts in if t == tag then fill_hole ts else t ∷ later

module _ (C : Crypto) where
  -- The fields of a session at its pointer are written.
  unfoldable pub store : ℕ → Session C → Manager C → Manager C
  store p s sm = record sm { heap = insert p s sm.heap }

  -- The loop that deletes the tags of a session.
  unfoldable pub remove_tags : List ℕ → Manager C → Manager C
  remove_tags [] sm = sm
  remove_tags (tag ∷ tags) sm = remove_tags tags record sm {
    tag_index = erase tag sm.tag_index;
    tag_counter_index = erase tag sm.tag_counter_index;
  }

  unfoldable pub forget_nsr_tag : Option ℕ → Manager C → Manager C
  forget_nsr_tag none sm = sm
  forget_nsr_tag (some tag) sm = record sm { nsr_tag_index = erase tag sm.nsr_tag_index }

  -- What every removal does: the tags, the tag of the reply, and the entry.
  unfoldable pub forget_session : ℕ → Session C → Manager C → Manager C
  forget_session hash s sm =
      let cleared = forget_nsr_tag s.nsr_tag (remove_tags s.pending_tags sm) in
      record cleared { sessions = erase hash cleared.sessions }

  -- `if evicted, ok := sm.sessions[hash]; ok`.
  unfoldable pub evict : Option ℕ → ℕ → Manager C → Manager C
  evict none hash sm = sm
  evict (some p) hash sm = elim (lookup p sm.heap) [ none ↦ sm | some s ↦ forget_session hash s sm ]

  unfoldable pub remove_session_by_pointer : ℕ → Manager C → Manager C
  remove_session_by_pointer p sm = elim (find_hash p sm.sessions) [
    | none ↦ sm
    | some hash ↦ evict (some p) hash sm
  ]

  -- The session and the counter of a tag, which is taken out of both indexes.
  unfoldable pub lookup_session_by_tag : ℕ → Manager C → Option (ℕ × Option ℕ) × Manager C
  lookup_session_by_tag tag sm = elim (lookup tag sm.tag_index) [
    | none ↦ (none, sm)
    | some p ↦ (
      some (p, lookup tag sm.tag_counter_index),
      record sm {
        tag_index = erase tag sm.tag_index;
        tag_counter_index = erase tag sm.tag_counter_index;
      },
    )
  ]

  unfoldable pub is_session_valid : ℕ → ℕ → Session C → Bool
  is_session_valid now timeout s = leb (now - s.last_used) timeout

  -- Whether the session is valid and whether its tags run low.
  unfoldable pub validate_and_consume_tag_from_session :
      ℕ → ℕ → Session C → ℕ → (Bool × Bool) × Session C
  validate_and_consume_tag_from_session now timeout s tag =
      let s' = record s { pending_tags = remove_tag_from_pending_list tag s.pending_tags } in
      if is_session_valid now timeout s
      then ((true, ltb (length s'.pending_tags) tag_replenish_threshold), s')
      else ((false, false), s)

  unfoldable pub register_one_time_key : ℕ → ℕ → Manager C → Manager C
  register_one_time_key tag key sm = record sm { one_time_keys = insert tag key sm.one_time_keys }

  -- A method of the session at a pointer.
  abbrev pub at_pointer :
      {A : Type 0}
      → ℕ
      → (Session C → Outcome SessionError A × Session C)
      → Manager C
      → Outcome SessionError A × Manager C
  at_pointer p method sm = elim (lookup p sm.heap) [
    | none ↦ (err no_session, sm)
    | some s ↦ let (r, s') = method s in (r, store p s' sm)
  ]

  -- `lookupLockedSession`, and then a method of the session.
  unfoldable pub with_locked_session :
      {A : Type 0}
      → ℕ
      → (Session C → Outcome SessionError A × Session C)
      → Manager C
      → Outcome SessionError A × Manager C
  with_locked_session session_tag method sm = elim (lookup session_tag sm.tag_index) [
    | none ↦ (err no_session, sm)
    | some p ↦ at_pointer p method sm
  ]

  unfoldable pub process_received_next_key :
      ℕ → NextKeyInfo → Manager C → Outcome SessionError (Unit {0}) × Manager C
  process_received_next_key session_tag info =
      with_locked_session session_tag (process_next_key C info)

  unfoldable pub process_incoming_dh_ratchet :
      ℕ → List ℕ → Manager C → Outcome SessionError (Unit {0}) × Manager C
  process_incoming_dh_ratchet session_tag new_remote_pub_key =
      with_locked_session session_tag (apply_incoming_dh_key C new_remote_pub_key)

  -- `Close`: the maps and the cache are emptied and the private key is zeroed.
  unfoldable pub close : Manager C → Manager C
  close sm = record sm {
    sessions = [];
    tag_index = [];
    tag_counter_index = [];
    nsr_tag_index = [];
    our_private_key = 0;
    ns_replay_cache = reset sm.ns_replay_cache;
  }

  unfoldable pub get_session_count : Manager C → ℕ
  get_session_count sm = length sm.sessions
