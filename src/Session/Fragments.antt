-- ===== src/Session/Fragments.antt =====
-- ssu2/session/fragment_assembler.go: I2NP messages put together again from their fragments, on the state
-- of `DataHandler` in ssu2/session/data_handler.go. The mutex makes each method one step.
-- Times are in ns, and the time that a method reads is an argument. The counters of the statistics stay
-- below 2^64.
pub mod Parts
pub mod Sound
pub mod Delivery
pub mod Complete
pub mod Building
mod Tests
use noise_ssu.Base.{
  ℕ, zero, suc, ◌+◌, ◌-◌, ◌/◌, ◌%◌, Bool, true, false, not, ◌&&◌, Option, none, some, List, [], ◌∷◌,
  ◌++◌, ltb, leb, ◌==◌, if◌then◌else◌, length, Outcome, ok, err,
}
use noise_ssu.Base.Bytes.{byte3, byte2, hi16, lo16, uint32}
use noise_ssu.Base.U32.{add32, sub32, u32_mod}
use noise_ssu.Base.Dict.{Dict, lookup, insert, erase, retain, contains}

pub record FragmentSet : Type 0 where
  pub message_id : ℕ
  pub i2np_type : ℕ
  pub short_expiration : ℕ
  pub fragments : Dict (List ℕ)
  pub received_size : ℕ
  pub has_last : Bool
  pub has_first : Bool
  pub last_frag_num : ℕ
  pub created_at : ℕ
  pub last_update : ℕ

-- The channel of messages with its capacity, the sets, the timeout, and the counters that these methods
-- change.
pub record DataHandler : Type 0 where
  pub message_queue : List (List ℕ)
  pub queue_size : ℕ
  pub sets : Dict FragmentSet
  pub fragment_timeout : ℕ
  pub fragments_received : ℕ
  pub messages_reassembled : ℕ
  pub messages_dropped : ℕ

-- A `queue_size` of 0 stands for every non-positive one.
unfoldable pub new_data_handler : ℕ → DataHandler
new_data_handler queue_size = record {
  message_queue = [];
  queue_size = if queue_size == 0 then 100 else queue_size;
  sets = [];
  fragment_timeout = 10_000_000_000;
  fragments_received = 0;
  messages_reassembled = 0;
  messages_dropped = 0;
}

abbrev pub max_fragments_per_conn : ℕ
max_fragments_per_conn = 512

pub data FragmentError : Type 0 where
  first_fragment_too_short follow_on_too_short set_not_found queue_full : FragmentError

abbrev pub Reply : Type 0
Reply = Outcome FragmentError (Unit {0}) × DataHandler

-- Updated longer ago than the timeout.
abbrev pub is_stale : ℕ → ℕ → FragmentSet → Bool
is_stale now timeout fs = ltb (fs.last_update + timeout) now

-- The loop of the two cleanups: the sets that are kept, and how many are removed.
abbrev pub remove_stale : ℕ → ℕ → DataHandler → ℕ × DataHandler
remove_stale now timeout h =
    let kept = retain (λ id fs. not (is_stale now timeout fs)) h.sets in
    let removed = length h.sets - length kept in
    (removed, record h { sets = kept; messages_dropped = h.messages_dropped + removed })

unfoldable pub cleanup_stale_fragments : ℕ → DataHandler → DataHandler
cleanup_stale_fragments now h = (remove_stale now h.fragment_timeout h).1

unfoldable pub cleanup_expired_fragments : ℕ → ℕ → DataHandler → ℕ × DataHandler
cleanup_expired_fragments now timeout h = remove_stale now timeout h

-- The loop of `evictOldestFragment`: the key and the time of the oldest set so far, if any.
pub oldest : Dict FragmentSet → Option (ℕ × ℕ) → Option (ℕ × ℕ)
oldest [] seen = seen
oldest ((id, fs) ∷ rest) none = oldest rest (some (id, fs.created_at))
oldest ((id, fs) ∷ rest) (some (k, t)) =
    let as_new = oldest rest (some (id, fs.created_at)) in
    let as_before = oldest rest (some (k, t)) in if ltb fs.created_at t then as_new else as_before

abbrev pub evict : Option (ℕ × ℕ) → DataHandler → DataHandler
evict none h = h
evict (some (id, t)) h = record h {
  sets = erase id h.sets;
  messages_dropped = h.messages_dropped + 1;
}

unfoldable pub evict_oldest_fragment : DataHandler → DataHandler
evict_oldest_fragment h = evict (oldest h.sets none) h

-- Before a new set: the capacity limit.
abbrev pub make_room : DataHandler → DataHandler
make_room h = if leb max_fragments_per_conn (length h.sets) then evict_oldest_fragment h else h

-- Fragments `i` and on, that many, one after the other; `none` when one is missing.
unfoldable pub gather : ℕ → ℕ → Dict (List ℕ) → Option (List ℕ)
gather zero i fragments = some []
gather (suc count) i fragments = elim (lookup i fragments) [
  | none ↦ none
  | some fragment ↦ elim (gather count (i + 1) fragments) [
    | none ↦ none
    | some rest ↦ some (fragment ++ rest)
  ]
]

abbrev pub i2np_header : ℕ → ℕ → ℕ → List ℕ
i2np_header kind id expiration =
    kind
    ∷ byte3 id
    ∷ byte2 id
    ∷ hi16 id
    ∷ lo16 id
    ∷ byte3 expiration
    ∷ byte2 expiration
    ∷ hi16 expiration
    ∷ lo16 expiration
    ∷ []

-- The end of `reassembleMessage`: the select on the queue.
abbrev pub enqueue : ℕ → List ℕ → DataHandler → Reply
enqueue id message h =
    if ltb (length h.message_queue) h.queue_size
    then (
      ok tt,
      record h {
        message_queue = h.message_queue ++ message ∷ [];
        messages_reassembled = h.messages_reassembled + 1;
        sets = erase id h.sets;
      },
    )
    else (
      err queue_full,
      record h { messages_dropped = h.messages_dropped + 1; sets = erase id h.sets },
    )

abbrev pub deliver : ℕ → FragmentSet → Option (List ℕ) → DataHandler → Reply
deliver id fs none h = (ok tt, h)
deliver id fs (some body) h =
    enqueue id (i2np_header fs.i2np_type fs.message_id fs.short_expiration ++ body) h

abbrev pub reassemble_set : ℕ → Option FragmentSet → DataHandler → Reply
reassemble_set id none h = (err set_not_found, h)
reassemble_set id (some fs) h =
    if fs.has_first && fs.has_last
    then deliver id fs (gather (suc fs.last_frag_num) 0 fs.fragments) h
    else (ok tt, h)

unfoldable pub reassemble_message : ℕ → DataHandler → Reply
reassemble_message id h = reassemble_set id (lookup id h.sets) h

-- `h.fragments[id] = fs`, and the fragment is counted.
abbrev pub put_set : ℕ → FragmentSet → DataHandler → DataHandler
put_set id fs h = record h {
  sets = insert id fs h.sets;
  fragments_received = h.fragments_received + 1;
}

-- Bytes of an early fragment 0 were counted already.
abbrev pub without_old : Option (List ℕ) → ℕ → ℕ
without_old none size = size
without_old (some old) size = sub32 size (length old % u32_mod)

-- The first fragment, for a set that follow-on fragments have begun.
abbrev pub with_first : ℕ → ℕ → ℕ → List ℕ → FragmentSet → FragmentSet
with_first now kind expiration bytes fs = record fs {
  i2np_type = kind;
  short_expiration = expiration;
  has_first = true;
  received_size =
      add32 (without_old (lookup 0 fs.fragments) fs.received_size) (length bytes % u32_mod);
  fragments = insert 0 bytes fs.fragments;
  last_update = now;
}

abbrev pub new_set : ℕ → ℕ → ℕ → ℕ → List ℕ → FragmentSet
new_set now kind id expiration bytes = record {
  message_id = id;
  i2np_type = kind;
  short_expiration = expiration;
  fragments = (0, bytes) ∷ [];
  received_size = length bytes % u32_mod;
  has_last = false;
  has_first = true;
  last_frag_num = 0;
  created_at = now;
  last_update = now;
}

-- `handleFirstFragment`, after the header is read.
abbrev pub first_on : ℕ → ℕ → ℕ → ℕ → List ℕ → Option FragmentSet → DataHandler → Reply
first_on now kind id expiration bytes none h =
    (ok tt, put_set id (new_set now kind id expiration bytes) (make_room h))
first_on now kind id expiration bytes (some fs) h =
    if fs.has_first
    then (ok tt, h)
    else (let fs' = with_first now kind expiration bytes fs in
        if fs'.has_last
        then reassemble_message id (put_set id fs' h)
        else (ok tt, put_set id fs' h))

unfoldable pub handle_first_fragment : ℕ → List ℕ → DataHandler → Reply
handle_first_fragment now (kind ∷ a ∷ b ∷ c ∷ d ∷ e ∷ f ∷ g ∷ i ∷ bytes) h =
    let id = uint32 a b c d in first_on now kind id (uint32 e f g i) bytes (lookup id h.sets) h
handle_first_fragment now _ h =
    (err first_fragment_too_short, record h { messages_dropped = h.messages_dropped + 1 })

abbrev pub early_set : ℕ → ℕ → FragmentSet
early_set now id = record {
  message_id = id;
  i2np_type = 0;
  short_expiration = 0;
  fragments = [];
  received_size = 0;
  has_last = false;
  has_first = false;
  last_frag_num = 0;
  created_at = now;
  last_update = now;
}

abbrev pub with_follow_on : ℕ → ℕ → Bool → List ℕ → FragmentSet → FragmentSet
with_follow_on now number is_last bytes fs = record fs {
  fragments = insert number bytes fs.fragments;
  received_size = add32 fs.received_size (length bytes % u32_mod);
  last_update = now;
  has_last = if is_last then true else fs.has_last;
  last_frag_num = if is_last then number else fs.last_frag_num;
}

-- `handleFollowOnFragment`, once the set is found or made.
abbrev pub follow_on_in : ℕ → ℕ → Bool → ℕ → List ℕ → FragmentSet → DataHandler → Reply
follow_on_in now number is_last id bytes fs h =
    if contains number fs.fragments
    then (ok tt, h)
    else (let fs' = with_follow_on now number is_last bytes fs in
        if fs'.has_first && fs'.has_last
        then reassemble_message id (put_set id fs' h)
        else (ok tt, put_set id fs' h))

abbrev pub follow_on : ℕ → ℕ → Bool → ℕ → List ℕ → Option FragmentSet → DataHandler → Reply
follow_on now number is_last id bytes (some fs) h = follow_on_in now number is_last id bytes fs h
follow_on now number is_last id bytes none h =
    let room = make_room h in
    let fs = early_set now id in
    follow_on_in now number is_last id bytes fs (record room { sets = insert id fs room.sets })

unfoldable pub handle_follow_on_fragment : ℕ → List ℕ → DataHandler → Reply
handle_follow_on_fragment now (info ∷ a ∷ b ∷ c ∷ d ∷ bytes) h =
    let id = uint32 a b c d in
    follow_on now (info / 2) (info % 2 == 1) id bytes (lookup id h.sets) h
handle_follow_on_fragment now _ h =
    (err follow_on_too_short, record h { messages_dropped = h.messages_dropped + 1 })

pub get_fragment_count : DataHandler → ℕ
get_fragment_count h = length h.sets
