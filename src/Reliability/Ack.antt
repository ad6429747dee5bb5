-- ===== src/Reliability/Ack.antt =====
-- ssu2/reliability/ack_handler.go: which packets an ACK block names, and how it is read.
-- The mutex makes each method one step; the time that a method reads is an argument, in ns. The slot
-- of a zero `time.Time` is 0. Packet numbers are uint32 values.
pub mod Sorting
pub mod Reader
pub mod Encoding
pub mod RoundTrip
pub mod Blocks
pub mod Gap
pub mod Timing
mod Tests
use noise_ssu.Base.{
  ℕ, zero, suc, ◌+◌, ◌-◌, ◌*◌, ◌/◌, ◌%◌, Bool, true, false, ◌&&◌, ◌||◌, Option, none, some, List,
  [], ◌∷◌, ◌++◌, ltb, leb, ◌==◌, if◌then◌else◌, length, Outcome, ok, err,
}
use noise_ssu.Base.Bytes.{byte3, byte2, hi16, lo16, uint32}
use noise_ssu.Base.U32.{sub32}
use noise_ssu.Base.Dict.{Dict, lookup, insert, erase}
use noise_ssu.Wire.Block.{Block, ack, new_ssu2_block}

pub record PendingAck : Type 0 where
  pub packet_number : ℕ
  pub sent_time : ℕ
  pub retries : ℕ

pub record AckHandler : Type 0 where
  pub received_packets : List ℕ
  pub pending_acks : Dict PendingAck
  pub last_ack_time : ℕ
  pub ack_delay : ℕ
  pub ack_threshold : ℕ
  pub max_ack_data_size : ℕ

abbrev pub max_nack_ranges_per_ack : ℕ
max_nack_ranges_per_ack = 200

abbrev pub min_ack_interval : ℕ
min_ack_interval = 5_000_000

abbrev pub ms10 : ℕ
ms10 = 10_000_000

abbrev pub ms150 : ℕ
ms150 = 150_000_000

pub new_ack_handler : AckHandler
new_ack_handler = record {
  received_packets = [];
  pending_acks = [];
  last_ack_time = 0;
  ack_delay = ms10;
  ack_threshold = 10;
  max_ack_data_size = 504;
}

pub record_received : ℕ → AckHandler → AckHandler
record_received packet_num h = record h { received_packets = h.received_packets ++ packet_num ∷ [] }

-- An argument of 0 stands for every one below 1.
pub set_ack_threshold : ℕ → AckHandler → AckHandler
set_ack_threshold threshold h = record h {
  ack_threshold = if ltb threshold 1 then 1 else threshold;
}

pub set_max_ack_data_size : ℕ → AckHandler → AckHandler
set_max_ack_data_size size h = record h { max_ack_data_size = if ltb size 5 then 5 else size }

-- `max(10, min(rtt/6, 150))` ms.
pub delay_for : ℕ → ℕ
delay_for rtt =
    let delay = rtt / 6 in
    let delay' = if ltb delay ms10 then ms10 else delay in
    if ltb ms150 delay' then ms150 else delay'

pub should_send_ack : ℕ → ℕ → AckHandler → Bool × AckHandler
unfolding delay_for
should_send_ack rtt now h =
    let since = now - h.last_ack_time in
    let due = leb (delay_for rtt) since || leb h.ack_threshold (length h.received_packets) in
    if length h.received_packets == 0
    then (false, h)
    else (leb min_ack_interval since && due, record h { ack_delay = delay_for rtt })

-- The inner loop of the insertion sort: the sorted prefix, its last item first, takes `key` in.
pub shift : ℕ → List ℕ → List ℕ
shift key [] = key ∷ []
shift key (x ∷ xs) = let rest = shift key xs in if ltb x key then x ∷ rest else key ∷ x ∷ xs

-- The outer loop, over the items that are not yet in the prefix.
pub insertion_sort : List ℕ → List ℕ → List ℕ
insertion_sort prefix [] = prefix
insertion_sort prefix (key ∷ rest) = insertion_sort (shift key prefix) rest

-- The slice in its own order again.
pub rev_onto : List ℕ → List ℕ → List ℕ
rev_onto [] acc = acc
rev_onto (x ∷ xs) acc = rev_onto xs (x ∷ acc)

-- The items after the first that differ from the last one kept.
pub dedup : ℕ → List ℕ → List ℕ
dedup last [] = []
dedup last (x ∷ xs) =
    let same = dedup last xs in let rest = dedup x xs in if x == last then same else x ∷ rest

dedup_all : List ℕ → List ℕ
dedup_all [] = []
dedup_all (x ∷ xs) = x ∷ dedup x xs

pub sort_desc_dedup : List ℕ → List ℕ
unfolding insertion_sort rev_onto dedup_all
sort_desc_dedup packets = dedup_all (rev_onto (insertion_sort [] packets) [])

-- The items that carry on a consecutive run downward from `prev`: how many, the last number of the
-- run, and what follows. It is the loop of `countConsecutiveFromTop` and the inner one of
-- `buildACKRanges`.
pub split_run : ℕ → List ℕ → ℕ × ℕ × List ℕ
split_run prev [] = (0, prev, [])
split_run prev (x ∷ xs) =
    let (n, last, rest) = split_run x xs in
    if x == sub32 prev 1 then (suc n, last, rest) else (0, prev, x ∷ xs)

pub count_consecutive_from_top : List ℕ → ℕ
count_consecutive_from_top [] = 1
count_consecutive_from_top (top ∷ rest) = suc (split_run top rest).0

-- A count put into [1, 256].
abbrev pub clamp_count : ℕ → ℕ
clamp_count n = if ltb n 1 then 1 else if ltb 256 n then 256 else n

-- `prev` is `sorted[i-1]`, the list `sorted[i:]`, and `used` the length of `rangeBytes`. A round
-- takes one item at least, so the length of the list is fuel enough.
pub build_ack_ranges : ℕ → ℕ → List ℕ → ℕ → ℕ → List ℕ
build_ack_ranges zero prev sorted used max_bytes = []
build_ack_ranges (suc fuel) prev [] used max_bytes = []
build_ack_ranges (suc fuel) prev (next ∷ after) used max_bytes =
    let (more, last, rest) = split_run next after in
    let nack_count = clamp_count (sub32 (sub32 prev next) 1) in
    let ack_run = clamp_count (suc more) in
    let later = build_ack_ranges fuel last rest (used + 2) max_bytes in
    if ltb max_bytes (used + 2) then [] else (nack_count - 1) ∷ (ack_run - 1) ∷ later

-- The data of the block for a sorted list that starts with `top`.
pub ack_data : ℕ → List ℕ → ℕ → List ℕ
ack_data top below max_size =
    let (n, last, rest) = split_run top below in
    byte3 top
    ∷ byte2 top
    ∷ hi16 top
    ∷ lo16 top
    ∷ (n % 256)
    ∷ build_ack_ranges (length rest) last rest 0 (max_size - 5)

encode_sorted : List ℕ → ℕ → Option Block
encode_sorted [] max_size = none
encode_sorted (top ∷ below) max_size = some (new_ssu2_block ack (ack_data top below max_size))

after_ack : ℕ → AckHandler → AckHandler
after_ack now h = record h { last_ack_time = now; received_packets = [] }

-- `nil, nil` is `none`; the method has no other error.
pub generate_ack : ℕ → AckHandler → Option Block × AckHandler
unfolding encode_sorted after_ack
generate_ack now h =
    if length h.received_packets == 0
    then (none, h)
    else (encode_sorted (sort_desc_dedup h.received_packets) h.max_ack_data_size, after_ack now h)

pub add_pending : ℕ → ℕ → AckHandler → AckHandler
add_pending packet_num now h = record h {
  pending_acks =
      insert packet_num (record { packet_number = packet_num; sent_time = now; retries = 0 })
        h.pending_acks;
}

pub get_pending_packet : ℕ → AckHandler → Option PendingAck
get_pending_packet packet_num h = lookup packet_num h.pending_acks

pub has_pending : AckHandler → Bool
has_pending h = ltb 0 (length h.pending_acks)

pub clear_pending : AckHandler → AckHandler
clear_pending h = record h { pending_acks = []; received_packets = [] }
