-- ===== src/Reliability/Window.antt =====
-- ssu2/reliability/receive_window.go: packets are buffered until they can be handed on in order.
-- The mutex makes each method one step, so a method is a function on the window.
pub mod Release
pub mod Invariant
pub mod Delivery
pub mod Stuck
mod Tests
use noise_ssu.Base.{
  ℕ, zero, suc, ◌+◌, ◌-◌, ◌%◌, min, max, Bool, true, false, not, Option, none, some, List, [], ◌∷◌,
  ltb, leb, ◌==◌, if◌then◌else◌, length, Outcome, ok, err,
}
use noise_ssu.Base.U32.{add32, sub32, u32_mod}
use noise_ssu.Base.Dict.{Dict, lookup, insert as put, erase, retain, contains}
use noise_ssu.Wire.Packet.{Packet}

pub record ReceiveWindow : Type 0 where
  pub expected : ℕ
  pub window : Dict Packet
  pub max_size : ℕ

abbrev pub default_max_window_size : ℕ
default_max_window_size = 512

abbrev pub max_packet_number : ℕ
max_packet_number = 0xffff_ffff

-- A `max_size` of 0 stands for every non-positive one.
pub new_receive_window : ℕ → ℕ → ReceiveWindow
new_receive_window expected max_size = record {
  expected = expected;
  window = [];
  max_size = if max_size == 0 then default_max_window_size else max_size;
}

-- `int32(a-b) < 0`: bit 31 of the wrapped difference is set.
pub seq_before : ℕ → ℕ → Bool
seq_before a b = leb 0x8000_0000 (sub32 a b)

pub data InsertError : Type 0 where
  nil_packet already_processed duplicate_expected duplicate_future window_full : InsertError

abbrev pub Reply : Type 0
Reply = Outcome InsertError (List Packet) × ReceiveWindow

-- The loop of `Insert` that hands on the buffered packets which follow without a gap: what it
-- appends to `ready`, and the fields after it. Each round deletes an entry, so the number of
-- entries is fuel enough.
unfoldable pub release : ℕ → ℕ → Dict Packet → List Packet × ℕ × Dict Packet
release zero expected window = ([], expected, window)
release (suc fuel) expected window = elim (lookup expected window) [
  | none ↦ ([], expected, window)
  | some buffered ↦
      let (ready, expected', window') = release fuel (add32 expected 1) (erase expected window) in
      (buffered ∷ ready, expected', window')
]

-- The second case of `Insert`.
pub accept_expected : Packet → ReceiveWindow → Reply
accept_expected packet win =
    if contains packet.packet_number win.window
    then (err duplicate_expected, win)
    else (let (ready, expected, window) =
          release (length win.window) (add32 win.expected 1) win.window in
        (ok (packet ∷ ready), record win { expected = expected; window = window }))

-- The third case.
pub buffer_future : Packet → ReceiveWindow → Reply
buffer_future packet win =
    if contains packet.packet_number win.window
    then (err duplicate_future, win)
    else if leb win.max_size (length win.window)
    then (err window_full, win)
    else (ok [], record win { window = put packet.packet_number packet win.window })

pub insert : Option Packet → ReceiveWindow → Reply
insert none win = (err nil_packet, win)
insert (some packet) win =
    if seq_before packet.packet_number win.expected
    then (err already_processed, win)
    else if packet.packet_number == win.expected
    then accept_expected packet win
    else buffer_future packet win

pub get_expected : ReceiveWindow → ℕ
get_expected win = win.expected

pub get_max_size : ReceiveWindow → ℕ
get_max_size win = win.max_size

pub get_window_size : ReceiveWindow → ℕ
get_window_size win = length win.window

pub set_expected : ℕ → ReceiveWindow → ReceiveWindow
set_expected expected win = record win {
  expected = expected;
  window = retain (λ number _. not (seq_before number expected)) win.window;
}

pub clear : ℕ → ReceiveWindow → ReceiveWindow
clear expected win = record win { expected = expected; window = [] }

pub has_gaps : ReceiveWindow → Bool
has_gaps win = ltb 0 (length win.window)

-- The loop of `GetGapInfo`, over the entries left and the two bounds so far.
pub gap_bounds : Dict Packet → ℕ → ℕ → ℕ × ℕ
gap_bounds [] min_buffered max_buffered = (min_buffered, max_buffered)
gap_bounds ((number, _) ∷ rest) min_buffered max_buffered =
    gap_bounds rest (if ltb number min_buffered then number else min_buffered)
      (if ltb max_buffered number then number else max_buffered)

pub get_gap_info : ReceiveWindow → ℕ × ℕ × ℕ
get_gap_info win =
    if length win.window == 0
    then (0, 0, 0)
    else (let (min_buffered, max_buffered) = gap_bounds win.window max_packet_number 0 in
        (min_buffered, max_buffered, length win.window))
