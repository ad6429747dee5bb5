-- ===== src/Reliability/Window/Tests.antt =====
-- Runs of the receive window, and its theorems at concrete inputs.
use noise_ssu.Base.{ℕ, ◌≡◌, refl, ◌⊎◌, List, [], ◌∷◌, some, arith, ok, err, length, ◌+◌, ◌%◌}
use noise_ssu.Base.Dict.{lookup, insert as put, erase, contains}
use noise_ssu.Base.U32.{u32_mod}
use noise_ssu.Wire.Packet.{Packet}
use noise_ssu.Reliability.Window.{
  ReceiveWindow, new_receive_window, insert, accept_expected, buffer_future, release, seq_before,
  set_expected, get_gap_info, gap_bounds,
}
use noise_ssu.Reliability.Window.Release.{count_up, numbers, In}
use noise_ssu.Reliability.Window.Invariant.{
  IsValid, IsFlowing, new_receive_window-IsValid, insert_preserves,
}
use noise_ssu.Reliability.Window.Delivery.{ready, run, insert_accepts, run_in_order, run_keeps}
use noise_ssu.Reliability.Window.Stuck.{set_expected_stuck}

abbrev packet : ℕ → Packet
packet n = record {
  header = [];
  ephemeral_key = [];
  payload = n ∷ [];
  mac = [];
  message_type = 6;
  packet_number = n;
  timestamp = 0;
}

-- One before the wrap, with room for two.
abbrev start : ReceiveWindow
start = record { expected = 0xffff_ffff; window = []; max_size = 2 }

-- The packet after the gap has come.
abbrev gapped : ReceiveWindow
gapped = record { expected = 0xffff_ffff; window = (0, packet 0) ∷ []; max_size = 2 }

insert_gap : insert (some (packet 0)) start ≡ (ok [], gapped)
unfolding insert buffer_future seq_before contains lookup put
insert_gap = refl

insert_fill :
    insert (some (packet 0xffff_ffff)) gapped
    ≡ (ok (packet 0xffff_ffff ∷ packet 0 ∷ []), record { expected = 1; window = []; max_size = 2 })
unfolding insert accept_expected seq_before contains lookup release erase
insert_fill = refl

gap_info : get_gap_info gapped ≡ (0, 0, 1)
unfolding get_gap_info gap_bounds
gap_info = refl

start-IsValid : IsValid start × IsFlowing start
unfolding new_receive_window
start-IsValid = new_receive_window-IsValid 0xffff_ffff 2 (omega arith)

gapped-IsValid : IsValid gapped × IsFlowing gapped
unfolding insert buffer_future seq_before contains lookup put
gapped-IsValid = insert_preserves (packet 0) (omega arith) start-IsValid.0 start-IsValid.1

insert_accepts_example :
    let (reply, win') = insert (some (packet 1)) gapped in
    ((e : _) × (reply ≡ err e) × (win' ≡ gapped))
    ⊎ (lookup 1 win'.window ≡ some (packet 1))
    ⊎ In (packet 1) (ready reply)
insert_accepts_example = insert_accepts (packet 1) gapped-IsValid.0 gapped-IsValid.1

abbrev arrivals : List Packet
arrivals = packet 1 ∷ packet 1 ∷ packet 0xffff_ffff ∷ []

run_in_order_example :
    let (out, win') = run gapped arrivals in
    (numbers out ≡ count_up 0xffff_ffff (length out))
    × (win'.expected ≡ (0xffff_ffff + length out) % u32_mod)
    × IsValid win'
    × IsFlowing win'
run_in_order_example = run_in_order arrivals (omega arith) gapped-IsValid.0 gapped-IsValid.1

run_keeps_example :
    let (out, win') = run gapped arrivals in
    (lookup 0 win'.window ≡ some (packet 0)) ⊎ In (packet 0) out
unfolding lookup
run_keeps_example =
    run_keeps arrivals 0 (packet 0) (omega arith) gapped-IsValid.0 gapped-IsValid.1 refl

set_expected_stuck_example : (run (set_expected 0 gapped) arrivals).0 ≡ []
unfolding lookup
set_expected_stuck_example = set_expected_stuck 0 (packet 0) arrivals gapped-IsValid.0 refl
