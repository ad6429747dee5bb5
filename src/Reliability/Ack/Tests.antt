-- ===== src/Reliability/Ack/Tests.antt =====
-- Runs of the ACK handler, and its theorems at concrete inputs.
use noise_ssu.Base.{ℕ, ◌≡◌, ◌≢◌, refl, List, [], ◌∷◌, some, arith, ok, err}
use noise_ssu.Base.Dict.{erase}
use noise_ssu.Wire.Block.{Block, ack, new_ssu2_block}
use noise_ssu.Reliability.Ack.{
  AckHandler, generate_ack, sort_desc_dedup, shift, dedup, split_run, ack_data,
}
use noise_ssu.Reliability.Ack.Reader.{process_ack, underflow_in_ack_loop}
use noise_ssu.Reliability.Ack.Gap.{wide_gap_false_ack}
use noise_ssu.Reliability.Ack.Blocks.{process_ack-generate_ack, late_zero_refused}

abbrev handler : List ℕ → AckHandler
handler packets = record {
  received_packets = packets;
  pending_acks = [];
  last_ack_time = 0;
  ack_delay = 10_000_000;
  ack_threshold = 10;
  max_ack_data_size = 504;
}

abbrev peer : AckHandler
peer = record (handler []) {
  pending_acks = (9, record { packet_number = 9; sent_time = 0; retries = 0 }) ∷ [];
}

sorted_run : sort_desc_dedup (7 ∷ 9 ∷ 7 ∷ 10 ∷ 3 ∷ []) ≡ 10 ∷ 9 ∷ 7 ∷ 3 ∷ []
unfolding sort_desc_dedup shift dedup
sorted_run = refl

process_ack-generate_ack_example :
    (b : Block) × ((generate_ack 5 (handler (7 ∷ 9 ∷ 10 ∷ 3 ∷ []))).0 ≡ some b)
    × (process_ack b peer ≡ (ok (10 ∷ 9 ∷ 7 ∷ 3 ∷ []), record peer { pending_acks = [] }))
unfolding sort_desc_dedup shift dedup split_run erase
process_ack-generate_ack_example =
    process_ack-generate_ack 5 (handler (7 ∷ 9 ∷ 10 ∷ 3 ∷ [])) peer (omega arith)
      (refl, omega arith, omega arith) refl

late_zero_refused_example :
    (b : Block) × ((generate_ack 5 (handler (0 ∷ 5 ∷ []))).0 ≡ some b)
    × (process_ack b peer ≡ (err underflow_in_ack_loop, peer))
unfolding sort_desc_dedup shift dedup split_run erase
late_zero_refused_example =
    late_zero_refused 5 (handler (0 ∷ 5 ∷ [])) peer (omega arith) (refl, omega arith, omega arith)
      refl

wide_gap_false_ack_example :
    ((process_ack (new_ssu2_block ack (ack_data 1000 (600 ∷ []) 504)) peer).0
      ≡ ok (1000 ∷ 743 ∷ []))
    × (◌≢◌ {A = ℕ} 743 1000)
    × (◌≢◌ {A = ℕ} 743 600)
wide_gap_false_ack_example =
    wide_gap_false_ack 1000 600 504 peer (omega arith) (omega arith) (omega arith)
