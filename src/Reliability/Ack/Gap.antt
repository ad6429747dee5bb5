-- ===== src/Reliability/Ack/Gap.antt =====
-- What becomes of a gap that is too wide for its byte.
use noise_ssu.Base.{
  ℕ, ◌+◌, ◌-◌, ◌≤◌, ◌<◌, ◌≡◌, refl, ◌∙◌, ap, false, List, [], ◌∷◌, ne→==, le→ltb, ◌≢◌, arith, ltb,
  ◌==◌, Outcome, ok,
}
use noise_ssu.Base.Bytes.{byte3, byte2, hi16, lo16}
use noise_ssu.Base.U32.{IsU32, sub32}
use noise_ssu.Base.Dict.{Dict, erase}
use noise_ssu.Wire.Block.{ack, new_ssu2_block}
use noise_ssu.Reliability.Ack.{
  split_run, PendingAck, build_ack_ranges, ack_data, AckHandler, clamp_count,
}
use noise_ssu.Reliability.Ack.Reader.{
  first_run, AckError, process_ranges, process_data, process_ack,
}
use noise_ssu.Reliability.Ack.RoundTrip.{step_ok}
use noise_ssu.Reliability.Ack.Blocks.{process_data_first}

far_run : (a b : ℕ) → b + 257 < a → IsU32 a → (b == sub32 a 1) ≡ false
far_run a b h u = ground arith

far_nack : (a b : ℕ) → b + 257 < a → IsU32 a → clamp_count (sub32 (sub32 a b) 1) ≡ 256
far_nack a b h u = ground arith

far_data :
    (a b size : ℕ)
    → IsU32 a
    → b + 257 < a
    → 7 ≤ size
    → ack_data a (b ∷ []) size ≡ byte3 a ∷ byte2 a ∷ hi16 a ∷ lo16 a ∷ 0 ∷ 255 ∷ 0 ∷ []
unfolding ack_data split_run build_ack_ranges
far_data a b size u h s =
    let fits : ltb (size - 5) 2 ≡ false = le→ltb _ _ (omega arith) in
    rw (far_run a b h u) (rw (fits, far_nack a b h u) refl)

far_first :
    (a : ℕ) (pending : Dict PendingAck)
    → IsU32 a
    → 0 < a
    → process_data (byte3 a ∷ byte2 a ∷ hi16 a ∷ lo16 a ∷ 0 ∷ 255 ∷ 0 ∷ []) pending
      ≡ process_ranges 0 (a - 1) (255 ∷ 0 ∷ []) (a ∷ []) (erase a pending)
unfolding first_run
far_first a pending u h =
    let above : (a - 0 == 0) ≡ false = ne→== _ _ (omega arith) in
    let zero_less : a - 0 ≡ a = omega arith in
    process_data_first a 0 (255 ∷ 0 ∷ []) pending u (omega arith) ∙ rw above (rw zero_less refl)

no_ranges :
    (count cursor : ℕ) (acked : List ℕ) (pending : Dict PendingAck)
    → process_ranges count cursor [] acked pending ≡ (ok acked, pending)
unfolding process_ranges
no_ranges count cursor acked pending = refl

far_read :
    (a : ℕ) (pending : Dict PendingAck)
    → IsU32 a
    → 257 < a
    → (process_data (byte3 a ∷ byte2 a ∷ hi16 a ∷ lo16 a ∷ 0 ∷ 255 ∷ 0 ∷ []) pending).0
      ≡ ok (a ∷ (a - 257) ∷ [])
unfolding first_run
far_read a pending u h =
    let second =
      step_ok 0 a (a - 257) 0 255 0 [] (a ∷ []) (erase a pending) (omega arith) (omega arith) refl
        (omega arith) (omega arith) in
    let result : (Outcome AckError (List ℕ) × Dict PendingAck → Outcome AckError (List ℕ)) =
      λ r. r.0 in
    ap result (far_first a pending u (omega arith) ∙ second ∙ no_ranges _ _ _ _)

-- Of two packets more than 257 numbers apart, in a block of 7 bytes or more, the count of the gap
-- is cut to 256, and the reader takes for acknowledged, beside the first packet, one that was never
-- received instead of the second.
pub wide_gap_false_ack :
    (a b size : ℕ) (peer : AckHandler)
    → IsU32 a
    → b + 257 < a
    → 7 ≤ size
    → ((process_ack (new_ssu2_block ack (ack_data a (b ∷ []) size)) peer).0
        ≡ ok (a ∷ (a - 257) ∷ []))
      × (a - 257 ≢ a)
      × (a - 257 ≢ b)
unfolding process_ack new_ssu2_block
wide_gap_false_ack a b size peer u h s = (
  rw (far_data a b size u h s) (far_read a peer.pending_acks u (omega arith)),
  omega arith,
  omega arith,
)
