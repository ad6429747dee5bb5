-- ===== src/Reliability/Ack/Reader.antt =====
-- `ProcessACK` of ssu2/reliability/ack_handler.go: how an ACK block is read.
use noise_ssu.Base.{
  ℕ, zero, suc, ◌+◌, ◌-◌, List, [], ◌∷◌, ◌++◌, ltb, ◌==◌, if◌then◌else◌, Outcome, ok, err,
}
use noise_ssu.Base.Bytes.{uint32}
use noise_ssu.Base.Dict.{Dict, erase}
use noise_ssu.Wire.Block.{Block, ack}
use noise_ssu.Reliability.Ack.{PendingAck, AckHandler, max_nack_ranges_per_ack}

pub data AckError : Type 0 where
  wrong_block_type block_too_short acnt_exceeds_through too_many_ranges : AckError
  nack_exceeds_cursor ack_exceeds_cursor underflow_in_ack_loop : AckError

-- The initial run: `n` numbers from `pn` down. The check before it keeps them from wrapping.
unfoldable pub first_run : ℕ → ℕ → List ℕ
first_run zero pn = []
first_run (suc n) pn = pn ∷ first_run n (pn - 1)

abbrev pub erase_all : List ℕ → Dict PendingAck → Dict PendingAck
erase_all [] pending = pending
erase_all (n ∷ ns) pending = erase_all ns (erase n pending)

-- The loop over one run of acks: the numbers so far and the cursor, or the error when the cursor
-- passes 0; and the pending packets, which lose each number on either way.
unfoldable pub collect :
    ℕ → ℕ → List ℕ → Dict PendingAck → Outcome AckError (List ℕ × ℕ) × Dict PendingAck
collect zero cursor acked pending = (ok (acked, cursor), pending)
collect (suc n) cursor acked pending =
    let more = collect n (cursor - 1) (acked ++ cursor ∷ []) (erase cursor pending) in
    if cursor == 0 then (err underflow_in_ack_loop, erase cursor pending) else more

-- The loop over the range bytes. The test after `cursor -= nacks` cannot fail, since `nacks` is no
-- more than `cursor` there. A single last byte is ignored.
unfoldable pub process_ranges :
    ℕ → ℕ → List ℕ → List ℕ → Dict PendingAck → Outcome AckError (List ℕ) × Dict PendingAck
process_ranges count cursor [] acked pending = (ok acked, pending)
process_ranges count cursor (x ∷ []) acked pending = (ok acked, pending)
process_ranges count cursor (x ∷ y ∷ bytes) acked pending =
    let nacks = x + 1 in
    let acks = y + 1 in
    let (run, pending') = collect acks (cursor - nacks) acked pending in
    let next : Outcome AckError (List ℕ) × Dict PendingAck = elim run [
      | err e ↦ (err e, pending')
      | ok (acked', cursor') ↦ process_ranges (count + 1) cursor' bytes acked' pending'
    ] in
    if ltb max_nack_ranges_per_ack (count + 1)
    then (err too_many_ranges, pending)
    else if ltb cursor nacks
    then (err nack_exceeds_cursor, pending)
    else if ltb (cursor - nacks + 1) acks
    then (err ack_exceeds_cursor, pending)
    else next

unfoldable pub process_data : List ℕ → Dict PendingAck → Outcome AckError (List ℕ) × Dict PendingAck
process_data (a ∷ b ∷ c ∷ d ∷ acnt ∷ ranges) pending =
    let through = uint32 a b c d in
    let acked = first_run (acnt + 1) through in
    let pending' = erase_all acked pending in
    if ltb through acnt
    then (err acnt_exceeds_through, pending)
    else if through - acnt == 0
    then (ok acked, pending')
    else process_ranges 0 (through - acnt - 1) ranges acked pending'
process_data _ pending = (err block_too_short, pending)

unfoldable pub process_ack : Block → AckHandler → Outcome AckError (List ℕ) × AckHandler
unfolding process_data
process_ack block h =
    if block.block_type == ack
    then (let (reply, pending) = process_data block.bytes h.pending_acks in
        (reply, record h { pending_acks = pending }))
    else (err wrong_block_type, h)
