-- ===== src/Reliability/Ack/Blocks.antt =====
-- A peer that reads a generated ACK block, and which packets it takes to be acknowledged.
use noise_ssu.Base.{
  ℕ, suc, ◌+◌, ◌-◌, ◌*◌, ◌≤◌, ◌%◌, ◌≡◌, refl, sym, ◌∙◌, ap, subst, Bool, true, false, List, [], ◌∷◌,
  ◌++◌, append-nil, le→ltb, arith, ◌==◌, if◌then◌else◌, Bool-cases, inl, inr, ==→eq, length,
  Outcome, ok, err, some, All,
}
use noise_ssu.Base.Bytes.{byte3, byte2, hi16, lo16, uint32_split}
use noise_ssu.Base.U32.{IsU32}
use noise_ssu.Base.Dict.{Dict}
use noise_ssu.Wire.Block.{Block, ack, new_ssu2_block}
use noise_ssu.Reliability.Ack.{
  split_run, PendingAck, build_ack_ranges, ack_data, AckHandler, generate_ack, encode_sorted,
  sort_desc_dedup,
}
use noise_ssu.Reliability.Ack.Reader.{
  first_run, AckError, underflow_in_ack_loop, process_ranges, process_data, erase_all, process_ack,
}
use noise_ssu.Reliability.Ack.Sorting.{Below, mem, IsStrictlyDescending, sort_desc_dedup_lem}
use noise_ssu.Reliability.Ack.Encoding.{fits, gaps, split_run-Split}
use noise_ssu.Reliability.Ack.RoundTrip.{
  ranges_result, process_ranges-build, Below-zero, fits_after_gap, whole_run, erase_all-append,
}

-- A falling list that one block can hold: no run longer than 256 numbers, no gap wider, no more
-- ranges than a reader takes, and room for them.
abbrev pub IsEncodable : List ℕ → ℕ → Type 0
IsEncodable [] size = ⊥
IsEncodable (top ∷ below) size =
    (fits 1 top below ≡ true) × (gaps top below ≤ 200) × (5 + 2 * gaps top below ≤ size)

-- Packet 0 is among the numbers after the first gap.
abbrev pub has_late_zero : List ℕ → Bool
has_late_zero [] = false
has_late_zero (top ∷ below) = mem 0 (split_run top below).2

pub process_data_first :
    (top acnt : ℕ) (ranges : List ℕ) (pending : Dict PendingAck)
    → IsU32 top
    → acnt ≤ top
    → process_data (byte3 top ∷ byte2 top ∷ hi16 top ∷ lo16 top ∷ acnt ∷ ranges) pending ≡ (
        if top - acnt == 0
        then (ok (first_run (acnt + 1) top), erase_all (first_run (acnt + 1) top) pending)
        else process_ranges 0
            (top - acnt - 1)
            ranges
            (first_run (acnt + 1) top)
            (erase_all (first_run (acnt + 1) top) pending))
unfolding process_data
process_data_first top acnt ranges pending u h = rw (uint32_split top u, le→ltb top acnt h) refl

-- The reader's reply.
abbrev pick : Bool → List ℕ → Outcome AckError (List ℕ)
pick late l = if late then err underflow_in_ack_loop else ok l

join :
    (r rest : List ℕ) (pending : Dict PendingAck)
    → ranges_result r rest (erase_all r pending)
      ≡ (pick (mem 0 rest) (r ++ rest), erase_all (r ++ rest) pending)
join r rest pending =
    ap (λ q. (pick (mem 0 rest) (r ++ rest), q)) (sym (erase_all-append r rest pending))

-- What the reader makes of the data of a list that one block can hold.
process_data-ack_data :
    (top : ℕ) (below : List ℕ) (size : ℕ) (pending : Dict PendingAck)
    → IsU32 top
    → Below top below
    → IsEncodable (top ∷ below) size
    → process_data (ack_data top below size) pending ≡ (
      if has_late_zero (top ∷ below) then err underflow_in_ack_loop else ok (top ∷ below),
      erase_all (top ∷ below) pending,
    )
unfolding ack_data
process_data-ack_data top below size pending u b (f, g, m) =
    let sp = split_run-Split 1 top below u (omega arith) b f in
    let (n, last, rest) = split_run top below in
    let small : n % 256 ≡ n = omega (arith, sp.short) in
    let run : first_run (n + 1) top ≡ first_run (suc n) top =
      ap (λ k. first_run k top) (omega arith) in
    let whole : top ∷ below ≡ first_run (suc n) top ++ rest = whole_run top n below rest sp.whole in
    rw small (
      process_data_first top n _ pending u (omega (arith, sp.last_eq))
      ∙ elim (Bool-cases (top - n == 0)) [
        | inl bottom ↦
            let zero_last : last ≡ 0 = omega (arith, sp.last_eq, ==→eq _ _ bottom) in
            let empty = Below-zero rest (subst (λ k. Below k rest) zero_last sp.below) in
            let one_run : first_run (n + 1) top ≡ top ∷ below =
              run
              ∙ sym (append-nil (first_run (suc n) top))
              ∙ ap (λ z. first_run (suc n) top ++ z) (sym empty)
              ∙ sym whole in
            rw (bottom, ap (mem 0) empty) (ap (λ l. (ok l, erase_all l pending)) one_run)
        | inr above ↦
            let r = first_run (n + 1) top in
            let two_parts : r ++ rest ≡ top ∷ below = ap (λ z. z ++ rest) run ∙ sym whole in
            rw above (
              ap
                (λ k.
                  process_ranges 0 k (build_ack_ranges (length rest) last rest 0 (size - 5)) r
                    (erase_all r pending))
                (omega (arith, sp.last_eq))
              ∙ process_ranges-build (length rest) last rest 0 (size - 5) 0 r (erase_all r pending)
                  (omega (arith, sp.last_eq)) sp.below sp.stops
                  (fits_after_gap _ last rest sp.stops sp.fit) (omega arith)
                  (omega (arith, sp.same_gaps)) (omega (arith, sp.same_gaps))
              ∙ join r rest pending
              ∙ ap (λ l. (pick (mem 0 rest) l, erase_all l pending)) two_parts)
      ])

mem-IsU32 : (n : ℕ) (xs : List ℕ) → All IsU32 xs → mem n xs ≡ true → IsU32 n
mem-IsU32 n [] us m = cc
mem-IsU32 n (x ∷ xs) us m = elim (Bool-cases (x == n)) [
  | inl e ↦ subst IsU32 (==→eq x n e) us.0
  | inr e ↦ mem-IsU32 n xs us.1 (ground (arith, e, m))
]

head-IsU32 :
    (top : ℕ) (below packets : List ℕ)
    → sort_desc_dedup packets ≡ top ∷ below
    → All IsU32 packets
    → IsU32 top
head-IsU32 top below packets e us =
    mem-IsU32 top packets us
      (sym (sort_desc_dedup_lem packets top).1 ∙ ap (mem top) e ∙ ground arith)

encodable_not_empty :
    (packets : List ℕ) (size : ℕ)
    → IsEncodable (sort_desc_dedup packets) size
    → (length packets == 0) ≡ false
unfolding sort_desc_dedup
encodable_not_empty [] size h = absurd h
encodable_not_empty (x ∷ xs) size h = ground arith

read_back :
    (l : List ℕ) (size : ℕ) (packets : List ℕ) (peer : AckHandler)
    → sort_desc_dedup packets ≡ l
    → All IsU32 packets
    → IsStrictlyDescending l
    → IsEncodable l size
    → (b : Block) × (encode_sorted l size ≡ some b)
      × (process_ack b peer ≡ (
        pick (has_late_zero l) l,
        record peer { pending_acks = erase_all l peer.pending_acks },
      ))
unfolding process_ack encode_sorted new_ssu2_block
read_back [] size packets peer e us d enc = absurd enc
read_back (top ∷ below) size packets peer e us d enc =
    let answer =
      process_data-ack_data top below size peer.pending_acks (head-IsU32 top below packets e us) d
        enc in
    (
      record { block_type = ack; bytes = ack_data top below size },
      refl,
      ap
          (λ (r : Outcome AckError (List ℕ) × Dict PendingAck).
            (r.0, record peer { pending_acks = r.1 }))
          answer,
    )

generated_and_read :
    (now : ℕ) (h peer : AckHandler)
    → All IsU32 h.received_packets
    → IsEncodable (sort_desc_dedup h.received_packets) h.max_ack_data_size
    → let sorted = sort_desc_dedup h.received_packets in
      (b : Block) × ((generate_ack now h).0 ≡ some b)
      × (process_ack b peer ≡ (
        pick (has_late_zero sorted) sorted,
        record peer { pending_acks = erase_all sorted peer.pending_acks },
      ))
unfolding generate_ack
generated_and_read now h peer us enc =
    let packets = h.received_packets in
    let (b, made, read) =
      read_back (sort_desc_dedup packets) h.max_ack_data_size packets peer refl us
        (sort_desc_dedup_lem packets 0).0 enc in
    (b, rw (encodable_not_empty packets h.max_ack_data_size enc) made, read)

-- Where one block can hold the received packets, all 32-bit numbers, and packet 0, if it was
-- received, is in the first run, the reader of the block that is generated takes for acknowledged
-- exactly those packets, from the highest down, and drops them from its pending ones.
pub process_ack-generate_ack :
    (now : ℕ) (h peer : AckHandler)
    → All IsU32 h.received_packets
    → IsEncodable (sort_desc_dedup h.received_packets) h.max_ack_data_size
    → has_late_zero (sort_desc_dedup h.received_packets) ≡ false
    → let sorted = sort_desc_dedup h.received_packets in
      (b : Block) × ((generate_ack now h).0 ≡ some b)
      × (process_ack b peer
          ≡ (ok sorted, record peer { pending_acks = erase_all sorted peer.pending_acks }))
process_ack-generate_ack now h peer us enc z =
    let (b, made, read) = generated_and_read now h peer us enc in
    let sorted = sort_desc_dedup h.received_packets in
    (
      b,
      made,
      read
          ∙ ap
              (λ c.
                (pick c sorted, record peer { pending_acks = erase_all sorted peer.pending_acks }))
              z,
    )

-- Where one block can hold the received packets, all 32-bit numbers, and packet 0 was received and
-- stands after a gap, the block that is generated is refused by its reader with an underflow error,
-- though it names only packets that were received; the packets are dropped from the pending ones
-- all the same.
pub late_zero_refused :
    (now : ℕ) (h peer : AckHandler)
    → All IsU32 h.received_packets
    → IsEncodable (sort_desc_dedup h.received_packets) h.max_ack_data_size
    → has_late_zero (sort_desc_dedup h.received_packets) ≡ true
    → let sorted = sort_desc_dedup h.received_packets in
      (b : Block) × ((generate_ack now h).0 ≡ some b)
      × (process_ack b peer ≡ (
        err underflow_in_ack_loop,
        record peer { pending_acks = erase_all sorted peer.pending_acks },
      ))
late_zero_refused now h peer us enc z =
    let (b, made, read) = generated_and_read now h peer us enc in
    let sorted = sort_desc_dedup h.received_packets in
    (
      b,
      made,
      read
          ∙ ap
              (λ c.
                (pick c sorted, record peer { pending_acks = erase_all sorted peer.pending_acks }))
              z,
    )
