-- ===== src/Ratchet/Builder.antt =====
-- ratchet/payload_builder.go: a payload is built of blocks in the order that is allowed, and parsed.
pub mod RoundTrip
pub mod Order
use mathlib.Core.Option
use noise_ssu.Base.{
  ℕ, zero, suc, ◌+◌, ◌-◌, Bool, true, false, not, Option, none, some, List, [], ◌∷◌, ◌++◌, ltb,
  ◌==◌, if◌then◌else◌, length, take, drop, Outcome, ok, err, ◌>>=◌, ◌>>◌,
}
use noise_ssu.Base.Bytes.{uint16}
use noise_ssu.Ratchet.Payload.{
  PayloadBlock, PayloadError, options_unimplemented, many_paddings, padding_not_last,
  termination_not_last, truncated_header, data_overflows, empty_payload, date_time_not_first,
  payload_too_large, options, padding, termination, date_time, garlic_clove, max_payload_size,
  zeros, serialize, serialize_size, new_date_time_block,
}

-- The variables of the loop in `validate`; -1 is `none`.
pub record OrderScan : Type 0 where
  pub padding_count : ℕ
  pub termination_idx : Option ℕ
  pub padding_idx : Option ℕ

unfoldable pub scan_block : ℕ → PayloadBlock → OrderScan → Outcome PayloadError OrderScan
scan_block i b s =
    if b.block_type == options
    then err options_unimplemented
    else if b.block_type == padding
    then (if ltb 1 (suc s.padding_count)
        then err many_paddings
        else ok record {
          padding_count = suc s.padding_count;
          termination_idx = s.termination_idx;
          padding_idx = some i;
        })
    else if b.block_type == termination
    then ok record {
      padding_count = s.padding_count;
      termination_idx = some i;
      padding_idx = s.padding_idx;
    }
    else ok s

unfoldable pub scan_blocks : List PayloadBlock → ℕ → OrderScan → Outcome PayloadError OrderScan
scan_blocks [] i s = ok s
scan_blocks (b ∷ bs) i s = do s' ← scan_block i b s; scan_blocks bs (suc i) s'

-- The last block is at `count - 1`; where there is padding, a termination belongs at `count - 2`.
unfoldable pub check_order : ℕ → Option ℕ → Option ℕ → Outcome PayloadError (Unit {0})
check_order count none none = ok tt
check_order count (some t) none = if not (t == count - 1) then err termination_not_last else ok tt
check_order count none (some p) = if not (p == count - 1) then err padding_not_last else ok tt
check_order count (some t) (some p) =
    if not (p == count - 1)
    then err padding_not_last
    else if not (t == count - 2)
    then err termination_not_last
    else ok tt

unfoldable pub validate : List PayloadBlock → Outcome PayloadError (Unit {0})
validate [] = ok tt
validate (b ∷ bs) = do
  s ←
      scan_blocks (b ∷ bs) 0
        record { padding_count = 0; termination_idx = none; padding_idx = none }
  check_order (length (b ∷ bs)) s.termination_idx s.padding_idx

unfoldable pub total_size : List PayloadBlock → ℕ
total_size [] = 0
total_size (b ∷ bs) = serialize_size b + total_size bs

-- The loop of `Build` over `buf[offset:]`, which it returns.
unfoldable pub build_from : List PayloadBlock → List ℕ → Outcome PayloadError (List ℕ)
build_from [] buf = ok buf
build_from (b ∷ bs) buf = do
  (written, n) ← serialize b buf
  rest ← build_from bs (drop n written)
  ok (take n written ++ rest)

unfoldable pub build : List PayloadBlock → Outcome PayloadError (List ℕ)
build blocks = do
  validate blocks
  if ltb max_payload_size (total_size blocks)
      then err payload_too_large
      else build_from blocks (zeros (total_size blocks))

abbrev pub prepend :
    PayloadBlock
    → Outcome PayloadError (List PayloadBlock)
    → Outcome PayloadError (List PayloadBlock)
prepend b (err e) = err e
prepend b (ok bs) = ok (b ∷ bs)

-- The loop of `ParsePayload` over `data[offset:]`. A block takes three bytes at least, so the length
-- of the data is fuel enough; `none` means that the fuel ran out.
unfoldable pub parse_from : ℕ → List ℕ → Option (Outcome PayloadError (List PayloadBlock))
parse_from fuel [] = some (ok [])
parse_from zero (x ∷ xs) = none
parse_from (suc fuel) (x ∷ []) = some (err truncated_header)
parse_from (suc fuel) (x ∷ y ∷ []) = some (err truncated_header)
parse_from (suc fuel) (block_type ∷ hi ∷ lo ∷ rest) =
    let block_len = uint16 hi lo in
    let later = parse_from fuel (drop block_len rest) in
    if ltb (length rest) block_len
    then some (err data_overflows)
    else Option.map (prepend record { block_type = block_type; bytes = take block_len rest }) later

unfoldable pub parse_payload : List ℕ → Option (Outcome PayloadError (List PayloadBlock))
parse_payload bytes = parse_from (length bytes) bytes

unfoldable pub check_first :
    Outcome PayloadError (List PayloadBlock) → Outcome PayloadError (Unit {0})
check_first (err e) = err e
check_first (ok []) = err empty_payload
check_first (ok (b ∷ bs)) =
    if not (b.block_type == date_time) then err date_time_not_first else ok tt

unfoldable pub validate_new_session_payload : List ℕ → Option (Outcome PayloadError (Unit {0}))
validate_new_session_payload [] = some (err empty_payload)
validate_new_session_payload (x ∷ xs) = Option.map check_first (parse_payload (x ∷ xs))

-- The first argument is `nowFunc()`.
unfoldable pub build_ns_payload : ℕ → List ℕ → Outcome PayloadError (List ℕ)
build_ns_payload now garlic_data =
    build (new_date_time_block now ∷ record { block_type = garlic_clove; bytes = garlic_data } ∷ [])

unfoldable pub find_block : List PayloadBlock → ℕ → Option PayloadBlock
find_block [] block_type = none
find_block (b ∷ bs) block_type =
    let later = find_block bs block_type in if b.block_type == block_type then some b else later

unfoldable pub find_blocks : List PayloadBlock → ℕ → List PayloadBlock
find_blocks [] block_type = []
find_blocks (b ∷ bs) block_type =
    let later = find_blocks bs block_type in if b.block_type == block_type then b ∷ later else later
