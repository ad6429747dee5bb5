-- ===== src/Ratchet/Tests.antt =====
-- Runs of the payload codec, and its theorems at concrete inputs.
use noise_ssu.Base.{ℕ, ◌≡◌, refl, some, List, [], ◌∷◌, arith, ok, err, length}
use noise_ssu.Ratchet.Payload.{
  PayloadBlock, padding_not_last, key_missing, new_date_time_block, date_time_of,
  new_termination_block, termination_info, new_message_number_block, message_number_of, zeros,
  next_key_of, next_key_fields, serialize,
}
use noise_ssu.Ratchet.Builder.{
  validate, scan_blocks, scan_block, check_order, total_size, build, build_from, parse_payload,
  build_ns_payload, validate_new_session_payload, find_block, find_blocks,
}
use noise_ssu.Ratchet.Builder.Order.{IsOrdered, build-IsOrdered}
use noise_ssu.Ratchet.Builder.RoundTrip.{
  parse_payload-build, validate_new_session_payload-build_ns_payload,
}

abbrev pad : PayloadBlock
pad = record { block_type = 254; bytes = 0 ∷ [] }

abbrev clove : PayloadBlock
clove = record { block_type = 11; bytes = 7 ∷ 8 ∷ [] }

abbrev closing : PayloadBlock
closing = record { block_type = 4; bytes = 0 ∷ [] }

build_run :
    build (clove ∷ closing ∷ pad ∷ [])
    ≡ ok (11 ∷ 0 ∷ 2 ∷ 7 ∷ 8 ∷ 4 ∷ 0 ∷ 1 ∷ 0 ∷ 254 ∷ 0 ∷ 1 ∷ 0 ∷ [])
unfolding build validate scan_blocks scan_block check_order total_size build_from serialize zeros
build_run = refl

-- A termination before another one is let through.
closed_twice : validate (closing ∷ clove ∷ closing ∷ []) ≡ ok tt
unfolding validate scan_blocks scan_block check_order
closed_twice = refl

padding_first : validate (pad ∷ clove ∷ []) ≡ err padding_not_last
unfolding validate scan_blocks scan_block check_order
padding_first = refl

date_time_run : date_time_of (new_date_time_block 4294967299) ≡ ok 3
unfolding date_time_of new_date_time_block
date_time_run = refl

termination_run : termination_info (new_termination_block 1 (5 ∷ [])) ≡ ok (1, 5 ∷ [])
unfolding termination_info new_termination_block
termination_run = refl

message_number_run : message_number_of (new_message_number_block 700) ≡ ok 700
unfolding message_number_of new_message_number_block
message_number_run = refl

find_run : find_block (pad ∷ clove ∷ []) 11 ≡ some clove
unfolding find_block
find_run = refl

find_all_run : find_blocks (clove ∷ pad ∷ clove ∷ []) 11 ≡ clove ∷ clove ∷ []
unfolding find_blocks
find_all_run = refl

key_missing_run : next_key_of record { block_type = 7; bytes = 1 ∷ 0 ∷ 5 ∷ [] } ≡ err key_missing
unfolding next_key_of next_key_fields
key_missing_run = refl

parse_payload-build_example :
    (w : List ℕ) × (build (clove ∷ closing ∷ pad ∷ []) ≡ ok w)
    × (length w ≡ total_size (clove ∷ closing ∷ pad ∷ []))
    × (parse_payload w ≡ some (ok (clove ∷ closing ∷ pad ∷ [])))
unfolding validate scan_blocks scan_block check_order total_size
parse_payload-build_example = parse_payload-build (clove ∷ closing ∷ pad ∷ []) refl (omega arith)

validate_new_session_payload-build_ns_payload_example :
    (w : List ℕ) × (build_ns_payload 1000 (7 ∷ 8 ∷ []) ≡ ok w)
    × (parse_payload w ≡ some (ok (new_date_time_block 1000 ∷ clove ∷ [])))
    × (validate_new_session_payload w ≡ some (ok tt))
validate_new_session_payload-build_ns_payload_example =
    validate_new_session_payload-build_ns_payload 1000 (7 ∷ 8 ∷ []) (omega arith)

build-IsOrdered_example : IsOrdered (clove ∷ closing ∷ pad ∷ [])
build-IsOrdered_example = build-IsOrdered (clove ∷ closing ∷ pad ∷ []) build_run
