-- ===== src/Ratchet/Builder/RoundTrip.antt =====
-- A payload that `Build` accepts is written whole and is parsed as the blocks that it was built of.
use mathlib.Core.Option
use noise_ssu.Base.{
  ℕ, zero, suc, ◌≤◌, ◌≡◌, refl, ◌∙◌, ap, false, some, List, [], ◌∷◌, ◌++◌, ltb, arith, length, drop,
  ok, take-append, drop-append, length-append, length-drop, le→ltb,
}
use noise_ssu.Base.Bytes.{hi16, lo16, uint16_split}
use noise_ssu.Ratchet.Payload.{
  PayloadBlock, max_payload_size, max_block_data_size, garlic_clove, zeros, serialize,
  serialize_size, new_date_time_block,
}
use noise_ssu.Ratchet.Payload.Fields.{length-zeros}
use noise_ssu.Ratchet.Builder.{
  validate, total_size, build_from, build, prepend, parse_from, parse_payload, check_first,
  validate_new_session_payload, build_ns_payload, scan_blocks, scan_block, check_order,
}

-- The bytes of a block, and of a payload.
abbrev pub encoding : PayloadBlock → List ℕ
encoding b = b.block_type ∷ hi16 (length b.bytes) ∷ lo16 (length b.bytes) ∷ b.bytes

unfoldable pub encodings : List PayloadBlock → List ℕ
encodings [] = []
encodings (b ∷ bs) = encoding b ++ encodings bs

length-encodings : (bs : List PayloadBlock) → length (encodings bs) ≡ total_size bs
unfolding encodings total_size
length-encodings [] = refl
length-encodings (b ∷ bs) =
    omega (arith, length-append (encoding b) (encodings bs), length-encodings bs)

nil_of_length : (d : List ℕ) → length d ≡ 0 → d ≡ []
nil_of_length [] h = refl
nil_of_length (x ∷ xs) h = absurd (omega arith)

pub serialize-ok :
    (b : PayloadBlock) (dst : List ℕ)
    → serialize_size b ≤ length dst
    → length b.bytes ≤ max_block_data_size
    → serialize b dst ≡ ok (encoding b ++ drop (serialize_size b) dst, serialize_size b)
unfolding serialize
serialize-ok b dst room small = rw (le→ltb _ _ room, le→ltb _ _ small) refl

-- The loop of `Build` never fails on a buffer of the payload's size.
build_from-ok :
    (bs : List PayloadBlock) (buf : List ℕ)
    → length buf ≡ total_size bs
    → total_size bs ≤ max_payload_size
    → build_from bs buf ≡ ok (encodings bs)
unfolding build_from encodings total_size
build_from-ok [] buf exact small = ap ok (nil_of_length buf exact)
build_from-ok (b ∷ bs) buf exact small =
    let n = serialize_size b in
    let rest = drop n buf in
    let left : length rest ≡ total_size bs = omega (arith, length-drop n buf, exact) in
    rw
      (
        serialize-ok b buf (omega arith) (omega arith),
        drop-append n (encoding b) rest (omega arith),
        take-append n (encoding b) rest (omega arith),
        build_from-ok bs rest left (omega arith),
      )
      refl

parse_from-cons :
    (b : PayloadBlock) (y : List ℕ) (fuel : ℕ)
    → length b.bytes ≤ 65535
    → parse_from (suc fuel) (encoding b ++ y) ≡ Option.map (prepend b) (parse_from fuel y)
unfolding parse_from
parse_from-cons b y fuel small =
    let l = length b.bytes in
    let fits : ltb (length (b.bytes ++ y)) l ≡ false =
      le→ltb _ _ (omega (arith, length-append b.bytes y)) in
    rw
      (
        uint16_split l (omega arith),
        fits,
        take-append l b.bytes y refl,
        drop-append l b.bytes y refl,
      )
      refl

parse_from-encodings :
    (bs : List PayloadBlock) (fuel : ℕ)
    → total_size bs ≤ fuel
    → total_size bs ≤ max_payload_size
    → parse_from fuel (encodings bs) ≡ some (ok bs)
unfolding encodings total_size parse_from
parse_from-encodings [] fuel enough small = refl
parse_from-encodings (b ∷ bs) zero enough small = absurd (omega arith)
parse_from-encodings (b ∷ bs) (suc fuel) enough small =
    parse_from-cons b (encodings bs) fuel (omega arith)
    ∙ ap (Option.map (prepend b)) (parse_from-encodings bs fuel (omega arith) (omega arith))

-- Where `validate` accepts the blocks and their sizes add up to 65519 bytes at most, `Build`
-- returns exactly that many bytes, never an error, and `ParsePayload` reads them as the blocks.
pub parse_payload-build :
    (bs : List PayloadBlock)
    → validate bs ≡ ok tt
    → total_size bs ≤ max_payload_size
    → (w : List ℕ) × (build bs ≡ ok w)
      × (length w ≡ total_size bs)
      × (parse_payload w ≡ some (ok bs))
unfolding build parse_payload
parse_payload-build bs valid small = (
  encodings bs,
  rw (valid, le→ltb _ _ small)
      (build_from-ok bs (zeros (total_size bs)) (length-zeros (total_size bs)) small),
  length-encodings bs,
  parse_from-encodings bs (length (encodings bs)) (omega (arith, length-encodings bs)) small,
)

-- A parsed payload that starts with a date is a New Session payload.
dated :
    (w : List ℕ) (b : PayloadBlock) (bs : List PayloadBlock)
    → parse_payload w ≡ some (ok (b ∷ bs))
    → b.block_type ≡ 0
    → validate_new_session_payload w ≡ some (ok tt)
unfolding parse_payload parse_from validate_new_session_payload check_first
dated [] b bs parsed first = cc
dated (x ∷ xs) b bs parsed first = ap (Option.map check_first) parsed ∙ rw first refl

-- A garlic clove of 65509 bytes at most makes a New Session payload: `BuildNSPayload` returns no
-- error whatever the time is, `ParsePayload` reads its bytes as the date block and the clove, and
-- `ValidateNewSessionPayload` accepts them.
pub validate_new_session_payload-build_ns_payload :
    (now : ℕ) (garlic_data : List ℕ)
    → length garlic_data ≤ 65509
    → (w : List ℕ) × (build_ns_payload now garlic_data ≡ ok w)
      × (parse_payload w
          ≡ some (
              ok (
                new_date_time_block now
                ∷ record { block_type = garlic_clove; bytes = garlic_data }
                ∷ [])))
      × (validate_new_session_payload w ≡ some (ok tt))
unfolding build_ns_payload validate scan_blocks scan_block check_order total_size
    new_date_time_block validate_new_session_payload check_first
validate_new_session_payload-build_ns_payload now garlic_data small =
    let clove : PayloadBlock = record { block_type = garlic_clove; bytes = garlic_data } in
    let bs = new_date_time_block now ∷ clove ∷ [] in
    let (w, built, size, parsed) = parse_payload-build bs refl (omega arith) in
    (w, built, parsed, dated w (new_date_time_block now) (clove ∷ []) parsed refl)
