-- ===== src/Wire/Block.antt =====
-- ssu2/wire/block.go: the type-length-value blocks of a packet's payload.
pub mod RoundTrip
pub mod Order
mod Tests
use mathlib.Core.Option
use noise_ssu.Base.{
  ℕ, zero, suc, ◌+◌, ◌-◌, Bool, true, false, Option, none, some, List, [], ◌∷◌, ◌++◌, ◌||◌, ltb,
  leb, ◌==◌, if◌then◌else◌, length, take, drop, Outcome, ok, err, ◌>>=◌, ◌>>◌,
}
use noise_ssu.Base.Bytes.{hi16, lo16, uint16}

-- `SSU2Block`; `Data` is `bytes`.
pub record Block : Type 0 where
  pub block_type : ℕ
  pub bytes : List ℕ

abbrev pub date_time : ℕ
date_time = 0

abbrev pub options : ℕ
options = 1

abbrev pub router_info : ℕ
router_info = 2

abbrev pub i2np_message : ℕ
i2np_message = 3

abbrev pub first_fragment : ℕ
first_fragment = 4

abbrev pub follow_on_fragment : ℕ
follow_on_fragment = 5

abbrev pub termination : ℕ
termination = 6

abbrev pub next_nonce : ℕ
next_nonce = 11

abbrev pub ack : ℕ
ack = 12

abbrev pub address : ℕ
address = 13

abbrev pub reserved14 : ℕ
reserved14 = 14

abbrev pub relay_tag_request : ℕ
relay_tag_request = 15

abbrev pub relay_tag : ℕ
relay_tag = 16

abbrev pub new_token : ℕ
new_token = 17

abbrev pub first_packet_number : ℕ
first_packet_number = 20

abbrev pub congestion : ℕ
congestion = 21

abbrev pub padding : ℕ
padding = 254

abbrev pub max_block_length : ℕ
max_block_length = 65535

pub data BlockError : Type 0 where
  data_too_large data_too_short header_too_short insufficient_data : BlockError

unfoldable pub new_ssu2_block : ℕ → List ℕ → Block
new_ssu2_block block_type bytes = record { block_type = block_type; bytes = bytes }

-- The table `blockMinSizes`.
unfoldable pub block_min_size : ℕ → Option ℕ
block_min_size t =
    if t == date_time
    then some 4
    else if t == options
    then some 12
    else if t == termination
    then some 9
    else if t == next_nonce
    then some 8
    else if t == ack
    then some 5
    else if t == reserved14
    then some 0
    else if t == address
    then some 6
    else if t == relay_tag_request
    then some 0
    else if t == relay_tag
    then some 4
    else if t == new_token
    then some 12
    else if t == first_packet_number
    then some 4
    else if t == congestion
    then some 1
    else none

-- `minSize, ok := blockMinSizes[b.Type]; ok && dataLen < minSize`.
unfoldable pub is_below_minimum : ℕ → Option ℕ → Bool
is_below_minimum data_len none = false
is_below_minimum data_len (some min_size) = ltb data_len min_size

unfoldable pub validate : Block → Outcome BlockError (Unit {0})
validate b =
    if ltb max_block_length (length b.bytes)
    then err data_too_large
    else if is_below_minimum (length b.bytes) (block_min_size b.block_type)
    then err data_too_short
    else ok tt

unfoldable pub serialize : Block → Outcome BlockError (List ℕ)
serialize b = do
  validate b
  ok (b.block_type ∷ hi16 (length b.bytes) ∷ lo16 (length b.bytes) ∷ b.bytes)

-- The block and the number of bytes consumed.
unfoldable pub deserialize : List ℕ → Outcome BlockError (Block × ℕ)
deserialize (block_type ∷ hi ∷ lo ∷ rest) =
    let data_len = uint16 hi lo in
    let b : Block = record { block_type = block_type; bytes = take data_len rest } in
    if ltb (length rest) data_len
    then err insufficient_data
    else (validate b >>= λ _. ok (b, 3 + data_len))
deserialize _ = err header_too_short

pub size : Block → ℕ
size b = 3 + length b.bytes

-- The loop of `enforceBlockOrder`, over the blocks left and its three variables; then its end.
unfoldable pub order_blocks : List Block → Option Block → Option Block → List Block → List Block
order_blocks [] none none normal = normal
order_blocks [] none (some pad) normal = normal ++ pad ∷ []
order_blocks [] (some term) none normal = normal ++ term ∷ []
order_blocks [] (some term) (some pad) normal = (normal ++ term ∷ []) ++ pad ∷ []
order_blocks (b ∷ bs) term pad normal =
    let as_term = order_blocks bs (some b) pad normal in
    let as_pad = order_blocks bs term (some b) normal in
    let as_normal = order_blocks bs term pad (normal ++ b ∷ []) in
    if b.block_type == termination
    then as_term
    else if b.block_type == padding
    then as_pad
    else as_normal

unfoldable pub enforce_block_order : List Block → List Block
enforce_block_order blocks = order_blocks blocks none none []

-- The loop of `SerializeBlocks` over the ordered blocks.
unfoldable pub serialize_each : List Block → Outcome BlockError (List ℕ)
serialize_each [] = ok []
serialize_each (b ∷ bs) = do bytes ← serialize b; rest ← serialize_each bs; ok (bytes ++ rest)

unfoldable pub serialize_blocks : List Block → Outcome BlockError (List ℕ)
serialize_blocks [] = ok []
serialize_blocks (b ∷ bs) = serialize_each (enforce_block_order (b ∷ bs))

abbrev pub prepend : Block → Outcome BlockError (List Block) → Outcome BlockError (List Block)
prepend b (err e) = err e
prepend b (ok bs) = ok (b ∷ bs)

-- The loop of `DeserializeBlocks` over `data[offset:]`. A block takes three bytes at least, so the
-- length of the data is fuel enough; `none` means that the fuel ran out.
unfoldable pub deserialize_from : ℕ → List ℕ → Option (Outcome BlockError (List Block))
deserialize_from fuel [] = some (ok [])
deserialize_from zero (x ∷ xs) = none
deserialize_from (suc fuel) (x ∷ xs) = elim (deserialize (x ∷ xs)) [
  | err e ↦ some (err e)
  | ok (b, consumed) ↦ Option.map (prepend b) (deserialize_from fuel (drop consumed (x ∷ xs)))
]

unfoldable pub deserialize_blocks : List ℕ → Option (Outcome BlockError (List Block))
deserialize_blocks bytes = deserialize_from (length bytes) bytes
