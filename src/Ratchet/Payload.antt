-- ===== src/Ratchet/Payload.antt =====
-- ratchet/payload.go: the blocks of a ratchet message, and the fields of each type of block.
pub mod Fields
use noise_ssu.Base.{
  ℕ, zero, suc, ◌+◌, ◌-◌, ◌*◌, ◌/◌, ◌%◌, Bool, true, false, not, ◌&&◌, ◌||◌, Option, none, some,
  List, [], ◌∷◌, ◌++◌, ltb, ◌==◌, if◌then◌else◌, length, take, drop, Outcome, ok, err, ◌>>=◌, ◌>>◌,
}
use noise_ssu.Base.Bytes.{hi16, lo16, uint16, byte3, byte2, uint32}

-- `PayloadBlock`; `Data` is `bytes`.
pub record PayloadBlock : Type 0 where
  pub block_type : ℕ
  pub bytes : List ℕ

abbrev pub date_time : ℕ
date_time = 0

abbrev pub termination : ℕ
termination = 4

abbrev pub options : ℕ
options = 5

abbrev pub message_number : ℕ
message_number = 6

abbrev pub next_key : ℕ
next_key = 7

abbrev pub ack : ℕ
ack = 8

abbrev pub ack_request : ℕ
ack_request = 9

abbrev pub garlic_clove : ℕ
garlic_clove = 11

abbrev pub padding : ℕ
padding = 254

abbrev pub max_block_data_size : ℕ
max_block_data_size = 65516

abbrev pub max_payload_size : ℕ
max_payload_size = 65519

pub data PayloadError : Type 0 where
  wrong_type wrong_length key_missing : PayloadError
  buffer_too_small data_too_large payload_too_large : PayloadError
  options_unimplemented many_paddings padding_not_last termination_not_last : PayloadError
  truncated_header data_overflows empty_payload date_time_not_first : PayloadError

-- `make([]byte, n)`.
unfoldable pub zeros : ℕ → List ℕ
zeros zero = []
zeros (suc n) = 0 ∷ zeros n

-- The time is its Unix seconds.
unfoldable pub new_date_time_block : ℕ → PayloadBlock
new_date_time_block t =
    let secs = t % 4294967296 in
    record { block_type = date_time; bytes = byte3 secs ∷ byte2 secs ∷ hi16 secs ∷ lo16 secs ∷ [] }

unfoldable pub date_time_of : PayloadBlock → Outcome PayloadError ℕ
date_time_of b = if not (b.block_type == date_time) then err wrong_type else read b.bytes
  where
    read : List ℕ → Outcome PayloadError ℕ
    read (w ∷ x ∷ y ∷ z ∷ []) = ok (uint32 w x y z)
    read _ = err wrong_length

unfoldable pub new_termination_block : ℕ → List ℕ → PayloadBlock
new_termination_block reason additional_data = record {
  block_type = termination;
  bytes = reason ∷ additional_data;
}

unfoldable pub termination_info : PayloadBlock → Outcome PayloadError (ℕ × List ℕ)
termination_info b = if not (b.block_type == termination) then err wrong_type else read b.bytes
  where
    read : List ℕ → Outcome PayloadError (ℕ × List ℕ)
    read [] = err wrong_length
    read (reason ∷ rest) = ok (reason, rest)

unfoldable pub new_message_number_block : ℕ → PayloadBlock
new_message_number_block pn = record { block_type = message_number; bytes = hi16 pn ∷ lo16 pn ∷ [] }

unfoldable pub message_number_of : PayloadBlock → Outcome PayloadError ℕ
message_number_of b = if not (b.block_type == message_number) then err wrong_type else read b.bytes
  where
    read : List ℕ → Outcome PayloadError ℕ
    read (hi ∷ lo ∷ []) = ok (uint16 hi lo)
    read _ = err wrong_length

-- The flags: key present, reverse, request reverse.
abbrev pub key_flag : Option (List ℕ) → ℕ
key_flag none = 0
key_flag (some key) = 1

abbrev pub reverse_flag : Bool → Bool → ℕ
reverse_flag reverse request_reverse = if reverse then 2 else if request_reverse then 4 else 0

abbrev pub key_bytes : Option (List ℕ) → List ℕ
key_bytes none = []
key_bytes (some key) = key

-- The key's 32 bytes are a list. Each flag is or-ed once into zero: the sum of the flags.
unfoldable pub new_next_key_block : ℕ → Option (List ℕ) → Bool → Bool → PayloadBlock
new_next_key_block key_id pub_key reverse request_reverse = record {
  block_type = next_key;
  bytes =
      (key_flag pub_key + reverse_flag reverse request_reverse)
      ∷ hi16 key_id
      ∷ lo16 key_id
      ∷ key_bytes pub_key;
}

pub record NextKeyInfo : Type 0 where
  pub key_present : Bool
  pub reverse : Bool
  pub request_reverse : Bool
  pub key_id : ℕ
  pub public_key : List ℕ

-- The fields of a `NextKey` block, once the length is checked.
unfoldable pub next_key_fields : List ℕ → Outcome PayloadError NextKeyInfo
next_key_fields (flags ∷ hi ∷ lo ∷ rest) =
    let key_present = not (flags % 2 == 0) in
    let info : List ℕ → NextKeyInfo = λ key. record {
      key_present = key_present;
      reverse = not (flags / 2 % 2 == 0);
      request_reverse = not (flags / 4 % 2 == 0);
      key_id = uint16 hi lo;
      public_key = key;
    } in
    if not key_present
    then ok (info (zeros 32))
    else if ltb (3 + length rest) 35
    then err key_missing
    else ok (info (take 32 rest))
next_key_fields _ = err wrong_length

unfoldable pub next_key_of : PayloadBlock → Outcome PayloadError NextKeyInfo
next_key_of b =
    if not (b.block_type == next_key)
    then err wrong_type
    else if not (length b.bytes == 3) && not (length b.bytes == 35)
    then err wrong_length
    else next_key_fields b.bytes

pub record AckEntry : Type 0 where
  pub tag_set_id : ℕ
  pub n : ℕ

unfoldable pub ack_bytes : List AckEntry → List ℕ
ack_bytes [] = []
ack_bytes (a ∷ acks) = hi16 a.tag_set_id ∷ lo16 a.tag_set_id ∷ hi16 a.n ∷ lo16 a.n ∷ ack_bytes acks

unfoldable pub new_ack_block : List AckEntry → PayloadBlock
new_ack_block acks = record { block_type = ack; bytes = ack_bytes acks }

-- The loop of `Acks`, over the data that is left.
unfoldable pub read_acks : List ℕ → List AckEntry
read_acks (w ∷ x ∷ y ∷ z ∷ rest) =
    record { tag_set_id = uint16 w x; n = uint16 y z } ∷ read_acks rest
read_acks _ = []

unfoldable pub acks_of : PayloadBlock → Outcome PayloadError (List AckEntry)
acks_of b =
    if not (b.block_type == ack)
    then err wrong_type
    else if not (length b.bytes % 4 == 0) || ltb (length b.bytes) 4
    then err wrong_length
    else ok (read_acks b.bytes)

unfoldable pub new_ack_request_block : ℕ → PayloadBlock
new_ack_request_block flags = record { block_type = ack_request; bytes = flags ∷ [] }

unfoldable pub new_garlic_clove_block : List ℕ → PayloadBlock
new_garlic_clove_block clove_data = record { block_type = garlic_clove; bytes = clove_data }

-- A negative size of the source is 0 here.
unfoldable pub new_padding_block : ℕ → PayloadBlock
new_padding_block size = record { block_type = padding; bytes = zeros size }

abbrev pub serialize_size : PayloadBlock → ℕ
serialize_size b = 3 + length b.bytes

-- The buffer after the writes, and the number of bytes written.
unfoldable pub serialize : PayloadBlock → List ℕ → Outcome PayloadError (List ℕ × ℕ)
serialize b dst =
    let needed = serialize_size b in
    let len = length b.bytes in
    if ltb (length dst) needed
    then err buffer_too_small
    else if ltb max_block_data_size len
    then err data_too_large
    else ok (b.block_type ∷ hi16 len ∷ lo16 len ∷ b.bytes ++ drop needed dst, needed)
