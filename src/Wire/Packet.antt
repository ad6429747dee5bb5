-- ===== src/Wire/Packet.antt =====
-- ssu2/wire/packet.go: SSU2 packets, their wire format and their checks.
-- Byte slices are lists; a nil slice is the empty list. Times are numbers, and the time that a method
-- reads is an argument. A method that writes fields returns the packet as it leaves it, on an error
-- too. `Clone` is the identity here, since lists are not shared.
pub mod Sections
pub mod RoundTrip
pub mod Reading
pub mod ConnectionId
mod Tests
use noise_ssu.Base.{
  ℕ, zero, suc, ◌+◌, ◌-◌, ◌*◌, ◌/◌, ◌%◌, Bool, ◌||◌, List, [], ◌∷◌, ◌++◌, ltb, ◌==◌, if◌then◌else◌,
  length, take, drop, Outcome, ok, err,
}
use noise_ssu.Base.Bytes.{byte3, byte2, hi16, lo16, uint32}

-- `SSU2Packet`.
pub record Packet : Type 0 where
  pub header : List ℕ
  pub ephemeral_key : List ℕ
  pub payload : List ℕ
  pub mac : List ℕ
  pub message_type : ℕ
  pub packet_number : ℕ
  pub timestamp : ℕ

abbrev pub session_request : ℕ
session_request = 0

abbrev pub session_created : ℕ
session_created = 1

abbrev pub session_confirmed : ℕ
session_confirmed = 2

abbrev pub data_message : ℕ
data_message = 6

abbrev pub short_header_size : ℕ
short_header_size = 16

abbrev pub long_header_size : ℕ
long_header_size = 32

abbrev pub ephemeral_key_size : ℕ
ephemeral_key_size = 32

abbrev pub mac_size : ℕ
mac_size = 16

abbrev pub min_packet_size : ℕ
min_packet_size = 40

abbrev pub max_packet_size_ipv6 : ℕ
max_packet_size_ipv6 = 1452

abbrev pub protocol_version : ℕ
protocol_version = 2

abbrev pub network_id : ℕ
network_id = 2

pub data PacketError : Type 0 where
  invalid_header_size invalid_key_size unexpected_key invalid_mac_size : PacketError
  packet_too_large packet_too_short unsupported_version wrong_network_id : PacketError
  mac_before_offset header_too_short : PacketError

pub new_ssu2_packet : ℕ → ℕ → ℕ → Packet
new_ssu2_packet msg_type packet_num now = record {
  header = [];
  ephemeral_key = [];
  payload = [];
  mac = [];
  message_type = msg_type;
  packet_number = packet_num;
  timestamp = now;
}

pub has_ephemeral_key : Packet → Bool
has_ephemeral_key p = (p.message_type == session_request) || (p.message_type == session_created)

pub get_header_size : Packet → ℕ
get_header_size p =
    if p.message_type == session_confirmed
    then short_header_size
    else if p.message_type == data_message
    then short_header_size
    else long_header_size

-- `xs[n]`. The code reads below the length alone; past it this is 0.
abbrev pub byte_at : ℕ → List ℕ → ℕ
byte_at n [] = 0
byte_at zero (x ∷ xs) = x
byte_at (suc n) (x ∷ xs) = byte_at n xs

-- `xs[n] = x`, where `n` is below the length.
abbrev pub put_at : ℕ → ℕ → List ℕ → List ℕ
put_at n x [] = []
put_at zero x (y ∷ ys) = x ∷ ys
put_at (suc n) x (y ∷ ys) = y ∷ put_at n x ys

-- `Size`, where the key counts if the message type has one; also the total of `validate`.
pub size : Packet → ℕ
size p =
    let sections = length p.header + length p.payload + length p.mac in
    if has_ephemeral_key p then sections + length p.ephemeral_key else sections

-- The check of the ephemeral key in `validate`.
abbrev pub is_key_wrong : Bool → ℕ → Bool
is_key_wrong has_key n = if has_key then ltb n 32 || ltb 32 n else ltb 0 n

pub validate : Packet → Outcome PacketError (Unit {0})
validate p =
    if length p.header == get_header_size p
    then (if is_key_wrong (has_ephemeral_key p) (length p.ephemeral_key)
        then err (if has_ephemeral_key p then invalid_key_size else unexpected_key)
        else if length p.mac == mac_size
        then (if ltb max_packet_size_ipv6 (size p) then err packet_too_large else ok tt)
        else err invalid_mac_size)
    else err invalid_header_size

-- `p.Header[12] = p.MessageType`.
pub stamp : Packet → Packet
stamp p = record p { header = put_at 12 p.message_type p.header }

pub sections : Packet → List ℕ
sections p = p.header ++ (if has_ephemeral_key p then p.ephemeral_key else []) ++ p.payload ++ p.mac

pub serialize : Packet → Outcome PacketError (List ℕ) × Packet
unfolding stamp sections
serialize p = elim (validate p) [ err e ↦ (err e, p) | ok _ ↦ (ok (sections (stamp p)), stamp p) ]

pub validate_long_header : List ℕ → ℕ → Outcome PacketError (Unit {0})
validate_long_header bytes header_size =
    if header_size == long_header_size
    then (if byte_at 13 bytes == protocol_version
        then (if byte_at 14 bytes == network_id then ok tt else err wrong_network_id)
        else err unsupported_version)
    else ok tt

-- The key and the payload are left as they were where the data has none.
pub parse_packet_sections : List ℕ → ℕ → Packet → Outcome PacketError (Unit {0}) × Packet
parse_packet_sections bytes header_size p =
    let has_key = has_ephemeral_key p in
    let offset = if has_key then header_size + ephemeral_key_size else header_size in
    let mac_start = length bytes - mac_size in
    let keyed : Packet = record p {
      header = take header_size bytes;
      ephemeral_key =
          if has_key then take ephemeral_key_size (drop header_size bytes) else p.ephemeral_key;
    } in
    if ltb (length bytes) (offset + mac_size)
    then (err packet_too_short, p)
    else if ltb mac_start offset
    then (err mac_before_offset, keyed)
    else (
      ok tt,
      record keyed {
        payload =
            if mac_start - offset == 0
            then p.payload
            else take (mac_start - offset) (drop offset bytes);
        mac = drop mac_start bytes;
      },
    )

-- `binary.BigEndian.Uint32(p.Header[8:12])`.
abbrev pub number_of : List ℕ → ℕ
number_of header =
    uint32 (byte_at 8 header) (byte_at 9 header) (byte_at 10 header) (byte_at 11 header)

-- The end of `Deserialize`, after the sections were parsed.
abbrev pub finish :
    ℕ → Outcome PacketError (Unit {0}) × Packet → Outcome PacketError (Unit {0}) × Packet
finish now (err e, p) = (err e, p)
finish now (ok _, p) = (ok tt, record p { packet_number = number_of p.header; timestamp = now })

-- `Deserialize` after `p.MessageType = data[12]`.
abbrev pub parse : List ℕ → ℕ → Packet → Outcome PacketError (Unit {0}) × Packet
parse bytes now p = elim (validate_long_header bytes (get_header_size p)) [
  | err e ↦ (err e, p)
  | ok _ ↦ finish now (parse_packet_sections bytes (get_header_size p) p)
]

pub deserialize : List ℕ → ℕ → Packet → Outcome PacketError (Unit {0}) × Packet
deserialize bytes now p =
    if ltb (length bytes) min_packet_size
    then (err packet_too_short, p)
    else parse bytes now (record p { message_type = byte_at 12 bytes })

pub is_handshake_packet : Packet → Bool
is_handshake_packet p =
    (p.message_type == session_request)
    || (p.message_type == session_created)
    || (p.message_type == session_confirmed)

pub is_data_packet : Packet → Bool
is_data_packet p = p.message_type == data_message

pub set_packet_number : ℕ → Packet → Packet
set_packet_number num p = record p { packet_number = num }

-- `binary.BigEndian.PutUint64` and `Uint64`, of two halves.
abbrev pub put_uint64 : ℕ → List ℕ
put_uint64 n =
    let high = n / 0x1_0000_0000 in
    byte3 high ∷ byte2 high ∷ hi16 high ∷ lo16 high ∷ byte3 n ∷ byte2 n ∷ hi16 n ∷ lo16 n ∷ []

pub decode_connection_id : Packet → Outcome PacketError ℕ
decode_connection_id p =
    let h = p.header in
    let high = uint32 (byte_at 0 h) (byte_at 1 h) (byte_at 2 h) (byte_at 3 h) in
    let low = uint32 (byte_at 4 h) (byte_at 5 h) (byte_at 6 h) (byte_at 7 h) in
    if ltb (length h) 8 then err header_too_short else ok (high * 0x1_0000_0000 + low)

pub encode_connection_id : ℕ → Packet → Outcome PacketError (Unit {0}) × Packet
encode_connection_id conn_id p =
    if ltb (length p.header) 8
    then (err header_too_short, p)
    else (ok tt, record p { header = put_uint64 conn_id ++ drop 8 p.header })
