-- ===== src/Wire/Packet/Tests.antt =====
-- Packets at concrete inputs.
use noise_ssu.Base.{ℕ, zero, suc, ◌≡◌, refl, List, [], ◌∷◌, ◌++◌, arith, ok}
use noise_ssu.Wire.Packet.{
  Packet, serialize, deserialize, validate, size, stamp, sections, has_ephemeral_key,
  get_header_size, validate_long_header, parse_packet_sections,
}
use noise_ssu.Wire.Packet.RoundTrip.{deserialize-serialize_packet}
use noise_ssu.Wire.Packet.Reading.{serialize-deserialize_packet}

abbrev zeros : ℕ → List ℕ
zeros zero = []
zeros (suc n) = 0 ∷ zeros n

-- A header of type Data, of packet 258, and its stamped form.
abbrev header : List ℕ
header = zeros 10 ++ 1 ∷ 2 ∷ 9 ∷ zeros 3

abbrev stamped_header : List ℕ
stamped_header = zeros 10 ++ 1 ∷ 2 ∷ 6 ∷ zeros 3

abbrev eight : List ℕ
eight = 1 ∷ 2 ∷ 3 ∷ 4 ∷ 5 ∷ 6 ∷ 7 ∷ 8 ∷ []

abbrev of : List ℕ → List ℕ → Packet
of head body = record {
  header = head;
  ephemeral_key = [];
  payload = body;
  mac = zeros 16;
  message_type = 6;
  packet_number = 258;
  timestamp = 5;
}

abbrev wire : List ℕ
wire = stamped_header ++ eight ++ zeros 16

abbrev fresh : Packet
fresh = record {
  header = [];
  ephemeral_key = [];
  payload = [];
  mac = [];
  message_type = 0;
  packet_number = 0;
  timestamp = 0;
}

writing : serialize (of header eight) ≡ (ok wire, of stamped_header eight)
unfolding serialize validate size has_ephemeral_key get_header_size sections stamp
writing = refl

reading : deserialize wire 5 fresh ≡ (ok tt, of stamped_header eight)
unfolding deserialize validate_long_header parse_packet_sections has_ephemeral_key get_header_size
reading = refl

deserialize-serialize_packet_example :
    deserialize wire 7 fresh
    ≡ (ok tt, record (of stamped_header eight) { packet_number = 258; timestamp = 7 })
unfolding validate_long_header get_header_size
deserialize-serialize_packet_example =
    deserialize-serialize_packet (of header eight) fresh 7 writing refl (omega arith) refl refl

serialize-deserialize_packet_example :
    serialize (of stamped_header eight) ≡ (ok wire, of stamped_header eight)
serialize-deserialize_packet_example =
    serialize-deserialize_packet wire 5 fresh reading (omega arith) refl refl
