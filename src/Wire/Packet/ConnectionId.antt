-- ===== src/Wire/Packet/ConnectionId.antt =====
-- The connection ID in the first eight bytes of a header.
use noise_ssu.Base.{
  ℕ, ◌+◌, ◌*◌, ◌/◌, false, ◌≤◌, ◌<◌, ◌≡◌, refl, ap, ◌++◌, arith, ltb, length, drop, ok,
  length-append, length-drop, le→ltb,
}
use noise_ssu.Base.Bytes.{byte3, byte2, hi16, lo16, uint32}
use noise_ssu.Wire.Packet.{Packet, encode_connection_id, decode_connection_id, put_uint64}

uint64_split :
    (n : ℕ)
    → n < 0x1_0000_0000_0000_0000
    → uint32
            (byte3 (n / 0x1_0000_0000))
            (byte2 (n / 0x1_0000_0000))
            (hi16 (n / 0x1_0000_0000))
            (lo16 (n / 0x1_0000_0000))
          * 0x1_0000_0000
        + uint32 (byte3 n) (byte2 n) (hi16 n) (lo16 n)
      ≡ n
uint64_split n h = omega arith

-- A 64-bit connection ID that was set is read back, and the rest of the header stays, if the header
-- has eight bytes or more.
decode-encode :
    (n : ℕ) (p : Packet)
    → n < 0x1_0000_0000_0000_0000
    → 8 ≤ length p.header
    → let (reply, p') = encode_connection_id n p in
      (reply ≡ ok tt)
      × (decode_connection_id p' ≡ ok n)
      × (drop 8 p'.header ≡ drop 8 p.header)
      × (length p'.header ≡ length p.header)
unfolding encode_connection_id decode_connection_id
decode-encode n p h l =
    let room : ltb (length p.header) 8 ≡ false = le→ltb _ _ l in
    let after : ltb (length (put_uint64 n ++ drop 8 p.header)) 8 ≡ false =
      le→ltb _ _ (omega (arith, length-append (put_uint64 n) (drop 8 p.header))) in
    rw (room, after)
      (
        refl,
        ap ok (uint64_split n h),
        refl,
        omega (arith, length-append (put_uint64 n) (drop 8 p.header), length-drop 8 p.header),
      )
