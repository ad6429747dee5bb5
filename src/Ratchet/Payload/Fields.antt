-- ===== src/Ratchet/Payload/Fields.antt =====
-- The fields of a block are read back from the block that they were written to.
use noise_ssu.Base.{
  ℕ, zero, suc, ◌*◌, ◌%◌, ◌<◌, ◌≡◌, refl, sym, ◌∙◌, ap, Bool, true, false, not, ◌&&◌, Option, none,
  some, List, [], ◌∷◌, ltb, ◌==◌, arith, length, take, ok, All, le→ltb, take_all,
}
use noise_ssu.Base.Bytes.{uint16_split}
use noise_ssu.Ratchet.Payload.{
  AckEntry, new_next_key_block, next_key_of, next_key_fields, zeros, ack_bytes, new_ack_block,
  read_acks, acks_of,
}

pub length-zeros : (n : ℕ) → length (zeros n) ≡ n
unfolding zeros
length-zeros zero = refl
length-zeros (suc n) = ap suc (length-zeros n)

-- The key of a block, if it is given, has 32 bytes.
abbrev pub IsKey : Option (List ℕ) → Type 0
IsKey none = Unit {0}
IsKey (some key) = length key ≡ 32

abbrev pub is_some : Option (List ℕ) → Bool
is_some none = false
is_some (some key) = true

abbrev pub key_or_zeros : Option (List ℕ) → List ℕ
key_or_zeros none = zeros 32
key_or_zeros (some key) = key

whole : (key : List ℕ) → length key ≡ 32 → take 32 key ≡ key
whole key k = ap (λ n. take n key) (sym k) ∙ take_all key

-- A `NextKey` block with a key ID below 65536, and with a key of 32 bytes or none, is read back by
-- `NextKey` with all its fields: the key is zeros where there is none, and the request of a reverse
-- key is dropped on a block that is itself reverse.
next_key_of-new_next_key_block :
    (key_id : ℕ) (key : Option (List ℕ)) (reverse request_reverse : Bool)
    → key_id < 65536
    → IsKey key
    → next_key_of (new_next_key_block key_id key reverse request_reverse)
      ≡ ok record {
        key_present = is_some key;
        reverse = reverse;
        request_reverse = not reverse && request_reverse;
        key_id = key_id;
        public_key = key_or_zeros key;
      }
unfolding next_key_of new_next_key_block next_key_fields
next_key_of-new_next_key_block key_id none false false fits k = rw (uint16_split key_id fits) refl
next_key_of-new_next_key_block key_id none false true fits k = rw (uint16_split key_id fits) refl
next_key_of-new_next_key_block key_id none true false fits k = rw (uint16_split key_id fits) refl
next_key_of-new_next_key_block key_id none true true fits k = rw (uint16_split key_id fits) refl
next_key_of-new_next_key_block key_id (some key) false false fits k =
    rw (k, uint16_split key_id fits, whole key k) refl
next_key_of-new_next_key_block key_id (some key) false true fits k =
    rw (k, uint16_split key_id fits, whole key k) refl
next_key_of-new_next_key_block key_id (some key) true false fits k =
    rw (k, uint16_split key_id fits, whole key k) refl
next_key_of-new_next_key_block key_id (some key) true true fits k =
    rw (k, uint16_split key_id fits, whole key k) refl

abbrev pub IsEntry : AckEntry → Type 0
IsEntry a = (a.tag_set_id < 65536) × (a.n < 65536)

length-ack_bytes : (acks : List AckEntry) → length (ack_bytes acks) ≡ 4 * length acks
unfolding ack_bytes
length-ack_bytes [] = refl
length-ack_bytes (a ∷ acks) = omega (arith, length-ack_bytes acks)

read_acks-ack_bytes : (acks : List AckEntry) → All IsEntry acks → read_acks (ack_bytes acks) ≡ acks
unfolding read_acks ack_bytes
read_acks-ack_bytes [] h = refl
read_acks-ack_bytes (a ∷ acks) h =
    rw (uint16_split a.tag_set_id h.0.0, uint16_split a.n h.0.1)
      (ap (λ r. a ∷ r) (read_acks-ack_bytes acks h.1))

-- An `Ack` block of at least one entry, whose numbers are below 65536, is read back by `Acks`.
acks_of-new_ack_block :
    (a : AckEntry) (acks : List AckEntry)
    → All IsEntry (a ∷ acks)
    → acks_of (new_ack_block (a ∷ acks)) ≡ ok (a ∷ acks)
unfolding acks_of new_ack_block
acks_of-new_ack_block a acks h =
    let n = length-ack_bytes (a ∷ acks) in
    let l = length (ack_bytes (a ∷ acks)) in
    let quads : not (l % 4 == 0) ≡ false = ground (arith, n) in
    let long : ltb l 4 ≡ false = le→ltb _ _ (omega (arith, n)) in
    rw (quads, long, read_acks-ack_bytes (a ∷ acks) h) refl
