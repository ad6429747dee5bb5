-- ===== src/Handshake/SipHash.antt =====
-- handshake/siphash/siphash.go: the masks of the length fields, one after the other.
use noise_ssu.Base.{ℕ, zero, suc, ◌/◌, ◌%◌, List, [], ◌∷◌, if◌then◌else◌}
use noise_ssu.Base.Bytes.{hi16, lo16, uint16}
use noise_ssu.Base.Xor.{xor16}
use noise_ssu.Handshake.{Phase, is_after_final}

-- `siphash.Hash` of the package github.com/go-i2p/crypto: two keys and bytes.
abbrev pub Hash : Type 0
Hash = ℕ → ℕ → List ℕ → ℕ

-- `binary.LittleEndian.PutUint64`, in that many bytes.
abbrev pub little_endian : ℕ → ℕ → List ℕ
little_endian zero n = []
little_endian (suc count) n = n % 256 ∷ little_endian count (n / 256)

-- The mask, and the IV after it.
unfoldable pub next_mask : Hash → ℕ × ℕ → ℕ → ℕ × ℕ
next_mask hash keys iv = let h = hash keys.0 keys.1 (little_endian 8 iv) in (h % 65536, h)

pub record LengthModifier : Type 0 where
  pub outbound_keys : ℕ × ℕ
  pub inbound_keys : ℕ × ℕ
  pub outbound_iv : ℕ
  pub inbound_iv : ℕ

pub new_length_modifier : ℕ × ℕ → ℕ → LengthModifier
new_length_modifier keys iv = record {
  outbound_keys = keys;
  inbound_keys = keys;
  outbound_iv = iv;
  inbound_iv = iv;
}

pub new_length_modifier_directional : ℕ × ℕ → ℕ × ℕ → ℕ → ℕ → LengthModifier
new_length_modifier_directional out_keys in_keys out_iv in_iv = record {
  outbound_keys = out_keys;
  inbound_keys = in_keys;
  outbound_iv = out_iv;
  inbound_iv = in_iv;
}

unfoldable pub next_outbound_mask : Hash → LengthModifier → ℕ × LengthModifier
next_outbound_mask hash slm =
    let (mask, iv) = next_mask hash slm.outbound_keys slm.outbound_iv in
    (mask, record slm { outbound_iv = iv })

unfoldable pub next_inbound_mask : Hash → LengthModifier → ℕ × LengthModifier
next_inbound_mask hash slm =
    let (mask, iv) = next_mask hash slm.inbound_keys slm.inbound_iv in
    (mask, record slm { inbound_iv = iv })

-- `applyMask`, over the method that gives the next mask.
pub apply_mask :
    (LengthModifier → ℕ × LengthModifier)
    → Phase
    → List ℕ
    → LengthModifier
    → List ℕ × LengthModifier
apply_mask next phase (a ∷ b ∷ []) slm =
    if is_after_final phase
    then (let (mask, slm') = next slm in
        let masked = xor16 (uint16 a b) mask in (hi16 masked ∷ lo16 masked ∷ [], slm'))
    else (a ∷ b ∷ [], slm)
apply_mask next phase bytes slm = (bytes, slm)

pub outbound_length : Hash → Phase → List ℕ → LengthModifier → List ℕ × LengthModifier
outbound_length hash = apply_mask (next_outbound_mask hash)

pub inbound_length : Hash → Phase → List ℕ → LengthModifier → List ℕ × LengthModifier
inbound_length hash = apply_mask (next_inbound_mask hash)

pub zero_keys : LengthModifier → LengthModifier
zero_keys slm = record {
  outbound_keys = (0, 0);
  inbound_keys = (0, 0);
  outbound_iv = 0;
  inbound_iv = 0;
}
