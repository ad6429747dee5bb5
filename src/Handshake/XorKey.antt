-- ===== src/Handshake/XorKey.antt =====
-- handshake/xor_modifier.go: XOR with a repeated key.
use noise_ssu.Base.{
  ℕ, zero, suc, ◌+◌, ◌%◌, Bool, true, false, Option, none, some, List, [], ◌∷◌, ◌==◌, if◌then◌else◌,
  length, Outcome, ok, err,
}
use noise_ssu.Base.Xor.{xor8}
use noise_ssu.Handshake.{Phase, Modifier, ModifierError, modifier_closed}

-- `keySize` is the length of `xorKey`.
pub record XorModifier : Type 0 where
  pub xor_key : List ℕ
  pub closed : Bool

-- The random bytes that `io.ReadFull` gives for an empty key, `none` for its error, are an argument.
pub new_xor_modifier : Option (List ℕ) → List ℕ → XorModifier
new_xor_modifier random (b ∷ bs) = record { xor_key = b ∷ bs; closed = false }
new_xor_modifier (some random) [] = record { xor_key = random; closed = false }
new_xor_modifier none [] = record { xor_key = 1 ∷ []; closed = false }

-- `xs[i]`, where the index is in range.
abbrev pub item : ℕ → List ℕ → ℕ
item i [] = 0
item zero (x ∷ xs) = x
item (suc i) (x ∷ xs) = item i xs

-- The loop of `ModifyOutbound`, from index `i` on.
unfoldable pub xor_from : List ℕ → ℕ → List ℕ → List ℕ
xor_from key i [] = []
xor_from key i (b ∷ bs) = xor8 b (item (i % length key) key) ∷ xor_from key (i + 1) bs

unfoldable pub apply_key : XorModifier → Phase → List ℕ → Outcome ModifierError (List ℕ)
apply_key xm phase bytes =
    if xm.closed
    then err modifier_closed
    else if length bytes == 0
    then ok bytes
    else ok (xor_from xm.xor_key 0 bytes)

abbrev pub zeroed : List ℕ → List ℕ
zeroed [] = []
zeroed (b ∷ bs) = 0 ∷ zeroed bs

pub close_key : XorModifier → XorModifier
close_key xm = record { xor_key = zeroed xm.xor_key; closed = true }

unfoldable pub xor_modifier : XorModifier → Modifier
unfolding apply_key
xor_modifier xm = record {
  modify_outbound = apply_key xm;
  modify_inbound = apply_key xm;
  close = none;
}
