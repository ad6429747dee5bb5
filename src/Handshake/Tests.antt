-- ===== src/Handshake/Tests.antt =====
-- Modifiers at concrete inputs.
use noise_ssu.Base.{ℕ, ◌≡◌, refl, subst, none, some, List, [], ◌∷◌, arith, true, false, ok, err}
use noise_ssu.Base.Bytes.{IsBytes}
use noise_ssu.Handshake.{
  ModifierChain, new_modifier_chain, modify_outbound, modify_inbound, outbound_from, phase_initial,
  phase_data, modifier_chain_error, modifier_closed,
}
use noise_ssu.Handshake.XorKey.{XorModifier, xor_modifier, apply_key, xor_from}
use noise_ssu.Handshake.Padding.{Random, PaddingModifier, padding_modifier, pad}
use noise_ssu.Handshake.Inverse.{
  modify_inbound-modify_outbound, xor_modifier-IsInverse, padding_modifier-IsInverse, IsInverse,
  IsRandom,
}
use noise_ssu.Base.Xor.{xor_of}

abbrev key_modifier : XorModifier
key_modifier = record { xor_key = 0x55 ∷ 0xaa ∷ []; closed = false }

abbrev sevens : Random
sevens = record { read_big_int = λ bound. some 0; read = λ n. some (7 ∷ 7 ∷ []) }

abbrev two_pads : PaddingModifier
two_pads = record { min_padding = 2; max_padding = 2 }

sevens-IsRandom : IsRandom sevens
sevens-IsRandom n bs e =
    let same : 7 ∷ 7 ∷ [] ≡ bs = cc e in subst IsBytes same (omega arith, (omega arith, tt))

abbrev padded_and_masked : ModifierChain
padded_and_masked = record {
  modifiers = padding_modifier sevens two_pads ∷ xor_modifier key_modifier ∷ [];
}

abbrev masked_out : List ℕ
masked_out = 0x55 ∷ 0xaa ∷ 0x55 ∷ 0xa8 ∷ 0x54 ∷ 0xa8 ∷ 0x52 ∷ 0xad ∷ []

going_out : modify_outbound padded_and_masked phase_initial (1 ∷ 2 ∷ []) ≡ ok masked_out
unfolding modify_outbound outbound_from padding_modifier pad xor_modifier apply_key xor_from xor_of
going_out = refl

modify_inbound-modify_outbound_example :
    modify_inbound padded_and_masked phase_initial masked_out ≡ ok (1 ∷ 2 ∷ [])
modify_inbound-modify_outbound_example =
    modify_inbound-modify_outbound padded_and_masked phase_initial (1 ∷ 2 ∷ []) masked_out
      (
        padding_modifier-IsInverse sevens two_pads phase_initial sevens-IsRandom,
        (xor_modifier-IsInverse key_modifier phase_initial refl, tt),
      )
      (omega arith, (omega arith, tt)) (omega arith) going_out

padding_modifier-IsInverse_example : IsInverse phase_initial (padding_modifier sevens two_pads)
padding_modifier-IsInverse_example =
    padding_modifier-IsInverse sevens two_pads phase_initial sevens-IsRandom

-- The index of the modifier that refuses is in the error.
refusing :
    modify_outbound
      (new_modifier_chain (
        some (padding_modifier sevens two_pads)
        ∷ none
        ∷ some (xor_modifier (record key_modifier { closed = true }))
        ∷ []))
      phase_data
      (1 ∷ [])
    ≡ err (modifier_chain_error 1 modifier_closed)
unfolding modify_outbound outbound_from padding_modifier pad xor_modifier apply_key
    new_modifier_chain
refusing = refl
