-- ===== src/Handshake/Padding.antt =====
-- handshake/padding_modifier.go: a length, the data, and random bytes after it.
use noise_ssu.Base.{
  ℕ, ◌+◌, ◌-◌, ◌%◌, Bool, true, ◌&&◌, Option, none, some, List, [], ◌∷◌, ◌++◌, ltb, ◌==◌,
  if◌then◌else◌, length, take, Outcome, ok, err, ◌>>=◌,
}
use noise_ssu.Base.Bytes.{byte3, byte2, hi16, lo16, uint32}
use noise_ssu.Base.U32.{u32_mod}
use noise_ssu.Handshake.{
  Phase, is_after_final, Modifier, ModifierError, data_too_large, padding_random_error,
  invalid_padded_data, invalid_padding,
}

-- The random source: `rand.ReadBigInt` below a bound, and that many bytes of `rand.Read`; `none` is
-- an error.
pub record Random : Type 0 where
  pub read_big_int : ℕ → Option ℕ
  pub read : ℕ → Option (List ℕ)

pub record PaddingModifier : Type 0 where
  pub min_padding : ℕ
  pub max_padding : ℕ

-- A negative minimum is refused as well, and is no number here.
pub new_padding_modifier : ℕ → ℕ → Outcome ModifierError PaddingModifier
new_padding_modifier min_padding max_padding =
    if ltb max_padding min_padding
    then err invalid_padding
    else ok (record { min_padding = min_padding; max_padding = max_padding })

abbrev pub or_random_error {ℓ} : {A : Type ℓ} → Option A → Outcome ModifierError A
or_random_error none = err padding_random_error
or_random_error (some a) = ok a

-- No padding is configured, or the handshake is over.
abbrev pub passes : PaddingModifier → Phase → Bool
passes pm phase =
    if is_after_final phase then true else (pm.min_padding == 0) && (pm.max_padding == 0)

abbrev pub padding_size : Random → PaddingModifier → Outcome ModifierError ℕ
padding_size random pm =
    if ltb pm.min_padding pm.max_padding
    then (do
      n ← or_random_error (random.read_big_int (pm.max_padding - pm.min_padding + 1))
      ok (pm.min_padding + n))
    else ok pm.min_padding

abbrev pub padding_of : Random → ℕ → Outcome ModifierError (List ℕ)
padding_of random size = if ltb 0 size then or_random_error (random.read size) else ok []

abbrev pub with_length : List ℕ → List ℕ → List ℕ
with_length bytes padding =
    let n = length bytes in byte3 n ∷ byte2 n ∷ hi16 n ∷ lo16 n ∷ bytes ++ padding

-- `ModifyOutbound`, once the length is known to fit.
abbrev pub fill : Random → PaddingModifier → List ℕ → Outcome ModifierError (List ℕ)
fill random pm bytes = do
  size ← padding_size random pm
  padding ← padding_of random size
  ok (with_length bytes padding)

unfoldable pub pad : Random → PaddingModifier → Phase → List ℕ → Outcome ModifierError (List ℕ)
unfolding is_after_final
pad random pm phase bytes =
    if passes pm phase
    then ok bytes
    else if ltb 0xffff_ffff (length bytes)
    then err data_too_large
    else fill random pm bytes

-- `uint32(len(data) - 4)` wraps.
abbrev pub unpad_body : List ℕ → Outcome ModifierError (List ℕ)
unpad_body (a ∷ b ∷ c ∷ d ∷ rest) =
    if ltb (length rest % u32_mod) (uint32 a b c d)
    then err invalid_padded_data
    else ok (take (uint32 a b c d) rest)
unpad_body bytes = err invalid_padded_data

unfoldable pub unpad : PaddingModifier → Phase → List ℕ → Outcome ModifierError (List ℕ)
unfolding is_after_final
unpad pm phase bytes = if passes pm phase then ok bytes else unpad_body bytes

unfoldable pub padding_modifier : Random → PaddingModifier → Modifier
unfolding pad unpad
padding_modifier random pm = record {
  modify_outbound = pad random pm;
  modify_inbound = unpad pm;
  close = none;
}
