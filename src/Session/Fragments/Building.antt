-- ===== src/Session/Fragments/Building.antt =====
-- ssu2/session/conn_write.go: `buildI2NPFragmentBlocks`, which cuts a message that is too long for a packet.
pub mod Pieces
use noise_ssu.Base.{
  ℕ, zero, suc, ◌+◌, ◌-◌, ◌*◌, ◌%◌, Bool, Option, none, some, List, [], ◌∷◌, ◌++◌, leb,
  if◌then◌else◌, length, take, drop, Outcome, ok, err,
}
use noise_ssu.Base.Bytes.{byte3, byte2, hi16, lo16}
use noise_ssu.Base.U32.{add32, u32_mod}
use noise_ssu.Wire.Block.{Block}
use noise_ssu.Session.Fragments.{i2np_header}

pub data BuildError : Type 0 where
  message_id_failed mtu_too_small : BuildError

-- `fragNum << 1`, of eight bits, with the mark of the last fragment.
abbrev pub frag_info : ℕ → Bool → ℕ
frag_info frag_num is_last = frag_num * 2 % 256 + (if is_last then 1 else 0)

abbrev pub follow_block : ℕ → ℕ → Bool → List ℕ → Block
follow_block id frag_num is_last bytes = record {
  block_type = 5;
  bytes = frag_info frag_num is_last ∷ byte3 id ∷ byte2 id ∷ hi16 id ∷ lo16 id ∷ bytes;
}

-- The loop over what is left of the data: a round takes a byte or more, so its length is fuel enough.
unfoldable pub follow_blocks : ℕ → ℕ → ℕ → ℕ → List ℕ → List Block
follow_blocks fuel max_follow id frag_num [] = []
follow_blocks zero max_follow id frag_num (b ∷ bs) = []
follow_blocks (suc fuel) max_follow id frag_num (b ∷ bs) =
    let is_last = leb (length (b ∷ bs)) max_follow in
    follow_block id frag_num is_last (take max_follow (b ∷ bs))
    ∷ follow_blocks fuel max_follow id ((frag_num + 1) % 256) (drop max_follow (b ∷ bs))

-- The I2NP type is the first byte of the data, if it has one.
abbrev pub first_byte : List ℕ → ℕ
first_byte [] = 0
first_byte (b ∷ bs) = b

-- `uint32(time.Now().Unix()) + 120`.
abbrev pub short_expiry : ℕ → ℕ
short_expiry now = add32 (now % u32_mod) 120

-- The identifier that `rand.Read` gives, `none` for its error, and the time in seconds are arguments.
unfoldable pub build_i2np_fragment_blocks :
    Option ℕ → ℕ → List ℕ → ℕ → Outcome BuildError (List Block)
build_i2np_fragment_blocks none now bytes max_block_data = err message_id_failed
build_i2np_fragment_blocks (some id) now bytes max_block_data =
    let max_first = max_block_data - 9 in
    let rest = drop max_first bytes in
    if leb max_block_data 9
    then err mtu_too_small
    else ok (
        record {
          block_type = 4;
          bytes = i2np_header (first_byte bytes) id (short_expiry now) ++ take max_first bytes;
        }
        ∷ follow_blocks (length rest) (max_block_data - 5) id 1 rest)
