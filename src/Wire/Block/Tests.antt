-- ===== src/Wire/Block/Tests.antt =====
-- Runs of the block codec, and its theorems at concrete inputs.
use noise_ssu.Base.{ℕ, ◌≡◌, refl, List, [], ◌∷◌, ◌++◌, some, none, ok, err}
use noise_ssu.Wire.Block.{
  Block, data_too_short, serialize, serialize_each, serialize_blocks, deserialize_blocks,
  enforce_block_order, order_blocks, validate, is_below_minimum, block_min_size,
}
use noise_ssu.Wire.Block.RoundTrip.{deserialize_blocks-serialize_blocks}
use noise_ssu.Wire.Block.Order.{enforce_block_order_lem, plain, to_list, last_of}

abbrev pad : Block
pad = record { block_type = 254; bytes = 0 ∷ 0 ∷ [] }

abbrev congested : Block
congested = record { block_type = 21; bytes = 1 ∷ [] }

abbrev empty_congested : Block
empty_congested = record { block_type = 21; bytes = [] }

abbrev wire : List ℕ
wire = 21 ∷ 0 ∷ 1 ∷ 1 ∷ 254 ∷ 0 ∷ 2 ∷ 0 ∷ 0 ∷ []

serialize_blocks_run : serialize_blocks (pad ∷ congested ∷ []) ≡ ok wire
unfolding serialize_blocks enforce_block_order order_blocks serialize_each serialize validate
    is_below_minimum block_min_size
serialize_blocks_run = refl

too_short : serialize empty_congested ≡ err data_too_short
unfolding serialize validate is_below_minimum block_min_size
too_short = refl

deserialize_blocks-serialize_blocks_example :
    deserialize_blocks wire ≡ some (ok (enforce_block_order (pad ∷ congested ∷ [])))
deserialize_blocks-serialize_blocks_example =
    deserialize_blocks-serialize_blocks (pad ∷ congested ∷ []) serialize_blocks_run

enforce_block_order_lem_example :
    enforce_block_order (pad ∷ congested ∷ pad ∷ [])
    ≡ plain (pad ∷ congested ∷ pad ∷ [])
      ++ to_list (last_of 6 none (pad ∷ congested ∷ pad ∷ []))
      ++ to_list (last_of 254 none (pad ∷ congested ∷ pad ∷ []))
enforce_block_order_lem_example = enforce_block_order_lem (pad ∷ congested ∷ pad ∷ [])
