-- ===== src/Wire/Block/Order.antt =====
-- The order that `enforceBlockOrder` puts on the blocks of a packet.
use noise_ssu.Base.{
  ℕ, ◌≡◌, ◌∙◌, false, Option, none, some, List, [], ◌∷◌, ◌++◌, ◌==◌, arith, if◌then◌else◌,
  Bool-cases, inl, inr, append-nil, append_assoc,
}
use noise_ssu.Wire.Block.{Block, order_blocks, enforce_block_order, termination, padding}

-- The blocks that are neither Termination nor Padding, as they come.
abbrev pub plain : List Block → List Block
plain [] = []
plain (b ∷ bs) =
    if b.block_type == termination
    then plain bs
    else if b.block_type == padding
    then plain bs
    else b ∷ plain bs

-- The last block of a type, or `seen` where there is none.
abbrev pub last_of : ℕ → Option Block → List Block → Option Block
last_of t seen [] = seen
last_of t seen (b ∷ bs) = last_of t (if b.block_type == t then some b else seen) bs

abbrev pub to_list : Option Block → List Block
to_list none = []
to_list (some b) = b ∷ []

order_blocks_lem :
    (bs : List Block) (term pad : Option Block) (normal : List Block)
    → order_blocks bs term pad normal
      ≡ normal
        ++ plain bs
        ++ to_list (last_of termination term bs)
        ++ to_list (last_of padding pad bs)
unfolding order_blocks
order_blocks_lem [] none none normal = simp append-nil
order_blocks_lem [] none (some p) normal = simp append-nil
order_blocks_lem [] (some t) none normal = simp append-nil
order_blocks_lem [] (some t) (some p) normal = simp append-nil
order_blocks_lem (b ∷ bs) term pad normal = elim (Bool-cases (b.block_type == termination)) [
  | inl t ↦
      let other : (b.block_type == padding) ≡ false = ground (arith, t) in
      rw (t, other) (order_blocks_lem bs (some b) pad normal)
  | inr n ↦ elim (Bool-cases (b.block_type == padding)) [
    | inl p ↦ rw (n, p) (order_blocks_lem bs term (some b) normal)
    | inr q ↦ rw (n, q) (order_blocks_lem bs term pad (normal ++ b ∷ []) ∙ simp (append_assoc))
  ]
]

-- The wire order: every block that is neither Termination nor Padding, in the given order; then the
-- last Termination; then the last Padding. Earlier ones of those two types are dropped.
pub enforce_block_order_lem :
    (bs : List Block)
    → enforce_block_order bs
      ≡ plain bs ++ to_list (last_of termination none bs) ++ to_list (last_of padding none bs)
unfolding enforce_block_order
enforce_block_order_lem bs = order_blocks_lem bs none none []
