-- ===== src/Session/Fragments/Building/Pieces.antt =====
-- What is cut is put together again.
use noise_ssu.Base.{
  ℕ, zero, suc, ◌+◌, ◌-◌, ◌/◌, ◌%◌, ◌≤◌, ◌<◌, ◌≡◌, refl, sym, ap, subst, ◌∙◌, inl, inr, ◌⊎◌, Bool,
  true, false, some, List, [], ◌∷◌, ◌++◌, arith, leb, ◌==◌, length, take, drop, nth, joined, map,
  Option, none, if◌then◌else◌, ap₂, take-append-drop, length-drop, drop_beyond, All, leb→le, ok,
  if-false, eq→==, ne→==,
}
use noise_ssu.Base.Bytes.{byte3, byte2, hi16, lo16, uint32, uint32_split}
use noise_ssu.Base.U32.{IsU32}
use noise_ssu.Wire.Block.{Block}
use noise_ssu.Session.Fragments.{i2np_header}
use noise_ssu.Session.Fragments.Building.{
  frag_info, follow_block, follow_blocks, first_byte, short_expiry, build_i2np_fragment_blocks,
}
use noise_ssu.Session.Fragments.Parts.{Message, whole}
use noise_ssu.Session.Fragments.Delivery.{IsFirstOf, IsFollowOnOf}

lt→leb : (a b : ℕ) → b < a → leb a b ≡ false
lt→leb a b h = ground arith

-- The pieces after the first.
unfoldable pub chunks : ℕ → ℕ → List ℕ → List (List ℕ)
chunks fuel size [] = []
chunks zero size (b ∷ bs) = []
chunks (suc fuel) size (b ∷ bs) = take size (b ∷ bs) ∷ chunks fuel size (drop size (b ∷ bs))

joined-chunks :
    (fuel size : ℕ) (bytes : List ℕ)
    → 0 < size
    → length bytes ≤ fuel
    → joined (chunks fuel size bytes) ≡ bytes
unfolding chunks
joined-chunks fuel size [] room enough = refl
joined-chunks zero size (b ∷ bs) room enough = absurd (omega arith)
joined-chunks (suc fuel) size (b ∷ bs) room enough =
    let left = length-drop size (b ∷ bs) in
    ap (◌++◌ (take size (b ∷ bs)))
      (joined-chunks fuel size (drop size (b ∷ bs)) room (omega (arith, left, enough)))
    ∙ take-append-drop size (b ∷ bs)

chunks_none : (fuel size : ℕ) (bytes : List ℕ) → bytes ≡ [] → chunks fuel size bytes ≡ []
unfolding chunks
chunks_none fuel size [] e = refl
chunks_none fuel size (b ∷ bs) e = absurd (cc e)

nth-drop :
    {A : Type 0} (k : ℕ) (x : A) (xs ys : List A)
    → drop k xs ≡ x ∷ ys
    → (nth k xs ≡ some x) × (drop (suc k) xs ≡ ys)
nth-drop zero x [] ys e = absurd (cc e)
nth-drop zero x (z ∷ xs) ys e = (cc e, cc e)
nth-drop (suc k) x [] ys e = absurd (cc e)
nth-drop (suc k) x (z ∷ xs) ys e = nth-drop k x xs ys e

frag_info_number : (k : ℕ) (is_last : Bool) → k < 128 → frag_info k is_last / 2 ≡ k
frag_info_number k true few = omega arith
frag_info_number k false few = omega arith

frag_info_mark : (k : ℕ) (is_last : Bool) → k < 128 → (frag_info k is_last % 2 == 1) ≡ is_last
frag_info_mark k true few = eq→== _ _ (omega arith)
frag_info_mark k false few = ne→== _ _ (omega arith)

module _ (sent : ℕ → Message) (id : ℕ) where
  follow_block-IsFollowOnOf :
      (k : ℕ) (is_last : Bool) (bytes : List ℕ)
      → IsU32 id
      → k < 128
      → nth k (sent id).pieces ≡ some bytes
      → (is_last ≡ true → suc k ≡ length (sent id).pieces)
      → IsFollowOnOf sent (follow_block id k is_last bytes).bytes
  follow_block-IsFollowOnOf k is_last bytes fits few here ends =
      let family = λ (n : ℕ) (l : Bool) (i : ℕ).
        (nth n (sent i).pieces ≡ some bytes) × (l ≡ true → suc n ≡ length (sent i).pieces) in
      subst
        (λ n.
          family n (frag_info k is_last % 2 == 1)
            (uint32 (byte3 id) (byte2 id) (hi16 id) (lo16 id)))
        (sym (frag_info_number k is_last few))
        (subst (λ l. family k l (uint32 (byte3 id) (byte2 id) (hi16 id) (lo16 id)))
          (sym (frag_info_mark k is_last few))
          (subst (family k is_last) (sym (uint32_split id fits)) (here, ends)))

  follow_blocks-IsFollowOnOf :
      (fuel size k : ℕ) (rest : List ℕ)
      → IsU32 id
      → 0 < size
      → length rest ≤ fuel
      → length (sent id).pieces ≤ 128
      → drop k (sent id).pieces ≡ chunks fuel size rest
      → k + length (chunks fuel size rest) ≡ length (sent id).pieces
      → All
          (λ (b : Block). (b.block_type ≡ 5) × IsFollowOnOf sent b.bytes)
          (follow_blocks fuel size id k rest)
  unfolding follow_blocks chunks
  follow_blocks-IsFollowOnOf fuel size k [] fits room enough few at all = tt
  follow_blocks-IsFollowOnOf zero size k (b ∷ bs) fits room enough few at all = absurd (omega arith)
  follow_blocks-IsFollowOnOf (suc fuel) size k (b ∷ bs) fits room enough few at all =
      let is_last = leb (length (b ∷ bs)) size in
      let left = length-drop size (b ∷ bs) in
      let later = chunks fuel size (drop size (b ∷ bs)) in
      let (here, next) = nth-drop k (take size (b ∷ bs)) (sent id).pieces later at in
      let ends : is_last ≡ true → suc k ≡ length (sent id).pieces = λ e.
        let none_left =
          chunks_none fuel size (drop size (b ∷ bs)) (drop_beyond size (b ∷ bs) (leb→le _ _ e)) in
        omega (arith, all, ap length none_left) in
      let total : suc k + length later ≡ length (sent id).pieces = omega (arith, all) in
      let rest =
        follow_blocks-IsFollowOnOf fuel size (suc k) (drop size (b ∷ bs)) fits room
          (omega (arith, left, enough, room)) few next total in
      let number : suc k ≡ (k + 1) % 256 = omega (arith, few, total) in
      (
        (
          refl,
          follow_block-IsFollowOnOf k is_last (take size (b ∷ bs)) fits (omega (arith, few, total))
              here ends,
        ),
        subst
            (λ n.
              All (λ (b : Block). (b.block_type ≡ 5) × IsFollowOnOf sent b.bytes)
                (follow_blocks fuel size id n (drop size (b ∷ bs))))
            number rest,
      )

-- A block that carries a piece: the first, or one that follows.
abbrev pub Carries : (ℕ → Message) → Block → Type 0
Carries sent b =
    ((b.block_type ≡ 4) × IsFirstOf sent b.bytes) ⊎ ((b.block_type ≡ 5) × IsFollowOnOf sent b.bytes)

-- What a fragment block says on the wire: the message, the number of the fragment, whether it is marked
-- as the last one, and its bytes.
abbrev pub Part : Type 0
Part = ℕ × ℕ × Bool × List ℕ

abbrev read_first : List ℕ → Option Part
read_first (kind ∷ a ∷ b ∷ c ∷ d ∷ e ∷ f ∷ g ∷ i ∷ bytes) = some (uint32 a b c d, 0, false, bytes)
read_first _ = none

abbrev read_follow_on : List ℕ → Option Part
read_follow_on (info ∷ a ∷ b ∷ c ∷ d ∷ bytes) =
    some (uint32 a b c d, info / 2, info % 2 == 1, bytes)
read_follow_on _ = none

abbrev pub read_part : Block → Option Part
read_part b =
    if b.block_type == 4
    then read_first b.bytes
    else if b.block_type == 5
    then read_follow_on b.bytes
    else none

-- The pieces of a message from a number on, the last one marked.
abbrev pub is_end : List (List ℕ) → Bool
is_end [] = true
is_end (p ∷ ps) = false

abbrev pub numbered : ℕ → ℕ → List (List ℕ) → List (Option Part)
numbered id k [] = []
numbered id k (p ∷ ps) = some (id, k, is_end ps, p) ∷ numbered id (suc k) ps

-- The first piece is never marked.
abbrev pub parts_of : ℕ → List (List ℕ) → List (Option Part)
parts_of id [] = []
parts_of id (p ∷ ps) = some (id, 0, false, p) ∷ numbered id 1 ps

is_end-chunks :
    (fuel size : ℕ) (bytes : List ℕ)
    → length bytes ≤ fuel
    → is_end (chunks fuel size bytes) ≡ leb (length bytes) 0
unfolding chunks
is_end-chunks fuel size [] enough = ground arith
is_end-chunks zero size (b ∷ bs) enough = absurd (omega arith)
is_end-chunks (suc fuel) size (b ∷ bs) enough = ground arith

-- The test for the last round.
is_end-drop :
    (fuel size : ℕ) (bytes : List ℕ)
    → length bytes ≤ size + fuel
    → is_end (chunks fuel size (drop size bytes)) ≡ leb (length bytes) size
is_end-drop fuel size bytes enough =
    let left = length-drop size bytes in
    is_end-chunks fuel size (drop size bytes) (omega (arith, left, enough)) ∙ ground (arith, left)

read_part-follow_block :
    (id k : ℕ) (is_last : Bool) (bytes : List ℕ)
    → IsU32 id
    → k < 128
    → read_part (follow_block id k is_last bytes) ≡ some (id, k, is_last, bytes)
read_part-follow_block id k is_last bytes fits few =
    ap₂ (λ n l. some (uint32 (byte3 id) (byte2 id) (hi16 id) (lo16 id), n, l, bytes))
      (frag_info_number k is_last few) (frag_info_mark k is_last few)
    ∙ ap (λ i. some (i, k, is_last, bytes)) (uint32_split id fits)

read_part-follow_blocks :
    (fuel size id k : ℕ) (rest : List ℕ)
    → IsU32 id
    → 0 < size
    → length rest ≤ fuel
    → k + length (chunks fuel size rest) ≤ 128
    → map read_part (follow_blocks fuel size id k rest) ≡ numbered id k (chunks fuel size rest)
unfolding follow_blocks chunks
read_part-follow_blocks fuel size id k [] fits room enough few = refl
read_part-follow_blocks zero size id k (b ∷ bs) fits room enough few = absurd (omega arith)
read_part-follow_blocks (suc fuel) size id k (b ∷ bs) fits room enough few =
    let is_last = leb (length (b ∷ bs)) size in
    let left = length-drop size (b ∷ bs) in
    let number : (k + 1) % 256 ≡ suc k = omega (arith, few) in
    let ends = is_end-drop fuel size (b ∷ bs) (omega (arith, enough, room)) in
    ap₂ ◌∷◌
      (read_part-follow_block id k is_last (take size (b ∷ bs)) fits (omega (arith, few))
        ∙ ap (λ l. some (id, k, l, take size (b ∷ bs))) (sym ends))
      (ap (λ n. map read_part (follow_blocks fuel size id n (drop size (b ∷ bs)))) number
        ∙ read_part-follow_blocks fuel size id (suc k) (drop size (b ∷ bs)) fits room
            (omega (arith, left, enough, room)) (omega (arith, few)))

All-map :
    {A : Type 0} (P Q : A → Type 0) (xs : List A) → ((x : A) → P x → Q x) → All P xs → All Q xs
All-map P Q [] f h = tt
All-map P Q (x ∷ xs) f h = (f x h.0, All-map P Q xs f h.1)

-- Data that is not empty, with room for a header in a block, an identifier of 32 bits and at most 127
-- fragments after the first one, is cut without an error, and the blocks are the pieces of one message:
-- on the wire they name its identifier and number all its pieces from 0 on, in order, and of those
-- that follow the first one exactly the last is marked as such. As the receiver delivers it, that
-- message is a header of nine bytes, of its first byte, the identifier and the expiration, and then
-- all the data.
pub build_i2np_fragment_blocks_lem :
    (id now max_block_data : ℕ) (bytes : List ℕ)
    → IsU32 id
    → 9 < max_block_data
    → 0 < length bytes
    → length (
        chunks
          (length (drop (max_block_data - 9) bytes))
          (max_block_data - 5)
          (drop (max_block_data - 9) bytes))
      ≤ 127
    → (blocks : List Block) × (m : Message) × (build_i2np_fragment_blocks
          (some id)
          now
          bytes
          max_block_data
        ≡ ok blocks)
      × All (Carries (λ _. m)) blocks
      × (map read_part blocks ≡ parts_of id m.pieces)
      × (whole id m ≡ i2np_header (first_byte bytes) id (short_expiry now) ++ bytes)
unfolding build_i2np_fragment_blocks
build_i2np_fragment_blocks_lem id now most bytes fits room some_data few =
    let first = take (most - 9) bytes in
    let rest = drop (most - 9) bytes in
    let m : Message = record {
      kind = first_byte bytes;
      expiration = short_expiry now;
      pieces = first ∷ chunks (length rest) (most - 5) rest;
    } in
    let follow =
      follow_blocks-IsFollowOnOf (λ _. m) id (length rest) (most - 5) 1 rest fits (omega arith)
        (omega arith) (omega (arith, few)) refl (omega arith) in
    (
      _,
      m,
      if-false _ _ (lt→leb most 9 room),
      (
        inl (refl, (refl, uint32_split (short_expiry now) (omega arith), refl)),
        All-map _ (Carries (λ _. m)) _ (λ b h. inr h) follow,
      ),
      ap₂ ◌∷◌ (ap (λ i. some (i, 0, false, first)) (uint32_split id fits)) (
          read_part-follow_blocks (length rest) (most - 5) id 1 rest fits (omega arith)
            (omega arith) (omega (arith, few))),
      ap (λ body. i2np_header (first_byte bytes) id (short_expiry now) ++ (first ++ body))
            (joined-chunks (length rest) (most - 5) rest (omega arith) (omega arith))
          ∙ ap (◌++◌ (i2np_header (first_byte bytes) id (short_expiry now)))
              (take-append-drop (most - 9) bytes),
    )
