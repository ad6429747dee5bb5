-- ===== src/Wire/Block/RoundTrip.antt =====
-- Serialised blocks read back as they were, and what is read was written so.
use mathlib.Core.Option
use noise_ssu.Base.{
  ℕ, zero, suc, ◌+◌, ◌≤◌, ◌≡◌, refl, sym, ◌∙◌, ap, ap₂, inl, inr, Bool, true, false, Option, none,
  some, List, [], ◌∷◌, ◌++◌, ltb, arith, if◌then◌else◌, length, take, drop, Outcome, ok, err,
  >>=-eq-ok, ok-injective, Outcome-cases, All-drop, ◌>>=◌, take-append, drop-append, length-append,
  length-take, length-drop, take-append-drop, ltb→le, le→ltb,
}
use noise_ssu.Base.Bytes.{hi16, lo16, uint16, uint16_split, IsBytes}
use noise_ssu.Wire.Block.{
  Block, BlockError, prepend, validate, serialize, deserialize, deserialize_from,
  deserialize_blocks, serialize_each, serialize_blocks, enforce_block_order, order_blocks,
  max_block_length, insufficient_data,
}

-- The bytes of a block that passes the checks.
abbrev pub encoding : Block → List ℕ
encoding b = b.block_type ∷ hi16 (length b.bytes) ∷ lo16 (length b.bytes) ∷ b.bytes

validate-ok : (b : Block) → validate b ≡ ok tt → length b.bytes ≤ max_block_length
unfolding validate
validate-ok b h = ground arith

pub serialize-ok :
    (b : Block) {w : List ℕ}
    → serialize b ≡ ok w
    → (w ≡ encoding b) × (validate b ≡ ok tt) × (length b.bytes ≤ max_block_length)
unfolding serialize
serialize-ok b {w} h = go (validate b) refl h
  where
    go :
        (v : Outcome BlockError (Unit {0}))
        → validate b ≡ v
        → (v >>= λ _. ok (encoding b)) ≡ ok w
        → (w ≡ encoding b) × (validate b ≡ ok tt) × (length b.bytes ≤ max_block_length)
    go (ok tt) e k = (ground arith, e, validate-ok b e)
    go (err x) e k = cc

-- A serialised block is read back whole, whatever follows it, and exactly its bytes are consumed.
deserialize-serialize :
    (b : Block) {w : List ℕ} (rest : List ℕ)
    → serialize b ≡ ok w
    → deserialize (w ++ rest) ≡ ok (b, length w)
unfolding deserialize
deserialize-serialize b {w} rest h =
    let (e, v, n) = serialize-ok b h in
    let l = length b.bytes in
    let fits : ltb (length (b.bytes ++ rest)) l ≡ false =
      le→ltb _ _ (omega (arith, length-append b.bytes rest)) in
    rw (e, uint16_split l (omega arith), fits, take-append l b.bytes rest refl, v)
      (ap (λ k. ok (b, k)) (omega arith))

-- One round of `DeserializeBlocks`.
read_one :
    (b : Block) (y : List ℕ) (bs : List Block) (fuel : ℕ)
    → deserialize (encoding b ++ y) ≡ ok (b, length (encoding b))
    → deserialize_from fuel y ≡ some (ok bs)
    → deserialize_from (suc fuel) (encoding b ++ y) ≡ some (ok (b ∷ bs))
unfolding deserialize_from
read_one b y bs fuel h k =
    rw (h, deserialize_from) (rw (drop-append _ (encoding b) y refl, k, deserialize_from) refl)

serialize_each-cons :
    (b : Block) (bs : List Block) {w : List ℕ}
    → serialize_each (b ∷ bs) ≡ ok w
    → (y : List ℕ) × (w ≡ encoding b ++ y)
      × (serialize b ≡ ok (encoding b))
      × (serialize_each bs ≡ ok y)
unfolding serialize_each
serialize_each-cons b bs {w} h =
    let (x, hx, k) = >>=-eq-ok _ (serialize b) h in
    let (y, hy, hw) = >>=-eq-ok _ (serialize_each bs) k in
    let e = (serialize-ok b hx).0 in
    (y, sym (ok-injective hw) ∙ ap (λ z. z ++ y) e, hx ∙ ap ok e, hy)

deserialize_from-serialize_each :
    (bs : List Block) {w : List ℕ} (fuel : ℕ)
    → serialize_each bs ≡ ok w
    → length w ≤ fuel
    → deserialize_from fuel w ≡ some (ok bs)
unfolding serialize_each deserialize_from
deserialize_from-serialize_each [] {w} fuel h n = rw (← ok-injective h) refl
deserialize_from-serialize_each (b ∷ bs) {w} zero h n =
    let (y, e, _, _) = serialize_each-cons b bs h in absurd (omega (arith, ap length e, n))
deserialize_from-serialize_each (b ∷ bs) {w} (suc fuel) h n =
    let (y, e, hb, hy) = serialize_each-cons b bs h in
    let fits : length y ≤ fuel = omega (arith, ap length e, length-append (encoding b) y) in
    rw e (
      read_one b y bs fuel (deserialize-serialize b y hb)
        (deserialize_from-serialize_each bs fuel hy fits))

-- Where `SerializeBlocks` succeeds, `DeserializeBlocks` reads what it wrote back as the blocks in
-- wire order.
pub deserialize_blocks-serialize_blocks :
    (bs : List Block) {w : List ℕ}
    → serialize_blocks bs ≡ ok w
    → deserialize_blocks w ≡ some (ok (enforce_block_order bs))
unfolding serialize_blocks deserialize_blocks enforce_block_order order_blocks serialize_each
deserialize_blocks-serialize_blocks [] {w} h =
    deserialize_from-serialize_each [] (length w) h (omega arith)
deserialize_blocks-serialize_blocks (b ∷ bs) {w} h =
    deserialize_from-serialize_each _ (length w) h (omega arith)

deserialize-ok :
    (t hi lo : ℕ) (rest : List ℕ) {b : Block} {n : ℕ}
    → deserialize (t ∷ hi ∷ lo ∷ rest) ≡ ok (b, n)
    → (uint16 hi lo ≤ length rest)
      × (b ≡ record { block_type = t; bytes = take (uint16 hi lo) rest })
      × (n ≡ 3 + uint16 hi lo)
      × (validate b ≡ ok tt)
unfolding deserialize
deserialize-ok t hi lo rest {b} {n} e = go (ltb (length rest) k) (validate read) refl refl e
  where
    k : ℕ
    k = uint16 hi lo

    read : Block
    read = record { block_type = t; bytes = take k rest }

    go :
        (c : Bool) (v : Outcome BlockError (Unit {0}))
        → ltb (length rest) k ≡ c
        → validate read ≡ v
        → (if◌then◌else◌ {A = Outcome BlockError (Block × ℕ)} c
            (err insufficient_data)
            (v >>= λ _. ok (read, 3 + k)))
          ≡ ok (b, n)
        → (k ≤ length rest) × (b ≡ read) × (n ≡ 3 + k) × (validate b ≡ ok tt)
    go true v short hv x = cc
    go false (err y) enough hv x = cc
    go false (ok u) enough hv x =
        let p = ok-injective x in
        let same : read ≡ b = ap (λ (q : Block × ℕ). q.0) p in
        (
          ltb→le _ _ enough,
          sym same,
          sym (ap (λ (q : Block × ℕ). q.1) p),
          ap validate (sym same) ∙ hv,
        )

serialize_of_valid : (b : Block) → validate b ≡ ok tt → serialize b ≡ ok (encoding b)
unfolding serialize
serialize_of_valid b v = rw v refl

-- What is read from bytes below 256 was written so: it serialises to exactly the bytes consumed,
-- which are three at least and no more than there are.
serialize-deserialize :
    (d : List ℕ) {b : Block} {n : ℕ}
    → IsBytes d
    → deserialize d ≡ ok (b, n)
    → (serialize b ≡ ok (take n d)) × (3 ≤ n) × (n ≤ length d)
unfolding deserialize serialize
serialize-deserialize [] h e = cc
serialize-deserialize (x ∷ []) h e = cc
serialize-deserialize (x ∷ y ∷ []) h e = cc
serialize-deserialize (t ∷ hi ∷ lo ∷ rest) {b} {n} h e =
    let (fits, eb, en, v) = deserialize-ok t hi lo rest e in
    let k = uint16 hi lo in
    let d = t ∷ hi ∷ lo ∷ rest in
    let many : length (take k rest) ≡ k = omega (arith, length-take k rest, fits) in
    let enc : encoding (record { block_type = t; bytes = take k rest })
        ≡ t ∷ hi ∷ lo ∷ take k rest =
      ap₂ (λ x y. t ∷ x ∷ y ∷ take k rest) (omega (arith, many, h.1.0, h.1.1.0))
        (omega (arith, many, h.1.1.0)) in
    let three : suc (suc (suc k)) ≡ n = omega (arith, en) in
    (
      serialize_of_valid b v ∙ ap ok (ap encoding eb ∙ enc ∙ ap (λ m. take m d) three),
      omega (arith, en),
      omega (arith, en, fits),
    )

-- Reading always ends: the length of the data is fuel enough for `DeserializeBlocks`.
deserialize_from_total :
    (fuel : ℕ) (d : List ℕ)
    → IsBytes d
    → length d ≤ fuel
    → (r : Outcome BlockError (List Block)) × (deserialize_from fuel d ≡ some r)
unfolding deserialize_from
deserialize_from_total fuel [] h n = (ok [], refl)
deserialize_from_total zero (x ∷ xs) h n = absurd (omega arith)
deserialize_from_total (suc fuel) (x ∷ xs) h n = elim (Outcome-cases (deserialize (x ∷ xs))) [
  | inl ((b, k), e) ↦
      let (_, three, within) = serialize-deserialize (x ∷ xs) h e in
      let (r, hr) =
        deserialize_from_total fuel (drop k (x ∷ xs)) (All-drop _ k (x ∷ xs) h)
          (omega (arith, length-drop k (x ∷ xs))) in
      (prepend b r, rw (e, deserialize_from) (ap (Option.map (prepend b)) hr))
  | inr (y, e) ↦ (err y, rw (e, deserialize_from) refl)
]

-- `DeserializeBlocks` ends with blocks or an error on all bytes below 256: its fuel never runs out.
deserialize_blocks_total :
    (d : List ℕ)
    → IsBytes d
    → (r : Outcome BlockError (List Block)) × (deserialize_blocks d ≡ some r)
unfolding deserialize_blocks
deserialize_blocks_total d h = deserialize_from_total (length d) d h (omega arith)

some_ok-injective :
    {a b : List Block}
    → ◌≡◌ {A = Option (Outcome BlockError (List Block))} (some (ok a)) (some (ok b))
    → a ≡ b
some_ok-injective e = cc

some-prepend :
    (b : Block) (o : Option (Outcome BlockError (List Block))) {bs : List Block}
    → Option.map (prepend b) o ≡ some (ok bs)
    → (cs : List Block) × (o ≡ some (ok cs)) × (bs ≡ b ∷ cs)
some-prepend b none h = cc
some-prepend b (some (err e)) h = cc
some-prepend b (some (ok cs)) h = (cs, refl, sym (some_ok-injective h))

-- Bytes that `DeserializeBlocks` accepts are the serialised form of the blocks that it returns.
serialize_each-deserialize_from :
    (fuel : ℕ) (d : List ℕ) {bs : List Block}
    → IsBytes d
    → deserialize_from fuel d ≡ some (ok bs)
    → serialize_each bs ≡ ok d
unfolding deserialize_from serialize_each
serialize_each-deserialize_from fuel [] {bs} h e = ap serialize_each (sym (some_ok-injective e))
serialize_each-deserialize_from zero (x ∷ xs) h e = cc
serialize_each-deserialize_from (suc fuel) (x ∷ xs) {bs} h e =
    elim (Outcome-cases (deserialize (x ∷ xs))) [
      | inl ((b, k), r) ↦
          let (first, _, _) = serialize-deserialize (x ∷ xs) h r in
          let (cs, later, eb) = some-prepend b _ (rw (r, deserialize_from) at e) in
          let rest =
            serialize_each-deserialize_from fuel (drop k (x ∷ xs)) (All-drop _ k (x ∷ xs) h)
              later in
          rw (eb, first, rest) (ap ok (take-append-drop k (x ∷ xs)))
      | inr (y, r) ↦ let bad = rw (r, deserialize_from) at e in cc
    ]

-- Bytes that `DeserializeBlocks` accepts are the serialised form, in order, of the blocks that it
-- returns: no two byte strings are read as the same blocks.
serialize_each-deserialize_blocks :
    (d : List ℕ) {bs : List Block}
    → IsBytes d
    → deserialize_blocks d ≡ some (ok bs)
    → serialize_each bs ≡ ok d
unfolding deserialize_blocks
serialize_each-deserialize_blocks d h e = serialize_each-deserialize_from (length d) d h e
