-- ===== src/Ratchet/Builder/Order.antt =====
-- The order that `validate` asks of the blocks of a payload.
use noise_ssu.Base.{
  ℕ, suc, ◌<◌, ◌+◌, ◌-◌, ◌≤◌, ◌≡◌, ◌≢◌, refl, sym, ◌∙◌, ap, Option, none, some, List, [], ◌∷◌, ◌==◌,
  ==→eq, ==→ne, Bool-cases, inl, inr, ◌⊎◌, arith, length, ok, All, >>=-eq-ok, ok-injective,
}
use noise_ssu.Ratchet.Payload.{PayloadBlock}
use noise_ssu.Ratchet.Builder.{OrderScan, scan_block, scan_blocks, check_order, validate, build}

-- What one round of the loop does.
scan_block-ok :
    (i : ℕ) (b : PayloadBlock) (s : OrderScan) {s' : OrderScan}
    → scan_block i b s ≡ ok s'
    → (b.block_type ≢ 5)
      × (b.block_type ≡ 254 → (s'.padding_idx ≡ some i) × (1 ≤ s'.padding_count))
      × (1 ≤ s.padding_count → (s'.padding_idx ≡ s.padding_idx) × (1 ≤ s'.padding_count))
unfolding scan_block
scan_block-ok i b s {s'} h = grind arith

-- How one round changes the two places that it keeps.
scan_block-places :
    (i : ℕ) (b : PayloadBlock) (s : OrderScan) {s' : OrderScan}
    → scan_block i b s ≡ ok s'
    → (b.block_type ≡ 4 → s'.termination_idx ≡ some i)
      × (b.block_type ≢ 4 → s'.termination_idx ≡ s.termination_idx)
      × (b.block_type ≢ 254 → s'.padding_idx ≡ s.padding_idx)
unfolding scan_block
scan_block-places i b s {s'} h = grind arith

is_padding : (b : PayloadBlock) → (b.block_type ≡ 254) ⊎ (b.block_type ≢ 254)
is_padding b = elim (Bool-cases (b.block_type == 254)) [
  | inl same ↦ inl (==→eq _ _ same)
  | inr other ↦ inr (==→ne _ _ other)
]

abbrev IsBefore : ℕ → Option ℕ → Type 0
IsBefore i none = Unit {0}
IsBefore i (some p) = p < i

scan_block-IsBefore :
    (i : ℕ) (b : PayloadBlock) (s : OrderScan) {s' : OrderScan}
    → scan_block i b s ≡ ok s'
    → IsBefore i s.padding_idx
    → IsBefore (suc i) s'.padding_idx
scan_block-IsBefore i b s {s'} h before = elim (is_padding b) [
  | inl pad ↦ let (at_i, _) = (scan_block-ok i b s h).1 pad in rw at_i (omega arith)
  | inr other ↦ rw ((scan_block-places i b s h).2 other) (later s.padding_idx before)
]
  where
    later : (o : Option ℕ) → IsBefore i o → IsBefore (suc i) o
    later none h = tt
    later (some p) h = omega arith

-- Padding that the loop has met stays the last padding that it knows of.
scan_blocks-padding :
    (bs : List PayloadBlock) (i : ℕ) (s : OrderScan) {s' : OrderScan}
    → scan_blocks bs i s ≡ ok s'
    → 1 ≤ s.padding_count
    → s'.padding_idx ≡ s.padding_idx
unfolding scan_blocks
scan_blocks-padding [] i s h met = cc
scan_blocks-padding (b ∷ bs) i s h met =
    let (s1, first, later) = >>=-eq-ok _ (scan_block i b s) h in
    let (same, met1) = (scan_block-ok i b s first).2 met in
    scan_blocks-padding bs (suc i) s1 later met1 ∙ same

check_order-padding :
    (count p : ℕ) (t : Option ℕ) → check_order count t (some p) ≡ ok tt → p ≡ count - 1
unfolding check_order
check_order-padding count p none h = grind arith
check_order-padding count p (some t) h = grind arith

abbrev IsOther : PayloadBlock → Type 0
IsOther b = b.block_type ≢ 4

abbrev IsPadding : PayloadBlock → Type 0
IsPadding b = b.block_type ≡ 254

-- A termination is forgotten only for a later one.
scan_blocks-termination :
    (bs : List PayloadBlock) (i : ℕ) (s : OrderScan) {s' : OrderScan}
    → scan_blocks bs i s ≡ ok s'
    → All IsOther bs
    → s'.termination_idx ≡ s.termination_idx
unfolding scan_blocks
scan_blocks-termination [] i s h others = cc
scan_blocks-termination (b ∷ bs) i s h others =
    let (s1, first, later) = >>=-eq-ok _ (scan_block i b s) h in
    scan_blocks-termination bs (suc i) s1 later others.1
    ∙ (scan_block-places i b s first).1 others.0

-- The order of an accepted payload: no block is an options block, nothing follows a padding block,
-- and after the last termination there is only padding.
abbrev pub IsOrdered : List PayloadBlock → Type 0
IsOrdered [] = Unit {0}
IsOrdered (b ∷ bs) =
    (b.block_type ≢ 5)
    × (b.block_type ≡ 254 → bs ≡ [])
    × (b.block_type ≡ 4 → All IsOther bs → All IsPadding bs)
    × IsOrdered bs

nil_of_length : (bs : List PayloadBlock) → length bs ≡ 0 → bs ≡ []
nil_of_length [] h = refl
nil_of_length (b ∷ bs) h = absurd (omega arith)

check_order-termination : (count i : ℕ) → check_order count (some i) none ≡ ok tt → i ≡ count - 1
unfolding check_order
check_order-termination count i h = grind arith

check_order-both :
    (count i p : ℕ)
    → check_order count (some i) (some p) ≡ ok tt
    → (p ≡ count - 1) × (i ≡ count - 2)
unfolding check_order
check_order-both count i p h = grind arith

-- What follows the last termination.
after_termination :
    (bs : List PayloadBlock) (i count : ℕ) (s : OrderScan) {s' : OrderScan} (pad : Option ℕ)
    → scan_blocks bs (suc i) s ≡ ok s'
    → s'.padding_idx ≡ pad
    → check_order count (some i) pad ≡ ok tt
    → count ≡ i + suc (length bs)
    → IsBefore (suc i) s.padding_idx
    → All IsPadding bs
unfolding scan_blocks
after_termination [] i count s pad h e c n before = tt
after_termination (b ∷ bs) i count s none h e c n before =
    absurd (omega (arith, check_order-termination count i c, n))
after_termination (b ∷ x ∷ bs) i count s (some p) h e c n before =
    absurd (omega (arith, check_order-both count i p c, n))
after_termination (b ∷ []) i count s (some p) h e c n before = elim (is_padding b) [
  | inl pad ↦ (pad, tt)
  | inr other ↦
      let (s1, first, later) = >>=-eq-ok _ (scan_block (suc i) b s) h in
      let same : s1.padding_idx ≡ s.padding_idx = (scan_block-places (suc i) b s first).2 other in
      let at_p : s.padding_idx ≡ some p =
        sym same ∙ ap (λ (r : OrderScan). r.padding_idx) (ok-injective later) ∙ e in
      let early : p < suc i = rw at_p at before in
      absurd (omega (arith, check_order-both count i p c, n, early))
]

scan_blocks-IsOrdered :
    (bs : List PayloadBlock) (i count : ℕ) (s : OrderScan) {s' : OrderScan}
    → scan_blocks bs i s ≡ ok s'
    → check_order count s'.termination_idx s'.padding_idx ≡ ok tt
    → count ≡ i + length bs
    → IsBefore i s.padding_idx
    → IsOrdered bs
unfolding scan_blocks
scan_blocks-IsOrdered [] i count s h c n before = tt
scan_blocks-IsOrdered (b ∷ bs) i count s {s'} h c n before =
    let (s1, first, later) = >>=-eq-ok _ (scan_block i b s) h in
    let (plain, pads, _) = scan_block-ok i b s first in
    let before1 = scan_block-IsBefore i b s first before in
    (
      plain,
      λ pad.
          let (at_i, met) = pads pad in
          let known = scan_blocks-padding bs (suc i) s1 later met ∙ at_i in
          let last = check_order-padding count i s'.termination_idx (rw known at c) in
          nil_of_length bs (omega (arith, last, n)),
      λ term others.
          let known =
            scan_blocks-termination bs (suc i) s1 later others
            ∙ (scan_block-places i b s first).0 term in
          after_termination bs i count s1 s'.padding_idx later refl (rw known at c) n before1,
      scan_blocks-IsOrdered bs (suc i) count s1 later c (omega (arith, n)) before1,
    )

-- `Build` returns a payload only of blocks in this order: none of them is an options block, nothing
-- follows a padding block, and after the last termination block there is only padding.
pub build-IsOrdered : (bs : List PayloadBlock) {w : List ℕ} → build bs ≡ ok w → IsOrdered bs
unfolding build validate
build-IsOrdered [] h = tt
build-IsOrdered (b ∷ bs) h =
    let (u, valid, _) = >>=-eq-ok _ (validate (b ∷ bs)) h in
    let (s, scanned, checked) = >>=-eq-ok _ (scan_blocks (b ∷ bs) 0 _) valid in
    scan_blocks-IsOrdered (b ∷ bs) 0 _ _ scanned checked (omega arith) tt
