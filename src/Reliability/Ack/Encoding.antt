-- ===== src/Reliability/Ack/Encoding.antt =====
-- What the runs and gaps of a falling list have to be for one ACK block to hold them.
use noise_ssu.Base.{
  ℕ, suc, ◌+◌, ◌-◌, ◌≤◌, ◌<◌, ◌≡◌, refl, ◌∙◌, ap, ap₂, Bool, true, false, ◌&&◌, List, [], ◌∷◌, ◌++◌,
  arith, ltb, leb, ◌==◌, if◌then◌else◌, Bool-cases, inl, inr, length,
}
use noise_ssu.Base.U32.{IsU32, sub32}
use noise_ssu.Reliability.Ack.{split_run}
use noise_ssu.Reliability.Ack.Reader.{first_run}
use noise_ssu.Reliability.Ack.Sorting.{Below}

-- No run of consecutive numbers is longer than 256 and no gap is wider; `k` counts the run so far.
abbrev pub fits : ℕ → ℕ → List ℕ → Bool
fits k prev [] = true
fits k prev (x ∷ xs) =
    if (x + 1) == prev then ltb k 256 && fits (k + 1) x xs else leb (prev - x) 257 && fits 1 x xs

-- How many gaps a list has.
abbrev pub gaps : ℕ → List ℕ → ℕ
gaps prev [] = 0
gaps prev (x ∷ xs) = if (x + 1) == prev then gaps x xs else suc (gaps x xs)

-- The list does not carry on from `prev` without a gap.
abbrev pub Stops : ℕ → List ℕ → Type 0
Stops prev [] = Unit
Stops prev (x ∷ xs) = x + 1 < prev

pub record Split (k prev : ℕ) (xs : List ℕ) (out : ℕ × ℕ × List ℕ) : Type 0 where
  pub whole : xs ≡ first_run out.0 (prev - 1) ++ out.2
  pub last_eq : out.1 + out.0 ≡ prev
  pub below : Below out.1 out.2
  pub stops : Stops out.1 out.2
  pub short : k + out.0 ≤ 256
  pub fit : fits (k + out.0) out.1 out.2 ≡ true
  pub same_gaps : gaps out.1 out.2 ≡ gaps prev xs
  pub shorter : length out.2 ≤ length xs

-- `split_run` cuts off the first run, and what is left starts after a gap.
pub split_run-Split :
    (k prev : ℕ) (xs : List ℕ)
    → IsU32 prev
    → k ≤ 256
    → Below prev xs
    → fits k prev xs ≡ true
    → Split k prev xs (split_run prev xs)
unfolding split_run first_run
split_run-Split k prev [] u s b f = record {
  whole = refl;
  last_eq = omega arith;
  below = tt;
  stops = tt;
  short = omega arith;
  fit = refl;
  same_gaps = refl;
  shorter = omega arith;
}
split_run-Split k prev (x ∷ xs) u s b f = elim (Bool-cases ((x + 1) == prev)) [
  | inl next ↦
      let same : (x == sub32 prev 1) ≡ true = ground (arith, next, b.0) in
      let one : x ≡ prev - 1 = ground (arith, next) in
      let room : k < 256 = ground (arith, f, next) in
      let later : fits (k + 1) x xs ≡ true = ground (arith, f, next) in
      let ih = split_run-Split (k + 1) x xs (omega arith) (omega arith) b.1 later in
      let (n, last, rest) = split_run x xs in
      rw same (record {
        whole = ap₂ ◌∷◌ one (ih.whole ∙ ap (λ m. first_run n (m - 1) ++ rest) one);
        last_eq = omega (arith, ih.last_eq, one);
        below = ih.below;
        stops = ih.stops;
        short = omega (arith, ih.short);
        fit = ap (λ m. fits m last rest) (omega arith) ∙ ih.fit;
        same_gaps = ih.same_gaps ∙ rw next refl;
        shorter = omega (arith, ih.shorter);
      })
  | inr gap ↦
      let other : (x == sub32 prev 1) ≡ false = ground (arith, gap, b.0) in
      rw other (record {
        whole = refl;
        last_eq = omega arith;
        below = b;
        stops = ground (arith, gap, b.0);
        short = omega arith;
        fit = ap (λ m. fits m prev (x ∷ xs)) (omega arith) ∙ f;
        same_gaps = refl;
        shorter = omega arith;
      })
]
