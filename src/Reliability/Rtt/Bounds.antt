-- ===== src/Reliability/Rtt/Bounds.antt =====
-- Bounds on the timeout, and on the estimates by the samples that were taken.
use noise_ssu.Base.{
  ℕ, zero, suc, ◌≤◌, ◌<◌, ◌≡◌, refl, ◌+◌, ◌-◌, ◌*◌, ◌/◌, true, min, List, [], ◌∷◌, All, arith, ap,
  ◌∙◌,
}
use noise_ssu.Reliability.Rtt.{
  RttEstimator, round_from, nearest, to_float, weigh, update, get_rto, new_rtt_estimator, min_rto,
  max_rto,
}

-- The timeout lies between one second and one minute, whatever was measured.
pub get_rto_bounds : (r : RttEstimator) → (min_rto ≤ get_rto r) × (get_rto r ≤ max_rto)
unfolding get_rto
get_rto_bounds r = ground arith

-- The samples in turn.
abbrev pub updates : List ℕ → RttEstimator → RttEstimator
updates [] r = r
updates (s ∷ ss) r = updates ss (update s r)

abbrev pub minimum : ℕ → List ℕ → ℕ
minimum m [] = m
minimum m (s ∷ ss) = minimum (min m s) ss

pub record IsWithin (lo hi : ℕ) (r : RttEstimator) : Type 0 where
  pub started : r.initialized ≡ true
  pub smoothed_lo : lo ≤ r.smoothed_rtt
  pub smoothed_hi : r.smoothed_rtt ≤ hi
  pub variance_hi : r.rtt_variance ≤ hi

-- 2^50 ns.
abbrev longest : ℕ
longest = 0x4_0000_0000_0000

abbrev pub InRange : ℕ → ℕ → ℕ → Type 0
InRange lo hi s = (0 < s) × (lo ≤ s) × (s ≤ hi)

abbrev float_exact : ℕ
float_exact = 0x20_0000_0000_0000

nearest-one : (n : ℕ) → nearest 1 n ≡ n
unfolding nearest
nearest-one n = ground arith

round_from-one : (fuel n : ℕ) → n < float_exact → round_from fuel 1 n ≡ n
unfolding round_from
round_from-one zero n h = nearest-one n
round_from-one (suc fuel) n h = ground (arith, nearest-one n)

-- A number below 2^53 is not rounded.
to_float_exact : (n : ℕ) → n < float_exact → to_float n ≡ n
to_float_exact n h = round_from-one 16 n h

weigh_exact :
    (k a b : ℕ) → a < float_exact → a * k + b < float_exact → weigh k a b ≡ (a * k + b) / (k + 1)
unfolding weigh
weigh_exact k a b small h =
    rw
      (
        to_float_exact a small,
        to_float_exact (a * k) (omega arith),
        to_float_exact b (omega arith),
        to_float_exact (a * k + b) h,
      )
      refl

update-IsWithin :
    (lo hi s : ℕ) (r : RttEstimator)
    → hi < longest
    → InRange lo hi s
    → IsWithin lo hi r
    → IsWithin lo hi (update s r)
unfolding update
update-IsWithin lo hi s r short h v = ground (
  arith,
  v.started,
  weigh_exact 7 r.smoothed_rtt s (omega (arith, v.smoothed_hi, short))
      (omega (arith, v.smoothed_hi, short, h)),
  weigh_exact 3 r.rtt_variance (s - r.smoothed_rtt) (omega (arith, v.variance_hi, short))
      (omega (arith, v.variance_hi, short, h)),
  weigh_exact 3 r.rtt_variance (r.smoothed_rtt - s) (omega (arith, v.variance_hi, short))
      (omega (arith, v.variance_hi, v.smoothed_hi, short, h)),
)

updates-IsWithin :
    (lo hi : ℕ) (ss : List ℕ) (r : RttEstimator)
    → hi < longest
    → All (InRange lo hi) ss
    → IsWithin lo hi r
    → IsWithin lo hi (updates ss r)
updates-IsWithin lo hi [] r short h v = v
updates-IsWithin lo hi (s ∷ ss) r short h v =
    updates-IsWithin lo hi ss (update s r) short h.1 (update-IsWithin lo hi s r short h.0 v)

-- After one sample or more, all positive and between two bounds, of which the upper one is below 2^50
-- ns (13 days), the smoothed time lies between those bounds, and the variance is at most the upper one.
pub new-updates-IsWithin :
    (lo hi s : ℕ) (ss : List ℕ)
    → hi < longest
    → All (InRange lo hi) (s ∷ ss)
    → IsWithin lo hi (updates (s ∷ ss) new_rtt_estimator)
unfolding update new_rtt_estimator
new-updates-IsWithin lo hi s ss short h =
    updates-IsWithin lo hi ss (update s new_rtt_estimator) short h.1 first
  where
    first : IsWithin lo hi (update s new_rtt_estimator)
    first = ground (arith, h.0)

update-min :
    (s : ℕ) (r : RttEstimator)
    → 0 < s
    → r.initialized ≡ true
    → ((update s r).min_rtt ≡ min r.min_rtt s) × ((update s r).initialized ≡ true)
unfolding update
update-min s r h i = ground arith

min_rtt-updates :
    (ss : List ℕ) (r : RttEstimator)
    → All (λ s. 0 < s) ss
    → r.initialized ≡ true
    → (updates ss r).min_rtt ≡ minimum r.min_rtt ss
min_rtt-updates [] r h i = refl
min_rtt-updates (s ∷ ss) r h i =
    let (m, j) = update-min s r h.0 i in
    min_rtt-updates ss (update s r) h.1 j ∙ ap (λ k. minimum k ss) m

first_sample :
    (s : ℕ)
    → 0 < s
    → ((update s new_rtt_estimator).min_rtt ≡ s) × ((update s new_rtt_estimator).initialized ≡ true)
unfolding update new_rtt_estimator
first_sample s h = ground arith

-- The minimum that the estimator keeps after one sample or more, all positive, is the least of the
-- samples.
min_rtt-new :
    (s : ℕ) (ss : List ℕ)
    → All (λ x. 0 < x) (s ∷ ss)
    → (updates (s ∷ ss) new_rtt_estimator).min_rtt ≡ minimum s ss
min_rtt-new s ss h =
    let (m, i) = first_sample s h.0 in
    min_rtt-updates ss (update s new_rtt_estimator) h.1 i ∙ ap (λ k. minimum k ss) m
