-- ===== src/Reliability/Rtt.antt =====
-- ssu2/reliability/rtt_estimator.go: the smoothed round-trip time and the timeout from it.
-- Durations are counts of nanoseconds. The code mixes float64 in: every conversion, product and sum
-- rounds to 53 binary digits, as it does here, with no multiplication fused with an addition. The weights
-- 0.75, 0.25, 0.875 and 0.125 are exact, so the numbers here are those of the code times 4 or 8, and a
-- conversion back, which truncates, divides by that. A sample is at most 2^62 ns (146 years), so no sum
-- of two is over the largest Duration.
pub mod Bounds
mod Tests
use noise_ssu.Base.{
  ℕ, ◌+◌, ◌-◌, ◌*◌, ◌/◌, ◌%◌, zero, suc, ◌||◌, ◌&&◌, Bool, true, false, ltb, ◌==◌, if◌then◌else◌,
  min, List, [], ◌∷◌,
}
use noise_ssu.Base.I64.{add64, is_negative}

pub record RttEstimator : Type 0 where
  pub smoothed_rtt : ℕ
  pub rtt_variance : ℕ
  pub min_rtt : ℕ
  pub initialized : Bool

abbrev pub millisecond : ℕ
millisecond = 1_000_000

abbrev pub second : ℕ
second = 1_000_000_000

abbrev pub clock_granularity : ℕ
clock_granularity = millisecond

abbrev pub initial_rto : ℕ
initial_rto = second

abbrev pub min_rto : ℕ
min_rto = second

abbrev pub max_rto : ℕ
max_rto = 60_000_000_000

pub new_rtt_estimator : RttEstimator
new_rtt_estimator = record { smoothed_rtt = 0; rtt_variance = 0; min_rtt = 0; initialized = false }

-- The multiple of `u` next to `n`; of two as near, the one that is an even number of times `u`.
pub nearest : ℕ → ℕ → ℕ
nearest u n =
    let q = n / u in
    let r = n % u in if ltb u (2 * r) || (2 * r == u && q % 2 == 1) then (q + 1) * u else q * u

-- `n` rounded to 53 binary digits, where `u` is the unit of their last; one unit of fuel for each
-- doubling of it.
pub round_from : ℕ → ℕ → ℕ → ℕ
round_from zero u n = nearest u n
round_from (suc fuel) u n =
    let coarser = round_from fuel (2 * u) n in
    if ltb n (0x20_0000_0000_0000 * u) then nearest u n else coarser

-- `float64(n)`, for an `n` below 2^69.
abbrev pub to_float : ℕ → ℕ
to_float n = round_from 16 1 n

-- `time.Duration(float64(a)*(k/(k+1)) + float64(b)*(1/(k+1)))`, where `k + 1` is a power of 2.
pub weigh : ℕ → ℕ → ℕ → ℕ
weigh k a b = to_float (to_float (to_float a * k) + to_float b) / (k + 1)

-- A sample of 0 stands for every one that is not positive.
pub update : ℕ → RttEstimator → RttEstimator
update sample r =
    if sample == 0
    then r
    else if r.initialized
    then (let diff =
          if ltb r.smoothed_rtt sample then sample - r.smoothed_rtt else r.smoothed_rtt - sample in
        record r {
          rtt_variance = weigh 3 r.rtt_variance diff;
          smoothed_rtt = weigh 7 r.smoothed_rtt sample;
          min_rtt = if ltb sample r.min_rtt then sample else r.min_rtt;
        })
    else record {
      smoothed_rtt = sample;
      rtt_variance = sample / 2;
      min_rtt = sample;
      initialized = true;
    }

-- `variance` is the clamped 4 * RTTVAR of `GetRTO`. A float64 over the largest Duration is converted to
-- the least, as on amd64.
pub variance_term : RttEstimator → ℕ
variance_term r =
    let variance = 4 * to_float r.rtt_variance in
    if is_negative variance || ltb variance clock_granularity then clock_granularity else variance

unfoldable pub get_rto : RttEstimator → ℕ
unfolding variance_term
get_rto r =
    if r.initialized
    then (let rto = add64 r.smoothed_rtt (variance_term r) in
        if is_negative rto || ltb rto min_rto
        then min_rto
        else if ltb max_rto rto
        then max_rto
        else rto)
    else initial_rto

unfoldable pub get_smoothed_rtt : RttEstimator → ℕ
get_smoothed_rtt r = r.smoothed_rtt

pub get_rtt_variance : RttEstimator → ℕ
get_rtt_variance r = r.rtt_variance

unfoldable pub get_min_rtt : RttEstimator → ℕ
get_min_rtt r = r.min_rtt

pub is_initialized : RttEstimator → Bool
is_initialized r = r.initialized

pub reset : RttEstimator → RttEstimator
reset r = record { smoothed_rtt = 0; rtt_variance = 0; min_rtt = 0; initialized = false }
