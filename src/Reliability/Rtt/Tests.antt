-- ===== src/Reliability/Rtt/Tests.antt =====
-- Runs of the estimator, and its theorems at concrete inputs.
use noise_ssu.Base.{◌≡◌, refl, [], ◌∷◌, arith}
use noise_ssu.Reliability.Rtt.{
  update, get_rto, new_rtt_estimator, round_from, nearest, weigh, to_float,
}
use noise_ssu.Reliability.Rtt.Bounds.{updates, IsWithin, new-updates-IsWithin}

slow_peer : get_rto (update 2_000_000_000 new_rtt_estimator) ≡ 6_000_000_000
unfolding get_rto update new_rtt_estimator round_from nearest
slow_peer = refl

smoothing : (update 200 (update 100 new_rtt_estimator)).smoothed_rtt ≡ 112
unfolding update new_rtt_estimator weigh round_from nearest
smoothing = refl

-- From 2^53 on an odd number is rounded: 2^53 + 1 twice is smoothed to 2^53.
rounded_down :
    (update 9_007_199_254_740_993 (update 9_007_199_254_740_993 new_rtt_estimator)).smoothed_rtt
    ≡ 9_007_199_254_740_992
unfolding update new_rtt_estimator weigh round_from nearest
rounded_down = refl

rounded_up : to_float 9_007_199_254_740_995 ≡ 9_007_199_254_740_996
unfolding round_from nearest
rounded_up = refl

new-updates-IsWithin_example : IsWithin 90 120 (updates (100 ∷ 90 ∷ 120 ∷ []) new_rtt_estimator)
new-updates-IsWithin_example =
    new-updates-IsWithin 90 120 100 (90 ∷ 120 ∷ []) (omega arith) (omega arith)
