-- ===== src/Reliability/Congestion/Tests.antt =====
-- Runs of the controller, and its theorems at concrete inputs, with integers for the floats.
use noise_ssu.Base.{ℕ, ◌+◌, ◌*◌, ◌/◌, ◌≡◌, refl, ltb, ◌==◌, [], ◌∷◌, some, none, true, arith}
use noise_ssu.Reliability.Rtt.{RttEstimator, second, get_min_rtt}
use noise_ssu.Reliability.Congestion.{
  Float, Controller, recovery, congestion_avoidance, new_with_mtu,
}
use noise_ssu.Reliability.Congestion.Signals.{
  westwood_ssthresh, handle_congestion_event, is_coalesced,
}
use noise_ssu.Reliability.Congestion.Bounds.{IsValid}
use noise_ssu.Reliability.Congestion.Events.{sent, acked, loss, timeout, run, run-new-IsValid}

abbrev whole : Float
whole = record {
  F = ℕ;
  zero_estimate = 0;
  is_zero = λ e. e == 0;
  is_positive = λ e. ltb 0 e;
  sample = λ b dt. b * second / dt;
  smooth = λ old s. (7 * old + s) / 8;
  window = λ e t. e * t / second;
}

abbrev rtt : RttEstimator
rtt = record {
  smoothed_rtt = 100_000_000;
  rtt_variance = 0;
  min_rtt = 100_000_000;
  initialized = true;
}

abbrev busy : Controller ℕ
busy = record {
  cwnd = 8000;
  ssthresh = 8000;
  state = congestion_avoidance;
  bytes_acked = 100;
  rtt_estimator = some rtt;
  bytes_in_flight = 3000;
  bandwidth_estimate = 20_000;
  last_ack_time = some 5;
  congestion_epoch_start = none;
  mtu = 1472;
}

loss_run : (handle_congestion_event whole recovery 50 busy).cwnd ≡ 2000
unfolding handle_congestion_event westwood_ssthresh is_coalesced get_min_rtt
loss_run = refl

run-new-IsValid_example : IsValid whole (
    run whole
      (sent 1400 ∷ acked 1400 9 ∷ loss 10 ∷ timeout ∷ [])
      (new_with_mtu whole (some rtt) 1452))
run-new-IsValid_example =
    run-new-IsValid whole (some rtt) 1452 (sent 1400 ∷ acked 1400 9 ∷ loss 10 ∷ timeout ∷ [])
      (omega arith) (omega arith) (omega arith)
