-- ===== src/Reliability/Congestion/Signals.antt =====
-- What losses, ECN marks, timeouts and persistent congestion do to the congestion controller, in
-- ssu2/reliability/congestion_control.go.
use noise_ssu.Base.{
  ℕ, ◌-◌, ◌*◌, Bool, true, false, ◌&&◌, ◌||◌, Option, none, some, ltb, if◌then◌else◌,
}
use noise_ssu.Base.I64.{is_negative, ltb64, half64}
use noise_ssu.Reliability.Rtt.{RttEstimator, get_smoothed_rtt, get_min_rtt, get_rto, second}
use noise_ssu.Reliability.Congestion.{
  Float, Controller, CongestionState, slow_start, congestion_avoidance, recovery,
  min_congestion_window, persistent_congestion_multiplier,
}

module _ (fl : Float) where
  open fl use {F, is_positive, window}

  unfoldable pub half_window : Controller F → ℕ
  half_window ctl =
      if ltb64 (half64 ctl.cwnd) min_congestion_window
      then min_congestion_window
      else half64 ctl.cwnd

  -- `bwWindow` of a positive minimal round-trip time, bounded.
  unfoldable pub bounded_window : ℕ → Controller F → ℕ
  bounded_window bw_window ctl =
      if ltb bw_window min_congestion_window
      then min_congestion_window
      else if is_negative ctl.cwnd || ltb ctl.cwnd bw_window
      then ctl.cwnd
      else bw_window

  abbrev pub with_estimator : Option RttEstimator → Controller F → ℕ
  with_estimator none ctl = half_window ctl
  with_estimator (some rtt) ctl =
      if ltb 0 (get_min_rtt rtt)
      then bounded_window (window ctl.bandwidth_estimate (get_min_rtt rtt)) ctl
      else half_window ctl

  unfoldable pub westwood_ssthresh : Controller F → ℕ
  unfolding half_window bounded_window
  westwood_ssthresh ctl =
      if is_positive ctl.bandwidth_estimate
      then with_estimator ctl.rtt_estimator ctl
      else half_window ctl

  -- The test that ends `handleCongestionEvent` early: the epoch is younger than the smoothed time.
  unfoldable pub is_coalesced : ℕ → Option ℕ → Option RttEstimator → Bool
  is_coalesced now none rtt = false
  is_coalesced now (some start) none = false
  is_coalesced now (some start) (some rtt) =
      ltb 0 (get_smoothed_rtt rtt) && ltb (now - start) (get_smoothed_rtt rtt)

  abbrev pub in_recovery : CongestionState → Bool
  in_recovery recovery = true
  in_recovery slow_start = false
  in_recovery congestion_avoidance = false

  unfoldable pub handle_congestion_event : CongestionState → ℕ → Controller F → Controller F
  handle_congestion_event target now ctl =
      if in_recovery ctl.state
      then ctl
      else if is_coalesced now ctl.congestion_epoch_start ctl.rtt_estimator
      then ctl
      else record ctl {
        congestion_epoch_start = some now;
        ssthresh = westwood_ssthresh ctl;
        cwnd = westwood_ssthresh ctl;
        state = target;
        bytes_acked = 0;
      }

  abbrev pub on_packet_loss : ℕ → Controller F → Controller F
  on_packet_loss now ctl = handle_congestion_event recovery now ctl

  abbrev pub on_ecn : ℕ → Controller F → Controller F
  on_ecn now ctl = handle_congestion_event congestion_avoidance now ctl

  unfoldable pub on_retransmission_timeout : Controller F → Controller F
  on_retransmission_timeout ctl = record ctl {
    ssthresh = westwood_ssthresh ctl;
    cwnd = min_congestion_window;
    bytes_in_flight = 0;
    state = slow_start;
    bytes_acked = 0;
  }

  unfoldable pub exit_recovery : Controller F → Controller F
  exit_recovery ctl =
      if in_recovery ctl.state
      then record ctl { state = congestion_avoidance; bytes_acked = 0 }
      else ctl

  unfoldable pub persistent_congestion_threshold : Option RttEstimator → ℕ
  persistent_congestion_threshold none = 3 * second
  persistent_congestion_threshold (some rtt) = persistent_congestion_multiplier * get_rto rtt

  unfoldable pub on_persistent_congestion : Controller F → Controller F
  on_persistent_congestion ctl = record ctl {
    cwnd = 2 * min_congestion_window;
    ssthresh = 2 * min_congestion_window;
    bytes_in_flight = 0;
    bytes_acked = 0;
    state = slow_start;
  }

  -- The distance between two times, whichever is first.
  abbrev pub span : ℕ → ℕ → ℕ
  span earliest latest = if ltb latest earliest then earliest - latest else latest - earliest

  unfoldable pub detect_persistent_congestion :
      Option ℕ → Option ℕ → Bool → Controller F → Bool × Controller F
  detect_persistent_congestion earliest latest true ctl = (false, ctl)
  detect_persistent_congestion none latest false ctl = (false, ctl)
  detect_persistent_congestion (some earliest) none false ctl = (false, ctl)
  detect_persistent_congestion (some earliest) (some latest) false ctl =
      if ltb (persistent_congestion_threshold ctl.rtt_estimator) (span earliest latest)
      then (true, on_persistent_congestion ctl)
      else (false, ctl)
