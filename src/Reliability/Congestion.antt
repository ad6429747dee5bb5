-- ===== src/Reliability/Congestion.antt =====
-- ssu2/reliability/congestion_control.go: the Westwood+ congestion window.
-- A method is a function on the controller; the time that it reads is an argument. Byte counts are ints
-- of 64 bits, in two's complement as Base.I64 has them, and wrap; an argument is below 2^63, where 0
-- stands for every one that is not positive.
pub mod Signals
pub mod Bounds
pub mod Events
mod Tests
use noise_ssu.Base.{
  ℕ, ◌+◌, ◌-◌, ◌*◌, ◌/◌, ◌%◌, ◌≡◌, Bool, true, false, ◌&&◌, Option, none, some, ltb, leb, ◌==◌,
  if◌then◌else◌, Outcome, ok, err, List, [], ◌∷◌, length,
}
use noise_ssu.Base.I64.{add64, sub64, is_negative, ltb64, leb64, half64, i64_mod}
use noise_ssu.Reliability.Rtt.{RttEstimator, get_smoothed_rtt, get_min_rtt, get_rto, second}
use noise_ssu.Wire.Block.{Block, congestion, new_ssu2_block}

abbrev pub min_congestion_window : ℕ
min_congestion_window = 1280

abbrev pub max_packet_size_ipv4 : ℕ
max_packet_size_ipv4 = 1472

abbrev pub initial_congestion_window : ℕ
initial_congestion_window = max_packet_size_ipv4 * 3

abbrev pub max_congestion_window : ℕ
max_congestion_window = 1_048_576

abbrev pub initial_slow_start_threshold : ℕ
initial_slow_start_threshold = max_congestion_window

abbrev pub persistent_congestion_multiplier : ℕ
persistent_congestion_multiplier = 3

pub data CongestionError : Type 0 where
  nil_block invalid_block_type block_too_short : CongestionError

pub encode_congestion_block : ℕ → Block
encode_congestion_block flags = new_ssu2_block congestion (flags ∷ [])

first_byte : List ℕ → Outcome CongestionError ℕ
first_byte [] = err block_too_short
first_byte (flags ∷ _) = ok flags

pub decode_congestion_block : Option Block → Outcome CongestionError ℕ
unfolding first_byte
decode_congestion_block none = err nil_block
decode_congestion_block (some block) =
    if block.block_type == congestion then first_byte block.bytes else err invalid_block_type

pub data CongestionState : Type 0 where
  slow_start congestion_avoidance recovery : CongestionState

-- The float64 arithmetic of the bandwidth estimate, which is Go's and not modelled: `sample b dt` is
-- `b` bytes over `dt` ns, per second; `smooth old s` is `bweAlpha*old + (1-bweAlpha)*s`; `window e t`
-- is `int(e * t.Seconds())`, where a result below 0 counts as 0.
pub record Float : Type 1 where
  pub F : Type 0
  pub zero_estimate : F
  pub is_zero : F → Bool
  pub is_positive : F → Bool
  pub sample : ℕ → ℕ → F
  pub smooth : F → F → F
  pub window : F → ℕ → ℕ

-- A zero `time.Time` is `none`.
pub record Controller (F : Type 0) : Type 0 where
  pub cwnd : ℕ
  pub ssthresh : ℕ
  pub state : CongestionState
  pub bytes_acked : ℕ
  pub rtt_estimator : Option RttEstimator
  pub bytes_in_flight : ℕ
  pub bandwidth_estimate : F
  pub last_ack_time : Option ℕ
  pub congestion_epoch_start : Option ℕ
  pub mtu : ℕ

module _ (fl : Float) where
  open fl use {F, zero_estimate, is_zero, is_positive, sample, smooth, window}

  pub new_with_mtu : Option RttEstimator → ℕ → Controller F
  new_with_mtu rtt mtu =
      let mtu' = if mtu == 0 then max_packet_size_ipv4 else mtu in
      record {
        cwnd = mtu' * 3 % i64_mod;
        ssthresh = initial_slow_start_threshold;
        state = slow_start;
        bytes_acked = 0;
        rtt_estimator = rtt;
        bytes_in_flight = 0;
        bandwidth_estimate = zero_estimate;
        last_ack_time = none;
        congestion_epoch_start = none;
        mtu = mtu';
      }

  pub new_congestion_controller : Option RttEstimator → Controller F
  new_congestion_controller rtt = new_with_mtu rtt max_packet_size_ipv4

  pub can_send : ℕ → Controller F → Bool
  can_send packet_size ctl = leb64 (add64 ctl.bytes_in_flight packet_size) ctl.cwnd

  pub available_window : Controller F → ℕ
  available_window ctl =
      let available = sub64 ctl.cwnd ctl.bytes_in_flight in
      if is_negative available then 0 else available

  pub on_packet_sent : ℕ → Controller F → Controller F
  on_packet_sent packet_size ctl =
      if packet_size == 0
      then ctl
      else record ctl { bytes_in_flight = add64 ctl.bytes_in_flight packet_size }

  pub handle_slow_start_ack : ℕ → Controller F → Controller F
  handle_slow_start_ack acked ctl =
      let grown = add64 ctl.cwnd acked in
      let capped = if ltb64 max_congestion_window grown then max_congestion_window else grown in
      record ctl {
        cwnd = capped;
        state = if leb64 ctl.ssthresh capped then congestion_avoidance else ctl.state;
      }

  pub handle_congestion_avoidance_ack : ℕ → Controller F → Controller F
  handle_congestion_avoidance_ack acked ctl =
      let total = add64 ctl.bytes_acked acked in
      let mss = if ltb ctl.mtu min_congestion_window then min_congestion_window else ctl.mtu in
      let grows = leb64 ctl.cwnd total in
      let grown = if grows then add64 ctl.cwnd mss else ctl.cwnd in
      let left = sub64 total grown in
      record ctl {
        bytes_acked = if grows then (if is_negative left then 0 else left) else total;
        cwnd = if ltb64 max_congestion_window grown then max_congestion_window else grown;
      }

  -- The part of `OnAck` that updates the bandwidth estimate; `now` is in ns.
  pub update_estimate : ℕ → ℕ → Option ℕ → F → F
  update_estimate acked now none estimate = estimate
  update_estimate acked now (some last) estimate =
      if ltb last now
      then (if is_zero estimate
          then sample acked (now - last)
          else smooth estimate (sample acked (now - last)))
      else estimate

  -- The switch of `OnAck`.
  abbrev pub by_state : CongestionState → ℕ → Controller F → Controller F
  by_state slow_start acked ctl = handle_slow_start_ack acked ctl
  by_state congestion_avoidance acked ctl = handle_congestion_avoidance_ack acked ctl
  by_state recovery acked ctl = ctl

  -- The part of `OnAck` before the switch.
  abbrev pub account : ℕ → ℕ → Controller F → Controller F
  account acked now ctl =
      let in_flight = sub64 ctl.bytes_in_flight acked in
      record ctl {
        bandwidth_estimate = update_estimate acked now ctl.last_ack_time ctl.bandwidth_estimate;
        last_ack_time = some now;
        bytes_in_flight = if is_negative in_flight then 0 else in_flight;
      }

  pub on_ack : ℕ → ℕ → Controller F → Controller F
  on_ack acked now ctl =
      if acked == 0 then ctl else by_state ctl.state acked (account acked now ctl)

  pub reset : Controller F → Controller F
  reset ctl = record ctl {
    cwnd = initial_congestion_window;
    ssthresh = initial_slow_start_threshold;
    state = slow_start;
    bytes_acked = 0;
    bytes_in_flight = 0;
    bandwidth_estimate = zero_estimate;
    last_ack_time = none;
  }

  pub update_rtt_estimator : Option RttEstimator → Controller F → Controller F
  update_rtt_estimator rtt ctl = record ctl { rtt_estimator = rtt }

  pub should_probe : Controller F → Bool
  should_probe ctl =
      ltb64 ctl.cwnd (max_congestion_window / 2) && ltb64 ctl.bytes_in_flight (half64 ctl.cwnd)

  pub set_cwnd : ℕ → Controller F → Controller F
  set_cwnd cwnd ctl = record ctl {
    cwnd =
        if ltb cwnd min_congestion_window
        then min_congestion_window
        else if ltb max_congestion_window cwnd
        then max_congestion_window
        else cwnd;
  }

  pub get_rto_or_default : Option RttEstimator → ℕ
  get_rto_or_default none = second
  get_rto_or_default (some rtt) = get_rto rtt
