-- ===== src/Reliability/Congestion/Bounds.antt =====
-- The window and its threshold stay in range, and what each signal may do to the window.
use noise_ssu.Base.{
  ℕ, ◌+◌, ◌-◌, ◌≤◌, ◌<◌, ◌≡◌, refl, true, Option, none, some, ◌==◌, arith, max, inl, inr,
  Bool-cases, ◌∙◌,
}
use noise_ssu.Base.I64.{i64_half}
use noise_ssu.Reliability.Rtt.{RttEstimator, get_min_rtt}
use noise_ssu.Reliability.Congestion.{
  Float, Controller, CongestionState, slow_start, congestion_avoidance, recovery,
  min_congestion_window, max_congestion_window, new_with_mtu, can_send, available_window,
  on_packet_sent, handle_slow_start_ack, handle_congestion_avoidance_ack, on_ack, by_state, account,
}
use noise_ssu.Reliability.Congestion.Signals.{
  westwood_ssthresh, half_window, bounded_window, with_estimator, handle_congestion_event,
}

-- The most bytes that an acknowledgement may count: with the largest window, an int.
abbrev pub max_acked : ℕ
max_acked = 9_223_372_036_853_727_231

module _ (fl : Float) where
  open fl use {F}

  pub record IsValid (ctl : Controller F) : Type 0 where
    pub cwnd_lo : min_congestion_window ≤ ctl.cwnd
    pub cwnd_hi : ctl.cwnd ≤ max_congestion_window
    pub ssthresh_lo : min_congestion_window ≤ ctl.ssthresh
    pub ssthresh_hi : ctl.ssthresh ≤ max_congestion_window
    pub mtu_hi : ctl.mtu ≤ 349_525

  pub new_with_mtu-IsValid :
      (rtt : Option RttEstimator) (mtu : ℕ)
      → 427 ≤ mtu
      → mtu ≤ 349_525
      → IsValid (new_with_mtu fl rtt mtu)
  unfolding new_with_mtu
  new_with_mtu-IsValid rtt mtu lo hi = ground arith

  bounded_window-le :
      (w : ℕ) (ctl : Controller F)
      → min_congestion_window ≤ ctl.cwnd
      → ctl.cwnd ≤ max_congestion_window
      → (min_congestion_window ≤ bounded_window fl w ctl) × (bounded_window fl w ctl ≤ ctl.cwnd)
  unfolding bounded_window
  bounded_window-le w ctl h u = ground arith

  half_window-le :
      (ctl : Controller F)
      → min_congestion_window ≤ ctl.cwnd
      → ctl.cwnd ≤ max_congestion_window
      → (min_congestion_window ≤ half_window fl ctl) × (half_window fl ctl ≤ ctl.cwnd)
  unfolding half_window
  half_window-le ctl h u = ground arith

  with_estimator-le :
      (o : Option RttEstimator) (ctl : Controller F)
      → min_congestion_window ≤ ctl.cwnd
      → ctl.cwnd ≤ max_congestion_window
      → (min_congestion_window ≤ with_estimator fl o ctl) × (with_estimator fl o ctl ≤ ctl.cwnd)
  with_estimator-le none ctl h u = half_window-le ctl h u
  with_estimator-le (some rtt) ctl h u = ground (
    arith,
    half_window-le ctl h u,
    bounded_window-le (fl.window ctl.bandwidth_estimate (get_min_rtt rtt)) ctl h u,
  )

  -- Whatever the bandwidth estimate and the round-trip times, the new threshold is no less than the
  -- minimal window and no more than the current one, if that is no less than the minimal one.
  pub westwood_ssthresh_bounds :
      (ctl : Controller F)
      → min_congestion_window ≤ ctl.cwnd
      → ctl.cwnd ≤ max_congestion_window
      → (min_congestion_window ≤ westwood_ssthresh fl ctl) × (westwood_ssthresh fl ctl ≤ ctl.cwnd)
  unfolding westwood_ssthresh
  westwood_ssthresh_bounds ctl h u =
      ground (arith, half_window-le ctl h u, with_estimator-le ctl.rtt_estimator ctl h u)

  -- Where the window and the threshold are in range, a loss or an ECN signal leaves them in range
  -- and never widens the window.
  pub handle_congestion_event-IsValid :
      (target : CongestionState) (now : ℕ) (ctl : Controller F)
      → IsValid ctl
      → IsValid (handle_congestion_event fl target now ctl)
        × ((handle_congestion_event fl target now ctl).cwnd ≤ ctl.cwnd)
  unfolding handle_congestion_event
  handle_congestion_event-IsValid target now ctl v =
      ground (arith, westwood_ssthresh_bounds ctl v.cwnd_lo v.cwnd_hi)

  handle_slow_start_ack-IsValid :
      (n : ℕ) (ctl : Controller F)
      → n ≤ max_acked
      → IsValid ctl
      → IsValid (handle_slow_start_ack fl n ctl)
  unfolding handle_slow_start_ack
  handle_slow_start_ack-IsValid n ctl few v = ground arith

  handle_congestion_avoidance_ack-IsValid :
      (n : ℕ) (ctl : Controller F)
      → IsValid ctl
      → IsValid (handle_congestion_avoidance_ack fl n ctl)
  unfolding handle_congestion_avoidance_ack
  handle_congestion_avoidance_ack-IsValid n ctl v = ground arith

  by_state-IsValid :
      (s : CongestionState) (n : ℕ) (ctl : Controller F)
      → n ≤ max_acked
      → IsValid ctl
      → IsValid (by_state fl s n ctl)
  by_state-IsValid slow_start n ctl few v = handle_slow_start_ack-IsValid n ctl few v
  by_state-IsValid congestion_avoidance n ctl few v =
      handle_congestion_avoidance_ack-IsValid n ctl v
  by_state-IsValid recovery n ctl few v = v

  pub on_ack-IsValid :
      (n now : ℕ) (ctl : Controller F) → n ≤ max_acked → IsValid ctl → IsValid (on_ack fl n now ctl)
  unfolding on_ack
  on_ack-IsValid n now ctl few v = elim (Bool-cases (n == 0)) [
    | inl none_acked ↦ rw none_acked v
    | inr some_acked ↦ rw some_acked (by_state-IsValid ctl.state n _ few (ground (arith, v)))
  ]

  by_state-le :
      (s : CongestionState) (n : ℕ) (ctl : Controller F)
      → n ≤ max_acked
      → ctl.cwnd ≤ max_congestion_window
      → ctl.mtu ≤ 349_525
      → (ctl.cwnd ≤ (by_state fl s n ctl).cwnd)
        × ((by_state fl s n ctl).cwnd ≤ ctl.cwnd + max n (max ctl.mtu min_congestion_window))
        × ((by_state fl s n ctl).bytes_in_flight ≡ ctl.bytes_in_flight)
  unfolding handle_slow_start_ack handle_congestion_avoidance_ack
  by_state-le slow_start n ctl few h m = ground arith
  by_state-le congestion_avoidance n ctl few h m = ground arith
  by_state-le recovery n ctl few h m = omega arith

  -- Where the window and the threshold are in range, the bytes in flight are not negative and the
  -- bytes acknowledged with the largest window are an int, an acknowledgement never narrows the window,
  -- widens it by no more than the bytes acknowledged, the MTU or 1280, whichever is largest, and
  -- takes its bytes from those in flight.
  on_ack_growth :
      (n now : ℕ) (ctl : Controller F)
      → n ≤ max_acked
      → ctl.bytes_in_flight < i64_half
      → IsValid ctl
      → (ctl.cwnd ≤ (on_ack fl n now ctl).cwnd)
        × ((on_ack fl n now ctl).cwnd ≤ ctl.cwnd + max n (max ctl.mtu min_congestion_window))
        × ((on_ack fl n now ctl).bytes_in_flight ≡ ctl.bytes_in_flight - n)
  unfolding on_ack
  on_ack_growth n now ctl few flying v = elim (Bool-cases (n == 0)) [
    | inl none_acked ↦ rw none_acked (ground (arith, none_acked))
    | inr some_acked ↦
        let (wider, narrow, same) =
          by_state-le ctl.state n (account fl n now ctl) few v.cwnd_hi v.mtu_hi in
        rw some_acked (wider, narrow, same ∙ ground arith)
  ]

  by_state-bytes_in_flight :
      (s : CongestionState) (n : ℕ) (ctl : Controller F)
      → (by_state fl s n ctl).bytes_in_flight ≡ ctl.bytes_in_flight
  unfolding handle_slow_start_ack handle_congestion_avoidance_ack
  by_state-bytes_in_flight slow_start n ctl = refl
  by_state-bytes_in_flight congestion_avoidance n ctl = refl
  by_state-bytes_in_flight recovery n ctl = refl

  on_ack-bytes_in_flight :
      (n now : ℕ) (ctl : Controller F)
      → n < i64_half
      → ctl.bytes_in_flight < i64_half
      → (on_ack fl n now ctl).bytes_in_flight ≡ ctl.bytes_in_flight - n
  unfolding on_ack
  on_ack-bytes_in_flight n now ctl few flying = elim (Bool-cases (n == 0)) [
    | inl none_acked ↦ rw none_acked (ground (arith, none_acked))
    | inr some_acked ↦ rw some_acked (by_state-bytes_in_flight ctl.state n _ ∙ ground arith)
  ]

  -- Where the window and the sum of the bytes in flight and the packet's are ints, a packet of one byte
  -- or more that `CanSend` allows is no larger than the available window; once
  -- it is sent, the bytes in flight fit in the window still, and its acknowledgement takes them
  -- back to what they were.
  can_send_lem :
      (n now : ℕ) (ctl : Controller F)
      → 0 < n
      → ctl.bytes_in_flight + n < i64_half
      → ctl.cwnd < i64_half
      → can_send fl n ctl ≡ true
      → (n ≤ available_window fl ctl)
        × ((on_packet_sent fl n ctl).bytes_in_flight ≤ (on_packet_sent fl n ctl).cwnd)
        × ((on_ack fl n now (on_packet_sent fl n ctl)).bytes_in_flight ≡ ctl.bytes_in_flight)
  unfolding can_send available_window on_packet_sent
  can_send_lem n now ctl h whole wide c =
      ground
        (arith, on_ack-bytes_in_flight n now (on_packet_sent fl n ctl) (omega arith) (ground arith))
