-- ===== src/Reliability/Congestion/Events.antt =====
-- The controller under any sequence of the signals that reach it.
use mathlib.Core.Option.{get_or}
use noise_ssu.Base.{
  ℕ, ◌+◌, ◌≤◌, ◌<◌, ◌≡◌, ◌≢◌, refl, Bool, true, false, Option, none, some, ltb, List, [], ◌∷◌,
  arith, ◌⊎◌, inl, inr, Bool-cases, true-ne-false, sym, ◌*◌, All,
}
use noise_ssu.Reliability.Rtt.{RttEstimator, get_smoothed_rtt, second}
use noise_ssu.Reliability.Rtt.Bounds.{get_rto_bounds}
use noise_ssu.Reliability.Congestion.{
  Float, Controller, CongestionState, congestion_avoidance, recovery, min_congestion_window,
  new_with_mtu, on_packet_sent, on_ack, reset, set_cwnd, update_rtt_estimator,
}
use noise_ssu.Reliability.Congestion.Signals.{
  on_packet_loss, on_ecn, is_coalesced, in_recovery, handle_congestion_event,
  on_retransmission_timeout, exit_recovery, on_persistent_congestion, detect_persistent_congestion,
  persistent_congestion_threshold, span,
}
use noise_ssu.Reliability.Congestion.Bounds.{
  IsValid, max_acked, new_with_mtu-IsValid, westwood_ssthresh_bounds,
  handle_congestion_event-IsValid, on_ack-IsValid,
}

-- A call of one of the controller's methods.
pub data Event : Type 0 where
  sent : ℕ → Event
  acked : ℕ → ℕ → Event
  loss : ℕ → Event
  ecn : ℕ → Event
  timeout : Event
  exit : Event
  lost_between : Option ℕ → Option ℕ → Bool → Event
  clear : Event
  window_set : ℕ → Event
  estimator : Option RttEstimator → Event

-- The bytes that a call acknowledges, with the largest window, are an int.
abbrev pub IsCount : Event → Type 0
IsCount (acked n now) = n ≤ max_acked
IsCount _ = Unit

module _ (fl : Float) where
  open fl use {F}

  unfoldable pub step : Event → Controller F → Controller F
  step (sent n) ctl = on_packet_sent fl n ctl
  step (acked n now) ctl = on_ack fl n now ctl
  step (loss now) ctl = on_packet_loss fl now ctl
  step (ecn now) ctl = on_ecn fl now ctl
  step timeout ctl = on_retransmission_timeout fl ctl
  step exit ctl = exit_recovery fl ctl
  step (lost_between a b covered) ctl = (detect_persistent_congestion fl a b covered ctl).1
  step clear ctl = reset fl ctl
  step (window_set n) ctl = set_cwnd fl n ctl
  step (estimator rtt) ctl = update_rtt_estimator fl rtt ctl

  unfoldable pub run : List Event → Controller F → Controller F
  run [] ctl = ctl
  run (e ∷ es) ctl = run es (step e ctl)

  -- Persistent congestion is declared, and the window collapses to two minimal ones, or nothing
  -- changes.
  detect_cases :
      (a b : Option ℕ) (covered : Bool) (ctl : Controller F)
      → (detect_persistent_congestion fl a b covered ctl ≡ (false, ctl))
        ⊎ (detect_persistent_congestion fl a b covered ctl
            ≡ (true, on_persistent_congestion fl ctl))
  unfolding detect_persistent_congestion
  detect_cases a b true ctl = inl refl
  detect_cases none b false ctl = inl refl
  detect_cases (some a) none false ctl = inl refl
  detect_cases (some a) (some b) false ctl =
      elim (Bool-cases (ltb (persistent_congestion_threshold fl ctl.rtt_estimator) (span fl a b))) [
        | inl over ↦ rw over (inr refl)
        | inr under ↦ rw under (inl refl)
      ]

  step-IsValid :
      (e : Event) (ctl : Controller F) → IsCount e → IsValid fl ctl → IsValid fl (step e ctl)
  unfolding step on_packet_sent on_retransmission_timeout exit_recovery reset set_cwnd
      update_rtt_estimator on_persistent_congestion
  step-IsValid (sent n) ctl few v = ground (arith, v)
  step-IsValid (acked n now) ctl few v = on_ack-IsValid fl n now ctl few v
  step-IsValid (loss now) ctl few v = (handle_congestion_event-IsValid fl recovery now ctl v).0
  step-IsValid (ecn now) ctl few v =
      (handle_congestion_event-IsValid fl congestion_avoidance now ctl v).0
  step-IsValid timeout ctl few v =
      ground (arith, v, westwood_ssthresh_bounds fl ctl v.cwnd_lo v.cwnd_hi)
  step-IsValid exit ctl few v = ground (arith, v)
  step-IsValid (lost_between a b covered) ctl few v = elim (detect_cases a b covered ctl) [
    | inl same ↦ rw (same, step) v
    | inr collapsed ↦ rw (collapsed, step) (omega arith)
  ]
  step-IsValid clear ctl few v = omega arith
  step-IsValid (window_set n) ctl few v = ground (arith, v)
  step-IsValid (estimator rtt) ctl few v = ground (arith, v)

  run-IsValid :
      (es : List Event) (ctl : Controller F)
      → All IsCount es
      → IsValid fl ctl
      → IsValid fl (run es ctl)
  unfolding run
  run-IsValid [] ctl few v = v
  run-IsValid (e ∷ es) ctl few v = run-IsValid es (step e ctl) few.1 (step-IsValid e ctl few.0 v)

  -- From a controller made for an MTU of 427 bytes or more and at most a third of the largest window,
  -- no sequence of calls, of which none acknowledges more than 2^63 - 1 MB - 1 bytes, takes the window
  -- or the threshold out of [1280, 1 MB] or raises the MTU over that third.
  pub run-new-IsValid :
      (rtt : Option RttEstimator) (mtu : ℕ) (es : List Event)
      → 427 ≤ mtu
      → mtu ≤ 349_525
      → All IsCount es
      → IsValid fl (run es (new_with_mtu fl rtt mtu))
  run-new-IsValid rtt mtu es lo hi few =
      run-IsValid es _ few (new_with_mtu-IsValid fl rtt mtu lo hi)

  -- The calls that can end a recovery.
  abbrev pub Leaves : Event → Type 0
  Leaves timeout = Unit
  Leaves exit = Unit
  Leaves (lost_between a b covered) = Unit
  Leaves clear = Unit
  Leaves _ = ⊥

  -- No call but a timeout, `ExitRecovery`, a detection of persistent congestion or `Reset` takes the
  -- controller out of recovery.
  recovery_exits :
      (e : Event) (ctl : Controller F)
      → ctl.state ≡ recovery
      → (step e ctl).state ≢ recovery
      → Leaves e
  unfolding step on_packet_sent on_ack set_cwnd update_rtt_estimator handle_congestion_event
  recovery_exits (sent n) ctl s h = absurd (h (ground (arith, s)))
  recovery_exits (acked n now) ctl s h = absurd (h (ground (arith, s)))
  recovery_exits (loss now) ctl s h = absurd (h (ground (arith, s)))
  recovery_exits (ecn now) ctl s h = absurd (h (ground (arith, s)))
  recovery_exits timeout ctl s h = tt
  recovery_exits exit ctl s h = tt
  recovery_exits (lost_between a b covered) ctl s h = tt
  recovery_exits clear ctl s h = tt
  recovery_exits (window_set n) ctl s h = absurd (h s)
  recovery_exits (estimator rtt) ctl s h = absurd (h s)

  is_coalesced_within :
      (now later : ℕ) (rtt : RttEstimator)
      → later < now + get_smoothed_rtt rtt
      → 0 < get_smoothed_rtt rtt
      → is_coalesced fl later (some now) (some rtt) ≡ true
  unfolding is_coalesced
  is_coalesced_within now later rtt l p = ground arith

  -- After a signal at `now` that is not itself coalesced, every loss or ECN signal within one
  -- smoothed round-trip time of it, where that time is positive, changes nothing.
  coalesced :
      (target again : CongestionState) (now later : ℕ) (rtt : RttEstimator) (ctl : Controller F)
      → ctl.rtt_estimator ≡ some rtt
      → is_coalesced fl now ctl.congestion_epoch_start ctl.rtt_estimator ≡ false
      → later < now + get_smoothed_rtt rtt
      → 0 < get_smoothed_rtt rtt
      → let once = handle_congestion_event fl target now ctl in
        handle_congestion_event fl again later once ≡ once
  unfolding handle_congestion_event
  coalesced target again now later rtt ctl e fresh l p =
      let young : is_coalesced fl later (some now) ctl.rtt_estimator ≡ true =
        rw e (is_coalesced_within now later rtt l p) in
      elim (Bool-cases (in_recovery fl ctl.state)) [
        | inl r ↦ rw (r, r) refl
        | inr n ↦
            rw (n, fresh)
              (elim (Bool-cases (in_recovery fl target)) [
                | inl r ↦ rw r refl
                | inr m ↦ rw (m, young) refl
              ])
      ]

  threshold-le : (o : Option RttEstimator) → 3 * second ≤ persistent_congestion_threshold fl o
  unfolding persistent_congestion_threshold
  threshold-le none = omega arith
  threshold-le (some rtt) = omega (arith, get_rto_bounds rtt)

  -- Where persistent congestion is declared, no packet was acknowledged between the lost ones, they
  -- were sent more than three seconds apart, and the window is two minimal ones after it.
  detect_needs_span :
      (a b : Option ℕ) (covered : Bool) (ctl : Controller F)
      → (detect_persistent_congestion fl a b covered ctl).0 ≡ true
      → (covered ≡ false)
        × (3 * second < span fl (get_or a 0) (get_or b 0))
        × ((detect_persistent_congestion fl a b covered ctl).1.cwnd ≡ 2 * min_congestion_window)
  unfolding detect_persistent_congestion on_persistent_congestion
  detect_needs_span a b true ctl h = absurd (true-ne-false (sym h))
  detect_needs_span none b false ctl h = absurd (true-ne-false (sym h))
  detect_needs_span (some a) none false ctl h = absurd (true-ne-false (sym h))
  detect_needs_span (some a) (some b) false ctl h = ground (arith, threshold-le ctl.rtt_estimator)
