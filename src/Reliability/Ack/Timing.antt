-- ===== src/Reliability/Ack/Timing.antt =====
-- When `ShouldSendACK` lets an ACK go.
use noise_ssu.Base.{ℕ, ◌+◌, ◌≤◌, ◌<◌, ◌≡◌, ◌⊎◌, true, length, arith}
use noise_ssu.Reliability.Ack.{
  AckHandler, should_send_ack, delay_for, min_ack_interval, ms10, ms150,
}

-- The delay lies between 10 and 150 ms, whatever the round-trip time.
delay_for_bounds : (rtt : ℕ) → (ms10 ≤ delay_for rtt) × (delay_for rtt ≤ ms150)
unfolding delay_for
delay_for_bounds rtt = ground arith

-- An ACK goes only if packets wait for it and 5 ms have passed since the last one, and if the delay,
-- of 10 to 150 ms, has passed as well or the threshold is reached; the packets that wait stay.
should_send_ack_lem :
    (rtt now : ℕ) (h : AckHandler)
    → (should_send_ack rtt now h).0 ≡ true
    → let h' = (should_send_ack rtt now h).1 in
      (0 < length h.received_packets)
      × (h.last_ack_time + min_ack_interval ≤ now)
      × ((h.last_ack_time + h'.ack_delay ≤ now) ⊎ (h.ack_threshold ≤ length h.received_packets))
      × (ms10 ≤ h'.ack_delay)
      × (h'.ack_delay ≤ ms150)
      × (h'.received_packets ≡ h.received_packets)
unfolding should_send_ack
should_send_ack_lem rtt now h e = ground (arith, delay_for_bounds rtt)
