-- ===== src/Ratchet/Manager/NewSessions/Ages.antt =====
-- The age of a New Session message: what was in time is refused when its window has gone by.
use noise_ssu.Base.{
  ℕ, ◌+◌, ◌*◌, ◌≤◌, ◌<◌, ◌≡◌, refl, not, Option, none, some, List, [], ◌∷◌, ltb, ◌==◌, arith,
  Outcome, ok, err, inl, inr, Bool-cases, Outcome-cases, lt→ltb,
}
use noise_ssu.Ratchet.Payload.{PayloadBlock, PayloadError, date_time, date_time_of}
use noise_ssu.Ratchet.Builder.{parse_payload}
use noise_ssu.Ratchet.Session.{Crypto, SessionError, payload_rejected, too_old}
use noise_ssu.Ratchet.Manager.{Manager}
use noise_ssu.Ratchet.Manager.NewSessions.{
  NewSession, check_age, check_date_time, validate_ns_date_time_freshness,
}

module _ (C : Crypto) (read_message : ℕ → List ℕ → Option (NewSession C))
    (sha256 : List ℕ → ℕ) where
  -- The age of a message that was not refused.
  sent_by :
      (now seconds : ℕ) (sm : Manager C)
      → check_age C read_message sha256 now seconds sm ≡ ok tt
      → seconds * 1_000_000_000 ≤ now + sm.ns_max_future_age
  unfolding check_age
  sent_by now seconds sm h =
      elim (Bool-cases (ltb (seconds * 1_000_000_000 + sm.ns_max_past_age) now)) [
        | inl old ↦ let bad = rw old at h in cc
        | inr young ↦
            elim (Bool-cases (ltb (now + sm.ns_max_future_age) (seconds * 1_000_000_000))) [
              | inl ahead ↦ let bad = rw (young, ahead) at h in cc
              | inr behind ↦ ground (arith, behind)
            ]
      ]

  check_age_old :
      (now seconds : ℕ) (sm : Manager C)
      → seconds * 1_000_000_000 + sm.ns_max_past_age < now
      → check_age C read_message sha256 now seconds sm ≡ err too_old
  unfolding check_age
  check_age_old now seconds sm h = let old = lt→ltb _ _ h in rw old refl

  -- A payload that was in time is too old when its age and the future skew have gone by.
  check_date_time_old :
      (first later : ℕ) (blocks : List PayloadBlock) (sm sm2 : Manager C)
      → check_date_time C read_message sha256 first blocks sm ≡ ok tt
      → sm2.ns_max_past_age ≡ sm.ns_max_past_age
      → first + sm.ns_max_future_age + sm.ns_max_past_age < later
      → (e : SessionError) × (check_date_time C read_message sha256 later blocks sm2 ≡ err e)
  unfolding check_date_time
  check_date_time_old first later [] sm sm2 h age late = (payload_rejected, refl)
  check_date_time_old first later (b ∷ bs) sm sm2 h age late =
      elim (Outcome-cases (date_time_of b)) [
        | inl (t, e) ↦ elim (Bool-cases (not (b.block_type == date_time))) [
          | inl other ↦ (payload_rejected, rw (e, other, check_date_time) refl)
          | inr stamp ↦
              let in_time = rw (e, stamp, check_date_time) at h in
              let sent = sent_by first t sm in_time in
              (
                too_old,
                rw (e, stamp, check_date_time)
                    (check_age_old later t sm2 (omega (arith, sent, age, late))),
              )
        ]
        | inr (x, e) ↦ (payload_rejected, rw (e, check_date_time) refl)
      ]

  pub validate_old :
      (first later : ℕ) (payload : List ℕ) (sm sm2 : Manager C)
      → validate_ns_date_time_freshness C read_message sha256 first payload sm ≡ ok tt
      → sm2.ns_max_past_age ≡ sm.ns_max_past_age
      → first + sm.ns_max_future_age + sm.ns_max_past_age < later
      → (e : SessionError) × (validate_ns_date_time_freshness C read_message sha256 later payload
            sm2
          ≡ err e)
  unfolding validate_ns_date_time_freshness
  validate_old first later payload sm sm2 h age late = by_blocks (parse_payload payload) refl
    where
      by_blocks :
          (o : Option (Outcome PayloadError (List PayloadBlock)))
          → parse_payload payload ≡ o
          → (e : SessionError) × (validate_ns_date_time_freshness C read_message sha256 later
                payload sm2
              ≡ err e)
      by_blocks none e = (payload_rejected, rw (e, validate_ns_date_time_freshness) refl)
      by_blocks (some (err x)) e = (payload_rejected, rw (e, validate_ns_date_time_freshness) refl)
      by_blocks (some (ok bs)) e =
          let in_time = rw (e, validate_ns_date_time_freshness) at h in
          let (x, stale) = check_date_time_old first later bs sm sm2 in_time age late in
          (x, rw (e, validate_ns_date_time_freshness) stale)
