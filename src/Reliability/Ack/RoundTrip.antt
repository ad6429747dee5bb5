-- ===== src/Reliability/Ack/RoundTrip.antt =====
-- The range bytes of an ACK block, read back: the loops of `ProcessACK` on the bytes of
-- `buildACKRanges`.
use noise_ssu.Base.{
  ℕ, zero, suc, ◌+◌, ◌-◌, ◌*◌, ◌≤◌, ◌<◌, ◌≡◌, refl, sym, ◌∙◌, ap, ap₂, true, false, ◌||◌, List, [],
  ◌∷◌, ◌++◌, append_assoc, append-nil, subst, ne→==, ==→ne, le→ltb, ltb→lt, ltb→le, arith, ltb,
  ◌==◌, if◌then◌else◌, Bool-cases, inl, inr, ==→eq, length, Outcome, ok, err,
}
use noise_ssu.Base.U32.{IsU32, sub32}
use noise_ssu.Base.Dict.{Dict, erase}
use noise_ssu.Reliability.Ack.{split_run, PendingAck, build_ack_ranges, clamp_count}
use noise_ssu.Reliability.Ack.Reader.{
  first_run, AckError, underflow_in_ack_loop, collect, process_ranges, erase_all,
}
use noise_ssu.Reliability.Ack.Sorting.{Below, mem}
use noise_ssu.Reliability.Ack.Encoding.{fits, gaps, Stops, split_run-Split}

-- The loop over one run that stops above 0 appends the run.
collect_ok :
    (n cursor : ℕ) (acked : List ℕ) (pending : Dict PendingAck)
    → n ≤ cursor
    → collect n cursor acked pending
      ≡ (ok (acked ++ first_run n cursor, cursor - n), erase_all (first_run n cursor) pending)
unfolding collect first_run
collect_ok zero cursor acked pending h =
    ap₂ (λ (l : List ℕ) (m : ℕ). (ok (l, m), pending)) (sym (append-nil acked)) (omega arith)
collect_ok (suc n) cursor acked pending h =
    let ih =
      collect_ok n (cursor - 1) (acked ++ cursor ∷ []) (erase cursor pending) (omega arith) in
    let later = first_run n (cursor - 1) in
    rw (ne→== cursor 0 (omega arith)) (
      ih
      ∙ ap₂ (λ (l : List ℕ) (m : ℕ). (ok (l, m), erase_all later (erase cursor pending)))
          (append_assoc acked (cursor ∷ []) later) (omega arith))

-- A run that goes down to packet 0 ends in an error, with its packets no longer pending.
collect_underflow :
    (n cursor : ℕ) (acked : List ℕ) (pending : Dict PendingAck)
    → n ≡ cursor + 1
    → collect n cursor acked pending
      ≡ (err underflow_in_ack_loop, erase_all (first_run n cursor) pending)
unfolding collect first_run
collect_underflow zero cursor acked pending h = absurd (omega arith)
collect_underflow (suc n) cursor acked pending h = elim (Bool-cases (cursor == 0)) [
  | inl bottom ↦
      let none_left : 0 ≡ n = omega (arith, ==→eq cursor 0 bottom) in
      rw bottom (
        ap
          (λ m. (
            err underflow_in_ack_loop,
            erase_all (first_run m (cursor - 1)) (erase cursor pending),
          ))
          none_left)
  | inr above ↦ rw above (
      collect_underflow n (cursor - 1) (acked ++ cursor ∷ []) (erase cursor pending)
        (omega (arith, ==→ne cursor 0 above)))
]

pub erase_all-append :
    (xs ys : List ℕ) (pending : Dict PendingAck)
    → erase_all (xs ++ ys) pending ≡ erase_all ys (erase_all xs pending)
erase_all-append [] ys pending = refl
erase_all-append (x ∷ xs) ys pending = erase_all-append xs ys (erase x pending)

mem-append : (n : ℕ) (xs ys : List ℕ) → mem n (xs ++ ys) ≡ (mem n xs || mem n ys)
mem-append n [] ys = refl
mem-append n (x ∷ xs) ys = ground (arith, mem-append n xs ys)

mem-first_run_above : (n cursor : ℕ) → n ≤ cursor → mem 0 (first_run n cursor) ≡ false
unfolding first_run
mem-first_run_above zero cursor h = refl
mem-first_run_above (suc n) cursor h = ground (arith, mem-first_run_above n (cursor - 1))

mem-first_run_zero : (n cursor : ℕ) → n ≡ cursor + 1 → mem 0 (first_run n cursor) ≡ true
unfolding first_run
mem-first_run_zero zero cursor h = absurd (omega arith)
mem-first_run_zero (suc n) cursor h = ground (arith, mem-first_run_zero n (cursor - 1))

pub Below-zero : (xs : List ℕ) → Below 0 xs → xs ≡ []
Below-zero [] b = refl
Below-zero (x ∷ xs) b = absurd (omega arith)

-- What the range bytes come to: the numbers appended, or the error where one of them is 0.
abbrev pub ranges_result :
    List ℕ → List ℕ → Dict PendingAck → Outcome AckError (List ℕ) × Dict PendingAck
ranges_result acked xs pending =
    (if mem 0 xs then err underflow_in_ack_loop else ok (acked ++ xs), erase_all xs pending)

ranges_result-above :
    (acked : List ℕ) (next more : ℕ) (rest : List ℕ) (pending : Dict PendingAck)
    → more < next
    → ranges_result
        (acked ++ first_run (suc more) next)
        rest
        (erase_all (first_run (suc more) next) pending)
      ≡ ranges_result acked (first_run (suc more) next ++ rest) pending
ranges_result-above acked next more rest pending h =
    let r = first_run (suc more) next in
    rw
      (
        mem-append 0 r rest,
        mem-first_run_above (suc more) next h,
        append_assoc acked r rest,
        erase_all-append r rest pending,
      )
      refl

ranges_result-zero :
    (acked : List ℕ) (next more : ℕ) (rest : List ℕ) (pending : Dict PendingAck)
    → more ≡ next
    → rest ≡ []
    → (err underflow_in_ack_loop, erase_all (first_run (suc more) next) pending)
      ≡ ranges_result acked (first_run (suc more) next ++ rest) pending
ranges_result-zero acked next more rest pending h e =
    let r = first_run (suc more) next in
    rw (e, append-nil r, mem-first_run_zero (suc more) next (omega arith)) refl

-- One round of the reader, on the bytes of a gap and of a run that stops above 0.
pub step_ok :
    (count prev next more x y : ℕ) (bytes acked : List ℕ) (pending : Dict PendingAck)
    → next + 1 < prev
    → x + next + 2 ≡ prev
    → y ≡ more
    → more < next
    → count + 1 ≤ 200
    → process_ranges count (prev - 1) (x ∷ y ∷ bytes) acked pending
      ≡ process_ranges
          (count + 1)
          (next - suc more)
          bytes
          (acked ++ first_run (suc more) next)
          (erase_all (first_run (suc more) next) pending)
unfolding process_ranges
step_ok count prev next more x y bytes acked pending s ex ey h c =
    let e1 : prev - 1 - (x + 1) ≡ next = omega arith in
    let e2 : y + 1 ≡ suc more = omega arith in
    let t1 : ltb 200 (count + 1) ≡ false = le→ltb _ _ c in
    let t2 : ltb (prev - 1) (x + 1) ≡ false = le→ltb _ _ (omega arith) in
    let t3 : ltb (next + 1) (suc more) ≡ false = le→ltb _ _ (omega arith) in
    let run = collect_ok (suc more) next acked pending h in
    rw (t1, t2, e1, e2, t3, run) (rw (e1, e2, run) refl)

step_underflow :
    (count prev next more x y : ℕ) (bytes acked : List ℕ) (pending : Dict PendingAck)
    → next + 1 < prev
    → x + next + 2 ≡ prev
    → y ≡ more
    → more ≡ next
    → count + 1 ≤ 200
    → process_ranges count (prev - 1) (x ∷ y ∷ bytes) acked pending
      ≡ (err underflow_in_ack_loop, erase_all (first_run (suc more) next) pending)
unfolding process_ranges
step_underflow count prev next more x y bytes acked pending s ex ey h c =
    let e1 : prev - 1 - (x + 1) ≡ next = omega arith in
    let e2 : y + 1 ≡ suc more = omega arith in
    let t1 : ltb 200 (count + 1) ≡ false = le→ltb _ _ c in
    let t2 : ltb (prev - 1) (x + 1) ≡ false = le→ltb _ _ (omega arith) in
    let t3 : ltb (next + 1) (suc more) ≡ false = le→ltb _ _ (omega arith) in
    let run = collect_underflow (suc more) next acked pending (omega arith) in
    rw (t1, t2, e1, e2, t3, run) (rw (e1, e2, run) refl)

gap_facts :
    (prev next : ℕ) (after : List ℕ)
    → IsU32 prev
    → Below prev (next ∷ after)
    → Stops prev (next ∷ after)
    → fits 1 prev (next ∷ after) ≡ true
    → (gaps prev (next ∷ after) ≡ suc (gaps next after))
      × (fits 1 next after ≡ true)
      × (prev ≤ next + 257)
gap_facts prev next after u b s f = ground (arith, f)

nack_byte :
    (prev next : ℕ)
    → IsU32 prev
    → next + 1 < prev
    → prev ≤ next + 257
    → clamp_count (sub32 (sub32 prev next) 1) - 1 + next + 2 ≡ prev
nack_byte prev next u s h = ground arith

ack_byte : (more : ℕ) → more < 256 → clamp_count (suc more) - 1 ≡ more
ack_byte more h = ground arith

pub whole_run :
    (next more : ℕ) (after rest : List ℕ)
    → after ≡ first_run more (next - 1) ++ rest
    → next ∷ after ≡ first_run (suc more) next ++ rest
unfolding first_run
whole_run next more after rest e = ap (◌∷◌ next) e

pub fits_after_gap :
    (k prev : ℕ) (xs : List ℕ) → Stops prev xs → fits k prev xs ≡ true → fits 1 prev xs ≡ true
fits_after_gap k prev [] s f = refl
fits_after_gap k prev (x ∷ xs) s f = ground (arith, f)

-- Reading the range bytes of a falling list gives the list back.
pub process_ranges-build :
    (fuel prev : ℕ) (xs : List ℕ) (used max_bytes count : ℕ) (acked : List ℕ)
    (pending : Dict PendingAck)
    → IsU32 prev
    → Below prev xs
    → Stops prev xs
    → fits 1 prev xs ≡ true
    → length xs ≤ fuel
    → used + 2 * gaps prev xs ≤ max_bytes
    → count + gaps prev xs ≤ 200
    → process_ranges count (prev - 1) (build_ack_ranges fuel prev xs used max_bytes) acked pending
      ≡ ranges_result acked xs pending
unfolding process_ranges build_ack_ranges
process_ranges-build zero prev [] used mx count acked pending u b s f l m c =
    ap (λ a. (ok a, pending)) (sym (append-nil acked))
process_ranges-build zero prev (x ∷ xs) used mx count acked pending u b s f l m c =
    absurd (omega arith)
process_ranges-build (suc fuel) prev [] used mx count acked pending u b s f l m c =
    ap (λ a. (ok a, pending)) (sym (append-nil acked))
process_ranges-build (suc fuel) prev (next ∷ after) used mx count acked pending u b s f l m c =
    let g = gap_facts prev next after u b s f in
    let sp = split_run-Split 1 next after (omega arith) (omega arith) b.1 g.1 in
    let (more, last, rest) = split_run next after in
    let room : ltb mx (used + 2) ≡ false = le→ltb _ _ (omega (arith, g.0)) in
    let x1 = nack_byte prev next u s (omega (arith, g.2)) in
    let y1 = ack_byte more (omega (arith, sp.short)) in
    let whole : next ∷ after ≡ first_run (suc more) next ++ rest =
      whole_run next more after rest sp.whole in
    elim (Bool-cases (ltb more next)) [
      | inl above ↦
          let lt = ltb→lt _ _ above in
          rw room (
            step_ok count prev next more _ _ _ acked pending s x1 y1 lt (omega (arith, g.0))
            ∙ ap
                (λ k.
                  process_ranges (count + 1) k (build_ack_ranges fuel last rest (used + 2) mx)
                    (acked ++ first_run (suc more) next)
                    (erase_all (first_run (suc more) next) pending))
                (omega (arith, sp.last_eq))
            ∙ process_ranges-build fuel last rest (used + 2) mx (count + 1) _ _
                (omega (arith, sp.last_eq)) sp.below sp.stops
                (fits_after_gap _ last rest sp.stops sp.fit) (omega (arith, sp.shorter))
                (omega (arith, g.0, sp.same_gaps)) (omega (arith, g.0, sp.same_gaps))
            ∙ ranges_result-above acked next more rest pending lt
            ∙ ap (λ zs. ranges_result acked zs pending) (sym whole))
      | inr at_zero ↦
          let eq : more ≡ next = omega (arith, ltb→le _ _ at_zero, sp.last_eq) in
          let bottom : last ≡ 0 = omega (arith, eq, sp.last_eq) in
          let empty = Below-zero rest (subst (λ k. Below k rest) bottom sp.below) in
          rw room (
            step_underflow count prev next more _ _ _ acked pending s x1 y1 eq (omega (arith, g.0))
            ∙ ranges_result-zero acked next more rest pending eq empty
            ∙ ap (λ zs. ranges_result acked zs pending) (sym whole))
    ]
