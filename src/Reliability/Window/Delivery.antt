-- ===== src/Reliability/Window/Delivery.antt =====
-- What `Insert` hands on: every packet once, in the order of the numbers, and none is lost.
use noise_ssu.Base.{
  ℕ, zero, suc, ◌+◌, ◌%◌, ◌≡◌, refl, sym, subst, ◌⊎◌, inl, inr, none, some, List, [], ◌∷◌, ◌++◌,
  ◌∙◌, ap, ap₂, arith, length, length-append, Option-cases, ==→eq, ==→ne, All, ◌==◌, Bool-cases, ok,
  err, leb, eq→==, ne→==, ◌≢◌, Outcome,
}
use native.Mathlib.Nat.{zero-add}
use mathlib.Core.List.{map-append}
use noise_ssu.Base.U32.{add32, u32_mod, IsU32}
use noise_ssu.Base.Dict.{
  lookup, contains_of_none, contains_of_some, lookup-insert, lookup-insert_fresh, insert as put,
}
use noise_ssu.Reliability.Window.{
  ReceiveWindow, insert, accept_expected, buffer_future, release, seq_before, Reply, InsertError,
  already_processed, duplicate_future, window_full,
}
use noise_ssu.Reliability.Window.Release.{count_up, numbers, In}
use noise_ssu.Reliability.Window.Invariant.{IsValid, IsFlowing, accepted-Released, insert-IsValid}
use noise_ssu.Wire.Packet.{Packet}

-- What a caller of `Insert` goes on to process.
abbrev pub ready : Outcome InsertError (List Packet) → List Packet
ready (ok ps) = ps
ready (err e) = []

-- Packets that arrive one after the other: all that is handed on, and the window after them.
unfoldable pub run : ReceiveWindow → List Packet → List Packet × ReceiveWindow
run win [] = ([], win)
run win (p ∷ ps) =
    let (reply, win') = insert (some p) win in
    let (later, win'') = run win' ps in (ready reply ++ later, win'')

abbrev after_release : Packet → ReceiveWindow → Reply
after_release p win =
    let (ps, e, w) = release (length win.window) (add32 win.expected 1) win.window in
    (ok (p ∷ ps), record win { expected = e; window = w })

insert_expected :
    (p : Packet) (win : ReceiveWindow)
    → p.packet_number ≡ win.expected
    → IsU32 win.expected
    → IsFlowing win
    → insert (some p) win ≡ after_release p win
unfolding insert accept_expected seq_before
insert_expected p win e h f =
    let fresh : lookup p.packet_number win.window ≡ none =
      subst (λ n. lookup n win.window ≡ none) (sym e) f in
    ground (arith, eq→== _ _ e, contains_of_none p.packet_number win.window fresh)

-- Every other packet is refused with the window unchanged, or is buffered under its number.
pub insert_other :
    (p : Packet) (win : ReceiveWindow)
    → p.packet_number ≢ win.expected
    → ((e : InsertError) × (insert (some p) win ≡ (err e, win)))
      ⊎ (insert (some p) win ≡ (ok [], record win { window = put p.packet_number p win.window }))
        × (lookup p.packet_number win.window ≡ none)
unfolding insert buffer_future
insert_other p win ne = elim (Bool-cases (seq_before p.packet_number win.expected)) [
  | inl old ↦ rw old (inl (already_processed, refl))
  | inr near ↦
      rw (near, ne→== _ _ ne)
        (elim (Option-cases (lookup p.packet_number win.window)) [
          | inl l ↦
              rw (contains_of_none p.packet_number win.window l)
                (elim (Bool-cases (leb win.max_size (length win.window))) [
                  | inl full ↦ rw full (inl (window_full, refl))
                  | inr room ↦ rw room (inr (refl, l))
                ])
          | inr (q, l) ↦
              rw (contains_of_some p.packet_number q win.window l) (inl (duplicate_future, refl))
        ])
]

-- From a valid window that does not hold the expected packet, the packets that one `Insert` hands
-- on carry the numbers from the expected one on, without a gap and wrapping at 2^32, and the
-- expected number moves past them.
insert_in_order :
    (p : Packet) {win : ReceiveWindow}
    → IsValid win
    → IsFlowing win
    → let (reply, win') = insert (some p) win in
      (numbers (ready reply) ≡ count_up win.expected (length (ready reply)))
      × (win'.expected ≡ (win.expected + length (ready reply)) % u32_mod)
insert_in_order p {win} v f = elim (Bool-cases (p.packet_number == win.expected)) [
  | inl same ↦
      let e = ==→eq _ _ same in
      let r = accepted-Released v f in
      rw (insert_expected p win e v.expected_u32 f)
        (ap₂ ◌∷◌ e r.in_order, omega (arith, r.advanced, v.expected_u32))
  | inr other ↦ elim (insert_other p win (==→ne _ _ other)) [
    | inl (e, refused) ↦ rw refused (refl, omega (arith, v.expected_u32))
    | inr (buffered, _) ↦ rw buffered (refl, omega (arith, v.expected_u32))
  ]
]

-- No buffered packet is lost by an `Insert`: it stays, or it is handed on.
insert_keeps :
    (p : Packet) {win : ReceiveWindow} (k : ℕ) (q : Packet)
    → IsValid win
    → IsFlowing win
    → lookup k win.window ≡ some q
    → let (reply, win') = insert (some p) win in
      (lookup k win'.window ≡ some q) ⊎ In q (ready reply)
insert_keeps p {win} k q v f m = elim (Bool-cases (p.packet_number == win.expected)) [
  | inl same ↦
      rw (insert_expected p win (==→eq _ _ same) v.expected_u32 f)
        (elim ((accepted-Released v f).kept k q m) [
          | inl there ↦ inl there
          | inr gone ↦ inr (inr gone)
        ])
  | inr other ↦ elim (insert_other p win (==→ne _ _ other)) [
    | inl (e, refused) ↦ rw refused (inl m)
    | inr (buffered, fresh) ↦
        rw buffered (inl (lookup-insert_fresh p.packet_number k p q win.window fresh m))
  ]
]

-- From a valid window that does not hold the expected packet, `Insert` refuses a packet with an
-- error and leaves the window as it is, or the packet waits under its number, or it is handed on.
pub insert_accepts :
    (p : Packet) {win : ReceiveWindow}
    → IsValid win
    → IsFlowing win
    → let (reply, win') = insert (some p) win in
      ((e : InsertError) × (reply ≡ err e) × (win' ≡ win))
      ⊎ (lookup p.packet_number win'.window ≡ some p)
      ⊎ In p (ready reply)
insert_accepts p {win} v f = elim (Bool-cases (p.packet_number == win.expected)) [
  | inl same ↦ rw (insert_expected p win (==→eq _ _ same) v.expected_u32 f) (inr (inr (inl refl)))
  | inr other ↦ elim (insert_other p win (==→ne _ _ other)) [
    | inl (e, refused) ↦ rw refused (inl (e, refl, refl))
    | inr (buffered, fresh) ↦
        rw buffered
          (inr (inl (ground (arith, lookup-insert p.packet_number p.packet_number p win.window))))
  ]
]

count_up-append :
    (e m n : ℕ) → IsU32 e → count_up e (m + n) ≡ count_up e m ++ count_up ((e + m) % u32_mod) n
count_up-append e zero n h = rw (zero-add) (ap (λ k. count_up k n) (omega arith))
count_up-append e (suc m) n h =
    let s : suc m + n ≡ suc (m + n) = omega arith in
    let rest = count_up-append (add32 e 1) m n (omega arith) in
    rw s (ap (◌∷◌ e) (rest ∙ ap (λ k. count_up (add32 e 1) m ++ count_up k n) (omega arith)))

numbers-append : (xs ys : List Packet) → numbers (xs ++ ys) ≡ numbers xs ++ numbers ys
numbers-append xs ys = map-append _ xs ys

abbrev pub AllU32 : List Packet → Type 0
AllU32 ps = All (λ (p : Packet). IsU32 p.packet_number) ps

-- From a valid window that does not hold the expected packet, over any sequence of arrivals with
-- 32-bit numbers, in any order and with any repetition, what is handed on is numbered from the
-- first expected number on, one after the other and wrapping at 2^32, and the expected number is
-- the one after; the window ends as valid.
pub run_in_order :
    (ps : List Packet) {win : ReceiveWindow}
    → AllU32 ps
    → IsValid win
    → IsFlowing win
    → let (out, win') = run win ps in
      (numbers out ≡ count_up win.expected (length out))
      × (win'.expected ≡ (win.expected + length out) % u32_mod)
      × IsValid win'
      × IsFlowing win'
unfolding run
run_in_order [] {win} us v f = (refl, omega (arith, v.expected_u32), v, f)
run_in_order (p ∷ ps) {win} us v f =
    let step = insert (some p) win in
    let kept = insert-IsValid p us.0 v in
    let (here, moved) = insert_in_order p v f in
    let (there, moved', v', f') = run_in_order ps us.1 kept.0 (kept.1 f) in
    let first = ready step.0 in
    let last = (run step.1 ps).0 in
    let many = length-append first last in
    (
      numbers-append first last
          ∙ ap₂ ◌++◌ here (there ∙ ap (λ k. count_up k (length last)) moved)
          ∙ sym (count_up-append win.expected (length first) (length last) v.expected_u32)
          ∙ ap (count_up win.expected) (sym many),
      omega (arith, moved, moved', many),
      v',
      f',
    )

In-append_left : (p : Packet) (xs ys : List Packet) → In p xs → In p (xs ++ ys)
In-append_left p [] ys h = absurd h
In-append_left p (x ∷ xs) ys (inl e) = inl e
In-append_left p (x ∷ xs) ys (inr h) = inr (In-append_left p xs ys h)

In-append_right : (p : Packet) (xs ys : List Packet) → In p ys → In p (xs ++ ys)
In-append_right p [] ys h = h
In-append_right p (x ∷ xs) ys h = inr (In-append_right p xs ys h)

-- From a valid window that does not hold the expected packet, over any sequence of arrivals with
-- 32-bit numbers, a packet that was buffered at the start is handed on or is still buffered at the
-- end.
pub run_keeps :
    (ps : List Packet) {win : ReceiveWindow} (k : ℕ) (q : Packet)
    → AllU32 ps
    → IsValid win
    → IsFlowing win
    → lookup k win.window ≡ some q
    → let (out, win') = run win ps in (lookup k win'.window ≡ some q) ⊎ In q out
unfolding run
run_keeps [] k q us v f m = inl m
run_keeps (p ∷ ps) {win} k q us v f m =
    let step = insert (some p) win in
    let kept = insert-IsValid p us.0 v in
    let last = (run step.1 ps).0 in
    elim (insert_keeps p k q v f m) [
      | inl there ↦ elim (run_keeps ps k q us.1 kept.0 (kept.1 f) there) [
        | inl still ↦ inl still
        | inr out ↦ inr (In-append_right q (ready step.0) last out)
      ]
      | inr out ↦ inr (In-append_left q (ready step.0) last out)
    ]
