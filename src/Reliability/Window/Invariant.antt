-- ===== src/Reliability/Window/Invariant.antt =====
-- The invariant of the receive window, and that its methods keep it.
use noise_ssu.Base.{
  ℕ, ◌≤◌, ◌<◌, ◌≡◌, sym, subst, ◌⊎◌, inl, inr, false, not, Bool, ◌≢◌, leb→lt, ==→ne, none, some,
  ◌∙◌, ap, none-ne-some, arith, length, Option-cases, ==→eq, ◌==◌, Bool-cases, leb,
}
use noise_ssu.Base.U32.{add32, sub32, IsU32}
use noise_ssu.Base.Dict.{
  Dict, lookup, contains_of_some, contains_of_none, IsDict, lookup-nil, lookup-insert,
  insert-IsDict, length-insert_fresh, retain-IsDict, lookup-retain, length-retain-le, if_kept,
  insert as put, retain,
}
use noise_ssu.Reliability.Window.{
  ReceiveWindow, new_receive_window, insert, accept_expected, buffer_future, release, seq_before,
  set_expected,
}
use noise_ssu.Reliability.Window.Release.{Entries, Released, release-Released}
use noise_ssu.Wire.Packet.{Packet}

pub record IsValid (win : ReceiveWindow) : Type 0 where
  pub expected_u32 : IsU32 win.expected
  pub keyed : IsDict win.window
  pub bounded : length win.window ≤ win.max_size
  pub entries : Entries win.expected win.window

-- The next packet in order is not itself waiting in the buffer.
abbrev pub IsFlowing : ReceiveWindow → Type 0
IsFlowing win = lookup win.expected win.window ≡ none

pub new_receive_window-IsValid :
    (e n : ℕ) → IsU32 e → IsValid (new_receive_window e n) × IsFlowing (new_receive_window e n)
unfolding new_receive_window
new_receive_window-IsValid e n h = (
  record {
    expected_u32 = h;
    keyed = tt;
    bounded = omega arith;
    entries = λ k p m. absurd (none-ne-some (sym (lookup-nil k) ∙ m));
  },
  lookup-nil e,
)

-- Past the packet that was expected, everything buffered lies in the half space from `e + 1`.
Entries-next :
    (e : ℕ) (w : Dict Packet) → IsU32 e → lookup e w ≡ none → Entries e w → Entries (add32 e 1) w
Entries-next e w he l h k p m = elim (Bool-cases (e == k)) [
  | inl same ↦ absurd (none-ne-some (sym l ∙ ap (λ n. lookup n w) (==→eq e k same) ∙ m))
  | inr other ↦ let (n, k32, near) = h k p m in ground (arith, other, n, k32, near)
]

-- What the expected packet sets free, from a window that does not hold it.
pub accepted-Released :
    {win : ReceiveWindow}
    → IsValid win
    → IsFlowing win
    → Released
        (add32 win.expected 1)
        win.window
        (release (length win.window) (add32 win.expected 1) win.window)
accepted-Released {win} v f =
    release-Released (length win.window) (add32 win.expected 1) win.window (omega arith) v.keyed
      (Entries-next win.expected win.window v.expected_u32 f v.entries) (omega arith)

accept_expected-IsValid :
    (p : Packet) {win : ReceiveWindow}
    → p.packet_number ≡ win.expected
    → IsValid win
    → IsValid (accept_expected p win).1 × (IsFlowing win → IsFlowing (accept_expected p win).1)
unfolding accept_expected
accept_expected-IsValid p {win} e v = elim (Option-cases (lookup p.packet_number win.window)) [
  | inl l ↦
      let r = accepted-Released v (subst (λ n. lookup n win.window ≡ none) e l) in
      rw (contains_of_none p.packet_number win.window l) (
        record {
          expected_u32 = omega (arith, r.advanced);
          keyed = r.keyed;
          bounded = omega (arith, r.smaller, v.bounded);
          entries = r.entries;
        },
        λ _. r.stopped,
      )
  | inr (q, l) ↦ rw (contains_of_some p.packet_number q win.window l) (v, λ f. f)
]

Entries-insert :
    (e : ℕ) (w : Dict Packet) (p : Packet)
    → IsU32 p.packet_number
    → seq_before p.packet_number e ≡ false
    → Entries e w
    → Entries e (put p.packet_number p w)
unfolding seq_before
Entries-insert e w p hp near h k q m = elim (Bool-cases (p.packet_number == k)) [
  | inl same ↦
      let eq : p.packet_number ≡ k = ==→eq p.packet_number k same in
      let pq : p ≡ q = ground (arith, same, lookup-insert p.packet_number k p w) in
      subst (λ (x : Packet). (x.packet_number ≡ k) × IsU32 k × (sub32 k e < 0x8000_0000)) pq
        (eq, omega arith, subst (λ n. sub32 n e < 0x8000_0000) eq (leb→lt _ _ near))
  | inr other ↦ h k q (ground (arith, other, lookup-insert p.packet_number k p w))
]

buffer_future-IsValid :
    (p : Packet) {win : ReceiveWindow}
    → IsU32 p.packet_number
    → p.packet_number ≢ win.expected
    → seq_before p.packet_number win.expected ≡ false
    → IsValid win
    → IsValid (buffer_future p win).1 × (IsFlowing win → IsFlowing (buffer_future p win).1)
unfolding buffer_future
buffer_future-IsValid p {win} hp ne near v =
    elim (Option-cases (lookup p.packet_number win.window)) [
      | inl l ↦
          rw (contains_of_none p.packet_number win.window l)
            (elim (Bool-cases (leb win.max_size (length win.window))) [
              | inl full ↦ rw full (v, λ f. f)
              | inr room ↦ rw room (
                record {
                  expected_u32 = v.expected_u32;
                  keyed = insert-IsDict p.packet_number p win.window v.keyed;
                  bounded =
                      omega (
                        arith,
                        length-insert_fresh p.packet_number p win.window l,
                        leb→lt _ _ room,
                      );
                  entries = Entries-insert win.expected win.window p hp near v.entries;
                },
                λ f. ground (arith, lookup-insert p.packet_number win.expected p win.window),
              )
            ])
      | inr (q, l) ↦ rw (contains_of_some p.packet_number q win.window l) (v, λ f. f)
    ]

pub insert-IsValid :
    (p : Packet) {win : ReceiveWindow}
    → IsU32 p.packet_number
    → IsValid win
    → IsValid (insert (some p) win).1 × (IsFlowing win → IsFlowing (insert (some p) win).1)
unfolding insert
insert-IsValid p {win} hp v = elim (Bool-cases (seq_before p.packet_number win.expected)) [
  | inl old ↦ rw old (v, λ f. f)
  | inr near ↦ rw near (elim (Bool-cases (p.packet_number == win.expected)) [
    | inl same ↦ rw same (accept_expected-IsValid p (==→eq _ _ same) v)
    | inr other ↦ rw other (buffer_future-IsValid p hp (==→ne _ _ other) near v)
  ])
]

-- `Insert` of a packet with a 32-bit number keeps a valid window that does not hold the expected
-- packet so, on every branch.
pub insert_preserves :
    (p : Packet) {win : ReceiveWindow}
    → IsU32 p.packet_number
    → IsValid win
    → IsFlowing win
    → IsValid (insert (some p) win).1 × IsFlowing (insert (some p) win).1
insert_preserves p hp v f = let (v', f') = insert-IsValid p hp v in (v', f' f)

-- `SetExpected` with a 32-bit number keeps a valid window valid.
set_expected-IsValid :
    (e : ℕ) {win : ReceiveWindow} → IsU32 e → IsValid win → IsValid (set_expected e win)
unfolding set_expected seq_before
set_expected-IsValid e {win} he v = record {
  expected_u32 = he;
  keyed = retain-IsDict _ win.window v.keyed;
  bounded = omega (arith, length-retain-le test win.window, v.bounded);
  entries = λ k p m. kept k p (Option-cases (lookup k win.window)) m;
}
  where
    test : ℕ → Packet → Bool
    test = λ number _. not (seq_before number e)

    kept :
        (k : ℕ) (p : Packet)
        → (lookup k win.window ≡ none) ⊎ ((q : Packet) × (lookup k win.window ≡ some q))
        → lookup k (retain test win.window) ≡ some p
        → (p.packet_number ≡ k) × IsU32 k × (sub32 k e < 0x8000_0000)
    kept k p (inl l) m =
        absurd
          (none-ne-some (sym (lookup-retain test k win.window v.keyed ∙ ap (if_kept test k) l) ∙ m))
    kept k p (inr (q, l)) m =
        let after = sym (lookup-retain test k win.window v.keyed ∙ ap (if_kept test k) l) ∙ m in
        let (n, k32, _) = v.entries k q l in ground (arith, after, n, k32)
