-- ===== src/Reliability/Window/Stuck.antt =====
-- A window whose expected packet is already in its buffer: what `Insert` and `SetExpected` do there.
use noise_ssu.Base.{
  ℕ, ◌≡◌, refl, sym, subst, inl, inr, false, not, some, List, [], ◌∷◌, ◌++◌, ◌∙◌, ap, ap₂, arith,
  ==→eq, ==→ne, ◌==◌, Bool-cases, err, leb, eq→==, Bool,
}
use noise_ssu.Base.U32.{sub32, IsU32}
use noise_ssu.Base.Dict.{lookup, contains_of_some, lookup-insert_fresh, lookup-retain, if_kept}
use noise_ssu.Reliability.Window.{
  ReceiveWindow, insert, accept_expected, seq_before, set_expected, duplicate_expected,
}
use noise_ssu.Reliability.Window.Invariant.{IsValid}
use noise_ssu.Reliability.Window.Delivery.{ready, run, insert_other}
use noise_ssu.Wire.Packet.{Packet}

-- A window that holds the packet which it expects.
abbrev IsStuck : ReceiveWindow → Type 0
IsStuck win = (q : Packet) × (lookup win.expected win.window ≡ some q)

insert_stuck_expected :
    (p : Packet) (win : ReceiveWindow)
    → IsU32 win.expected
    → IsStuck win
    → p.packet_number ≡ win.expected
    → insert (some p) win ≡ (err duplicate_expected, win)
unfolding insert accept_expected seq_before
insert_stuck_expected p win h (q, l) e =
    let held = subst (λ n. lookup n win.window ≡ some q) (sym e) l in
    ground (arith, eq→== _ _ e, contains_of_some p.packet_number q win.window held)

insert-IsStuck :
    (p : Packet) (win : ReceiveWindow)
    → IsU32 win.expected
    → IsStuck win
    → let (reply, win') = insert (some p) win in
      (ready reply ≡ []) × IsU32 win'.expected × IsStuck win'
insert-IsStuck p win h (q, l) = elim (Bool-cases (p.packet_number == win.expected)) [
  | inl same ↦ rw (insert_stuck_expected p win h (q, l) (==→eq _ _ same)) (refl, h, (q, l))
  | inr other ↦ elim (insert_other p win (==→ne _ _ other)) [
    | inl (e, refused) ↦ rw refused (refl, h, (q, l))
    | inr (buffered, fresh) ↦
        rw buffered
          (refl, h, (q, lookup-insert_fresh p.packet_number win.expected p q win.window fresh l))
  ]
]

run_stuck :
    (ps : List Packet) (win : ReceiveWindow)
    → IsU32 win.expected
    → IsStuck win
    → (run win ps).0 ≡ []
unfolding run
run_stuck [] win h s = refl
run_stuck (p ∷ ps) win h s =
    let (none_now, h', s') = insert-IsStuck p win h s in
    ap₂ ◌++◌ none_now (run_stuck ps (insert (some p) win).1 h' s')

-- Where `SetExpected` names a packet that a valid window already buffers, no sequence of arrivals
-- makes the window hand on a packet again.
pub set_expected_stuck :
    (n : ℕ) (q : Packet) {win : ReceiveWindow} (ps : List Packet)
    → IsValid win
    → lookup n win.window ≡ some q
    → (run (set_expected n win) ps).0 ≡ []
unfolding set_expected seq_before
set_expected_stuck n q {win} ps v l =
    run_stuck ps (set_expected n win) (v.entries n q l).1 (q, still)
  where
    test : ℕ → Packet → Bool
    test = λ number _. not (seq_before number n)

    passes : leb 0x8000_0000 (sub32 n n) ≡ false
    passes = ground (arith, (v.entries n q l).1)

    still : lookup n (set_expected n win).window ≡ some q
    still = lookup-retain test n win.window v.keyed ∙ ap (if_kept test n) l ∙ rw passes
