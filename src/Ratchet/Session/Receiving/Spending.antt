-- ===== src/Ratchet/Session/Receiving/Spending.antt =====
-- A counter is spent, and the base of the window moves past the counters that are.
use noise_ssu.Base.{
  ℕ, zero, suc, ◌+◌, ◌-◌, ◌≤◌, ◌<◌, ◌≡◌, refl, ◌∙◌, true, false, none, List, ◌∷◌, ◌==◌, arith,
  if◌then◌else◌, inl, inr, Bool-cases, ==→eq,
}
use noise_ssu.Base.Dict.{erase, contains, lookup-erase, contains_of_some}
use noise_ssu.Base.U32.{add32}
use noise_ssu.Ratchet.Session.{Crypto, Session}
use noise_ssu.Ratchet.Session.Receiving.{advance_base, spend}
use noise_ssu.Ratchet.Session.Receiving.Window.{is_in, held, IsSynced}

module _ (C : Crypto) (chain : ℕ → C.Sym) (key : ℕ → ℕ) where
  -- A counter whose key is gone was spent.
  spent_of_gone :
      (spent : List ℕ) (s : Session C) (c : ℕ)
      → IsSynced C chain key spent s
      → contains c s.recv_key_cache ≡ false
      → 1 ≤ c
      → c < s.recv_fill_mark
      → is_in c spent ≡ true
  spent_of_gone spent s c v gone pos low = elim (Bool-cases (is_in c spent)) [
    | inl old ↦ old
    | inr new ↦
        let there = contains_of_some c (key c) s.recv_key_cache (v.cache c ∙ ground (arith, new)) in
        cc
  ]

  -- The base moved past a spent counter.
  past_spent :
      (spent : List ℕ) (s : Session C)
      → IsSynced C chain key spent s
      → s.recv_window_base < s.recv_fill_mark
      → contains s.recv_window_base s.recv_key_cache ≡ false
      → IsSynced C chain key spent (record s { recv_window_base = suc s.recv_window_base })
  past_spent spent s v low gone = record {
    ratchet = v.ratchet;
    cache = v.cache;
    passed = λ c pos below. elim (Bool-cases (c == s.recv_window_base)) [
      | inl same ↦
          rw (==→eq _ _ same) (spent_of_gone spent s s.recv_window_base v gone v.positive low)
      | inr other ↦ v.passed c pos (ground (arith, other, below))
    ];
    known = v.known;
    positive = omega arith;
    ordered = omega arith;
    bounded = v.bounded;
  }

  -- What the moving of the base leaves alone.
  abbrev pub IsKept : Session C → Session C → Type 0
  IsKept s t =
      (t.recv_fill_mark ≡ s.recv_fill_mark)
      × (t.pending_tags ≡ s.pending_tags)
      × (t.is_initiator ≡ s.is_initiator)
      × (s.recv_window_base ≤ t.recv_window_base)

  advance_base-IsSynced :
      (n : ℕ) (spent : List ℕ) (s : Session C)
      → IsSynced C chain key spent s
      → s.recv_window_base + n ≤ s.recv_fill_mark
      → IsSynced C chain key spent (advance_base C n s) × IsKept s (advance_base C n s)
  unfolding advance_base
  advance_base-IsSynced zero spent s v room = (v, (refl, refl, refl, omega arith))
  advance_base-IsSynced (suc n) spent s v room =
      elim (Bool-cases (contains s.recv_window_base s.recv_key_cache)) [
        | inl there ↦ rw there (v, (refl, refl, refl, omega arith))
        | inr gone ↦
            let next : add32 s.recv_window_base 1 ≡ suc s.recv_window_base =
              omega (arith, v.bounded) in
            let moved : Session C = record s { recv_window_base = suc s.recv_window_base } in
            let (w, (mark, tags, role, base)) =
              advance_base-IsSynced n spent moved (past_spent spent s v (omega arith) gone)
                (omega arith) in
            rw (gone, next) (w, (mark, tags, role, omega (arith, base)))
      ]

  held-cons :
      (spent : List ℕ) (mark c d : ℕ)
      → (if c == d then none else held C chain key spent mark d)
        ≡ held C chain key (c ∷ spent) mark d
  unfolding is_in
  held-cons spent mark c d = ground arith

  spent_erased :
      (c : ℕ) (spent : List ℕ) (s : Session C)
      → IsSynced C chain key spent s
      → c < s.recv_fill_mark
      → c < 65536
      → IsSynced C chain key (c ∷ spent) (record s { recv_key_cache = erase c s.recv_key_cache })
  unfolding is_in
  spent_erased c spent s v low small = record {
    ratchet = v.ratchet;
    cache = λ d.
        lookup-erase c d s.recv_key_cache ∙ rw (v.cache d) (held-cons spent s.recv_fill_mark c d);
    passed = λ d pos below. ground (arith, v.passed d pos below);
    known = λ d h. elim (Bool-cases (c == d)) [
      | inl same ↦ (omega (arith, ==→eq c d same), omega (arith, ==→eq c d same))
      | inr other ↦ v.known d (ground (arith, other, h))
    ];
    positive = v.positive;
    ordered = v.ordered;
    bounded = v.bounded;
  }

  -- What is done once a counter has opened a message.
  pub spend-IsSynced :
      (now c : ℕ) (spent : List ℕ) (s : Session C)
      → IsSynced C chain key spent s
      → c < s.recv_fill_mark
      → c < 65536
      → IsSynced C chain key (c ∷ spent) (spend C now c s) × IsKept s (spend C now c s)
  unfolding spend
  spend-IsSynced now c spent s v low small =
      let erased : Session C = record s { recv_key_cache = erase c s.recv_key_cache } in
      let (w, kept) =
        advance_base-IsSynced (s.recv_fill_mark - s.recv_window_base) (c ∷ spent) erased
          (spent_erased c spent s v low small) (omega (arith, v.ordered)) in
      (
        record {
          ratchet = w.ratchet;
          cache = w.cache;
          passed = w.passed;
          known = w.known;
          positive = w.positive;
          ordered = w.ordered;
          bounded = w.bounded;
        },
        kept,
      )
