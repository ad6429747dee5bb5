-- ===== src/Ratchet/Session/Receiving/Window.antt =====
-- The receive window: which keys it holds after messages of some counters were opened.
use noise_ssu.Base.{
  ℕ, zero, suc, ◌+◌, ◌-◌, ◌≤◌, ◌<◌, ◌≡◌, refl, ◌∙◌, ap, Bool, true, false, not, ◌&&◌, Option, none,
  some, List, [], ◌∷◌, ltb, ◌==◌, ◌||◌, arith, if◌then◌else◌, ok, inl, inr, Bool-cases, ==→eq,
}
use noise_ssu.Base.Dict.{lookup, insert, lookup-insert}
use noise_ssu.Base.U32.{add32}
use noise_ssu.Ratchet.Session.{Crypto, Session}
use noise_ssu.Ratchet.Session.Receiving.{derive_next, fill_rounds, fill_with, fill_recv_key_cache}

-- That a counter is in a list.
unfoldable pub is_in : ℕ → List ℕ → Bool
is_in c [] = false
is_in c (d ∷ ds) = (d == c) || is_in c ds

module _ (C : Crypto) (chain : ℕ → C.Sym) (key : ℕ → ℕ) where
  -- The chain of ratchets, and the key that each gives: what `DeriveMessageKeyAndAdvance` computes.
  abbrev pub IsChain : Type 0
  IsChain = (n : ℕ) → C.derive_message_key (chain n) n ≡ some (key n, chain (suc n))

  -- What the cache holds of a counter, where the messages of `spent` were opened.
  abbrev pub held : List ℕ → ℕ → ℕ → Option ℕ
  held spent mark c = if ltb c mark && ltb 0 c && not (is_in c spent) then some (key c) else none

  -- The window of a session that has opened the messages of `spent`.
  pub record IsSynced (spent : List ℕ) (s : Session C) : Type 0 where
    pub ratchet : s.recv_symmetric_ratchet ≡ some (chain s.recv_fill_mark)
    pub cache : (c : ℕ) → lookup c s.recv_key_cache ≡ held spent s.recv_fill_mark c
    pub passed : (c : ℕ) → 1 ≤ c → c < s.recv_window_base → is_in c spent ≡ true
    pub known : (c : ℕ) → is_in c spent ≡ true → (c < s.recv_fill_mark) × (c < 65536)
    pub positive : 1 ≤ s.recv_window_base
    pub ordered : s.recv_window_base ≤ s.recv_fill_mark
    pub bounded : s.recv_fill_mark ≤ 65664

  -- The session after the loop that derives keys.
  abbrev pub IsFilled : List ℕ → ℕ → Session C → Session C → Type 0
  IsFilled spent mark s t =
      IsSynced spent t
      × (t.recv_fill_mark ≡ mark)
      × (t.recv_window_base ≡ s.recv_window_base)
      × (t.pending_tags ≡ s.pending_tags)
      × (t.is_initiator ≡ s.is_initiator)

  module _ (derives : IsChain) where
    mark_fresh :
        (spent : List ℕ) (s : Session C) → IsSynced spent s → is_in s.recv_fill_mark spent ≡ false
    mark_fresh spent s v = elim (Bool-cases (is_in s.recv_fill_mark spent)) [
      | inl old ↦ absurd (omega (arith, (v.known s.recv_fill_mark old).0))
      | inr new ↦ new
    ]

    -- The key at the mark extends what is held.
    held-suc :
        (spent : List ℕ) (mark c : ℕ)
        → is_in mark spent ≡ false
        → 1 ≤ mark
        → (if mark == c then some (key mark) else held spent mark c) ≡ held spent (suc mark) c
    held-suc spent mark c fresh pos = elim (Bool-cases (mark == c)) [
      | inl same ↦
          let e : mark ≡ c = ==→eq mark c same in
          ground (arith, e, ap key e, fresh, ap (λ x. is_in x spent) e)
      | inr other ↦ ground (arith, other)
    ]

    fill_round :
        (spent : List ℕ) (s : Session C)
        → IsSynced spent s
        → s.recv_fill_mark < 65664
        → (t : Session C) × (derive_next C (chain s.recv_fill_mark) s
            ≡ (ok (chain (suc s.recv_fill_mark)), t))
          × IsFilled spent (suc s.recv_fill_mark) s t
    unfolding derive_next
    fill_round spent s v room =
        let mark = s.recv_fill_mark in
        let next : add32 mark 1 ≡ suc mark = omega arith in
        (
          record s {
            recv_symmetric_ratchet = some (chain (suc mark));
            recv_key_cache = insert mark (key mark) s.recv_key_cache;
            recv_fill_mark = suc mark;
          },
          rw (derives mark, derive_next, next) refl,
          (
            record {
              ratchet = refl;
              cache = λ c.
                  lookup-insert mark c (key mark) s.recv_key_cache
                  ∙ rw (v.cache c) (
                      held-suc spent mark c (mark_fresh spent s v)
                        (omega (arith, v.positive, v.ordered)));
              passed = v.passed;
              known = λ c h. (omega (arith, (v.known c h).0), (v.known c h).1);
              positive = v.positive;
              ordered = omega (arith, v.ordered);
              bounded = omega arith;
            },
            refl,
            refl,
            refl,
            refl,
          ),
        )

    fill_rounds-IsFilled :
        (n : ℕ) (spent : List ℕ) (s : Session C)
        → IsSynced spent s
        → s.recv_fill_mark + n ≤ 65664
        → (t : Session C) × (fill_rounds C n (chain s.recv_fill_mark) s ≡ (ok tt, t))
          × IsFilled spent (s.recv_fill_mark + n) s t
    unfolding fill_rounds
    fill_rounds-IsFilled zero spent s v room = (s, refl, (v, omega arith, refl, refl, refl))
    fill_rounds-IsFilled (suc n) spent s v room =
        let (t, step, (vt, mark, base, tags, role)) = fill_round spent s v (omega arith) in
        let (u, rest, (vu, mark', base', tags', role')) =
          fill_rounds-IsFilled n spent t vt (omega (arith, mark)) in
        (
          u,
          rw step (rw (← mark) rest),
          (vu, omega (arith, mark, mark'), base' ∙ base, tags' ∙ tags, role' ∙ role),
        )

    -- Keys are derived up to an end, or none where the mark is past it.
    pub fill_recv_key_cache-IsFilled :
        (up_to : ℕ) (spent : List ℕ) (s : Session C)
        → IsSynced spent s
        → up_to ≤ 65664
        → (t : Session C) × (fill_recv_key_cache C up_to s ≡ (ok tt, t))
          × IsFilled spent (s.recv_fill_mark + (up_to - s.recv_fill_mark)) s t
    unfolding fill_recv_key_cache fill_with
    fill_recv_key_cache-IsFilled up_to spent s v room =
        let (t, e, filled) =
          fill_rounds-IsFilled (up_to - s.recv_fill_mark) spent s v (omega (arith, v.bounded)) in
        (t, ap (λ o. fill_with C up_to o s) v.ratchet ∙ e, filled)
