-- ===== src/Replay/Detection.antt =====
-- A key that was accepted is told as a replay until its TTL ends.
use noise_ssu.Base.{
  ℕ, ◌+◌, ◌≤◌, ◌<◌, ◌≡◌, refl, sym, ◌∙◌, ap, inl, inr, Bool, true, false, not, some, List, [], ◌∷◌,
  arith, ltb, leb, length, Bool-cases, ==→eq, ◌==◌, eq→==, le→ltb, lt→ltb, true-ne-false,
}
use noise_ssu.Base.Dict.{lookup, IsDict, lookup-insert, lookup-retain, length-retain-le, if_kept}
use noise_ssu.Replay.{TtlCache, is_fresh, check_and_add, evict_expired}
use noise_ssu.Replay.Bounded.{
  IsValid, Call, check, cleanup, clear, step, run, length-insert-le, step-IsValid,
  check_and_add-IsValid,
}

-- No reset, and every check and cleanup before a time.
abbrev pub Before : ℕ → List Call → Type 0
Before deadline [] = Unit
Before deadline (check key now ∷ es) = (now < deadline) × Before deadline es
Before deadline (cleanup now ∷ es) = (now < deadline) × Before deadline es
Before deadline (clear ∷ es) = ⊥

fresh_found :
    (key now first : ℕ) (c : TtlCache)
    → lookup key c.entries ≡ some first
    → now < first + c.ttl
    → check_and_add key now c ≡ (true, c)
unfolding check_and_add is_fresh
fresh_found key now first c l h = let fresh = lt→ltb _ _ h in rw (l, fresh) refl

added :
    (key now : ℕ) (c : TtlCache)
    → (check_and_add key now c).0 ≡ false
    → (lookup key (check_and_add key now c).1.entries ≡ some now)
      × ((check_and_add key now c).1.ttl ≡ c.ttl)
      × ((check_and_add key now c).1.max_size ≡ c.max_size)
unfolding check_and_add
added key now c h = elim (Bool-cases (is_fresh now c.ttl (lookup key c.entries))) [
  | inl replayed ↦ absurd (true-ne-false (rw replayed at h))
  | inr new ↦
      let self : (key == key) ≡ true = eq→== key key refl in
      rw new (lookup-insert key key now _ ∙ rw self refl, refl, refl)
]

-- What a call leaves of a fresh entry, where there is room.
abbrev Kept : ℕ → ℕ → TtlCache → TtlCache → Type 0
Kept key first c c' =
    (lookup key c'.entries ≡ some first)
    × (length c'.entries ≤ length c.entries + 1)
    × (c'.ttl ≡ c.ttl)
    × (c'.max_size ≡ c.max_size)

check-Kept :
    (key first other now : ℕ) (c : TtlCache)
    → lookup key c.entries ≡ some first
    → now < first + c.ttl
    → length c.entries < c.max_size
    → Kept key first c (check_and_add other now c).1
unfolding check_and_add
check-Kept key first other now c l h room =
    elim (Bool-cases (is_fresh now c.ttl (lookup other c.entries))) [
      | inl replayed ↦ rw replayed (l, omega arith, refl, refl)
      | inr new ↦
          let open_place : leb c.max_size (length c.entries) ≡ false = ground arith in
          rw (new, open_place)
            (
              elim (Bool-cases (other == key)) [
                | inl same ↦ absurd (
                    true-ne-false (
                      ap (λ (r : Bool × TtlCache). r.0) (sym (fresh_found key now first c l h))
                      ∙ ap (λ k. (check_and_add k now c).0) (sym (==→eq other key same))
                      ∙ not_found other now new))
                | inr apart ↦ lookup-insert other key now c.entries ∙ rw apart l
              ],
              length-insert-le other now c.entries,
              refl,
              refl,
            )
    ]
  where
    not_found :
        (k now : ℕ)
        → is_fresh now c.ttl (lookup k c.entries) ≡ false
        → (check_and_add k now c).0 ≡ false
    not_found k now e = rw e refl

cleanup-Kept :
    (key first now : ℕ) (c : TtlCache)
    → IsDict c.entries
    → lookup key c.entries ≡ some first
    → now < first + c.ttl
    → Kept key first c (evict_expired now c)
unfolding evict_expired
cleanup-Kept key first now c u l h =
    let stays : ltb (first + c.ttl) now ≡ false = le→ltb _ _ (omega arith) in
    (
      lookup-retain _ key c.entries u
          ∙ ap (if_kept (λ k seen. not (ltb (seen + c.ttl) now)) key) l
          ∙ rw stays refl,
      omega (arith, length-retain-le (λ k seen. not (ltb (seen + c.ttl) now)) c.entries),
      refl,
      refl,
    )

run-lookup :
    (es : List Call) (key first deadline : ℕ) (c : TtlCache)
    → IsValid c
    → lookup key c.entries ≡ some first
    → first + c.ttl ≡ deadline
    → Before deadline es
    → length c.entries + length es ≤ c.max_size
    → (lookup key (run es c).entries ≡ some first) × ((run es c).ttl ≡ c.ttl)
unfolding run step check_and_add
run-lookup [] key first deadline c v l d b n = (l, refl)
run-lookup (e ∷ es) key first deadline c v l d b n =
    let (k, rest) = kept e b in
    let (l', n', t, m) = k in
    let (found, t') =
      run-lookup es key first deadline (step e c) (step-IsValid e c v) l' (omega (arith, t)) rest
        (omega (arith, n', m)) in
    (found, t' ∙ t)
  where
    kept : (e : Call) → Before deadline (e ∷ es) → Kept key first c (step e c) × Before deadline es
    kept (check other now) b =
        (check-Kept key first other now c l (omega (arith, b.0)) (omega arith), b.1)
    kept (cleanup now) b = (cleanup-Kept key first now c v.keyed l (omega (arith, b.0)), b.1)
    kept clear b = absurd b

-- A key that a valid cache accepted at one time is told as a replay at every time before its TTL
-- ends, whatever checks and cleanups before that end come between, as long as the cache has room
-- for the keys they may add.
pub replay_refused :
    (key first now : ℕ) (es : List Call) {c : TtlCache}
    → IsValid c
    → (check_and_add key first c).0 ≡ false
    → Before (first + c.ttl) es
    → length (check_and_add key first c).1.entries + length es ≤ c.max_size
    → now < first + c.ttl
    → (check_and_add key now (run es (check_and_add key first c).1)).0 ≡ true
replay_refused key first now es {c} v fresh b n h =
    let (l, t, m) = added key first c fresh in
    let c' = (check_and_add key first c).1 in
    let (found, t') =
      run-lookup es key first (first + c.ttl) c' (check_and_add-IsValid key first v) l
        (omega (arith, t)) b (omega (arith, m)) in
    ap (λ (r : Bool × TtlCache). r.0)
      (fresh_found key now first (run es c') found (omega (arith, t, t')))
