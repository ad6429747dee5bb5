-- ===== src/Replay/Bounded.antt =====
-- The cache never holds more entries than its maximum, nor two of one key.
use noise_ssu.Base.{
  ℕ, suc, ◌+◌, ◌≤◌, ◌<◌, ◌≡◌, refl, sym, ap, inl, inr, true, not, none, some, List, [], ◌∷◌, arith,
  ltb, leb, length, take, Bool-cases, Option-cases, leb→le, leb→lt, none-ne-some, ◌==◌, ==→eq,
  eq→==, ◌∙◌, ◌-◌, subst,
}
use noise_ssu.Base.Dict.{
  Dict, lookup, insert, erase, IsDict, insert-IsDict, erase-IsDict, retain-IsDict, length-retain-le,
  length-erase-le, length-insert_fresh, length-insert_present, length-erase_present,
}
use noise_ssu.Replay.{
  TtlCache, new, insert_by_time, sort_by_time, erase_keys, evict_count, evict_oldest, is_fresh,
  check_and_add, reset, evict_expired,
}

pub record IsValid (c : TtlCache) : Type 0 where
  pub keyed : IsDict c.entries
  pub room : 0 < c.max_size
  pub bounded : length c.entries ≤ c.max_size

erase_keys-IsDict : (gone d : Dict ℕ) → IsDict d → IsDict (erase_keys gone d)
unfolding erase_keys
erase_keys-IsDict [] d h = h
erase_keys-IsDict ((k, t) ∷ gone) d h = erase_keys-IsDict gone (erase k d) (erase-IsDict k d h)

length-erase_keys-le : (gone d : Dict ℕ) → length (erase_keys gone d) ≤ length d
unfolding erase_keys
length-erase_keys-le [] d = omega arith
length-erase_keys-le ((k, t) ∷ gone) d =
    omega (arith, length-erase_keys-le gone (erase k d), length-erase-le k d)

-- An entry of the sorted list is one of the cache's.
abbrev Held : Dict ℕ → Dict ℕ → Type 0
Held [] d = Unit
Held ((k, t) ∷ xs) d = (lookup k d ≡ some t) × Held xs d

Held-insert_by_time :
    (k t : ℕ) (xs d : Dict ℕ) → lookup k d ≡ some t → Held xs d → Held (insert_by_time (k, t) xs) d
unfolding insert_by_time
Held-insert_by_time k t [] d h hs = (h, tt)
Held-insert_by_time k t ((j, s) ∷ xs) d h hs = elim (Bool-cases (ltb s t)) [
  | inl e ↦ rw e (hs.0, Held-insert_by_time k t xs d h hs.1)
  | inr e ↦ rw e (h, hs)
]

first_of_sorted :
    (k t : ℕ) (d : Dict ℕ) → (x : ℕ × ℕ) × (xs : Dict ℕ) × (insert_by_time (k, t) d ≡ x ∷ xs)
unfolding insert_by_time
first_of_sorted k t [] = ((k, t), [], refl)
first_of_sorted k t ((j, s) ∷ xs) = elim (Bool-cases (ltb s t)) [
  | inl e ↦ rw e ((j, s), insert_by_time (k, t) xs, refl)
  | inr e ↦ rw e ((k, t), (j, s) ∷ xs, refl)
]

Held-cons :
    (xs : Dict ℕ) (k t : ℕ) (d : Dict ℕ) → lookup k d ≡ none → Held xs d → Held xs ((k, t) ∷ d)
unfolding lookup
Held-cons [] k t d l h = tt
Held-cons ((j, s) ∷ xs) k t d l h = elim (Bool-cases (k == j)) [
  | inl e ↦ absurd (none-ne-some (sym l ∙ ap (λ n. lookup n d) (==→eq k j e) ∙ h.0))
  | inr e ↦ rw e (h.0, Held-cons xs k t d l h.1)
]

Held-sort_by_time : (d : Dict ℕ) → IsDict d → Held (sort_by_time d) d
unfolding sort_by_time lookup
Held-sort_by_time [] u = tt
Held-sort_by_time ((k, t) ∷ d) u =
    let self : (k == k) ≡ true = eq→== k k refl in
    let here : lookup k ((k, t) ∷ d) ≡ some t = rw self refl in
    Held-insert_by_time k t (sort_by_time d) ((k, t) ∷ d) here
      (Held-cons (sort_by_time d) k t d u.0 (Held-sort_by_time d u.1))

count_positive : (d : Dict ℕ) → (m : ℕ) × (evict_count d ≡ suc m)
unfolding evict_count
count_positive d = (evict_count d - 1, ground arith)

-- An eviction makes room.
evict_oldest-lt : (d : Dict ℕ) → IsDict d → 0 < length d → length (evict_oldest d) < length d
unfolding evict_oldest sort_by_time erase_keys
evict_oldest-lt [] u h = absurd (omega arith)
evict_oldest-lt ((k, t) ∷ d) u h =
    let ((j, s), xs, e) = first_of_sorted k t (sort_by_time d) in
    let (m, c) = count_positive ((k, t) ∷ d) in
    let held : Held ((j, s) ∷ xs) ((k, t) ∷ d) =
      subst (λ l. Held l ((k, t) ∷ d)) e (Held-sort_by_time ((k, t) ∷ d) u) in
    let less = length-erase_present j s ((k, t) ∷ d) u held.0 in
    let rest = length-erase_keys-le (take m xs) (erase j ((k, t) ∷ d)) in
    rw (c, e) (omega (arith, less, rest))

pub length-insert-le : (k t : ℕ) (d : Dict ℕ) → length (insert k t d) ≤ length d + 1
length-insert-le k t d = elim (Option-cases (lookup k d)) [
  | inl e ↦ omega (arith, length-insert_fresh k t d e)
  | inr (s, e) ↦ omega (arith, length-insert_present k t s d e)
]

-- A check of a key, whatever it answers, keeps a cache that is within its bound, of one entry or
-- more, and whose keys are distinct so.
pub check_and_add-IsValid :
    (key now : ℕ) {c : TtlCache} → IsValid c → IsValid (check_and_add key now c).1
unfolding check_and_add evict_oldest
check_and_add-IsValid key now {c} v =
    elim (Bool-cases (is_fresh now c.ttl (lookup key c.entries))) [
      | inl replayed ↦ rw replayed v
      | inr added ↦ rw added (elim (Bool-cases (leb c.max_size (length c.entries))) [
        | inl full ↦
            let less = evict_oldest-lt c.entries v.keyed (omega (arith, v.room, leb→le _ _ full)) in
            rw full (record {
              keyed = insert-IsDict key now _ (erase_keys-IsDict _ c.entries v.keyed);
              room = v.room;
              bounded =
                  omega (arith, less, v.bounded, length-insert-le key now (evict_oldest c.entries));
            })
        | inr open_place ↦ rw open_place (record {
          keyed = insert-IsDict key now c.entries v.keyed;
          room = v.room;
          bounded = omega (arith, leb→lt _ _ open_place, length-insert-le key now c.entries);
        })
      ])
    ]

-- A call of one of the methods that write.
pub data Call : Type 0 where
  check : ℕ → ℕ → Call
  cleanup : ℕ → Call
  clear : Call

unfoldable pub step : Call → TtlCache → TtlCache
step (check key now) c = (check_and_add key now c).1
step (cleanup now) c = evict_expired now c
step clear c = reset c

unfoldable pub run : List Call → TtlCache → TtlCache
run [] c = c
run (e ∷ es) c = run es (step e c)

pub step-IsValid : (e : Call) (c : TtlCache) → IsValid c → IsValid (step e c)
unfolding step evict_expired reset
step-IsValid (check key now) c v = check_and_add-IsValid key now v
step-IsValid (cleanup now) c v = record {
  keyed = retain-IsDict _ c.entries v.keyed;
  room = v.room;
  bounded = omega (
    arith,
    length-retain-le (λ key first_seen. not (ltb (first_seen + c.ttl) now)) c.entries,
    v.bounded,
  );
}
step-IsValid clear c v = record { keyed = tt; room = v.room; bounded = omega arith }

run-IsValid : (es : List Call) (c : TtlCache) → IsValid c → IsValid (run es c)
unfolding run
run-IsValid [] c v = v
run-IsValid (e ∷ es) c v = run-IsValid es (step e c) (step-IsValid e c v)

new-IsValid : (ttl n : ℕ) → IsValid (new ttl n)
unfolding new
new-IsValid ttl n = record { keyed = tt; room = ground arith; bounded = omega arith }

-- No sequence of checks, cleanups and resets of a new cache fills it past its maximum or gives it two
-- entries of one key.
pub run-new_cache-IsValid : (ttl n : ℕ) (es : List Call) → IsValid (run es (new ttl n))
run-new_cache-IsValid ttl n es = run-IsValid es (new ttl n) (new-IsValid ttl n)
