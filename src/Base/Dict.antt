-- ===== src/Base/Dict.antt =====
-- Go maps as association lists from numbers. A key has one entry; the order of the entries stands
-- for the order, unspecified in Go, in which `range` visits a map.
use Prim.Native.Nat.{ℕ, ◌+◌, ◌≤◌, ◌<◌}
use mathlib.Core.Path.{◌≡◌, refl, sym, ◌∙◌, ap, subst}
use mathlib.Core.Logic.{◌⊎◌, inl, inr}
use mathlib.Core.Bool.{Bool, true, false}
use mathlib.Core.List.{List, [], ◌∷◌}
use mathlib.Core.Option.{Option, none, some}
use native.Mathlib.Omega.{arith}
use noise_ssu.Base.Tests.{◌==◌, if◌then◌else◌, ==→eq, Bool-cases, Option-cases, none-ne-some}
use noise_ssu.Base.Lists.{length}

abbrev pub Dict {ℓ} : Type ℓ → Type ℓ
Dict V = List (ℕ × V)

module _ {ℓ} {V : Type ℓ} where
  unfoldable pub lookup : ℕ → Dict V → Option V
  lookup k [] = none
  lookup k ((j, v) ∷ d) = if j == k then some v else lookup k d

  -- `d[k] = v`.
  unfoldable pub insert : ℕ → V → Dict V → Dict V
  insert k v [] = (k, v) ∷ []
  insert k v ((j, w) ∷ d) = if j == k then (k, v) ∷ d else (j, w) ∷ insert k v d

  -- `delete(d, k)`.
  unfoldable pub erase : ℕ → Dict V → Dict V
  erase k [] = []
  erase k ((j, w) ∷ d) = let rest = erase k d in if j == k then rest else (j, w) ∷ rest

  -- `_, exists := d[k]`.
  unfoldable pub contains : ℕ → Dict V → Bool
  contains k d = elim (lookup k d) [ none ↦ false | some _ ↦ true ]

  -- A loop that deletes the entries which fail a test.
  unfoldable pub retain : (ℕ → V → Bool) → Dict V → Dict V
  retain p [] = []
  retain p ((j, w) ∷ d) = let rest = retain p d in if p j w then (j, w) ∷ rest else rest

  -- No two entries have one key.
  abbrev pub IsDict : Dict V → Type ℓ
  IsDict [] = Unit
  IsDict ((k, v) ∷ d) = (lookup k d ≡ none) × IsDict d

  pub lookup-nil : (k : ℕ) → lookup k [] ≡ none
  unfolding lookup
  lookup-nil k = refl

  pub contains_of_some : (k : ℕ) (v : V) (d : Dict V) → lookup k d ≡ some v → contains k d ≡ true
  unfolding contains
  contains_of_some k v d e = rw (e, contains)

  pub contains_of_none : (k : ℕ) (d : Dict V) → lookup k d ≡ none → contains k d ≡ false
  unfolding contains
  contains_of_none k d e = rw (e, contains)

  pub lookup-insert :
      (k j : ℕ) (v : V) (d : Dict V)
      → lookup j (insert k v d) ≡ (if k == j then some v else lookup j d)
  unfolding lookup insert
  lookup-insert k j v [] = refl
  lookup-insert k j v ((i, w) ∷ d) = ground (arith, lookup-insert k j v d)

  pub lookup-erase :
      (k j : ℕ) (d : Dict V) → lookup j (erase k d) ≡ (if k == j then none else lookup j d)
  unfolding lookup erase
  lookup-erase k j [] = ground arith
  lookup-erase k j ((i, w) ∷ d) = ground (arith, lookup-erase k j d)

  -- A fresh key leaves every other entry.
  pub lookup-insert_fresh :
      (k j : ℕ) (w v : V) (d : Dict V)
      → lookup k d ≡ none
      → lookup j d ≡ some v
      → lookup j (insert k w d) ≡ some v
  lookup-insert_fresh k j w v d fresh m = elim (Bool-cases (k == j)) [
    | inl e ↦ absurd (none-ne-some (sym fresh ∙ ap (λ n. lookup n d) (==→eq k j e) ∙ m))
    | inr e ↦ lookup-insert k j w d ∙ rw e m
  ]

  pub insert-IsDict : (k : ℕ) (v : V) (d : Dict V) → IsDict d → IsDict (insert k v d)
  unfolding insert lookup
  insert-IsDict k v [] h = (refl, tt)
  insert-IsDict k v ((i, w) ∷ d) h = ground (arith, insert-IsDict k v d h.1, lookup-insert k i v d)

  pub erase-IsDict : (k : ℕ) (d : Dict V) → IsDict d → IsDict (erase k d)
  unfolding erase lookup
  erase-IsDict k [] h = tt
  erase-IsDict k ((i, w) ∷ d) h = ground (arith, erase-IsDict k d h.1, lookup-erase k i d)

  -- A key that is not there.
  erase_fresh : (k : ℕ) (d : Dict V) → lookup k d ≡ none → erase k d ≡ d
  unfolding lookup erase
  erase_fresh k [] h = refl
  erase_fresh k ((i, w) ∷ d) h = ground (arith, erase_fresh k d)

  pub length-insert_fresh :
      (k : ℕ) (v : V) (d : Dict V) → lookup k d ≡ none → length (insert k v d) ≡ length d + 1
  unfolding lookup insert
  length-insert_fresh k v [] h = omega arith
  length-insert_fresh k v ((i, w) ∷ d) h = ground (arith, length-insert_fresh k v d)

  pub length-insert_present :
      (k : ℕ) (v w : V) (d : Dict V) → lookup k d ≡ some w → length (insert k v d) ≡ length d
  unfolding lookup insert
  length-insert_present k v w [] h = cc
  length-insert_present k v w ((i, u) ∷ d) h = ground (arith, length-insert_present k v w d)

  pub length-erase-le : (k : ℕ) (d : Dict V) → length (erase k d) ≤ length d
  unfolding erase
  length-erase-le k [] = omega arith
  length-erase-le k ((i, w) ∷ d) = ground (arith, length-erase-le k d)

  pub length-erase_present :
      (k : ℕ) (v : V) (d : Dict V)
      → IsDict d
      → lookup k d ≡ some v
      → length (erase k d) + 1 ≡ length d
  unfolding lookup erase
  length-erase_present k v [] u h = cc
  length-erase_present k v ((i, w) ∷ d) u h = elim (Bool-cases (i == k)) [
    | inl e ↦ ground (arith, e, erase_fresh k d (subst (λ n. lookup n d ≡ none) (==→eq i k e) u.0))
    | inr e ↦ ground (arith, e, length-erase_present k v d u.1)
  ]

  pub length-retain-le : (p : ℕ → V → Bool) (d : Dict V) → length (retain p d) ≤ length d
  unfolding retain
  length-retain-le p [] = omega arith
  length-retain-le p ((i, w) ∷ d) = ground (arith, length-retain-le p d)

  -- What a filtering loop leaves: the entries that pass, and no others.
  abbrev pub if_kept : (ℕ → V → Bool) → ℕ → Option V → Option V
  if_kept p k none = none
  if_kept p k (some v) = if p k v then some v else none

  pub lookup-retain :
      (p : ℕ → V → Bool) (k : ℕ) (d : Dict V)
      → IsDict d
      → lookup k (retain p d) ≡ if_kept p k (lookup k d)
  unfolding lookup retain
  lookup-retain p k [] u = refl
  lookup-retain p k ((i, w) ∷ d) u = elim (Bool-cases (i == k)) [
    | inl e ↦
        let q : i ≡ k = ==→eq i k e in
        ground (arith, e, lookup-retain p k d u.1, u.0, ap (λ n. lookup n d) q, ap (λ n. p n w) q)
    | inr e ↦ ground (arith, e, lookup-retain p k d u.1)
  ]

  -- A key that is not there is not there after a filtering loop.
  pub lookup-retain_fresh :
      (p : ℕ → V → Bool) (k : ℕ) (d : Dict V) → lookup k d ≡ none → lookup k (retain p d) ≡ none
  unfolding lookup retain
  lookup-retain_fresh p k [] h = refl
  lookup-retain_fresh p k ((i, w) ∷ d) h = ground (arith, h, lookup-retain_fresh p k d)

  -- A key whose entries all pass keeps its entry.
  pub lookup-retain_kept :
      (p : ℕ → V → Bool) (k : ℕ) (d : Dict V)
      → ((v : V) → p k v ≡ true)
      → lookup k (retain p d) ≡ lookup k d
  unfolding lookup retain
  lookup-retain_kept p k [] all = refl
  lookup-retain_kept p k ((i, w) ∷ d) all = elim (Bool-cases (i == k)) [
    | inl e ↦
        let pass : p i w ≡ true = ap (λ n. p n w) (==→eq i k e) ∙ all w in ground (arith, e, pass)
    | inr e ↦ ground (arith, e, lookup-retain_kept p k d all)
  ]

  pub retain-IsDict : (p : ℕ → V → Bool) (d : Dict V) → IsDict d → IsDict (retain p d)
  unfolding retain lookup
  retain-IsDict p [] u = tt
  retain-IsDict p ((i, w) ∷ d) u = ground (arith, retain-IsDict p d u.1, lookup-retain p i d u.1)

  -- That a key has an entry.
  abbrev pub IsKey : ℕ → Dict V → Type 0
  IsKey k [] = ⊥
  IsKey k ((j, v) ∷ d) = (j ≡ k) ⊎ IsKey k d

  pub length-erase-lt : (k : ℕ) (d : Dict V) → IsKey k d → length (erase k d) < length d
  unfolding erase
  length-erase-lt k [] h = absurd h
  length-erase-lt k ((j, v) ∷ d) h = elim (Bool-cases (j == k)) [
    | inl e ↦ rw e (omega (arith, length-erase-le k d))
    | inr e ↦ rw e (elim h [
      | inl same ↦ absurd (ground (arith, same, e))
      | inr below ↦ omega (arith, length-erase-lt k d below)
    ])
  ]

  pub length-insert-le : (k : ℕ) (v : V) (d : Dict V) → length (insert k v d) ≤ length d + 1
  length-insert-le k v d = elim (Option-cases (lookup k d)) [
    | inl e ↦ omega (arith, length-insert_fresh k v d e)
    | inr (w, e) ↦ omega (arith, length-insert_present k v w d e)
  ]

  if_kept-some :
      (p : ℕ → V → Bool) (k : ℕ) (o : Option V) (v : V) → if_kept p k o ≡ some v → o ≡ some v
  if_kept-some p k none v e = e
  if_kept-some p k (some w) v e = ground (arith, e)

  -- What a filtering loop leaves was there.
  pub some-retain :
      (p : ℕ → V → Bool) (k : ℕ) (v : V) (d : Dict V)
      → IsDict d
      → lookup k (retain p d) ≡ some v
      → lookup k d ≡ some v
  some-retain p k v d u e = if_kept-some p k (lookup k d) v (sym (lookup-retain p k d u) ∙ e)
