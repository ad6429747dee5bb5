-- ===== src/Reliability/Ack/Sorting.antt =====
-- `SortDescDedupPackets` sorts downward, drops repetitions, and keeps every number.
use noise_ssu.Base.{ℕ, ◌≤◌, ◌<◌, ◌≡◌, refl, ◌∙◌, Bool, false, ◌||◌, List, [], ◌∷◌, arith, ◌==◌}
use noise_ssu.Reliability.Ack.{shift, insertion_sort, rev_onto, dedup, dedup_all, sort_desc_dedup}

abbrev pub mem : ℕ → List ℕ → Bool
mem n [] = false
mem n (x ∷ xs) = (x == n) || mem n xs

-- Strictly falling, from below `p`.
abbrev pub Below : ℕ → List ℕ → Type 0
Below p [] = Unit
Below p (x ∷ xs) = (x < p) × Below x xs

abbrev pub IsStrictlyDescending : List ℕ → Type 0
IsStrictlyDescending [] = Unit
IsStrictlyDescending (x ∷ xs) = Below x xs

-- Rising, from `p` on; falling, from `p` on.
abbrev Up : ℕ → List ℕ → Type 0
Up p [] = Unit
Up p (x ∷ xs) = (p ≤ x) × Up x xs

abbrev Down : ℕ → List ℕ → Type 0
Down p [] = Unit
Down p (x ∷ xs) = (x ≤ p) × Down x xs

abbrev IsDescending : List ℕ → Type 0
IsDescending [] = Unit
IsDescending (x ∷ xs) = Down x xs

shift-Up : (p key : ℕ) (xs : List ℕ) → p ≤ key → Up p xs → Up p (shift key xs)
unfolding shift
shift-Up p key [] h u = (h, tt)
shift-Up p key (x ∷ xs) h u = ground (arith, shift-Up x key xs)

insertion_sort-Up : (prefix xs : List ℕ) → Up 0 prefix → Up 0 (insertion_sort prefix xs)
unfolding insertion_sort
insertion_sort-Up prefix [] u = u
insertion_sort-Up prefix (x ∷ xs) u =
    insertion_sort-Up (shift x prefix) xs (shift-Up 0 x prefix (omega arith) u)

Down-mono : (p q : ℕ) (xs : List ℕ) → p ≤ q → Down p xs → Down q xs
Down-mono p q [] h d = tt
Down-mono p q (x ∷ xs) h d = (omega arith, d.1)

Down-IsDescending : (p : ℕ) (xs : List ℕ) → Down p xs → IsDescending xs
Down-IsDescending p [] d = tt
Down-IsDescending p (x ∷ xs) d = d.1

rev_onto-IsDescending :
    (p : ℕ) (xs acc : List ℕ) → Up p xs → Down p acc → IsDescending (rev_onto xs acc)
unfolding rev_onto
rev_onto-IsDescending p [] acc u d = Down-IsDescending p acc d
rev_onto-IsDescending p (x ∷ xs) acc u d =
    rev_onto-IsDescending x xs (x ∷ acc) u.1 (omega arith, Down-mono p x acc u.0 d)

dedup-Below : (last : ℕ) (xs : List ℕ) → Down last xs → Below last (dedup last xs)
unfolding dedup
dedup-Below last [] d = tt
dedup-Below last (x ∷ xs) d =
    ground (arith, dedup-Below x xs d.1, dedup-Below last xs, Down-mono x last xs d.0 d.1)

dedup_all-IsStrictlyDescending :
    (xs : List ℕ) → IsDescending xs → IsStrictlyDescending (dedup_all xs)
unfolding dedup_all
dedup_all-IsStrictlyDescending [] d = tt
dedup_all-IsStrictlyDescending (x ∷ xs) d = dedup-Below x xs d

mem-shift : (n key : ℕ) (xs : List ℕ) → mem n (shift key xs) ≡ ((key == n) || mem n xs)
unfolding shift
mem-shift n key [] = refl
mem-shift n key (x ∷ xs) = ground (arith, mem-shift n key xs)

mem-insertion_sort :
    (n : ℕ) (prefix xs : List ℕ) → mem n (insertion_sort prefix xs) ≡ (mem n prefix || mem n xs)
unfolding insertion_sort
mem-insertion_sort n prefix [] = ground arith
mem-insertion_sort n prefix (x ∷ xs) =
    ground (arith, mem-insertion_sort n (shift x prefix) xs, mem-shift n x prefix)

mem-rev_onto : (n : ℕ) (xs acc : List ℕ) → mem n (rev_onto xs acc) ≡ (mem n xs || mem n acc)
unfolding rev_onto
mem-rev_onto n [] acc = refl
mem-rev_onto n (x ∷ xs) acc = ground (arith, mem-rev_onto n xs (x ∷ acc))

mem-dedup :
    (n last : ℕ) (xs : List ℕ) → ((last == n) || mem n (dedup last xs)) ≡ ((last == n) || mem n xs)
unfolding dedup
mem-dedup n last [] = refl
mem-dedup n last (x ∷ xs) = ground (arith, mem-dedup n last xs, mem-dedup n x xs)

mem-dedup_all : (n : ℕ) (xs : List ℕ) → mem n (dedup_all xs) ≡ mem n xs
unfolding dedup_all
mem-dedup_all n [] = refl
mem-dedup_all n (x ∷ xs) = mem-dedup n x xs

-- The sorted numbers fall strictly, so none is repeated, and are exactly the numbers received.
pub sort_desc_dedup_lem :
    (packets : List ℕ) (n : ℕ)
    → IsStrictlyDescending (sort_desc_dedup packets)
      × (mem n (sort_desc_dedup packets) ≡ mem n packets)
unfolding sort_desc_dedup
sort_desc_dedup_lem packets n =
    let sorted = insertion_sort [] packets in
    (
      dedup_all-IsStrictlyDescending (rev_onto sorted [])
          (rev_onto-IsDescending 0 sorted [] (insertion_sort-Up [] packets tt) tt),
      mem-dedup_all n (rev_onto sorted [])
          ∙ ground (arith, mem-rev_onto n sorted [], mem-insertion_sort n [] packets),
    )
