-- ===== src/Tokens/Use.antt =====
-- What tokens are good for: they are accepted while they live, for their address, and once.
use noise_ssu.Base.{
  ℕ, min, ◌-◌, ◌+◌, ◌<◌, ◌≤◌, ◌≡◌, refl, sym, ◌∙◌, inl, inr, true, false, Option, none, some, List,
  [], ◌∷◌, arith, leb, ◌==◌, length, Bool-cases, eq→==, ok, true-ne-false, ◌≢◌, ne→==,
}
use noise_ssu.Base.Dict.{
  lookup, lookup-insert, lookup-erase, lookup-nil, lookup-retain_fresh, lookup-retain,
}
use noise_ssu.Tokens.{
  Token, TokenCache, max_duration, is_live, is_valid, store_new, generate_token, consume_found,
  consume_token, validate_token, same_bytes, cleanup, clear, invalidate_address,
}
use noise_ssu.Tokens.Bounded.{
  Call, generate, consume, clean, invalidate, clear_all, step, run, IsValid,
}

same_bytes_refl : (xs : List ℕ) → same_bytes xs xs ≡ true
unfolding same_bytes
same_bytes_refl [] = refl
same_bytes_refl (x ∷ xs) = let self = eq→== x x refl in rw (self, same_bytes_refl xs) refl

consume_found-is_valid :
    (bytes : List ℕ) (addr now : ℕ) (o : Option Token) (c : TokenCache)
    → (consume_found bytes addr now o c).0 ≡ is_valid bytes now c.ttl o
consume_found-is_valid bytes addr now none c = refl
consume_found-is_valid bytes addr now (some token) c = ground arith

consume_found-lookup :
    (bytes : List ℕ) (addr now other : ℕ) (o : Option Token) (c : TokenCache)
    → addr ≢ other
    → lookup other (consume_found bytes addr now o c).1.tokens ≡ lookup other c.tokens
consume_found-lookup bytes addr now other none c h = refl
consume_found-lookup bytes addr now other (some token) c h =
    ground (arith, h, ne→== addr other h, lookup-erase addr other c.tokens)

-- `ConsumeToken` accepts exactly what `ValidateToken` does, and leaves the token of every other address.
consume_token-validate_token :
    (bytes : List ℕ) (addr now other : ℕ) (c : TokenCache)
    → addr ≢ other
    → ((consume_token bytes (some addr) now c).0 ≡ validate_token bytes (some addr) now c)
      × (lookup other (consume_token bytes (some addr) now c).1.tokens ≡ lookup other c.tokens)
unfolding consume_token validate_token
consume_token-validate_token bytes addr now other c h = elim (Bool-cases (length bytes == 8)) [
  | inl eight ↦ rw eight (
    consume_found-is_valid bytes addr now (lookup addr c.tokens) c,
    consume_found-lookup bytes addr now other (lookup addr c.tokens) c h,
  )
  | inr short ↦ rw short (refl, refl)
]

issued :
    (addr now created : ℕ) (bytes : List ℕ) (c : TokenCache)
    → lookup addr c.tokens ≡ none
    → generate_token (some addr) (some bytes) now created c ≡ store_new addr (some bytes) created c
unfolding generate_token
issued addr now created bytes c l = rw (generate_token, l) refl

stored :
    (addr created : ℕ) (bytes : List ℕ) (c : TokenCache)
    → lookup addr (store_new addr (some bytes) created c).1.tokens
      ≡ some (record { value = bytes; created_at = created })
unfolding store_new
stored addr created bytes c =
    let self : (addr == addr) ≡ true = eq→== addr addr refl in
    let made : Token = record { value = bytes; created_at = created } in
    lookup-insert addr addr made _ ∙ rw self refl

-- A token that was generated for an address without one is accepted there until its TTL ends.
generated_accepted :
    (addr now created later : ℕ) (bytes : List ℕ) (c : TokenCache)
    → lookup addr c.tokens ≡ none
    → length bytes ≡ 8
    → later ≤ created + c.ttl
    → let (reply, c') = generate_token (some addr) (some bytes) now created c in
      (reply ≡ ok bytes) × (validate_token bytes (some addr) later c' ≡ true)
unfolding store_new validate_token
generated_accepted addr now created later bytes c l n h =
    let eight : (length bytes == 8) ≡ true = eq→== _ _ n in
    let live : leb (min (later - created) max_duration) c.ttl ≡ true = ground arith in
    rw (issued addr now created bytes c l)
      (refl, rw (eight, stored addr created bytes c, live) (same_bytes_refl bytes))

-- Calls that issue no token.
abbrev pub NoGenerate : List Call → Type 0
NoGenerate [] = Unit
NoGenerate (generate addr random now created ∷ es) = ⊥
NoGenerate (consume bytes addr now ∷ es) = NoGenerate es
NoGenerate (clean now ∷ es) = NoGenerate es
NoGenerate (invalidate addr ∷ es) = NoGenerate es
NoGenerate (clear_all ∷ es) = NoGenerate es

consume-lookup :
    (bytes : List ℕ) (other now addr : ℕ) (c : TokenCache)
    → lookup addr c.tokens ≡ none
    → lookup addr (consume_token bytes (some other) now c).1.tokens ≡ none
unfolding consume_token
consume-lookup bytes other now addr c l = elim (Bool-cases (length bytes == 8)) [
  | inl eight ↦ rw eight (found (lookup other c.tokens))
  | inr short ↦ rw short l
]
  where
    found : (o : Option Token) → lookup addr (consume_found bytes other now o c).1.tokens ≡ none
    found none = l
    found (some token) = ground (arith, l, lookup-erase other addr c.tokens)

-- Where an address has no token, it has none after a call that issues none.
step-lookup :
    (e : Call) (addr : ℕ) (c : TokenCache)
    → NoGenerate (e ∷ [])
    → lookup addr c.tokens ≡ none
    → lookup addr (step e c).tokens ≡ none
unfolding step cleanup clear invalidate_address consume_token
step-lookup (generate a random now created) addr c g l = absurd g
step-lookup (consume bytes none now) addr c g l = l
step-lookup (consume bytes (some other) now) addr c g l = consume-lookup bytes other now addr c l
step-lookup (clean now) addr c g l =
    lookup-retain_fresh (λ a token. is_live now c.ttl token) addr c.tokens l
step-lookup (invalidate none) addr c g l = l
step-lookup (invalidate (some other)) addr c g l =
    ground (arith, l, lookup-erase other addr c.tokens)
step-lookup clear_all addr c g l = lookup-nil addr

run-lookup :
    (es : List Call) (addr : ℕ) (c : TokenCache)
    → NoGenerate es
    → lookup addr c.tokens ≡ none
    → lookup addr (run es c).tokens ≡ none
unfolding run
run-lookup [] addr c g l = l
run-lookup (e ∷ es) addr c g l =
    let (one, rest) = first e g in run-lookup es addr (step e c) rest (step-lookup e addr c one l)
  where
    first : (e : Call) → NoGenerate (e ∷ es) → NoGenerate (e ∷ []) × NoGenerate es
    first (generate a random now created) g = absurd g
    first (consume bytes a now) g = (tt, g)
    first (clean now) g = (tt, g)
    first (invalidate a) g = (tt, g)
    first clear_all g = (tt, g)

consumed-lookup :
    (bytes : List ℕ) (addr now : ℕ) (c : TokenCache)
    → (consume_token bytes (some addr) now c).0 ≡ true
    → lookup addr (consume_token bytes (some addr) now c).1.tokens ≡ none
unfolding consume_token
consumed-lookup bytes addr now c h = elim (Bool-cases (length bytes == 8)) [
  | inl eight ↦ rw eight (found (lookup addr c.tokens) (rw eight at h))
  | inr short ↦ absurd (true-ne-false (sym (rw short at h)))
]
  where
    found :
        (o : Option Token)
        → (consume_found bytes addr now o c).0 ≡ true
        → lookup addr (consume_found bytes addr now o c).1.tokens ≡ none
    found none k = cc
    found (some token) k = ground (arith, k, eq→== addr addr refl, lookup-erase addr addr c.tokens)

no_token :
    (bytes : List ℕ) (addr now : ℕ) (c : TokenCache)
    → lookup addr c.tokens ≡ none
    → (consume_token bytes (some addr) now c).0 ≡ false
unfolding consume_token
no_token bytes addr now c l = elim (Bool-cases (length bytes == 8)) [
  | inl eight ↦ rw (eight, l) refl
  | inr short ↦ rw short refl
]

-- A token is consumed once: after it was, nothing is accepted from its address until a token is
-- issued again, whatever other calls come between.
pub consumed_once :
    (bytes again : List ℕ) (addr now later : ℕ) (es : List Call) (c : TokenCache)
    → (consume_token bytes (some addr) now c).0 ≡ true
    → NoGenerate es
    → (consume_token again (some addr) later (run es (consume_token bytes (some addr) now c).1)).0
      ≡ false
consumed_once bytes again addr now later es c h g =
    no_token again addr later _ (run-lookup es addr _ g (consumed-lookup bytes addr now c h))

expired_checked :
    (bytes : List ℕ) (addr now : ℕ) (token : Token) (c : TokenCache)
    → lookup addr c.tokens ≡ some token
    → c.ttl < max_duration
    → token.created_at + c.ttl < now
    → length bytes ≡ 8
    → ((consume_token bytes (some addr) now c).0 ≡ false)
      × (lookup addr (consume_token bytes (some addr) now c).1.tokens ≡ none)
unfolding consume_token
expired_checked bytes addr now token c l short old n =
    let eight : (length bytes == 8) ≡ true = eq→== _ _ n in
    let dead : leb (min (now - token.created_at) max_duration) c.ttl ≡ false = ground arith in
    let self : (addr == addr) ≡ true = eq→== addr addr refl in
    rw (eight, l, dead) (refl, lookup-erase addr addr c.tokens ∙ rw self refl)

expired_cleaned :
    (addr now : ℕ) (token : Token) (c : TokenCache)
    → IsValid c
    → lookup addr c.tokens ≡ some token
    → c.ttl < max_duration
    → token.created_at + c.ttl < now
    → lookup addr (cleanup now c).1.tokens ≡ none
unfolding cleanup
expired_cleaned addr now token c v l short old =
    let dead : leb (min (now - token.created_at) max_duration) c.ttl ≡ false = ground arith in
    lookup-retain (λ a t. is_live now c.ttl t) addr c.tokens v.keyed ∙ rw (l, dead) refl

-- Where the TTL is not the largest Duration and the cache is valid: once eight bytes from an address are
-- consumed after its token expired, which refuses them, or `Cleanup` runs then, nothing is accepted from the address until a token is issued again, whatever other calls come
-- between and whatever time they read.
pub expired_refused :
    (bytes again : List ℕ) (addr now later : ℕ) (es : List Call) (token : Token) (c : TokenCache)
    → IsValid c
    → lookup addr c.tokens ≡ some token
    → c.ttl < max_duration
    → token.created_at + c.ttl < now
    → length bytes ≡ 8
    → NoGenerate es
    → let checked = consume_token bytes (some addr) now c in
      (checked.0 ≡ false)
      × ((consume_token again (some addr) later (run es checked.1)).0 ≡ false)
      × ((consume_token again (some addr) later (run es (cleanup now c).1)).0 ≡ false)
expired_refused bytes again addr now later es token c v l short old n g =
    let (refused, gone) = expired_checked bytes addr now token c l short old n in
    (
      refused,
      no_token again addr later _ (run-lookup es addr _ g gone),
      no_token again addr later _
          (run-lookup es addr _ g (expired_cleaned addr now token c v l short old)),
    )
