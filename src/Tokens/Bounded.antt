-- ===== src/Tokens/Bounded.antt =====
-- The cache never holds more tokens than its maximum, nor two for one address.
use noise_ssu.Base.{
  ℕ, ◌≤◌, ◌<◌, ◌≡◌, refl, sym, ◌⊎◌, inl, inr, Option, none, some, List, [], ◌∷◌, arith, ltb, leb,
  ◌==◌, length, Bool-cases, leb→le, leb→lt,
}
use noise_ssu.Base.Dict.{
  IsKey, length-erase-lt, length-insert-le, Dict, lookup, erase, IsDict, insert-IsDict,
  erase-IsDict, retain-IsDict, length-retain-le, length-erase-le,
}
use noise_ssu.Tokens.{
  Token, TokenCache, new_with_max_size, new_token_cache, oldest, erase_oldest, evict_oldest,
  is_live, store_new, generate_token, consume_found, consume_token, cleanup, clear,
  invalidate_address,
}

pub record IsValid (c : TokenCache) : Type 0 where
  pub keyed : IsDict c.tokens
  pub room : 0 < c.max_size
  pub bounded : length c.tokens ≤ c.max_size

oldest-cases :
    (d : Dict Token) (k t : ℕ)
    → (k' : ℕ) × (t' : ℕ) × (oldest d (some (k, t)) ≡ some (k', t')) × ((k' ≡ k) ⊎ IsKey k' d)
unfolding oldest
oldest-cases [] k t = (k, t, refl, inl refl)
oldest-cases ((j, v) ∷ d) k t = elim (Bool-cases (ltb v.created_at t)) [
  | inl e ↦
      let (k', t', o, h) = oldest-cases d j v.created_at in
      rw e (k', t', o, inr (elim h [ inl same ↦ inl (sym same) | inr below ↦ inr below ]))
  | inr e ↦
      let (k', t', o, h) = oldest-cases d k t in
      rw e (k', t', o, elim h [ inl same ↦ inl same | inr below ↦ inr (inr below) ])
]

evict_oldest-lt : (d : Dict Token) → 0 < length d → length (evict_oldest d) < length d
unfolding evict_oldest oldest
evict_oldest-lt [] h = absurd (omega arith)
evict_oldest-lt ((j, v) ∷ d) h =
    let (k', t', o, in_d) = oldest-cases d j v.created_at in
    rw o (
      length-erase-lt k' ((j, v) ∷ d)
        (elim in_d [ inl same ↦ inl (sym same) | inr below ↦ inr below ]))

evict_oldest-IsDict : (d : Dict Token) → IsDict d → IsDict (evict_oldest d)
unfolding evict_oldest
evict_oldest-IsDict d u = go (oldest d none)
  where
    go : (o : Option (ℕ × ℕ)) → IsDict (erase_oldest o d)
    go none = u
    go (some (k, t)) = erase-IsDict k d u

store_new-IsValid :
    (addr : ℕ) (random : Option (List ℕ)) (created : ℕ) {c : TokenCache}
    → IsValid c
    → IsValid (store_new addr random created c).1
unfolding store_new
store_new-IsValid addr none created {c} v = v
store_new-IsValid addr (some bytes) created {c} v =
    let made : Token = record { value = bytes; created_at = created } in
    elim (Bool-cases (leb c.max_size (length c.tokens))) [
      | inl full ↦
          let less = evict_oldest-lt c.tokens (omega (arith, v.room, leb→le _ _ full)) in
          rw full (record {
            keyed = insert-IsDict addr made _ (evict_oldest-IsDict c.tokens v.keyed);
            room = v.room;
            bounded =
                omega (arith, less, v.bounded, length-insert-le addr made (evict_oldest c.tokens));
          })
      | inr open_place ↦ rw open_place (record {
        keyed = insert-IsDict addr made c.tokens v.keyed;
        room = v.room;
        bounded = omega (arith, leb→lt _ _ open_place, length-insert-le addr made c.tokens);
      })
    ]

-- A call of one of the methods that write.
pub data Call : Type 0 where
  generate : Option ℕ → Option (List ℕ) → ℕ → ℕ → Call
  consume : List ℕ → Option ℕ → ℕ → Call
  clean : ℕ → Call
  invalidate : Option ℕ → Call
  clear_all : Call

unfoldable pub step : Call → TokenCache → TokenCache
step (generate addr random now created) c = (generate_token addr random now created c).1
step (consume bytes addr now) c = (consume_token bytes addr now c).1
step (clean now) c = (cleanup now c).1
step (invalidate addr) c = invalidate_address addr c
step clear_all c = clear c

unfoldable pub run : List Call → TokenCache → TokenCache
run [] c = c
run (e ∷ es) c = run es (step e c)

erased-IsValid :
    (addr : ℕ) {c : TokenCache} → IsValid c → IsValid (record c { tokens = erase addr c.tokens })
erased-IsValid addr {c} v = record {
  keyed = erase-IsDict addr c.tokens v.keyed;
  room = v.room;
  bounded = omega (arith, v.bounded, length-erase-le addr c.tokens);
}

consume_found-IsValid :
    (bytes : List ℕ) (addr now : ℕ) (o : Option Token) {c : TokenCache}
    → IsValid c
    → IsValid (consume_found bytes addr now o c).1
consume_found-IsValid bytes addr now none v = v
consume_found-IsValid bytes addr now (some token) v = ground (arith, v, erased-IsValid addr v)

step-IsValid : (e : Call) (c : TokenCache) → IsValid c → IsValid (step e c)
unfolding step generate_token consume_token cleanup invalidate_address clear
step-IsValid (generate none random now created) c v = v
step-IsValid (generate (some addr) random now created) c v =
    ground (arith, v, store_new-IsValid addr random created v)
step-IsValid (consume bytes none now) c v = v
step-IsValid (consume bytes (some addr) now) c v =
    ground (arith, v, consume_found-IsValid bytes addr now (lookup addr c.tokens) v)
step-IsValid (clean now) c v = record {
  keyed = retain-IsDict _ c.tokens v.keyed;
  room = v.room;
  bounded =
      omega (arith, v.bounded, length-retain-le (λ addr token. is_live now c.ttl token) c.tokens);
}
step-IsValid (invalidate none) c v = v
step-IsValid (invalidate (some addr)) c v = erased-IsValid addr v
step-IsValid clear_all c v = record { keyed = tt; room = v.room; bounded = omega arith }

run-IsValid : (es : List Call) (c : TokenCache) → IsValid c → IsValid (run es c)
unfolding run
run-IsValid [] c v = v
run-IsValid (e ∷ es) c v = run-IsValid es (step e c) (step-IsValid e c v)

new-IsValid : (ttl n : ℕ) → IsValid (new_with_max_size ttl n)
unfolding new_with_max_size new_token_cache
new-IsValid ttl n = elim (Bool-cases (n == 0)) [
  | inl e ↦ rw e (record { keyed = tt; room = omega arith; bounded = omega arith })
  | inr e ↦ rw e (record { keyed = tt; room = ground (arith, e); bounded = omega arith })
]

-- No sequence of calls takes a new cache past its maximum or gives it two tokens for one address.
pub run-new_tokens-IsValid :
    (ttl n : ℕ) (es : List Call) → IsValid (run es (new_with_max_size ttl n))
run-new_tokens-IsValid ttl n es = run-IsValid es (new_with_max_size ttl n) (new-IsValid ttl n)
