-- ===== src/Tokens/Tests.antt =====
-- Runs of the token cache, and its theorems at concrete inputs.
use noise_ssu.Base.{ℕ, ◌≡◌, refl, true, false, List, [], ◌∷◌, some, arith}
use noise_ssu.Base.Dict.{lookup, erase, retain}
use noise_ssu.Tokens.{
  TokenCache, new_with_max_size, consume_token, evict_oldest, oldest, same_bytes, cleanup,
}
use noise_ssu.Tokens.Bounded.{IsValid, generate, consume, clean, run, run-new_tokens-IsValid}
use noise_ssu.Tokens.Use.{consumed_once, expired_refused}

abbrev eight : List ℕ
eight = 1 ∷ 2 ∷ 3 ∷ 4 ∷ 5 ∷ 6 ∷ 7 ∷ 8 ∷ []

abbrev one_token : TokenCache
one_token = record {
  tokens = (7, record { value = eight; created_at = 10 }) ∷ [];
  ttl = 100;
  max_size = 2;
}

oldest_goes :
    evict_oldest
      ((1, record { value = []; created_at = 9 }) ∷ (2, record { value = []; created_at = 5 }) ∷ [])
    ≡ (1, record { value = []; created_at = 9 }) ∷ []
unfolding evict_oldest oldest erase
oldest_goes = refl

taken : (consume_token eight (some 7) 110 one_token).0 ≡ true
unfolding consume_token lookup same_bytes
taken = refl

found : lookup 7 one_token.tokens ≡ some (record { value = eight; created_at = 10 })
unfolding lookup
found = refl

cleaned : (cleanup 111 one_token).0 ≡ 1
unfolding cleanup retain
cleaned = refl

run-new_tokens-IsValid_example : IsValid (
    run
      (generate (some 1) (some eight) 5 5 ∷ generate (some 2) (some eight) 6 6 ∷ [])
      (new_with_max_size 100 1))
run-new_tokens-IsValid_example =
    run-new_tokens-IsValid 100 1
      (generate (some 1) (some eight) 5 5 ∷ generate (some 2) (some eight) 6 6 ∷ [])

consumed_once_example :
    (consume_token eight (some 7) 112 (
      run
        (clean 111 ∷ consume eight (some 7) 111 ∷ [])
        (consume_token eight (some 7) 110 one_token).1)).0
    ≡ false
consumed_once_example =
    consumed_once eight eight 7 110 112 (clean 111 ∷ consume eight (some 7) 111 ∷ []) one_token
      taken tt

one_token-IsValid : IsValid one_token
unfolding lookup
one_token-IsValid = record { keyed = (refl, tt); room = omega arith; bounded = omega arith }

expired_refused_example :
    ((consume_token eight (some 7) 111 one_token).0 ≡ false)
    × ((consume_token eight
          (some 7)
          100
          (run (clean 5 ∷ []) (consume_token eight (some 7) 111 one_token).1)).0
        ≡ false)
    × ((consume_token eight (some 7) 100 (run (clean 5 ∷ []) (cleanup 111 one_token).1)).0 ≡ false)
expired_refused_example =
    expired_refused eight eight 7 111 100 (clean 5 ∷ []) (record { value = eight; created_at = 10 })
      one_token one_token-IsValid found (omega arith) (omega arith) refl tt
