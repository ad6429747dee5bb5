-- ===== src/Tokens.antt =====
-- ssu2/wire/token_cache.go: the tokens that bind a retry to an address.
-- An address is the number that stands for its string, and a nil one is `none`. Times and the TTL are in
-- ns, and the times that a method reads are arguments; so are the bytes that `rand.Read` gives, `none` for
-- its error. The mutex makes each method one step.
pub mod Bounded
pub mod Use
mod Tests
use noise_ssu.Base.{
  ℕ, min, ◌-◌, Bool, true, false, not, ◌&&◌, Option, none, some, List, [], ◌∷◌, ltb, leb, ◌==◌,
  if◌then◌else◌, length, Outcome, ok, err,
}
use noise_ssu.Base.Dict.{Dict, lookup, insert, erase, retain}

-- The address that a token was issued to is its key in the cache.
pub record Token : Type 0 where
  pub value : List ℕ
  pub created_at : ℕ

pub record TokenCache : Type 0 where
  pub tokens : Dict Token
  pub ttl : ℕ
  pub max_size : ℕ

abbrev pub token_size : ℕ
token_size = 8

abbrev pub max_token_cache_size : ℕ
max_token_cache_size = 10000

pub data TokenError : Type 0 where
  nil_address token_generation_failed : TokenError

-- A TTL of 0 stands for every non-positive one, and so does a maximum of 0.
pub new_token_cache : ℕ → TokenCache
new_token_cache ttl = record {
  tokens = [];
  ttl = if ttl == 0 then 60_000_000_000 else ttl;
  max_size = max_token_cache_size;
}

pub new_with_max_size : ℕ → ℕ → TokenCache
unfolding new_token_cache
new_with_max_size ttl max_size =
    if max_size == 0
    then new_token_cache ttl
    else record (new_token_cache ttl) { max_size = max_size }

-- The loop of `evictOldestLocked`: the key and the time of the oldest token so far, if any.
pub oldest : Dict Token → Option (ℕ × ℕ) → Option (ℕ × ℕ)
oldest [] seen = seen
oldest ((key, token) ∷ rest) none = oldest rest (some (key, token.created_at))
oldest ((key, token) ∷ rest) (some (k, t)) =
    let as_new = oldest rest (some (key, token.created_at)) in
    let as_before = oldest rest (some (k, t)) in
    if ltb token.created_at t then as_new else as_before

abbrev pub erase_oldest : Option (ℕ × ℕ) → Dict Token → Dict Token
erase_oldest none tokens = tokens
erase_oldest (some (key, t)) tokens = erase key tokens

pub evict_oldest : Dict Token → Dict Token
evict_oldest tokens = erase_oldest (oldest tokens none) tokens

abbrev pub max_duration : ℕ
max_duration = 0x7fff_ffff_ffff_ffff

-- `time.Since(token.CreatedAt) <= tc.ttl`, where a time between that no Duration can hold is the largest
-- one.
abbrev pub is_live : ℕ → ℕ → Token → Bool
is_live now ttl token = leb (min (now - token.created_at) max_duration) ttl

-- The end of `GenerateToken`, where no live token was found.
pub store_new : ℕ → Option (List ℕ) → ℕ → TokenCache → Outcome TokenError (List ℕ) × TokenCache
store_new addr none created c = (err token_generation_failed, c)
store_new addr (some bytes) created c = (
  ok bytes,
  record c {
    tokens =
        insert addr (record { value = bytes; created_at = created })
          (if leb c.max_size (length c.tokens) then evict_oldest c.tokens else c.tokens);
  },
)

-- `now` is read for the token that exists, `created` for the new one.
pub generate_token :
    Option ℕ → Option (List ℕ) → ℕ → ℕ → TokenCache → Outcome TokenError (List ℕ) × TokenCache
generate_token none random now created c = (err nil_address, c)
generate_token (some addr) random now created c = elim (lookup addr c.tokens) [
  | none ↦ store_new addr random created c
  | some token ↦
      if is_live now c.ttl token then (ok token.value, c) else store_new addr random created c
]

-- `subtle.ConstantTimeCompare(x, y) == 1`.
pub same_bytes : List ℕ → List ℕ → Bool
same_bytes [] [] = true
same_bytes [] (y ∷ ys) = false
same_bytes (x ∷ xs) [] = false
same_bytes (x ∷ xs) (y ∷ ys) = (x == y) && same_bytes xs ys

abbrev pub is_valid : List ℕ → ℕ → ℕ → Option Token → Bool
is_valid bytes now ttl none = false
is_valid bytes now ttl (some token) =
    if is_live now ttl token then same_bytes token.value bytes else false

pub validate_token : List ℕ → Option ℕ → ℕ → TokenCache → Bool
validate_token bytes none now c = false
validate_token bytes (some addr) now c =
    if length bytes == token_size then is_valid bytes now c.ttl (lookup addr c.tokens) else false

-- A token that has expired goes, too.
abbrev pub consume_found : List ℕ → ℕ → ℕ → Option Token → TokenCache → Bool × TokenCache
consume_found bytes addr now none c = (false, c)
consume_found bytes addr now (some token) c =
    if is_live now c.ttl token
    then (if same_bytes token.value bytes
        then (true, record c { tokens = erase addr c.tokens })
        else (false, c))
    else (false, record c { tokens = erase addr c.tokens })

pub consume_token : List ℕ → Option ℕ → ℕ → TokenCache → Bool × TokenCache
consume_token bytes none now c = (false, c)
consume_token bytes (some addr) now c =
    if length bytes == token_size
    then consume_found bytes addr now (lookup addr c.tokens) c
    else (false, c)

-- With the number of tokens that went.
pub cleanup : ℕ → TokenCache → ℕ × TokenCache
cleanup now c =
    let kept = retain (λ addr token. is_live now c.ttl token) c.tokens in
    (length c.tokens - length kept, record c { tokens = kept })

pub size : TokenCache → ℕ
size c = length c.tokens

pub clear : TokenCache → TokenCache
clear c = record c { tokens = [] }

pub invalidate_address : Option ℕ → TokenCache → TokenCache
invalidate_address none c = c
invalidate_address (some addr) c = record c { tokens = erase addr c.tokens }

pub get_ttl : TokenCache → ℕ
get_ttl c = c.ttl
