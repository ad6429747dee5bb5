-- ===== src/Replay.antt =====
-- mod/replaycache/cache.go: the bounded cache that tells replayed keys.
-- A key, 32 bytes, is the number that its bytes spell. Times and the TTL are in ns, and the time that a
-- method reads is an argument. The mutex makes each method one step; the goroutine of `cleanupLoop`
-- takes the step `evict_expired` on each tick. `sort.Slice` is any sort by time: here insertion.
pub mod Bounded
pub mod Detection
mod Tests
use noise_ssu.Base.{
  ℕ, zero, suc, ◌+◌, ◌/◌, Bool, true, false, not, Option, none, some, List, [], ◌∷◌, ltb, leb, ◌==◌,
  if◌then◌else◌, length, take,
}
use noise_ssu.Base.Dict.{Dict, lookup, insert, erase, retain}

pub record TtlCache : Type 0 where
  pub entries : Dict ℕ
  pub ttl : ℕ
  pub max_size : ℕ

-- A `max_size` of 0 stands for every non-positive one.
pub new : ℕ → ℕ → TtlCache
new ttl max_size = record {
  entries = [];
  ttl = ttl;
  max_size = if max_size == 0 then 10000 else max_size;
}

-- The entries by time, oldest first.
pub insert_by_time : ℕ × ℕ → Dict ℕ → Dict ℕ
insert_by_time (key, first_seen) [] = (key, first_seen) ∷ []
insert_by_time (key, first_seen) ((other, seen) ∷ rest) =
    let later = insert_by_time (key, first_seen) rest in
    if ltb seen first_seen then (other, seen) ∷ later else (key, first_seen) ∷ (other, seen) ∷ rest

pub sort_by_time : Dict ℕ → Dict ℕ
sort_by_time [] = []
sort_by_time ((key, seen) ∷ rest) = insert_by_time (key, seen) (sort_by_time rest)

-- The loop that deletes the entries of a list.
pub erase_keys : Dict ℕ → Dict ℕ → Dict ℕ
erase_keys [] entries = entries
erase_keys ((key, seen) ∷ rest) entries = erase_keys rest (erase key entries)

-- A tenth of the entries, and one at least.
pub evict_count : Dict ℕ → ℕ
evict_count entries = if ltb (length entries / 10) 1 then 1 else length entries / 10

unfoldable pub evict_oldest : Dict ℕ → Dict ℕ
evict_oldest entries = erase_keys (take (evict_count entries) (sort_by_time entries)) entries

-- `now.Sub(firstSeen) < c.ttl` for an entry that exists.
unfoldable pub is_fresh : ℕ → ℕ → Option ℕ → Bool
is_fresh now ttl none = false
is_fresh now ttl (some first_seen) = ltb now (first_seen + ttl)

unfoldable pub check_and_add : ℕ → ℕ → TtlCache → Bool × TtlCache
check_and_add key now c =
    let kept = if leb c.max_size (length c.entries) then evict_oldest c.entries else c.entries in
    if is_fresh now c.ttl (lookup key c.entries)
    then (true, c)
    else (false, record c { entries = insert key now kept })

pub size : TtlCache → ℕ
size c = length c.entries

unfoldable pub reset : TtlCache → TtlCache
reset c = record c { entries = [] }

-- `firstSeen.Before(c.nowFunc().Add(-c.ttl))` entries go.
unfoldable pub evict_expired : ℕ → TtlCache → TtlCache
evict_expired now c = record c {
  entries = retain (λ key first_seen. not (ltb (first_seen + c.ttl) now)) c.entries;
}
