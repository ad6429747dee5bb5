-- ===== src/Replay/Tests.antt =====
-- Runs of the replay cache, and its theorems at concrete inputs.
use noise_ssu.Base.{◌≡◌, refl, true, false, List, [], ◌∷◌, arith, ◌≤◌, ◌+◌, length}
use noise_ssu.Base.Dict.{lookup, insert, erase}
use noise_ssu.Replay.{
  TtlCache, new, check_and_add, evict_oldest, evict_count, sort_by_time, insert_by_time, erase_keys,
  is_fresh,
}
use noise_ssu.Replay.Bounded.{IsValid, Call, check, cleanup, run, run-new_cache-IsValid}
use noise_ssu.Replay.Detection.{replay_refused}

abbrev empty : TtlCache
empty = record { entries = []; ttl = 100; max_size = 3 }

empty-IsValid : IsValid empty
empty-IsValid = record { keyed = tt; room = omega arith; bounded = omega arith }

oldest_goes : evict_oldest ((1, 7) ∷ (2, 5) ∷ (3, 9) ∷ []) ≡ (1, 7) ∷ (3, 9) ∷ []
unfolding evict_oldest evict_count sort_by_time insert_by_time erase_keys erase
oldest_goes = refl

first_time : (check_and_add 8 10 empty).0 ≡ false
unfolding check_and_add is_fresh lookup
first_time = refl

run-new_cache-IsValid_example :
    IsValid (run (check 1 5 ∷ check 2 6 ∷ cleanup 7 ∷ check 3 8 ∷ []) (new 100 2))
run-new_cache-IsValid_example =
    run-new_cache-IsValid 100 2 (check 1 5 ∷ check 2 6 ∷ cleanup 7 ∷ check 3 8 ∷ [])

abbrev between : List Call
between = check 9 20 ∷ cleanup 109 ∷ []

room_left : length (check_and_add 8 10 empty).1.entries + 2 ≤ 3
unfolding check_and_add is_fresh lookup insert
room_left = omega arith

replay_refused_example : (check_and_add 8 109 (run between (check_and_add 8 10 empty).1)).0 ≡ true
replay_refused_example =
    replay_refused 8 10 109 between empty-IsValid first_time (omega arith) room_left (omega arith)
