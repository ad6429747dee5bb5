-- ===== src/Session/Fragments/Tests.antt =====
-- Fragments at concrete inputs.
use noise_ssu.Base.{
  map, ℕ, zero, suc, ◌≡◌, ◌≢◌, refl, true, false, none, some, List, [], ◌∷◌, ◌++◌, arith, ok, All,
  ◌<◌,
}
use noise_ssu.Base.Dict.{lookup, insert, erase, retain, contains}
use noise_ssu.Session.Fragments.{
  FragmentSet, DataHandler, new_data_handler, handle_first_fragment, handle_follow_on_fragment,
  reassemble_message, gather, cleanup_stale_fragments, follow_on,
}
use noise_ssu.Session.Fragments.Parts.{Message, whole, IsPart}
use noise_ssu.Session.Fragments.Sound.{IsWhole, IsSound}
use noise_ssu.Session.Fragments.Delivery.{
  Event, first_arrives, follow_on_arrives, cleans, takes, step, run, run_wholes,
}
use noise_ssu.Wire.Block.{Block}
use noise_ssu.Session.Fragments.Building.{build_i2np_fragment_blocks, follow_blocks}
use noise_ssu.Session.Fragments.Building.Pieces.{
  chunks, Carries, read_part, parts_of, build_i2np_fragment_blocks_lem,
}
use noise_ssu.Session.Fragments.Complete.{last_piece_delivers}

-- Three pieces, whatever the identifier.
abbrev letter : Message
letter = record {
  kind = 1;
  expiration = 9;
  pieces = (10 ∷ 11 ∷ []) ∷ (12 ∷ []) ∷ (13 ∷ 14 ∷ []) ∷ [];
}

-- The last piece of message 7 comes first, and twice; then the first, and the middle.
abbrev arrivals : List Event
arrivals =
    follow_on_arrives 1 (5 ∷ 0 ∷ 0 ∷ 0 ∷ 7 ∷ 13 ∷ 14 ∷ [])
    ∷ follow_on_arrives 2 (5 ∷ 0 ∷ 0 ∷ 0 ∷ 7 ∷ 13 ∷ 14 ∷ [])
    ∷ first_arrives 3 (1 ∷ 0 ∷ 0 ∷ 0 ∷ 7 ∷ 0 ∷ 0 ∷ 0 ∷ 9 ∷ 10 ∷ 11 ∷ [])
    ∷ cleans 4
    ∷ follow_on_arrives 5 (2 ∷ 0 ∷ 0 ∷ 0 ∷ 7 ∷ 12 ∷ [])
    ∷ takes
    ∷ []

taken :
    (run arrivals (new_data_handler 4)).0
    ≡ (1 ∷ 0 ∷ 0 ∷ 0 ∷ 7 ∷ 0 ∷ 0 ∷ 0 ∷ 9 ∷ 10 ∷ 11 ∷ 12 ∷ 13 ∷ 14 ∷ []) ∷ []
unfolding run step new_data_handler handle_first_fragment handle_follow_on_fragment
    reassemble_message gather lookup insert erase retain contains cleanup_stale_fragments
taken = refl

run_wholes_example :
    let (delivered, h) = run arrivals (new_data_handler 4) in
    All (IsWhole (λ id. letter)) delivered × IsSound (λ id. letter) h
run_wholes_example =
    run_wholes (λ id. letter) arrivals 4
      (
        (refl, λ e. refl),
        ((refl, λ e. refl), ((refl, refl, refl), (tt, ((refl, λ e. cc e), (tt, tt))))),
      )

-- The first and the last piece are there.
abbrev gapped : FragmentSet
gapped = record {
  message_id = 7;
  i2np_type = 1;
  short_expiration = 9;
  fragments = (2, 13 ∷ 14 ∷ []) ∷ (0, 10 ∷ 11 ∷ []) ∷ [];
  received_size = 4;
  has_last = true;
  has_first = true;
  last_frag_num = 2;
  created_at = 1;
  last_update = 3;
}

gapped-IsPart : IsPart 7 letter gapped
unfolding lookup
gapped-IsPart = record {
  named = refl;
  placed = λ k p e. ground (arith, e);
  first_of = λ e. (refl, refl);
  last_of = λ e. refl;
}

others_there : (j : ℕ) → j < 3 → j ≢ 1 → (p : List ℕ) × (lookup j gapped.fragments ≡ some p)
unfolding lookup
others_there zero h ne = (10 ∷ 11 ∷ [], refl)
others_there (suc zero) h ne = absurd (ne refl)
others_there (suc (suc zero)) h ne = (13 ∷ 14 ∷ [], refl)
others_there (suc (suc (suc j))) h ne = absurd (omega arith)

abbrev waiting : DataHandler
waiting = record {
  message_queue = [];
  queue_size = 4;
  sets = (7, gapped) ∷ [];
  fragment_timeout = 10;
  fragments_received = 2;
  messages_reassembled = 0;
  messages_dropped = 0;
}

last_piece_delivers_example :
    let (reply, h) = follow_on 5 1 false 7 (12 ∷ []) (some gapped) waiting in
    (reply ≡ ok tt) × (h.message_queue ≡ [] ++ whole 7 letter ∷ []) × (lookup 7 h.sets ≡ none)
unfolding lookup
last_piece_delivers_example =
    last_piece_delivers 5 1 false 7 letter (12 ∷ []) gapped waiting gapped-IsPart refl refl refl
      (λ e. cc e) (λ e. cc e) others_there (omega arith)

build_i2np_fragment_blocks_lem_example :
    (blocks : List Block) × (m : Message) × (build_i2np_fragment_blocks
        (some 7)
        1000
        (1 ∷ 2 ∷ 3 ∷ 4 ∷ [])
        11
      ≡ ok blocks)
    × All (Carries (λ _. m)) blocks
    × (map read_part blocks ≡ parts_of 7 m.pieces)
    × (whole 7 m ≡ 1 ∷ 0 ∷ 0 ∷ 0 ∷ 7 ∷ 0 ∷ 0 ∷ 4 ∷ 96 ∷ 1 ∷ 2 ∷ 3 ∷ 4 ∷ [])
unfolding chunks
build_i2np_fragment_blocks_lem_example =
    build_i2np_fragment_blocks_lem 7 1000 11 (1 ∷ 2 ∷ 3 ∷ 4 ∷ []) (omega arith) (omega arith)
      (omega arith) (omega arith)

-- Blocks of at most 11 bytes: two bytes in the first, and six at most in the next.
cutting :
    build_i2np_fragment_blocks (some 7) 1000 (1 ∷ 2 ∷ 3 ∷ 4 ∷ []) 11
    ≡ ok (
        record { block_type = 4; bytes = 1 ∷ 0 ∷ 0 ∷ 0 ∷ 7 ∷ 0 ∷ 0 ∷ 4 ∷ 96 ∷ 1 ∷ 2 ∷ [] }
        ∷ record { block_type = 5; bytes = 3 ∷ 0 ∷ 0 ∷ 0 ∷ 7 ∷ 3 ∷ 4 ∷ [] }
        ∷ [])
unfolding build_i2np_fragment_blocks follow_blocks
cutting = refl
