-- ===== src/Session/Fragments/Delivery.antt =====
-- What is delivered over any sequence of arrivals.
use noise_ssu.Base.{
  ℕ, suc, ◌+◌, ◌/◌, ◌%◌, ◌≡◌, refl, true, some, List, [], ◌∷◌, ◌++◌, arith, ◌==◌, length, drop,
  length-drop, All, All-append, All-drop, All-take, none-ne-some, take, nth,
}
use noise_ssu.Base.Bytes.{uint32}
use noise_ssu.Base.Dict.{lookup}
use noise_ssu.Session.Fragments.{
  DataHandler, handle_first_fragment, handle_follow_on_fragment, cleanup_stale_fragments,
  cleanup_expired_fragments, new_data_handler,
}
use noise_ssu.Session.Fragments.Parts.{Message}
use noise_ssu.Session.Fragments.Sound.{
  IsWhole, IsSound, first_on-IsSound, follow_on-IsSound, retain-IsSound,
}

-- What happens to a handler: a block arrives at a time, a cleanup runs, or the application takes a
-- message from the queue.
pub data Event : Type 0 where
  first_arrives follow_on_arrives : ℕ → List ℕ → Event
  cleans : ℕ → Event
  expires : ℕ → ℕ → Event
  takes : Event

-- The messages taken, and the handler after it.
unfoldable pub step : Event → DataHandler → List (List ℕ) × DataHandler
step (first_arrives now bytes) h = ([], (handle_first_fragment now bytes h).1)
step (follow_on_arrives now bytes) h = ([], (handle_follow_on_fragment now bytes h).1)
step (cleans now) h = ([], cleanup_stale_fragments now h)
step (expires now timeout) h = ([], (cleanup_expired_fragments now timeout h).1)
step takes h = (take 1 h.message_queue, record h { message_queue = drop 1 h.message_queue })

unfoldable pub run : List Event → DataHandler → List (List ℕ) × DataHandler
run [] h = ([], h)
run (event ∷ events) h =
    let (first, h') = step event h in let (later, h'') = run events h' in (first ++ later, h'')

module _ (sent : ℕ → Message) where
  -- A block that is too short for its header, or a piece of the message that the peer sends under this
  -- identifier, with that message's header and with the last piece marked.
  abbrev pub IsFirstOf : List ℕ → Type 0
  IsFirstOf (kind ∷ a ∷ b ∷ c ∷ d ∷ e ∷ f ∷ g ∷ i ∷ bytes) =
      let m = sent (uint32 a b c d) in
      (kind ≡ m.kind) × (uint32 e f g i ≡ m.expiration) × (nth 0 m.pieces ≡ some bytes)
  IsFirstOf _ = Unit

  abbrev pub IsFollowOnOf : List ℕ → Type 0
  IsFollowOnOf (info ∷ a ∷ b ∷ c ∷ d ∷ bytes) =
      let m = sent (uint32 a b c d) in
      (nth (info / 2) m.pieces ≡ some bytes)
      × ((info % 2 == 1) ≡ true → suc (info / 2) ≡ length m.pieces)
  IsFollowOnOf _ = Unit

  abbrev pub IsSent : Event → Type 0
  IsSent (first_arrives now bytes) = IsFirstOf bytes
  IsSent (follow_on_arrives now bytes) = IsFollowOnOf bytes
  IsSent (cleans now) = Unit
  IsSent (expires now timeout) = Unit
  IsSent takes = Unit

  dropped-IsSound :
      {h : DataHandler} (dropped : ℕ)
      → IsSound sent h
      → IsSound sent (record h { messages_dropped = dropped })
  dropped-IsSound dropped v = record {
    keyed = v.keyed;
    bounded = v.bounded;
    parts = v.parts;
    queued = v.queued;
    wholes = v.wholes;
  }

  handle_first_fragment-IsSound :
      (now : ℕ) (bytes : List ℕ) {h : DataHandler}
      → IsFirstOf bytes
      → IsSound sent h
      → IsSound sent (handle_first_fragment now bytes h).1
  unfolding handle_first_fragment
  handle_first_fragment-IsSound now (kind ∷ a ∷ b ∷ c ∷ d ∷ e ∷ f ∷ g ∷ i ∷ bytes) {h} from v =
      let id = uint32 a b c d in
      rw (from.0, from.1) (first_on-IsSound sent now id bytes (lookup id h.sets) refl from.2 v)
  handle_first_fragment-IsSound now _ {h} from v = dropped-IsSound (h.messages_dropped + 1) v

  handle_follow_on_fragment-IsSound :
      (now : ℕ) (bytes : List ℕ) {h : DataHandler}
      → IsFollowOnOf bytes
      → IsSound sent h
      → IsSound sent (handle_follow_on_fragment now bytes h).1
  unfolding handle_follow_on_fragment
  handle_follow_on_fragment-IsSound now (info ∷ a ∷ b ∷ c ∷ d ∷ bytes) {h} from v =
      let id = uint32 a b c d in
      follow_on-IsSound sent now (info / 2) (info % 2 == 1) id bytes (lookup id h.sets) refl from.0
        from.1 v
  handle_follow_on_fragment-IsSound now _ {h} from v = dropped-IsSound (h.messages_dropped + 1) v

  step-IsSound :
      (event : Event) {h : DataHandler}
      → IsSent event
      → IsSound sent h
      → All (IsWhole sent) (step event h).0 × IsSound sent (step event h).1
  unfolding step cleanup_stale_fragments cleanup_expired_fragments
  step-IsSound (first_arrives now bytes) from v =
      (tt, handle_first_fragment-IsSound now bytes from v)
  step-IsSound (follow_on_arrives now bytes) from v =
      (tt, handle_follow_on_fragment-IsSound now bytes from v)
  step-IsSound (cleans now) {h} from v = (tt, retain-IsSound sent now h.fragment_timeout v)
  step-IsSound (expires now timeout) from v = (tt, retain-IsSound sent now timeout v)
  step-IsSound takes {h} from v = (
    All-take (IsWhole sent) 1 h.message_queue v.wholes,
    record {
      keyed = v.keyed;
      bounded = v.bounded;
      parts = v.parts;
      queued = omega (arith, v.queued, length-drop 1 h.message_queue);
      wholes = All-drop (IsWhole sent) 1 h.message_queue v.wholes;
    },
  )

  new_data_handler-IsSound : (queue_size : ℕ) → IsSound sent (new_data_handler queue_size)
  unfolding new_data_handler lookup
  new_data_handler-IsSound queue_size = record {
    keyed = tt;
    bounded = omega arith;
    parts = λ id fs e. absurd (none-ne-some e);
    queued = omega arith;
    wholes = tt;
  }

  run-IsSound :
      (events : List Event) {h : DataHandler}
      → All IsSent events
      → IsSound sent h
      → let (delivered, h') = run events h in All (IsWhole sent) delivered × IsSound sent h'
  unfolding run
  run-IsSound [] from v = (tt, v)
  run-IsSound (event ∷ events) {h} from v =
      let (now, next) = step-IsSound event from.0 v in
      let (later, last) = run-IsSound events from.1 next in
      (All-append (IsWhole sent) (step event h).0 (run events (step event h).1).0 now later, last)

  -- Let the blocks that arrive be pieces of messages of the peer, in any order, repeated, lost, of several
  -- messages in turn, or too short for a header, with cleanups and evictions between them. Then every
  -- message that is delivered is the whole of one that the peer sent, its pieces in order after its
  -- header; at most 512 sets wait, and the queue stays within its capacity.
  pub run_wholes :
      (events : List Event) (queue_size : ℕ)
      → All IsSent events
      → let (delivered, h) = run events (new_data_handler queue_size) in
        All (IsWhole sent) delivered × IsSound sent h
  run_wholes events queue_size from = run-IsSound events from (new_data_handler-IsSound queue_size)
