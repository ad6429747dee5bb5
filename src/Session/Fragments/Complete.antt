-- ===== src/Session/Fragments/Complete.antt =====
-- The piece that completes a message delivers it.
use noise_ssu.Base.{
  ℕ, zero, suc, ◌+◌, ◌≤◌, ◌<◌, ◌≡◌, ◌≢◌, refl, sym, ap, ap₂, ◌∙◌, inl, inr, Bool, true, false, ◌&&◌,
  none, some, List, [], ◌∷◌, ◌++◌, arith, ◌==◌, if◌then◌else◌, length, Bool-cases, ==→ne, lt→ltb,
  eq→==, if-true, if-false, nth, ok,
}
use noise_ssu.Base.Dict.{Dict, lookup, insert, erase, contains_of_none, lookup-insert, lookup-erase}
use noise_ssu.Session.Fragments.{
  FragmentSet, DataHandler, gather, follow_on, reassemble_message, reassemble_set, deliver, put_set,
  with_follow_on,
}
use noise_ssu.Session.Fragments.Parts.{Message, whole, IsPart, with_follow_on-IsPart, gather-whole}

gather_all :
    (count i : ℕ) (d : Dict (List ℕ))
    → ((j : ℕ) → i ≤ j → j < i + count → (p : List ℕ) × (lookup j d ≡ some p))
    → (body : List ℕ) × (gather count i d ≡ some body)
unfolding gather
gather_all zero i d all = ([], refl)
gather_all (suc count) i d all =
    let (p, there) = all i (omega arith) (omega arith) in
    let (rest, later) =
      gather_all count (i + 1) d (λ j low high. all j (omega arith) (omega arith)) in
    (p ++ rest, rw (gather, there, later) refl)

now_marked :
    (is_last had : Bool) → (had ≡ false → is_last ≡ true) → (if is_last then true else had) ≡ true
now_marked true had h = refl
now_marked false true h = refl
now_marked false false h = h refl

all_there :
    (number : ℕ) (bytes : List ℕ) (d : Dict (List ℕ)) (j : ℕ)
    → (j ≢ number → (p : List ℕ) × (lookup j d ≡ some p))
    → (p : List ℕ) × (lookup j (insert number bytes d) ≡ some p)
all_there number bytes d j other = elim (Bool-cases (number == j)) [
  | inl same ↦ (bytes, lookup-insert number j bytes d ∙ if-true _ _ same)
  | inr ne ↦
      let (p, there) = other (λ e. ==→ne number j ne (sym e)) in
      (p, lookup-insert number j bytes d ∙ if-false _ _ ne ∙ there)
]

-- The handler after a message is queued.
abbrev delivered : ℕ → List ℕ → DataHandler → DataHandler
delivered id message h = record h {
  message_queue = h.message_queue ++ message ∷ [];
  messages_reassembled = h.messages_reassembled + 1;
  sets = erase id h.sets;
}

reassembled :
    (id : ℕ) (m : Message) (body : List ℕ) (fs : FragmentSet) (h : DataHandler)
    → IsPart id m fs
    → fs.has_first ≡ true
    → fs.has_last ≡ true
    → gather (suc fs.last_frag_num) 0 fs.fragments ≡ some body
    → lookup id h.sets ≡ some fs
    → length h.message_queue < h.queue_size
    → reassemble_message id h ≡ (ok tt, delivered id (whole id m) h)
unfolding reassemble_message
reassembled id m body fs h part first last got found room =
    ap (λ o. reassemble_set id o h) found
    ∙ if-true _ _ (ap₂ ◌&&◌ first last)
    ∙ ap (λ o. deliver id fs o h) got
    ∙ if-true _ _ (lt→ltb (length h.message_queue) h.queue_size room)
    ∙ ap (λ message. (ok tt, delivered id message h)) (gather-whole m fs body part first last got)

-- In a set that is part of a message and has its first piece, let a piece arrive that is not there yet,
-- when every other piece is there and the last one is marked, by the set or by this piece. If the queue
-- has room, the whole message is put at its end, the set is gone, and no error is returned.
pub last_piece_delivers :
    (now number : ℕ) (is_last : Bool) (id : ℕ) (m : Message) (bytes : List ℕ) (fs : FragmentSet)
    (h : DataHandler)
    → IsPart id m fs
    → fs.has_first ≡ true
    → lookup number fs.fragments ≡ none
    → nth number m.pieces ≡ some bytes
    → (is_last ≡ true → suc number ≡ length m.pieces)
    → (fs.has_last ≡ false → is_last ≡ true)
    → ((j : ℕ) → j < length m.pieces → j ≢ number → (p : List ℕ) × (lookup j fs.fragments ≡ some p))
    → length h.message_queue < h.queue_size
    → let (reply, h') = follow_on now number is_last id bytes (some fs) h in
      (reply ≡ ok tt)
      × (h'.message_queue ≡ h.message_queue ++ whole id m ∷ [])
      × (lookup id h'.sets ≡ none)
last_piece_delivers now number is_last id m bytes fs h part first fresh here ends marked others
      room =
    let fs' = with_follow_on now number is_last bytes fs in
    let part' : IsPart id m fs' =
      with_follow_on-IsPart now number is_last m bytes fs here ends part in
    let last : fs'.has_last ≡ true = now_marked is_last fs.has_last marked in
    let sizes : suc fs'.last_frag_num ≡ length m.pieces = part'.last_of last in
    let (body, got) : (body : List ℕ) × (gather (suc fs'.last_frag_num) 0 fs'.fragments
          ≡ some body) =
      gather_all (suc fs'.last_frag_num) 0 fs'.fragments (λ j low high.
        all_there number bytes fs.fragments j (others j (omega (arith, high, sizes)))) in
    let found : lookup id (put_set id fs' h).sets ≡ some fs' =
      lookup-insert id id fs' h.sets ∙ if-true _ _ (eq→== id id refl) in
    let result : follow_on now number is_last id bytes (some fs) h
        ≡ (ok tt, delivered id (whole id m) (put_set id fs' h)) =
      if-false _ _ (contains_of_none number fs.fragments fresh)
      ∙ if-true _ _ (ap₂ ◌&&◌ first last)
      ∙ reassembled id m body fs' (put_set id fs' h) part' first last got found room in
    (
      ap (λ r. r.0) result,
      ap (λ r. r.1.message_queue) result,
      ap (λ r. lookup id r.1.sets) result
          ∙ lookup-erase id id (put_set id fs' h).sets
          ∙ if-true _ _ (eq→== id id refl),
    )
