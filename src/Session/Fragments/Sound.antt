-- ===== src/Session/Fragments/Sound.antt =====
-- Whatever arrives, only whole messages are delivered, and the state stays within its bounds.
use noise_ssu.Base.{
  ℕ, suc, ◌+◌, ◌≤◌, ◌<◌, ◌≡◌, refl, sym, subst, ◌∙◌, inl, inr, ◌⊎◌, Bool, true, not, Option, none,
  some, List, [], ◌∷◌, arith, ltb, leb, ◌==◌, length, length-append, All, All-append, Bool-cases,
  if-both, ==→eq, ltb→lt, leb→le, leb→lt, none-ne-some, nth, ◌&&◌,
}
use noise_ssu.Base.Dict.{
  contains, Dict, lookup, insert, erase, IsDict, IsKey, lookup-insert, lookup-erase, insert-IsDict,
  erase-IsDict, retain-IsDict, length-erase-lt, length-erase-le, length-insert-le,
  length-insert_present, length-retain-le, some-retain,
}
use noise_ssu.Session.Fragments.{
  FragmentSet, DataHandler, Reply, oldest, evict_oldest_fragment, make_room, put_set, enqueue,
  deliver, reassemble_set, reassemble_message, first_on, follow_on, follow_on_in, remove_stale,
  gather, with_first, new_set, early_set, with_follow_on, is_stale,
}
use noise_ssu.Session.Fragments.Parts.{
  Message, whole, IsPart, early_set-IsPart, with_first-IsPart, new_set-IsPart,
  with_follow_on-IsPart, gather-whole,
}

oldest-IsKey :
    (d : Dict FragmentSet) (k t : ℕ)
    → (k' : ℕ) × (t' : ℕ) × (oldest d (some (k, t)) ≡ some (k', t')) × ((k' ≡ k) ⊎ IsKey k' d)
unfolding oldest
oldest-IsKey [] k t = (k, t, refl, inl refl)
oldest-IsKey ((j, fs) ∷ d) k t = elim (Bool-cases (ltb fs.created_at t)) [
  | inl e ↦
      let (k', t', o, h) = oldest-IsKey d j fs.created_at in
      rw e (k', t', o, inr (elim h [ inl same ↦ inl (sym same) | inr below ↦ inr below ]))
  | inr e ↦
      let (k', t', o, h) = oldest-IsKey d k t in
      rw e (k', t', o, elim h [ inl same ↦ inl same | inr below ↦ inr (inr below) ])
]

oldest_of_some :
    (d : Dict FragmentSet)
    → 0 < length d
    → (id : ℕ) × (t : ℕ) × (oldest d none ≡ some (id, t)) × IsKey id d
unfolding oldest
oldest_of_some [] h = absurd (omega arith)
oldest_of_some ((j, fs) ∷ d) h =
    let (id, t, o, there) = oldest-IsKey d j fs.created_at in
    (id, t, o, elim there [ inl same ↦ inl (sym same) | inr below ↦ inr below ])

module _ (sent : ℕ → Message) where
  -- A delivered message is one that the peer sent, under its identifier.
  abbrev pub IsWhole : List ℕ → Type 0
  IsWhole message = (id : ℕ) × (message ≡ whole id (sent id))

  -- The sets are parts of messages that the peer sends, at most 512 of them, and the queue holds only
  -- whole messages, within its capacity.
  pub record IsSound (h : DataHandler) : Type 0 where
    pub keyed : IsDict h.sets
    pub bounded : length h.sets ≤ 512
    pub parts : (id : ℕ) (fs : FragmentSet) → lookup id h.sets ≡ some fs → IsPart id (sent id) fs
    pub queued : length h.message_queue ≤ h.queue_size
    pub wholes : All IsWhole h.message_queue

  abbrev IsSoundReply : Reply → Type 0
  IsSoundReply reply = IsSound reply.1

  -- Without a set.
  erase-IsSound :
      (id dropped : ℕ) {h : DataHandler}
      → IsSound h
      → IsSound (record h { sets = erase id h.sets; messages_dropped = dropped })
  erase-IsSound id dropped {h} v = record {
    keyed = erase-IsDict id h.sets v.keyed;
    bounded = omega (arith, v.bounded, length-erase-le id h.sets);
    parts = λ j fs e. elim (Bool-cases (id == j)) [
      | inl same ↦ absurd (none-ne-some (rw same at (sym (lookup-erase id j h.sets) ∙ e)))
      | inr other ↦ v.parts j fs (rw other at (sym (lookup-erase id j h.sets) ∙ e))
    ];
    queued = v.queued;
    wholes = v.wholes;
  }

  -- With a set more, or a set again.
  insert-IsSound :
      (id received : ℕ) (fs : FragmentSet) {h : DataHandler}
      → IsPart id (sent id) fs
      → length (insert id fs h.sets) ≤ 512
      → IsSound h
      → IsSound (record h { sets = insert id fs h.sets; fragments_received = received })
  insert-IsSound id received fs {h} part room v = record {
    keyed = insert-IsDict id fs h.sets v.keyed;
    bounded = room;
    parts = λ j gs e. elim (Bool-cases (id == j)) [
      | inl same ↦
          let is : some fs ≡ some gs = rw same at (sym (lookup-insert id j fs h.sets) ∙ e) in
          let alike : fs ≡ gs = cc is in
          subst (λ k. IsPart k (sent k) gs) (==→eq id j same)
            (subst (IsPart id (sent id)) alike part)
      | inr other ↦ v.parts j gs (rw other at (sym (lookup-insert id j fs h.sets) ∙ e))
    ];
    queued = v.queued;
    wholes = v.wholes;
  }

  pub retain-IsSound :
      (now timeout : ℕ) {h : DataHandler} → IsSound h → IsSound (remove_stale now timeout h).1
  retain-IsSound now timeout {h} v =
      let keep = λ (id : ℕ) (fs : FragmentSet). not (is_stale now timeout fs) in
      record {
        keyed = retain-IsDict keep h.sets v.keyed;
        bounded = omega (arith, v.bounded, length-retain-le keep h.sets);
        parts = λ j fs e. v.parts j fs (some-retain keep j fs h.sets v.keyed e);
        queued = v.queued;
        wholes = v.wholes;
      }

  make_room-IsSound :
      {h : DataHandler} → IsSound h → IsSound (make_room h) × (length (make_room h).sets < 512)
  unfolding evict_oldest_fragment
  make_room-IsSound {h} v = elim (Bool-cases (leb 512 (length h.sets))) [
    | inr roomy ↦ rw roomy (v, leb→lt _ _ roomy)
    | inl full ↦
        let (id, t, o, there) = oldest_of_some h.sets (omega (arith, leb→le _ _ full)) in
        rw (full, o)
          (
            erase-IsSound id (h.messages_dropped + 1) v,
            omega (arith, v.bounded, length-erase-lt id h.sets there),
          )
  ]

  enqueue-IsSound :
      (id : ℕ) (message : List ℕ) {h : DataHandler}
      → IsWhole message
      → IsSound h
      → IsSound (enqueue id message h).1
  enqueue-IsSound id message {h} w v =
      elim (Bool-cases (ltb (length h.message_queue) h.queue_size)) [
        | inr full ↦ rw full (erase-IsSound id (h.messages_dropped + 1) v)
        | inl roomy ↦
            let kept = erase-IsSound id h.messages_dropped v in
            rw roomy (record {
              keyed = kept.keyed;
              bounded = kept.bounded;
              parts = kept.parts;
              queued =
                  omega (arith, ltb→lt _ _ roomy, length-append h.message_queue (message ∷ []));
              wholes = All-append IsWhole h.message_queue (message ∷ []) v.wholes (w, tt);
            })
      ]

  deliver-IsSound :
      (id : ℕ) (fs : FragmentSet) (gathered : Option (List ℕ)) {h : DataHandler}
      → gather (suc fs.last_frag_num) 0 fs.fragments ≡ gathered
      → IsPart id (sent id) fs
      → fs.has_first ≡ true
      → fs.has_last ≡ true
      → IsSound h
      → IsSound (deliver id fs gathered h).1
  deliver-IsSound id fs none e part first last v = v
  deliver-IsSound id fs (some body) e part first last v =
      enqueue-IsSound id _ (id, gather-whole (sent id) fs body part first last e) v

  reassemble_set-IsSound :
      (id : ℕ) (found : Option FragmentSet) {h : DataHandler}
      → lookup id h.sets ≡ found
      → IsSound h
      → IsSound (reassemble_set id found h).1
  reassemble_set-IsSound id none e v = v
  reassemble_set-IsSound id (some fs) {h} e v = elim (Bool-cases fs.has_first) [
    | inr without ↦ simp without v
    | inl first ↦ elim (Bool-cases fs.has_last) [
      | inr without ↦ simp (first, without) v
      | inl last ↦
          simp (first, last)
            (deliver-IsSound id fs (gather (suc fs.last_frag_num) 0 fs.fragments) refl
              (v.parts id fs e) first last v)
    ]
  ]

  reassemble_message-IsSound :
      (id : ℕ) {h : DataHandler} → IsSound h → IsSound (reassemble_message id h).1
  unfolding reassemble_message
  reassemble_message-IsSound id {h} v = reassemble_set-IsSound id (lookup id h.sets) refl v

  -- A set that is there already takes no more room.
  put_set-IsSound :
      (id : ℕ) (old fs : FragmentSet) {h : DataHandler}
      → lookup id h.sets ≡ some old
      → IsPart id (sent id) fs
      → IsSound h
      → IsSound (put_set id fs h)
  put_set-IsSound id old fs {h} there part v =
      insert-IsSound id (h.fragments_received + 1) fs part
        (omega (arith, v.bounded, length-insert_present id fs old h.sets there)) v

  pub first_on-IsSound :
      (now id : ℕ) (bytes : List ℕ) (found : Option FragmentSet) {h : DataHandler}
      → lookup id h.sets ≡ found
      → nth 0 (sent id).pieces ≡ some bytes
      → IsSound h
      → IsSound (first_on now (sent id).kind id (sent id).expiration bytes found h).1
  first_on-IsSound now id bytes none {h} e here v =
      let (w, room) = make_room-IsSound v in
      let fs = new_set now (sent id).kind id (sent id).expiration bytes in
      insert-IsSound id ((make_room h).fragments_received + 1) fs
        (new_set-IsPart now id (sent id) bytes here)
        (omega (arith, room, length-insert-le id fs (make_room h).sets)) w
  first_on-IsSound now id bytes (some old) {h} e here v =
      let fs = with_first now (sent id).kind (sent id).expiration bytes old in
      let put =
        put_set-IsSound id old fs e
          (with_first-IsPart now (sent id) bytes old here (v.parts id old e)) v in
      if-both IsSoundReply old.has_first v
        (if-both IsSoundReply old.has_last (reassemble_message-IsSound id put) put)

  follow_on_in-IsSound :
      (now number : ℕ) (is_last : Bool) (id : ℕ) (bytes : List ℕ) (old : FragmentSet)
      {h : DataHandler}
      → lookup id h.sets ≡ some old
      → nth number (sent id).pieces ≡ some bytes
      → (is_last ≡ true → suc number ≡ length (sent id).pieces)
      → IsSound h
      → IsSound (follow_on_in now number is_last id bytes old h).1
  follow_on_in-IsSound now number is_last id bytes old {h} e here ends v =
      let fs = with_follow_on now number is_last bytes old in
      let put =
        put_set-IsSound id old fs e
          (with_follow_on-IsPart now number is_last (sent id) bytes old here ends
            (v.parts id old e))
          v in
      if-both IsSoundReply (contains number old.fragments) v
        (if-both IsSoundReply (fs.has_first && fs.has_last) (reassemble_message-IsSound id put) put)

  pub follow_on-IsSound :
      (now number : ℕ) (is_last : Bool) (id : ℕ) (bytes : List ℕ) (found : Option FragmentSet)
      {h : DataHandler}
      → lookup id h.sets ≡ found
      → nth number (sent id).pieces ≡ some bytes
      → (is_last ≡ true → suc number ≡ length (sent id).pieces)
      → IsSound h
      → IsSound (follow_on now number is_last id bytes found h).1
  follow_on-IsSound now number is_last id bytes (some old) e here ends v =
      follow_on_in-IsSound now number is_last id bytes old e here ends v
  follow_on-IsSound now number is_last id bytes none {h} e here ends v =
      let (w, room) = make_room-IsSound v in
      let fs = early_set now id in
      let started =
        insert-IsSound id (make_room h).fragments_received fs (early_set-IsPart now id (sent id))
          (omega (arith, room, length-insert-le id fs (make_room h).sets)) w in
      follow_on_in-IsSound now number is_last id bytes fs
        (lookup-insert id id fs (make_room h).sets ∙ ground arith) here ends started
