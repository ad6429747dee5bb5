-- ===== src/Session/Fragments/Parts.antt =====
-- Which sets are parts of the messages that the peer sends.
use noise_ssu.Base.{
  ℕ, zero, suc, ◌+◌, ◌≡◌, refl, sym, ap, ap₂, subst, ◌∙◌, inl, inr, Bool, true, false, some, List,
  [], ◌++◌, arith, ◌==◌, length, Bool-cases, Option-cases, ==→eq, none-ne-some, true-ne-false,
  joined, nth, drop, drop-nth, drop_beyond,
}
use noise_ssu.Base.Dict.{Dict, lookup, insert, lookup-insert}
use noise_ssu.Session.Fragments.{
  FragmentSet, gather, i2np_header, with_first, new_set, early_set, with_follow_on,
}

-- A message of the peer, cut in pieces.
pub record Message : Type 0 where
  pub kind : ℕ
  pub expiration : ℕ
  pub pieces : List (List ℕ)

-- The message as the application gets it.
abbrev pub whole : ℕ → Message → List ℕ
whole id m = i2np_header m.kind id m.expiration ++ joined m.pieces

-- What a set has is of this message.
pub record IsPart (id : ℕ) (m : Message) (fs : FragmentSet) : Type 0 where
  pub named : fs.message_id ≡ id
  pub placed : (k : ℕ) (p : List ℕ) → lookup k fs.fragments ≡ some p → nth k m.pieces ≡ some p
  pub first_of :
      fs.has_first ≡ true → (fs.i2np_type ≡ m.kind) × (fs.short_expiration ≡ m.expiration)
  pub last_of : fs.has_last ≡ true → suc fs.last_frag_num ≡ length m.pieces

-- What is gathered to the end of the pieces is the rest of the message.
gather-placed :
    (count k : ℕ) (fragments : Dict (List ℕ)) (pieces : List (List ℕ)) (body : List ℕ)
    → ((j : ℕ) (p : List ℕ) → lookup j fragments ≡ some p → nth j pieces ≡ some p)
    → k + count ≡ length pieces
    → gather count k fragments ≡ some body
    → body ≡ joined (drop k pieces)
unfolding gather
gather-placed zero k fragments pieces body placed all e =
    let is : some [] ≡ some body = e in
    let same : [] ≡ body = cc is in
    sym same ∙ sym (ap joined (drop_beyond k pieces (omega (arith, all))))
gather-placed (suc count) k fragments pieces body placed all e =
    elim (Option-cases (lookup k fragments)) [
      | inl missing ↦ absurd (none-ne-some (rw (gather, missing) at e))
      | inr (p, there) ↦ elim (Option-cases (gather count (k + 1) fragments)) [
        | inl missing ↦ absurd (none-ne-some (rw (gather, there, missing) at e))
        | inr (rest, later) ↦
            let is : some (p ++ rest) ≡ some body = rw (gather, there, later) at e in
            let same : p ++ rest ≡ body = cc is in
            let tail =
              gather-placed count (k + 1) fragments pieces rest placed (omega (arith, all)) later in
            let next : k + 1 ≡ suc k = omega arith in
            sym same
            ∙ ap (◌++◌ p) (tail ∙ ap (λ j. joined (drop j pieces)) next)
            ∙ sym (ap joined (drop-nth k p pieces (placed k p there)))
      ]
    ]

-- The set after a piece is stored in it.
with_piece :
    (k : ℕ) (bytes : List ℕ) (d : Dict (List ℕ)) (pieces : List (List ℕ))
    → nth k pieces ≡ some bytes
    → ((j : ℕ) (p : List ℕ) → lookup j d ≡ some p → nth j pieces ≡ some p)
    → (j : ℕ) (p : List ℕ) → lookup j (insert k bytes d) ≡ some p
    → nth j pieces ≡ some p
with_piece k bytes d pieces here placed j p e = elim (Bool-cases (k == j)) [
  | inl same ↦
      let is : some bytes ≡ some p = rw same at (sym (lookup-insert k j bytes d) ∙ e) in
      subst (λ i. nth i pieces ≡ some p) (==→eq k j same) (here ∙ is)
  | inr other ↦ placed j p (rw other at (sym (lookup-insert k j bytes d) ∙ e))
]

pub early_set-IsPart : (now id : ℕ) (m : Message) → IsPart id m (early_set now id)
unfolding lookup
early_set-IsPart now id m = record {
  named = refl;
  placed = λ k p e. absurd (none-ne-some e);
  first_of = λ e. absurd (true-ne-false (sym e));
  last_of = λ e. absurd (true-ne-false (sym e));
}

pub with_first-IsPart :
    (now : ℕ) {id : ℕ} (m : Message) (bytes : List ℕ) (fs : FragmentSet)
    → nth 0 m.pieces ≡ some bytes
    → IsPart id m fs
    → IsPart id m (with_first now m.kind m.expiration bytes fs)
with_first-IsPart now m bytes fs here part = record {
  named = part.named;
  placed = with_piece 0 bytes fs.fragments m.pieces here part.placed;
  first_of = λ _. (refl, refl);
  last_of = part.last_of;
}

pub new_set-IsPart :
    (now id : ℕ) (m : Message) (bytes : List ℕ)
    → nth 0 m.pieces ≡ some bytes
    → IsPart id m (new_set now m.kind id m.expiration bytes)
unfolding insert lookup
new_set-IsPart now id m bytes here = record {
  named = refl;
  placed = with_piece 0 bytes [] m.pieces here (λ j p e. absurd (none-ne-some e));
  first_of = λ _. (refl, refl);
  last_of = λ e. absurd (true-ne-false (sym e));
}

pub with_follow_on-IsPart :
    (now number : ℕ) (is_last : Bool) {id : ℕ} (m : Message) (bytes : List ℕ) (fs : FragmentSet)
    → nth number m.pieces ≡ some bytes
    → (is_last ≡ true → suc number ≡ length m.pieces)
    → IsPart id m fs
    → IsPart id m (with_follow_on now number is_last bytes fs)
with_follow_on-IsPart now number true m bytes fs here ends part = record {
  named = part.named;
  placed = with_piece number bytes fs.fragments m.pieces here part.placed;
  first_of = part.first_of;
  last_of = λ _. ends refl;
}
with_follow_on-IsPart now number false m bytes fs here ends part = record {
  named = part.named;
  placed = with_piece number bytes fs.fragments m.pieces here part.placed;
  first_of = part.first_of;
  last_of = part.last_of;
}

-- What is delivered of a set that is part of a message is the whole message.
pub gather-whole :
    {id : ℕ} (m : Message) (fs : FragmentSet) (body : List ℕ)
    → IsPart id m fs
    → fs.has_first ≡ true
    → fs.has_last ≡ true
    → gather (suc fs.last_frag_num) 0 fs.fragments ≡ some body
    → i2np_header fs.i2np_type fs.message_id fs.short_expiration ++ body ≡ whole id m
gather-whole {id} m fs body part first last e =
    let (kind, expires) = part.first_of first in
    ap₂ ◌++◌
      (ap₂ (λ k x. i2np_header k fs.message_id x) kind expires
        ∙ ap (λ i. i2np_header m.kind i m.expiration) part.named)
      (gather-placed (suc fs.last_frag_num) 0 fs.fragments m.pieces body part.placed
        (omega (arith, part.last_of last)) e)
