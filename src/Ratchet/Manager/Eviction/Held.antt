-- ===== src/Ratchet/Manager/Eviction/Held.antt =====
-- The sessions of the maps are on the heap, and the one to evict is among them.
use noise_ssu.Base.{
  ℕ, ◌≤◌, ◌≡◌, refl, sym, ◌∙◌, ap, ◌&&◌, ◌||◌, Option, none, some, List, [], ◌∷◌, ltb, ◌==◌, arith,
  length, inl, inr, ◌⊎◌, Bool-cases, ==→ne,
}
use noise_ssu.Base.Dict.{Dict, lookup, insert, erase, IsKey, lookup-insert}
use noise_ssu.Ratchet.Session.{Crypto, Session}
use noise_ssu.Ratchet.Manager.{Manager, remove_tags, forget_nsr_tag, forget_session}
use noise_ssu.Ratchet.Manager.Eviction.{Oldest, older_of, visit, find_lru}

-- A key has an entry.
pub IsKey-lookup : (k : ℕ) (d : Dict ℕ) → IsKey k d → (v : ℕ) × (lookup k d ≡ some v)
unfolding lookup
IsKey-lookup k [] h = absurd h
IsKey-lookup k ((j, v) ∷ d) h = elim (Bool-cases (j == k)) [
  | inl same ↦ (v, rw same refl)
  | inr other ↦ elim h [
    | inl same ↦ absurd (==→ne j k other same)
    | inr below ↦ let (w, e) = IsKey-lookup k d below in (w, rw other e)
  ]
]

module _ (C : Crypto) where
  -- Every session that is stored is on the heap.
  abbrev pub AreHeld : Dict ℕ → Dict (Session C) → Type 0
  AreHeld [] heap = Unit {0}
  AreHeld ((hash, p) ∷ d) heap = ((s : Session C) × (lookup p heap ≡ some s)) × AreHeld d heap

  pub held_at :
      (hash p : ℕ) (d : Dict ℕ) (heap : Dict (Session C))
      → AreHeld d heap
      → lookup hash d ≡ some p
      → (s : Session C) × (lookup p heap ≡ some s)
  unfolding lookup
  held_at hash p [] heap held h = cc
  held_at hash p ((j, q) ∷ d) heap held h = elim (Bool-cases (j == hash)) [
    | inl same ↦
        let e : q ≡ p = ground (arith, h, same) in
        let (s, there) = held.0 in (s, ap (λ x. lookup x heap) (sym e) ∙ there)
    | inr other ↦ held_at hash p d heap held.1 (ground (arith, h, other))
  ]

  -- The oldest found is one of the entries seen.
  abbrev pub IsFrom : Dict ℕ → Oldest → Type 0
  IsFrom d none = ⊥
  IsFrom d (some (hash, t)) = IsKey hash d

  older_of-cases :
      (hash : ℕ) (s : Session C) (o : Oldest)
      → (older_of C hash s o ≡ some (hash, s.last_used)) ⊎ (older_of C hash s o ≡ o)
  unfolding older_of
  older_of-cases hash s none = inl refl
  older_of-cases hash s (some (h, t)) =
      elim (Bool-cases (ltb s.last_used t || (s.last_used == t && ltb hash h))) [
        | inl older ↦ inl (rw older refl)
        | inr newer ↦ inr (rw newer refl)
      ]

  find_lru-IsFrom :
      (d whole : Dict ℕ) (heap : Dict (Session C)) (o : Oldest)
      → AreHeld d heap
      → ((hash : ℕ) → IsKey hash d → IsKey hash whole)
      → IsFrom whole o
      → IsFrom whole (find_lru C d heap o)
  unfolding find_lru
  find_lru-IsFrom [] whole heap o held within from = from
  find_lru-IsFrom ((hash, p) ∷ d) whole heap o held within from =
      let (s, there) = held.0 in
      let next : IsFrom whole (older_of C hash s o) = elim (older_of-cases hash s o) [
        | inl e ↦ rw e (within hash (inl refl))
        | inr e ↦ rw e from
      ] in
      rw (there, visit)
        (find_lru-IsFrom d whole heap (older_of C hash s o) held.1 (λ h k. within h (inr k)) next)

  pub find_lru-none :
      (d : Dict ℕ) (heap : Dict (Session C))
      → AreHeld d heap
      → 1 ≤ length d
      → IsFrom d (find_lru C d heap none)
  unfolding find_lru older_of
  find_lru-none [] heap held some_one = absurd (omega arith)
  find_lru-none ((hash, p) ∷ d) heap held some_one =
      let (s, there) = held.0 in
      rw (there, visit)
        (find_lru-IsFrom d ((hash, p) ∷ d) heap (some (hash, s.last_used)) held.1 (λ h k. inr k)
          (inl refl))

  -- What a removal leaves of the parts that matter here.
  sessions-remove_tags :
      (ts : List ℕ) (sm : Manager C)
      → ((remove_tags C ts sm).sessions ≡ sm.sessions) × ((remove_tags C ts sm).heap ≡ sm.heap)
  unfolding remove_tags
  sessions-remove_tags [] sm = (refl, refl)
  sessions-remove_tags (t ∷ ts) sm = sessions-remove_tags ts (record sm {
    tag_index = erase t sm.tag_index;
    tag_counter_index = erase t sm.tag_counter_index;
  })

  sessions-forget_nsr :
      (o : Option ℕ) (sm : Manager C)
      → ((forget_nsr_tag C o sm).sessions ≡ sm.sessions) × ((forget_nsr_tag C o sm).heap ≡ sm.heap)
  unfolding forget_nsr_tag
  sessions-forget_nsr none sm = (refl, refl)
  sessions-forget_nsr (some t) sm = (refl, refl)

  pub sessions-forget :
      (hash : ℕ) (s : Session C) (sm : Manager C)
      → ((forget_session C hash s sm).sessions ≡ erase hash sm.sessions)
        × ((forget_session C hash s sm).heap ≡ sm.heap)
  unfolding forget_session
  sessions-forget hash s sm =
      let (d, h) = sessions-remove_tags s.pending_tags sm in
      let (d', h') = sessions-forget_nsr s.nsr_tag (remove_tags C s.pending_tags sm) in
      (ap (erase hash) (d' ∙ d), h' ∙ h)

  pub AreHeld-erase :
      (hash : ℕ) (d : Dict ℕ) (heap : Dict (Session C))
      → AreHeld d heap
      → AreHeld (erase hash d) heap
  unfolding erase
  AreHeld-erase hash [] heap held = tt
  AreHeld-erase hash ((j, p) ∷ d) heap held = elim (Bool-cases (j == hash)) [
    | inl same ↦ rw same (AreHeld-erase hash d heap held.1)
    | inr other ↦ rw other (held.0, AreHeld-erase hash d heap held.1)
  ]

  pub AreHeld-store :
      (p : ℕ) (s : Session C) (d : Dict ℕ) (heap : Dict (Session C))
      → AreHeld d heap
      → AreHeld d (insert p s heap)
  AreHeld-store p s [] heap held = tt
  AreHeld-store p s ((j, q) ∷ d) heap ((t, there), held) = (
    elim (Bool-cases (p == q)) [
      | inl same ↦ (s, lookup-insert p q s heap ∙ rw same refl)
      | inr other ↦ (t, lookup-insert p q s heap ∙ rw other there)
    ],
    AreHeld-store p s d heap held,
  )

  pub AreHeld-insert :
      (hash p : ℕ) (d : Dict ℕ) (heap : Dict (Session C))
      → (s : Session C) × (lookup p heap ≡ some s)
      → AreHeld d heap
      → AreHeld (insert hash p d) heap
  unfolding insert
  AreHeld-insert hash p [] heap new held = (new, tt)
  AreHeld-insert hash p ((j, q) ∷ d) heap new held = elim (Bool-cases (j == hash)) [
    | inl same ↦ rw same (new, held.1)
    | inr other ↦ rw other (held.0, AreHeld-insert hash p d heap new held.1)
  ]
