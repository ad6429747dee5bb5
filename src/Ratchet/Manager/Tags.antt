-- ===== src/Ratchet/Manager/Tags.antt =====
-- ratchet/session_manager.go: the window of tags by which the next messages of a session are known.
pub mod Window
use noise_ssu.Base.{
  ℕ, zero, suc, ◌-◌, Bool, true, false, Option, none, some, List, [], ◌∷◌, ◌++◌, ltb, leb, ◌==◌,
  not, ◌&&◌, if◌then◌else◌, length, Outcome, ok, err,
}
use noise_ssu.Base.Dict.{lookup, insert}
use noise_ssu.Base.U32.{add32}
use noise_ssu.Ratchet.Session.{
  Crypto, Session, SessionError, tag_window_size, no_tag_ratchet, tag_failed, no_session,
}
use noise_ssu.Ratchet.Manager.{Manager, store}

module _ (C : Crypto) where
  -- The next tag of the receiving ratchet, with its counter.
  unfoldable pub take_from : Option C.Tags → Session C → Outcome SessionError (ℕ × ℕ) × Session C
  take_from none s = (err no_tag_ratchet, s)
  take_from (some ratchet) s = elim (C.next_tag ratchet) [
    | none ↦ (err tag_failed, s)
    | some (tag, ratchet') ↦ (
      ok (tag, s.next_recv_tag_counter),
      record s {
        recv_tag_ratchet = some ratchet';
        next_recv_tag_counter = add32 s.next_recv_tag_counter 1;
      },
    )
  ]

  unfoldable pub take_tag : Session C → Outcome SessionError (ℕ × ℕ) × Session C
  take_tag s = take_from s.recv_tag_ratchet s

  -- `existing, ok := sm.tagIndex[tag]; ok && existing != session`.
  abbrev pub collides : ℕ → Option ℕ → Bool
  collides p none = false
  collides p (some q) = not (q == p)

  -- The tag joins the window of the session at `p`, unless it is another's.
  unfoldable pub install_tag : ℕ → ℕ × ℕ → Session C × Manager C → Session C × Manager C
  install_tag p (tag, counter) (s, sm) = if collides p (lookup tag sm.tag_index) then (s, sm) else (
    record s { pending_tags = s.pending_tags ++ tag ∷ [] },
    record sm {
      tag_index = insert tag p sm.tag_index;
      tag_counter_index = insert tag counter sm.tag_counter_index;
    },
  )

  abbrev pub WindowResult : Type 0
  WindowResult = Option (Outcome SessionError (Unit {0}) × Session C × Manager C)

  -- A round of the loop below, before the next one.
  abbrev pub after_tag :
      ℕ
      → Manager C
      → Outcome SessionError (ℕ × ℕ) × Session C
      → (Session C → Manager C → WindowResult)
      → WindowResult
  after_tag p sm (err e, s) next = some (err e, s, sm)
  after_tag p sm (ok drawn, s) next = let (s', sm') = install_tag p drawn (s, sm) in next s' sm'

  unfoldable pub is_without_ratchet : Option C.Tags → Bool
  is_without_ratchet none = true
  is_without_ratchet (some ratchet) = false

  -- The loop of `generateTagWindow`, which skips a tag that collides. `none` means that the fuel ran
  -- out, which bounds the tags that are drawn.
  unfoldable pub fill_window : ℕ → ℕ → Session C → Manager C → WindowResult
  fill_window zero p s sm = none
  fill_window (suc fuel) p s sm = elim (ltb (length s.pending_tags) tag_window_size) [
    | false ↦ some (ok tt, s, sm)
    | true ↦ after_tag p sm (take_tag s) (fill_window fuel p)
  ]

  unfoldable pub generate_tag_window : ℕ → ℕ → Session C → Manager C → WindowResult
  generate_tag_window fuel p s sm =
      let filled = fill_window fuel p s sm in
      if is_without_ratchet s.recv_tag_ratchet then some (err no_tag_ratchet, s, sm) else filled

  abbrev pub prepend_tag :
      ℕ × ℕ
      → Outcome SessionError (List (ℕ × ℕ)) × Session C
      → Outcome SessionError (List (ℕ × ℕ)) × Session C
  prepend_tag drawn (ok tags, s) = (ok (drawn ∷ tags), s)
  prepend_tag drawn (err e, s) = (err e, s)

  abbrev pub after_draw :
      Outcome SessionError (ℕ × ℕ) × Session C
      → (Session C → Outcome SessionError (List (ℕ × ℕ)) × Session C)
      → Outcome SessionError (List (ℕ × ℕ)) × Session C
  after_draw (err e, s) rest = (err e, s)
  after_draw (ok drawn, s) rest = prepend_tag drawn (rest s)

  -- The loop of `generateTagsOutsideLock`, over the tags that are needed still.
  unfoldable pub draw_tags : ℕ → Session C → Outcome SessionError (List (ℕ × ℕ)) × Session C
  draw_tags zero s = (ok [], s)
  draw_tags (suc needed) s = after_draw (take_tag s) (draw_tags needed)

  unfoldable pub generate_tags_outside_lock :
      Session C → Outcome SessionError (List (ℕ × ℕ)) × Session C
  generate_tags_outside_lock s =
      if is_without_ratchet s.recv_tag_ratchet
      then (err no_tag_ratchet, s)
      else draw_tags (tag_window_size - length s.pending_tags) s

  -- Tags are installed until the window is full.
  unfoldable pub install_generated_tags_locked :
      ℕ → List (ℕ × ℕ) → Session C × Manager C → Session C × Manager C
  install_generated_tags_locked p [] (s, sm) = (s, sm)
  install_generated_tags_locked p (drawn ∷ rest) (s, sm) =
      let more = install_generated_tags_locked p rest (install_tag p drawn (s, sm)) in
      if leb tag_window_size (length s.pending_tags) then (s, sm) else more

  -- What an attempt does with the tags that were drawn; the rest is the next attempt.
  abbrev pub after_generation :
      ℕ
      → Manager C
      → Outcome SessionError (List (ℕ × ℕ)) × Session C
      → (Session C → Manager C → Session C × Manager C)
      → Session C × Manager C
  after_generation p sm (err e, s) next = (s, sm)
  after_generation p sm (ok [], s) next = (s, sm)
  after_generation p sm (ok (drawn ∷ rest), s) next =
      let (s', sm') = install_generated_tags_locked p (drawn ∷ rest) (s, sm) in
      if leb tag_window_size (length s'.pending_tags) then (s', sm') else next s' sm'

  -- The loop of `replenishTagWindowOutsideLock`, over the attempts that are left.
  unfoldable pub replenish_attempts : ℕ → ℕ → Session C → Manager C → Session C × Manager C
  replenish_attempts zero p s sm = (s, sm)
  replenish_attempts (suc attempts) p s sm = elim (leb tag_window_size (length s.pending_tags)) [
    | true ↦ (s, sm)
    | false ↦ after_generation p sm (generate_tags_outside_lock s) (replenish_attempts attempts p)
  ]

  unfoldable pub replenish_tag_window_outside_lock : ℕ → Manager C → Manager C
  replenish_tag_window_outside_lock p sm = elim (lookup p sm.heap) [
    | none ↦ sm
    | some s ↦ let (s', sm') = replenish_attempts 3 p s sm in store C p s' sm'
  ]
