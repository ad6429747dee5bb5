-- ===== src/Ratchet/Manager/Eviction/Settled.antt =====
-- What is no session stays as it is where a session is stored.
use noise_ssu.Base.{
  ℕ, ◌≡◌, refl, ◌∙◌, false, Option, none, some, List, Outcome, inl, inr, Outcome-cases,
}
use noise_ssu.Ratchet.Session.{Crypto, Session, SessionError, SessionKeys, create_session}
use noise_ssu.Ratchet.Manager.{Manager, store}
use noise_ssu.Ratchet.Manager.Tags.{generate_tag_window, WindowResult}
use noise_ssu.Ratchet.Manager.Eviction.{
  make_room, put_session, stored, initialize_inbound_ratchet_state,
}
use noise_ssu.Ratchet.Manager.Eviction.Settings.{settings, settings-make_room}
use noise_ssu.Ratchet.Manager.Eviction.Bounds.{IsSame, IsSame-window}

module _ (C : Crypto) where
  -- Storing a session leaves the settings as they are.
  abbrev pub IsSettled : Manager C → Option (Outcome SessionError (Unit {0}) × Manager C) → Type 0
  IsSettled sm none = Unit {0}
  IsSettled sm (some (r, sm')) = settings C sm' ≡ settings C sm

  stored-IsSettled :
      (p : ℕ) (sm placed : Manager C) (o : WindowResult C)
      → settings C placed ≡ settings C sm
      → IsSame C placed o
      → IsSettled sm (stored C p o)
  unfolding store
  stored-IsSettled p sm placed none h same = tt
  stored-IsSettled p sm placed (some (r, s, sm')) h (_, _, t) = t ∙ h

  window-IsSettled :
      (fuel hash : ℕ) (peer : List ℕ) (s : Session C) (sm : Manager C)
      → let (p, placed) = put_session C hash s (make_room C peer sm) in
        IsSettled sm (stored C p (generate_tag_window C fuel p s placed))
  unfolding put_session store
  window-IsSettled fuel hash peer s sm =
      let (p, placed) = put_session C hash s (make_room C peer sm) in
      stored-IsSettled p sm placed (generate_tag_window C fuel p s placed)
        (settings-make_room C peer sm) (IsSame-window C fuel p s placed)

  pub inbound-IsSettled :
      (fuel now hash : ℕ) (peer : List ℕ) (keys : SessionKeys) (hs : C.Handshake) (sm : Manager C)
      → IsSettled sm (initialize_inbound_ratchet_state C fuel now hash peer keys hs sm)
  unfolding initialize_inbound_ratchet_state
  inbound-IsSettled fuel now hash peer keys hs sm =
      elim (Outcome-cases (create_session C peer keys sm.our_private_key false now)) [
        | inl (s, e) ↦
            rw (e, initialize_inbound_ratchet_state) (window-IsSettled fuel hash peer _ sm)
        | inr (x, e) ↦ rw (e, initialize_inbound_ratchet_state) refl
      ]
