-- ===== src/Ratchet/Manager/Eviction/Runs.antt =====
-- Calls of a manager in any order: the number of its sessions stays bounded.
use noise_ssu.Base.{
  ℕ, ◌≡◌, subst, Option, none, some, List, [], ◌∷◌, arith, Outcome, inl, inr, Bool-cases,
}
use noise_ssu.Base.Dict.{Dict, lookup}
use noise_ssu.Ratchet.Session.{Crypto, Session, SessionError, SessionKeys}
use noise_ssu.Ratchet.Manager.{Manager, is_session_valid, close}
use noise_ssu.Ratchet.Manager.Eviction.{
  initialize_inbound_ratchet_state, store_new_session_state, cleanup_entry, cleanup_entries,
  cleanup_expired_sessions,
}
use noise_ssu.Ratchet.Manager.Eviction.Bounds.{
  IsBounded, IsBoundedResult, forget-IsBounded, inbound-IsBounded, outbound-IsBounded,
}

module _ (C : Crypto) where
  -- The calls that store or remove sessions, with the time at which they are made.
  pub data Call : Type 0 where
    inbound : ℕ → ℕ → ℕ → List ℕ → SessionKeys → C.Handshake → Call
    outbound : ℕ → ℕ → ℕ → List ℕ → SessionKeys → C.Handshake → Option ℕ → Call
    cleanup : ℕ → Call
    closing : Call

  abbrev pub state_of : {A : Type 0} → Option (A × Manager C) → Option (Manager C)
  state_of none = none
  state_of (some (r, sm)) = some sm

  -- `none` where the tags of a session collide for longer than its fuel.
  abbrev pub step : Call → Manager C → Option (Manager C)
  step (inbound fuel now hash peer keys hs) sm =
      state_of (initialize_inbound_ratchet_state C fuel now hash peer keys hs sm)
  step (outbound fuel now hash peer keys hs tag) sm =
      state_of (store_new_session_state C fuel now hash peer keys hs tag sm)
  step (cleanup now) sm = some (cleanup_expired_sessions C now sm).1
  step closing sm = some (close C sm)

  abbrev run_from : Option (Manager C) → (Manager C → Option (Manager C)) → Option (Manager C)
  run_from none rest = none
  run_from (some sm) rest = rest sm

  abbrev pub run : List Call → Manager C → Option (Manager C)
  run [] sm = some sm
  run (c ∷ cs) sm = run_from (step c sm) (run cs)

  cleanup_entry-IsBounded :
      (now hash n : ℕ) (o : Option (Session C)) (sm : Manager C)
      → IsBounded C n sm
      → IsBounded C n (cleanup_entry C now hash o sm).1
  unfolding cleanup_entry
  cleanup_entry-IsBounded now hash n none sm v = v
  cleanup_entry-IsBounded now hash n (some s) sm v =
      elim (Bool-cases (is_session_valid C now sm.session_timeout s)) [
        | inl live ↦ rw live v
        | inr expired ↦ rw expired (forget-IsBounded C hash n s sm v)
      ]

  cleanup_entries-IsBounded :
      (now n : ℕ) (d : Dict ℕ) (sm : Manager C)
      → IsBounded C n sm
      → IsBounded C n (cleanup_entries C now d sm).1
  unfolding cleanup_entries
  cleanup_entries-IsBounded now n [] sm v = v
  cleanup_entries-IsBounded now n ((hash, p) ∷ d) sm v =
      cleanup_entries-IsBounded now n d (cleanup_entry C now hash (lookup p sm.heap) sm).1
        (cleanup_entry-IsBounded now hash n (lookup p sm.heap) sm v)

  abbrev IsBoundedState : Option (Manager C) → Type 0
  IsBoundedState none = Unit {0}
  IsBoundedState (some sm) = IsBounded C 5000 sm

  state-IsBounded :
      (o : Option (Outcome SessionError (Unit {0}) × Manager C))
      → IsBoundedResult C o
      → IsBoundedState (state_of o)
  state-IsBounded none v = tt
  state-IsBounded (some (r, sm)) v = v

  step-IsBounded : (c : Call) (sm : Manager C) → IsBounded C 5000 sm → IsBoundedState (step c sm)
  unfolding cleanup_expired_sessions close
  step-IsBounded (inbound fuel now hash peer keys hs) sm v =
      state-IsBounded _ (inbound-IsBounded C fuel now hash peer keys hs sm v)
  step-IsBounded (outbound fuel now hash peer keys hs tag) sm v =
      state-IsBounded _ (outbound-IsBounded C fuel now hash peer keys hs tag sm v)
  step-IsBounded (cleanup now) sm v = cleanup_entries-IsBounded now 5000 sm.sessions sm v
  step-IsBounded closing sm v = (omega arith, tt)

  run_from-IsBounded :
      (o : Option (Manager C)) (rest : Manager C → Option (Manager C)) {sm' : Manager C}
      → IsBoundedState o
      → run_from o rest ≡ some sm'
      → (sm : Manager C) × IsBounded C 5000 sm × (rest sm ≡ some sm')
  run_from-IsBounded none rest v e = cc
  run_from-IsBounded (some sm) rest v e = (sm, v, e)

  -- After any calls that store sessions, expire them or close the manager, from a manager that holds
  -- 5000 at most, there are 5000 at most, each with its session on the heap.
  pub run-IsBounded :
      (cs : List Call) (sm : Manager C) {sm' : Manager C}
      → IsBounded C 5000 sm
      → run cs sm ≡ some sm'
      → IsBounded C 5000 sm'
  run-IsBounded [] sm {sm'} v e = let same : sm ≡ sm' = cc in subst (IsBounded C 5000) same v
  run-IsBounded (c ∷ cs) sm v e =
      let (next, w, later) = run_from-IsBounded (step c sm) (run cs) (step-IsBounded c sm v) e in
      run-IsBounded cs next w later
