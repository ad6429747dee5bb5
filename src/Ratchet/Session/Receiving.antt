-- ===== src/Ratchet/Session/Receiving.antt =====
-- ratchet/recv_window.go, session_decrypt.go: the keys of the receive window, and the message that one
-- of them opens.
pub mod Window
pub mod Spending
pub mod Delivery
pub mod Replays
use noise_ssu.Base.{
  ℕ, zero, suc, ◌+◌, ◌-◌, Bool, true, false, not, ◌&&◌, ◌||◌, Option, none, some, List, [], ◌∷◌,
  ltb, leb, if◌then◌else◌, length, take, drop, Outcome, ok, err,
}
use noise_ssu.Base.Dict.{lookup, insert, erase, contains, retain}
use noise_ssu.Base.U32.{add32}
use noise_ssu.Base.Stateful.{◌>>=◌, ◌>>◌, continue, pure, fail, get, modify}
use noise_ssu.Ratchet.Session.{
  Crypto, Session, SessionError, Method, or_fail, recv_window_size, no_recv_ratchet,
  symmetric_failed, message_too_short, no_counter_matches,
}

unfoldable pub parse_existing_session_message : List ℕ → Outcome SessionError (List ℕ × List ℕ)
parse_existing_session_message msg =
    if ltb (length msg) 16
    then err message_too_short
    else ok (take (length msg - 16) msg, drop (length msg - 16) msg)

module _ (C : Crypto) where
  open C use {Sym, derive_message_key, unseal}

  -- One round of the loop: the ratchet of the session is the one that is advanced.
  unfoldable pub derive_next : Sym → Session C → Outcome SessionError Sym × Session C
  derive_next ratchet s = elim (derive_message_key ratchet s.recv_fill_mark) [
    | none ↦ (err symmetric_failed, s)
    | some (key, ratchet') ↦ (
      ok ratchet',
      record s {
        recv_symmetric_ratchet = some ratchet';
        recv_key_cache = insert s.recv_fill_mark key s.recv_key_cache;
        recv_fill_mark = add32 s.recv_fill_mark 1;
      },
    )
  ]

  -- The rounds left are those from the fill mark to the end.
  unfoldable pub fill_rounds : ℕ → Sym → Method C (Unit {0})
  fill_rounds zero ratchet s = pure tt s
  fill_rounds (suc rounds) ratchet s = continue (derive_next ratchet s) (λ r. fill_rounds rounds r)

  unfoldable pub fill_with : ℕ → Option Sym → Method C (Unit {0})
  fill_with up_to none s = fail no_recv_ratchet s
  fill_with up_to (some ratchet) s = fill_rounds (up_to - s.recv_fill_mark) ratchet s

  unfoldable pub fill_recv_key_cache : ℕ → Method C (Unit {0})
  fill_recv_key_cache up_to s = fill_with up_to s.recv_symmetric_ratchet s

  unfoldable pub reset_recv_window : Session C → Session C
  reset_recv_window s = record s {
    recv_window_base = 1;
    recv_fill_mark = 1;
    next_recv_tag_counter = 1;
    recv_key_cache = [];
  }

  unfoldable pub trim_recv_window_by_pn : ℕ → Session C → Session C
  trim_recv_window_by_pn pn s = record s {
    recv_key_cache =
        retain (λ counter key. not (ltb pn counter && ltb counter s.recv_window_base))
          s.recv_key_cache;
  }

  -- A counter whose key is in the cache and opens the message.
  unfoldable pub try_counter : Session C → ℕ → List ℕ → List ℕ → ℕ → Option (List ℕ × ℕ)
  try_counter s session_tag ciphertext tag counter = elim (lookup counter s.recv_key_cache) [
    | none ↦ none
    | some key ↦ elim (unseal key counter session_tag ciphertext tag) [
      | none ↦ none
      | some plaintext ↦ some (plaintext, counter)
    ]
  ]

  unfoldable pub try_counter_hint_decrypt :
      Session C → Option ℕ → List ℕ → List ℕ → ℕ → ℕ → Option (List ℕ × ℕ)
  try_counter_hint_decrypt s none ciphertext tag session_tag window_end = none
  try_counter_hint_decrypt s (some c) ciphertext tag session_tag window_end =
      if ltb c s.recv_window_base || leb window_end c
      then none
      else try_counter s session_tag ciphertext tag c

  abbrev pub or_else : {A : Type 0} → Option A → Option A → Option A
  or_else none second = second
  or_else (some a) second = some a

  -- The loop over the counters of the window; the rounds left are those to its end.
  unfoldable pub scan_from : ℕ → ℕ → Session C → List ℕ → List ℕ → ℕ → Option (List ℕ × ℕ)
  scan_from zero counter s ciphertext tag session_tag = none
  scan_from (suc rounds) counter s ciphertext tag session_tag =
      or_else (try_counter s session_tag ciphertext tag counter)
        (scan_from rounds (counter + 1) s ciphertext tag session_tag)

  unfoldable pub scan_window_decrypt : Session C → List ℕ → List ℕ → ℕ → ℕ → Option (List ℕ × ℕ)
  scan_window_decrypt s ciphertext tag session_tag window_end =
      scan_from (window_end - s.recv_window_base) s.recv_window_base s ciphertext tag session_tag

  -- The loop that moves the base past the keys that are spent; the rounds left are those to the mark.
  unfoldable pub advance_base : ℕ → Session C → Session C
  advance_base zero s = s
  advance_base (suc rounds) s =
      let later = advance_base rounds record s { recv_window_base = add32 s.recv_window_base 1 } in
      if contains s.recv_window_base s.recv_key_cache then s else later

  -- `windowEnd`, and the larger one where it wraps.
  unfoldable pub window_end_of : Session C → ℕ
  window_end_of s =
      let window_end = add32 s.recv_window_base recv_window_size in
      if ltb window_end s.recv_window_base
      then add32 s.recv_fill_mark recv_window_size
      else window_end

  -- What is done once a counter has opened the message.
  unfoldable pub spend : ℕ → ℕ → Session C → Session C
  spend now counter s =
      let spent = record s { recv_key_cache = erase counter s.recv_key_cache } in
      let moved = advance_base (spent.recv_fill_mark - spent.recv_window_base) spent in
      record moved {
        awaiting_first_es =
            if not moved.is_initiator && moved.awaiting_first_es
            then false
            else moved.awaiting_first_es;
        last_used = now;
      }

  unfoldable pub opened_by : ℕ → Option (List ℕ × ℕ) → Method C (List ℕ)
  opened_by now none s = fail no_counter_matches s
  opened_by now (some (plaintext, counter)) s = (ok plaintext, spend now counter s)

  unfoldable pub decrypt_parsed : List ℕ → List ℕ → ℕ → Option ℕ → ℕ → Method C (List ℕ)
  decrypt_parsed ciphertext tag session_tag counter_hint now = do
    s ← get
    let window_end = window_end_of s
    fill_recv_key_cache window_end
    t ← get
    opened_by now (
        or_else (try_counter_hint_decrypt t counter_hint ciphertext tag session_tag window_end)
          (scan_window_decrypt t ciphertext tag session_tag window_end))

  abbrev pub with_parsed :
      Outcome SessionError (List ℕ × List ℕ) → ℕ → Option ℕ → ℕ → Method C (List ℕ)
  with_parsed (err e) session_tag counter_hint now = fail e
  with_parsed (ok (ciphertext, tag)) session_tag counter_hint now =
      decrypt_parsed ciphertext tag session_tag counter_hint now

  unfoldable pub decrypt_existing_session : List ℕ → ℕ → Option ℕ → ℕ → Method C (List ℕ)
  decrypt_existing_session msg session_tag counter_hint now =
      with_parsed (parse_existing_session_message msg) session_tag counter_hint now
