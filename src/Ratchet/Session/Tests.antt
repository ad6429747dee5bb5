-- ===== src/Ratchet/Session/Tests.antt =====
-- The theorems on sessions at concrete inputs, over a cipher that marks a text with its key.
use noise_ssu.Base.{
  ℕ, suc, ◌+◌, ◌≡◌, refl, true, false, Option, none, some, List, [], ◌∷◌, ◌++◌, arith, ok, err,
  ◌==◌, if◌then◌else◌, ne→==,
}
use noise_ssu.Base.Dict.{lookup}
use noise_ssu.Ratchet.Payload.{new_next_key_block}
use noise_ssu.Ratchet.Builder.RoundTrip.{encodings}
use noise_ssu.Ratchet.Session.{Crypto, Session, no_counter_matches}
use noise_ssu.Ratchet.Session.Sending.{encrypt_existing_session, build_existing_session_message}
use noise_ssu.Ratchet.Session.Sending.Messages.{after_message}
use noise_ssu.Ratchet.Session.Sending.Rotation.{rotation_seals_announcement, announcement}
use noise_ssu.Ratchet.Session.Link.{decrypt-encrypt, IsAead}
use noise_ssu.Ratchet.Session.Receiving.{decrypt_existing_session, trim_recv_window_by_pn}
use noise_ssu.Ratchet.Session.Receiving.Window.{IsChain, IsSynced, is_in}
use noise_ssu.Ratchet.Session.Receiving.Delivery.{Sealed, receive_all, receive_all_lem}
use noise_ssu.Ratchet.Session.Receiving.Replays.{IsAuthentic, replayed_message_refused, trim_idle}
use noise_ssu.Ratchet.Manager.Messages.Start.{started-IsSynced}

abbrev pub stamp : ℕ → List ℕ
stamp k = k ∷ 0 ∷ 0 ∷ 0 ∷ 0 ∷ 0 ∷ 0 ∷ 0 ∷ 0 ∷ 0 ∷ 0 ∷ 0 ∷ 0 ∷ 0 ∷ 0 ∷ 0 ∷ []

abbrev open_with : ℕ → List ℕ → List ℕ → Option (List ℕ)
open_with k text [] = none
open_with k text (x ∷ xs) = if x == k then some text else none

abbrev pub toy : Crypto
toy = record {
  Sym = ℕ;
  Tags = ℕ;
  Dh = ℕ;
  Handshake = ℕ;
  new_sym = λ k. k;
  derive_message_key = λ s n. some (s + 1000, suc s);
  new_tags = λ k. k;
  next_tag = λ t. some (t, suc t);
  new_dh = λ r k peer. r;
  update_keys = λ d peer. some d;
  generate_key_pair = λ d. some (9 ∷ [], suc d);
  perform_ratchet = λ d. some (300, 400, d);
  derive_step_keys = λ k. some (1, 1);
  derive_tag_keys = λ k. some (k, k);
  seal = λ k n t text. some (text, stamp k);
  unseal = λ k n t text auth. open_with k text auth;
}

abbrev pub chain : ℕ → ℕ
chain n = n

abbrev pub key : ℕ → ℕ
key n = n + 1000

pub derives : IsChain toy chain key
derives n = refl

-- A session after the first keys were derived from a handshake.
abbrev pub fresh : Session toy
fresh = record {
  remote_public_key = 3 ∷ [];
  dh_ratchet = 1;
  symmetric_ratchet = 1;
  tag_ratchet = 1;
  recv_symmetric_ratchet = some 1;
  recv_tag_ratchet = some 1;
  last_used = 100;
  message_counter = 1;
  recv_window_base = 1;
  recv_fill_mark = 1;
  recv_key_cache = [];
  pending_tags = [];
  dh_ratchet_counter = 0;
  consecutive_dh_failures = 0;
  new_ephemeral_pub = none;
  handshake_state = none;
  is_initiator = true;
  nsr_tag = none;
  send_key_id = 0;
  recv_key_id = 0;
  pending_next_keys = [];
  awaiting_reverse_key = false;
  next_recv_tag_counter = 1;
  pending_acks = [];
  last_acked_entries = [];
  awaiting_first_es = false;
}

abbrev pub message : ℕ → Sealed
message c = record {
  counter = c;
  tag = c;
  ciphertext = 7 ∷ [];
  auth = stamp (c + 1000);
  plaintext = 7 ∷ [];
}

fresh-IsSynced : IsSynced toy chain key [] fresh
fresh-IsSynced = started-IsSynced toy chain key chain chain fresh refl refl refl refl

-- The last message of the window comes first.
receive_all_lem_example :
    receive_all toy chain key derives 200 (message 128 ∷ message 1 ∷ message 2 ∷ []) fresh
    ≡ ok (7 ∷ []) ∷ ok (7 ∷ []) ∷ ok (7 ∷ []) ∷ []
unfolding is_in
receive_all_lem_example =
    receive_all_lem toy chain key derives (message 128 ∷ message 1 ∷ message 2 ∷ []) 200 [] fresh
      (
        (refl, refl, omega arith, omega arith),
        ((refl, refl, omega arith, omega arith), ((refl, refl, omega arith, omega arith), tt)),
      )
      fresh-IsSynced (refl, (refl, (refl, tt))) (omega arith)

message-IsAuthentic : IsAuthentic toy chain key derives (message 1)
message-IsAuthentic d other =
    let differs : (1001 == d + 1000) ≡ false = ne→== _ _ (λ e. other (omega (arith, e))) in
    rw differs refl

abbrev once : Session toy
once = record fresh { recv_symmetric_ratchet = some 2; recv_window_base = 2; recv_fill_mark = 2 }

once-IsSynced : IsSynced toy chain key (1 ∷ []) once
unfolding is_in lookup
once-IsSynced = record {
  ratchet = refl;
  cache = λ c. ground arith;
  passed = λ c low high. ground arith;
  known = λ c h. (ground (arith, h), ground (arith, h));
  positive = omega arith;
  ordered = omega arith;
  bounded = omega arith;
}

replayed_message_refused_example :
    (t : Session toy) × (decrypt_existing_session toy (7 ∷ stamp 1001) 1 (some 1) 200 once
      ≡ (err no_counter_matches, t))
    × IsSynced toy chain key (1 ∷ []) t
    × (t.recv_window_base ≡ 2)
unfolding is_in
replayed_message_refused_example =
    replayed_message_refused toy chain key derives (message 1) (some 1) 200 (1 ∷ []) once
      message-IsAuthentic refl once-IsSynced refl (omega arith)

trim_idle_example :
    lookup 1 (trim_recv_window_by_pn toy 0 once).recv_key_cache ≡ lookup 1 once.recv_key_cache
trim_idle_example = trim_idle toy chain key derives 0 1 (1 ∷ []) once once-IsSynced

toy-IsAead : IsAead toy
toy-IsAead k n tag text = (text, stamp k, refl, ground arith, refl)

decrypt-encrypt_example :
    (ciphertext : List ℕ) × (auth : List ℕ) × (b' : Session toy) × (encrypt_existing_session toy
        (7 ∷ [])
        200
        fresh
      ≡ (ok (build_existing_session_message 1 ciphertext auth), after_message toy fresh 2 2 200))
    × (decrypt_existing_session toy (ciphertext ++ auth) 1 (some 1) 300 fresh
        ≡ (ok (encodings [] ++ 7 ∷ []), b'))
    × IsSynced toy chain key (1 ∷ []) b'
unfolding is_in
decrypt-encrypt_example =
    decrypt-encrypt toy chain key derives (7 ∷ []) [] 200 300 1 2 fresh fresh toy-IsAead
      (refl, refl, omega arith) tt (omega arith) (omega arith) refl refl fresh-IsSynced refl
      (omega arith) (omega arith)

-- A session whose next message rotates its ratchet.
abbrev due : Session toy
due = record fresh { dh_ratchet_counter = 49; message_counter = 50 }

rotation_seals_announcement_example :
    (encrypt_existing_session toy (7 ∷ []) 200 due).0
    ≡ ok (
        build_existing_session_message 300
          (encodings (announcement toy due (9 ∷ []) ∷ []) ++ 7 ∷ [])
          (stamp 1300))
unfolding new_next_key_block
rotation_seals_announcement_example =
    rotation_seals_announcement toy due
      (record {
        pub_key = 9 ∷ [];
        sending = 300;
        receiving = 400;
        tag_key = 300;
        sym_key = 300;
        dh = 2;
        dh' = 2;
        due = omega arith;
        counts = omega arith;
        low = omega arith;
        made = refl;
        performed = refl;
        derived = refl;
      })
      (7 ∷ []) 200 1300 300 301 301 (encodings (announcement toy due (9 ∷ []) ∷ []) ++ 7 ∷ [])
      (stamp 1300) (refl, refl, omega arith) (omega arith, tt) refl refl refl
