-- ===== src/Ratchet/Session.antt =====
-- ratchet/session.go and helpers.go: the state of a session, and how it starts. What
-- github.com/go-i2p/crypto computes is the parameter `Crypto`.
pub mod Ratchets
pub mod NextKeys
pub mod Sending
pub mod Receiving
pub mod Link
pub mod Tests
use noise_ssu.Base.{
  ℕ, ◌+◌, Bool, true, false, Option, none, some, List, [], ◌∷◌, ◌++◌, leb, ltb, if◌then◌else◌,
  Outcome, ok, err,
}
use noise_ssu.Base.Dict.{Dict}
use noise_ssu.Base.U32.{add32}
use noise_ssu.Base.Stateful.{Stateful, ◌>>=◌, ◌>>◌, continue, pure, fail, get, modify}
use noise_ssu.Ratchet.Payload.{PayloadBlock, AckEntry, NextKeyInfo, new_next_key_block}

-- The ratchets, the key derivation and the AEAD. A key of 32 bytes that is secret, and a tag of eight
-- bytes, is the number that its bytes spell. `none` is an error, on which a ratchet stays as it is.
-- `derive_step_keys` and `derive_tag_keys` are `DeriveKeys` with one info string and the other.
pub record Crypto : Type 1 where
  pub Sym : Type 0
  pub Tags : Type 0
  pub Dh : Type 0
  pub Handshake : Type 0
  pub new_sym : ℕ → Sym
  pub derive_message_key : Sym → ℕ → Option (ℕ × Sym)
  pub new_tags : ℕ → Tags
  pub next_tag : Tags → Option (ℕ × Tags)
  pub new_dh : ℕ → ℕ → List ℕ → Dh
  pub update_keys : Dh → List ℕ → Option Dh
  pub generate_key_pair : Dh → Option (List ℕ × Dh)
  pub perform_ratchet : Dh → Option (ℕ × ℕ × Dh)
  pub derive_step_keys : ℕ → Option (ℕ × ℕ)
  pub derive_tag_keys : ℕ → Option (ℕ × ℕ)
  pub seal : ℕ → ℕ → ℕ → List ℕ → Option (List ℕ × List ℕ)
  pub unseal : ℕ → ℕ → ℕ → List ℕ → List ℕ → Option (List ℕ)

pub data SessionError : Type 0 where
  directional_keys_failed message_number_exceeded dh_failed_too_often key_id_exceeded : SessionError
  key_pair_failed dh_ratchet_failed derivation_failed symmetric_failed tag_failed : SessionError
  update_failed awaiting_reply awaiting_first_message control_block_failed seal_failed :
      SessionError
  no_recv_ratchet message_too_short no_counter_matches no_tag_ratchet no_session : SessionError
  plaintext_empty payload_rejected handshake_failed too_old in_the_future replayed : SessionError

abbrev pub dh_ratchet_interval : ℕ
dh_ratchet_interval = 50

abbrev pub max_consecutive_dh_failures : ℕ
max_consecutive_dh_failures = 3

abbrev pub tag_window_size : ℕ
tag_window_size = 24

abbrev pub max_message_number : ℕ
max_message_number = 65535

abbrev pub recv_window_size : ℕ
recv_window_size = 128

abbrev pub max_key_id : ℕ
max_key_id = 32767

-- `Session`, with the pointers that the code tests for nil as options.
pub record Session (C : Crypto) : Type 0 where
  pub remote_public_key : List ℕ
  pub dh_ratchet : C.Dh
  pub symmetric_ratchet : C.Sym
  pub tag_ratchet : C.Tags
  pub recv_symmetric_ratchet : Option C.Sym
  pub recv_tag_ratchet : Option C.Tags
  pub last_used : ℕ
  pub message_counter : ℕ
  pub recv_window_base : ℕ
  pub recv_fill_mark : ℕ
  pub recv_key_cache : Dict ℕ
  pub pending_tags : List ℕ
  pub dh_ratchet_counter : ℕ
  pub consecutive_dh_failures : ℕ
  pub new_ephemeral_pub : Option (List ℕ)
  pub handshake_state : Option C.Handshake
  pub is_initiator : Bool
  pub nsr_tag : Option ℕ
  pub send_key_id : ℕ
  pub recv_key_id : ℕ
  pub pending_next_keys : List PayloadBlock
  pub awaiting_reverse_key : Bool
  pub next_recv_tag_counter : ℕ
  pub pending_acks : List PayloadBlock
  pub last_acked_entries : List AckEntry
  pub awaiting_first_es : Bool

pub record SessionKeys : Type 0 where
  pub root_key : ℕ
  pub sym_key : ℕ
  pub tag_key : ℕ

module _ (C : Crypto) where
  open C use {
    Sym, Tags, Dh, new_sym, derive_message_key, new_tags, next_tag, new_dh, update_keys,
    generate_key_pair, perform_ratchet, derive_step_keys, derive_tag_keys,
  }

  -- A method of a session.
  abbrev pub Method : Type 0 → Type 0
  Method A = Stateful (Session C) SessionError A

  -- The result of a call that fails with a given error.
  abbrev pub or_fail : {A : Type 0} → SessionError → Option A → Method A
  or_fail e none = fail e
  or_fail e (some a) = pure a

  abbrev pub by_role : Bool → ℕ × ℕ → ℕ × ℕ
  by_role true (ab, ba) = (ab, ba)
  by_role false (ab, ba) = (ba, ab)

  unfoldable pub derive_directional_keys : ℕ → Bool → Outcome SessionError (ℕ × ℕ)
  derive_directional_keys base_key is_initiator = elim (derive_step_keys base_key) [
    | none ↦ err directional_keys_failed
    | some keys ↦ ok (by_role is_initiator keys)
  ]

  unfoldable pub new_session : List ℕ → SessionKeys → ℕ → ℕ → ℕ × ℕ → ℕ × ℕ → Session C
  new_session remote_pub_key keys our_private_key now (send_root, recv_root) (send_tag, recv_tag) =
      record {
        remote_public_key = remote_pub_key;
        dh_ratchet = new_dh keys.root_key our_private_key remote_pub_key;
        symmetric_ratchet = new_sym send_root;
        tag_ratchet = new_tags send_tag;
        recv_symmetric_ratchet = some (new_sym recv_root);
        recv_tag_ratchet = some (new_tags recv_tag);
        last_used = now;
        message_counter = 1;
        recv_window_base = 1;
        recv_fill_mark = 1;
        recv_key_cache = [];
        pending_tags = [];
        dh_ratchet_counter = 0;
        consecutive_dh_failures = 0;
        new_ephemeral_pub = none;
        handshake_state = none;
        is_initiator = false;
        nsr_tag = none;
        send_key_id = 0;
        recv_key_id = 0;
        pending_next_keys = [];
        awaiting_reverse_key = false;
        next_recv_tag_counter = 1;
        pending_acks = [];
        last_acked_entries = [];
        awaiting_first_es = false;
      }

  abbrev and_then :
      {A B : Type 0}
      → Outcome SessionError A
      → (A → Outcome SessionError B)
      → Outcome SessionError B
  and_then (ok a) next = next a
  and_then (err e) next = err e

  unfoldable pub create_session :
      List ℕ → SessionKeys → ℕ → Bool → ℕ → Outcome SessionError (Session C)
  create_session remote_pub_key keys our_private_key is_initiator now =
      and_then (derive_directional_keys keys.root_key is_initiator) (λ roots.
        and_then (derive_directional_keys keys.tag_key is_initiator)
          (λ tags. ok (new_session remote_pub_key keys our_private_key now roots tags)))
