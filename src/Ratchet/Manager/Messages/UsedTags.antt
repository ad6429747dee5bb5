-- ===== src/Ratchet/Manager/Messages/UsedTags.antt =====
-- The tag of a message that was opened leads nowhere any more.
use noise_ssu.Base.{
  ℕ, ◌+◌, ◌≤◌, ◌<◌, ◌≡◌, refl, ◌∙◌, false, Option, none, some, List, [], ◌∷◌, ◌++◌, ltb, ◌==◌,
  arith, length, Outcome, ok, err, inl, inr, Bool-cases, Option-cases,
}
use noise_ssu.Base.Dict.{Dict, lookup, erase, lookup-erase}
use noise_ssu.Wire.Packet.{put_uint64}
use noise_ssu.Ratchet.Payload.{PayloadBlock, NextKeyInfo}
use noise_ssu.Ratchet.Builder.{parse_payload}
use noise_ssu.Ratchet.Session.{Crypto, Session, no_session}
use noise_ssu.Ratchet.Session.Receiving.{decrypt_existing_session}
use noise_ssu.Ratchet.Manager.{
  Manager, store, remove_tags, forget_nsr_tag, forget_session, evict, find_hash,
  remove_session_by_pointer, with_locked_session, process_received_next_key,
  process_incoming_dh_ratchet, remove_tag_from_pending_list,
}
use noise_ssu.Ratchet.Manager.Messages.{
  process_blocks, process_block, process_decrypted_es_blocks, decrypt_garlic_message, update_at,
}
use noise_ssu.Ratchet.Manager.Messages.Delivery.{without_tag, without_index, garlic_opened}

module _ (C : Crypto) (tag : ℕ) where
  -- That no session has the tag.
  abbrev IsGone : Manager C → Type 0
  IsGone sm = lookup tag sm.tag_index ≡ none

  gone-erase : (t : ℕ) (d : Dict ℕ) → lookup tag d ≡ none → lookup tag (erase t d) ≡ none
  gone-erase t d h = lookup-erase t tag d ∙ ground (arith, h)

  IsGone-remove_tags : (ts : List ℕ) (sm : Manager C) → IsGone sm → IsGone (remove_tags C ts sm)
  unfolding remove_tags
  IsGone-remove_tags [] sm h = h
  IsGone-remove_tags (t ∷ ts) sm h = IsGone-remove_tags ts _ (gone-erase t sm.tag_index h)

  IsGone-forget_nsr : (o : Option ℕ) (sm : Manager C) → IsGone sm → IsGone (forget_nsr_tag C o sm)
  unfolding forget_nsr_tag
  IsGone-forget_nsr none sm h = h
  IsGone-forget_nsr (some t) sm h = h

  IsGone-evict : (o : Option ℕ) (hash : ℕ) (sm : Manager C) → IsGone sm → IsGone (evict C o hash sm)
  unfolding evict forget_session
  IsGone-evict none hash sm h = h
  IsGone-evict (some p) hash sm h = elim (Option-cases (lookup p sm.heap)) [
    | inl e ↦ rw (e, evict) h
    | inr (s, e) ↦
        rw (e, evict) (IsGone-forget_nsr s.nsr_tag _ (IsGone-remove_tags s.pending_tags sm h))
  ]

  IsGone-remove_session :
      (p : ℕ) (sm : Manager C) → IsGone sm → IsGone (remove_session_by_pointer C p sm)
  unfolding remove_session_by_pointer
  IsGone-remove_session p sm h = elim (Option-cases (find_hash p sm.sessions)) [
    | inl e ↦ rw (e, remove_session_by_pointer) h
    | inr (hash, e) ↦ rw (e, remove_session_by_pointer) (IsGone-evict (some p) hash sm h)
  ]

  IsGone-update :
      (p : ℕ) (change : Session C → Session C) (sm : Manager C)
      → IsGone sm
      → IsGone (update_at C p change sm)
  unfolding store
  IsGone-update p change sm h = elim (Option-cases (lookup p sm.heap)) [
    | inl e ↦ rw (e, update_at) h
    | inr (s, e) ↦ rw (e, update_at) h
  ]

  IsGone-process_blocks :
      (p : ℕ) (bs : List PayloadBlock) (sm : Manager C)
      → IsGone sm
      → IsGone (process_blocks C p bs sm)
  unfolding process_blocks
  IsGone-process_blocks p [] sm h = h
  IsGone-process_blocks p (b ∷ bs) sm h = elim (Bool-cases (b.block_type == 4)) [
    | inl end ↦ rw end (IsGone-remove_session p sm h)
    | inr more ↦ rw more (IsGone-process_blocks p bs _ (IsGone-update p (process_block C b) sm h))
  ]

  IsGone-process :
      (p : ℕ) (text : List ℕ) (sm : Manager C)
      → IsGone sm
      → IsGone (process_decrypted_es_blocks C p text sm)
  unfolding process_decrypted_es_blocks
  IsGone-process p text sm h = by_result (parse_payload text) refl
    where
      by_result :
          (o : Option (Outcome noise_ssu.Ratchet.Payload.PayloadError (List PayloadBlock)))
          → parse_payload text ≡ o
          → IsGone (process_decrypted_es_blocks C p text sm)
      by_result none e = rw (e, process_decrypted_es_blocks) h
      by_result (some (err x)) e = rw (e, process_decrypted_es_blocks) h
      by_result (some (ok bs)) e =
          rw (e, process_decrypted_es_blocks) (IsGone-process_blocks p bs sm h)

  -- Where a tag leads to a session that has not expired, that opens the message and has twelve other
  -- tags or more: the message is delivered, and then `ProcessReceivedNextKey` and
  -- `ProcessIncomingDHRatchet` with the tag that `DecryptGarlicMessage` gives back find no session, so
  -- no NextKey block is processed.
  pub next_key_unreachable :
      (now p c : ℕ) (body text : List ℕ) (s t : Session C) (sm : Manager C) (info : NextKeyInfo)
      → tag < 0x1_0000_0000_0000_0000
      → lookup tag sm.tag_index ≡ some p
      → lookup tag sm.tag_counter_index ≡ some c
      → lookup p sm.heap ≡ some s
      → now ≤ s.last_used + sm.session_timeout
      → decrypt_existing_session C body tag (some c) now (without_tag C tag s) ≡ (ok text, t)
      → 12 ≤ length (remove_tag_from_pending_list tag s.pending_tags)
      → let (r, sm') = decrypt_garlic_message C (put_uint64 tag ++ body) now sm in
        (r ≡ some (ok text))
        × ((process_received_next_key C tag info sm').0 ≡ err no_session)
        × ((process_incoming_dh_ratchet C tag info.public_key sm').0 ≡ err no_session)
  unfolding process_received_next_key process_incoming_dh_ratchet with_locked_session store
  next_key_unreachable now p c body text s t sm info fits indexed counted stored live e many =
      let opened =
        garlic_opened C tag now p c body text s t sm fits indexed counted stored live e in
      let enough : ltb (length (remove_tag_from_pending_list tag s.pending_tags)) 12 ≡ false =
        ground (arith, many) in
      let erased : lookup tag (erase tag sm.tag_index) ≡ none =
        lookup-erase tag tag sm.tag_index ∙ ground arith in
      let gone =
        IsGone-process p text
          (store C p t (store C p (without_tag C tag s) (without_index C tag sm))) erased in
      rw opened (
        refl,
        rw enough (rw (gone, with_locked_session) refl),
        rw enough (rw (gone, with_locked_session) refl),
      )
