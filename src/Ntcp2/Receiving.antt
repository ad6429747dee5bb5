-- ===== src/Ntcp2/Receiving.antt =====
-- What a `Read` takes from what is on its way.
use noise_ssu.Base.{
  joined, ℕ, ◌≤◌, ◌<◌, ◌≡◌, refl, sym, ap, subst, ◌∙◌, Option, none, List, [], ◌∷◌, ◌++◌,
  append_assoc, arith, length, take, drop, take-append-drop, ok, lt→ltb, length-take,
}
use noise_ssu.Handshake.{ModifierChain}
use noise_ssu.Handshake.SipHash.{Hash, next_mask}
use noise_ssu.Ntcp2.{NoiseConn, Conn, max_nonce}
use noise_ssu.Ntcp2.Reading.{read_framed, read}
use noise_ssu.Ntcp2.Link.{unread, IsFrame, IsLinked, Carries}
use noise_ssu.Ntcp2.Reading.Frame.{after_frame, read_framed_lem}

module _ {N : Type 0} (ops : NoiseConn N) (hash : Hash) (keys : ℕ × ℕ)
    (chain : Option ModifierChain) (Agree : N → N → Type 0) where
  -- What a `Read` has done: it took the front of what was unread.
  pub record HasRead (size : ℕ) (chunks : List (List ℕ)) (writer reader reader' : Conn N)
      (out : List ℕ) : Type 0 where
    pub left : List (List ℕ)
    pub in_order : out ++ unread reader' left ≡ unread reader chunks
    pub bounded : length out ≤ size
    pub moves : 0 < size → 0 < length out
    pub linked : IsLinked ops hash keys chain Agree writer reader' left

  read_buffered :
      (junk size : ℕ) (chunks : List (List ℕ)) (writer reader : Conn N)
      → 0 < length reader.read_buffer
      → IsLinked ops hash keys chain Agree writer reader chunks
      → (out : List ℕ) × (reader' : Conn N) × (read ops hash junk size reader
          ≡ (out, none, reader'))
        × HasRead size chunks writer reader reader' out
  unfolding read
  read_buffered junk size chunks writer reader some_left link =
      let buffer = reader.read_buffer in
      let many = length-take size buffer in
      (
        take size buffer,
        record reader { read_buffer = drop size buffer },
        simp (read, link.reader_open, link.reader_obfuscates, lt→ltb 0 (length buffer) some_left),
        record {
          left = chunks;
          in_order =
              sym (append_assoc (take size buffer) (drop size buffer) (joined chunks))
              ∙ ap (λ bs. bs ++ joined chunks) (take-append-drop size buffer);
          bounded = omega (arith, many);
          moves = λ h. omega (arith, many, some_left);
          linked = record {
            writer_open = link.writer_open;
            reader_open = link.reader_open;
            reader_connected = link.reader_connected;
            writer_chain = link.writer_chain;
            reader_chain = link.reader_chain;
            writer_modifier = link.writer_modifier;
            reader_modifier = link.reader_modifier;
            writer_obfuscates = link.writer_obfuscates;
            reader_obfuscates = link.reader_obfuscates;
            writer_keys = link.writer_keys;
            reader_keys = link.reader_keys;
            last_noise = link.last_noise;
            carried = link.carried;
            agreed = link.agreed;
            counted = link.counted;
            within = link.within;
            roomy = link.roomy;
          };
        },
      )

  read_next_frame :
      (junk size : ℕ) (chunk : List ℕ) (chunks : List (List ℕ)) (writer reader : Conn N)
      → reader.read_buffer ≡ []
      → IsLinked ops hash keys chain Agree writer reader (chunk ∷ chunks)
      → (out : List ℕ) × (reader' : Conn N) × (read ops hash junk size reader
          ≡ (out, none, reader'))
        × HasRead size (chunk ∷ chunks) writer reader reader' out
  unfolding read
  read_next_frame junk size chunk chunks writer reader empty link =
      let (frame, rest, mid, laid, f, later) = link.carried in
      let slm = link.reader_modifier in
      let many = length-take size chunk in
      let young : reader.read_nonce < max_nonce = omega (arith, link.counted, link.within) in
      let iv = λ (ks : ℕ × ℕ). (next_mask hash ks slm.inbound_iv).1 in
      let f' =
        subst
          (λ ks.
            IsFrame ops hash ks reader.modifier_chain slm.inbound_iv reader.noise frame chunk mid)
          (sym link.reader_keys)
          (subst (λ ch. IsFrame ops hash keys ch slm.inbound_iv reader.noise frame chunk mid)
            (sym link.reader_chain) f) in
      let framed : read_framed ops hash junk size reader
          ≡ (ok (take size chunk), after_frame ops hash slm rest mid (drop size chunk) reader) =
        read_framed_lem ops hash junk size rest slm reader young link.reader_connected empty
          link.reader_obfuscates laid f' in
      (
        take size chunk,
        after_frame ops hash slm rest mid (drop size chunk) reader,
        simp (read, link.reader_open, link.reader_obfuscates, empty, framed),
        record {
          left = chunks;
          in_order =
              sym (append_assoc (take size chunk) (drop size chunk) (joined chunks))
              ∙ ap (λ bs. bs ++ joined chunks) (take-append-drop size chunk)
              ∙ sym (ap (λ bs. bs ++ joined (chunk ∷ chunks)) empty);
          bounded = omega (arith, many);
          moves = λ h. omega (arith, many, f.filled);
          linked = record {
            writer_open = link.writer_open;
            reader_open = link.reader_open;
            reader_connected = link.reader_connected;
            writer_chain = link.writer_chain;
            reader_chain = link.reader_chain;
            writer_modifier = link.writer_modifier;
            reader_modifier = record slm { inbound_iv = iv slm.inbound_keys };
            writer_obfuscates = link.writer_obfuscates;
            reader_obfuscates = refl;
            writer_keys = link.writer_keys;
            reader_keys = link.reader_keys;
            last_noise = link.last_noise;
            carried =
                subst
                  (λ i.
                    Carries ops hash keys chain i mid rest chunks link.writer_modifier.outbound_iv
                      link.last_noise)
                  (ap iv (sym link.reader_keys)) later;
            agreed = link.agreed;
            counted = omega (arith, link.counted);
            within = link.within;
            roomy = link.roomy;
          };
        },
      )

  -- A `Read` of a linked reader that has something unread returns no error and the front of what is
  -- unread, at most the caller's buffer full and not empty unless that buffer is; the rest stays to be
  -- read, in order, and the ends stay linked.
  pub read-HasRead :
      (junk size : ℕ) (chunks : List (List ℕ)) (writer reader : Conn N)
      → IsLinked ops hash keys chain Agree writer reader chunks
      → 0 < length (unread reader chunks)
      → (out : List ℕ) × (reader' : Conn N) × (read ops hash junk size reader
          ≡ (out, none, reader'))
        × HasRead size chunks writer reader reader' out
  read-HasRead junk size chunks writer reader link some_left =
      go chunks (reader.read_buffer) refl link some_left
    where
      go :
          (chunks : List (List ℕ)) (buffer : List ℕ)
          → reader.read_buffer ≡ buffer
          → IsLinked ops hash keys chain Agree writer reader chunks
          → 0 < length (unread reader chunks)
          → (out : List ℕ) × (reader' : Conn N) × (read ops hash junk size reader
              ≡ (out, none, reader'))
            × HasRead size chunks writer reader reader' out
      go chunks (b ∷ bs) is link some_left =
          read_buffered junk size chunks writer reader (omega (arith, ap length is)) link
      go (chunk ∷ chunks) [] is link some_left =
          read_next_frame junk size chunk chunks writer reader is link
      go [] [] is link some_left =
          absurd (omega (arith, some_left, ap (λ bs. length (bs ++ [])) is))
