-- ===== src/Ntcp2/Sending.antt =====
-- What a `Write` puts on its way to the reader.
use noise_ssu.Base.{
  joined, joined-append, ℕ, zero, suc, ◌+◌, ◌-◌, ◌≤◌, ◌<◌, ◌≡◌, refl, sym, ap, ap₂, subst, ◌∙◌, inl,
  inr, Option, none, some, List, [], ◌∷◌, ◌++◌, append_assoc, arith, length, length-append, take,
  drop, length-take, length-drop, All-drop, All-take, take-drop-length, Outcome-cases, none-ne-some,
  append-nil, ok, le→ltb,
}
use noise_ssu.Base.Bytes.{IsBytes, IsByte, hi16, lo16, uint16_split}
use noise_ssu.Base.Xor.{xor16, xor16-lt, xor16_twice}
use noise_ssu.Handshake.{ModifierChain}
use noise_ssu.Handshake.SipHash.{Hash, LengthModifier, next_mask}
use noise_ssu.Ntcp2.{NoiseConn, Conn, FrameError}
use noise_ssu.Ntcp2.Writing.{
  outbound_of, write_single_frame, write_chunks, write_framed, write, get_max_frame_size, Written,
}
use noise_ssu.Ntcp2.Link.{
  with_incoming, IsPaired, IsUndone, IsFrame, IsLinked, Carries, Carries-append,
  inbound_of-outbound_of,
}
use noise_ssu.Ntcp2.Writing.Frame.{IsSent, write_single_frame-IsSent}

-- To tell apart what `Write` returns.
abbrev first_of : {N : Type 0} → Written N → ℕ
first_of none = 0
first_of (some (n, _, _)) = n

abbrev error_of : {N : Type 0} → Option FrameError → Written N → Option FrameError
error_of other none = other
error_of other (some (_, e, _)) = e

abbrev pub connection_of : {N : Type 0} → Conn N → Written N → Conn N
connection_of other none = other
connection_of other (some (_, _, c)) = c

some-ne-none {ℓ} : {A : Type ℓ} {a : A} → ¬ (◌≡◌ {A = Option A} (some a) none)
some-ne-none e = cc

module _ {N : Type 0} (ops : NoiseConn N) (hash : Hash) (keys : ℕ × ℕ)
    (chain : Option ModifierChain) {Agree : N → N → Type 0} (paired : IsPaired ops Agree)
    (undone : IsUndone chain) where
  IsSent-IsFrame :
      {chunk : List ℕ} {n : ℕ} {slm : LengthModifier} {writer writer' : Conn N} {noise noise' : N}
      (sent : IsSent ops hash chunk n slm writer writer')
      → IsBytes chunk
      → 0 < length chunk
      → slm.outbound_keys ≡ keys
      → writer.modifier_chain ≡ chain
      → ops.decrypt sent.encrypted noise ≡ (some sent.to_encrypt, noise')
      → length sent.encrypted ≡ length sent.to_encrypt + 16
      → IsFrame ops hash keys chain slm.outbound_iv noise sent.frame chunk noise'
  IsSent-IsFrame {chunk} {n} {slm} sent are filled same_keys same_chain opened longer =
      let mask = (next_mask hash slm.outbound_keys slm.outbound_iv).0 in
      let len = xor16 (length sent.encrypted) mask in
      let sizes : length sent.encrypted ≤ 65535 = sent.short in
      record {
        first = hi16 len;
        second = lo16 len;
        ciphertext = sent.encrypted;
        decrypted = sent.to_encrypt;
        laid_out = sym sent.laid_out;
        measured =
            ap₂ xor16 (uint16_split len (xor16-lt (length sent.encrypted) mask))
              (ap (λ ks. (next_mask hash ks slm.outbound_iv).0) (sym same_keys))
            ∙ xor16_twice (length sent.encrypted) mask (omega (arith, sizes));
        long_enough = omega (arith, longer);
        opened = opened;
        undone =
            inbound_of-outbound_of chain chunk sent.to_encrypt undone are
              (omega (arith, longer, sizes))
              (subst (λ ch. outbound_of ch chunk ≡ ok sent.to_encrypt) same_chain sent.changed);
        filled = filled;
      }

  -- A frame that a linked writer sends without an error, of a chunk of bytes that is not empty, reaches the
  -- reader as the frame of that chunk: the ends stay linked, with one chunk more.
  write_single_frame-IsLinked :
      (chunk : List ℕ) (n : ℕ) (chunks : List (List ℕ)) (writer writer' reader : Conn N)
      → IsBytes chunk
      → 0 < length chunk
      → IsLinked ops hash keys chain Agree writer reader chunks
      → write_single_frame ops hash chunk writer ≡ (ok n, writer')
      → (length chunk ≡ n)
        × ((frame : List ℕ) × (writer'.socket.outgoing ≡ writer.socket.outgoing ++ frame)
            × IsLinked ops hash keys chain Agree writer'
                (with_incoming frame reader)
                (chunks ++ chunk ∷ []))
  unfolding get_max_frame_size
  write_single_frame-IsLinked chunk n chunks writer writer' reader are filled link e =
      let slm = link.writer_modifier in
      let sent =
        write_single_frame-IsSent ops hash chunk n slm writer writer' link.writer_obfuscates e in
      let (noise', opened, agreed, longer) = paired.opens sent.to_encrypt link.agreed sent.sealed in
      let frame = IsSent-IsFrame sent are filled link.writer_keys link.writer_chain opened longer in
      let iv = λ (ks : ℕ × ℕ). (next_mask hash ks slm.outbound_iv).1 in
      let start = link.reader_modifier.inbound_iv in
      let incoming = reader.socket.incoming in
      (
        sent.reported,
        (
          sent.frame,
          ap (λ (w : Conn N). w.socket.outgoing) (sym sent.left) ∙ sent.went,
          subst
              (λ (w : Conn N).
                IsLinked ops hash keys chain Agree w (with_incoming sent.frame reader)
                  (chunks ++ chunk ∷ []))
              sent.left
              (record {
                writer_open = link.writer_open;
                reader_open = link.reader_open;
                reader_connected = link.reader_connected;
                writer_chain = link.writer_chain;
                reader_chain = link.reader_chain;
                writer_modifier = record slm { outbound_iv = iv slm.outbound_keys };
                reader_modifier = link.reader_modifier;
                writer_obfuscates = refl;
                reader_obfuscates = link.reader_obfuscates;
                writer_keys = link.writer_keys;
                reader_keys = link.reader_keys;
                last_noise = noise';
                carried =
                    subst
                      (λ i.
                        Carries ops hash keys chain start reader.noise (incoming ++ sent.frame)
                          (chunks ++ chunk ∷ []) i noise')
                      (ap iv (sym link.writer_keys))
                      (Carries-append ops hash keys chain start reader.noise incoming chunks
                        sent.frame chunk link.carried frame);
                agreed = agreed;
                counted = omega (arith, link.counted, length-append chunks (chunk ∷ []));
                within = omega (arith, sent.within);
                roomy = link.roomy;
              }),
        ),
      )

  -- What a run of frames has done: the bytes are on their way to the reader, in order.
  pub record HasSent (bytes : List ℕ) (chunks : List (List ℕ)) (writer writer' reader : Conn N)
      : Type 0 where
    pub more : List (List ℕ)
    pub sent : List ℕ
    pub whole : joined more ≡ bytes
    pub went : writer'.socket.outgoing ≡ writer.socket.outgoing ++ sent
    pub linked :
        IsLinked ops hash keys chain Agree writer' (with_incoming sent reader) (chunks ++ more)

  HasSent-none :
      (chunks : List (List ℕ)) {writer writer' reader : Conn N}
      → writer ≡ writer'
      → IsLinked ops hash keys chain Agree writer reader chunks
      → HasSent [] chunks writer writer' reader
  HasSent-none chunks {writer} {writer'} {reader} same link = record {
    more = [];
    sent = [];
    whole = refl;
    went =
        ap (λ (w : Conn N). w.socket.outgoing) (sym same) ∙ sym (append-nil writer.socket.outgoing);
    linked =
        subst
          (λ (w : Conn N).
            IsLinked ops hash keys chain Agree w (with_incoming [] reader) (chunks ++ []))
          same
          (subst (IsLinked ops hash keys chain Agree writer (with_incoming [] reader))
            (sym (append-nil chunks))
            (subst
              (λ incoming.
                IsLinked ops hash keys chain Agree writer
                  (record reader { socket = record (reader.socket) { incoming = incoming } })
                  chunks)
              (sym (append-nil reader.socket.incoming)) link));
  }

  HasSent-append :
      {first second : List ℕ} {chunks : List (List ℕ)} {writer mid writer' reader : Conn N}
      (one : HasSent first chunks writer mid reader)
      → HasSent second (chunks ++ one.more) mid writer' (with_incoming one.sent reader)
      → HasSent (first ++ second) chunks writer writer' reader
  HasSent-append {first} {second} {chunks} {writer} {mid} {writer'} {reader} one two = record {
    more = one.more ++ two.more;
    sent = one.sent ++ two.sent;
    whole = joined-append one.more two.more ∙ ap₂ ◌++◌ one.whole two.whole;
    went =
        two.went
        ∙ ap (λ bs. bs ++ two.sent) one.went
        ∙ append_assoc writer.socket.outgoing one.sent two.sent;
    linked =
        subst
          (IsLinked ops hash keys chain Agree writer' (with_incoming (one.sent ++ two.sent) reader))
          (append_assoc chunks one.more two.more)
          (subst
            (λ incoming.
              IsLinked ops hash keys chain Agree writer'
                (record reader { socket = record (reader.socket) { incoming = incoming } })
                ((chunks ++ one.more) ++ two.more))
            (append_assoc reader.socket.incoming one.sent two.sent) two.linked);
  }

  write_chunks-HasSent :
      (fuel max_plaintext total n : ℕ) (bytes : List ℕ) (chunks : List (List ℕ))
      (writer writer' reader : Conn N)
      → 0 < max_plaintext
      → IsBytes bytes
      → IsLinked ops hash keys chain Agree writer reader chunks
      → write_chunks ops hash fuel max_plaintext bytes total writer ≡ some (n, none, writer')
      → (n ≡ total + length bytes) × HasSent bytes chunks writer writer' reader
  unfolding write_chunks
  write_chunks-HasSent fuel most total n [] chunks writer writer' reader some_room are link e =
      let counted : total ≡ n = ap first_of e in
      (omega (arith, counted), HasSent-none chunks (ap (connection_of writer) e) link)
  write_chunks-HasSent zero most total n (b ∷ bs) chunks writer writer' reader some_room are link
        e =
      absurd (none-ne-some e)
  write_chunks-HasSent (suc fuel) most total n (b ∷ bs) chunks writer writer' reader some_room are
        link e =
      let chunk = take most (b ∷ bs) in
      let size = length-take most (b ∷ bs) in
      let r = write_single_frame ops hash chunk writer in
      elim (Outcome-cases r.0) [
        | inr (reason, failed) ↦
            absurd (some-ne-none (ap (error_of none) (rw (write_chunks, failed) at e)))
        | inl (k, fine) ↦
            let later : write_chunks ops hash fuel most (drop (length chunk) (b ∷ bs)) (total + k)
                  r.1
                ≡ some (n, none, writer') =
              rw (write_chunks, fine) at e in
            let (counted, (frame, went, link')) =
              write_single_frame-IsLinked chunk k chunks writer r.1 reader
                (All-take IsByte most (b ∷ bs) are) (omega (arith, size)) link
                (ap (λ o. (o, r.1)) fine) in
            let one : HasSent chunk chunks writer r.1 reader = record {
              more = chunk ∷ [];
              sent = frame;
              whole = append-nil chunk;
              went = went;
              linked = link';
            } in
            let (total', two) =
              write_chunks-HasSent fuel most (total + k) n (drop (length chunk) (b ∷ bs))
                (chunks ++ chunk ∷ []) r.1 writer' (with_incoming frame reader) some_room
                (All-drop IsByte (length chunk) (b ∷ bs) are) link' later in
            (
              omega (arith, total', counted, length-drop (length chunk) (b ∷ bs), size),
              subst (λ bytes. HasSent bytes chunks writer writer' reader)
                  (take-drop-length most (b ∷ bs)) (HasSent-append one two),
            )
      ]

  -- A `Write` of bytes that a linked writer finishes without an error reports all the bytes, and leaves the ends linked with exactly these bytes more on the way.
  pub write-HasSent :
      (fuel n : ℕ) (bytes : List ℕ) (chunks : List (List ℕ)) (writer writer' reader : Conn N)
      → IsBytes bytes
      → IsLinked ops hash keys chain Agree writer reader chunks
      → write ops hash fuel bytes writer ≡ some (n, none, writer')
      → (n ≡ length bytes) × HasSent bytes chunks writer writer' reader
  unfolding write write_framed
  write-HasSent fuel n bytes chunks writer writer' reader are link e =
      let most = get_max_frame_size writer - 16 in
      let framed : write_framed ops hash fuel bytes writer ≡ some (n, none, writer') =
        simp (write, link.writer_open, link.writer_obfuscates) at e in
      let chunked : write_chunks ops hash fuel most bytes 0 writer ≡ some (n, none, writer') =
        simp (write_framed, le→ltb (get_max_frame_size writer) 16 (omega (arith, link.roomy))) at
          framed in
      let (counted, sent) =
        write_chunks-HasSent fuel most 0 n bytes chunks writer writer' reader
          (omega (arith, link.roomy)) are link chunked in
      (omega (arith, counted), sent)
