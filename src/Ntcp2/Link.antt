-- ===== src/Ntcp2/Link.antt =====
-- Two connected ends: what is on its way from the writer to the reader.
use noise_ssu.Base.{
  joined, ℕ, ◌+◌, ◌≤◌, ◌<◌, ◌≡◌, refl, sym, ap, subst, ◌∙◌, false, Option, none, some, List, [],
  ◌∷◌, ◌++◌, append_assoc, append-nil, arith, length, length-append, All, ok,
}
use noise_ssu.Base.Bytes.{IsBytes, uint16}
use noise_ssu.Base.Xor.{xor16}
use noise_ssu.Handshake.{ModifierChain, phase_data}
use noise_ssu.Handshake.Inverse.{IsInverse, modify_inbound-modify_outbound}
use noise_ssu.Base.U32.{u32_mod}
use noise_ssu.Handshake.SipHash.{Hash, LengthModifier, next_mask}
use noise_ssu.Ntcp2.{NoiseConn, Conn, Socket, max_nonce}
use noise_ssu.Ntcp2.Writing.{outbound_of, get_max_frame_size}
use noise_ssu.Ntcp2.Reading.{inbound_of}

-- What the two ciphers owe each other: as long as they agree, what one encrypts the other decrypts, they
-- agree after it, and a ciphertext is 16 bytes longer. The Noise cipher states that one handshake made
-- agree when their keys and nonces are equal.
pub record IsPaired {N : Type 0} (ops : NoiseConn N) (Agree : N → N → Type 0) : Type 0 where
  pub opens :
      {sender receiver sender' : N} {ciphertext : List ℕ} (plaintext : List ℕ)
      → Agree sender receiver
      → ops.encrypt plaintext sender ≡ (some ciphertext, sender')
      → (receiver' : N) × (ops.decrypt ciphertext receiver ≡ (some plaintext, receiver'))
        × Agree sender' receiver'
        × (length ciphertext ≡ length plaintext + 16)

-- Each modifier of the chain, if there is one, undoes inbound what it did outbound.
abbrev pub IsUndone : Option ModifierChain → Type 0
IsUndone none = Unit
IsUndone (some chain) = All (IsInverse phase_data) chain.modifiers

pub inbound_of-outbound_of :
    (chain : Option ModifierChain) (bytes out : List ℕ)
    → IsUndone chain
    → IsBytes bytes
    → length out < u32_mod
    → outbound_of chain bytes ≡ ok out
    → inbound_of chain out ≡ ok bytes
inbound_of-outbound_of none bytes out laws are short e = sym e
inbound_of-outbound_of (some chain) bytes out laws are short e =
    modify_inbound-modify_outbound chain phase_data bytes out laws are short e

module _ {N : Type 0} (ops : NoiseConn N) (hash : Hash) (keys : ℕ × ℕ)
    (chain : Option ModifierChain) where
  -- Bytes that a reader with that IV and cipher takes for the frame of a chunk, and its cipher after it.
  pub record IsFrame (iv : ℕ) (noise : N) (bytes chunk : List ℕ) (noise' : N) : Type 0 where
    pub first : ℕ
    pub second : ℕ
    pub ciphertext : List ℕ
    pub decrypted : List ℕ
    pub laid_out : bytes ≡ first ∷ second ∷ ciphertext
    pub measured : xor16 (uint16 first second) (next_mask hash keys iv).0 ≡ length ciphertext
    pub long_enough : 16 ≤ length ciphertext
    pub opened : ops.decrypt ciphertext noise ≡ (some decrypted, noise')
    pub undone : inbound_of chain decrypted ≡ ok chunk
    pub filled : 0 < length chunk

  abbrev pub next_iv : ℕ → ℕ
  next_iv iv = (next_mask hash keys iv).1

  -- Bytes on the way that are the frames of these chunks, from one IV and cipher to another.
  abbrev pub Carries : ℕ → N → List ℕ → List (List ℕ) → ℕ → N → Type 0
  Carries iv noise bytes [] iv' noise' = (bytes ≡ []) × (iv ≡ iv') × (noise ≡ noise')
  Carries iv noise bytes (chunk ∷ chunks) iv' noise' =
      (frame : List ℕ) × (rest : List ℕ) × (mid : N) × (bytes ≡ frame ++ rest)
      × IsFrame iv noise frame chunk mid
      × Carries (next_iv iv) mid rest chunks iv' noise'

  -- One more frame.
  pub Carries-append :
      (iv : ℕ) (noise : N) (bytes : List ℕ) (chunks : List (List ℕ)) {iv' : ℕ} {noise' noise'' : N}
      (frame chunk : List ℕ)
      → Carries iv noise bytes chunks iv' noise'
      → IsFrame iv' noise' frame chunk noise''
      → Carries iv noise (bytes ++ frame) (chunks ++ chunk ∷ []) (next_iv iv') noise''
  Carries-append iv noise bytes [] {iv'} {noise'} {noise''} frame chunk (empty, same_iv, same) f = (
    frame,
    [],
    noise'',
    ap (λ bs. bs ++ frame) empty ∙ sym (append-nil frame),
    subst (λ n. IsFrame iv n frame chunk noise'') (sym same)
        (subst (λ i. IsFrame i noise' frame chunk noise'') (sym same_iv) f),
    (refl, ap next_iv same_iv, refl),
  )
  Carries-append iv noise bytes (c ∷ cs) frame chunk (head, rest, mid, laid, h, later) f = (
    head,
    rest ++ frame,
    mid,
    ap (λ bs. bs ++ frame) laid ∙ append_assoc head rest frame,
    h,
    Carries-append (next_iv iv) mid rest cs frame chunk later f,
  )

  -- The chunks are on their way from the writer to the reader, whose ciphers, masks and counters are one
  -- the continuation of the other.
  pub record IsLinked (Agree : N → N → Type 0) (writer reader : Conn N) (chunks : List (List ℕ))
      : Type 0 where
    pub writer_open : writer.broken ≡ false
    pub reader_open : reader.broken ≡ false
    pub reader_connected : reader.socket.closed ≡ false
    pub writer_chain : writer.modifier_chain ≡ chain
    pub reader_chain : reader.modifier_chain ≡ chain
    pub writer_modifier : LengthModifier
    pub reader_modifier : LengthModifier
    pub writer_obfuscates : writer.length_obfuscator ≡ some writer_modifier
    pub reader_obfuscates : reader.length_obfuscator ≡ some reader_modifier
    pub writer_keys : writer_modifier.outbound_keys ≡ keys
    pub reader_keys : reader_modifier.inbound_keys ≡ keys
    pub last_noise : N
    pub carried :
        Carries reader_modifier.inbound_iv reader.noise reader.socket.incoming chunks
          writer_modifier.outbound_iv last_noise
    pub agreed : Agree writer.noise last_noise
    pub counted : reader.read_nonce + length chunks ≡ writer.write_nonce
    pub within : writer.write_nonce ≤ max_nonce
    pub roomy : 16 < get_max_frame_size writer

-- What has come, or is on its way, and has not been read.
abbrev pub unread : {N : Type 0} → Conn N → List (List ℕ) → List ℕ
unread reader chunks = reader.read_buffer ++ joined chunks

-- A reader to which more bytes have come.
abbrev pub with_incoming : {N : Type 0} → List ℕ → Conn N → Conn N
with_incoming bytes c = record c {
  socket = record (c.socket) { incoming = c.socket.incoming ++ bytes };
}

module _ {N : Type 0} (ops : NoiseConn N) (hash : Hash) (keys : ℕ × ℕ)
    (chain : Option ModifierChain) {Agree : N → N → Type 0} where
  -- The writer's socket is not part of the link.
  pub IsLinked-writer_socket :
      {chunks : List (List ℕ)} {writer reader : Conn N} (socket : Socket)
      → IsLinked ops hash keys chain Agree writer reader chunks
      → IsLinked ops hash keys chain Agree (record writer { socket = socket }) reader chunks
  unfolding get_max_frame_size
  IsLinked-writer_socket socket link = record {
    writer_open = link.writer_open;
    reader_open = link.reader_open;
    reader_connected = link.reader_connected;
    writer_chain = link.writer_chain;
    reader_chain = link.reader_chain;
    writer_modifier = link.writer_modifier;
    reader_modifier = link.reader_modifier;
    writer_obfuscates = link.writer_obfuscates;
    reader_obfuscates = link.reader_obfuscates;
    writer_keys = link.writer_keys;
    reader_keys = link.reader_keys;
    last_noise = link.last_noise;
    carried = link.carried;
    agreed = link.agreed;
    counted = link.counted;
    within = link.within;
    roomy = link.roomy;
  }

  -- A reader has something to read when its socket or its buffer has bytes.
  pub unread_of_pending :
      (chunks : List (List ℕ)) {writer reader : Conn N}
      → IsLinked ops hash keys chain Agree writer reader chunks
      → 0 < length reader.read_buffer + length reader.socket.incoming
      → 0 < length (unread reader chunks)
  unread_of_pending [] {writer} {reader} link pending =
      omega (arith, pending, ap length link.carried.0, length-append reader.read_buffer (joined []))
  unread_of_pending (chunk ∷ chunks) {writer} {reader} link pending =
      let (frame, rest, mid, laid, f, later) = link.carried in
      omega (
        arith,
        f.filled,
        length-append reader.read_buffer (joined (chunk ∷ chunks)),
        length-append chunk (joined chunks),
      )

  -- And when neither has, there is nothing.
  pub unread_of_idle :
      (chunks : List (List ℕ)) {writer reader : Conn N}
      → IsLinked ops hash keys chain Agree writer reader chunks
      → length reader.socket.incoming ≡ 0
      → chunks ≡ []
  unread_of_idle [] link idle = refl
  unread_of_idle (chunk ∷ chunks) {writer} {reader} link idle =
      let (frame, rest, mid, laid, f, later) = link.carried in
      absurd (omega (arith, idle, ap length laid, length-append frame rest, ap length f.laid_out))
