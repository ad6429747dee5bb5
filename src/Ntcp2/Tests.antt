-- ===== src/Ntcp2/Tests.antt =====
-- Two ends at concrete inputs, with a cipher that adds a tag of 16 zeros and a hash that counts.
use noise_ssu.Base.{
  ℕ, ◌+◌, ◌-◌, ◌≡◌, refl, sym, ap, ◌∙◌, Option, none, some, List, [], ◌∷◌, ◌++◌, arith, false, true,
  length, length-append, take, take-append, Outcome, ok, err,
}
use noise_ssu.Base.Xor.{xor_of}
use noise_ssu.Handshake.SipHash.{
  Hash, LengthModifier, next_mask, next_outbound_mask, next_inbound_mask,
}
use noise_ssu.Ntcp2.{
  NoiseConn, Conn, Socket, guard_write_nonce, guard_read_nonce, socket_write, write_open, read_full,
  frame_too_small, partial_write, FrameError, handle_aead_error,
}
use noise_ssu.Ntcp2.Writing.{
  write, write_framed, write_chunks, write_single_frame, get_max_frame_size,
  apply_outbound_modifier, encrypt_frame, build_wire_frame, write_wire_frame,
}
use noise_ssu.Ntcp2.Reading.{
  read, read_framed, read_obfuscated_frame_length, deobfuscate, validate_frame_length,
  read_and_decrypt_frame, decrypt_frame, apply_inbound_modifier, buffer_plaintext,
}
use noise_ssu.Ntcp2.Link.{IsPaired}
use noise_ssu.Ntcp2.Writing.Returns.{write_returns}
use noise_ssu.Ntcp2.Stream.{Stop, Ends, Call, writes, reads, run, step}
use noise_ssu.Ntcp2.Stream.Delivery.{run_streams, IsOpen, Delivers}
use noise_ssu.Ntcp2.Errors.Final.{read_error_final, write_error_final, IsDead}

abbrev tag : List ℕ
tag = 0 ∷ 0 ∷ 0 ∷ 0 ∷ 0 ∷ 0 ∷ 0 ∷ 0 ∷ 0 ∷ 0 ∷ 0 ∷ 0 ∷ 0 ∷ 0 ∷ 0 ∷ 0 ∷ []

-- The state of a cipher is its nonce.
abbrev tagging : NoiseConn ℕ
tagging = record {
  encrypt = λ bytes n. (some (bytes ++ tag), n + 1);
  decrypt = λ bytes n. (some (take (length bytes - 16) bytes), n + 1);
  direct_read = λ size n s. (([], true), n, s);
  direct_write = λ bytes n s. ((0, true), n, s);
}

abbrev counting : Hash
counting k0 k1 bytes = 0x1234 + length bytes

abbrev masks : LengthModifier
masks = record { outbound_keys = (1, 2); inbound_keys = (1, 2); outbound_iv = 7; inbound_iv = 7 }

abbrev quiet : Socket
quiet = record { incoming = []; outgoing = []; write_results = []; closed = false }

-- Frames with room for two bytes of plaintext.
abbrev fresh_end : Conn ℕ
fresh_end = record {
  broken = false;
  length_obfuscator = some masks;
  modifier_chain = none;
  max_frame_size = some 18;
  write_nonce = 0;
  read_nonce = 0;
  read_buffer = [];
  noise = 0;
  socket = quiet;
  underlying_closed = false;
}

abbrev fresh_ends : Ends ℕ
fresh_ends = record { writer = fresh_end; reader = fresh_end }

tagging-IsPaired : IsPaired tagging (λ m n. m ≡ n)
tagging-IsPaired = record {
  opens = λ {sender} {receiver} {sender'} {ciphertext} plaintext same e.
      let bytes : plaintext ++ tag ≡ ciphertext = cc (ap (λ r. r.0) e) in
      let size : length ciphertext ≡ length plaintext + 16 =
        omega (arith, ap length bytes, length-append plaintext tag) in
      (
        receiver + 1,
        ap (λ bs. (some bs, receiver + 1))
            (ap (λ bs. take (length bs - 16) bs) (sym bytes)
              ∙ take-append (length (plaintext ++ tag) - 16) plaintext tag
                  (omega (arith, length-append plaintext tag))),
        sym (ap (λ r. r.1) e) ∙ ap (λ n. n + 1) same,
        size,
      );
}

fresh_ends-IsOpen : IsOpen tagging counting (1, 2) none (λ m n. m ≡ n) [] fresh_ends
unfolding get_max_frame_size
fresh_ends-IsOpen = (
  record {
    writer_open = refl;
    reader_open = refl;
    reader_connected = refl;
    writer_chain = refl;
    reader_chain = refl;
    writer_modifier = masks;
    reader_modifier = masks;
    writer_obfuscates = refl;
    reader_obfuscates = refl;
    writer_keys = refl;
    reader_keys = refl;
    last_noise = 0;
    carried = (refl, refl, refl);
    agreed = refl;
    counted = refl;
    within = omega arith;
    roomy = omega arith;
  },
  refl,
)

abbrev talk : List Call
talk = writes (1 ∷ 2 ∷ 3 ∷ []) ∷ reads 0 1 ∷ reads 0 5 ∷ writes (4 ∷ []) ∷ reads 0 5 ∷ []

abbrev heard : Outcome Stop (List ℕ × Ends ℕ) → List ℕ
heard (ok (out, ends)) = out
heard (err stop) = []

talking : heard (run tagging counting talk fresh_ends) ≡ 1 ∷ 2 ∷ 3 ∷ []
unfolding run step write write_framed write_chunks write_single_frame get_max_frame_size
    apply_outbound_modifier encrypt_frame build_wire_frame write_wire_frame guard_write_nonce
    socket_write write_open next_mask next_outbound_mask next_inbound_mask xor_of read read_framed
    read_obfuscated_frame_length deobfuscate validate_frame_length read_and_decrypt_frame
    decrypt_frame apply_inbound_modifier buffer_plaintext guard_read_nonce read_full
talking = refl

run_streams_example :
    Delivers tagging counting
      (1, 2)
      none
      (λ m n. m ≡ n)
      []
      talk
      fresh_ends
      (run tagging counting talk fresh_ends)
run_streams_example =
    run_streams tagging counting (1, 2) none (λ m n. m ≡ n) talk [] fresh_ends tagging-IsPaired tt
      ((omega arith, (omega arith, (omega arith, tt))), ((omega arith, tt), tt)) fresh_ends-IsOpen

write_returns_example :
    (result : ℕ × Option FrameError × Conn ℕ) × (write tagging counting 3 (1 ∷ 2 ∷ 3 ∷ []) fresh_end
      ≡ some result)
unfolding get_max_frame_size
write_returns_example =
    write_returns tagging counting 3 (1 ∷ 2 ∷ 3 ∷ []) fresh_end (omega arith) (omega arith)

-- The two bytes are the mask itself: a length of 0.
abbrev short_frame : Conn ℕ
short_frame = record fresh_end { socket = record quiet { incoming = 0x12 ∷ 0x3c ∷ 1 ∷ 2 ∷ 3 ∷ [] } }

abbrev after_short_frame : Conn ℕ
after_short_frame = record short_frame {
  broken = true;
  length_obfuscator = some (record masks { inbound_iv = 0x123c });
  socket = record quiet { incoming = 3 ∷ []; closed = true };
  underlying_closed = true;
}

refusing_short :
    read tagging counting 2 5 short_frame ≡ ([], some frame_too_small, after_short_frame)
unfolding read read_framed read_obfuscated_frame_length deobfuscate validate_frame_length next_mask
    next_inbound_mask xor_of guard_read_nonce read_full handle_aead_error
refusing_short = refl

read_error_final_example : (◌≡◌ {A = List ℕ} [] []) × IsDead tagging counting after_short_frame
read_error_final_example =
    read_error_final tagging counting 2 5 [] frame_too_small short_frame after_short_frame
      refusing_short refl

-- A socket that takes three bytes of a frame.
abbrev stalling : Conn ℕ
stalling = record fresh_end { socket = record quiet { write_results = (3, false) ∷ [] } }

abbrev after_stall : Conn ℕ
after_stall = record stalling {
  broken = true;
  length_obfuscator = some (record masks { outbound_iv = 0x123c });
  noise = 1;
  socket = record quiet { outgoing = 0x12 ∷ 0x2d ∷ 9 ∷ [] };
}

stopping : write tagging counting 1 (9 ∷ []) stalling ≡ some (0, some partial_write, after_stall)
unfolding write write_framed write_chunks write_single_frame get_max_frame_size
    apply_outbound_modifier encrypt_frame build_wire_frame write_wire_frame guard_write_nonce
    socket_write write_open next_mask next_outbound_mask xor_of
stopping = refl

write_error_final_example : IsDead tagging counting after_stall
write_error_final_example =
    write_error_final tagging counting 1 0 (9 ∷ []) partial_write stalling after_stall stopping refl

abbrev one_byte : Conn ℕ
one_byte = record fresh_end { socket = record quiet { incoming = 0x12 ∷ [] } }
