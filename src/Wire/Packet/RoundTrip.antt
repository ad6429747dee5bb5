-- ===== src/Wire/Packet/RoundTrip.antt =====
-- A packet that was serialised is read back, and what is read was serialised so.
use noise_ssu.Base.{
  ℕ, ◌≤◌, ◌<◌, ◌≡◌, ◌⊎◌, refl, sym, ◌∙◌, ap, true, false, List, [], ◌++◌, arith, ltb, if◌then◌else◌,
  length, Outcome, ok, err, append-nil, length-append, append_assoc, le→ltb, Bool-cases, inl, inr,
  ok-injective,
}
use noise_ssu.Wire.Packet.{
  Packet, PacketError, byte_at, put_at, parse_packet_sections, has_ephemeral_key, get_header_size,
  validate, stamp, sections, serialize, deserialize, validate_long_header, number_of, parse,
  packet_too_short,
}
use noise_ssu.Wire.Packet.Sections.{
  byte_at-append, byte_at-put_at, length-put_at, empty, parse_plain, parse_keyed,
}

serialize-ok :
    (p : Packet) {w : List ℕ} {p' : Packet}
    → serialize p ≡ (ok w, p')
    → (w ≡ sections (stamp p)) × (p' ≡ stamp p) × (validate p ≡ ok tt)
unfolding serialize
serialize-ok p {w} {p'} h = go (validate p) refl h
  where
    go :
        (v : Outcome PacketError (Unit {0}))
        → validate p ≡ v
        → ◌≡◌ {A = Outcome PacketError (List ℕ) × Packet}
            (elim v [ err e ↦ (err e, p) | ok _ ↦ (ok (sections (stamp p)), stamp p) ])
            (ok w, p')
        → (w ≡ sections (stamp p)) × (p' ≡ stamp p) × (validate p ≡ ok tt)
    go (ok tt) e k = (
      sym (ok-injective (ap (λ (r : Outcome PacketError (List ℕ) × Packet). r.0) k)),
      sym (ap (λ (r : Outcome PacketError (List ℕ) × Packet). r.1) k),
      e,
    )
    go (err x) e k = cc

validate-ok :
    (p : Packet)
    → validate p ≡ ok tt
    → (length p.header ≡ get_header_size p)
      × (length p.mac ≡ 16)
      × (16 ≤ get_header_size p)
      × (((has_ephemeral_key p ≡ true) × (length p.ephemeral_key ≡ 32))
          ⊎ ((has_ephemeral_key p ≡ false) × (length p.ephemeral_key ≡ 0)))
unfolding validate get_header_size
validate-ok p v = elim (Bool-cases (has_ephemeral_key p)) [
  | inl k ↦ (ground (arith, k), ground (arith, k), ground arith, inl (k, ground (arith, k)))
  | inr k ↦ (ground (arith, k), ground (arith, k), ground arith, inr (k, ground (arith, k)))
]

validate_long_header-append :
    (h rest : List ℕ) (n : ℕ)
    → 14 < length h
    → validate_long_header (h ++ rest) n ≡ validate_long_header h n
unfolding validate_long_header
validate_long_header-append h rest n l =
    rw (byte_at-append 13 h rest (omega arith), byte_at-append 14 h rest l) refl

deserialize-parse :
    (d : List ℕ) (now t : ℕ) (fresh r : Packet)
    → 40 ≤ length d
    → byte_at 12 d ≡ t
    → let f : Packet = record fresh { message_type = t } in
      validate_long_header d (get_header_size f) ≡ ok tt
      → parse_packet_sections d (get_header_size f) f ≡ (ok tt, r)
      → deserialize d now fresh
        ≡ (ok tt, record r { packet_number = number_of r.header; timestamp = now })
unfolding deserialize
deserialize-parse d now t fresh r n e v s =
    let long : ltb (length d) 40 ≡ false = le→ltb _ _ n in rw (long, e) (rw (parse, v) (rw s refl))

-- The bytes of a packet start with its header.
sections-header :
    (q : Packet)
    → sections q
      ≡ q.header ++ ((if has_ephemeral_key q then q.ephemeral_key else []) ++ (q.payload ++ q.mac))
unfolding sections
sections-header q =
    append_assoc (q.header ++ (if has_ephemeral_key q then q.ephemeral_key else [])) q.payload q.mac
    ∙ append_assoc q.header (if has_ephemeral_key q then q.ephemeral_key else [])
        (q.payload ++ q.mac)

-- The sections of a stamped packet, parsed into one of the same type.
parse_stamped :
    (p fresh : Packet)
    → validate p ≡ ok tt
    → fresh.ephemeral_key ≡ []
    → fresh.payload ≡ []
    → let f : Packet = record fresh { message_type = p.message_type } in
      parse_packet_sections (sections (stamp p)) (get_header_size f) f ≡ (
        ok tt,
        record (stamp p) { packet_number = fresh.packet_number; timestamp = fresh.timestamp },
      )
unfolding sections stamp has_ephemeral_key get_header_size
parse_stamped p fresh v ek ep =
    let (lh, lm, _, key) = validate-ok p v in
    let t = p.message_type in
    let h = put_at 12 t p.header in
    let f : Packet = record fresh { message_type = t } in
    let n : get_header_size f ≡ length h = sym (length-put_at 12 t p.header ∙ lh) in
    elim key [
      | inl (k, lk) ↦ rw (k, n) (parse_keyed h p.ephemeral_key p.payload p.mac f k lk lm ep)
      | inr (k, lk) ↦
          rw (k, n, append-nil h)
            (parse_plain h p.payload p.mac f k lm ep
              ∙ ap
                  (λ key. (
                    ok tt,
                    record (stamp p) {
                      ephemeral_key = key;
                      packet_number = fresh.packet_number;
                      timestamp = fresh.timestamp;
                    },
                  ))
                  (ek ∙ sym (empty p.ephemeral_key lk)))
    ]

-- A packet that was serialised is read back whole, into any packet without a key or a payload, with
-- its message type and with the number that its header carries. It holds where the bytes are 40 or
-- more and a long header names the version and the network.
pub deserialize-serialize_packet :
    (p fresh : Packet) (now : ℕ) {w : List ℕ} {p' : Packet}
    → serialize p ≡ (ok w, p')
    → validate_long_header p'.header (get_header_size p) ≡ ok tt
    → 40 ≤ length w
    → fresh.ephemeral_key ≡ []
    → fresh.payload ≡ []
    → deserialize w now fresh
      ≡ (ok tt, record p' { packet_number = number_of p'.header; timestamp = now })
unfolding stamp get_header_size
deserialize-serialize_packet p fresh now {w} {p'} s v n ek ep =
    let (ew, same, valid) = serialize-ok p s in
    let (lh, lm, l16, key) = validate-ok p valid in
    let h = put_at 12 p.message_type p.header in
    let lh' : 16 ≤ length h = omega (arith, length-put_at 12 p.message_type p.header) in
    let starts = ew ∙ sections-header (stamp p) in
    let type12 : byte_at 12 w ≡ p.message_type =
      ap (byte_at 12) starts
      ∙ byte_at-append 12 h _ (omega arith)
      ∙ byte_at-put_at 12 p.message_type p.header (omega arith) in
    let marked : validate_long_header w (get_header_size p) ≡ ok tt =
      ap (λ d. validate_long_header d (get_header_size p)) starts
      ∙ validate_long_header-append h _ (get_header_size p) (omega arith)
      ∙ ap (λ (q : Packet). validate_long_header q.header (get_header_size p)) (sym same)
      ∙ v in
    let parsed =
      ap
        (λ d.
          parse_packet_sections d (get_header_size p)
            (record fresh { message_type = p.message_type }))
        ew
      ∙ parse_stamped p fresh valid ek ep in
    deserialize-parse w now p.message_type fresh _ n type12 marked parsed
    ∙ ap (λ (q : Packet). (ok tt, record q { packet_number = number_of q.header; timestamp = now }))
        (sym same)

-- A data packet whose payload is under 8 bytes, once serialised, is refused by `Deserialize` as too
-- short.
short_data_refused :
    (p fresh : Packet) (now : ℕ) {w : List ℕ} {p' : Packet}
    → serialize p ≡ (ok w, p')
    → p.message_type ≡ 6
    → length p.payload < 8
    → deserialize w now fresh ≡ (err packet_too_short, fresh)
unfolding deserialize sections stamp has_ephemeral_key get_header_size
short_data_refused p fresh now {w} {p'} s t l =
    let (ew, same, valid) = serialize-ok p s in
    let (lh, lm, l16, key) = validate-ok p valid in
    let h = put_at 12 p.message_type p.header in
    let lh' = length-put_at 12 p.message_type p.header in
    let short : ltb (length (h ++ [] ++ p.payload ++ p.mac)) 40 ≡ true = ground (
      arith,
      length-append (h ++ [] ++ p.payload) p.mac,
      length-append (h ++ []) p.payload,
      append-nil h,
    ) in
    rw (ew, t) (rw (← t, short) refl)
