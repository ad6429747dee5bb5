-- ===== src/Wire/Packet/Reading.antt =====
-- A packet that was read is valid, and serialises to the bytes it was read from.
use noise_ssu.Base.{
  ℕ, ◌+◌, ◌-◌, ◌≤◌, ◌<◌, ◌≡◌, refl, sym, subst, ◌∙◌, ap, Bool, true, false, List, [], ◌++◌, arith,
  ltb, if◌then◌else◌, length, take, drop, Outcome, ok, err, append-nil, length-append, length-drop,
  length-take, append_assoc, ltb→le, Bool-cases, inl, inr, take-append-drop,
}
use noise_ssu.Wire.Packet.{
  Packet, PacketError, byte_at, put_at, parse_packet_sections, has_ephemeral_key, get_header_size,
  validate, size, stamp, sections, serialize, deserialize, validate_long_header, number_of, finish,
  packet_too_short,
}
use noise_ssu.Wire.Packet.Sections.{byte_at-append, put_at-byte_at, parse_plain, parse_keyed}

abbrev Step : Type 0
Step = Outcome PacketError (Unit {0}) × Packet

-- What a successful parse went through.
deserialize-ok :
    (d : List ℕ) (now : ℕ) (fresh : Packet) {r : Packet}
    → deserialize d now fresh ≡ (ok tt, r)
    → let f : Packet = record fresh { message_type = byte_at 12 d } in
      (40 ≤ length d)
      × ((q : Packet) × (parse_packet_sections d (get_header_size f) f ≡ (ok tt, q))
          × (r ≡ record q { packet_number = number_of q.header; timestamp = now }))
unfolding deserialize
deserialize-ok d now fresh {r} h =
    go (ltb (length d) 40) (validate_long_header d (get_header_size f))
      (parse_packet_sections d (get_header_size f) f) refl refl h
  where
    f : Packet
    f = record fresh { message_type = byte_at 12 d }

    go :
        (c : Bool) (v : Outcome PacketError (Unit {0})) (s : Step)
        → ltb (length d) 40 ≡ c
        → parse_packet_sections d (get_header_size f) f ≡ s
        → ◌≡◌ {A = Step}
            (if c
              then (err packet_too_short, fresh)
              else elim v [ err e ↦ (err e, f) | ok _ ↦ finish now s ])
            (ok tt, r)
        → (40 ≤ length d)
          × ((q : Packet) × (parse_packet_sections d (get_header_size f) f ≡ (ok tt, q))
              × (r ≡ record q { packet_number = number_of q.header; timestamp = now }))
    go true v s e p k = cc
    go false (err x) s e p k = cc
    go false (ok u) (err x, q) e p k = cc
    go false (ok u) (ok done, q) e p k = (ltb→le _ _ e, (q, p, sym (ap (λ (s : Step). s.1) k)))

-- Bytes that parse have room for every section.
parse-fits :
    (d : List ℕ) (n : ℕ) (f : Packet) {q : Packet}
    → parse_packet_sections d n f ≡ (ok tt, q)
    → (if has_ephemeral_key f then n + 32 else n) + 16 ≤ length d
unfolding parse_packet_sections
parse-fits d n f {q} h =
    elim (Bool-cases (ltb (length d) ((if has_ephemeral_key f then n + 32 else n) + 16))) [
      | inl short ↦ absurd (clash (rw short at h))
      | inr long ↦ ltb→le _ _ long
    ]
  where
    clash : ◌≡◌ {A = Step} (err packet_too_short, f) (ok tt, q) → ⊥
    clash e = cc

cut_three :
    (n : ℕ) (d : List ℕ)
    → n + 16 ≤ length d
    → (h : List ℕ) × (body : List ℕ) × (m : List ℕ) × (d ≡ h ++ body ++ m)
      × (length h ≡ n)
      × (length m ≡ 16)
cut_three n d l =
    let rest = drop n d in
    let k = length rest - 16 in
    let lr = length-drop n d in
    (
      take n d,
      take k rest,
      drop k rest,
      sym (
          append_assoc (take n d) (take k rest) (drop k rest)
          ∙ ap (λ xs. take n d ++ xs) (take-append-drop k rest)
          ∙ take-append-drop n d),
      omega (arith, length-take n d),
      omega (arith, length-drop k rest, lr),
    )

serialize-valid :
    (r : Packet)
    → validate r ≡ ok tt
    → put_at 12 r.message_type r.header ≡ r.header
    → serialize r ≡ (ok (sections r), r)
unfolding serialize stamp
serialize-valid r v e =
    let written : (List ℕ → Outcome PacketError (List ℕ) × Packet) =
      λ h. (ok (sections (record r { header = h })), record r { header = h }) in
    rw (serialize, v) (ap written e)

-- A packet of sections that fit is valid.
valid_plain :
    (r : Packet)
    → length r.header ≡ get_header_size r
    → has_ephemeral_key r ≡ false
    → length r.ephemeral_key ≡ 0
    → length r.mac ≡ 16
    → length r.header + length r.payload + 16 ≤ 1452
    → validate r ≡ ok tt
unfolding validate size
valid_plain r h k lk lm l = ground (arith, k)

valid_keyed :
    (r : Packet)
    → length r.header ≡ get_header_size r
    → has_ephemeral_key r ≡ true
    → length r.ephemeral_key ≡ 32
    → length r.mac ≡ 16
    → length r.header + 32 + length r.payload + 16 ≤ 1452
    → validate r ≡ ok tt
unfolding validate size
valid_keyed r h k lk lm l = ground (arith, k)

-- The message type that was read stands in the header already.
header_stamped :
    (d h rest : List ℕ) → d ≡ h ++ rest → 12 < length h → put_at 12 (byte_at 12 d) h ≡ h
header_stamped d h rest e l =
    ap (λ t. put_at 12 t h) (ap (byte_at 12) e ∙ byte_at-append 12 h rest l) ∙ put_at-byte_at 12 h

serialize-read :
    (d : List ℕ) (r : Packet)
    → validate r ≡ ok tt
    → put_at 12 r.message_type r.header ≡ r.header
    → sections r ≡ d
    → serialize r ≡ (ok d, r)
serialize-read d r v e w =
    let written : (List ℕ → Outcome PacketError (List ℕ) × Packet) = λ bytes. (ok bytes, r) in
    serialize-valid r v e ∙ ap written w

-- The packet that a parse ends with, from the one before the number and the time are set.
parsed_packet :
    {d d' : List ℕ} {n n' : ℕ} (f : Packet) {q q' : Packet}
    → parse_packet_sections d n f ≡ (ok tt, q)
    → d ≡ d'
    → n ≡ n'
    → parse_packet_sections d' n' f ≡ (ok tt, q')
    → q ≡ q'
parsed_packet {d} {d'} {n} {n'} f {q} {q'} p ed en p' =
    ap (λ (s : Step). s.1)
      (sym p
        ∙ ap (λ d. parse_packet_sections d n f) ed
        ∙ ap (λ n. parse_packet_sections d' n f) en
        ∙ p')

-- The end of `Deserialize`.
abbrev done : ℕ → Packet → Packet
done now q = record q { packet_number = number_of q.header; timestamp = now }

read_plain :
    (d : List ℕ) (now : ℕ) (f : Packet) {q : Packet}
    → f.message_type ≡ byte_at 12 d
    → has_ephemeral_key f ≡ false
    → parse_packet_sections d (get_header_size f) f ≡ (ok tt, q)
    → length d ≤ 1452
    → f.ephemeral_key ≡ []
    → f.payload ≡ []
    → serialize (done now q) ≡ (ok d, done now q)
unfolding get_header_size has_ephemeral_key sections
read_plain d now f {q} t k parsed l ek ep =
    let n = get_header_size f in
    let n16 : 16 ≤ n = ground arith in
    let fits : n + 16 ≤ length d = rw k at (parse-fits d n f parsed) in
    let (h, body, m, cut, lh, lm) = cut_three n d fits in
    let front = cut ∙ append_assoc h body m in
    let all : length h + length body + 16 ≤ 1452 =
      omega (arith, ap length cut, length-append (h ++ body) m, length-append h body) in
    let found = parsed_packet f parsed cut (sym lh) (parse_plain h body m f k lm ep) in
    let Q : Packet = record f { header = h; payload = body; mac = m } in
    let stamped = ap (λ t. put_at 12 t h) t ∙ header_stamped d h (body ++ m) front (omega arith) in
    let whole : sections (done now Q) ≡ d = rw (k, append-nil h) (sym cut) in
    subst (λ (x : Packet). serialize (done now x) ≡ (ok d, done now x)) (sym found)
      (serialize-read d (done now Q) (valid_plain (done now Q) lh k (ap length ek) lm all) stamped
        whole)

read_keyed :
    (d : List ℕ) (now : ℕ) (f : Packet) {q : Packet}
    → f.message_type ≡ byte_at 12 d
    → has_ephemeral_key f ≡ true
    → parse_packet_sections d (get_header_size f) f ≡ (ok tt, q)
    → length d ≤ 1452
    → f.payload ≡ []
    → serialize (done now q) ≡ (ok d, done now q)
unfolding get_header_size has_ephemeral_key sections
read_keyed d now f {q} t k parsed l ep =
    let n = get_header_size f in
    let n16 : 16 ≤ n = ground arith in
    let fits : n + 32 + 16 ≤ length d = rw k at (parse-fits d n f parsed) in
    let (hk, body, m, cut, lhk, lm) = cut_three (n + 32) d fits in
    let h = take n hk in
    let key = drop n hk in
    let lh : length h ≡ n = omega (arith, length-take n hk) in
    let lk : length key ≡ 32 = omega (arith, length-drop n hk) in
    let joined : h ++ key ≡ hk = take-append-drop n hk in
    let cut' : d ≡ h ++ key ++ body ++ m = cut ∙ ap (λ x. x ++ body ++ m) (sym joined) in
    let front = cut' ∙ append_assoc (h ++ key) body m ∙ append_assoc h key (body ++ m) in
    let all : length h + 32 + length body + 16 ≤ 1452 =
      omega (arith, ap length cut, length-append (hk ++ body) m, length-append hk body) in
    let found = parsed_packet f parsed cut' (sym lh) (parse_keyed h key body m f k lk lm ep) in
    let Q : Packet = record f { header = h; ephemeral_key = key; payload = body; mac = m } in
    let stamped =
      ap (λ t. put_at 12 t h) t ∙ header_stamped d h (key ++ (body ++ m)) front (omega arith) in
    let whole : sections (done now Q) ≡ d = rw k (sym cut') in
    subst (λ (x : Packet). serialize (done now x) ≡ (ok d, done now x)) (sym found)
      (serialize-read d (done now Q) (valid_keyed (done now Q) lh k lk lm all) stamped whole)

-- Bytes of at most 1452 that are read into a packet without a key or a payload give a packet that
-- serialises to exactly those bytes, and that serialising does not change.
pub serialize-deserialize_packet :
    (d : List ℕ) (now : ℕ) (fresh : Packet) {r : Packet}
    → deserialize d now fresh ≡ (ok tt, r)
    → length d ≤ 1452
    → fresh.ephemeral_key ≡ []
    → fresh.payload ≡ []
    → serialize r ≡ (ok d, r)
serialize-deserialize_packet d now fresh {r} h l ek ep =
    let (n40, (q, parsed, same)) = deserialize-ok d now fresh h in
    let f : Packet = record fresh { message_type = byte_at 12 d } in
    subst (λ (x : Packet). serialize x ≡ (ok d, x)) (sym same)
      (elim (Bool-cases (has_ephemeral_key f)) [
        | inl k ↦ read_keyed d now f refl k parsed l ep
        | inr k ↦ read_plain d now f refl k parsed l ek ep
      ])
