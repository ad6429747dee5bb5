-- ===== src/Wire/Packet/Sections.antt =====
-- The sections of a packet, cut out of the bytes that join them.
use noise_ssu.Base.{
  ℕ, zero, suc, ◌+◌, ◌-◌, ◌<◌, ◌≡◌, ◌≢◌, refl, sym, ◌∙◌, ap, true, false, List, [], ◌∷◌, ◌++◌,
  arith, ltb, ◌==◌, if◌then◌else◌, length, take, drop, ok, take-append, drop-append, length-append,
  append_assoc, le→ltb,
}
use noise_ssu.Wire.Packet.{Packet, byte_at, put_at, parse_packet_sections, has_ephemeral_key}

pub byte_at-append : (n : ℕ) (xs ys : List ℕ) → n < length xs → byte_at n (xs ++ ys) ≡ byte_at n xs
byte_at-append n [] ys h = absurd (omega arith)
byte_at-append zero (x ∷ xs) ys h = refl
byte_at-append (suc n) (x ∷ xs) ys h = byte_at-append n xs ys (omega arith)

pub byte_at-put_at : (n x : ℕ) (xs : List ℕ) → n < length xs → byte_at n (put_at n x xs) ≡ x
byte_at-put_at n x [] h = absurd (omega arith)
byte_at-put_at zero x (y ∷ xs) h = refl
byte_at-put_at (suc n) x (y ∷ xs) h = byte_at-put_at n x xs (omega arith)

pub put_at-byte_at : (n : ℕ) (xs : List ℕ) → put_at n (byte_at n xs) xs ≡ xs
put_at-byte_at n [] = refl
put_at-byte_at zero (x ∷ xs) = refl
put_at-byte_at (suc n) (x ∷ xs) = ap (◌∷◌ x) (put_at-byte_at n xs)

byte_at-put_at_other : (n k x : ℕ) (xs : List ℕ) → n ≢ k → byte_at n (put_at k x xs) ≡ byte_at n xs
byte_at-put_at_other n k x [] h = refl
byte_at-put_at_other zero zero x (y ∷ xs) h = absurd (h refl)
byte_at-put_at_other (suc n) zero x (y ∷ xs) h = refl
byte_at-put_at_other zero (suc k) x (y ∷ xs) h = refl
byte_at-put_at_other (suc n) (suc k) x (y ∷ xs) h =
    byte_at-put_at_other n k x xs (λ e. h (ap suc e))

pub length-put_at : (n x : ℕ) (xs : List ℕ) → length (put_at n x xs) ≡ length xs
length-put_at n x [] = refl
length-put_at zero x (y ∷ xs) = refl
length-put_at (suc n) x (y ∷ xs) = ap suc (length-put_at n x xs)

byte_at-take : (n k : ℕ) (xs : List ℕ) → n < k → byte_at n (take k xs) ≡ byte_at n xs
byte_at-take n zero xs h = absurd (omega arith)
byte_at-take n (suc k) [] h = refl
byte_at-take zero (suc k) (x ∷ xs) h = refl
byte_at-take (suc n) (suc k) (x ∷ xs) h = byte_at-take n k xs (omega arith)

pub empty : (xs : List ℕ) → length xs ≡ 0 → xs ≡ []
empty [] h = refl
empty (x ∷ xs) h = absurd (omega arith)

-- An empty payload is not copied; the one that was there is empty.
pub or_empty :
    (n : ℕ) (xs ys : List ℕ) → n ≡ length xs → (if n == 0 then [] else take n (xs ++ ys)) ≡ xs
or_empty n [] ys h = ground (arith, h)
or_empty n (x ∷ xs) ys h =
    let more : (n == 0) ≡ false = ground arith in rw more (take-append n (x ∷ xs) ys (sym h))

drop_front : (h body m : List ℕ) → drop (length h) (h ++ body ++ m) ≡ body ++ m
drop_front h body m =
    ap (drop (length h)) (append_assoc h body m) ∙ drop-append (length h) h (body ++ m) refl

take_front : (h body m : List ℕ) → take (length h) (h ++ body ++ m) ≡ h
take_front h body m =
    ap (take (length h)) (append_assoc h body m) ∙ take-append (length h) h (body ++ m) refl

drop_back : (n : ℕ) (h body m : List ℕ) → length h + length body ≡ n → drop n (h ++ body ++ m) ≡ m
drop_back n h body m e = drop-append n (h ++ body) m (length-append h body ∙ e)

length_three : (h body m : List ℕ) → length (h ++ body ++ m) ≡ length h + length body + length m
length_three h body m = omega (arith, length-append (h ++ body) m, length-append h body)

-- Without an ephemeral key.
pub parse_plain :
    (h body m : List ℕ) (p : Packet)
    → has_ephemeral_key p ≡ false
    → length m ≡ 16
    → p.payload ≡ []
    → parse_packet_sections (h ++ body ++ m) (length h) p
      ≡ (ok tt, record p { header = h; payload = body; mac = m })
unfolding parse_packet_sections
parse_plain h body m p k lm e =
    let n = length h in
    let all = length_three h body m in
    let start : length (h ++ body ++ m) - 16 ≡ n + length body = omega arith in
    let fits : ltb (length (h ++ body ++ m)) (n + 16) ≡ false = le→ltb _ _ (omega arith) in
    let after : ltb (n + length body) n ≡ false = le→ltb _ _ (omega arith) in
    rw
      (
        k,
        fits,
        start,
        after,
        drop_back (n + length body) h body m refl,
        take_front h body m,
        drop_front h body m,
        e,
        or_empty (n + length body - n) body m (omega arith),
      )
      refl

-- With one.
pub parse_keyed :
    (h key body m : List ℕ) (p : Packet)
    → has_ephemeral_key p ≡ true
    → length key ≡ 32
    → length m ≡ 16
    → p.payload ≡ []
    → parse_packet_sections (h ++ key ++ body ++ m) (length h) p
      ≡ (ok tt, record p { header = h; ephemeral_key = key; payload = body; mac = m })
unfolding parse_packet_sections
parse_keyed h key body m p k lk lm e =
    let n = length h in
    let front : length (h ++ key) ≡ n + 32 = omega (arith, length-append h key) in
    let all = length_three (h ++ key) body m in
    let bytes = h ++ key ++ body ++ m in
    let start : length bytes - 16 ≡ n + 32 + length body = omega arith in
    let fits : ltb (length bytes) (n + 32 + 16) ≡ false = le→ltb _ _ (omega arith) in
    let after : ltb (n + 32 + length body) (n + 32) ≡ false = le→ltb _ _ (omega arith) in
    let joined : bytes ≡ h ++ key ++ (body ++ m) = append_assoc (h ++ key) body m in
    let head : take n bytes ≡ h = ap (take n) joined ∙ take_front h key (body ++ m) in
    let after_head : drop n bytes ≡ key ++ (body ++ m) =
      ap (drop n) joined ∙ drop_front h key (body ++ m) in
    let after_key : drop (n + 32) bytes ≡ body ++ m =
      ap (drop (n + 32)) joined ∙ drop-append (n + 32) (h ++ key) (body ++ m) front in
    let back : drop (n + 32 + length body) bytes ≡ m =
      drop_back (n + 32 + length body) (h ++ key) body m (omega arith) in
    rw
      (
        k,
        fits,
        start,
        after,
        back,
        head,
        after_head,
        after_key,
        take-append 32 key (body ++ m) lk,
        e,
        or_empty (n + 32 + length body - (n + 32)) body m (omega arith),
      )
      refl
