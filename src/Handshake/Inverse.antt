-- ===== src/Handshake/Inverse.antt =====
-- What one side's modifiers did to its data, the other side's undo.
use noise_ssu.Base.{
  ℕ, ◌+◌, ◌%◌, ◌≤◌, ◌<◌, ◌≡◌, refl, sym, ap, ap₂, subst, ◌∙◌, inl, inr, true, false, some, List, [],
  ◌∷◌, ◌++◌, arith, ltb, length, length-append, take-append, All, Bool-cases, Option-cases,
  All-append, ◌⊎◌, Outcome, ok, err, ok-injective, ok-ne-err, >>=-eq-ok, ◌>>=◌, le→ltb, ltb→le,
}
use noise_ssu.Base.Bytes.{IsBytes, IsByte, uint32_split}
use noise_ssu.Base.U32.{u32_mod}
use noise_ssu.Base.Xor.{xor8-lt, xor8_twice}
use noise_ssu.Handshake.{
  Phase, Modifier, ModifierChain, ModifierError, modify_outbound, modify_inbound, outbound_from,
  inbound_from, at_index,
}
use noise_ssu.Handshake.XorKey.{XorModifier, xor_from, apply_key, xor_modifier, item}
use noise_ssu.Handshake.Padding.{
  PaddingModifier, Random, pad, unpad, unpad_body, padding_modifier, with_length, passes,
  padding_of, fill, padding_size,
}

-- What the inbound half owes to the outbound half in one phase: it undoes it, on data whose length
-- fits 32 bits, and bytes stay bytes and do not get fewer.
pub record IsInverse (phase : Phase) (m : Modifier) : Type 0 where
  pub undone :
      (bytes out : List ℕ)
      → IsBytes bytes
      → m.modify_outbound phase bytes ≡ ok out
      → length out < u32_mod
      → m.modify_inbound phase out ≡ ok bytes
  pub grown :
      (bytes out : List ℕ) → m.modify_outbound phase bytes ≡ ok out → length bytes ≤ length out
  pub written :
      (bytes out : List ℕ) → IsBytes bytes → m.modify_outbound phase bytes ≡ ok out → IsBytes out

at_index-ok :
    (i : ℕ) (m : Outcome ModifierError (List ℕ)) (out : List ℕ) → at_index i m ≡ ok out → m ≡ ok out
at_index-ok i (ok modified) out e = ap ok (ok-injective e)
at_index-ok i (err reason) out e = absurd (ok-ne-err (sym e))

outbound_from-grown :
    (phase : Phase) (i : ℕ) (ms : List Modifier) (bytes out : List ℕ)
    → All (IsInverse phase) ms
    → outbound_from i ms phase bytes ≡ ok out
    → length bytes ≤ length out
unfolding outbound_from
outbound_from-grown phase i [] bytes out laws e =
    subst (λ o. length bytes ≤ length o) (ok-injective e) (omega arith)
outbound_from-grown phase i (m ∷ ms) bytes out laws e =
    let (modified, first, later) = >>=-eq-ok _ _ e in
    let grows = laws.0.grown bytes modified (at_index-ok i _ modified first) in
    omega (arith, grows, outbound_from-grown phase (i + 1) ms modified out laws.1 later)

inbound_from-outbound_from :
    (phase : Phase) (i : ℕ) (ms : List Modifier) (bytes out : List ℕ)
    → All (IsInverse phase) ms
    → IsBytes bytes
    → length out < u32_mod
    → outbound_from i ms phase bytes ≡ ok out
    → inbound_from i ms phase out ≡ ok bytes
unfolding outbound_from inbound_from
inbound_from-outbound_from phase i [] bytes out laws are short e = sym e
inbound_from-outbound_from phase i (m ∷ ms) bytes out laws are short e =
    let (modified, first, later) = >>=-eq-ok _ _ e in
    let was = at_index-ok i _ modified first in
    let grows = outbound_from-grown phase (i + 1) ms modified out laws.1 later in
    let back =
      inbound_from-outbound_from phase (i + 1) ms modified out laws.1
        (laws.0.written bytes modified are was) short later in
    let undone = laws.0.undone bytes modified are was (omega (arith, grows, short)) in
    rw back (ap (at_index i) undone)

-- In a phase in which every modifier of a chain undoes inbound what it did outbound, the chain does
-- too: bytes that go out through it, into data whose length fits 32 bits, come back as they were.
pub modify_inbound-modify_outbound :
    (chain : ModifierChain) (phase : Phase) (bytes out : List ℕ)
    → All (IsInverse phase) chain.modifiers
    → IsBytes bytes
    → length out < u32_mod
    → modify_outbound chain phase bytes ≡ ok out
    → modify_inbound chain phase out ≡ ok bytes
unfolding modify_outbound modify_inbound
modify_inbound-modify_outbound chain phase bytes out laws are short e =
    inbound_from-outbound_from phase 0 chain.modifiers bytes out laws are short e

xor_from_twice :
    (key : List ℕ) (i : ℕ) (bytes : List ℕ)
    → IsBytes bytes
    → xor_from key i (xor_from key i bytes) ≡ bytes
unfolding xor_from
xor_from_twice key i [] are = refl
xor_from_twice key i (b ∷ bs) are =
    ap₂ ◌∷◌ (xor8_twice b (item (i % length key) key) are.0) (xor_from_twice key (i + 1) bs are.1)

length-xor_from :
    (key : List ℕ) (i : ℕ) (bytes : List ℕ) → length (xor_from key i bytes) ≡ length bytes
unfolding xor_from
length-xor_from key i [] = refl
length-xor_from key i (b ∷ bs) = omega (arith, length-xor_from key (i + 1) bs)

xor_from-IsBytes : (key : List ℕ) (i : ℕ) (bytes : List ℕ) → IsBytes (xor_from key i bytes)
unfolding xor_from
xor_from-IsBytes key i [] = tt
xor_from-IsBytes key i (b ∷ bs) =
    (xor8-lt b (item (i % length key) key), xor_from-IsBytes key (i + 1) bs)

-- An open modifier is one loop: on no bytes the loop has no round.
apply_key-open :
    (xm : XorModifier) (phase : Phase) (bytes : List ℕ)
    → xm.closed ≡ false
    → apply_key xm phase bytes ≡ ok (xor_from xm.xor_key 0 bytes)
unfolding apply_key xor_from
apply_key-open xm phase [] opened = rw opened refl
apply_key-open xm phase (b ∷ bs) opened = rw opened (ground arith)

-- An XOR modifier that is not closed undoes inbound what it did outbound to bytes, in each phase and
-- with any key, and keeps bytes bytes.
pub xor_modifier-IsInverse :
    (xm : XorModifier) (phase : Phase) → xm.closed ≡ false → IsInverse phase (xor_modifier xm)
unfolding xor_modifier
xor_modifier-IsInverse xm phase opened =
    let done = λ (bytes : List ℕ). apply_key-open xm phase bytes opened in
    record {
      undone = λ bytes out are e short.
          let o = ok-injective (sym (done bytes) ∙ e) in
          done out
          ∙ ap ok (ap (xor_from xm.xor_key 0) (sym o) ∙ xor_from_twice xm.xor_key 0 bytes are);
      grown = λ bytes out e.
          let o = ok-injective (sym (done bytes) ∙ e) in
          subst (λ xs. length bytes ≤ length xs) o
            (omega (arith, length-xor_from xm.xor_key 0 bytes));
      written = λ bytes out are e.
          subst IsBytes (ok-injective (sym (done bytes) ∙ e)) (xor_from-IsBytes xm.xor_key 0 bytes);
    }

-- The random source gives bytes, when it gives any.
abbrev pub IsRandom : Random → Type 0
IsRandom random = (n : ℕ) (bs : List ℕ) → random.read n ≡ some bs → IsBytes bs

padding_of-IsBytes :
    (random : Random) (size : ℕ) (padding : List ℕ)
    → IsRandom random
    → padding_of random size ≡ ok padding
    → IsBytes padding
padding_of-IsBytes random size padding is e = elim (Bool-cases (ltb 0 size)) [
  | inl some_left ↦ elim (Option-cases (random.read size)) [
    | inl failed ↦ absurd (ok-ne-err (sym (rw (some_left, failed) at e)))
    | inr (bs, given) ↦
        let o : bs ≡ padding = ok-injective (rw (some_left, given) at e) in
        subst IsBytes o (is size bs given)
  ]
  | inr none_left ↦ let o : [] ≡ padding = ok-injective (rw none_left at e) in subst IsBytes o tt
]

-- Padding puts a length before the data and bytes after it.
fill-ok :
    (random : Random) (pm : PaddingModifier) (bytes out : List ℕ)
    → IsRandom random
    → fill random pm bytes ≡ ok out
    → (padding : List ℕ) × (with_length bytes padding ≡ out) × IsBytes padding
fill-ok random pm bytes out is e =
    let after =
      λ (size : ℕ). padding_of random size >>= λ padding. ok (with_length bytes padding) in
    let (size, _, later) = >>=-eq-ok after (padding_size random pm) e in
    let (padding, drawn, last) =
      >>=-eq-ok (λ bs. ok (with_length bytes bs)) (padding_of random size) later in
    (padding, ok-injective last, padding_of-IsBytes random size padding is drawn)

padded :
    (random : Random) (pm : PaddingModifier) (phase : Phase) (bytes out : List ℕ)
    → IsRandom random
    → pad random pm phase bytes ≡ ok out
    → (passes pm phase ≡ true) × (bytes ≡ out)
      ⊎ (passes pm phase ≡ false)
        × (length bytes < u32_mod)
        × ((padding : List ℕ) × (with_length bytes padding ≡ out) × IsBytes padding)
unfolding pad
padded random pm phase bytes out is e = elim (Bool-cases (passes pm phase)) [
  | inl on ↦ inl (on, ok-injective (rw on at e))
  | inr off ↦ elim (Bool-cases (ltb 0xffff_ffff (length bytes))) [
    | inl long ↦ absurd (ok-ne-err (sym (rw (off, long) at e)))
    | inr short ↦ inr (
      off,
      omega (arith, ltb→le _ _ short),
      fill-ok random pm bytes out is (rw (off, short) at e),
    )
  ]
]

unpad_body-with_length :
    (bytes padding : List ℕ)
    → length bytes < u32_mod
    → length (with_length bytes padding) < u32_mod
    → unpad_body (with_length bytes padding) ≡ ok bytes
unpad_body-with_length bytes padding short fits =
    let n = uint32_split (length bytes) short in
    let all = length-append bytes padding in
    rw (n, le→ltb (length (bytes ++ padding) % u32_mod) (length bytes) (omega (arith, all, fits)))
      (ap ok (take-append (length bytes) bytes padding refl))

with_length-IsBytes :
    (bytes padding : List ℕ) → IsBytes bytes → IsBytes padding → IsBytes (with_length bytes padding)
with_length-IsBytes bytes padding are rest = (
  omega arith,
  (omega arith, (omega arith, (omega arith, All-append IsByte bytes padding are rest))),
)

-- Whatever sizes and bytes the random source gives, in each phase: a padding modifier undoes inbound
-- what it did outbound to bytes, where what it wrote is below 2^32 bytes long; what it writes is no
-- shorter than what it was given, and bytes stay bytes.
pub padding_modifier-IsInverse :
    (random : Random) (pm : PaddingModifier) (phase : Phase)
    → IsRandom random
    → IsInverse phase (padding_modifier random pm)
unfolding padding_modifier unpad
padding_modifier-IsInverse random pm phase is = record {
  undone = λ bytes out are e fits. elim (padded random pm phase bytes out is e) [
    | inl (on, same) ↦ rw on (ap ok (sym same))
    | inr (off, short, (padding, made, _)) ↦
        rw (off, sym made)
          (unpad_body-with_length bytes padding short
            (subst (λ xs. length xs < u32_mod) (sym made) fits))
  ];
  grown = λ bytes out e. elim (padded random pm phase bytes out is e) [
    | inl (on, same) ↦ subst (λ xs. length bytes ≤ length xs) same (omega arith)
    | inr (off, short, (padding, made, _)) ↦
        subst (λ xs. length bytes ≤ length xs) made (omega (arith, length-append bytes padding))
  ];
  written = λ bytes out are e. elim (padded random pm phase bytes out is e) [
    | inl (on, same) ↦ subst IsBytes same are
    | inr (off, short, (padding, made, drawn)) ↦
        subst IsBytes made (with_length-IsBytes bytes padding are drawn)
  ];
}
