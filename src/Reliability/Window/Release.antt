-- ===== src/Reliability/Window/Release.antt =====
-- The releasing loop of `Insert`: it ends by its test, and hands packets on in order.
use noise_ssu.Base.{
  ℕ, zero, suc, ◌+◌, ◌≤◌, ◌<◌, ◌%◌, ◌≡◌, refl, sym, ap, ap₂, subst, ◌⊎◌, inl, inr, none, some, List,
  [], ◌∷◌, map, arith, length, Option-cases, ==→eq, ◌==◌, Bool-cases,
}
use noise_ssu.Base.U32.{add32, sub32, u32_mod, IsU32}
use noise_ssu.Base.Dict.{
  Dict, lookup, erase, IsDict, lookup-nil, lookup-erase, erase-IsDict, length-erase_present,
}
use noise_ssu.Reliability.Window.{release}
use noise_ssu.Wire.Packet.{Packet}

-- The sequence numbers `n` from `e` on, wrapping at 2^32.
abbrev pub count_up : ℕ → ℕ → List ℕ
count_up e zero = []
count_up e (suc n) = e ∷ count_up (add32 e 1) n

abbrev pub numbers : List Packet → List ℕ
numbers = map (λ p. p.packet_number)

-- `p` is one of the list.
abbrev pub In : Packet → List Packet → Type 0
In p [] = ⊥
In p (q ∷ qs) = (q ≡ p) ⊎ In p qs

-- Each entry stands under its own packet's number, in the half space from `e` on.
abbrev pub Entries : ℕ → Dict Packet → Type 0
Entries e w =
    (k : ℕ) (p : Packet)
    → lookup k w ≡ some p
    → (p.packet_number ≡ k) × IsU32 k × (sub32 k e < 0x8000_0000)

-- What is left after deleting the entry of `e` lies in the half space from `e + 1` on.
Entries-erase : (e : ℕ) (w : Dict Packet) → IsU32 e → Entries e w → Entries (add32 e 1) (erase e w)
Entries-erase e w he h k p l = elim (Bool-cases (e == k)) [
  | inl same ↦ ground (arith, same, lookup-erase e k w)
  | inr other ↦
      let old : lookup k w ≡ some p = ground (arith, other, lookup-erase e k w) in
      let (n, k32, near) = h k p old in ground (arith, other, n, k32, near)
]

pub record Released (e : ℕ) (w : Dict Packet) (out : List Packet × ℕ × Dict Packet) : Type 0 where
  pub in_order : numbers out.0 ≡ count_up e (length out.0)
  pub advanced : out.1 ≡ (e + length out.0) % u32_mod
  pub stopped : lookup out.1 out.2 ≡ none
  pub keyed : IsDict out.2
  pub smaller : length out.2 + length out.0 ≤ length w
  pub entries : Entries out.1 out.2
  pub subset : (k : ℕ) (p : Packet) → lookup k out.2 ≡ some p → lookup k w ≡ some p
  pub kept : (k : ℕ) (p : Packet) → lookup k w ≡ some p → (lookup k out.2 ≡ some p) ⊎ In p out.0
  pub from_window : (p : Packet) → In p out.0 → lookup p.packet_number w ≡ some p

stop-Released :
    (e : ℕ) (w : Dict Packet)
    → IsU32 e
    → IsDict w
    → Entries e w
    → lookup e w ≡ none
    → Released e w ([], e, w)
stop-Released e w he u h l = record {
  in_order = refl;
  advanced = omega arith;
  stopped = l;
  keyed = u;
  smaller = omega arith;
  entries = h;
  subset = λ k p m. m;
  kept = λ k p m. inl m;
  from_window = λ p m. absurd m;
}

step-Released :
    (e : ℕ) (w : Dict Packet) (p : Packet) (out : List Packet × ℕ × Dict Packet)
    → IsU32 e
    → IsDict w
    → Entries e w
    → lookup e w ≡ some p
    → Released (add32 e 1) (erase e w) out
    → Released e w (p ∷ out.0, out.1, out.2)
step-Released e w p out he u h l r = record {
  in_order = ap₂ ◌∷◌ (h e p l).0 r.in_order;
  advanced = omega (arith, r.advanced);
  stopped = r.stopped;
  keyed = r.keyed;
  smaller = omega (arith, r.smaller, length-erase_present e p w u l);
  entries = r.entries;
  subset = λ k q m. still k q (r.subset k q m);
  kept = λ k q m. move k q m;
  from_window = λ q m. elim m [
    | inl same ↦ subst (λ (x : Packet). lookup x.packet_number w ≡ some x) same head
    | inr later ↦ still q.packet_number q (r.from_window q later)
  ];
}
  where
    head : lookup p.packet_number w ≡ some p
    head = subst (λ n. lookup n w ≡ some p) (sym (h e p l).0) l

    still : (k : ℕ) (q : Packet) → lookup k (erase e w) ≡ some q → lookup k w ≡ some q
    still k q m = ground (arith, lookup-erase e k w)

    move :
        (k : ℕ) (q : Packet)
        → lookup k w ≡ some q
        → (lookup k out.2 ≡ some q) ⊎ (p ≡ q) ⊎ In q out.0
    move k q m = elim (Bool-cases (e == k)) [
      | inl same ↦ inr (inl (ground (arith, l, m, ap (λ n. lookup n w) (==→eq e k same))))
      | inr other ↦ elim (r.kept k q (ground (arith, other, lookup-erase e k w))) [
        | inl there ↦ inl there
        | inr gone ↦ inr (inr gone)
      ]
    ]

pub release-Released :
    (fuel e : ℕ) (w : Dict Packet)
    → IsU32 e
    → IsDict w
    → Entries e w
    → length w ≤ fuel
    → Released e w (release fuel e w)
unfolding release
release-Released zero e [] he u h m = stop-Released e [] he u h (lookup-nil e)
release-Released zero e (x ∷ w) he u h m = absurd (omega arith)
release-Released (suc fuel) e w he u h m = elim (Option-cases (lookup e w)) [
  | inl l ↦ rw (l, release) (stop-Released e w he u h l)
  | inr (p, l) ↦
      rw (l, release)
        (step-Released e w p (release fuel (add32 e 1) (erase e w)) he u h l (
          release-Released fuel (add32 e 1) (erase e w) (omega arith) (erase-IsDict e w u)
            (Entries-erase e w he h) (omega (arith, length-erase_present e p w u l))))
]
