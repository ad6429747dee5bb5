-- ===== src/Ntcp2.antt =====
-- ntcp2/conn_framing.go and the guards of ntcp2/conn_lifecycle.go: the state of a connection in the data
-- phase, and what its methods share.
-- Each method runs under the lock of its direction: it is one step, a function on the connection.
pub mod Writing
pub mod Reading
pub mod Link
pub mod Sending
pub mod Receiving
pub mod Stream
pub mod Errors
mod Tests
use noise_ssu.Base.{
  ℕ, ◌+◌, ◌≡◌, refl, ap, Bool, true, false, ◌&&◌, Option, none, some, List, [], ◌∷◌, ◌++◌, ltb, leb,
  ◌==◌, if◌then◌else◌, length, take, drop, Outcome, ok, err,
}
use noise_ssu.Handshake.{ModifierChain, ModifierError}
use noise_ssu.Handshake.SipHash.{LengthModifier}

-- A net.Conn: the bytes that still come and the ones that went out. The peer ends it after `incoming`.
-- `write_results` are the counts, and whether with an error, that the next writes return; after them a
-- write takes all its bytes.
pub record Socket : Type 0 where
  pub incoming : List ℕ
  pub outgoing : List ℕ
  pub write_results : List (ℕ × Bool)
  pub closed : Bool

-- The names are the error codes. `nil_pointer` and `frame_too_large_at_cast` are panics.
pub data FrameError : Type 0 where
  connection_broken nonce_exhausted encrypt_failed frame_too_large : FrameError
  frame_too_large_at_cast write_frame_failed partial_write : FrameError
  invalid_frame_size read_length_failed frame_too_small : FrameError
  read_frame_failed decrypt_failed direct_failed nil_pointer : FrameError
  modifier_failed : ModifierError → FrameError

-- The underlying Noise connection, with a state of type `N` that holds its cipher states: `Encrypt` and
-- `Decrypt`, `none` for an error, and its own `Read` and `Write`, of which an error is told by `true`.
pub record NoiseConn (N : Type 0) : Type 0 where
  pub encrypt : List ℕ → N → Option (List ℕ) × N
  pub decrypt : List ℕ → N → Option (List ℕ) × N
  pub direct_read : ℕ → N → Socket → (List ℕ × Bool) × N × Socket
  pub direct_write : List ℕ → N → Socket → (ℕ × Bool) × N × Socket

-- The fields of `Conn` that the data phase reads or writes; `max_frame_size` is that of the config, if
-- one is set.
pub record Conn (N : Type 0) : Type 0 where
  pub broken : Bool
  pub length_obfuscator : Option LengthModifier
  pub modifier_chain : Option ModifierChain
  pub max_frame_size : Option ℕ
  pub write_nonce : ℕ
  pub read_nonce : ℕ
  pub read_buffer : List ℕ
  pub noise : N
  pub socket : Socket
  pub underlying_closed : Bool

-- `Write` of the socket.
unfoldable pub write_open : List (ℕ × Bool) → List ℕ → Socket → (ℕ × Bool) × Socket
write_open [] bytes s = ((length bytes, false), record s { outgoing = s.outgoing ++ bytes })
write_open ((n, failed) ∷ later) bytes s =
    ((n, failed), record s { outgoing = s.outgoing ++ take n bytes; write_results = later })

unfoldable pub socket_write : List ℕ → Socket → (ℕ × Bool) × Socket
socket_write bytes s = if s.closed then ((0, true), s) else write_open s.write_results bytes s

-- `io.ReadFull` into a buffer of that size.
unfoldable pub read_full : ℕ → Socket → Option (List ℕ) × Socket
read_full n s =
    if s.closed
    then (none, s)
    else if ltb (length s.incoming) n
    then (none, record s { incoming = [] })
    else (some (take n s.incoming), record s { incoming = drop n s.incoming })

-- A step on a connection that may fail.
abbrev pub Step : Type 0 → Type 0 → Type 0
Step N A = Conn N → Outcome FrameError A × Conn N

abbrev pub max_nonce : ℕ
max_nonce = 18446744073709551614

module _ {N : Type 0} where
  infixl 5 ◌>>=◌ ◌>>◌
  abbrev pub ◌>>=◌ : {A B : Type 0} → Step N A → (A → Step N B) → Step N B
  ◌>>=◌ m f c = let (reply, c') = m c in elim reply [ ok a ↦ f a c' | err e ↦ (err e, c') ]

  abbrev pub ◌>>◌ : {A B : Type 0} → Step N A → Step N B → Step N B
  m >> k = m >>= λ _. k

  abbrev pub pure : {A : Type 0} → A → Step N A
  pure a c = (ok a, c)

  -- The reply of a modifier chain.
  abbrev pub modified : {A : Type 0} → Outcome ModifierError A → Step N A
  modified (ok a) c = (ok a, c)
  modified (err e) c = (err (modifier_failed e), c)

  unfoldable pub guard_write_nonce : Step N (Unit {0})
  guard_write_nonce c =
      if leb max_nonce c.write_nonce
      then (err nonce_exhausted, record c { broken = true })
      else (ok tt, c)

  unfoldable pub guard_read_nonce : Step N (Unit {0})
  guard_read_nonce c =
      if leb max_nonce c.read_nonce
      then (err nonce_exhausted, record c { broken = true })
      else (ok tt, c)

  -- `handleAEADError`, with `sendTCPRST`: one read takes `junk` bytes at most, and the socket is closed.
  -- The hook `OnAEADError` is the caller's and is not modelled.
  unfoldable pub handle_aead_error : ℕ → Conn N → Conn N
  handle_aead_error junk c = record c {
    broken = true;
    socket = record (c.socket) { incoming = drop junk c.socket.incoming; closed = true };
    underlying_closed = true;
  }

  pub replied :
      {A : Type 0} {a b : A} {c c' : Conn N}
      → ◌≡◌ {A = Outcome FrameError A × Conn N} (ok a, c) (ok b, c')
      → (a ≡ b) × (c ≡ c')
  replied e = (cc e, ap (λ r. r.1) e)

  pub refused :
      {A : Type 0} {b : A} {e : FrameError} {c c' : Conn N}
      → ¬ (◌≡◌ {A = Outcome FrameError A × Conn N} (err e, c) (ok b, c'))
  refused h = cc h

  pub step-of-ok :
      {A B : Type 0} {a : A} {mid : Conn N} (next : A → Step N B) (first : Step N A) (c : Conn N)
      → first c ≡ (ok a, mid)
      → (first >>= next) c ≡ next a mid
  step-of-ok next first c e =
      ap (λ r. let (reply, c') = r in elim reply [ ok a ↦ next a c' | err e ↦ (err e, c') ]) e

  pub step-of-err :
      {A B : Type 0} {e : FrameError} {mid : Conn N} (next : A → Step N B) (first : Step N A)
      (c : Conn N)
      → first c ≡ (err e, mid)
      → (first >>= next) c ≡ (err e, mid)
  step-of-err next first c e =
      ap (λ r. let (reply, c') = r in elim reply [ ok a ↦ next a c' | err e ↦ (err e, c') ]) e

  -- Inversion of a successful step.
  pub step-eq-ok :
      {A B : Type 0} {after : B} {c' : Conn N} (next : A → Step N B) (first : Step N A) (c : Conn N)
      → (first >>= next) c ≡ (ok after, c')
      → (value : A) × (mid : Conn N) × (first c ≡ (ok value, mid))
        × (next value mid ≡ (ok after, c'))
  step-eq-ok {A} {B} {after} {c'} next first c e = go (first c) refl e
    where
      go :
          (r : Outcome FrameError A × Conn N)
          → first c ≡ r
          → (let (reply, mid) = r in elim reply [ ok a ↦ next a mid | err e ↦ (err e, mid) ])
            ≡ (ok after, c')
          → (value : A) × (mid : Conn N) × (first c ≡ (ok value, mid))
            × (next value mid ≡ (ok after, c'))
      go (ok value, mid) was e = (value, mid, was, e)
      go (err reason, mid) was e = cc
