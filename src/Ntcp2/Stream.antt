-- ===== src/Ntcp2/Stream.antt =====
-- Two ends and everything that is written and read: what a connection promises is a stream of bytes.
pub mod Delivery
use noise_ssu.Base.{
  ℕ, ◌+◌, ◌≤◌, ◌<◌, ◌≡◌, refl, sym, ap, ap₂, subst, ◌∙◌, inl, inr, ◌⊎◌, Bool, true, false, not,
  ◌>>=◌, ok-injective, Option, none, some, List, [], ◌∷◌, ◌++◌, append_assoc, append-nil, arith,
  ltb, if◌then◌else◌, length, length-append, All, Bool-cases, Option-cases, Outcome, ok, err,
}
use noise_ssu.Base.Bytes.{IsBytes}
use noise_ssu.Handshake.{ModifierChain}
use noise_ssu.Handshake.SipHash.{Hash}
use noise_ssu.Ntcp2.{NoiseConn, Conn, FrameError}
use noise_ssu.Ntcp2.Writing.{write, Written}
use noise_ssu.Ntcp2.Reading.{read}
use noise_ssu.Ntcp2.Link.{
  with_incoming, IsPaired, IsUndone, IsLinked, unread, IsLinked-writer_socket, unread_of_pending,
  unread_of_idle,
}
use noise_ssu.Ntcp2.Sending.{HasSent, write-HasSent}
use noise_ssu.Ntcp2.Receiving.{HasRead, read-HasRead}

-- A call at one of the ends: a `Write`, or a `Read` into a buffer of a size, with the count of bytes that
-- a junk read would take.
pub data Call : Type 0 where
  writes : List ℕ → Call
  reads : ℕ → ℕ → Call

pub record Ends (N : Type 0) : Type 0 where
  pub writer : Conn N
  pub reader : Conn N

-- Why a run stops: a call returned an error, or a `Write` did not return.
pub data Stop : Type 0 where
  write_hangs : Stop
  write_stopped read_stopped : FrameError → Stop

module _ {N : Type 0} (ops : NoiseConn N) (hash : Hash) where
  -- The network takes what went out of the writer to the reader.
  abbrev pub transferred : Conn N → Conn N → Ends N
  transferred writer reader = record {
    writer = record writer { socket = record (writer.socket) { outgoing = [] } };
    reader = with_incoming writer.socket.outgoing reader;
  }

  abbrev pub after_write : Conn N → Written N → Outcome Stop (List ℕ × Ends N)
  after_write reader none = err write_hangs
  after_write reader (some (n, some e, writer)) = err (write_stopped e)
  after_write reader (some (n, none, writer)) = ok ([], transferred writer reader)

  abbrev pub after_read :
      Conn N → List ℕ × Option FrameError × Conn N → Outcome Stop (List ℕ × Ends N)
  after_read writer (out, some e, reader) = err (read_stopped e)
  after_read writer (out, none, reader) = ok (out, record { writer = writer; reader = reader })

  -- A `Read` with nothing to read waits, and is left out.
  abbrev pub waits : Conn N → Bool
  waits reader =
      if ltb 0 (length reader.read_buffer)
      then false
      else not (ltb 0 (length reader.socket.incoming))

  unfoldable pub step : Call → Ends N → Outcome Stop (List ℕ × Ends N)
  step (writes bytes) ends =
      after_write ends.reader (write ops hash (length bytes) bytes ends.writer)
  step (reads junk size) ends =
      if waits ends.reader
      then ok ([], ends)
      else after_read ends.writer (read ops hash junk size ends.reader)

  -- Calls one after the other, and all that they read.
  unfoldable pub run : List Call → Ends N → Outcome Stop (List ℕ × Ends N)
  run [] ends = ok ([], ends)
  run (call ∷ calls) ends = do
    first ← step call ends
    later ← run calls first.1
    ok (first.0 ++ later.0, later.1)

-- All that is written.
abbrev pub written : List Call → List ℕ
written [] = []
written (writes bytes ∷ calls) = bytes ++ written calls
written (reads junk size ∷ calls) = written calls

abbrev pub AllBytes : List Call → Type 0
AllBytes [] = Unit
AllBytes (writes bytes ∷ calls) = IsBytes bytes × AllBytes calls
AllBytes (reads junk size ∷ calls) = AllBytes calls
