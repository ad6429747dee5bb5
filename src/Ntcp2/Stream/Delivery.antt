-- ===== src/Ntcp2/Stream/Delivery.antt =====
-- What is written is read, in order.
use noise_ssu.Base.{
  joined, joined-append, ℕ, ◌≡◌, refl, sym, ap, ap₂, subst, ◌∙◌, inl, inr, ◌⊎◌, Option, none, some,
  List, [], ◌∷◌, ◌++◌, append_assoc, append-nil, arith, length, Bool-cases, Outcome, ok, err,
}
use noise_ssu.Base.Bytes.{IsBytes}
use noise_ssu.Handshake.{ModifierChain}
use noise_ssu.Handshake.SipHash.{Hash}
use noise_ssu.Ntcp2.{NoiseConn, Conn, FrameError}
use noise_ssu.Ntcp2.Writing.{write}
use noise_ssu.Ntcp2.Link.{
  with_incoming, IsPaired, IsUndone, IsLinked, unread, IsLinked-writer_socket, unread_of_pending,
  unread_of_idle,
}
use noise_ssu.Ntcp2.Sending.{write-HasSent}
use noise_ssu.Ntcp2.Receiving.{read-HasRead}
use noise_ssu.Ntcp2.Writing.Returns.{write_returns}
use noise_ssu.Ntcp2.Stream.{
  Call, Ends, Stop, writes, reads, write_stopped, transferred, after_write, after_read, waits, step,
  run, written, AllBytes,
}

AllBytes-split :
    (call : Call) (calls : List Call)
    → AllBytes (call ∷ calls)
    → AllBytes (call ∷ []) × AllBytes calls
AllBytes-split (writes bytes) calls are = ((are.0, tt), are.1)
AllBytes-split (reads junk size) calls are = (tt, are)

module _ {N : Type 0} (ops : NoiseConn N) (hash : Hash) (keys : ℕ × ℕ)
    (chain : Option ModifierChain) (Agree : N → N → Type 0) where
  -- The ends are linked, and nothing is between them but what the reader's socket holds.
  abbrev pub IsOpen : List (List ℕ) → Ends N → Type 0
  IsOpen chunks ends =
      IsLinked ops hash keys chain Agree ends.writer ends.reader chunks
      × (ends.writer.socket.outgoing ≡ [])

  -- A run ended in order: what was read, and then what is unread, is what was unread, and then what was
  -- written.
  pub record IsStream (chunks : List (List ℕ)) (calls : List Call) (ends : Ends N)
      (reply : Outcome Stop (List ℕ × Ends N)) : Type 0 where
    pub out : List ℕ
    pub after : Ends N
    pub left : List (List ℕ)
    pub returned : reply ≡ ok (out, after)
    pub streamed : out ++ unread after.reader left ≡ unread ends.reader chunks ++ written calls
    pub open_after : IsOpen left after

  pub Delivers : List (List ℕ) → List Call → Ends N → Outcome Stop (List ℕ × Ends N) → Type 0
  Delivers chunks calls ends reply =
      ((e : FrameError) × (reply ≡ err (write_stopped e))) ⊎ IsStream chunks calls ends reply

  step_write :
      (bytes : List ℕ) (chunks : List (List ℕ)) (ends : Ends N)
      → IsPaired ops Agree
      → IsUndone chain
      → IsBytes bytes
      → IsOpen chunks ends
      → Delivers chunks (writes bytes ∷ []) ends (step ops hash (writes bytes) ends)
  unfolding Delivers step
  step_write bytes chunks ends paired undone are (link, clear) =
      let ((n, reply, writer), is) =
        write_returns ops hash (length bytes) bytes ends.writer link.roomy (omega arith) in
      go n reply writer is
    where
      go :
          (n : ℕ) (reply : Option FrameError) (writer : Conn N)
          → write ops hash (length bytes) bytes ends.writer ≡ some (n, reply, writer)
          → Delivers chunks (writes bytes ∷ []) ends (step ops hash (writes bytes) ends)
      go n (some e) writer is = inl (e, ap (after_write ops hash ends.reader) is)
      go n none writer is =
          let (_, sent) =
            write-HasSent ops hash keys chain paired undone (length bytes) n bytes chunks
              ends.writer writer ends.reader are link is in
          let all : writer.socket.outgoing ≡ sent.sent =
            sent.went ∙ ap (λ bs. bs ++ sent.sent) clear in
          let reader = ends.reader in
          inr (record {
            out = [];
            after = transferred ops hash writer reader;
            left = chunks ++ sent.more;
            returned = ap (after_write ops hash reader) is;
            streamed =
                ap (◌++◌ reader.read_buffer) (joined-append chunks sent.more)
                ∙ sym (append_assoc reader.read_buffer (joined chunks) (joined sent.more))
                ∙ ap (◌++◌ (unread reader chunks)) (sent.whole ∙ sym (append-nil bytes));
            open_after = (
              IsLinked-writer_socket ops hash keys chain (record (writer.socket) { outgoing = [] })
                  (subst
                    (λ bs.
                      IsLinked ops hash keys chain Agree writer (with_incoming bs reader)
                        (chunks ++ sent.more))
                    (sym all) sent.linked),
              refl,
            );
          })

  step_read :
      (junk size : ℕ) (chunks : List (List ℕ)) (ends : Ends N)
      → IsOpen chunks ends
      → Delivers chunks (reads junk size ∷ []) ends (step ops hash (reads junk size) ends)
  unfolding Delivers step
  step_read junk size chunks ends (link, clear) = elim (Bool-cases (waits ops hash ends.reader)) [
    | inl idle ↦ inr (record {
      out = [];
      after = ends;
      left = chunks;
      returned = rw idle refl;
      streamed = sym (append-nil (unread ends.reader chunks));
      open_after = (link, clear);
    })
    | inr busy ↦
        let (out, reader, is, took) =
          read-HasRead ops hash keys chain Agree junk size chunks ends.writer ends.reader link
            (unread_of_pending ops hash keys chain chunks link (ground (arith, busy))) in
        inr (record {
          out = out;
          after = record { writer = ends.writer; reader = reader };
          left = took.left;
          returned = rw busy (ap (after_read ops hash ends.writer) is);
          streamed = took.in_order ∙ sym (append-nil (unread ends.reader chunks));
          open_after = (took.linked, clear);
        })
  ]

  written-cons :
      (call : Call) (calls : List Call)
      → written (call ∷ []) ++ written calls ≡ written (call ∷ calls)
  written-cons (writes bytes) calls = ap (λ bs. bs ++ written calls) (append-nil bytes)
  written-cons (reads junk size) calls = refl

  IsStream-append :
      {chunks : List (List ℕ)} (call : Call) (calls : List Call) {ends : Ends N}
      (one : IsStream chunks (call ∷ []) ends (step ops hash call ends))
      → IsStream one.left calls one.after (run ops hash calls one.after)
      → IsStream chunks (call ∷ calls) ends (run ops hash (call ∷ calls) ends)
  unfolding run
  IsStream-append {chunks} call calls {ends} one two =
      let first = unread ends.reader chunks in
      record {
        out = one.out ++ two.out;
        after = two.after;
        left = two.left;
        returned = rw (one.returned, two.returned) refl;
        streamed =
            append_assoc one.out two.out (unread two.after.reader two.left)
            ∙ ap (◌++◌ one.out) two.streamed
            ∙ sym (append_assoc one.out (unread one.after.reader one.left) (written calls))
            ∙ ap (λ bs. bs ++ written calls) one.streamed
            ∙ append_assoc first (written (call ∷ [])) (written calls)
            ∙ ap (◌++◌ first) (written-cons call calls);
        open_after = two.open_after;
      }

  step_call :
      (call : Call) (chunks : List (List ℕ)) (ends : Ends N)
      → IsPaired ops Agree
      → IsUndone chain
      → AllBytes (call ∷ [])
      → IsOpen chunks ends
      → Delivers chunks (call ∷ []) ends (step ops hash call ends)
  step_call (writes bytes) chunks ends paired undone are opened =
      step_write bytes chunks ends paired undone are.0 opened
  step_call (reads junk size) chunks ends paired undone are opened =
      step_read junk size chunks ends opened

  -- Two ends whose ciphers agree, whose masks, nonces and modifiers match and whose writer's frames have
  -- room for plaintext make a stream. After any calls of `Write`, with bytes, and of `Read`, with any
  -- sizes, either a `Write` has returned an error, or every call has returned without one (a `Read` with
  -- nothing to read waits, and is left out), the ends match as before, and what was read and then what is
  -- unread is what was unread at the start and then all that was written, in order.
  pub run_streams :
      (calls : List Call) (chunks : List (List ℕ)) (ends : Ends N)
      → IsPaired ops Agree
      → IsUndone chain
      → AllBytes calls
      → IsOpen chunks ends
      → Delivers chunks calls ends (run ops hash calls ends)
  unfolding Delivers run
  run_streams [] chunks ends paired undone are opened = inr (record {
    out = [];
    after = ends;
    left = chunks;
    returned = refl;
    streamed = sym (append-nil (unread ends.reader chunks));
    open_after = opened;
  })
  run_streams (call ∷ calls) chunks ends paired undone are opened =
      let now : AllBytes (call ∷ []) × AllBytes calls = AllBytes-split call calls are in
      elim (step_call call chunks ends paired undone now.0 opened) [
        | inl (e, stopped) ↦ inl (e, rw stopped refl)
        | inr one ↦ elim (run_streams calls one.left one.after paired undone now.1 one.open_after) [
          | inl (e, stopped) ↦ inl (e, rw (one.returned, stopped) refl)
          | inr two ↦ inr (IsStream-append call calls one two)
        ]
      ]

  -- Once the reader has to wait, all that was written has been read.
  pub drained :
      (chunks : List (List ℕ)) (calls : List Call) (ends : Ends N)
      (reply : Outcome Stop (List ℕ × Ends N)) (s : IsStream chunks calls ends reply)
      → s.after.reader.read_buffer ≡ []
      → length s.after.reader.socket.incoming ≡ 0
      → s.out ≡ unread ends.reader chunks ++ written calls
  drained chunks calls ends reply s empty idle =
      let none_left = unread_of_idle ops hash keys chain s.left s.open_after.0 idle in
      sym (append-nil s.out)
      ∙ ap (◌++◌ s.out) (sym (ap₂ ◌++◌ empty (ap joined none_left)))
      ∙ s.streamed
