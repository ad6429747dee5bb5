-- ===== src/Lib.antt =====
-- A model of the parts of this Go library that decide by themselves: what SSU2 packets and blocks
-- look like on the wire, how the SSU2 layer makes them reliable, how NTCP2 frames a stream,
-- what ratchet messages carry, how sessions find and open them, and how replays are told. Paths are
-- from the repository's root.
--
-- The parts. A UDP datagram is a packet (ssu2/wire/packet.go); its payload, once decrypted, is a list
-- of blocks (ssu2/wire/block.go). A received data packet goes through the receive window
-- (ssu2/reliability/receive_window.go), which hands packets on in the order of their numbers, and its
-- number is recorded by the ACK handler (ssu2/reliability/ack_handler.go), which names the numbers it
-- has in an ACK block and reads the peer's. What is acknowledged or lost is reported to the congestion
-- controller (ssu2/reliability/congestion_control.go), which takes its times from the round-trip time
-- estimator (ssu2/reliability/rtt_estimator.go). Handshakes, in NTCP2 and SSU2, ask the replay cache
-- (mod/replaycache/cache.go) whether a key was seen before. A server that asks a peer to retry gives it a
-- token and takes it back from the token cache (ssu2/wire/token_cache.go).
--
-- A message that is too long for a packet is cut into fragment blocks (ssu2/session/conn_write.go) and put
-- together again by the receiver (ssu2/session/fragment_assembler.go).
--
-- The other transport, NTCP2, runs over TCP. After its handshake a connection cuts what is written into
-- frames (ntcp2/conn_framing.go): each is a length, masked by the next number of a SipHash chain
-- (handshake/siphash/siphash.go), and the ciphertext of a chunk that went through the chain of modifiers
-- (handshake/modifier_chain.go), such as padding and XOR, which the reader undoes in reverse.
--
-- End to end, a ratchet message (ratchet/payload.go, ratchet/payload_builder.go) carries blocks of its
-- own, such as garlic cloves, acknowledgements and the keys of the next ratchet step. A session
-- (ratchet/session.go) seals each message with the key of its counter and sends it under a tag that is
-- good for one message; the manager (ratchet/session_manager.go, ratchet/session_table.go) keeps the
-- sessions and finds the one that a tag belongs to.
--
-- The files.
--   Base: what the modules share. Base.Tests has the Boolean tests and the conditional, Base.Lists
--     lists measured by native numbers, Base.Fallible the results of functions that return an error,
--     Base.Stateful methods that change a state and may fail, Base.Dict Go maps as association lists,
--     Base.Bytes big-endian numbers, Base.U32 arithmetic that wraps at 2^32, Base.I64
--     signed 64-bit numbers in two's complement, Base.Xor the XOR of bytes.
--   Wire.Packet: `SSU2Packet` is the record `Packet`; `Serialize`, `Deserialize`, `validate`,
--     `validateLongHeader`, `parsePacketSections`, `EncodeConnectionID` and the others keep their names,
--     in lower case. A method that writes fields returns the packet as it leaves it, on errors too.
--     Below it: Sections cuts bytes, RoundTrip reads what was written, Reading writes what was read,
--     ConnectionId is the first eight bytes of a header.
--   Wire.Block: `SSU2Block` is `Block`; `Serialize`, `Deserialize`, `enforceBlockOrder`,
--     `SerializeBlocks` and `DeserializeBlocks`. Below it: RoundTrip, and Order, the wire order.
--   Ratchet.Payload: `PayloadBlock`, the constructor and the reader of each block type, and
--     `Serialize`, on the buffer it writes to. Below it: Fields, the readers on what was written.
--   Ratchet.Builder: `PayloadBuilder` is the list of its blocks; `validate`, `Build`, `ParsePayload`
--     and the New Session payload. `parse_from` has a unit of fuel for each byte, since a block takes
--     three at least. Below it: RoundTrip, and Order, what `validate` asks.
--   Ratchet.Session: `Session` and `createSession`, over the parameter `Crypto`. Its child Ratchets has
--     `advanceRatchets` and the rotation of ratchet_step.go, NextKeys the exchange of nextkey.go, Sending
--     `encryptExistingSession` and `prependPendingNextKeys`, Receiving `decryptExistingSession`
--     with the window of recv_window.go. Sending.Messages and Sending.Rotation are about one message;
--     Receiving.Window says what the window holds, Spending and Delivery are about messages that are
--     opened, Replays about those that are not; Link joins a sender and a receiver.
--   Ratchet.Manager: `SessionManager`, with a heap for the sessions that its maps share; `close`. Its
--     child Tags has the tag windows, Eviction `evictLRUSessionLocked`, the quota, the two functions
--     that store a session and the cleanup, Messages `DecryptGarlicMessage`, `EncryptGarlicMessage`
--     and the control blocks. Tags.Window is about one window; Eviction.Held, Bounds, Settings, Settled
--     and Runs are about what storing and evicting leave; Messages.Delivery, UsedTags and Start are
--     about a message at a manager. NewSessions has `decryptNewSession` and the freshness check of
--     session_freshness.go; below it Ages and Replays.
--   Reliability.Window: `ReceiveWindow`; `Insert` is `insert`, whose three cases are `accept_expected`,
--     `buffer_future` and the refusal of old packets; its loop is `release`. Below it: Release, the
--     loop; Invariant; Delivery, what is handed on over runs; Stuck, about `SetExpected`.
--   Reliability.Ack: `ACKHandler`; `GenerateACK` is `generate_ack`, over `sort_desc_dedup`,
--     `split_run` and `build_ack_ranges`; `ProcessACK` is `process_ack`, over `process_ranges` and
--     `collect`, in its child Reader. Below it: Sorting; Encoding, which lists one block can
--     hold; RoundTrip, one range at a time; Blocks, whole blocks; Gap, wide gaps; Timing,
--     `ShouldSendACK`.
--   Reliability.Rtt: `RTTEstimator`; `update`, `get_rto`. Below it: Bounds.
--   Reliability.Congestion: `CongestionController`; `on_ack`, `handle_congestion_event`,
--     `westwood_ssthresh` and the others, over a parameter `Float`; what losses, marks and timeouts do
--     is in its child Signals. Below it: Bounds, one call; Events, any sequence of calls.
--   Replay: `TTLCache`; `check_and_add`, `evict_oldest`, `evict_expired`. Below it: Bounded, Detection.
--   Tokens: `TokenCache`; `generate_token`, `validate_token`, `consume_token`, `cleanup`. Below it:
--     Bounded, and Use, what tokens are good for.
--   Handshake: `HandshakeModifier` is `Modifier`, `ModifierChain` with `modify_outbound` and
--     `modify_inbound`. Below it: XorKey, `XORModifier`; Padding, `PaddingModifier`; SipHash,
--     `LengthModifier` and `NextMask`; Inverse, what undoes what.
--   Session.Fragments: `DataHandler` with its `FragmentSet`s; `handle_first_fragment`,
--     `handle_follow_on_fragment`, `reassemble_message`, the evictions and cleanups. Below it: Parts,
--     which sets are parts of a message; Sound, each step; Delivery, any sequence of steps; Complete,
--     the piece that completes a message; Building, `buildI2NPFragmentBlocks`, and Building.Pieces.
--   Ntcp2: the record `Conn`, the socket, the guards of the nonces and `handleAEADError`; its child
--     Writing has `Write`, `writeFramed` (the loop is `write_chunks`), `writeSingleFrame` and what they
--     call, Reading has `Read`, `readFramed` and what they call. Writing.Frame, Writing.Returns and
--     Reading.Frame are about one call; Link says when two ends match, Sending and Receiving what
--     a `Write` and a `Read` do to them; Stream runs calls at both ends and Stream.Delivery
--     shows what arrives; Errors and Errors.Final are about errors that end a connection.
--   A Tests module of each part runs the definitions on concrete inputs.
--
-- The choices.
--   A struct under a mutex is a record, and a method one function from a record to a record: the mutex
--   makes each method one step. The time that a method reads is an argument, in ns. Log lines
--   and the context of errors are left out; an error is a constructor.
--   Bytes, packet numbers and times are native numbers; uint32 arithmetic that may wrap is written out
--   with its modulus, and so is that of the congestion controller's byte counts and of a TTL that is
--   a sum, which are int64, as Base.I64 has them. Where the code takes an int that may be negative and treats it as it treats
--   0, the model starts at 0.
--   A map is an association list; the order that Go leaves open is the order of that list, and no
--   theorem has a condition on it.
--   Loops are recursion on their list, or on fuel: `release` has one unit for each buffered packet,
--   since a round deletes one; `deserialize_from` one for each byte, since a block takes three, and it
--   says `none` where the fuel runs out; `build_ack_ranges` one for each packet number left, since a
--   round takes one.
--   `write_chunks` has one unit of fuel for each byte written, since a chunk takes at least one where
--   frames have room for plaintext; it says `none` where the fuel runs out.
--   A TCP connection is the bytes that still come, after which the peer closes, and the bytes that went
--   out; the results of its writes may be given in advance, partial and failed ones too. The Noise
--   connection below the framing is the parameter `NoiseConn`, of which `IsPaired` says that two ciphers
--   that agree decrypt what the other encrypts; SipHash is the parameter `Hash`, of which
--   nothing is asked. A modifier is the functions its methods compute, the random source of padding
--   is a parameter that gives bytes.
--   `follow_blocks` has one unit of fuel for each byte that is left, since a fragment takes at least one.
--   The ratchets, the key derivation and the AEAD of the ratchet are the parameter `Crypto`, each call
--   a function that may fail; theorems name what they ask of it, such as that a chain of keys is the
--   one both ends compute. `fill_window` has a unit of fuel for each tag it draws, `none` where it runs
--   out: 25 are enough where no tag is another session's. The loops of the receive window have one
--   round for each counter that is left.
--   The float64 arithmetic of the bandwidth estimate is the parameter `Float`, on which no theorem has
--   a condition. That of the round-trip times rounds to 53 binary digits, as Reliability.Rtt has it;
--   `round_from` has 16 units of fuel, one for each doubling of the unit that numbers below 2^69 need.
--
-- What is not modelled: encryption, header protection and the Noise handshake, which are calls of
-- cryptographic packages; the ratchet's New Session Reply, and the Noise IK handshake that gives a
-- session its keys, which Ratchet.Manager.NewSessions takes as a parameter; sockets, goroutines and
-- timers; the SSU2 session's state and its dispatch of blocks to callbacks, the keepalive manager, the
-- construction and the closing of connections; and configuration.
--
pub mod Base
pub mod Handshake
pub mod Ntcp2
pub mod Ratchet
pub mod Replay
pub mod Session
pub mod Tokens
pub mod Wire
pub mod Reliability
