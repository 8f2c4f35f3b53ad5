-- ===== src/Bitcoin/Peer.antt =====
-- The conversation with a peer in src/Blocxxi/Bitcoin/adapter.cpp: sending, the loops that read
-- messages, the version handshake.
pub mod Ends
pub mod Loops
pub mod Within
use blocxxi.Base.{
  ℕ, zero, suc, ◌+◌, ◌/◌, ◌%◌, ◌^◌, ◌++◌, [], ◌∷◌, List, Bytes, text, Bool, true, false, ◌&&◌,
  Option, none, some, Outcome, ok, out_of_fuel, ◌>>=◌, if◌then◌else◌, not, ltb, ◌==◌, length, take,
  drop, replicate, bytes_eq,
}
use blocxxi.Core.Status.{Status, StatusCode, success, failure}
use blocxxi.Bitcoin.Wire.{
  Outside, double_sha256, append_little_endian, append_compact_size, wire_hash_to_hex,
  read_compact_size,
}
use blocxxi.Bitcoin.Message.{DecodedMessage, encode_message, read_message, protocol_version}
use blocxxi.Bitcoin.Headers.{Header}
use blocxxi.Bitcoin.Block.{read_number, range}

-- A socket: what the peer sends, how many more messages can be written before a write fails, and
-- what was written.
pub record Socket : Type 0 where
  pub incoming : Bytes
  pub writable : ℕ
  pub written : List Bytes

-- asio::write, by what is still writable.
unfoldable pub write : Socket → Bytes → ℕ → Bool × Socket
write socket message zero = (false, socket)
write socket message (suc left) =
    (true, record socket { writable = left; written = socket.written ++ message ∷ [] })

unfoldable pub send_message : Outside → Socket → Bytes → Bytes → Bool × Socket
unfolding encode_message write
send_message o socket command payload =
    write socket (encode_message o command payload) socket.writable

-- What make_address makes of a host: whether it is an IPv4 address, and its bytes.
pub record HostAddress : Type 0 where
  pub is_v4 : Bool
  pub bytes : Bytes

-- append_network_address
unfoldable pub network_address : HostAddress → ℕ → Bytes
unfolding append_little_endian
network_address address port =
    append_little_endian 0 8
    ++ (if address.is_v4 then replicate 10 0 ++ (0xFF ∷ 0xFF ∷ address.bytes) else address.bytes)
    ++ ((port / 256 % 256) ∷ (port % 256) ∷ [])

-- EncodeVersionPayload at the time `now`; `local` is the address 0.0.0.0.
unfoldable pub encode_version_payload : ℕ → HostAddress → ℕ → HostAddress → Bytes
unfolding append_little_endian append_compact_size network_address text
encode_version_payload now remote port local =
    append_little_endian protocol_version 4
    ++ append_little_endian 0 8
    ++ append_little_endian now 8
    ++ network_address remote port
    ++ network_address local 0
    ++ append_little_endian 0x12345678ABCDEF00 8
    ++ append_compact_size (length (text "/blocxxi:0.1.0/"))
    ++ text "/blocxxi:0.1.0/"
    ++ append_little_endian 0 4
    ++ (0 ∷ [])

-- The state of a conversation: the socket, and the trace of the commands.
pub record Conversation : Type 0 where
  pub socket : Socket
  pub trace : List Bytes

-- ReadTrackedMessage
unfoldable pub tracked :
    Conversation → Option (DecodedMessage × Bytes) → Option DecodedMessage × Conversation
tracked c none = (none, c)
tracked c (some (message, rest)) = (
  some message,
  record {
    socket = record { incoming = rest; writable = c.socket.writable; written = c.socket.written };
    trace = c.trace ++ message.command ∷ [];
  },
)

unfoldable pub read_tracked_message : Outside → Conversation → Option DecodedMessage × Conversation
unfolding read_message tracked
read_tracked_message o c = tracked c (read_message o c.socket.incoming)

-- SendMessage in a conversation.
unfoldable pub answer : Outside → Conversation → Bytes → Bytes → Bool × Conversation
unfolding send_message
answer o c command payload =
    let sent = send_message o c.socket command payload in (sent.0, record c { socket = sent.1 })

-- A round of ReadNextNonPingMessage from the pong on, and from the message on; `rest` is the rest
-- of the loop.
unfoldable pub after_pong :
    (Conversation → Outcome (Option DecodedMessage × Conversation))
    → Bool × Conversation
    → Outcome (Option DecodedMessage × Conversation)
after_pong rest (false, c) = ok (none, c)
after_pong rest (true, c) = rest c

unfoldable pub after_next :
    Outside
    → (Conversation → Outcome (Option DecodedMessage × Conversation))
    → Option DecodedMessage × Conversation
    → Outcome (Option DecodedMessage × Conversation)
unfolding after_pong answer text bytes_eq
after_next o rest (none, c) = ok (none, c)
after_next o rest (some message, c) =
    if not (bytes_eq message.command (text "ping"))
    then ok (some message, c)
    else after_pong rest (answer o c (text "pong") message.payload)

-- The loop of ReadNextNonPingMessage, on fuel for the messages.
unfoldable pub read_next_non_ping_message :
    Outside → ℕ → Conversation → Outcome (Option DecodedMessage × Conversation)
unfolding read_tracked_message after_next
read_next_non_ping_message o zero c = out_of_fuel
read_next_non_ping_message o (suc fuel) c =
    after_next o (read_next_non_ping_message o fuel) (read_tracked_message o c)

-- The variables of the loop of CompleteVersionHandshake.
pub record Handshake : Type 0 where
  pub version : ℕ
  pub saw_version : Bool
  pub saw_verack : Bool

-- The protocol version of a version message, if its payload is long enough.
unfoldable pub see_version : Handshake → DecodedMessage → Handshake
unfolding read_number
see_version h message = record h {
  version = if ltb (length message.payload) 4 then h.version else read_number message.payload 0 4;
  saw_version = true;
}

-- A round of the loop, from the message on: whether it goes on.
unfoldable pub handshake_round :
    Outside → Handshake → DecodedMessage → Conversation → Bool × Handshake × Conversation
unfolding see_version answer text bytes_eq
handshake_round o h message c =
    let verack = answer o c (text "verack") [] in
    let pong = answer o c (text "pong") message.payload in
    if bytes_eq message.command (text "version")
    then (verack.0, see_version h message, verack.1)
    else if bytes_eq message.command (text "ping")
    then (pong.0, h, pong.1)
    else if bytes_eq message.command (text "verack")
    then (true, record h { saw_verack = true }, c)
    else (true, h, c)

-- The ends of a round; `rest` is the rest of the loop.
unfoldable pub after_answer :
    (Handshake → Conversation → Outcome (Bool × Handshake × Conversation))
    → Bool × Handshake × Conversation
    → Outcome (Bool × Handshake × Conversation)
after_answer rest (false, h, c) = ok (false, h, c)
after_answer rest (true, h, c) = rest h c

unfoldable pub after_read :
    Outside
    → Handshake
    → (Handshake → Conversation → Outcome (Bool × Handshake × Conversation))
    → Option DecodedMessage × Conversation
    → Outcome (Bool × Handshake × Conversation)
unfolding after_answer handshake_round
after_read o h rest (none, c) = ok (false, h, c)
after_read o h rest (some message, c) = after_answer rest (handshake_round o h message c)

-- The loop of CompleteVersionHandshake, on fuel for the messages.
unfoldable pub handshake_loop :
    Outside → ℕ → Handshake → Conversation → Outcome (Bool × Handshake × Conversation)
unfolding read_tracked_message after_read
handshake_loop o zero h c = out_of_fuel
handshake_loop o (suc fuel) h c =
    let more = after_read o h (handshake_loop o fuel) (read_tracked_message o c) in
    if h.saw_version && h.saw_verack then ok (true, h, c) else more

-- CompleteVersionHandshake, with the encoded version payload.
unfoldable pub complete_version_handshake :
    Outside → ℕ → Bytes → ℕ → Conversation → Outcome (Bool × Handshake × Conversation)
unfolding answer after_answer handshake_loop text
complete_version_handshake o fuel payload version c =
    let start : Handshake = record { version = version; saw_version = false; saw_verack = false } in
    let sent = answer o c (text "version") payload in
    after_answer (handshake_loop o fuel) (sent.0, start, sent.1)
