-- ===== src/Bitcoin/Peer/Ends.antt =====
-- The loops that read messages end: each message takes at least its header of what the peer sends.
use blocxxi.Base.{
  ℕ, zero, suc, ◌+◌, ◌≡◌, refl, ap, ◌≤◌, ◌<◌, Bytes, Bool, true, false, Option, none, some, length,
  length-drop, drop, take, ltb, Bool-cases, inl, inr, arith, if◌then◌else◌, not, bytes_eq,
}
use blocxxi.Bitcoin.Wire.{Outside, double_sha256, little_endian}
use blocxxi.Bitcoin.Message.{
  DecodedMessage, read_exact, check_payload, check_header, read_message, signet_magic,
  encode_message,
}
use blocxxi.Bitcoin.Peer.{
  Socket, Conversation, send_message, answer, write, tracked, read_tracked_message,
}

-- A message that was read took the 24 bytes of its header at least; bytes that were read exactly
-- took their number.
Leaves : ℕ → Option (DecodedMessage × Bytes) → Type 0
Leaves n none = Unit
Leaves n (some (message, rest)) = length rest + 24 ≤ n

LeavesBytes : ℕ → ℕ → Option (Bytes × Bytes) → Type 0
LeavesBytes k n none = Unit
LeavesBytes k n (some (bytes, rest)) = length rest + k ≤ n

read_exact-LeavesBytes :
    (size : ℕ) (stream : Bytes) → LeavesBytes size (length stream) (read_exact size stream)
unfolding read_exact LeavesBytes
read_exact-LeavesBytes size stream = elim (Bool-cases (ltb (length stream) size)) [
  | inl short ↦ rw short tt
  | inr enough ↦ rw enough (ground (arith, length-drop size stream))
]

if-Leaves :
    (b : Bool) (n : ℕ) (found : Option (DecodedMessage × Bytes))
    → Leaves n found
    → Leaves n (if b then none else found)
unfolding Leaves
if-Leaves true n found h = tt
if-Leaves false n found h = h

check_payload-Leaves :
    (o : Outside) (header : Bytes) (n k : ℕ) (found : Option (Bytes × Bytes))
    → n + 24 ≤ k
    → LeavesBytes 0 n found
    → Leaves k (check_payload o header found)
unfolding check_payload LeavesBytes Leaves
check_payload-Leaves o header n k none room h = tt
check_payload-Leaves o header n k (some (payload, stream)) room h =
    if-Leaves (not (bytes_eq (take 4 (double_sha256 o payload)) (take 4 (drop 20 header)))) k _
      (omega (arith, room, h))

weaken : (k n : ℕ) (found : Option (Bytes × Bytes)) → LeavesBytes k n found → LeavesBytes 0 n found
unfolding LeavesBytes
weaken k n none h = tt
weaken k n (some (bytes, rest)) h = omega (arith, h)

check_header-Leaves :
    (o : Outside) (n : ℕ) (found : Option (Bytes × Bytes))
    → LeavesBytes 24 n found
    → Leaves n (check_header o found)
unfolding check_header LeavesBytes Leaves
check_header-Leaves o n none h = tt
check_header-Leaves o n (some (header, stream)) h =
    let size = little_endian (take 4 (drop 16 header)) in
    if-Leaves (not (bytes_eq signet_magic (take 4 header))) n
      (check_payload o header (read_exact size stream))
      (check_payload-Leaves o header (length stream) n (read_exact size stream) h
        (weaken size (length stream) (read_exact size stream) (read_exact-LeavesBytes size stream)))

read_message-Leaves :
    (o : Outside) (stream : Bytes) → Leaves (length stream) (read_message o stream)
unfolding read_message
read_message-Leaves o stream =
    check_header-Leaves o (length stream) (read_exact 24 stream) (read_exact-LeavesBytes 24 stream)

-- What the peer still sends.
abbrev pub pending : Conversation → ℕ
pending c = length c.socket.incoming

-- A conversation after a read has less before it, if there was a message.
abbrev pub Shorter : ℕ → Option DecodedMessage × Conversation → Type 0
Shorter n (none, c) = Unit
Shorter n (some message, c) = pending c < n

tracked-Shorter :
    (c : Conversation) (n : ℕ) (found : Option (DecodedMessage × Bytes))
    → Leaves n found
    → Shorter n (tracked c found)
unfolding tracked Leaves
tracked-Shorter c n none h = tt
tracked-Shorter c n (some (message, rest)) h = omega (arith, h)

pub read_tracked_message-Shorter :
    (o : Outside) (c : Conversation) → Shorter (pending c) (read_tracked_message o c)
unfolding read_tracked_message
read_tracked_message-Shorter o c =
    tracked-Shorter c (pending c) (read_message o c.socket.incoming)
      (read_message-Leaves o c.socket.incoming)

incoming-write :
    (socket : Socket) (message : Bytes) (left : ℕ)
    → (write socket message left).1.incoming ≡ socket.incoming
unfolding write
incoming-write socket message zero = refl
incoming-write socket message (suc left) = refl

pub pending-answer :
    (o : Outside) (c : Conversation) (command payload : Bytes)
    → pending (answer o c command payload).1 ≡ pending c
unfolding answer send_message
pending-answer o c command payload =
    ap length (incoming-write c.socket (encode_message o command payload) c.socket.writable)
