-- ===== src/Bitcoin/Peer/Within.antt =====
-- What reading from a peer takes of the bytes that it sends.
use blocxxi.Base.{
  ℕ, zero, suc, ◌+◌, ◌≤◌, ◌<◌, Bytes, text, Bool, true, false, not, ◌&&◌, Option, none, some,
  bytes_eq, if◌then◌else◌, Outcome, ok, Returns, err, out_of_fuel, arith,
}
use blocxxi.Bitcoin.Wire.{Outside}
use blocxxi.Bitcoin.Message.{DecodedMessage, read_message}
use blocxxi.Bitcoin.Peer.{
  Conversation, Handshake, answer, read_tracked_message, after_pong, after_next,
  read_next_non_ping_message, complete_version_handshake, after_answer, after_read, handshake_loop,
  handshake_round, tracked,
}
use blocxxi.Bitcoin.Peer.Ends.{pending, Shorter, read_tracked_message-Shorter, pending-answer}
use blocxxi.Bitcoin.Peer.Loops.{handshake_round-Keeps}

pub if-Returns :
    {A : Type 0} (P : A → Type 0) (b : Bool) (x y : Outcome A)
    → Returns P x
    → Returns P y
    → Returns P (if b then x else y)
if-Returns P true x y h k = h
if-Returns P false x y h k = k

module _ (o : Outside) where
  after_pong-Shorter :
      (n : ℕ) (rest : Conversation → Outcome (Option DecodedMessage × Conversation))
      (sent : Bool × Conversation)
      → ((c : Conversation) → pending c < n → Returns (Shorter n) (rest c))
      → pending sent.1 < n
      → Returns (Shorter n) (after_pong rest sent)
  unfolding after_pong
  after_pong-Shorter n rest (false, c) go h = tt
  after_pong-Shorter n rest (true, c) go h = go c h

  after_next-Shorter :
      (n : ℕ) (rest : Conversation → Outcome (Option DecodedMessage × Conversation))
      (read : Option DecodedMessage × Conversation)
      → ((c : Conversation) → pending c < n → Returns (Shorter n) (rest c))
      → Shorter n read
      → Returns (Shorter n) (after_next o rest read)
  unfolding after_next
  after_next-Shorter n rest (none, c) go h = tt
  after_next-Shorter n rest (some message, c) go h =
      if-Returns (Shorter n) (not (bytes_eq message.command (text "ping"))) (ok (some message, c)) _
        h
        (after_pong-Shorter n rest (answer o c (text "pong") message.payload) go
          (omega (arith, pending-answer o c (text "pong") message.payload, h)))

  weaken :
      (n m : ℕ) (read : Option DecodedMessage × Conversation)
      → n ≤ m
      → Shorter n read
      → Shorter m read
  weaken n m (none, c) le h = tt
  weaken n m (some message, c) le h = omega (arith, le, h)

  weaken-Returns :
      (n m : ℕ) (x : Outcome (Option DecodedMessage × Conversation))
      → n ≤ m
      → Returns (Shorter n) x
      → Returns (Shorter m) x
  weaken-Returns n m (ok read) le h = weaken n m read le h
  weaken-Returns n m (err e) le h = h
  weaken-Returns n m out_of_fuel le h = h

  -- The message that is read next takes some of what the peer sends.
  pub read_next-Shorter :
      (fuel : ℕ) (c : Conversation)
      → pending c < fuel
      → Returns (Shorter (pending c)) (read_next_non_ping_message o fuel c)
  unfolding read_next_non_ping_message
  read_next-Shorter zero c h = absurd (omega arith)
  read_next-Shorter (suc fuel) c h =
      after_next-Shorter (pending c) (read_next_non_ping_message o fuel) (read_tracked_message o c)
        (λ d less.
          weaken-Returns (pending d) (pending c) (read_next_non_ping_message o fuel d)
            (omega (arith, less)) (read_next-Shorter fuel d (omega (arith, less, h))))
        (read_tracked_message-Shorter o c)

  abbrev pub Within : ℕ → Bool × Handshake × Conversation → Type 0
  Within n found = pending found.2 < n

  module _ (n : ℕ) (rest : Handshake → Conversation → Outcome (Bool × Handshake × Conversation))
      (go : (h : Handshake) (c : Conversation)
        → pending c < n
        → Returns (Within n) (rest h c)) where
    after_answer-Within :
        (after : Bool × Handshake × Conversation)
        → pending after.2 < n
        → Returns (Within n) (after_answer rest after)
    unfolding after_answer
    after_answer-Within (false, h, c) less = less
    after_answer-Within (true, h, c) less = go h c less

  Within-mono :
      (n m : ℕ) (x : Outcome (Bool × Handshake × Conversation))
      → n ≤ m
      → Returns (Within n) x
      → Returns (Within m) x
  Within-mono n m (ok found) le h = omega (arith, le, h)
  Within-mono n m (err e) le h = h
  Within-mono n m out_of_fuel le h = h

  after_read-Within :
      (c : Conversation) (h : Handshake)
      (rest : Handshake → Conversation → Outcome (Bool × Handshake × Conversation))
      (read : Option DecodedMessage × Conversation)
      → ((g : Handshake) (d : Conversation)
          → pending d < pending c
          → Returns (Within (pending c)) (rest g d))
      → pending read.1 ≤ pending c
      → Shorter (pending c) read
      → Returns (Within (pending c + 1)) (after_read o h rest read)
  unfolding after_read
  after_read-Within c h rest (none, d) go le less = omega (arith, le)
  after_read-Within c h rest (some message, d) go le less =
      Within-mono (pending c) (pending c + 1) (after_answer rest (handshake_round o h message d))
        (omega arith)
        (after_answer-Within (pending c) rest go (handshake_round o h message d)
          (omega (arith, handshake_round-Keeps o h message d, less)))

  tracked_at :
      (c : Conversation) (found : Option (DecodedMessage × Bytes))
      → Shorter (pending c) (tracked c found)
      → pending (tracked c found).1 ≤ pending c
  unfolding tracked
  tracked_at c none h = omega arith
  tracked_at c (some (message, rest)) h = omega (arith, h)

  tracked_le : (c : Conversation) → pending (read_tracked_message o c).1 ≤ pending c
  unfolding read_tracked_message
  tracked_le c = tracked_at c (read_message o c.socket.incoming) (read_tracked_message-Shorter o c)

  handshake_loop-Within :
      (fuel : ℕ) (h : Handshake) (c : Conversation)
      → pending c < fuel
      → Returns (Within (pending c + 1)) (handshake_loop o fuel h c)
  unfolding handshake_loop
  handshake_loop-Within zero h c less = absurd (omega arith)
  handshake_loop-Within (suc fuel) h c less =
      if-Returns (Within (pending c + 1)) (h.saw_version && h.saw_verack) (ok (true, h, c)) _
        (omega arith)
        (after_read-Within c h (handshake_loop o fuel) (read_tracked_message o c)
          (λ g d shorter.
            Within-mono (pending d + 1) (pending c) (handshake_loop o fuel g d)
              (omega (arith, shorter))
              (handshake_loop-Within fuel g d (omega (arith, shorter, less))))
          (tracked_le c) (read_tracked_message-Shorter o c))

  pub handshake-Within :
      (fuel : ℕ) (payload : Bytes) (version : ℕ) (c : Conversation)
      → pending c < fuel
      → Returns (Within fuel) (complete_version_handshake o fuel payload version c)
  unfolding complete_version_handshake
  handshake-Within fuel payload version c less =
      after_answer-Within fuel (handshake_loop o fuel)
        (λ h d small.
          Within-mono (pending d + 1) fuel (handshake_loop o fuel h d) (omega (arith, small))
            (handshake_loop-Within fuel h d small))
        ((answer o c (text "version") payload).0, _, (answer o c (text "version") payload).1)
        (omega (arith, pending-answer o c (text "version") payload, less))
