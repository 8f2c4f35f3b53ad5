-- ===== src/Bitcoin/Peer/Loops.antt =====
-- The loops end.
use blocxxi.Base.{
  ℕ, zero, suc, ◌≡◌, refl, ◌<◌, [], Bytes, text, Bool, true, false, ◌&&◌, Option, none, some,
  Outcome, ok, arith, if◌then◌else◌, not, bytes_eq,
}
use blocxxi.Bitcoin.Wire.{Outside}
use blocxxi.Bitcoin.Message.{DecodedMessage}
use blocxxi.Bitcoin.Peer.{
  Conversation, Handshake, answer, read_tracked_message, after_pong, after_next, after_answer,
  after_read, read_next_non_ping_message, handshake_round, handshake_loop,
  complete_version_handshake,
}
use blocxxi.Bitcoin.Peer.Ends.{pending, Shorter, read_tracked_message-Shorter, pending-answer}

-- The outcome is a result.
abbrev pub Ends : {A : Type 0} → Outcome A → Type 0
Ends {A} found = (result : A) × (found ≡ ok result)

if-Ends : {A : Type 0} (b : Bool) (x y : Outcome A) → Ends x → Ends y → Ends (if b then x else y)
if-Ends true x y h k = h
if-Ends false x y h k = k

module _ (o : Outside) where
  after_pong-Ends :
      (n : ℕ) (rest : Conversation → Outcome (Option DecodedMessage × Conversation))
      (sent : Bool × Conversation)
      → ((c : Conversation) → pending c < n → Ends (rest c))
      → pending sent.1 < n
      → Ends (after_pong rest sent)
  unfolding after_pong
  after_pong-Ends n rest (false, c) go h = (_, refl)
  after_pong-Ends n rest (true, c) go h = go c h

  after_next-Ends :
      (n : ℕ) (rest : Conversation → Outcome (Option DecodedMessage × Conversation))
      (read : Option DecodedMessage × Conversation)
      → ((c : Conversation) → pending c < n → Ends (rest c))
      → Shorter n read
      → Ends (after_next o rest read)
  unfolding after_next
  after_next-Ends n rest (none, c) go h = (_, refl)
  after_next-Ends n rest (some message, c) go h =
      if-Ends (not (bytes_eq message.command (text "ping"))) _ _ (_, refl)
        (after_pong-Ends n rest (answer o c (text "pong") message.payload) go
          (omega (arith, pending-answer o c (text "pong") message.payload, h)))

  -- ReadNextNonPingMessage ends, against any peer: as many rounds as the peer sends bytes, and one
  -- more, are enough.
  pub read_next_non_ping_message-Ends :
      (fuel : ℕ) (c : Conversation) → pending c < fuel → Ends (read_next_non_ping_message o fuel c)
  unfolding read_next_non_ping_message
  read_next_non_ping_message-Ends zero c h = absurd (omega arith)
  read_next_non_ping_message-Ends (suc fuel) c h =
      after_next-Ends (pending c) (read_next_non_ping_message o fuel) (read_tracked_message o c)
        (λ d less. read_next_non_ping_message-Ends fuel d (omega (arith, less, h)))
        (read_tracked_message-Shorter o c)

  -- An answer, or none, to the message of a round.
  abbrev pub Keeps : Conversation → Bool × Handshake × Conversation → Type 0
  Keeps c after = pending after.2 ≡ pending c

  if-Keeps :
      (c : Conversation) (b : Bool) (x y : Bool × Handshake × Conversation)
      → Keeps c x
      → Keeps c y
      → Keeps c (if b then x else y)
  if-Keeps c true x y h k = h
  if-Keeps c false x y h k = k

  pub handshake_round-Keeps :
      (h : Handshake) (message : DecodedMessage) (c : Conversation)
      → Keeps c (handshake_round o h message c)
  unfolding handshake_round
  handshake_round-Keeps h message c =
      if-Keeps c (bytes_eq message.command (text "version")) _ _
        (pending-answer o c (text "verack") [])
        (if-Keeps c (bytes_eq message.command (text "ping")) _ _
          (pending-answer o c (text "pong") message.payload)
          (if-Keeps c (bytes_eq message.command (text "verack")) _ _ refl refl))

  module _ (n : ℕ) (rest : Handshake → Conversation → Outcome (Bool × Handshake × Conversation))
      (go : (h : Handshake) (c : Conversation) → pending c < n → Ends (rest h c)) where
    after_answer-Ends :
        (after : Bool × Handshake × Conversation)
        → pending after.2 < n
        → Ends (after_answer rest after)
    unfolding after_answer
    after_answer-Ends (false, h, c) less = (_, refl)
    after_answer-Ends (true, h, c) less = go h c less

    after_read-Ends :
        (h : Handshake) (read : Option DecodedMessage × Conversation)
        → Shorter n read
        → Ends (after_read o h rest read)
    unfolding after_read
    after_read-Ends h (none, c) less = (_, refl)
    after_read-Ends h (some message, c) less =
        after_answer-Ends (handshake_round o h message c)
          (omega (arith, handshake_round-Keeps h message c, less))

  handshake_loop-Ends :
      (fuel : ℕ) (h : Handshake) (c : Conversation)
      → pending c < fuel
      → Ends (handshake_loop o fuel h c)
  unfolding handshake_loop
  handshake_loop-Ends zero h c less = absurd (omega arith)
  handshake_loop-Ends (suc fuel) h c less =
      if-Ends (h.saw_version && h.saw_verack) _ _ (_, refl)
        (after_read-Ends (pending c) (handshake_loop o fuel)
          (λ g d shorter. handshake_loop-Ends fuel g d (omega (arith, shorter, less))) h
          (read_tracked_message o c) (read_tracked_message-Shorter o c))

  -- CompleteVersionHandshake ends, against any peer, whatever can be written: as many rounds as the
  -- peer sends bytes, and one more, are enough.
  pub complete_version_handshake-Ends :
      (fuel : ℕ) (payload : Bytes) (version : ℕ) (c : Conversation)
      → pending c < fuel
      → Ends (complete_version_handshake o fuel payload version c)
  unfolding complete_version_handshake
  complete_version_handshake-Ends fuel payload version c h =
      after_answer-Ends fuel (handshake_loop o fuel) (handshake_loop-Ends fuel)
        ((answer o c (text "version") payload).0, _, (answer o c (text "version") payload).1)
        (omega (arith, pending-answer o c (text "version") payload, h))
