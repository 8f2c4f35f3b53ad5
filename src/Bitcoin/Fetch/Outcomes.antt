-- ===== src/Bitcoin/Fetch/Outcomes.antt =====
-- FetchHeaders returns, and what it returns.
use blocxxi.Base.{
  ℕ, zero, suc, ◌+◌, ◌%◌, ◌^◌, ◌≡◌, refl, ◌<◌, [], ◌∷◌, List, Bytes, text, Bool, true, false, not,
  Option, none, some, length, All, bytes_eq, Outcome, ok, ◌>>=◌, Returns, Returns_bind, Any,
  after_any, Bool-cases, inl, inr, arith,
}
use blocxxi.Core.Status.{Status, status_ok, failure, invalid_argument}
use blocxxi.Bitcoin.Wire.{Outside}
use blocxxi.Bitcoin.Message.{DecodedMessage, encode_get_headers_payload}
use blocxxi.Bitcoin.Headers.{Header}
use blocxxi.Bitcoin.Sync.{AreNumbered, parse_headers_payload, parse_headers_payload_outcome}
use blocxxi.Bitcoin.Peer.{
  Socket, HostAddress, Conversation, Handshake, answer, read_next_non_ping_message,
  complete_version_handshake, encode_version_payload,
}
use blocxxi.Bitcoin.Peer.Ends.{pending, Shorter, pending-answer}
use blocxxi.Bitcoin.Fetch.{
  SignetLiveOptions, Endpoint, SignetHeadersResult, Attempt, try_next, return_now, begin,
  after_other, next_command, hashes_of, with_parsed, with_headers, shake_hands, request,
  blank_headers, attempt_headers, after_attempt, try_endpoints, fetch_headers,
}
use blocxxi.Bitcoin.Peer.Within.{if-Returns, read_next-Shorter, Within, handshake-Within}

module _ (o : Outside) where
  after_other-Any :
      (n : ℕ) (rest : Conversation → Outcome (Option DecodedMessage × Conversation))
      (wanted : Bytes) (read : Option DecodedMessage × Conversation)
      → ((c : Conversation) → pending c < n → Returns Any (rest c))
      → Shorter n read
      → Returns Any (after_other rest wanted read)
  unfolding after_other
  after_other-Any n rest wanted (none, c) go h = tt
  after_other-Any n rest wanted (some message, c) go h =
      if-Returns Any (bytes_eq message.command wanted) (ok (some message, c)) (rest c) tt (go c h)

  next_command-Any :
      (inner fuel : ℕ) (wanted : Bytes) (c : Conversation)
      → pending c < inner
      → pending c < fuel
      → Returns Any (next_command o inner fuel wanted c)
  unfolding next_command
  next_command-Any inner zero wanted c h k = absurd (omega arith)
  next_command-Any inner (suc fuel) wanted c h k =
      Returns_bind Any (Shorter (pending c)) (read_next_non_ping_message o inner c) _
        (read_next-Shorter o inner c h)
        (λ read less.
          after_other-Any (pending c) (next_command o inner fuel wanted) wanted read
            (λ d shorter.
              next_command-Any inner fuel wanted d (omega (arith, shorter, h))
                (omega (arith, shorter, k)))
            less)

-- What a successful fetch hands out.
pub record IsFetched (options : SignetLiveOptions) (r : SignetHeadersResult) : Type 0 where
  pub some_header : 0 < length r.headers
  pub numbered : AreNumbered ((options.locator_height + 1) % 2 ^ 32) r.headers
  pub hashes : r.header_hashes ≡ hashes_of r.headers

abbrev pub FetchedIfFine : SignetLiveOptions → Status × SignetHeadersResult → Type 0
FetchedIfFine options (status, r) = status_ok status ≡ true → IsFetched options r

-- What the peer behind an endpoint sends is shorter than the fuel.
abbrev pub IsBounded : ℕ → Endpoint → Type 0
IsBounded fuel endpoint = (s : Socket) → endpoint.socket ≡ some s → length s.incoming < fuel

module _ (o : Outside) (fuel : ℕ) (now : ℕ) (local : HostAddress)
    (options : SignetLiveOptions) where
  Good : Attempt SignetHeadersResult → Type 0
  Good (try_next r) = Unit
  Good (return_now status r) = FetchedIfFine options (status, r)

  with_parsed-Good :
      (remote : Bytes) (r : SignetHeadersResult) (parsed : Status × List Header)
      → (status_ok parsed.0 ≡ true
          → (0 < length parsed.1) × AreNumbered ((options.locator_height + 1) % 2 ^ 32) parsed.1)
      → Good (with_parsed remote r parsed)
  unfolding with_parsed Good
  with_parsed-Good remote r (status, headers) h = elim (Bool-cases (status_ok status)) [
    | inr e ↦ rw e (λ fine. absurd (cc fine))
    | inl e ↦
        let (nonzero, numbered) = h e in
        rw e (λ fine. record { some_header = nonzero; numbered = numbered; hashes = refl })
  ]

  with_headers-Good :
      (remote : Bytes) (version : ℕ) (found : Option DecodedMessage × Conversation)
      → Good (with_headers o options remote version found)
  unfolding with_headers
  with_headers-Good remote version (none, c) = unfold Good in tt
  with_headers-Good remote version (some message, c) =
      with_parsed-Good remote (blank_headers version c.trace)
        (parse_headers_payload o message.payload options.locator_height)
        (λ fine.
          let (count, offset, e, counted, numbered) =
            parse_headers_payload_outcome o message.payload options.locator_height fine in
          (omega (arith, counted), numbered))

  request-Good :
      (getheaders remote : Bytes) (found : Bool × Handshake × Conversation)
      → pending found.2 < fuel
      → Returns Good (
          request o fuel now local blank_headers
            (text "getheaders")
            getheaders
            (λ version c. next_command o fuel fuel (text "headers") c >>= λ read.
              ok (with_headers o options remote version read))
            found)
  unfolding request
  request-Good getheaders remote (false, h, c) less = unfold Good in tt
  request-Good getheaders remote (true, h, c) less =
      if-Returns Good (not (answer o c (text "getheaders") getheaders).0) _ _ (unfold Good in tt) (
        after_any Good
          (next_command o fuel fuel (text "headers") (answer o c (text "getheaders") getheaders).1)
          _ (next_command-Any o fuel fuel (text "headers") _ small small)
          (λ read. with_headers-Good remote h.version read))
    where
      small : pending (answer o c (text "getheaders") getheaders).1 < fuel
      small = omega (arith, pending-answer o c (text "getheaders") getheaders, less)

  attempt-Good :
      (getheaders : Bytes) (endpoint : Endpoint) (socket : Socket)
      → length socket.incoming < fuel
      → Returns Good (attempt_headers o fuel now local options getheaders endpoint socket)
  unfolding attempt_headers shake_hands
  attempt-Good getheaders endpoint socket less =
      Returns_bind Good (Within o fuel)
        (complete_version_handshake o fuel
          (encode_version_payload now endpoint.address options.port local) 0 (begin socket))
        _
        (handshake-Within o fuel (encode_version_payload now endpoint.address options.port local) 0
          (begin socket) less)
        (λ found small. request-Good getheaders endpoint.remote_address found small)

  after_attempt-Fetched :
      (rest : SignetHeadersResult → Outcome (Status × SignetHeadersResult))
      (a : Attempt SignetHeadersResult)
      → ((r : SignetHeadersResult) → Returns (FetchedIfFine options) (rest r))
      → Good a
      → Returns (FetchedIfFine options) (after_attempt rest a)
  unfolding after_attempt Good
  after_attempt-Fetched rest (try_next r) go h = go r
  after_attempt-Fetched rest (return_now status r) go h = h

  endpoints-Fetched :
      (getheaders message : Bytes) (endpoints : List Endpoint) (r : SignetHeadersResult)
      → All (IsBounded fuel) endpoints
      → Returns
          (FetchedIfFine options)
          (try_endpoints (attempt_headers o fuel now local options getheaders) message endpoints r)
  unfolding try_endpoints
  endpoints-Fetched getheaders message [] r h = λ fine. absurd (cc fine)
  endpoints-Fetched getheaders message (endpoint ∷ endpoints) r h =
      connected endpoint.socket h.0 (λ s. endpoints-Fetched getheaders message endpoints s h.1)
    where
      rest : SignetHeadersResult → Outcome (Status × SignetHeadersResult)
      rest = try_endpoints (attempt_headers o fuel now local options getheaders) message endpoints

      connected :
          (found : Option Socket)
          → ((s : Socket) → found ≡ some s → length s.incoming < fuel)
          → ((s : SignetHeadersResult) → Returns (FetchedIfFine options) (rest s))
          → Returns (FetchedIfFine options) (elim found [
            | none ↦ rest r
            | some socket ↦
                attempt_headers o fuel now local options getheaders endpoint socket
                >>= after_attempt rest
          ])
      connected none bounded go = go r
      connected (some socket) bounded go =
          Returns_bind (FetchedIfFine options) Good
            (attempt_headers o fuel now local options getheaders endpoint socket)
            (after_attempt rest) (attempt-Good getheaders endpoint socket (bounded socket refl))
            (λ a good. after_attempt-Fetched rest a go good)

  -- FetchHeaders returns, whatever the endpoints send, where the fuel is more than the bytes that each
  -- of them sends; a success hands out headers, at least one, at the heights after the locator's, modulo
  -- 2^32, with their hashes.
  pub fetch_headers_outcome :
      (endpoints : List Endpoint) (r : SignetHeadersResult)
      → All (IsBounded fuel) endpoints
      → Returns (FetchedIfFine options) (fetch_headers o fuel now local options (some endpoints) r)
  unfolding fetch_headers
  fetch_headers_outcome endpoints r bounded =
      requested (encode_get_headers_payload o options.locator_hash_hex)
    where
      requested :
          (found : Option Bytes)
          → Returns (FetchedIfFine options) (elim found [
            | none ↦ ok (failure invalid_argument (text "invalid signet locator hash"), r)
            | some getheaders ↦
                try_endpoints
                  (attempt_headers o fuel now local options getheaders)
                  (text "failed to complete live signet headers fetch")
                  endpoints
                  r
          ])
      requested none = λ fine. absurd (cc fine)
      requested (some getheaders) =
          endpoints-Fetched getheaders (text "failed to complete live signet headers fetch")
            endpoints r bounded
