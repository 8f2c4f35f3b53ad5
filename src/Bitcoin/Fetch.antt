-- ===== src/Bitcoin/Fetch.antt =====
-- SignetLiveClient in src/Blocxxi/Bitcoin/adapter.h and adapter.cpp: what both calls share, and
-- FetchHeaders. What the resolver finds is a parameter, and so is the time.
pub mod Outcomes
pub mod Blocks
pub mod Cached
mod Tests
use mathlib.Core.Option
use mathlib.Core.List.{map}
use blocxxi.Base.{
  ℕ, zero, suc, ◌+◌, ◌%◌, ◌^◌, ◌++◌, [], ◌∷◌, List, Bytes, text, Bool, true, false, not, ◌&&◌, ◌||◌,
  Option, none, some, length, take, drop, is_empty, bytes_eq, ltb, ◌==◌, if◌then◌else◌, Outcome, ok,
  out_of_fuel, ◌>>=◌,
}
use blocxxi.Base.Scan.{lines, stoull}
use blocxxi.Core.Status.{
  Status, StatusCode, status_ok, success, failure, io_error, invalid_argument, rejected,
}
use blocxxi.Storage.File.Stores.{FileSystem, Written, not_opened}
use blocxxi.Bitcoin.Wire.{Outside}
use blocxxi.Bitcoin.Message.{DecodedMessage, encode_get_headers_payload, encode_get_data_payload}
use blocxxi.Bitcoin.Headers.{Header}
use blocxxi.Bitcoin.Sync.{parse_headers_payload}
use blocxxi.Bitcoin.Block.{BlockBody, parse_block_payload}
use blocxxi.Bitcoin.Block.Metadata.{BlockMetadata, parse_block_metadata}
use blocxxi.Bitcoin.Peer.{
  Socket, HostAddress, Conversation, Handshake, answer, encode_version_payload,
  read_next_non_ping_message, complete_version_handshake,
}

pub record SignetLiveOptions : Type 0 where
  pub host : Bytes
  pub port : ℕ
  pub locator_hash_hex : Bytes
  pub locator_height : ℕ
  pub state_root : Bytes

-- An endpoint that was resolved: its address as text and as bytes, and its socket, if it connects.
pub record Endpoint : Type 0 where
  pub remote_address : Bytes
  pub address : HostAddress
  pub socket : Option Socket

pub record SignetHeadersResult : Type 0 where
  pub peer_address : Bytes
  pub protocol_version : ℕ
  pub command_trace : List Bytes
  pub header_hashes : List Bytes
  pub headers : List Header

abbrev pub no_headers : SignetHeadersResult
no_headers = record {
  peer_address = [];
  protocol_version = 0;
  command_trace = [];
  header_hashes = [];
  headers = [];
}

-- How the round for an endpoint ends, with the result so far: the next one is tried, or the call
-- returns.
pub data Attempt (R : Type 0) : Type 0 where
  try_next : R → Attempt R
  return_now : Status → R → Attempt R

-- A conversation over a socket.
abbrev pub begin : Socket → Conversation
begin socket = record { socket = socket; trace = [] }

-- The inner loop of FetchHeaders: the next message with the command `wanted`.
unfoldable pub after_other :
    (Conversation → Outcome (Option DecodedMessage × Conversation))
    → Bytes
    → Option DecodedMessage × Conversation
    → Outcome (Option DecodedMessage × Conversation)
unfolding bytes_eq
after_other rest wanted (none, c) = ok (none, c)
after_other rest wanted (some message, c) =
    if bytes_eq message.command wanted then ok (some message, c) else rest c

unfoldable pub next_command :
    Outside → ℕ → ℕ → Bytes → Conversation → Outcome (Option DecodedMessage × Conversation)
unfolding read_next_non_ping_message after_other
next_command o inner zero wanted c = out_of_fuel
next_command o inner (suc fuel) wanted c =
    read_next_non_ping_message o inner c >>= after_other (next_command o inner fuel wanted) wanted

abbrev pub hashes_of : List Header → List Bytes
hashes_of headers = map (λ (h : Header). h.hash_hex) headers

-- The end of a round of FetchHeaders, from the parsed payload on.
unfoldable pub with_parsed :
    Bytes → SignetHeadersResult → Status × List Header → Attempt SignetHeadersResult
with_parsed remote r (status, headers) =
    let filled : SignetHeadersResult = record r {
      header_hashes = hashes_of headers;
      headers = headers;
    } in
    if not (status_ok status)
    then return_now status filled
    else return_now (success []) (record filled { peer_address = remote })

unfoldable pub with_headers :
    Outside
    → SignetLiveOptions
    → Bytes
    → ℕ
    → Option DecodedMessage × Conversation
    → Attempt SignetHeadersResult
unfolding parse_headers_payload with_parsed
with_headers o options remote version (none, c) =
    try_next (record no_headers { protocol_version = version; command_trace = c.trace })
with_headers o options remote version (some message, c) =
    with_parsed remote (record no_headers { protocol_version = version; command_trace = c.trace })
      (parse_headers_payload o message.payload options.locator_height)

abbrev pub blank_headers : ℕ → List Bytes → SignetHeadersResult
blank_headers version trace = record no_headers {
  protocol_version = version;
  command_trace = trace;
}

-- The loop over the endpoints; `rest` is what comes behind.
unfoldable pub after_attempt :
    {R : Type 0} → (R → Outcome (Status × R)) → Attempt R → Outcome (Status × R)
after_attempt rest (try_next r) = rest r
after_attempt rest (return_now status r) = ok (status, r)

unfoldable pub try_endpoints :
    {R : Type 0}
    → (Endpoint → Socket → Outcome (Attempt R))
    → Bytes
    → List Endpoint
    → R
    → Outcome (Status × R)
unfolding after_attempt
try_endpoints attempt message [] r = ok (failure io_error message, r)
try_endpoints attempt message (endpoint ∷ endpoints) r = elim endpoint.socket [
  | none ↦ try_endpoints attempt message endpoints r
  | some socket ↦
      attempt endpoint socket >>= after_attempt (try_endpoints attempt message endpoints)
]

module _ (o : Outside) (fuel : ℕ) (now : ℕ) (local : HostAddress) where
  -- CompleteVersionHandshake with an endpoint.
  unfoldable pub shake_hands : ℕ → Endpoint → Socket → Outcome (Bool × Handshake × Conversation)
  unfolding complete_version_handshake encode_version_payload
  shake_hands port endpoint socket =
      complete_version_handshake o fuel (encode_version_payload now endpoint.address port local) 0
        (begin socket)

  -- The request, if the handshake was completed, and what follows it.
  unfoldable pub request :
      {R : Type 0}
      → (ℕ → List Bytes → R)
      → Bytes
      → Bytes
      → (ℕ → Conversation → Outcome (Attempt R))
      → Bool × Handshake × Conversation
      → Outcome (Attempt R)
  unfolding answer
  request blank command payload next (false, h, c) = ok (try_next (blank h.version c.trace))
  request blank command payload next (true, h, c) =
      let sent = answer o c command payload in
      let rest = next h.version sent.1 in
      if not sent.0 then ok (try_next (blank h.version c.trace)) else rest

  -- A round of FetchHeaders, with a socket that was connected.
  unfoldable pub attempt_headers :
      SignetLiveOptions → Bytes → Endpoint → Socket → Outcome (Attempt SignetHeadersResult)
  unfolding shake_hands request next_command with_headers text
  attempt_headers options getheaders endpoint socket =
      shake_hands options.port endpoint socket
      >>= request blank_headers (text "getheaders") getheaders (λ version c.
        next_command o fuel fuel (text "headers") c >>= λ found.
        ok (with_headers o options endpoint.remote_address version found))

  -- FetchHeaders, at what was resolved.
  unfoldable pub fetch_headers :
      SignetLiveOptions
      → Option (List Endpoint)
      → SignetHeadersResult
      → Outcome (Status × SignetHeadersResult)
  unfolding text encode_get_headers_payload attempt_headers try_endpoints
  fetch_headers options none r = ok (failure io_error (text "failed to resolve signet host"), r)
  fetch_headers options (some endpoints) r =
      elim (encode_get_headers_payload o options.locator_hash_hex) [
        | none ↦ ok (failure invalid_argument (text "invalid signet locator hash"), r)
        | some getheaders ↦
            try_endpoints (attempt_headers options getheaders)
              (text "failed to complete live signet headers fetch") endpoints r
      ]
