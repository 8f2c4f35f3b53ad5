-- ===== src/Bitcoin/Headers.antt =====
-- HeaderSyncAdapter in src/Blocxxi/Bitcoin/adapter.h and adapter.cpp. The node is a parameter: the
-- calls that the adapter makes, over the state of the node.
pub mod Chained
pub mod OnNode
use blocxxi.Base.{
  ℕ, ◌+◌, ◌%◌, ◌^◌, ◌++◌, [], ◌∷◌, List, Bytes, text, to_string, Bool, true, false, Option, none,
  some, not, ◌&&◌, if◌then◌else◌, ltb, ◌==◌, is_empty, bytes_eq, bytes_lt,
}
use blocxxi.Core.Status.{Status, StatusCode, success, failure, status_ok}
use blocxxi.Core.Primitives.{Transaction, from_text}
use blocxxi.Bitcoin.Wire.{Outside, hash_bytes_from_hex}
use blocxxi.Bitcoin.Target.{signet_pow_limit_hex, target_from_compact}

pub data Network : Type 0 where
  mainnet testnet signet regtest : Network

pub record Options : Type 0 where
  pub network : Network
  pub peer_hint : Bytes
  pub header_sync_only : Bool

pub record Header : Type 0 where
  pub height : ℕ
  pub hash_hex : Bytes
  pub previous_hash_hex : Bytes
  pub merkle_root_hex : Bytes
  pub version : ℕ
  pub timestamp : ℕ
  pub bits : ℕ
  pub nonce : ℕ

-- `bound` is node_ != nullptr.
pub record HeaderSyncAdapter : Type 0 where
  pub options : Options
  pub bound : Bool
  pub imported_heights : List ℕ
  pub last_header : Option Header

-- The calls of a node.
pub record NodeCalls (S : Type 0) : Type 0 where
  pub attach_discovery : S → Bytes → Status × S
  pub attach_adapter : S → Bytes → Status × S
  pub submit_transaction : S → Transaction → Status × S
  pub commit_pending : S → Bytes → Status × S

unfoldable pub network_name : Network → Bytes
unfolding text
network_name mainnet = text "mainnet"
network_name testnet = text "testnet"
network_name signet = text "signet"
network_name regtest = text "regtest"

unfoldable pub header_mode : Options → Bytes
unfolding text
header_mode options = if options.header_sync_only then text "headers-only" else text "full"

unfoldable pub header_metadata : Options → Bytes
unfolding text network_name header_mode
header_metadata options =
    text "network="
    ++ network_name options.network
    ++ text ";mode="
    ++ header_mode options
    ++ (if is_empty options.peer_hint then [] else text ";peer_hint=" ++ options.peer_hint)

unfoldable pub adapter_name : Options → Bytes
unfolding text network_name header_mode
adapter_name options =
    text "bitcoin.header-sync:" ++ network_name options.network ++ (b':' ∷ header_mode options)

unfoldable pub bootstrap_hint : Options → Bytes
unfolding text
bootstrap_hint options = text "bitcoin.peer:" ++ options.peer_hint

-- The tests of ValidateHeader against the header before.
unfoldable pub validate_link : Header → Option Header → Status
unfolding text bytes_eq
validate_link header none = success []
validate_link header (some previous) =
    if not (header.height == (previous.height + 1) % 2 ^ 32)
    then failure StatusCode.rejected (text "headers must advance by exactly one height")
    else if not (bytes_eq header.previous_hash_hex previous.hash_hex)
    then failure StatusCode.rejected (text "header sequence is not continuous")
    else success []

-- The difficulty stays between adjacent headers, but at every 2016th.
unfoldable pub changes_difficulty : Header → Option Header → Bool
changes_difficulty header none = false
changes_difficulty header (some previous) =
    not (previous.bits == 0)
    && not (previous.height % 2016 == 0)
    && not (header.bits == previous.bits)

-- The tests of ValidateHeader for bits that are not 0, from the hash on.
unfoldable pub validate_hash : Header → Option Header → Bytes → Option Bytes → Status
unfolding text bytes_lt changes_difficulty
validate_hash header previous target none =
    failure StatusCode.invalid_argument (text "header hash must be 32 bytes")
validate_hash header previous target (some hash) =
    if bytes_lt target hash
    then failure StatusCode.rejected (text "header proof of work does not satisfy target")
    else if changes_difficulty header previous
    then failure StatusCode.rejected
        (text "unexpected signet difficulty transition between adjacent headers")
    else success []

unfoldable pub validate_work : Outside → Header → Option Header → Option Bytes → Status
unfolding text validate_hash hash_bytes_from_hex
validate_work o header previous none =
    failure StatusCode.rejected (text "header bits do not derive a valid target")
validate_work o header previous (some target) =
    validate_hash header previous target (hash_bytes_from_hex o header.hash_hex)

unfoldable pub validate_header : Outside → Header → Option Header → Status
unfolding text validate_link validate_work target_from_compact signet_pow_limit_hex
validate_header o header previous =
    let link = validate_link header previous in
    if is_empty header.hash_hex
    then failure StatusCode.invalid_argument (text "header hash is required")
    else if ltb 0 header.height && is_empty header.previous_hash_hex
    then failure StatusCode.invalid_argument (text "non-genesis headers require a previous hash")
    else if not (status_ok link)
    then link
    else if not (header.bits == 0)
    then validate_work o header previous (target_from_compact o header.bits signet_pow_limit_hex)
    else success []

-- The first loop of SubmitHeaders.
unfoldable pub validate_all : Outside → Option Header → List Header → Status
unfolding validate_header
validate_all o previous [] = success []
validate_all o previous (header ∷ headers) =
    let rest = validate_all o (some header) headers in
    let status = validate_header o header previous in
    if not (status_ok status) then status else rest

unfoldable pub header_payload : Header → Bytes
unfolding text to_string
header_payload header =
    text "height="
    ++ to_string header.height
    ++ text ";hash="
    ++ header.hash_hex
    ++ text ";previous="
    ++ header.previous_hash_hex
    ++ text ";version="
    ++ to_string header.version

unfoldable pub header_transaction : Options → Header → Transaction
unfolding text header_payload header_metadata from_text
header_transaction options header =
    from_text (text "bitcoin.header") (header_payload header) (header_metadata options)

abbrev pub heights : List Header → List ℕ
heights [] = []
heights (header ∷ headers) = header.height ∷ heights headers

-- headers.back()
abbrev pub last_of : Header → List Header → Header
last_of header [] = header
last_of header (next ∷ headers) = last_of next headers

module _ {S : Type 0} (node : NodeCalls S) where
  unfoldable pub bind : HeaderSyncAdapter → S → Status × HeaderSyncAdapter × S
  unfolding bootstrap_hint adapter_name
  bind adapter s =
      let bound : HeaderSyncAdapter = record adapter { bound = true } in
      let discovery = node.attach_discovery s (bootstrap_hint adapter.options) in
      let skip = is_empty adapter.options.peer_hint in
      let attached =
        node.attach_adapter (if skip then s else discovery.1) (adapter_name adapter.options) in
      if not skip && not (status_ok discovery.0)
      then (discovery.0, bound, discovery.1)
      else (attached.0, bound, attached.1)

  -- One header: the transaction, and a block for it.
  unfoldable pub import_header : Options → S → Header → Status × S
  unfolding header_transaction network_name text
  import_header options s header =
      let submitted = node.submit_transaction s (header_transaction options header) in
      let committed =
        node.commit_pending submitted.1 (text "bitcoin:" ++ network_name options.network) in
      if not (status_ok submitted.0) then submitted else committed

  -- The second loop of SubmitHeaders.
  unfoldable pub import_all : Options → S → List Header → Status × S
  unfolding import_header
  import_all options s [] = (success [], s)
  import_all options s (header ∷ headers) =
      let imported = import_header options s header in
      let rest = import_all options imported.1 headers in
      if not (status_ok imported.0) then imported else rest

  -- SubmitHeaders from the second loop on, for headers that passed the first.
  unfoldable pub record_import :
      HeaderSyncAdapter → Header → List Header → Status × S → Status × HeaderSyncAdapter × S
  record_import adapter header headers (status, s) =
      if not (status_ok status) then (status, adapter, s) else (
        success [],
        record adapter {
          imported_heights = adapter.imported_heights ++ heights (header ∷ headers);
          last_header = some (last_of header headers);
        },
        s,
      )

  unfoldable pub submit_headers :
      Outside → HeaderSyncAdapter → S → List Header → Status × HeaderSyncAdapter × S
  unfolding text validate_all import_all record_import
  submit_headers o adapter s [] =
      if not adapter.bound
      then (failure StatusCode.rejected (text "adapter must be bound to a node first"), adapter, s)
      else (
        failure StatusCode.invalid_argument (text "at least one header is required"),
        adapter,
        s,
      )
  submit_headers o adapter s (header ∷ headers) =
      let valid = validate_all o adapter.last_header (header ∷ headers) in
      let imported =
        record_import adapter header headers (import_all adapter.options s (header ∷ headers)) in
      if not adapter.bound
      then (failure StatusCode.rejected (text "adapter must be bound to a node first"), adapter, s)
      else if not (status_ok valid)
      then (valid, adapter, s)
      else imported
