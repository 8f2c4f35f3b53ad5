-- ===== src/Bitcoin/Fetch/Blocks.antt =====
-- FetchBlocks, its cache of files, and PersistFetchedBlocks in src/Blocxxi/Bitcoin/adapter.cpp. The
-- file system is a parameter.
use mathlib.Core.Option
use blocxxi.Base.{
  ℕ, zero, suc, ◌++◌, [], ◌∷◌, List, Bytes, text, not, ◌||◌, Option, none, some, length, is_empty,
  bytes_eq, ltb, ◌==◌, if◌then◌else◌, Outcome, ok, out_of_fuel, ◌>>=◌,
}
use blocxxi.Core.Status.{Status, status_ok, success, failure, io_error, invalid_argument, rejected}
use blocxxi.Storage.File.Stores.{FileSystem, not_opened}
use blocxxi.Bitcoin.Wire.{Outside}
use blocxxi.Bitcoin.Message.{DecodedMessage, encode_get_data_payload}
use blocxxi.Bitcoin.Block.{BlockBody, parse_block_payload}
use blocxxi.Bitcoin.Block.Metadata.{BlockMetadata, parse_block_metadata}
use blocxxi.Bitcoin.Peer.{Socket, HostAddress, Conversation, read_next_non_ping_message}
use blocxxi.Bitcoin.Fetch.{
  SignetLiveOptions, Endpoint, Attempt, try_next, return_now, try_endpoints, shake_hands, request,
}

pub record SignetBlocksResult : Type 0 where
  pub peer_address : Bytes
  pub protocol_version : ℕ
  pub command_trace : List Bytes
  pub blocks : List BlockBody
  pub metadata : List BlockMetadata

abbrev pub no_blocks : SignetBlocksResult
no_blocks = record {
  peer_address = [];
  protocol_version = 0;
  command_trace = [];
  blocks = [];
  metadata = [];
}

abbrev pub blank_blocks : ℕ → List Bytes → SignetBlocksResult
blank_blocks version trace = record no_blocks { protocol_version = version; command_trace = trace }

abbrev pub push_block : SignetBlocksResult → BlockBody → BlockMetadata → SignetBlocksResult
push_block r block metadata = record r {
  blocks = r.blocks ++ block ∷ [];
  metadata = r.metadata ++ metadata ∷ [];
}

-- A block message, from its parsed parts on; `rest` is the rest of the loop.
unfoldable pub with_block :
    SignetBlocksResult
    → Option BlockBody
    → Option BlockMetadata
    → (SignetBlocksResult → Outcome (Attempt SignetBlocksResult))
    → Outcome (Attempt SignetBlocksResult)
unfolding text
with_block r none metadata rest =
    ok (return_now (failure rejected (text "received malformed block payload")) r)
with_block r (some block) none rest =
    ok (return_now (failure rejected (text "received block with unreadable metadata")) r)
with_block r (some block) (some metadata) rest = rest (push_block r block metadata)

module _ (o : Outside) (fuel : ℕ) (now : ℕ) (local : HostAddress) where
  -- A message of the inner loop of FetchBlocks.
  unfoldable pub with_message :
      SignetBlocksResult
      → (SignetBlocksResult → Conversation → Outcome (Attempt SignetBlocksResult))
      → Option DecodedMessage × Conversation
      → Outcome (Attempt SignetBlocksResult)
  unfolding text bytes_eq parse_block_payload parse_block_metadata with_block
  with_message r rest (none, c) = ok (try_next (record r { command_trace = c.trace }))
  with_message r rest (some message, c) =
      let traced : SignetBlocksResult = record r { command_trace = c.trace } in
      let read = parse_block_metadata o fuel message.payload >>= λ metadata.
      with_block traced (parse_block_payload o message.payload) metadata (λ s. rest s c) in
      if bytes_eq message.command (text "block") then read else rest traced c

  -- The inner loop, until there are `count` blocks, and what follows it.
  unfoldable pub blocks_loop :
      ℕ → ℕ → Bytes → SignetBlocksResult → Conversation → Outcome (Attempt SignetBlocksResult)
  unfolding read_next_non_ping_message with_message
  blocks_loop zero count remote r c = out_of_fuel
  blocks_loop (suc rounds) count remote r c =
      let more =
        read_next_non_ping_message o fuel c >>= with_message r (blocks_loop rounds count remote) in
      if ltb (length r.blocks) count
      then more
      else if length r.blocks == count
      then ok (return_now (success []) (record r { peer_address = remote }))
      else ok (try_next r)

  -- A round of FetchBlocks, with a socket that was connected.
  unfoldable pub attempt_blocks :
      SignetLiveOptions → ℕ → Bytes → Endpoint → Socket → Outcome (Attempt SignetBlocksResult)
  unfolding shake_hands request blocks_loop text
  attempt_blocks options count getdata endpoint socket =
      shake_hands o fuel now local options.port endpoint socket
      >>= request o fuel now local blank_blocks (text "getdata") getdata (λ version c.
        blocks_loop fuel count endpoint.remote_address
          (record no_blocks { protocol_version = version; command_trace = c.trace }) c)

  module _ {F : Type 0} (fs : FileSystem F) where
    -- BlockCacheDirectory
    unfoldable pub block_cache_directory : Bytes → Bytes
    unfolding text
    block_cache_directory root = fs.join root (text "bitcoin-signet-blocks")

    unfoldable pub cache_path : Bytes → Bytes → Bytes
    unfolding text block_cache_directory
    cache_path root hash = fs.join (block_cache_directory root) (hash ++ text ".blk")

    -- A cached file: its block and metadata, if it is there and both can be read.
    unfoldable pub read_cached : Option Bytes → Outcome (Option (BlockBody × BlockMetadata))
    unfolding parse_block_payload parse_block_metadata
    read_cached none = ok none
    read_cached (some payload) = parse_block_metadata o fuel payload >>= λ metadata.
        ok (elim (parse_block_payload o payload) [
          | none ↦ none
          | some block ↦ Option.map (λ m. (block, m)) metadata
        ])

    -- The loop over the cache: the result with all the blocks, unless one is missing.
    unfoldable pub read_cache :
        F → Bytes → List Bytes → SignetBlocksResult → Outcome (Option SignetBlocksResult)
    unfolding cache_path read_cached
    read_cache f root [] r = ok (some r)
    read_cache f root (hash ∷ hashes) r =
        read_cached (fs.read_file f (cache_path root hash)) >>= λ found. elim found [
          | none ↦ ok none
          | some cached ↦ read_cache f root hashes (push_block r cached.0 cached.1)
        ]

    -- The loop of PersistFetchedBlocks, which ends at a file that cannot be opened.
    unfoldable pub persist_blocks : F → Bytes → List BlockBody → F
    unfolding cache_path
    persist_blocks f root [] = f
    persist_blocks f root (block ∷ blocks) =
        let output = fs.write_file f (cache_path root block.block_hash_hex) block.payload in
        let rest = persist_blocks output.1 root blocks in
        elim output.0 [ not_opened ↦ output.1 | _ ↦ rest ]

    -- PersistFetchedBlocks
    unfoldable pub persist_fetched_blocks : F → Bytes → SignetBlocksResult → F
    unfolding block_cache_directory persist_blocks
    persist_fetched_blocks f root r =
        let created = fs.create_directories f (block_cache_directory root) in
        let kept = persist_blocks created.1 root r.blocks in
        if is_empty root || is_empty r.blocks then f else if not created.0 then created.1 else kept

    -- FetchBlocks, from the answer of the endpoints on. Only a success has the blocks kept.
    unfoldable pub finish_blocks :
        F → Bytes → Status × SignetBlocksResult → Status × SignetBlocksResult × F
    unfolding persist_fetched_blocks
    finish_blocks f root (status, r) =
        if status_ok status then (status, r, persist_fetched_blocks f root r) else (status, r, f)

    -- FetchBlocks, behind the cache.
    unfoldable pub fetch_live :
        SignetLiveOptions
        → List Bytes
        → Option (List Endpoint)
        → SignetBlocksResult
        → F
        → Outcome (Status × SignetBlocksResult × F)
    unfolding text encode_get_data_payload attempt_blocks try_endpoints finish_blocks
    fetch_live options hashes endpoints r f = elim (encode_get_data_payload o hashes) [
      | none ↦ ok (failure invalid_argument (text "invalid block hash for getdata"), r, f)
      | some getdata ↦ elim endpoints [
        | none ↦ ok (failure io_error (text "failed to resolve signet host"), r, f)
        | some found ↦
            try_endpoints (attempt_blocks options (length hashes) getdata)
              (text "failed to complete live signet block retrieval") found r
            >>= λ result. ok (finish_blocks f options.state_root result)
      ]
    ]

    -- FetchBlocks, from the cache on.
    unfoldable pub with_cache :
        F
        → Outcome (Status × SignetBlocksResult × F)
        → Option SignetBlocksResult
        → Outcome (Status × SignetBlocksResult × F)
    unfolding text
    with_cache f live none = live
    with_cache f live (some r) =
        ok (success [], record r { command_trace = r.command_trace ++ text "cache" ∷ [] }, f)

    unfoldable pub fetch_blocks :
        SignetLiveOptions
        → List Bytes
        → Option (List Endpoint)
        → SignetBlocksResult
        → F
        → Outcome (Status × SignetBlocksResult × F)
    unfolding text read_cache with_cache fetch_live
    fetch_blocks options [] endpoints r f =
        ok (failure invalid_argument (text "at least one block hash is required"), r, f)
    fetch_blocks options (hash ∷ hashes) endpoints r f =
        let fresh : SignetBlocksResult = record no_blocks { peer_address = text "cache" } in
        let uncached = fetch_live options (hash ∷ hashes) endpoints fresh f in
        let cached =
          read_cache f options.state_root (hash ∷ hashes) fresh
          >>= with_cache f (fetch_live options (hash ∷ hashes) endpoints no_blocks f) in
        if is_empty options.state_root then uncached else cached
