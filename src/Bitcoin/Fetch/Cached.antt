-- ===== src/Bitcoin/Fetch/Cached.antt =====
-- FetchBlocks at a full cache.

use mathlib.Core.List.{map, append_assoc, append-nil, map-append}
use blocxxi.Base.{
  ap, sym, ◌∙◌, ltb, length, Bool-cases, inl, inr, ℕ, ◌≡◌, refl, [], ◌∷◌, ◌++◌, List, Bytes, text,
  false, Option, none, some, All, is_empty, ok,
}
use blocxxi.Core.Status.{success}
use blocxxi.Storage.File.Stores.{FileSystem}
use blocxxi.Bitcoin.Wire.{Outside}
use blocxxi.Bitcoin.Peer.{HostAddress}
use blocxxi.Bitcoin.Block.{BlockBody, parse_block_payload}
use blocxxi.Bitcoin.Block.Metadata.{BlockMetadata, parse_block_metadata}
use blocxxi.Bitcoin.Fetch.{SignetLiveOptions, Endpoint}
use blocxxi.Bitcoin.Fetch.Blocks.{
  SignetBlocksResult, no_blocks, push_block, cache_path, block_cache_directory, read_cached,
  read_cache, with_cache, fetch_blocks,
}

-- A file of the cache: the hash it is named by, and what is in it.
pub record CacheFile : Type 0 where
  pub hash : Bytes
  pub payload : Bytes
  pub block : BlockBody
  pub metadata : BlockMetadata

abbrev pub hashes_in : List CacheFile → List Bytes
hashes_in files = map (λ (file : CacheFile). file.hash) files

abbrev pub payloads_in : List CacheFile → List Bytes
payloads_in files = map (λ (file : CacheFile). file.payload) files

abbrev pub metadata_in : List CacheFile → List BlockMetadata
metadata_in files = map (λ (file : CacheFile). file.metadata) files

abbrev pub payloads_of : List BlockBody → List Bytes
payloads_of blocks = map (λ (block : BlockBody). block.payload) blocks

push_files : List CacheFile → SignetBlocksResult → SignetBlocksResult
push_files [] r = r
push_files (file ∷ files) r = push_files files (push_block r file.block file.metadata)

payload_of : Option BlockBody → Bytes
payload_of none = []
payload_of (some block) = block.payload

payload_kept :
    (o : Outside) (payload : Bytes) (block : BlockBody)
    → parse_block_payload o payload ≡ some block
    → block.payload ≡ payload
unfolding parse_block_payload payload_of
payload_kept o payload block h = elim (Bool-cases (ltb (length payload) 80)) [
  | inl e ↦ absurd (cc (rw e at h))
  | inr e ↦ sym (ap payload_of (rw e at h))
]

module _ (o : Outside) (fuel : ℕ) (now : ℕ) (local : HostAddress) {F : Type 0} (fs : FileSystem F)
    (f : F) (options : SignetLiveOptions) where
  -- The file is there, and a block can be read from it.
  pub record IsCached (file : CacheFile) : Type 0 where
    pub present :
        fs.read_file f (
          fs.join
            (fs.join options.state_root (text "bitcoin-signet-blocks"))
            (file.hash ++ text ".blk"))
        ≡ some file.payload
    pub parsed : parse_block_payload o file.payload ≡ some file.block
    pub described : parse_block_metadata o fuel file.payload ≡ ok (some file.metadata)

  -- What FetchBlocks hands out of the cache.
  pub record IsFilled (files : List CacheFile) (r : SignetBlocksResult) : Type 0 where
    pub payloads : payloads_of r.blocks ≡ payloads_in files
    pub metadata : r.metadata ≡ metadata_in files
    pub peer : r.peer_address ≡ text "cache"
    pub trace : r.command_trace ≡ text "cache" ∷ []

  read_cache-files :
      (files : List CacheFile) (r : SignetBlocksResult)
      → All IsCached files
      → read_cache o fuel now local fs f options.state_root (hashes_in files) r
        ≡ ok (some (push_files files r))
  unfolding read_cache read_cached cache_path block_cache_directory push_files
  read_cache-files [] r h = refl
  read_cache-files (file ∷ files) r h = rw h.0.present (
      rw h.0.described
        (rw h.0.parsed (read_cache-files files (push_block r file.block file.metadata) h.1)))

  payloads_pushed :
      (files : List CacheFile) (r : SignetBlocksResult)
      → All IsCached files
      → payloads_of (push_files files r).blocks ≡ payloads_of r.blocks ++ payloads_in files
  unfolding push_files
  payloads_pushed [] r h = sym (append-nil (payloads_of r.blocks))
  payloads_pushed (file ∷ files) r h =
      payloads_pushed files (push_block r file.block file.metadata) h.1
      ∙ ap (λ ps. ps ++ payloads_in files)
          (map-append (λ (block : BlockBody). block.payload) r.blocks (file.block ∷ [])
            ∙ ap (λ p. payloads_of r.blocks ++ p ∷ [])
                (payload_kept o file.payload file.block h.0.parsed))
      ∙ append_assoc (payloads_of r.blocks) (file.payload ∷ []) (payloads_in files)

  metadata_pushed :
      (files : List CacheFile) (r : SignetBlocksResult)
      → (push_files files r).metadata ≡ r.metadata ++ metadata_in files
  unfolding push_files
  metadata_pushed [] r = sym (append-nil r.metadata)
  metadata_pushed (file ∷ files) r =
      metadata_pushed files (push_block r file.block file.metadata)
      ∙ append_assoc r.metadata (file.metadata ∷ []) (metadata_in files)

  peer_pushed :
      (files : List CacheFile) (r : SignetBlocksResult)
      → ((push_files files r).peer_address ≡ r.peer_address)
        × ((push_files files r).command_trace ≡ r.command_trace)
  unfolding push_files
  peer_pushed [] r = (refl, refl)
  peer_pushed (file ∷ files) r = peer_pushed files (push_block r file.block file.metadata)

  -- Where the cache has, under the name of each of the hashes, at least one, a file from which a block
  -- and its metadata can be read, FetchBlocks succeeds with the payloads of these files, in their order,
  -- and their metadata, whatever the hashes of the blocks are, names the cache as the peer and in the
  -- trace, asks no endpoint, and leaves the files as they were.
  pub fetch_blocks-cached :
      (file : CacheFile) (files : List CacheFile) (endpoints : Option (List Endpoint))
      (r : SignetBlocksResult)
      → is_empty options.state_root ≡ false
      → All IsCached (file ∷ files)
      → (filled : SignetBlocksResult) × IsFilled (file ∷ files) filled
        × (fetch_blocks o fuel now local fs options (hashes_in (file ∷ files)) endpoints r f
            ≡ ok (success [], filled, f))
  unfolding fetch_blocks with_cache
  fetch_blocks-cached file files endpoints r kept h =
      let fresh : SignetBlocksResult = record no_blocks { peer_address = text "cache" } in
      let pushed = push_files (file ∷ files) fresh in
      (
        record pushed { command_trace = pushed.command_trace ++ text "cache" ∷ [] },
        record {
          payloads = payloads_pushed (file ∷ files) fresh h;
          metadata = metadata_pushed (file ∷ files) fresh;
          peer = (peer_pushed (file ∷ files) fresh).0;
          trace = ap (λ t. t ++ text "cache" ∷ []) (peer_pushed (file ∷ files) fresh).1;
        },
        rw kept (rw (read_cache-files (file ∷ files) fresh h) refl),
      )
