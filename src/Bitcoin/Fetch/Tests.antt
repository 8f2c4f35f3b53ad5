-- ===== src/Bitcoin/Fetch/Tests.antt =====
-- FetchBlocks at a concrete cache.
use blocxxi.Base.{
  ℕ, zero, suc, ◌+◌, ◌%◌, ◌≡◌, refl, [], ◌∷◌, ◌++◌, Bytes, text, true, false, Option, none, some,
  Outcome, ok, length, replicate, bytes_eq,
}
use blocxxi.Core.Status.{success}
use blocxxi.Storage.File.Stores.{FileSystem, good}
use blocxxi.Bitcoin.Wire.{Outside}
use blocxxi.Bitcoin.Peer.{HostAddress}
use blocxxi.Bitcoin.Block.{parse_block_payload}
use blocxxi.Bitcoin.Block.Metadata.{BlockMetadata, parse_block_metadata}
use blocxxi.Bitcoin.Fetch.{SignetLiveOptions}
use blocxxi.Bitcoin.Fetch.Blocks.{SignetBlocksResult, no_blocks, fetch_blocks}
use blocxxi.Bitcoin.Fetch.Cached.{CacheFile, IsCached, IsFilled, hashes_in, fetch_blocks-cached}

-- A hash that counts.
abbrev counting : Outside
counting = record { sha256 = λ b. replicate 32 (length b % 256); read_hex = λ digits. some 7 }

abbrev localhost : HostAddress
localhost = record { is_v4 = true; bytes = 127 ∷ 0 ∷ 0 ∷ 1 ∷ [] }

abbrev options : SignetLiveOptions
options = record {
  host = text "seed";
  port = 38333;
  locator_hash_hex = replicate 64 b'0';
  locator_height = 7;
  state_root = text "/s";
}

-- A block of one transaction.
abbrev block_bytes : Bytes
block_bytes =
    replicate 80 0
    ++ (1 ∷ replicate 4 0
        ++ (1 ∷ replicate 36 0
            ++ (0 ∷ replicate 4 0 ++ (1 ∷ replicate 8 0 ++ (0 ∷ replicate 4 0)))))

-- Every file is there, and is that block.
abbrev full_cache : FileSystem ℕ
full_cache = record {
  join = λ a b. a ++ b'/' ∷ b;
  create_directories = λ f path. (true, f);
  write_file = λ f path s. (good, f + 1);
  read_file = λ f path. some block_bytes;
  exists = λ f path. true;
  list_files = λ f path. [];
}

abbrev metadata_or : BlockMetadata → Outcome (Option BlockMetadata) → BlockMetadata
metadata_or m (ok (some n)) = n
metadata_or m _ = m

abbrev no_metadata : BlockMetadata
no_metadata = record {
  block_hash_hex = [];
  previous_hash_hex = [];
  merkle_root_hex = [];
  version = 0;
  timestamp = 0;
  nonce = 0;
  transaction_count = 0;
  total_output_value = 0;
  merkle_root_matches = false;
  transactions = [];
}

abbrev twenties : ℕ → Bytes
twenties zero = []
twenties (suc n) = b'2' ∷ b'0' ∷ twenties n

abbrev cached_block : CacheFile
cached_block = record {
  hash = text "asked";
  payload = block_bytes;
  block = record { block_hash_hex = twenties 32; payload = block_bytes };
  metadata = metadata_or no_metadata (parse_block_metadata counting 3 block_bytes);
}

cached_block-IsCached : IsCached counting 3 0 localhost full_cache 0 options cached_block
unfolding parse_block_payload parse_block_metadata
cached_block-IsCached = record { present = refl; parsed = refl; described = refl }

-- The block that is handed out has another hash than the one that was asked for.
other_hash : bytes_eq cached_block.block.block_hash_hex cached_block.hash ≡ false
unfolding text bytes_eq
other_hash = refl

fetch_blocks-cached_example :
    (filled : SignetBlocksResult) × IsFilled counting 3 0 localhost full_cache 0 options
      (cached_block ∷ [])
      filled
    × (fetch_blocks counting 3 0 localhost full_cache options
          (hashes_in (cached_block ∷ []))
          none
          no_blocks
          0
        ≡ ok (success [], filled, 0))
fetch_blocks-cached_example =
    fetch_blocks-cached counting 3 0 localhost full_cache 0 options cached_block [] none no_blocks
      (unfold text in refl) (cached_block-IsCached, tt)
