-- ===== src/Storage/Memory.antt =====
-- src/Blocxxi/Storage/in_memory_store.cpp: the stores that keep blocks and snapshots in memory.
pub mod Contract
use blocxxi.Base.{List, [], ◌∷◌, ◌++◌, Bytes, bytes_eq, text, Option, none, some, if◌then◌else◌}
use blocxxi.Crypto.Hash.{to_hex}
use blocxxi.Core.Status.{Status, StatusCode, success, failure, duplicate}
use blocxxi.Core.Primitives.{Block, BlockId, ChainSnapshot}
use blocxxi.Chain.Ports.{BlockStore, SnapshotStore}

-- `blocks_` as an association list, newest first, and `order_` in the order of insertion.
pub record MemoryBlocks : Type 0 where
  pub blocks : List (Bytes × Block)
  pub order : List Bytes

-- std::map::find
unfoldable pub find : Bytes → List (Bytes × Block) → Option Block
unfolding bytes_eq
find key [] = none
find key ((k, b) ∷ entries) = if bytes_eq k key then some b else find key entries

unfoldable pub put_block : MemoryBlocks → Block → Status × MemoryBlocks
unfolding find to_hex
put_block s block =
    let key = to_hex block.header.id in
    elim (find key s.blocks) [
      | some _ ↦ (failure duplicate (text "block already exists in memory store"), s)
      | none ↦
          (success [], record s { blocks = (key, block) ∷ s.blocks; order = s.order ++ key ∷ [] })
    ]

unfoldable pub get_block : MemoryBlocks → BlockId → Option Block
unfolding find to_hex
get_block s id = find (to_hex id) s.blocks

-- The loop of `GetChain`; `at` throws on a missing key.
unfoldable pub blocks_at : List (Bytes × Block) → List Bytes → Option (List Block)
unfolding find
blocks_at blocks [] = some []
blocks_at blocks (key ∷ order) = elim (find key blocks) [
  | none ↦ none
  | some b ↦ elim (blocks_at blocks order) [ none ↦ none | some chain ↦ some (b ∷ chain) ]
]

unfoldable pub get_chain : MemoryBlocks → Option (List Block)
unfolding blocks_at
get_chain s = blocks_at s.blocks s.order

abbrev pub empty_blocks : MemoryBlocks
empty_blocks = record { blocks = []; order = [] }

-- MakeInMemoryBlockStore
abbrev pub memory_blocks : BlockStore MemoryBlocks
memory_blocks = record { put_block = put_block; get_block = get_block; get_chain = get_chain }

unfoldable pub save : Option ChainSnapshot → ChainSnapshot → Status × Option ChainSnapshot
save s snapshot = (success [], some snapshot)

unfoldable pub load : Option ChainSnapshot → Option ChainSnapshot
load s = s

-- MakeInMemorySnapshotStore
abbrev pub memory_snapshots : SnapshotStore (Option ChainSnapshot)
memory_snapshots = record { save = save; load = load }
