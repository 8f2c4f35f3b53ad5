-- ===== src/Chain/Ports.antt =====
-- src/Blocxxi/Chain/kernel.h: the ports that the kernel calls, BlockStore, SnapshotStore and
-- BlockValidator, and the contract that a block store keeps.
pub mod Lookup
use blocxxi.Base.{ℕ, ◌≡◌, Option, none, some, List, [], ◌∷◌, ◌++◌, Bytes, All, if◌then◌else◌}
use blocxxi.Crypto.Hash.{IsHash, hash_eq}
use blocxxi.Core.Status.{Status, StatusCode, success, failure}
use blocxxi.Core.Primitives.{Block, BlockId, ChainSnapshot}

-- `S` is the state behind the shared pointer. `get_chain` is `none` if the code throws.
pub record BlockStore (S : Type 0) : Type 0 where
  pub put_block : S → Block → Status × S
  pub get_block : S → BlockId → Option Block
  pub get_chain : S → Option (List Block)

pub record SnapshotStore (T : Type 0) : Type 0 where
  pub save : T → ChainSnapshot → Status × T
  pub load : T → Option ChainSnapshot

abbrev pub BlockValidator : Type 0
BlockValidator = Block → ChainSnapshot → Status

-- The first block with the id.
unfoldable pub find_block : BlockId → List Block → Option Block
unfolding hash_eq
find_block id [] = none
find_block id (b ∷ bs) = if hash_eq b.header.id id then some b else find_block id bs

-- What the kernel asks of a block store, in the states that are valid: it behaves as the list of
-- the blocks that were put, in their order, and refuses a block whose id is there.
pub record IsBlockStore {S : Type 0} (IsValid : S → Type 0) (chain : S → List Block)
    (store : BlockStore S) : Type 0 where
  pub get_chain_lem : (s : S) → IsValid s → store.get_chain s ≡ some (chain s)
  pub get_block_lem :
      (s : S) (id : BlockId)
      → IsValid s
      → IsHash 32 id
      → store.get_block s id ≡ find_block id (chain s)
  pub put_block_new :
      (s : S) (b : Block)
      → IsValid s
      → IsHash 32 b.header.id
      → find_block b.header.id (chain s) ≡ none
      → (s' : S) × (store.put_block s b ≡ (success [], s'))
        × IsValid s'
        × (chain s' ≡ chain s ++ b ∷ [])
  pub put_block_duplicate :
      (s : S) (b c : Block)
      → IsValid s
      → IsHash 32 b.header.id
      → find_block b.header.id (chain s) ≡ some c
      → (message : Bytes) × (store.put_block s b ≡ (failure StatusCode.duplicate message, s))

-- A snapshot store gives back what was saved last, and saving does not fail.
pub record IsSnapshotStore {T : Type 0} (store : SnapshotStore T) : Type 0 where
  pub save_lem :
      (t : T) (s : ChainSnapshot)
      → (t' : T) × (store.save t s ≡ (success [], t')) × (store.load t' ≡ some s)
