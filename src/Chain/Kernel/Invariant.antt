-- ===== src/Chain/Kernel/Invariant.antt =====
-- The kernel's invariant over any stores that keep their contracts: what the kernel caches is the
-- summary of what the block store holds.
use blocxxi.Base.{◌≡◌, ◌↔◌, List, [], ◌∷◌, ◌++◌, none, some, if◌then◌else◌, All}
use blocxxi.Crypto.Hash.{IsHash}
use blocxxi.Core.Primitives.{Block, Transaction, empty_id}
use blocxxi.Chain.Ports.{BlockStore, SnapshotStore, IsBlockStore, IsSnapshotStore}
use blocxxi.Chain.Ports.Lookup.{HaveDistinctIds}
use blocxxi.Chain.Kernel.{Kernel, remove_committed}
use blocxxi.Chain.Kernel.Ledger.{IsLinked, snapshot_of}
use blocxxi.Chain.Kernel.Pending.{HasDistinctIds, IsIn, IsFresh}

module _ {S T : Type 0} {IsValid : S → Type 0} {blocks_in : S → List Block}
    {block_store : BlockStore S} {snapshot_store : SnapshotStore T}
    (blocks_law : IsBlockStore IsValid blocks_in block_store)
    (snapshots_law : IsSnapshotStore snapshot_store) where
  abbrev pub chain_of : Kernel S T → List Block
  chain_of k = blocks_in k.blocks

  pub record Inv (k : Kernel S T) : Type 0 where
    pub valid : IsValid k.blocks
    pub hashed : All (λ b. IsHash 32 b.header.id) (chain_of k)
    pub unique : HaveDistinctIds (chain_of k)
    pub linked : IsLinked empty_id 0 (chain_of k)
    pub summary : k.snapshot ≡ snapshot_of (chain_of k)
    pub saved :
        snapshot_store.load k.snapshots
        ≡ (if k.snapshot.bootstrapped then some k.snapshot else none)
    pub distinct : HasDistinctIds k.pending

  -- What a successful `CommitBlock` has done.
  pub record Committed (k : Kernel S T) (b : Block) (k' : Kernel S T) : Type 0 where
    pub inv : Inv k'
    pub chain : chain_of k' ≡ chain_of k ++ b ∷ []
    pub pending : k'.pending ≡ remove_committed b.transactions k.pending
    -- What stays pending is what was pending and has the id of no transaction of the block.
    pub kept : (t : Transaction) → IsIn t k'.pending ↔ (IsIn t k.pending × IsFresh t b.transactions)
    pub config : k'.config ≡ k.config
