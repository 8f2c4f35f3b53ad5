-- ===== src/Chain/Kernel/Runs.antt =====
-- The calls of a kernel, and a sequence of them.
use blocxxi.Base.{List, [], ◌∷◌, ℤ, Bytes}
use blocxxi.Crypto.Hash.{IsHash}
use blocxxi.Core.Status.{Status}
use blocxxi.Core.Primitives.{Block, Transaction}
use blocxxi.Chain.Ports.{BlockStore, SnapshotStore}
use blocxxi.Chain.Kernel.{
  Kernel, validate, submit_transaction, bootstrap, commit_pending, commit_block,
}

-- A call of the kernel, with the time at which it reads the clock.
pub data Call : Type 0 where
  submits : Transaction → Call
  commits : Block → Call
  commits_pending : ℤ → Bytes → Call
  bootstraps : ℤ → Call

-- The ids that a caller passes are of type Hash256.
abbrev pub IsTyped : Call → Type 0
IsTyped (commits b) = IsHash 32 b.header.id
IsTyped _ = Unit

abbrev pub AreTyped : List Call → Type 0
AreTyped [] = Unit
AreTyped (c ∷ cs) = IsTyped c × AreTyped cs

module _ {S T : Type 0} (block_store : BlockStore S) (snapshot_store : SnapshotStore T) where
  unfoldable pub step : Kernel S T → Call → Status × Kernel S T
  step k (submits t) = submit_transaction k t
  step k (commits b) = commit_block block_store snapshot_store validate k b
  step k (commits_pending now source) =
      commit_pending block_store snapshot_store validate now k source
  step k (bootstraps now) = bootstrap block_store snapshot_store validate now k

  unfoldable pub run : Kernel S T → List Call → Kernel S T
  unfolding step
  run k [] = k
  run k (c ∷ cs) = run (step k c).1 cs
