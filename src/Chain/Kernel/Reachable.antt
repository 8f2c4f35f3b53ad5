-- ===== src/Chain/Kernel/Reachable.antt =====
-- What holds after any sequence of calls.
use blocxxi.Base.{List, [], ◌∷◌}
use blocxxi.Core.Primitives.{Block, TransactionId}
use blocxxi.Chain.Ports.{BlockStore, SnapshotStore, IsBlockStore, IsSnapshotStore}
use blocxxi.Chain.Kernel.{Kernel}
use blocxxi.Chain.Kernel.Invariant.{Inv}
use blocxxi.Chain.Kernel.Runs.{Call, AreTyped, step, run}
use blocxxi.Chain.Kernel.Moves.{IsKnown, step-Move, Move-Inv, Move-IsKnown}

module _ {S T : Type 0} {IsValid : S → Type 0} {blocks_in : S → List Block}
    {block_store : BlockStore S} {snapshot_store : SnapshotStore T}
    (blocks_law : IsBlockStore IsValid blocks_in block_store)
    (snapshots_law : IsSnapshotStore snapshot_store) where
  -- Where it holds before, the invariant holds after any calls, whatever they return. The ids of the
  -- blocks that are passed are hashes of 32 bytes.
  pub run-Inv :
      (k : Kernel S T) (calls : List Call)
      → AreTyped calls
      → Inv blocks_law snapshots_law k
      → Inv blocks_law snapshots_law (run block_store snapshot_store k calls)
  unfolding run
  run-Inv k [] typed inv = inv
  run-Inv k (c ∷ cs) typed inv =
      run-Inv (step block_store snapshot_store k c).1 cs typed.1
        (Move-Inv blocks_law snapshots_law (step-Move blocks_law snapshots_law k c inv typed.0) inv)

  -- On a kernel in its invariant, with block ids of 32 bytes, no transaction is lost: one that is pending or committed is, after any calls, pending or
  -- committed, under the same id.
  pub run-IsKnown :
      (id : TransactionId) (k : Kernel S T) (calls : List Call)
      → AreTyped calls
      → Inv blocks_law snapshots_law k
      → IsKnown blocks_law snapshots_law id k
      → IsKnown blocks_law snapshots_law id (run block_store snapshot_store k calls)
  unfolding run
  run-IsKnown id k [] typed inv known = known
  run-IsKnown id k (c ∷ cs) typed inv known =
      let move = step-Move blocks_law snapshots_law k c inv typed.0 in
      run-IsKnown id (step block_store snapshot_store k c).1 cs typed.1
        (Move-Inv blocks_law snapshots_law move inv)
        (Move-IsKnown blocks_law snapshots_law id move known)
