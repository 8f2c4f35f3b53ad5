-- ===== src/Chain/Kernel/Moves.antt =====
-- What one call may do to a kernel: nothing, append a pending transaction, or commit a block.
use blocxxi.Base.{
  ◌≡◌, refl, sym, List, [], ◌∷◌, ◌++◌, ◌⊎◌, inl, inr, Bool-cases, ℤ, Bytes, append_assoc, is_empty,
}
use blocxxi.Crypto.Hash.{IsHash}
use blocxxi.Core.Primitives.{Block, Transaction, TransactionId}
use blocxxi.Chain.Ports.{BlockStore, SnapshotStore, IsBlockStore, IsSnapshotStore}
use blocxxi.Chain.Kernel.{
  Kernel, validate, submit_transaction, next_block, genesis, bootstrap, commit_pending,
  commit_block,
}
use blocxxi.Chain.Kernel.History.{
  HasTransaction, HasTransaction-left, HasTransaction-right, remove_committed_keeps,
}
use blocxxi.Chain.Kernel.Ledger.{all_transactions}
use blocxxi.Chain.Kernel.Invariant.{Inv, Committed, chain_of}
use blocxxi.Chain.Kernel.Commit.{commit_block_outcome}
use blocxxi.Chain.Kernel.Operations.{
  submit_transaction_outcome, submit_transaction-Inv, next_block-IsHash,
}
use blocxxi.Chain.Kernel.Bootstrap.{
  genesis-IsHash, bootstrap_again, bootstrap_skipped, bootstrap_commits,
}
use blocxxi.Chain.Kernel.Runs.{Call, submits, commits, commits_pending, bootstraps, IsTyped, step}

module _ {S T : Type 0} {IsValid : S → Type 0} {blocks_in : S → List Block}
    {block_store : BlockStore S} {snapshot_store : SnapshotStore T}
    (blocks_law : IsBlockStore IsValid blocks_in block_store)
    (snapshots_law : IsSnapshotStore snapshot_store) where
  -- A transaction with the id is pending or in a block.
  abbrev pub IsKnown : TransactionId → Kernel S T → Type 0
  IsKnown id k =
      HasTransaction id k.pending
      ⊎ HasTransaction id (all_transactions (chain_of blocks_law snapshots_law k))

  -- What a call may do: nothing, append one pending transaction, or commit one block.
  pub data Move (k k' : Kernel S T) : Type 0 where
    stays : k' ≡ k → Move k k'
    submitted :
        (t : Transaction)
        → Inv blocks_law snapshots_law k'
        → k' ≡ record k { pending = k.pending ++ t ∷ [] }
        → Move k k'
    committed : (b : Block) → Committed blocks_law snapshots_law k b k' → Move k k'

  commit_block-Move :
      (k : Kernel S T) (b : Block)
      → Inv blocks_law snapshots_law k
      → IsHash 32 b.header.id
      → Move k (commit_block block_store snapshot_store validate k b).1
  commit_block-Move k b inv hashed =
      elim (commit_block_outcome blocks_law snapshots_law k b inv hashed) [
        | inl (k', done, c, _, _) ↦ rw done (committed b c)
        | inr (failed, same, _) ↦ stays same
      ]

  submit_transaction-Move :
      (k : Kernel S T) (t : Transaction)
      → Inv blocks_law snapshots_law k
      → Move k (submit_transaction k t).1
  submit_transaction-Move k t inv = elim (submit_transaction_outcome k t) [
    | inl (done, _, _, _) ↦
        submitted t (submit_transaction-Inv blocks_law snapshots_law k inv t) (rw done)
    | inr (failed, same, _) ↦ stays same
  ]

  commit_pending-Move :
      (k : Kernel S T) (now : ℤ) (source : Bytes)
      → Inv blocks_law snapshots_law k
      → Move k (commit_pending block_store snapshot_store validate now k source).1
  unfolding commit_pending
  commit_pending-Move k now source inv = elim (Bool-cases (is_empty k.pending)) [
    | inl e ↦ rw e (stays refl)
    | inr e ↦ rw e (
        commit_block-Move k (next_block now k source) inv
          (next_block-IsHash blocks_law snapshots_law k inv now source))
  ]

  bootstrap-Move :
      (k : Kernel S T) (now : ℤ)
      → Inv blocks_law snapshots_law k
      → Move k (bootstrap block_store snapshot_store validate now k).1
  bootstrap-Move k now inv = elim (Bool-cases k.snapshot.bootstrapped) [
    | inl h ↦ rw (bootstrap_again blocks_law snapshots_law k inv now h) (stays refl)
    | inr h ↦ elim (Bool-cases k.config.create_genesis) [
      | inr skip ↦ rw (bootstrap_skipped blocks_law snapshots_law k inv now h skip) (stays refl)
      | inl create ↦
          rw (bootstrap_commits blocks_law snapshots_law k inv now h create)
            (commit_block-Move k (genesis now k.config) inv (genesis-IsHash now k.config))
    ]
  ]

  pub step-Move :
      (k : Kernel S T) (c : Call)
      → Inv blocks_law snapshots_law k
      → IsTyped c
      → Move k (step block_store snapshot_store k c).1
  unfolding step
  step-Move k (submits t) inv typed = submit_transaction-Move k t inv
  step-Move k (commits b) inv typed = commit_block-Move k b inv typed
  step-Move k (commits_pending now source) inv typed = commit_pending-Move k now source inv
  step-Move k (bootstraps now) inv typed = bootstrap-Move k now inv

  pub Move-Inv :
      {k k' : Kernel S T}
      → Move k k'
      → Inv blocks_law snapshots_law k
      → Inv blocks_law snapshots_law k'
  Move-Inv (stays e) inv = rw e inv
  Move-Inv (submitted t inv' e) inv = inv'
  Move-Inv (committed b c) inv = c.inv

  all_transactions-append :
      (chain more : List Block)
      → all_transactions (chain ++ more) ≡ all_transactions chain ++ all_transactions more
  all_transactions-append [] more = refl
  all_transactions-append (b ∷ chain) more =
      rw (all_transactions-append chain more)
        (sym (append_assoc b.transactions (all_transactions chain) (all_transactions more)))

  pub Move-IsKnown :
      (id : TransactionId) {k k' : Kernel S T} → Move k k' → IsKnown id k → IsKnown id k'
  Move-IsKnown id (stays e) known = rw e known
  Move-IsKnown id {k = k} (submitted t inv' e) known =
      rw e
        (elim known [ inl h ↦ inl (HasTransaction-left id k.pending (t ∷ []) h) | inr h ↦ inr h ])
  Move-IsKnown id {k = k} {k' = k'} (committed b c) known = elim known [
    | inl h ↦ elim (remove_committed_keeps id b.transactions k.pending h) [
      | inl kept ↦ inl (rw c.pending kept)
      | inr gone ↦ inr (
          rw c.chain (
            rw all_transactions-append
              (HasTransaction-right id _ _ (HasTransaction-left id b.transactions [] gone))))
    ]
    | inr h ↦ inr (rw c.chain (rw all_transactions-append (HasTransaction-left id _ _ h)))
  ]
