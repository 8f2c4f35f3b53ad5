-- ===== src/Chain/Kernel/Operations.antt =====
-- SubmitTransaction, CommitPending, Bootstrap, Head and Chain, over any stores that keep their
-- contracts.
use blocxxi.Base.{
  ◌+◌, ◌%◌, ◌≡◌, refl, ap, ◌∙◌, List, [], ◌∷◌, ◌++◌, true, false, none, arith, if◌then◌else◌, ◌⊎◌,
  inl, inr, Bool-cases, ℤ, Bytes, is_empty, length,
}
use blocxxi.Crypto.Hash.{IsHash}
use blocxxi.Core.Status.{success, status_ok}
use blocxxi.Core.Primitives.{Block, Transaction, word, make_next}
use blocxxi.Core.Primitives.Ids.{make_next-IsHash}
use blocxxi.Chain.Ports.{BlockStore, SnapshotStore, IsBlockStore, IsSnapshotStore, find_block}
use blocxxi.Chain.Kernel.{Kernel, validate, has_id, submit_transaction, next_block, commit_pending}
use blocxxi.Chain.Kernel.Ledger.{snapshot_of}
use blocxxi.Chain.Kernel.Validation.{Extends}
use blocxxi.Chain.Kernel.Pending.{
  IsFresh, IsFresh→has_id, has_id→IsFresh, HasDistinctIds-append, remove_committed_self,
}
use blocxxi.Chain.Kernel.Invariant.{Inv, chain_of}
use blocxxi.Chain.Kernel.Commit.{commit_block-Extends}

next_height :
    (chain : List Block)
    → (if (snapshot_of chain).bootstrapped then ((snapshot_of chain).height + 1) % word else 0)
      ≡ length chain % word
next_height [] = refl
next_height (c ∷ chain) = omega arith

-- SubmitTransaction appends a transaction that has a type, a payload and an id that is not pending;
-- any other it refuses, and leaves the kernel as it was.
pub submit_transaction_outcome :
    {S T : Type 0} (k : Kernel S T) (t : Transaction)
    → ((submit_transaction k t ≡ (success [], record k { pending = k.pending ++ t ∷ [] }))
        × (is_empty t.type ≡ false)
        × (is_empty t.payload ≡ false)
        × IsFresh t k.pending)
      ⊎ ((status_ok (submit_transaction k t).0 ≡ false)
          × ((submit_transaction k t).1 ≡ k)
          × ((is_empty t.type ≡ true) ⊎ (is_empty t.payload ≡ true) ⊎ ¬ IsFresh t k.pending))
unfolding submit_transaction
submit_transaction_outcome k t = elim (Bool-cases (is_empty t.type)) [
  | inl e ↦ inr (ground (arith, e), ground (arith, e), inl e)
  | inr typed ↦ elim (Bool-cases (is_empty t.payload)) [
    | inl e ↦ inr (ground (arith, e), ground (arith, e), inr (inl e))
    | inr loaded ↦ elim (Bool-cases (has_id t k.pending)) [
      | inl e ↦ inr (
        ground (arith, e),
        ground (arith, e),
        inr (inr (λ fresh. cc (e, IsFresh→has_id t k.pending fresh))),
      )
      | inr new ↦
          inl (ground (arith, typed, loaded, new), typed, loaded, has_id→IsFresh t k.pending new)
    ]
  ]
]

module _ {S T : Type 0} {IsValid : S → Type 0} {blocks_in : S → List Block}
    {block_store : BlockStore S} {snapshot_store : SnapshotStore T}
    (blocks_law : IsBlockStore IsValid blocks_in block_store)
    (snapshots_law : IsSnapshotStore snapshot_store) (k : Kernel S T)
    (inv : Inv blocks_law snapshots_law k) where
  pub submit_transaction-Inv :
      (t : Transaction) → Inv blocks_law snapshots_law (submit_transaction k t).1
  submit_transaction-Inv t = elim (submit_transaction_outcome k t) [
    | inl (done, _, _, fresh) ↦ rw done (record {
      valid = inv.valid;
      hashed = inv.hashed;
      unique = inv.unique;
      linked = inv.linked;
      summary = inv.summary;
      saved = inv.saved;
      distinct = HasDistinctIds-append k.pending t inv.distinct fresh;
    })
    | inr (failed, same, _) ↦ rw same inv
  ]

  next_block-Extends :
      (now : ℤ) (source : Bytes)
      → is_empty source ≡ false
      → is_empty k.pending ≡ false
      → Extends (chain_of blocks_law snapshots_law k) (next_block now k source)
  unfolding next_block make_next
  next_block-Extends now source named some_pending = record {
    source = named;
    links = ap (λ s. s.head_id) inv.summary;
    height =
        ap (λ s. if s.bootstrapped then (s.height + 1) % word else 0) inv.summary ∙ next_height _;
    carries = λ _. some_pending;
  }

  pub next_block-IsHash : (now : ℤ) (source : Bytes) → IsHash 32 (next_block now k source).header.id
  unfolding next_block
  next_block-IsHash now source =
      make_next-IsHash now k.snapshot.head_id
        (if k.snapshot.bootstrapped then (k.snapshot.height + 1) % word else 0) k.pending source

  -- CommitPending commits all pending transactions, in their order, as one block that extends the
  -- chain, and leaves none pending. Something is pending, the source is not empty, and the id of the
  -- new block is not in the chain.
  pub commit_pending_outcome :
      (now : ℤ) (source : Bytes)
      → is_empty source ≡ false
      → is_empty k.pending ≡ false
      → find_block (next_block now k source).header.id (chain_of blocks_law snapshots_law k) ≡ none
      → (k' : Kernel S T) × (commit_pending block_store snapshot_store validate now k source
          ≡ (success [], k'))
        × Inv blocks_law snapshots_law k'
        × (chain_of blocks_law snapshots_law k'
            ≡ chain_of blocks_law snapshots_law k ++ next_block now k source ∷ [])
        × ((next_block now k source).transactions ≡ k.pending)
        × (k'.pending ≡ [])
  unfolding commit_pending next_block make_next
  commit_pending_outcome now source named some_pending new =
      let (k', done, committed) =
        commit_block-Extends blocks_law snapshots_law k (next_block now k source) inv
          (next_block-IsHash now source) (next_block-Extends now source named some_pending) new in
      (
        k',
        rw some_pending done,
        committed.inv,
        committed.chain,
        refl,
        committed.pending ∙ remove_committed_self k.pending,
      )
