-- ===== src/Chain/Kernel/Commit.antt =====
-- CommitBlock, CommitPending, SubmitTransaction and Bootstrap keep the invariant; what each of them
-- does on success, and when it fails.
use blocxxi.Base.{
  ◌≡◌, refl, ap, sym, ◌∙◌, List, [], ◌∷◌, ◌++◌, true, false, none, some, arith, ◌⊎◌, inl, inr,
  All-append, Option-cases, Bool-cases,
}
use blocxxi.Crypto.Hash.{IsHash}
use blocxxi.Core.Status.{success, status_ok}
use blocxxi.Core.Primitives.{Block, empty_id}
use blocxxi.Chain.Ports.{BlockStore, SnapshotStore, IsBlockStore, IsSnapshotStore, find_block}
use blocxxi.Chain.Ports.Lookup.{IsNew, HaveDistinctIds-append, find_block→IsNew}
use blocxxi.Chain.Kernel.{Kernel, validate, extend_snapshot, advance, save_snapshot, commit_block}
use blocxxi.Chain.Kernel.Ledger.{IsLinked-append}
use blocxxi.Chain.Kernel.Validation.{Extends, validate_iff, Extends-validate, extend_snapshot-eq}
use blocxxi.Chain.Kernel.Pending.{HasDistinctIds-remove_committed, IsIn-remove_committed}
use blocxxi.Chain.Kernel.Invariant.{Inv, Committed, chain_of}

module _ {S T : Type 0} {IsValid : S → Type 0} {blocks_in : S → List Block}
    {block_store : BlockStore S} {snapshot_store : SnapshotStore T}
    (blocks_law : IsBlockStore IsValid blocks_in block_store)
    (snapshots_law : IsSnapshotStore snapshot_store) where
  module _ (k : Kernel S T) (b : Block) (inv : Inv blocks_law snapshots_law k) where
    advance-Inv :
        (s : S) (t : T)
        → IsHash 32 b.header.id
        → IsNew b.header.id (chain_of blocks_law snapshots_law k)
        → Extends (chain_of blocks_law snapshots_law k) b
        → IsValid s
        → blocks_in s ≡ blocks_in k.blocks ++ b ∷ []
        → snapshot_store.load t ≡ some (extend_snapshot k.snapshot b)
        → Committed blocks_law snapshots_law k b (record (advance k b s) { snapshots = t })
    unfolding advance
    advance-Inv s t hash new e valid chain loaded = record {
      inv = record {
        valid = valid;
        hashed = rw chain (
            All-append (λ c. IsHash 32 c.header.id) (blocks_in k.blocks) (b ∷ []) inv.hashed
              (hash, tt));
        unique = rw chain (HaveDistinctIds-append (blocks_in k.blocks) b inv.unique new);
        linked = rw chain (
            IsLinked-append empty_id 0 (blocks_in k.blocks) b inv.linked e.links
              (rw e.height (omega arith)));
        summary = rw chain (
            ap (λ s. extend_snapshot s b) inv.summary
            ∙ extend_snapshot-eq (blocks_in k.blocks) b e);
        saved = unfold extend_snapshot in loaded;
        distinct = HasDistinctIds-remove_committed b.transactions k.pending inv.distinct;
      };
      chain = chain;
      pending = refl;
      kept = λ u. IsIn-remove_committed u b.transactions k.pending;
      config = refl;
    }

    -- A block that extends the chain and whose id is new is committed.
    pub commit_block-Extends :
        IsHash 32 b.header.id
        → Extends (chain_of blocks_law snapshots_law k) b
        → find_block b.header.id (chain_of blocks_law snapshots_law k) ≡ none
        → (k' : Kernel S T) × (commit_block block_store snapshot_store validate k b
            ≡ (success [], k'))
          × Committed blocks_law snapshots_law k b k'
    unfolding commit_block save_snapshot
    commit_block-Extends hashed e new =
        let (s, put, valid, chain) = blocks_law.put_block_new k.blocks b inv.valid hashed new in
        let (t, saved, loaded) =
          snapshots_law.save_lem k.snapshots (extend_snapshot k.snapshot b) in
        let accepted : validate b k.snapshot ≡ success [] =
          ap (validate b) inv.summary ∙ Extends-validate (blocks_in k.blocks) b e in
        (
          record (advance k b s) { snapshots = t },
          ground (arith, accepted, put, saved),
          advance-Inv s t hashed (find_block→IsNew _ _ new) e valid chain loaded,
        )

    -- A block that the validator refuses, or whose id is in the chain, changes nothing.
    commit_block_invalid :
        status_ok (validate b k.snapshot) ≡ false
        → (status_ok (commit_block block_store snapshot_store validate k b).0 ≡ false)
          × ((commit_block block_store snapshot_store validate k b).1 ≡ k)
    unfolding commit_block
    commit_block_invalid refused = (ground (arith, refused), ground (arith, refused))

    commit_block_duplicate :
        (c : Block)
        → IsHash 32 b.header.id
        → find_block b.header.id (chain_of blocks_law snapshots_law k) ≡ some c
        → (status_ok (commit_block block_store snapshot_store validate k b).0 ≡ false)
          × ((commit_block block_store snapshot_store validate k b).1 ≡ k)
    unfolding commit_block
    commit_block_duplicate c hashed found =
        let (m, put) = blocks_law.put_block_duplicate k.blocks b c inv.valid hashed found in
        (ground (arith, put), ground (arith, put))

    accepts-Extends :
        status_ok (validate b k.snapshot) ≡ true → Extends (chain_of blocks_law snapshots_law k) b
    accepts-Extends h =
        (validate_iff (chain_of blocks_law snapshots_law k) b).0
          (ap (λ s. status_ok (validate b s)) (sym inv.summary) ∙ h)

    Extends-accepts :
        Extends (chain_of blocks_law snapshots_law k) b → status_ok (validate b k.snapshot) ≡ true
    Extends-accepts e =
        ap (λ s. status_ok (validate b s)) inv.summary
        ∙ (validate_iff (chain_of blocks_law snapshots_law k) b).1 e

    -- CommitBlock of a block with a 32-byte id either commits the block, which it does exactly when the
    -- block extends the chain and its id is new, and then appends it to the chain, keeps the invariant,
    -- and leaves pending exactly the pending transactions whose ids none of the block's has; or it
    -- fails and leaves the kernel as it was.
    pub commit_block_outcome :
        IsHash 32 b.header.id
        → ((k' : Kernel S T) × (commit_block block_store snapshot_store validate k b
              ≡ (success [], k'))
            × Committed blocks_law snapshots_law k b k'
            × Extends (chain_of blocks_law snapshots_law k) b
            × (find_block b.header.id (chain_of blocks_law snapshots_law k) ≡ none))
          ⊎ ((status_ok (commit_block block_store snapshot_store validate k b).0 ≡ false)
              × ((commit_block block_store snapshot_store validate k b).1 ≡ k)
              × ¬ (
                  Extends (chain_of blocks_law snapshots_law k) b
                  × (find_block b.header.id (chain_of blocks_law snapshots_law k) ≡ none)))
    commit_block_outcome hashed = elim (Bool-cases (status_ok (validate b k.snapshot))) [
      | inr refused ↦
          let (failed, same) = commit_block_invalid refused in
          inr (failed, same, λ h. cc (refused, Extends-accepts h.0))
      | inl accepted ↦
          elim (Option-cases (find_block b.header.id (chain_of blocks_law snapshots_law k))) [
            | inr (c, found) ↦
                let (failed, same) = commit_block_duplicate c hashed found in
                inr (failed, same, λ h. cc (found, h.1))
            | inl new ↦
                let e = accepts-Extends accepted in
                let (k', done, committed) = commit_block-Extends hashed e new in
                inl (k', done, committed, e, new)
          ]
    ]

    -- CommitBlock keeps the invariant, whether it succeeds or not.
    pub commit_block-Inv :
        IsHash 32 b.header.id
        → Inv blocks_law snapshots_law (commit_block block_store snapshot_store validate k b).1
    commit_block-Inv hashed = elim (commit_block_outcome hashed) [
      | inl (k', done, committed, _, _) ↦ rw done committed.inv
      | inr (failed, same, _) ↦ rw same inv
    ]
