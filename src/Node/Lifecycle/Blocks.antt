-- ===== src/Node/Lifecycle/Blocks.antt =====
-- SubmitBlock of a node.
use blocxxi.Base.{
  ◌≡◌, ◌⊎◌, refl, ap, sym, subst, List, [], ◌∷◌, ◌++◌, Bool, true, false, not, Option, none, some,
  text, inl, inr, if◌then◌else◌,
}
use blocxxi.Crypto.Hash.{IsHash}
use blocxxi.Core.Status.{Status, status_ok, success, failure, rejected}
use blocxxi.Core.Primitives.{Block}
use blocxxi.Chain.Ports.{BlockStore, SnapshotStore, IsBlockStore, IsSnapshotStore, find_block}
use blocxxi.Chain.Kernel.{Kernel, validate, commit_block}
use blocxxi.Chain.Kernel.Validation.{Extends}
use blocxxi.Chain.Kernel.Invariant.{Inv, Committed, chain_of}
use blocxxi.Chain.Kernel.Commit.{commit_block_outcome}
use blocxxi.Node.Service.{block_committed}
use blocxxi.Node.Lifecycle.{FileOps, NodeCore, ChainEvent, deliver, emit_event, submit_block}

-- Those of some handlers that are there, each with the event.
abbrev pub told : {H : Type 0} → ChainEvent → List (Option H) → List (H × ChainEvent)
told event [] = []
told event (none ∷ hs) = told event hs
told event (some h ∷ hs) = (h, event) ∷ told event hs

deliver_told :
    {H : Type 0} (event : ChainEvent) (hs : List (Option H)) → deliver event hs ≡ told event hs
unfolding deliver
deliver_told event [] = refl
deliver_told event (none ∷ hs) = deliver_told event hs
deliver_told event (some h ∷ hs) = ap (λ rest. (h, event) ∷ rest) (deliver_told event hs)

module _ {S T F H : Type 0} {IsValid : S → Type 0} {blocks_in : S → List Block}
    {block_store : BlockStore S} {snapshot_store : SnapshotStore T}
    (blocks_law : IsBlockStore IsValid blocks_in block_store)
    (snapshots_law : IsSnapshotStore snapshot_store) where
  -- The plugins, then the handlers, are told of the block, with the snapshot behind it, and nothing else.
  pub record IsTold (c : NodeCore S T F H) (b : Block) (after : NodeCore S T F H) : Type 0 where
    pub event : ChainEvent
    pub is_commit : event.type ≡ block_committed
    pub of_block : event.block ≡ some b
    pub of_snapshot : event.snapshot ≡ after.kernel.snapshot
    pub everyone : after.delivered ≡ c.delivered ++ (told event c.plugins ++ told event c.handlers)

  -- The block can be committed: the node runs, the block extends the chain, and its id is new.
  abbrev pub IsWelcome : NodeCore S T F H → Block → Type 0
  IsWelcome c b =
      (c.running ≡ true)
      × Extends (chain_of blocks_law snapshots_law c.kernel) b
      × (find_block b.header.id (chain_of blocks_law snapshots_law c.kernel) ≡ none)

  abbrev pub Submits : NodeCore S T F H → Block → Status × NodeCore S T F H → Type 0
  Submits c b result =
      (IsWelcome c b
        × (status_ok result.0 ≡ true)
        × Committed blocks_law snapshots_law c.kernel b result.1.kernel
        × IsTold c b result.1)
      ⊎ (¬ IsWelcome c b × (status_ok result.0 ≡ false) × (result.1 ≡ c))

  module _ (ops : FileOps F) (c : NodeCore S T F H) (b : Block)
      (inv : Inv blocks_law snapshots_law c.kernel) (hashed : IsHash 32 b.header.id) where
    finish : Bool → Status × Kernel S T → Status × NodeCore S T F H
    finish running (status, kernel) =
        let after = record c { kernel = kernel } in
        if not running
        then (failure rejected (text "node must be started before submitting blocks"), c)
        else if status_ok status
        then (status, emit_event ops after block_committed (text "block committed") none (some b))
        else (status, after)

    committed :
        (k' : Kernel S T)
        → IsWelcome c b
        → Committed blocks_law snapshots_law c.kernel b k'
        → Submits c b (finish true (success [], k'))
    unfolding finish emit_event
    committed k' welcome done =
        let event : ChainEvent = record {
          type = block_committed;
          message = text "block committed";
          snapshot = k'.snapshot;
          transaction = none;
          block = some b;
        } in
        inl (
          welcome,
          refl,
          done,
          record {
            event = event;
            is_commit = refl;
            of_block = refl;
            of_snapshot = refl;
            everyone = λ i.
                c.delivered ++ (deliver_told event c.plugins i ++ deliver_told event c.handlers i);
          },
        )

    refused :
        (status : Status) (kernel : Kernel S T)
        → ¬ IsWelcome c b
        → status_ok status ≡ false
        → kernel ≡ c.kernel
        → Submits c b (finish true (status, kernel))
    unfolding finish
    refused status kernel unwelcome bad same =
        rw bad (inr (unwelcome, bad, ap (λ k. record c { kernel = k }) same))

    decided :
        (running : Bool)
        → c.running ≡ running
        → Submits c b (finish running (commit_block block_store snapshot_store validate c.kernel b))
    unfolding finish
    decided false e = inr ((λ w. absurd (cc (e, w.0))), refl, refl)
    decided true e = elim (commit_block_outcome blocks_law snapshots_law c.kernel b inv hashed) [
      | inl (k', done, committed_as, extends, new) ↦
          subst (λ m. Submits c b (finish true m)) (sym done)
            (committed k' (e, extends, new) committed_as)
      | inr (bad, same, unfit) ↦
          refused (commit_block block_store snapshot_store validate c.kernel b).0
            (commit_block block_store snapshot_store validate c.kernel b).1 (λ w. unfit (w.1, w.2))
            bad same
    ]

    -- SubmitBlock of a node whose kernel is in its invariant, over stores that keep their contracts,
    -- with a 32-byte block id: where the node runs, the block extends the chain and its id is new, it
    -- succeeds, commits the block, and tells the plugins and the handlers of it, with the new snapshot;
    -- otherwise it fails, tells nobody, and leaves the node as it was.
    pub submit_block_outcome : Submits c b (submit_block ops block_store snapshot_store c b)
    unfolding submit_block finish
    submit_block_outcome = decided c.running refl
