-- ===== src/Chain/Kernel.antt =====
-- src/Blocxxi/Chain/kernel.cpp: the kernel and the basic block validator. The stores and the
-- validator are parameters, as they are pointers to interfaces in the code; the time of
-- `CommitPending` and `Bootstrap` is an argument.
pub mod Ledger
pub mod Validation
pub mod Pending
pub mod Invariant
pub mod Commit
pub mod Operations
pub mod Bootstrap
pub mod History
pub mod Runs
pub mod Moves
pub mod Reachable
use blocxxi.Base.{
  ℕ, ◌+◌, ◌%◌, ◌++◌, [], ◌∷◌, List, Bytes, text, Bool, true, false, not, ◌&&◌, ℤ, Option, none,
  some, is_empty, length, ◌==◌, if◌then◌else◌,
}
use blocxxi.Crypto.Hash.{hash_eq}
use blocxxi.Core.Status.{
  Status, StatusCode, success, failure, status_ok, invalid_argument, duplicate, rejected,
}
use blocxxi.Core.Primitives.{
  Block, BlockHeader, BlockId, Transaction, ChainSnapshot, ChainConfig, empty_id, empty_snapshot,
  word, make_next, from_text,
}
use blocxxi.Chain.Ports.{BlockStore, SnapshotStore, BlockValidator}

-- BasicBlockValidator::Validate
unfoldable pub validate : BlockValidator
unfolding hash_eq
validate block snapshot =
    if is_empty block.header.source
    then failure invalid_argument (text "block source is required")
    else if snapshot.bootstrapped && is_empty block.transactions
    then failure invalid_argument (text "non-genesis blocks require transactions")
    else if not snapshot.bootstrapped
    then if not (block.header.height == 0)
      then failure rejected (text "genesis block must start at height 0")
      else if not (hash_eq block.header.previous_id empty_id)
      then failure rejected (text "genesis block must use an empty previous id")
      else success []
    else if not (block.header.height == (snapshot.height + 1) % word)
    then failure rejected (text "block height does not extend the active head")
    else if not (hash_eq block.header.previous_id snapshot.head_id)
    then failure rejected (text "block does not link to the active head")
    else success []

pub record Kernel (S T : Type 0) : Type 0 where
  pub config : ChainConfig
  pub blocks : S
  pub snapshots : T
  pub snapshot : ChainSnapshot
  pub pending : List Transaction

-- Kernel::Kernel
abbrev pub make_kernel : {S T : Type 0} → ChainConfig → S → T → Kernel S T
make_kernel config blocks snapshots = record {
  config = config;
  blocks = blocks;
  snapshots = snapshots;
  snapshot = empty_snapshot;
  pending = [];
}

-- The constructor's default for a missing validator.
abbrev pub choose_validator : Option BlockValidator → BlockValidator
choose_validator none = validate
choose_validator (some validator) = validator

-- `any_of` over the ids of a list of transactions.
unfoldable pub has_id : Transaction → List Transaction → Bool
unfolding hash_eq
has_id t [] = false
has_id t (u ∷ us) = if hash_eq u.id t.id then true else has_id t us

-- The erase-remove_if of `CommitBlock`.
unfoldable pub remove_committed : List Transaction → List Transaction → List Transaction
unfolding has_id
remove_committed committed [] = []
remove_committed committed (p ∷ ps) =
    let rest = remove_committed committed ps in if has_id p committed then rest else p ∷ rest

unfoldable pub extend_snapshot : ChainSnapshot → Block → ChainSnapshot
extend_snapshot s block = record {
  height = block.header.height;
  head_id = block.header.id;
  block_count = (s.block_count + 1) % word;
  accepted_transactions = (s.accepted_transactions + length block.transactions) % word;
  bootstrapped = true;
}

-- The genesis block of `Bootstrap`.
unfoldable pub genesis : ℤ → ChainConfig → Block
unfolding make_next from_text
genesis now config =
    make_next now empty_id 0
      (from_text (text "genesis") config.genesis_payload config.display_name ∷ []) (text "genesis")

module _ {S T : Type 0} where
  -- Kernel::SubmitTransaction
  unfoldable pub submit_transaction : Kernel S T → Transaction → Status × Kernel S T
  unfolding has_id
  submit_transaction k transaction =
      if is_empty transaction.type
      then (failure invalid_argument (text "transaction type is required"), k)
      else if is_empty transaction.payload
      then (failure invalid_argument (text "transaction payload is required"), k)
      else if has_id transaction k.pending
      then (failure duplicate (text "transaction already pending"), k)
      else (success [], record k { pending = k.pending ++ transaction ∷ [] })

  -- The block that `CommitPending` makes.
  unfoldable pub next_block : ℤ → Kernel S T → Bytes → Block
  unfolding make_next
  next_block now k source =
      make_next now k.snapshot.head_id
        (if k.snapshot.bootstrapped then (k.snapshot.height + 1) % word else 0) k.pending source

  -- The updates of `CommitBlock` between PutBlock and Save.
  unfoldable pub advance : Kernel S T → Block → S → Kernel S T
  unfolding extend_snapshot remove_committed
  advance k block blocks = record k {
    blocks = blocks;
    snapshot = extend_snapshot k.snapshot block;
    pending = remove_committed block.transactions k.pending;
  }

module _ {S T : Type 0} (block_store : BlockStore S) (snapshot_store : SnapshotStore T)
    (validator : BlockValidator) where
  -- The last step of `CommitBlock`.
  unfoldable pub save_snapshot : Kernel S T → Status × Kernel S T
  save_snapshot k =
      let (status, snapshots) = snapshot_store.save k.snapshots k.snapshot in
      (if status_ok status then success [] else status, record k { snapshots = snapshots })

  -- Kernel::CommitBlock
  unfoldable pub commit_block : Kernel S T → Block → Status × Kernel S T
  unfolding advance save_snapshot
  commit_block k block =
      let valid = validator block k.snapshot in
      let (put, blocks) = block_store.put_block k.blocks block in
      if not (status_ok valid)
      then (valid, k)
      else if not (status_ok put)
      then (put, record k { blocks = blocks })
      else save_snapshot (advance k block blocks)

  -- Kernel::CommitPending
  unfoldable pub commit_pending : ℤ → Kernel S T → Bytes → Status × Kernel S T
  unfolding commit_block next_block
  commit_pending now k source =
      if is_empty k.pending
      then (failure rejected (text "no pending transactions to commit"), k)
      else commit_block k (next_block now k source)

  -- Kernel::Bootstrap
  unfoldable pub bootstrap : ℤ → Kernel S T → Status × Kernel S T
  unfolding commit_block genesis
  bootstrap now k = elim (snapshot_store.load k.snapshots) [
    | some s ↦ (success (text "loaded existing chain snapshot"), record k { snapshot = s })
    | none ↦
        if not k.config.create_genesis
        then (success (text "bootstrap skipped without genesis creation"), k)
        else commit_block k (genesis now k.config)
  ]

  -- Kernel::Head
  unfoldable pub head : Kernel S T → Option Block
  head k =
      if not k.snapshot.bootstrapped
      then none
      else block_store.get_block k.blocks k.snapshot.head_id

  -- Kernel::Chain
  unfoldable pub get_chain : Kernel S T → Option (List Block)
  get_chain k = block_store.get_chain k.blocks
