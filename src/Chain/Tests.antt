-- ===== src/Chain/Tests.antt =====
-- Runs of the kernel over the in-memory stores, and the theorems at those runs.
use blocxxi.Base.{
  ◌≡◌, refl, List, [], ◌∷◌, text, true, false, pos, Option, none, ◌++◌, ◌⊎◌, inl, ◌↔◌, is_empty,
}
use blocxxi.Core.Status.{status_ok, success}
use blocxxi.Core.Primitives.{Block, ChainConfig, ChainSnapshot, Transaction, from_text}
use blocxxi.Crypto.Hash.{IsHash}
use blocxxi.Chain.Ports.{IsBlockStore, IsSnapshotStore, find_block}
use blocxxi.Chain.Kernel.Validation.{Extends, validate_iff}
use blocxxi.Chain.Kernel.Ledger.{snapshot_of}
use blocxxi.Chain.Kernel.Moves.{IsKnown}
use blocxxi.Chain.Kernel.Pending.{IsFresh}
use blocxxi.Chain.Kernel.Commit.{commit_block_outcome}
use blocxxi.Chain.Kernel.Operations.{
  next_block-IsHash, commit_pending_outcome, submit_transaction_outcome,
}
use blocxxi.Chain.Kernel.{
  Kernel, make_kernel, validate, commit_pending, submit_transaction, bootstrap, commit_block,
  next_block,
}
use blocxxi.Chain.Kernel.Invariant.{Inv, Committed}
use blocxxi.Chain.Kernel.Runs.{Call, submits, commits_pending, bootstraps, run}
use blocxxi.Chain.Kernel.Reachable.{run-Inv, run-IsKnown}
use blocxxi.Storage.Memory.{
  MemoryBlocks, load, put_block, empty_blocks, memory_blocks, memory_snapshots,
}
use blocxxi.Storage.Memory.Contract.{
  IsValid, memory_chain, memory_blocks-IsBlockStore, memory_snapshots-IsSnapshotStore,
}

abbrev config : ChainConfig
config = record {
  chain_id = text "blocxxi.local";
  display_name = text "Blocxxi Local Chain";
  data_directory = [];
  create_genesis = true;
  genesis_payload = text "blocxxi:genesis";
}

abbrev fresh : Kernel MemoryBlocks (Option ChainSnapshot)
fresh = make_kernel config empty_blocks none

abbrev demo : Transaction
demo = from_text (text "demo.tx") (text "payload") []

abbrev calls : List Call
calls =
    bootstraps (pos 7)
    ∷ submits demo
    ∷ submits demo
    ∷ commits_pending (pos 8) (text "unit-test")
    ∷ []

abbrev store_law : IsBlockStore IsValid memory_chain memory_blocks
store_law = memory_blocks-IsBlockStore

abbrev saves_law : IsSnapshotStore memory_snapshots
saves_law = memory_snapshots-IsSnapshotStore

-- After the genesis block and one submitted transaction.
abbrev booted : Kernel MemoryBlocks (Option ChainSnapshot)
booted = run memory_blocks memory_snapshots fresh (bootstraps (pos 7) ∷ submits demo ∷ [])

-- A block that a caller built itself on top of the genesis block.
abbrev own_block : Block
own_block = next_block (pos 9) booted (text "test")

run_demo : (run memory_blocks memory_snapshots fresh calls).snapshot.height ≡ 1
unfolding run text from_text commit_pending submit_transaction bootstrap load validate put_block
run_demo = refl

fresh-Inv : Inv store_law saves_law fresh
unfolding load
fresh-Inv = record {
  valid = (tt, refl);
  hashed = tt;
  unique = tt;
  linked = tt;
  summary = refl;
  saved = refl;
  distinct = tt;
}

booted-Inv : Inv store_law saves_law booted
booted-Inv =
    run-Inv store_law saves_law fresh (bootstraps (pos 7) ∷ submits demo ∷ []) (tt, (tt, tt))
      fresh-Inv

own_block-IsHash : IsHash 32 own_block.header.id
own_block-IsHash = next_block-IsHash store_law saves_law booted booted-Inv (pos 9) (text "test")

own_block_new : find_block own_block.header.id (memory_chain booted.blocks) ≡ none
unfolding find_block run text from_text commit_pending submit_transaction bootstrap load validate
    put_block next_block
own_block_new = refl

abbrev other : Transaction
other = from_text (text "demo.tx") (text "another") []

named : is_empty (text "test") ≡ false
unfolding text
named = refl

some_pending : is_empty booted.pending ≡ false
unfolding run text from_text commit_pending submit_transaction bootstrap load validate put_block
some_pending = refl

is_booted : booted.snapshot.bootstrapped ≡ true
unfolding run text from_text commit_pending submit_transaction bootstrap load validate put_block
is_booted = refl

demo-IsKnown : IsKnown store_law saves_law demo.id booted
unfolding run text from_text commit_pending submit_transaction bootstrap load validate put_block
demo-IsKnown = inl (inl refl)

run-Inv_example : Inv store_law saves_law (run memory_blocks memory_snapshots fresh calls)
run-Inv_example = run-Inv store_law saves_law fresh calls (tt, (tt, (tt, (tt, tt)))) fresh-Inv

run-IsKnown_example :
    IsKnown store_law saves_law demo.id
      (run memory_blocks memory_snapshots booted (commits_pending (pos 8) (text "unit-test") ∷ []))
run-IsKnown_example =
    run-IsKnown store_law saves_law demo.id booted (commits_pending (pos 8) (text "unit-test") ∷ [])
      (tt, tt) booted-Inv demo-IsKnown

commit_block_outcome_example :
    ((k' : Kernel MemoryBlocks (Option ChainSnapshot)) × (commit_block memory_blocks
          memory_snapshots validate booted own_block
        ≡ (success [], k'))
      × Committed store_law saves_law booted own_block k'
      × Extends (memory_chain booted.blocks) own_block
      × (find_block own_block.header.id (memory_chain booted.blocks) ≡ none))
    ⊎ ((status_ok (commit_block memory_blocks memory_snapshots validate booted own_block).0 ≡ false)
        × ((commit_block memory_blocks memory_snapshots validate booted own_block).1 ≡ booted)
        × ¬ (
            Extends (memory_chain booted.blocks) own_block
            × (find_block own_block.header.id (memory_chain booted.blocks) ≡ none)))
commit_block_outcome_example =
    commit_block_outcome store_law saves_law booted own_block booted-Inv own_block-IsHash

commit_pending_outcome_example :
    (k' : Kernel MemoryBlocks (Option ChainSnapshot)) × (commit_pending memory_blocks
        memory_snapshots validate
        (pos 9)
        booted
        (text "test")
      ≡ (success [], k'))
    × Inv store_law saves_law k'
    × (memory_chain k'.blocks ≡ memory_chain booted.blocks ++ own_block ∷ [])
    × (own_block.transactions ≡ booted.pending)
    × (k'.pending ≡ [])
commit_pending_outcome_example =
    commit_pending_outcome store_law saves_law booted booted-Inv (pos 9) (text "test") named
      some_pending own_block_new

submit_transaction_outcome_example :
    ((submit_transaction fresh demo ≡ (success [], record fresh { pending = [] ++ demo ∷ [] }))
      × (is_empty demo.type ≡ false)
      × (is_empty demo.payload ≡ false)
      × IsFresh demo [])
    ⊎ ((status_ok (submit_transaction fresh demo).0 ≡ false)
        × ((submit_transaction fresh demo).1 ≡ fresh)
        × ((is_empty demo.type ≡ true) ⊎ (is_empty demo.payload ≡ true) ⊎ ¬ IsFresh demo []))
submit_transaction_outcome_example = submit_transaction_outcome fresh demo

validate_iff_example :
    (status_ok (validate own_block (snapshot_of (memory_chain booted.blocks))) ≡ true)
    ↔ Extends (memory_chain booted.blocks) own_block
validate_iff_example = validate_iff (memory_chain booted.blocks) own_block
