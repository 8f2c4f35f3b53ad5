-- ===== src/Chain/Kernel/Bootstrap.antt =====
-- Bootstrap and Head, over any stores that keep their contracts.
use blocxxi.Base.{
  ◌≡◌, ◌≢◌, ◌⊎◌, refl, ap, sym, ◌∙◌, List, [], ◌∷◌, ◌++◌, true, false, Option, none, some, arith,
  inl, inr, Bool-cases, ℤ, not, is_empty, text, All,
}
use blocxxi.Crypto.Hash.{IsHash}
use blocxxi.Core.Status.{success, status_ok}
use blocxxi.Core.Primitives.{Block, BlockId, ChainConfig, empty_id, make_next, from_text}
use blocxxi.Core.Primitives.Ids.{make_next-IsHash}
use blocxxi.Chain.Ports.{BlockStore, SnapshotStore, IsBlockStore, IsSnapshotStore, find_block}
use blocxxi.Chain.Ports.Lookup.{IsIn, find_block-IsIn}
use blocxxi.Chain.Kernel.{Kernel, validate, genesis, bootstrap, commit_block, head, get_chain}
use blocxxi.Chain.Kernel.Ledger.{last_id}
use blocxxi.Chain.Kernel.Validation.{Extends}
use blocxxi.Chain.Kernel.Invariant.{Inv, chain_of}
use blocxxi.Chain.Kernel.Commit.{commit_block-Extends}

pub genesis-Extends : (now : ℤ) (config : ChainConfig) → Extends [] (genesis now config)
unfolding genesis make_next text
genesis-Extends now config = record {
  source = refl;
  links = refl;
  height = refl;
  carries = λ p. cc;
}

pub genesis-IsHash : (now : ℤ) (config : ChainConfig) → IsHash 32 (genesis now config).header.id
unfolding genesis
genesis-IsHash now config =
    make_next-IsHash now empty_id 0
      (from_text (text "genesis") config.genesis_payload config.display_name ∷ []) (text "genesis")

empty_of_summary : (chain : List Block) → not (is_empty chain) ≡ false → chain ≡ []
empty_of_summary [] h = refl
empty_of_summary (c ∷ chain) h = cc

find_block-nil : (b : Block) (chain : List Block) → chain ≡ [] → find_block b.header.id chain ≡ none
unfolding find_block
find_block-nil b chain e = rw e

-- The last block of a chain.
abbrev pub last_block : List Block → Option Block
last_block [] = none
last_block (b ∷ []) = some b
last_block (b ∷ c ∷ cs) = last_block (c ∷ cs)

All-IsIn :
    (b : Block) (bs : List Block)
    → All (λ c. IsHash 32 c.header.id) bs
    → IsIn b bs
    → IsHash 32 b.header.id
All-IsIn b [] h m = absurd m
All-IsIn b (c ∷ cs) h m = elim m [ inl e ↦ rw e h.0 | inr r ↦ All-IsIn b cs h.1 r ]

last_block_cons :
    (previous : BlockId) (b : Block) (bs : List Block)
    → (c : Block) × (last_block (b ∷ bs) ≡ some c)
      × IsIn c (b ∷ bs)
      × (last_id previous (b ∷ bs) ≡ c.header.id)
last_block_cons previous b [] = (b, refl, inl refl, refl)
last_block_cons previous b (c ∷ cs) =
    let (l, last, member, id) = last_block_cons b.header.id c cs in (l, last, inr member, id)

last_block-IsIn :
    (chain : List Block)
    → not (is_empty chain) ≡ true
    → (c : Block) × (last_block chain ≡ some c)
      × IsIn c chain
      × (last_id empty_id chain ≡ c.header.id)
last_block-IsIn [] h = cc
last_block-IsIn (b ∷ bs) h = last_block_cons empty_id b bs

module _ {S T : Type 0} {IsValid : S → Type 0} {blocks_in : S → List Block}
    {block_store : BlockStore S} {snapshot_store : SnapshotStore T}
    (blocks_law : IsBlockStore IsValid blocks_in block_store)
    (snapshots_law : IsSnapshotStore snapshot_store) (k : Kernel S T)
    (inv : Inv blocks_law snapshots_law k) where
  saved_some : k.snapshot.bootstrapped ≡ true → snapshot_store.load k.snapshots ≡ some k.snapshot
  saved_some h = rw inv.saved (ground (arith, h))

  saved_none : k.snapshot.bootstrapped ≡ false → snapshot_store.load k.snapshots ≡ none
  saved_none h = rw inv.saved (ground (arith, h))

  empty_chain : k.snapshot.bootstrapped ≡ false → chain_of blocks_law snapshots_law k ≡ []
  empty_chain h = empty_of_summary _ (ap (λ s. s.bootstrapped) (sym inv.summary) ∙ h)

  -- Bootstrap of a kernel in its invariant that has a chain, at any later time, changes nothing.
  pub bootstrap_again :
      (now : ℤ)
      → k.snapshot.bootstrapped ≡ true
      → bootstrap block_store snapshot_store validate now k
        ≡ (success (text "loaded existing chain snapshot"), k)
  unfolding bootstrap
  bootstrap_again now h = rw (saved_some h, bootstrap)

  pub bootstrap_skipped :
      (now : ℤ)
      → k.snapshot.bootstrapped ≡ false
      → k.config.create_genesis ≡ false
      → bootstrap block_store snapshot_store validate now k
        ≡ (success (text "bootstrap skipped without genesis creation"), k)
  unfolding bootstrap
  bootstrap_skipped now h skip = rw (saved_none h, bootstrap) (rw skip)

  pub bootstrap_commits :
      (now : ℤ)
      → k.snapshot.bootstrapped ≡ false
      → k.config.create_genesis ≡ true
      → bootstrap block_store snapshot_store validate now k
        ≡ commit_block block_store snapshot_store validate k (genesis now k.config)
  unfolding bootstrap
  bootstrap_commits now h create = ground (arith, saved_none h, create)

  -- Bootstrap of a kernel in its invariant without a chain, if it is configured to create one, commits the genesis
  -- block, which is then the whole chain.
  pub bootstrap_first :
      (now : ℤ)
      → k.snapshot.bootstrapped ≡ false
      → k.config.create_genesis ≡ true
      → (k' : Kernel S T) × (bootstrap block_store snapshot_store validate now k ≡ (success [], k'))
        × Inv blocks_law snapshots_law k'
        × (chain_of blocks_law snapshots_law k' ≡ genesis now k.config ∷ [])
  bootstrap_first now h create =
      let empty = empty_chain h in
      let b = genesis now k.config in
      let (k', done, committed) =
        commit_block-Extends blocks_law snapshots_law k b inv (genesis-IsHash now k.config)
          (rw empty (genesis-Extends now k.config)) (find_block-nil b _ empty) in
      (
        k',
        bootstrap_commits now h create ∙ done,
        committed.inv,
        committed.chain ∙ ap (λ c. c ++ b ∷ []) empty,
      )

  -- Either nothing changes, and there is a chain or none is to be created; or there is no chain, and
  -- the genesis block becomes the whole chain.
  abbrev pub Boots : ℤ → Kernel S T → Type 0
  Boots now k' =
      ((k' ≡ k) × ((chain_of blocks_law snapshots_law k ≢ []) ⊎ (k.config.create_genesis ≡ false)))
      ⊎ ((chain_of blocks_law snapshots_law k ≡ [])
          × (k.config.create_genesis ≡ true)
          × (chain_of blocks_law snapshots_law k' ≡ genesis now k.config ∷ []))

  some_chain : k.snapshot.bootstrapped ≡ true → chain_of blocks_law snapshots_law k ≢ []
  some_chain h e = absurd (cc (ap (λ s. s.bootstrapped) (sym inv.summary) ∙ h, e))

  -- Bootstrap of a kernel in its invariant succeeds and keeps the invariant.
  pub bootstrap_outcome :
      (now : ℤ)
      → let result = bootstrap block_store snapshot_store validate now k in
        (status_ok result.0 ≡ true) × Inv blocks_law snapshots_law result.1 × Boots now result.1
  bootstrap_outcome now = elim (Bool-cases k.snapshot.bootstrapped) [
    | inl h ↦ rw (bootstrap_again now h) (refl, inv, inl (refl, inl (some_chain h)))
    | inr h ↦ elim (Bool-cases k.config.create_genesis) [
      | inr skip ↦ rw (bootstrap_skipped now h skip) (refl, inv, inl (refl, inr skip))
      | inl create ↦
          let (k', done, inv', chain) = bootstrap_first now h create in
          rw done (refl, inv', inr (empty_chain h, create, chain))
    ]
  ]

  -- Every block of the chain is found by its id in the kernel's block store.
  pub get_block-IsIn :
      (b : Block)
      → IsIn b (chain_of blocks_law snapshots_law k)
      → block_store.get_block k.blocks b.header.id ≡ some b
  get_block-IsIn b m =
      blocks_law.get_block_lem k.blocks b.header.id inv.valid (All-IsIn b _ inv.hashed m)
      ∙ find_block-IsIn b (chain_of blocks_law snapshots_law k) inv.unique m

  -- For a kernel in its invariant, Chain returns the blocks that were committed, and Head the last one of them, or nothing if there
  -- is none.
  pub head_outcome :
      (get_chain block_store snapshot_store validate k ≡ some (chain_of blocks_law snapshots_law k))
      × (head block_store snapshot_store validate k
          ≡ last_block (chain_of blocks_law snapshots_law k))
  unfolding get_chain head
  head_outcome = elim (Bool-cases k.snapshot.bootstrapped) [
    | inr h ↦ (chain, ground (arith, h) ∙ ap last_block (sym (empty_chain h)))
    | inl h ↦
        let (b, last, member, id) =
          last_block-IsIn (chain_of blocks_law snapshots_law k)
            (ap (λ s. s.bootstrapped) (sym inv.summary) ∙ h) in
        (
          chain,
          ground (arith, h)
              ∙ ap (block_store.get_block k.blocks) (ap (λ s. s.head_id) inv.summary ∙ id)
              ∙ get_block-IsIn b member
              ∙ sym last,
        )
  ]
    where
      chain : block_store.get_chain k.blocks ≡ some (chain_of blocks_law snapshots_law k)
      chain = blocks_law.get_chain_lem k.blocks inv.valid
