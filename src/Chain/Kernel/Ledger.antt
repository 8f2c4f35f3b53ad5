-- ===== src/Chain/Kernel/Ledger.antt =====
-- The abstract view of a kernel: the list of its blocks, how they link, and the snapshot that
-- sums them up.
use blocxxi.Base.{
  ℕ, suc, ◌+◌, ◌-◌, ◌%◌, ◌≡◌, refl, List, [], ◌∷◌, ◌++◌, not, is_empty, length, length-append,
  arith,
}
use blocxxi.Core.Primitives.{Block, BlockId, Transaction, ChainSnapshot, empty_id, word}

-- The blocks extend one another: `previous` is the id in front of them, `height` the height of the
-- first one.
abbrev pub IsLinked : BlockId → ℕ → List Block → Type 0
IsLinked previous height [] = Unit
IsLinked previous height (b ∷ bs) =
    (b.header.previous_id ≡ previous)
    × (b.header.height ≡ height % word)
    × IsLinked b.header.id (suc height) bs

-- The id of the last block, `previous` if there is none.
abbrev pub last_id : BlockId → List Block → BlockId
last_id previous [] = previous
last_id previous (b ∷ bs) = last_id b.header.id bs

-- All transactions of the blocks, in order.
abbrev pub all_transactions : List Block → List Transaction
all_transactions [] = []
all_transactions (b ∷ bs) = b.transactions ++ all_transactions bs

-- The snapshot that sums up a chain.
abbrev pub snapshot_of : List Block → ChainSnapshot
snapshot_of chain = record {
  height = (length chain - 1) % word;
  head_id = last_id empty_id chain;
  block_count = length chain % word;
  accepted_transactions = length (all_transactions chain) % word;
  bootstrapped = not (is_empty chain);
}

pub IsLinked-append :
    (previous : BlockId) (height : ℕ) (chain : List Block) (b : Block)
    → IsLinked previous height chain
    → b.header.previous_id ≡ last_id previous chain
    → b.header.height ≡ (height + length chain) % word
    → IsLinked previous height (chain ++ b ∷ [])
IsLinked-append previous height [] b h p q = (p, omega arith, tt)
IsLinked-append previous height (c ∷ chain) b h p q =
    (h.0, h.1, IsLinked-append c.header.id (suc height) chain b h.2 p (omega arith))

pub last_id-append :
    (previous : BlockId) (chain : List Block) (b : Block)
    → last_id previous (chain ++ b ∷ []) ≡ b.header.id
last_id-append previous [] b = refl
last_id-append previous (c ∷ chain) b = last_id-append c.header.id chain b

pub length-all_transactions-append :
    (chain : List Block) (b : Block)
    → length (all_transactions (chain ++ b ∷ []))
      ≡ length (all_transactions chain) + length b.transactions
length-all_transactions-append [] b = omega (arith, length-append b.transactions [])
length-all_transactions-append (c ∷ chain) b = omega (
  arith,
  length-append c.transactions (all_transactions (chain ++ b ∷ [])),
  length-append c.transactions (all_transactions chain),
  length-all_transactions-append chain b,
)
