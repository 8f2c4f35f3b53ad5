-- ===== src/Chain/Kernel/Validation.antt =====
-- What the basic validator accepts: exactly the blocks that extend the chain.
use blocxxi.Base.{
  ◌%◌, ◌≡◌, ◌↔◌, refl, List, [], ◌∷◌, ◌++◌, true, false, is_empty, length, arith, length-append,
  bytes_eq_iff,
}
use blocxxi.Core.Status.{status_ok, success}
use blocxxi.Core.Primitives.{Block, empty_id, word}
use blocxxi.Chain.Kernel.{validate, extend_snapshot}
use blocxxi.Chain.Kernel.Ledger.{
  last_id, snapshot_of, last_id-append, length-all_transactions-append,
}

-- The block may follow the chain: it names a source, it links to the last block at the next height,
-- and it carries transactions unless it is the first block.
pub record Extends (chain : List Block) (b : Block) : Type 0 where
  pub source : is_empty b.header.source ≡ false
  pub links : b.header.previous_id ≡ last_id empty_id chain
  pub height : b.header.height ≡ length chain % word
  pub carries : is_empty chain ≡ false → is_empty b.transactions ≡ false

is_empty-append : (chain : List Block) (b : Block) → is_empty (chain ++ b ∷ []) ≡ false
is_empty-append [] b = refl
is_empty-append (c ∷ chain) b = refl

validate_sound :
    (chain : List Block) (b : Block)
    → status_ok (validate b (snapshot_of chain)) ≡ true
    → Extends chain b
unfolding validate
validate_sound [] b h = record {
  source = ground arith;
  links = ground (arith, bytes_eq_iff b.header.previous_id empty_id);
  height = ground arith;
  carries = λ p. cc;
}
validate_sound (c ∷ chain) b h = record {
  source = ground arith;
  links = ground (arith, bytes_eq_iff b.header.previous_id (last_id c.header.id chain));
  height = ground arith;
  carries = λ p. ground arith;
}

pub Extends-validate :
    (chain : List Block) (b : Block) → Extends chain b → validate b (snapshot_of chain) ≡ success []
unfolding validate
Extends-validate [] b e = ground (arith, bytes_eq_iff b.header.previous_id empty_id)
Extends-validate (c ∷ chain) b e =
    ground (arith, bytes_eq_iff b.header.previous_id (last_id c.header.id chain))

-- Against the snapshot that sums up a chain, the basic validator accepts a block exactly when the
-- block extends the chain: its source is not empty, its previous id is the id of the last block (the
-- empty id on an empty chain), its height is the number of blocks modulo 2^64, and it has a
-- transaction unless the chain is empty.
pub validate_iff :
    (chain : List Block) (b : Block)
    → (status_ok (validate b (snapshot_of chain)) ≡ true) ↔ Extends chain b
validate_iff chain b = (validate_sound chain b, λ e. rw (Extends-validate chain b e))

-- Where the block extends the chain, the updates that `CommitBlock` makes to the snapshot that sums up
-- the chain give the summary of the longer chain.
pub extend_snapshot-eq :
    (chain : List Block) (b : Block)
    → Extends chain b
    → extend_snapshot (snapshot_of chain) b ≡ snapshot_of (chain ++ b ∷ [])
unfolding extend_snapshot
extend_snapshot-eq chain b e = ground (
  arith,
  length-append chain (b ∷ []),
  last_id-append empty_id chain b,
  length-all_transactions-append chain b,
  is_empty-append chain b,
)
