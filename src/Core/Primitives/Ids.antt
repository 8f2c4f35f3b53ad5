-- ===== src/Core/Primitives/Ids.antt =====
-- The ids that the code computes are well-formed hashes.
use blocxxi.Base.{ℕ, ◌+◌, ◌≡◌, ◌++◌, arith, Bytes, All-append, IsByte, length-append, List, ℤ}
use blocxxi.Crypto.Hash.{IsHash}
use blocxxi.Core.Primitives.{
  lane_bytes, stable_hash, make_id, block_seed, make_next, Transaction, BlockId,
}

lane_bytes-IsHash : (value : ℕ) → IsHash 8 (lane_bytes value)
unfolding lane_bytes
lane_bytes-IsHash value = record { size = omega arith; in_range = omega arith }

pub IsHash-append :
    {n m : ℕ} (xs ys : Bytes)
    → IsHash n xs
    → IsHash m ys
    → (k : ℕ) → n + m ≡ k
    → IsHash k (xs ++ ys)
IsHash-append xs ys h k total p = record {
  size = omega (arith, length-append xs ys, h.size, k.size);
  in_range = All-append IsByte xs ys h.in_range k.in_range;
}

-- Every id is a hash of 32 bytes.
pub make_id-IsHash : (seed : Bytes) → IsHash 32 (make_id seed)
unfolding make_id
make_id-IsHash seed =
    IsHash-append _ _ (lane_bytes-IsHash (stable_hash seed 0))
      (IsHash-append _ _ (lane_bytes-IsHash (stable_hash seed 1))
        (IsHash-append _ _ (lane_bytes-IsHash (stable_hash seed 2))
          (lane_bytes-IsHash (stable_hash seed 3)) 16 (omega arith))
        24 (omega arith))
      32 (omega arith)

pub make_next-IsHash :
    (now : ℤ) (previous_id : BlockId) (height : ℕ) (transactions : List Transaction)
    (source : Bytes)
    → IsHash 32 (make_next now previous_id height transactions source).header.id
unfolding make_next
make_next-IsHash now previous_id height transactions source =
    make_id-IsHash (block_seed previous_id height transactions source)
