-- ===== src/Bitcoin/Merkle.antt =====
-- ComputeMerkleRootHex in src/Blocxxi/Bitcoin/adapter.cpp.
pub mod Laws
pub mod Twin
use mathlib.Core.List.{reverse}
use blocxxi.Base.{
  ℕ, zero, suc, ◌++◌, [], ◌∷◌, List, Bytes, Option, none, some, Outcome, ok, out_of_fuel, ◌>>=◌,
  not, if◌then◌else◌, ◌==◌, length,
}
use blocxxi.Crypto.Hash.{Hash}
use blocxxi.Bitcoin.Wire.{Outside, double_sha256, hex_to_bytes, to_hex}

-- The hash of a transaction id in its byte order, if it has 32 bytes.
unfoldable pub txid_hash : Outside → Bytes → Option Hash
unfolding hex_to_bytes
txid_hash o txid = elim (hex_to_bytes o txid) [
  | none ↦ none
  | some bytes ↦ if not (length bytes == 32) then none else some (reverse bytes)
]

unfoldable pub add_hash : Option Hash → Option (List Hash) → Option (List Hash)
add_hash (some hash) (some layer) = some (hash ∷ layer)
add_hash _ _ = none

-- The loop over the transaction ids.
unfoldable pub first_layer : Outside → List Bytes → Option (List Hash)
unfolding txid_hash add_hash
first_layer o [] = some []
first_layer o (txid ∷ txids) = add_hash (txid_hash o txid) (first_layer o txids)

-- A round of the while loop: the hashes of the pairs, with the last hash twice in an odd layer.
unfoldable pub next_layer : Outside → List Hash → List Hash
unfolding double_sha256
next_layer o [] = []
next_layer o (x ∷ []) = double_sha256 o (x ++ x) ∷ []
next_layer o (x ∷ y ∷ layer) = double_sha256 o (x ++ y) ∷ next_layer o layer

-- The while loop, on fuel for its rounds, and its last layer's front.
unfoldable pub merkle_loop : Outside → ℕ → List Hash → Outcome Hash
unfolding next_layer
merkle_loop o zero layer = out_of_fuel
merkle_loop o (suc fuel) [] = ok []
merkle_loop o (suc fuel) (x ∷ []) = ok x
merkle_loop o (suc fuel) (x ∷ y ∷ layer) = merkle_loop o fuel (next_layer o (x ∷ y ∷ layer))

-- The text of the root.
unfoldable pub root_hex : Outcome Bytes → Outcome (Option Bytes)
unfolding to_hex
root_hex found = do root ← found; ok (some (to_hex (reverse root)))

unfoldable pub layer_root : Outside → ℕ → Option (List Hash) → Outcome (Option Bytes)
unfolding merkle_loop root_hex
layer_root o fuel none = ok none
layer_root o fuel (some layer) = root_hex (merkle_loop o fuel layer)

unfoldable pub compute_merkle_root_hex : Outside → ℕ → List Bytes → Outcome (Option Bytes)
unfolding first_layer layer_root
compute_merkle_root_hex o fuel [] = ok none
compute_merkle_root_hex o fuel (txid ∷ txids) = layer_root o fuel (first_layer o (txid ∷ txids))
