-- ===== src/Bitcoin/Merkle/Laws.antt =====
-- The Merkle loop ends, and what it confuses.
use mathlib.Core.List.{reverse}
use blocxxi.Base.{
  ℕ, zero, suc, ◌+◌, ◌/◌, ◌≡◌, refl, ap, ◌<◌, [], ◌∷◌, List, Bytes, Option, none, some, ok, length,
  arith,
}
use blocxxi.Crypto.Hash.{Hash}
use blocxxi.Bitcoin.Wire.{Outside, to_hex}
use blocxxi.Bitcoin.Merkle.{
  txid_hash, add_hash, first_layer, layer_root, next_layer, merkle_loop, root_hex,
  compute_merkle_root_hex,
}

module _ (o : Outside) where
  -- A round halves the layer, rounding up.
  length-next_layer : (layer : List Hash) → length (next_layer o layer) ≡ (length layer + 1) / 2
  unfolding next_layer
  length-next_layer [] = refl
  length-next_layer (x ∷ []) = refl
  length-next_layer (x ∷ y ∷ layer) = omega (arith, length-next_layer layer)

  merkle_loop_ends :
      (fuel : ℕ) (layer : List Hash)
      → length layer < fuel
      → (root : Hash) × (merkle_loop o fuel layer ≡ ok root)
  unfolding merkle_loop
  merkle_loop_ends zero layer h = absurd (omega arith)
  merkle_loop_ends (suc fuel) [] h = ([], refl)
  merkle_loop_ends (suc fuel) (x ∷ []) h = (x, refl)
  merkle_loop_ends (suc fuel) (x ∷ y ∷ layer) h =
      merkle_loop_ends fuel (next_layer o (x ∷ y ∷ layer))
        (omega (arith, length-next_layer (x ∷ y ∷ layer), h))

  -- The layer has a hash for each id, if there is one.
  Counted : ℕ → Option (List Hash) → Type 0
  Counted n none = Unit
  Counted n (some layer) = length layer ≡ n

  add_hash-Counted :
      (n : ℕ) (hash : Option Hash) (layer : Option (List Hash))
      → Counted n layer
      → Counted (suc n) (add_hash hash layer)
  unfolding add_hash Counted
  add_hash-Counted n none layer h = tt
  add_hash-Counted n (some x) none h = tt
  add_hash-Counted n (some x) (some layer) h = ap suc h

  first_layer-Counted : (txids : List Bytes) → Counted (length txids) (first_layer o txids)
  unfolding first_layer Counted
  first_layer-Counted [] = refl
  first_layer-Counted (t ∷ txids) =
      add_hash-Counted (length txids) (txid_hash o t) (first_layer o txids)
        (first_layer-Counted txids)

  layer_root_ends :
      (fuel n : ℕ) (layer : Option (List Hash))
      → n < fuel
      → Counted n layer
      → (root : Option Bytes) × (layer_root o fuel layer ≡ ok root)
  unfolding layer_root root_hex Counted
  layer_root_ends fuel n none h c = (none, refl)
  layer_root_ends fuel n (some layer) h c =
      let (root, ends) = merkle_loop_ends fuel layer (omega (arith, h, c)) in
      (some (to_hex (reverse root)), ap root_hex ends)

  -- ComputeMerkleRootHex ends: a round for each transaction id, and one more, are enough.
  pub compute_merkle_root_hex_ends :
      (fuel : ℕ) (txids : List Bytes)
      → length txids < fuel
      → (root : Option Bytes) × (compute_merkle_root_hex o fuel txids ≡ ok root)
  unfolding compute_merkle_root_hex
  compute_merkle_root_hex_ends fuel [] h = (none, refl)
  compute_merkle_root_hex_ends fuel (t ∷ txids) h =
      layer_root_ends fuel (length (t ∷ txids)) (first_layer o (t ∷ txids)) h
        (first_layer-Counted (t ∷ txids))
