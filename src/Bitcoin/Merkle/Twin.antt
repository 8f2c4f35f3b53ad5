-- ===== src/Bitcoin/Merkle/Twin.antt =====
-- Lists of transaction ids that have the same Merkle root.
use blocxxi.Base.{
  ℕ, zero, suc, ◌%◌, ◌≡◌, refl, sym, ◌∙◌, ap, ◌<◌, ◌++◌, [], ◌∷◌, List, Bytes, Option, none, some,
  length, arith, Option-cases, inl, inr, ◌⊎◌,
}
use blocxxi.Crypto.Hash.{Hash}
use blocxxi.Bitcoin.Wire.{Outside, double_sha256}
use blocxxi.Bitcoin.Merkle.{
  txid_hash, add_hash, first_layer, layer_root, next_layer, merkle_loop, root_hex,
  compute_merkle_root_hex,
}

module _ (o : Outside) where
  -- Behind an even number of hashes, one hash and the same hash twice give the same round.
  next_layer_twin :
      (layer : List Hash) (z : Hash)
      → length layer % 2 ≡ 0
      → next_layer o (layer ++ z ∷ z ∷ []) ≡ next_layer o (layer ++ z ∷ [])
  unfolding next_layer
  next_layer_twin [] z h = refl
  next_layer_twin (x ∷ []) z h = absurd (omega arith)
  next_layer_twin (x ∷ y ∷ layer) z h =
      ap (λ hashes. double_sha256 o (x ++ y) ∷ hashes) (next_layer_twin layer z (omega arith))

  -- The layers of two lists of ids that differ in this way.
  Twins : ℕ → Option (List Hash) → Option (List Hash) → Type 0
  Twins n one two =
      ((one ≡ none) × (two ≡ none))
      ⊎ ((layer : List Hash) × (z : Hash) × (one ≡ some (layer ++ z ∷ []))
          × (two ≡ some (layer ++ z ∷ z ∷ []))
          × (length layer ≡ n))

  first_layer-Twins :
      (txids : List Bytes) (t : Bytes)
      → Twins (length txids) (first_layer o (txids ++ t ∷ [])) (first_layer o (txids ++ t ∷ t ∷ []))
  unfolding first_layer add_hash Twins
  first_layer-Twins [] t = elim (Option-cases (txid_hash o t)) [
    | inl bad ↦ inl (rw bad refl, rw bad refl)
    | inr (z, good) ↦ inr ([], z, rw good refl, rw good refl, refl)
  ]
  first_layer-Twins (u ∷ txids) t = elim (Option-cases (txid_hash o u)) [
    | inl bad ↦ inl (rw bad refl, rw bad refl)
    | inr (x, good) ↦ elim (first_layer-Twins txids t) [
      | inl (one, two) ↦ inl (rw good (rw one refl), rw good (rw two refl))
      | inr (layer, z, one, two, size) ↦
          inr (x ∷ layer, z, rw good (rw one refl), rw good (rw two refl), ap suc size)
    ]
  ]

  merkle_loop_twin :
      (fuel : ℕ) (layer : List Hash) (z : Hash)
      → length layer % 2 ≡ 0
      → 0 < length layer
      → merkle_loop o fuel (layer ++ z ∷ z ∷ []) ≡ merkle_loop o fuel (layer ++ z ∷ [])
  unfolding merkle_loop
  merkle_loop_twin zero layer z even some_hash = refl
  merkle_loop_twin (suc fuel) [] z even some_hash = absurd (omega arith)
  merkle_loop_twin (suc fuel) (x ∷ []) z even some_hash = absurd (omega arith)
  merkle_loop_twin (suc fuel) (x ∷ y ∷ layer) z even some_hash =
      ap (merkle_loop o fuel) (next_layer_twin (x ∷ y ∷ layer) z even)

  layer_root_twin :
      (fuel n : ℕ) (one two : Option (List Hash))
      → n % 2 ≡ 0
      → 0 < n
      → Twins n one two
      → layer_root o fuel two ≡ layer_root o fuel one
  unfolding layer_root Twins
  layer_root_twin fuel n one two even some_id (inl (no_one, no_two)) =
      ap (layer_root o fuel) (no_two ∙ sym no_one)
  layer_root_twin fuel n one two even some_id (inr (layer, z, one_is, two_is, size)) =
      ap (layer_root o fuel) two_is
      ∙ ap root_hex
          (merkle_loop_twin fuel layer z (omega (arith, size, even)) (omega (arith, size, some_id)))
      ∙ ap (layer_root o fuel) (sym one_is)

  -- The root of an odd number of transaction ids, at least three, is the root of the list in which
  -- the last of them stands twice.
  pub compute_merkle_root_hex_twin :
      (fuel : ℕ) (txids : List Bytes) (t : Bytes)
      → length txids % 2 ≡ 0
      → 0 < length txids
      → compute_merkle_root_hex o fuel (txids ++ t ∷ t ∷ [])
        ≡ compute_merkle_root_hex o fuel (txids ++ t ∷ [])
  unfolding compute_merkle_root_hex
  compute_merkle_root_hex_twin fuel [] t even some_id = absurd (omega arith)
  compute_merkle_root_hex_twin fuel (u ∷ txids) t even some_id =
      layer_root_twin fuel (length (u ∷ txids)) (first_layer o (u ∷ txids ++ t ∷ []))
        (first_layer o (u ∷ txids ++ t ∷ t ∷ [])) even some_id (first_layer-Twins (u ∷ txids) t)
