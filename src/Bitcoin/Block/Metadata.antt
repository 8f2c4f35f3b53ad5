-- ===== src/Bitcoin/Block/Metadata.antt =====
-- ParseBlockMetadata in src/Blocxxi/Bitcoin/adapter.cpp, over the transactions.
use blocxxi.Base.{
  ℕ, zero, suc, ◌+◌, ◌%◌, [], ◌∷◌, List, Bytes, Bool, Option, none, some, if◌then◌else◌, ltb,
  length, bytes_eq, Outcome, ok, ◌>>=◌,
}
use blocxxi.Bitcoin.Wire.{Outside, wire_hash_to_hex, read_compact_size}
use blocxxi.Bitcoin.Merkle.{compute_merkle_root_hex}
use blocxxi.Bitcoin.Block.{
  word, header_hash_hex, read_number, range, TransactionMetadata, read_layout, transaction_metadata,
}

pub record BlockMetadata : Type 0 where
  pub block_hash_hex : Bytes
  pub previous_hash_hex : Bytes
  pub merkle_root_hex : Bytes
  pub version : ℕ
  pub timestamp : ℕ
  pub nonce : ℕ
  pub transaction_count : ℕ
  pub total_output_value : ℕ
  pub merkle_root_matches : Bool
  pub transactions : List TransactionMetadata

-- The loop over the transactions.
unfoldable pub read_transactions : Outside → Bytes → ℕ → ℕ → Option (List TransactionMetadata)
unfolding read_layout transaction_metadata
read_transactions o payload zero offset = some []
read_transactions o payload (suc count) offset = elim (read_layout payload offset) [
  | none ↦ none
  | some l ↦ elim (read_transactions o payload count l.end) [
    | none ↦ none
    | some rest ↦ some (transaction_metadata o payload l ∷ rest)
  ]
]

unfoldable pub transaction_ids : List TransactionMetadata → List Bytes
transaction_ids [] = []
transaction_ids (t ∷ ts) = t.transaction_id ∷ transaction_ids ts

-- The sum of the output values, in 64 bits.
unfoldable pub sum_values : ℕ → List TransactionMetadata → ℕ
sum_values total [] = total
sum_values total (t ∷ ts) = sum_values ((total + t.output_value) % word) ts

-- The end of ParseBlockMetadata, from the Merkle root on.
unfoldable pub make_metadata :
    Outside → Bytes → ℕ → List TransactionMetadata → Option Bytes → Option BlockMetadata
unfolding read_number range wire_hash_to_hex header_hash_hex sum_values bytes_eq
make_metadata o payload count transactions none = none
make_metadata o payload count transactions (some merkle) =
    let merkle_root = wire_hash_to_hex (range payload 36 68) in
    some (record {
      block_hash_hex = header_hash_hex o payload;
      previous_hash_hex = wire_hash_to_hex (range payload 4 36);
      merkle_root_hex = merkle_root;
      version = read_number payload 0 4;
      timestamp = read_number payload 68 4;
      nonce = read_number payload 76 4;
      transaction_count = count;
      total_output_value = sum_values 0 transactions;
      merkle_root_matches = bytes_eq merkle merkle_root;
      transactions = transactions;
    })

unfoldable pub check_transactions :
    Outside → ℕ → Bytes → ℕ → Option (List TransactionMetadata) → Outcome (Option BlockMetadata)
unfolding compute_merkle_root_hex transaction_ids make_metadata
check_transactions o fuel payload count none = ok none
check_transactions o fuel payload count (some transactions) = do
  merkle ← compute_merkle_root_hex o fuel (transaction_ids transactions)
  ok (make_metadata o payload count transactions merkle)

-- `fuel` is for the rounds of the Merkle loop.
unfoldable pub parse_block_metadata : Outside → ℕ → Bytes → Outcome (Option BlockMetadata)
unfolding read_compact_size read_transactions check_transactions
parse_block_metadata o fuel payload =
    let parsed : Outcome (Option BlockMetadata) = elim (read_compact_size payload 80) [
      | none ↦ ok none
      | some counted ↦
          check_transactions o fuel payload counted.0
            (read_transactions o payload counted.0 counted.1)
    ] in
    if ltb (length payload) 81 then ok none else parsed
