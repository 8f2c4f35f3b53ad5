-- ===== src/Core/Primitives.antt =====
-- src/Blocxxi/Core/primitives.h and primitives.cpp: transactions, blocks, snapshots and the
-- content hash that names them.
pub mod Ids
use blocxxi.Base.{
  ℕ, ◌+◌, ◌*◌, ◌/◌, ◌%◌, ◌^◌, ◌++◌, [], ◌∷◌, List, Bytes, text, Bool, true, ℤ, to_string, bit_xor,
  Option,
}
use blocxxi.Crypto.Hash.{Hash, zero_hash, to_hex}

abbrev pub BlockId : Type 0
BlockId = Hash

abbrev pub TransactionId : Type 0
TransactionId = Hash

-- Hash256 {}
abbrev pub empty_id : Hash
empty_id = zero_hash 32

-- Height and std::size_t are 64 bits wide.
abbrev pub word : ℕ
word = 2 ^ 64

pub record ChainConfig : Type 0 where
  pub chain_id : Bytes
  pub display_name : Bytes
  pub data_directory : Bytes
  pub create_genesis : Bool
  pub genesis_payload : Bytes

pub record Transaction : Type 0 where
  pub id : TransactionId
  pub type : Bytes
  pub payload : Bytes
  pub metadata : Bytes

pub record BlockHeader : Type 0 where
  pub id : BlockId
  pub previous_id : BlockId
  pub height : ℕ
  pub timestamp_utc : ℤ
  pub source : Bytes

pub record Block : Type 0 where
  pub header : BlockHeader
  pub transactions : List Transaction

pub record ChainSnapshot : Type 0 where
  pub height : ℕ
  pub head_id : BlockId
  pub block_count : ℕ
  pub accepted_transactions : ℕ
  pub bootstrapped : Bool

-- ChainSnapshot {}
abbrev pub empty_snapshot : ChainSnapshot
empty_snapshot = record {
  height = 0;
  head_id = empty_id;
  block_count = 0;
  accepted_transactions = 0;
  bootstrapped = Bool.false;
}

abbrev fnv_offset : ℕ
fnv_offset = 1469598103934665603

abbrev fnv_prime : ℕ
fnv_prime = 1099511628211

-- One byte of the loop of `StableHash`: xor it in, multiply in 64 bits.
unfoldable pub fnv_round : ℕ → ℕ → ℕ
fnv_round value byte = bit_xor value byte * fnv_prime % word

unfoldable pub fnv : ℕ → Bytes → ℕ
unfolding fnv_round
fnv value [] = value
fnv value (byte ∷ seed) = fnv (fnv_round value byte) seed

unfoldable pub stable_hash : Bytes → ℕ → ℕ
unfolding fnv
stable_hash seed lane =
    fnv_round (fnv (bit_xor fnv_offset ((lane + 0x9e3779b97f4a7c15) % word)) seed) lane

-- The loop over `offset`: the eight bytes of a lane, most significant one first.
unfoldable pub lane_bytes : ℕ → Bytes
lane_bytes value =
    (value / 2 ^ 56 % 256)
    ∷ (value / 2 ^ 48 % 256)
    ∷ (value / 2 ^ 40 % 256)
    ∷ (value / 2 ^ 32 % 256)
    ∷ (value / 2 ^ 24 % 256)
    ∷ (value / 2 ^ 16 % 256)
    ∷ (value / 2 ^ 8 % 256)
    ∷ (value % 256)
    ∷ []

unfoldable pub make_id : Bytes → Hash
unfolding lane_bytes stable_hash
make_id seed =
    lane_bytes (stable_hash seed 0)
    ++ (lane_bytes (stable_hash seed 1)
        ++ (lane_bytes (stable_hash seed 2) ++ lane_bytes (stable_hash seed 3)))

-- A std::string and a ByteVector are the same bytes.
abbrev pub to_bytes : Bytes → Bytes
to_bytes characters = characters

abbrev pub to_characters : Bytes → Bytes
to_characters bytes = bytes

abbrev pub payload_text : Transaction → Bytes
payload_text t = to_characters t.payload

-- Transaction::FromText. `ToBytes` is the identity on the bytes of a text.
unfoldable pub from_text : Bytes → Bytes → Bytes → Transaction
unfolding make_id
from_text type payload metadata = record {
  id = make_id (type ++ (b'|' ∷ payload) ++ (b'|' ∷ metadata));
  type = type;
  payload = payload;
  metadata = metadata;
}

-- The ids that `MakeNext` appends to its seed.
unfoldable pub transaction_seed : List Transaction → Bytes
unfolding to_hex
transaction_seed [] = []
transaction_seed (t ∷ ts) = b'|' ∷ to_hex t.id ++ transaction_seed ts

unfoldable pub block_seed : BlockId → ℕ → List Transaction → Bytes → Bytes
unfolding transaction_seed to_string
block_seed previous_id height transactions source =
    to_hex previous_id
    ++ (b'|' ∷ to_string height)
    ++ (b'|' ∷ source)
    ++ transaction_seed transactions

-- Block::MakeNext at the time `now`.
unfoldable pub make_next : ℤ → BlockId → ℕ → List Transaction → Bytes → Block
unfolding block_seed make_id
make_next now previous_id height transactions source = record {
  header = record {
    id = make_id (block_seed previous_id height transactions source);
    previous_id = previous_id;
    height = height;
    timestamp_utc = now;
    source = source;
  };
  transactions = transactions;
}
