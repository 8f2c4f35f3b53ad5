-- ===== src/Bitcoin/Wire.antt =====
-- The encodings of src/Blocxxi/Bitcoin/adapter.cpp: little-endian numbers, compact sizes, hashes as
-- text. SHA-256 and the reading of hexadecimal digits by a std::stringstream are parameters.
pub mod RoundTrip
use mathlib.Core.List.{reverse}
use blocxxi.Base.{
  ℕ, zero, suc, ◌+◌, ◌*◌, ◌/◌, ◌%◌, ◌≡◌, ◌<◌, ◌++◌, [], ◌∷◌, List, Bytes, Bool, true, false, Option,
  none, some, if◌then◌else◌, ltb, leb, ◌==◌, length, take, drop, not,
}
use blocxxi.Core.EventRecord.{encode_hex}
use blocxxi.Crypto.Hash.{Hash, IsHash}

-- What the code takes from outside: SHA-256, and the number that a std::stringstream reads from a
-- text of hexadecimal digits, if it does not fail.
pub record Outside : Type 0 where
  pub sha256 : Bytes → Hash
  pub read_hex : Bytes → Option ℕ

pub record IsOutside (o : Outside) : Type 0 where
  pub sha256-IsHash : (b : Bytes) → IsHash 32 (o.sha256 b)

-- DoubleSha256
unfoldable pub double_sha256 : Outside → Bytes → Hash
double_sha256 o payload = o.sha256 (o.sha256 payload)

-- ToHex, whose loop is that of EncodeHex for events.
unfoldable pub to_hex : Bytes → Bytes
unfolding encode_hex
to_hex bytes = encode_hex bytes

-- WireHashToHex
unfoldable pub wire_hash_to_hex : Bytes → Bytes
unfolding to_hex
wire_hash_to_hex bytes = to_hex (reverse bytes)

-- The loops of HexToBytes, WireHashFromHex and HashBytesFromHex: two digits a byte.
unfoldable pub read_pairs : Outside → Bytes → Option Bytes
read_pairs o [] = some []
read_pairs o (a ∷ []) = none
read_pairs o (a ∷ b ∷ hex) = elim (o.read_hex (a ∷ b ∷ [])) [
  | none ↦ none
  | some parsed ↦ elim (read_pairs o hex) [ none ↦ none | some bytes ↦ some (parsed % 256 ∷ bytes) ]
]

-- HexToBytes
unfoldable pub hex_to_bytes : Outside → Bytes → Option Bytes
unfolding read_pairs
hex_to_bytes o hex = if not (length hex % 2 == 0) then none else read_pairs o hex

-- HashBytesFromHex
unfoldable pub hash_bytes_from_hex : Outside → Bytes → Option Bytes
unfolding read_pairs
hash_bytes_from_hex o hash_hex = if not (length hash_hex == 64) then none else read_pairs o hash_hex

-- WireHashFromHex, which fills its array from the back.
unfoldable pub wire_hash_from_hex : Outside → Bytes → Option Bytes
unfolding read_pairs
wire_hash_from_hex o hash_hex =
    if not (length hash_hex == 64)
    then none
    else elim (read_pairs o hash_hex) [ none ↦ none | some bytes ↦ some (reverse bytes) ]

-- What AppendLittleEndian appends: `width` bytes, the least significant one first.
unfoldable pub append_little_endian : ℕ → ℕ → Bytes
append_little_endian value zero = []
append_little_endian value (suc width) = (value % 256) ∷ append_little_endian (value / 256) width

-- What AppendCompactSize appends.
unfoldable pub append_compact_size : ℕ → Bytes
unfolding append_little_endian
append_compact_size value =
    if ltb value 253
    then value ∷ []
    else if leb value 0xFFFF
    then 0xFD ∷ append_little_endian value 2
    else if leb value 0xFFFFFFFF
    then 0xFE ∷ append_little_endian value 4
    else 0xFF ∷ append_little_endian value 8

-- A number from its bytes, the least significant one first. Bytes that are shifted to different
-- places are or-ed by adding them.
unfoldable pub little_endian : Bytes → ℕ
little_endian [] = 0
little_endian (b ∷ bytes) = b + 256 * little_endian bytes

-- The width by the first byte of a compact size.
unfoldable pub compact_width : ℕ → ℕ
compact_width first = if first == 0xFD then 2 else if first == 0xFE then 4 else 8

-- ReadCompactSize at the payload from `offset` on: the value and the next offset.
unfoldable pub read_compact_at : Bytes → ℕ → Option (ℕ × ℕ)
unfolding compact_width little_endian
read_compact_at [] offset = none
read_compact_at (first ∷ after) offset =
    if ltb first 253
    then some (first, offset + 1)
    else if ltb (length after) (compact_width first)
    then none
    else some (little_endian (take (compact_width first) after), offset + 1 + compact_width first)

unfoldable pub read_compact_size : Bytes → ℕ → Option (ℕ × ℕ)
unfolding read_compact_at
read_compact_size payload offset = read_compact_at (drop offset payload) offset
