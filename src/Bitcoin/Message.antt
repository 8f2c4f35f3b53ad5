-- ===== src/Bitcoin/Message.antt =====
-- The message frame of src/Blocxxi/Bitcoin/adapter.cpp, the payloads that are sent, and the loops
-- that read messages. A socket is the bytes that the peer sends before it closes or fails.
pub mod RoundTrip
use blocxxi.Base.{
  ℕ, zero, suc, ◌-◌, ◌++◌, [], ◌∷◌, List, Bytes, text, Bool, true, false, Option, none, some, not,
  ◌&&◌, if◌then◌else◌, ltb, leb, ◌==◌, length, take, drop, replicate, bytes_eq, ◌/◌, ◌%◌, Outcome,
  ok, out_of_fuel, ◌>>=◌,
}
use blocxxi.Crypto.Hash.{Hash}
use blocxxi.Bitcoin.Wire.{
  Outside, double_sha256, append_little_endian, append_compact_size, little_endian,
  wire_hash_from_hex,
}

abbrev pub protocol_version : ℕ
protocol_version = 70016

-- kSignetMagic
abbrev pub signet_magic : Bytes
signet_magic = 0x0a ∷ 0x03 ∷ 0xcf ∷ 0x40 ∷ []

-- The command in its twelve bytes. The commands of the callers are not longer.
unfoldable pub padded_command : Bytes → Bytes
padded_command command = command ++ replicate (12 - length command) 0

unfoldable pub encode_message : Outside → Bytes → Bytes → Bytes
unfolding padded_command append_little_endian double_sha256
encode_message o command payload =
    (signet_magic ++ padded_command command)
    ++ ((append_little_endian (length payload) 4 ++ take 4 (double_sha256 o payload)) ++ payload)

-- EncodeGetHeadersPayload
unfoldable pub encode_get_headers_payload : Outside → Bytes → Option Bytes
unfolding wire_hash_from_hex append_little_endian append_compact_size
encode_get_headers_payload o locator_hash_hex = elim (wire_hash_from_hex o locator_hash_hex) [
  | none ↦ none
  | some locator ↦ some (
      append_little_endian protocol_version 4
      ++ (append_compact_size 1 ++ (locator ++ replicate 32 0)))
]

-- The loop of EncodeGetDataPayload. An inventory of type 2 names a block.
unfoldable pub inventory : Outside → List Bytes → Option Bytes
unfolding wire_hash_from_hex append_little_endian
inventory o [] = some []
inventory o (hash_hex ∷ hashes) = elim (wire_hash_from_hex o hash_hex) [
  | none ↦ none
  | some hash ↦ elim (inventory o hashes) [
    | none ↦ none
    | some rest ↦ some (append_little_endian 2 4 ++ (hash ++ rest))
  ]
]

unfoldable pub encode_get_data_payload : Outside → List Bytes → Option Bytes
unfolding append_compact_size inventory
encode_get_data_payload o hashes = elim (inventory o hashes) [
  | none ↦ none
  | some items ↦ some (append_compact_size (length hashes) ++ items)
]

-- ReadExact: the bytes and what the peer sends behind them, or nothing where it sends fewer.
unfoldable pub read_exact : ℕ → Bytes → Option (Bytes × Bytes)
read_exact size stream =
    if ltb (length stream) size then none else some (take size stream, drop size stream)

pub record DecodedMessage : Type 0 where
  pub command : Bytes
  pub payload : Bytes

-- The command of a header: its bytes up to a 0.
unfoldable pub until_zero : Bytes → Bytes
until_zero [] = []
until_zero (b ∷ bytes) = let rest = until_zero bytes in if b == 0 then [] else b ∷ rest

-- ReadMessage from the payload on.
unfoldable pub check_payload :
    Outside → Bytes → Option (Bytes × Bytes) → Option (DecodedMessage × Bytes)
unfolding until_zero double_sha256 bytes_eq
check_payload o header none = none
check_payload o header (some (payload, stream)) =
    if not (bytes_eq (take 4 (double_sha256 o payload)) (take 4 (drop 20 header)))
    then none
    else some (record { command = until_zero (take 12 (drop 4 header)); payload = payload }, stream)

-- ReadMessage from the test of the magic bytes on.
unfoldable pub check_header : Outside → Option (Bytes × Bytes) → Option (DecodedMessage × Bytes)
unfolding check_payload read_exact little_endian bytes_eq
check_header o none = none
check_header o (some (header, stream)) =
    if not (bytes_eq signet_magic (take 4 header))
    then none
    else check_payload o header (read_exact (little_endian (take 4 (drop 16 header))) stream)

unfoldable pub read_message : Outside → Bytes → Option (DecodedMessage × Bytes)
unfolding check_header read_exact
read_message o stream = check_header o (read_exact 24 stream)
