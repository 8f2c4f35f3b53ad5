-- ===== src/Storage/File.antt =====
-- src/Blocxxi/Storage/file_store.cpp: the text that the block files are written in and named by. The
-- files as a whole are in Blocks and Snapshots, the stores over them in Stores.
pub mod Blocks
pub mod Snapshots
pub mod Stores
use blocxxi.Base.{
  ℕ, ◌+◌, ◌-◌, ◌/◌, ◌<◌, ◌≡◌, refl, ap, ◌∙◌, [], ◌∷◌, ◌++◌, Bytes, IsByte, All, true, false, none,
  some, length, take, drop, replicate, length-replicate, is_empty, if◌then◌else◌, index_of,
  to_string, text, Outcome, ok, arith, append-nil,
}
use blocxxi.Codec.Hex.{encode, decode}
use blocxxi.Codec.Hex.RoundTrip.{decode-encode, length-encode}
use blocxxi.Crypto.Hash.{to_hex}
use blocxxi.Core.Primitives.{Block}

-- EncodeString
unfoldable pub encode_text : Bytes → Bytes
unfolding encode
encode_text value = encode value false true

-- DecodeString
unfoldable pub decode_text : Bytes → Outcome Bytes
unfolding decode
decode_text hex_value =
    let bytes = replicate (length hex_value / 2) 0 in
    if is_empty hex_value then ok bytes else decode hex_value bytes false

-- The name of a block's file in BlockPath.
unfoldable pub block_file_name : Block → Bytes
unfolding to_hex to_string
block_file_name block =
    to_string block.header.height ++ (b'-' ∷ (to_hex block.header.id ++ text ".blk"))

-- ParseLine
unfoldable pub parse_line : Bytes → Bytes × Bytes
unfolding index_of
parse_line line = elim (index_of b'=' line) [
  | none ↦ (line, [])
  | some separator ↦ (take separator line, drop (separator + 1) line)
]

decode-encode_sized :
    (value : Bytes)
    → All IsByte value
    → 0 < length value
    → decode (encode value false true) (replicate (length (encode value false true) / 2) 0) false
      ≡ ok value
decode-encode_sized value bytes some_byte =
    let dest = replicate {A = ℕ} (length (encode value false true) / 2) 0 in
    let doubled = length-encode value false true in
    let size = length-replicate {A = ℕ} (length (encode value false true) / 2) 0 in
    let no_room : length dest - length value ≡ 0 = omega (arith, doubled, size) in
    decode-encode value dest false true bytes some_byte (omega (arith, doubled, size))
    ∙ ap (λ m. ok (value ++ replicate m 0)) no_room
    ∙ ap ok (append-nil value)

-- A text of bytes, written as EncodeString does, is read back by DecodeString.
pub decode_text-encode :
    (value : Bytes) → All IsByte value → decode_text (encode_text value) ≡ ok value
unfolding decode_text encode_text
decode_text-encode [] bytes = refl
decode_text-encode (c ∷ value) bytes = decode-encode_sized (c ∷ value) bytes (omega arith)
