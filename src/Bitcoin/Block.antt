-- ===== src/Bitcoin/Block.antt =====
-- ParseBlockPayload and ParseBlockMetadata in src/Blocxxi/Bitcoin/adapter.cpp. std::size_t and
-- std::uint64_t are numbers modulo 2^64; the offset wraps only where the code adds a length that
-- stands in the payload.
pub mod Metadata
pub mod Overflow
use mathlib.Core.List.{reverse}
use blocxxi.Base.{
  ℕ, zero, suc, ◌+◌, ◌-◌, ◌*◌, ◌%◌, ◌^◌, ◌++◌, [], ◌∷◌, List, Bytes, Bool, true, false, Option,
  none, some, not, ◌&&◌, if◌then◌else◌, ltb, leb, ◌==◌, length, take, drop, bytes_eq, Outcome, ok,
  ◌>>=◌,
}
use blocxxi.Codec.Hex.{char_at}
use blocxxi.Bitcoin.Wire.{
  Outside, double_sha256, to_hex, wire_hash_to_hex, little_endian, read_compact_size,
}
use blocxxi.Bitcoin.Merkle.{compute_merkle_root_hex}

abbrev pub word : ℕ
word = 2 ^ 64

pub record BlockBody : Type 0 where
  pub block_hash_hex : Bytes
  pub payload : Bytes

-- A number of `width` bytes at the offset, as std::memcpy copies it.
unfoldable pub read_number : Bytes → ℕ → ℕ → ℕ
unfolding little_endian
read_number payload offset width = little_endian (take width (drop offset payload))

-- The bytes of a range, as append_range inserts them, where it begins before its end.
unfoldable pub range : Bytes → ℕ → ℕ → Bytes
range payload begin end = take (end - begin) (drop begin payload)

-- The hash of the 80 bytes of a header, in the order in which it is printed.
unfoldable pub header_hash_hex : Outside → Bytes → Bytes
unfolding double_sha256 wire_hash_to_hex
header_hash_hex o payload = wire_hash_to_hex (double_sha256 o (take 80 payload))

-- ParseBlockPayload
unfoldable pub parse_block_payload : Outside → Bytes → Option BlockBody
unfolding header_hash_hex
parse_block_payload o payload =
    if ltb (length payload) 80
    then none
    else some (record { block_hash_hex = header_hash_hex o payload; payload = payload })

-- The lambda read_bytes: the offset behind `count` bytes.
unfoldable pub read_bytes : Bytes → ℕ → ℕ → Option ℕ
read_bytes payload offset count =
    let next = (offset + count) % word in if ltb (length payload) next then none else some next

-- A compact size, and as many bytes.
unfoldable pub read_sized : Bytes → ℕ → Option ℕ
unfolding read_compact_size read_bytes
read_sized payload offset = elim (read_compact_size payload offset) [
  | none ↦ none
  | some found ↦ read_bytes payload found.1 found.0
]

-- The body of the loop over inputs.
unfoldable pub read_input : Bytes → ℕ → Option ℕ
unfolding read_bytes read_sized
read_input payload offset = elim (read_bytes payload offset 36) [
  | none ↦ none
  | some script ↦ elim (read_sized payload script) [
    | none ↦ none
    | some sequence ↦ read_bytes payload sequence 4
  ]
]

unfoldable pub read_inputs : Bytes → ℕ → ℕ → Option ℕ
unfolding read_input
read_inputs payload zero offset = some offset
read_inputs payload (suc count) offset = elim (read_input payload offset) [
  | none ↦ none
  | some next ↦ read_inputs payload count next
]

-- The body of the loop over outputs: the value, and the next offset.
unfoldable pub read_output : Bytes → ℕ → Option (ℕ × ℕ)
unfolding read_number read_sized
read_output payload offset =
    let value = read_number payload offset 8 in
    if ltb (length payload) (offset + 8)
    then none
    else elim (read_sized payload (offset + 8)) [ none ↦ none | some next ↦ some (value, next) ]

-- The loop over outputs, with tx_output_total.
unfoldable pub read_outputs : Bytes → ℕ → ℕ → ℕ → Option (ℕ × ℕ)
unfolding read_output
read_outputs payload zero offset total = some (total, offset)
read_outputs payload (suc count) offset total = elim (read_output payload offset) [
  | none ↦ none
  | some found ↦ read_outputs payload count found.1 ((total + found.0) % word)
]

-- The items of a witness, and the loop over the inputs' witnesses.
unfoldable pub read_items : Bytes → ℕ → ℕ → Option ℕ
unfolding read_sized
read_items payload zero offset = some offset
read_items payload (suc count) offset = elim (read_sized payload offset) [
  | none ↦ none
  | some next ↦ read_items payload count next
]

unfoldable pub read_witness : Bytes → ℕ → Option ℕ
unfolding read_compact_size read_items
read_witness payload offset = elim (read_compact_size payload offset) [
  | none ↦ none
  | some found ↦ read_items payload found.0 found.1
]

unfoldable pub read_witnesses : Bytes → ℕ → ℕ → Option ℕ
unfolding read_witness
read_witnesses payload zero offset = some offset
read_witnesses payload (suc count) offset = elim (read_witness payload offset) [
  | none ↦ none
  | some next ↦ read_witnesses payload count next
]

-- What one round of the loop over the transactions pushes into the lists of the metadata.
pub record TransactionMetadata : Type 0 where
  pub size : ℕ
  pub version : ℕ
  pub input_count : ℕ
  pub output_count : ℕ
  pub output_value : ℕ
  pub has_witness : Bool
  pub transaction_id : Bytes
  pub witness_id : Bytes

-- The offsets that a round keeps: of the transaction, its inputs, its outputs, and behind them.
pub record Layout : Type 0 where
  pub start : ℕ
  pub inputs : ℕ
  pub outputs : ℕ
  pub outputs_end : ℕ
  pub end : ℕ
  pub input_count : ℕ
  pub output_count : ℕ
  pub output_value : ℕ
  pub has_witness : Bool

-- The test for the marker and the flag of a transaction with witnesses.
unfoldable pub is_marked : Bytes → ℕ → Bool
unfolding char_at
is_marked payload offset =
    leb (offset + 2) (length payload)
    && char_at payload offset == 0
    && not (char_at payload (offset + 1) == 0)

-- A round from the witnesses on.
unfoldable pub read_end : Bytes → Bool → ℕ → ℕ → Option ℕ
unfolding read_witnesses read_bytes
read_end payload marked input_count offset =
    let witnesses = if marked then read_witnesses payload input_count offset else some offset in
    elim witnesses [ none ↦ none | some next ↦ read_bytes payload next 4 ]

-- A round from the outputs on.
unfoldable pub read_rest : Bytes → ℕ → Bool → ℕ → ℕ → ℕ → Option Layout
unfolding read_compact_size read_outputs read_end
read_rest payload start marked inputs input_count outputs =
    elim (read_compact_size payload outputs) [
      | none ↦ none
      | some counted ↦ elim (read_outputs payload counted.0 counted.1 0) [
        | none ↦ none
        | some read ↦ elim (read_end payload marked input_count read.1) [
          | none ↦ none
          | some end ↦ some (record {
            start = start;
            inputs = inputs;
            outputs = outputs;
            outputs_end = read.1;
            end = end;
            input_count = input_count;
            output_count = counted.0;
            output_value = read.0;
            has_witness = marked;
          })
        ]
      ]
    ]

-- A round: where the parts of the transaction stand.
unfoldable pub read_layout : Bytes → ℕ → Option Layout
unfolding is_marked read_compact_size read_inputs read_rest
read_layout payload start =
    let marked = is_marked payload (start + 4) in
    let inputs = if marked then start + 6 else start + 4 in
    let found : Option Layout = elim (read_compact_size payload inputs) [
      | none ↦ none
      | some counted ↦ elim (read_inputs payload counted.0 counted.1) [
        | none ↦ none
        | some outputs ↦ read_rest payload start marked inputs counted.0 outputs
      ]
    ] in
    if ltb (length payload) (start + 4) then none else found

-- The end of a round: the ids are the hashes of the transaction with and without its witnesses.
unfoldable pub transaction_metadata : Outside → Bytes → Layout → TransactionMetadata
unfolding read_number range double_sha256 wire_hash_to_hex
transaction_metadata o payload l = record {
  size = (word + l.end - l.start) % word;
  version = read_number payload l.start 4;
  input_count = l.input_count;
  output_count = l.output_count;
  output_value = l.output_value;
  has_witness = l.has_witness;
  transaction_id = wire_hash_to_hex (
      double_sha256 o (
        range payload l.start (l.start + 4)
        ++ range payload l.inputs l.outputs
        ++ range payload l.outputs l.outputs_end
        ++ range payload (l.end - 4) l.end));
  witness_id = wire_hash_to_hex (double_sha256 o (range payload l.start l.end));
}
