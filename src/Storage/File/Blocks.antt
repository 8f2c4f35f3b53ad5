-- ===== src/Storage/File/Blocks.antt =====
-- A block as the text of its file, in src/Blocxxi/Storage/file_store.cpp: what PutBlock writes and
-- what ReadBlock makes of a text.
pub mod RoundTrip
use blocxxi.Base.{
  ℕ, ◌+◌, false, [], ◌∷◌, List, ◌++◌, Bytes, text, String, pos, bytes_eq, if◌then◌else◌, to_string,
  to_string_ℤ, Outcome, ok, err, undefined, ◌>>=◌, ◌^◌,
}
use blocxxi.Base.Scan.{lines, split, stoull, stol}
use blocxxi.Crypto.Hash.{to_hex, from_hex}
use blocxxi.Core.Primitives.{Block, Transaction, empty_id}
use blocxxi.Storage.File.{encode_text, decode_text, parse_line}

-- A line that is streamed out, in front of what follows.
abbrev pub put_line : String → Bytes → Bytes → Bytes
put_line prefix value rest = text prefix ++ (value ++ b'\n' ∷ rest)

-- The value of a line `tx=`.
unfoldable pub transaction_text : Transaction → Bytes
unfolding to_hex encode_text
transaction_text t =
    to_hex t.id
    ++ b'|'
      ∷ (encode_text t.type ++ b'|' ∷ (encode_text t.payload ++ b'|' ∷ encode_text t.metadata))

-- The loop of PutBlock over the transactions.
unfoldable pub transactions_text : List Transaction → Bytes
unfolding text transaction_text
transactions_text [] = []
transactions_text (t ∷ ts) = put_line "tx=" (transaction_text t) (transactions_text ts)

-- What PutBlock writes.
unfoldable pub block_text : Block → Bytes
unfolding text to_hex to_string to_string_ℤ encode_text transactions_text
block_text b = put_line "id=" (to_hex b.header.id) (
    put_line "previous=" (to_hex b.header.previous_id) (
      put_line "height=" (to_string b.header.height) (
        put_line "timestamp=" (to_string_ℤ b.header.timestamp_utc)
          (put_line "source=" (encode_text b.header.source) (transactions_text b.transactions)))))

-- ParseTransaction from its parts on. It reads four of them, whether they are there or not.
unfoldable pub transaction_of : List Bytes → Outcome Transaction
unfolding decode_text from_hex
transaction_of (id ∷ type ∷ payload ∷ metadata ∷ _) = do
  payload_bytes ← decode_text payload
  hash ← from_hex 32 id false
  type_text ← decode_text type
  metadata_text ← decode_text metadata
  ok (record { id = hash; type = type_text; payload = payload_bytes; metadata = metadata_text })
transaction_of _ = err (undefined "parts out of range")

unfoldable pub parse_transaction : Bytes → Outcome Transaction
unfolding split transaction_of
parse_transaction line = transaction_of (split b'|' line)

-- core::Block {}
abbrev pub empty_block : Block
empty_block = record {
  header = record {
    id = empty_id;
    previous_id = empty_id;
    height = 0;
    timestamp_utc = pos 0;
    source = [];
  };
  transactions = [];
}

-- The branches of the loop of ReadBlock.
unfoldable pub set_field : Block → Bytes → Bytes → Outcome Block
unfolding text bytes_eq from_hex stoull stol decode_text parse_transaction
set_field b key value =
    if bytes_eq key (text "id")
    then (from_hex 32 value false >>= λ id. ok (record b { header = record b.header { id = id } }))
    else if bytes_eq key (text "previous")
    then (from_hex 32 value false >>= λ id.
        ok (record b { header = record b.header { previous_id = id } }))
    else if bytes_eq key (text "height")
    then (stoull value >>= λ n. ok (record b { header = record b.header { height = n } }))
    else if bytes_eq key (text "timestamp")
    then (stol (2 ^ 63) value >>= λ i.
        ok (record b { header = record b.header { timestamp_utc = i } }))
    else if bytes_eq key (text "source")
    then (decode_text value >>= λ s. ok (record b { header = record b.header { source = s } }))
    else if bytes_eq key (text "tx")
    then (parse_transaction value >>= λ t.
        ok (record b { transactions = b.transactions ++ t ∷ [] }))
    else ok b

-- A round of the loop.
unfoldable pub read_line : Block → Bytes → Outcome Block
unfolding set_field parse_line
read_line b [] = ok b
read_line b (c ∷ line) = set_field b (parse_line (c ∷ line)).0 (parse_line (c ∷ line)).1

unfoldable pub read_lines : List Bytes → Block → Outcome Block
unfolding read_line
read_lines [] b = ok b
read_lines (line ∷ rest) b = read_line b line >>= λ c. read_lines rest c

-- ReadBlock, at a file with this text.
unfoldable pub read_block : Bytes → Outcome Block
unfolding lines read_lines
read_block s = read_lines (lines s) empty_block
