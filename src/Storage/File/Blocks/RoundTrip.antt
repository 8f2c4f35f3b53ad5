-- ===== src/Storage/File/Blocks/RoundTrip.antt =====
-- ReadBlock gives back the block that PutBlock wrote.
use mathlib.Core.List.{append-nil}
use blocxxi.Base.{
  ℕ, ◌<◌, ◌^◌, ◌≡◌, ◌≢◌, sym, ap, ◌∙◌, [], ◌∷◌, List, ◌++◌, Bytes, IsByte, text, String, All,
  All-append, true, false, ok, ◌>>=◌, arith, to_string, to_string_ℤ, append_assoc, ℤ, pos, negsuc,
  suc,
}
use blocxxi.Base.Decimal.{IsDigit}
use blocxxi.Base.Decimal.RoundTrip.{IsInt64, to_string-IsDigit}
use blocxxi.Base.Scan.{lines}
use blocxxi.Base.Scan.RoundTrip.{
  lines-append, split-append, split_last, stoull-to_string, stol-to_string_ℤ,
}
use blocxxi.Codec.Hex.{encode}
use blocxxi.Codec.Hex.Digits.{IsHexDigit, encode-IsHexDigit}
use blocxxi.Crypto.Hash.{IsHash, to_hex}
use blocxxi.Crypto.Hash.Hex.{from_hex-to_hex}
use blocxxi.Core.Primitives.{Block, Transaction}
use blocxxi.Storage.File.{encode_text, parse_line, decode_text-encode}
use blocxxi.Storage.File.Blocks.{
  put_line, transaction_text, transactions_text, block_text, transaction_of, parse_transaction,
  empty_block, set_field, read_line, read_lines, read_block,
}

-- The types of the fields.
pub record IsStorable (t : Transaction) : Type 0 where
  pub id : IsHash 32 t.id
  pub type : All IsByte t.type
  pub payload : All IsByte t.payload
  pub metadata : All IsByte t.metadata

pub record IsStorableBlock (b : Block) : Type 0 where
  pub id : IsHash 32 b.header.id
  pub previous_id : IsHash 32 b.header.previous_id
  pub height : b.header.height < 2 ^ 64
  pub timestamp : IsInt64 b.header.timestamp_utc
  pub source : All IsByte b.header.source
  pub transactions : All IsStorable b.transactions

module _ {P Q : ℕ → Type 0} (weaken : (c : ℕ) → P c → Q c) where
  All_mono : (s : Bytes) → All P s → All Q s
  All_mono [] h = tt
  All_mono (c ∷ s) h = (weaken c h.0, All_mono s h.1)

abbrev pub IsPlain : ℕ → Type 0
IsPlain c = (b'\n' < c) × (c < b'|')

hex-IsPlain : (h : Bytes) → All IsByte h → All IsPlain (encode h false true)
hex-IsPlain h bytes =
    All_mono {P = IsHexDigit} (λ c d. (omega (arith, d), omega (arith, d))) (encode h false true)
      (encode-IsHexDigit true h bytes)

pub to_hex-IsPlain : (h : Bytes) → IsHash 32 h → All IsPlain (to_hex h)
unfolding to_hex
to_hex-IsPlain h is = hex-IsPlain h is.in_range

encode_text-IsPlain : (s : Bytes) → All IsByte s → All IsPlain (encode_text s)
unfolding encode_text
encode_text-IsPlain s h = hex-IsPlain s h

pub to_string-IsPlain : (n : ℕ) → All IsPlain (to_string n)
to_string-IsPlain n =
    All_mono {P = IsDigit} (λ c d. (omega (arith, d), omega (arith, d))) (to_string n)
      (to_string-IsDigit n)

not_bar : (s : Bytes) → All IsPlain s → All (λ c. c ≢ b'|') s
not_bar s h = All_mono {P = IsPlain} (λ c d e. absurd (omega (arith, d, e))) s h

-- Four pieces.
parse_transaction-text :
    (t : Transaction) → IsStorable t → parse_transaction (transaction_text t) ≡ ok t
unfolding parse_transaction transaction_text
parse_transaction-text t h =
    ap transaction_of (
      split-append b'|' (to_hex t.id)
        (encode_text t.type ++ b'|' ∷ (encode_text t.payload ++ b'|' ∷ encode_text t.metadata))
        (not_bar _ (to_hex-IsPlain t.id h.id))
      ∙ ap (λ pieces. to_hex t.id ∷ pieces)
          (split-append b'|' (encode_text t.type)
              (encode_text t.payload ++ b'|' ∷ encode_text t.metadata)
              (not_bar _ (encode_text-IsPlain t.type h.type))
            ∙ ap (λ pieces. encode_text t.type ∷ pieces)
                (split-append b'|' (encode_text t.payload) (encode_text t.metadata)
                    (not_bar _ (encode_text-IsPlain t.payload h.payload))
                  ∙ ap (λ pieces. encode_text t.payload ∷ pieces)
                      (split_last b'|' (encode_text t.metadata)
                        (not_bar _ (encode_text-IsPlain t.metadata h.metadata))))))
    ∙ parts
  where
    parts :
        transaction_of
          (to_hex t.id ∷ encode_text t.type ∷ encode_text t.payload ∷ encode_text t.metadata ∷ [])
        ≡ ok t
    parts =
        unfold transaction_of in
        simp (
          decode_text-encode t.payload h.payload,
          from_hex-to_hex 32 t.id (omega arith) h.id,
          decode_text-encode t.type h.type,
          decode_text-encode t.metadata h.metadata,
        )

abbrev pub IsLine : Bytes → Type 0
IsLine s = All (λ c. c ≢ b'\n') s

pub plain-IsLine : (s : Bytes) → All IsPlain s → IsLine s
plain-IsLine s h = All_mono {P = IsPlain} (λ c d e. absurd (omega (arith, d, e))) s h

-- A line that was written is read by one round.
read_lines-put_line :
    (prefix : String) (value rest : Bytes) (b c : Block)
    → IsLine (text prefix)
    → IsLine value
    → read_line b (text prefix ++ value) ≡ ok c
    → read_lines (lines (put_line prefix value rest)) b ≡ read_lines (lines rest) c
unfolding read_lines
read_lines-put_line prefix value rest b c clean plain read =
    ap (λ s. read_lines (lines s) b) (sym (append_assoc (text prefix) value (b'\n' ∷ rest)))
    ∙ ap (λ ls. read_lines ls b)
        (lines-append (text prefix ++ value) rest
          (All-append (λ d. d ≢ b'\n') (text prefix) value clean plain))
    ∙ ap (λ m. m >>= read_lines (lines rest)) read

to_string_ℤ-IsPlain : (i : ℤ) → All IsPlain (to_string_ℤ i)
unfolding to_string_ℤ
to_string_ℤ-IsPlain (pos n) = to_string-IsPlain n
to_string_ℤ-IsPlain (negsuc n) = (omega arith, to_string-IsPlain (suc n))

IsLine-bar : (s t : Bytes) → IsLine s → IsLine t → IsLine (s ++ b'|' ∷ t)
IsLine-bar s t h k = All-append (λ c. c ≢ b'\n') s (b'|' ∷ t) h (λ e. absurd (omega (arith, e)), k)

transaction_text-IsLine : (t : Transaction) → IsStorable t → IsLine (transaction_text t)
unfolding transaction_text
transaction_text-IsLine t h =
    IsLine-bar (to_hex t.id) _ (plain-IsLine _ (to_hex-IsPlain t.id h.id)) (
      IsLine-bar (encode_text t.type) _ (plain-IsLine _ (encode_text-IsPlain t.type h.type)) (
        IsLine-bar (encode_text t.payload) _
          (plain-IsLine _ (encode_text-IsPlain t.payload h.payload))
          (plain-IsLine _ (encode_text-IsPlain t.metadata h.metadata))))

-- What a round does, by the field.
module _ (b : Block) where
  read_id :
      (id : Bytes)
      → IsHash 32 id
      → read_line b (text "id=" ++ to_hex id)
        ≡ ok (record b { header = record b.header { id = id } })
  unfolding read_line set_field parse_line text
  read_id id h =
      ap (λ m. m >>= λ i. ok (record b { header = record b.header { id = i } }))
        (from_hex-to_hex 32 id (omega arith) h)

  read_previous :
      (id : Bytes)
      → IsHash 32 id
      → read_line b (text "previous=" ++ to_hex id)
        ≡ ok (record b { header = record b.header { previous_id = id } })
  unfolding read_line set_field parse_line text
  read_previous id h =
      ap (λ m. m >>= λ i. ok (record b { header = record b.header { previous_id = i } }))
        (from_hex-to_hex 32 id (omega arith) h)

  read_height :
      (n : ℕ)
      → n < 2 ^ 64
      → read_line b (text "height=" ++ to_string n)
        ≡ ok (record b { header = record b.header { height = n } })
  unfolding read_line set_field parse_line text
  read_height n h =
      ap (λ m. m >>= λ i. ok (record b { header = record b.header { height = i } }))
        (stoull-to_string n h)

  read_timestamp :
      (i : ℤ)
      → IsInt64 i
      → read_line b (text "timestamp=" ++ to_string_ℤ i)
        ≡ ok (record b { header = record b.header { timestamp_utc = i } })
  unfolding read_line set_field parse_line text
  read_timestamp i h =
      ap (λ m. m >>= λ j. ok (record b { header = record b.header { timestamp_utc = j } }))
        (stol-to_string_ℤ i h)

  read_source :
      (s : Bytes)
      → All IsByte s
      → read_line b (text "source=" ++ encode_text s)
        ≡ ok (record b { header = record b.header { source = s } })
  unfolding read_line set_field parse_line text
  read_source s h =
      ap (λ m. m >>= λ t. ok (record b { header = record b.header { source = t } }))
        (decode_text-encode s h)

  read_transaction :
      (t : Transaction)
      → IsStorable t
      → read_line b (text "tx=" ++ transaction_text t)
        ≡ ok (record b { transactions = b.transactions ++ t ∷ [] })
  unfolding read_line set_field parse_line text
  read_transaction t h =
      ap (λ m. m >>= λ u. ok (record b { transactions = b.transactions ++ u ∷ [] }))
        (parse_transaction-text t h)

-- The lines of transactions add them to those of the block.
read_lines-transactions :
    (ts : List Transaction) (b : Block)
    → All IsStorable ts
    → read_lines (lines (transactions_text ts)) b
      ≡ ok (record b { transactions = b.transactions ++ ts })
unfolding transactions_text
read_lines-transactions [] b h =
    unfold lines read_lines in
    ap (λ ts. ok (record b { transactions = ts })) (sym (append-nil b.transactions))
read_lines-transactions (t ∷ ts) b h =
    read_lines-put_line "tx=" (transaction_text t) (transactions_text ts) b
      (record b { transactions = b.transactions ++ t ∷ [] }) (unfold text in omega arith)
      (transaction_text-IsLine t h.0) (read_transaction b t h.0)
    ∙ read_lines-transactions ts (record b { transactions = b.transactions ++ t ∷ [] }) h.1
    ∙ ap (λ us. ok (record b { transactions = us })) (append_assoc b.transactions (t ∷ []) ts)

-- ReadBlock gives back the block whose text PutBlock wrote, where its ids have 32 bytes, its height
-- 64 bits, and its time is a std::int64_t.
pub read_block-block_text : (b : Block) → IsStorableBlock b → read_block (block_text b) ≡ ok b
unfolding read_block block_text
read_block-block_text b h =
    let x : Block = record empty_block {
      header = record empty_block.header { id = b.header.id };
    } in
    let y : Block = record x { header = record x.header { previous_id = b.header.previous_id } } in
    let z : Block = record y { header = record y.header { height = b.header.height } } in
    let w : Block = record z {
      header = record z.header { timestamp_utc = b.header.timestamp_utc };
    } in
    let v : Block = record w { header = record w.header { source = b.header.source } } in
    read_lines-put_line "id=" (to_hex b.header.id) _ empty_block x (unfold text in omega arith)
      (plain-IsLine _ (to_hex-IsPlain b.header.id h.id)) (read_id empty_block b.header.id h.id)
    ∙ read_lines-put_line "previous=" (to_hex b.header.previous_id) _ x y
        (unfold text in omega arith)
        (plain-IsLine _ (to_hex-IsPlain b.header.previous_id h.previous_id))
        (read_previous x b.header.previous_id h.previous_id)
    ∙ read_lines-put_line "height=" (to_string b.header.height) _ y z (unfold text in omega arith)
        (plain-IsLine _ (to_string-IsPlain b.header.height))
        (read_height y b.header.height h.height)
    ∙ read_lines-put_line "timestamp=" (to_string_ℤ b.header.timestamp_utc) _ z w
        (unfold text in omega arith) (plain-IsLine _ (to_string_ℤ-IsPlain b.header.timestamp_utc))
        (read_timestamp z b.header.timestamp_utc h.timestamp)
    ∙ read_lines-put_line "source=" (encode_text b.header.source) _ w v (unfold text in omega arith)
        (plain-IsLine _ (encode_text-IsPlain b.header.source h.source))
        (read_source w b.header.source h.source)
    ∙ read_lines-transactions b.transactions v h.transactions
