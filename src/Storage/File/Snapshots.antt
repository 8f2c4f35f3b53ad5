-- ===== src/Storage/File/Snapshots.antt =====
-- A chain snapshot as the text of its file, in src/Blocxxi/Storage/file_store.cpp: what Save writes
-- and what Load makes of a text.
use blocxxi.Base.{
  ℕ, ◌<◌, ◌^◌, ◌≡◌, ◌≢◌, refl, sym, ap, ◌∙◌, [], ◌∷◌, List, ◌++◌, Bytes, text, Bool, true, false,
  String, All-append, bytes_eq, if◌then◌else◌, to_string, Outcome, ok, ◌>>=◌, arith, append_assoc,
}
use blocxxi.Base.Scan.{lines, stoull}
use blocxxi.Base.Scan.RoundTrip.{lines-append, stoull-to_string}
use blocxxi.Crypto.Hash.{IsHash, to_hex, from_hex}
use blocxxi.Crypto.Hash.Hex.{from_hex-to_hex}
use blocxxi.Core.Primitives.{ChainSnapshot, empty_snapshot}
use blocxxi.Storage.File.{parse_line}
use blocxxi.Storage.File.Blocks.{put_line}
use blocxxi.Storage.File.Blocks.RoundTrip.{IsLine, plain-IsLine, to_hex-IsPlain, to_string-IsPlain}

unfoldable pub flag_text : Bool → Bytes
flag_text b = if b then b'1' ∷ [] else b'0' ∷ []

-- What Save writes.
unfoldable pub snapshot_text : ChainSnapshot → Bytes
unfolding text to_hex to_string flag_text
snapshot_text s = put_line "height=" (to_string s.height) (
    put_line "head=" (to_hex s.head_id) (
      put_line "block_count=" (to_string s.block_count) (
        put_line "accepted_transactions=" (to_string s.accepted_transactions)
          (put_line "bootstrapped=" (flag_text s.bootstrapped) []))))

-- A round of the loop of Load.
unfoldable pub read_entry : ChainSnapshot → Bytes → Bytes → Outcome ChainSnapshot
unfolding text bytes_eq from_hex stoull
read_entry s key value =
    if bytes_eq key (text "height")
    then (stoull value >>= λ n. ok (record s { height = n }))
    else if bytes_eq key (text "head")
    then (from_hex 32 value false >>= λ id. ok (record s { head_id = id }))
    else if bytes_eq key (text "block_count")
    then (stoull value >>= λ n. ok (record s { block_count = n }))
    else if bytes_eq key (text "accepted_transactions")
    then (stoull value >>= λ n. ok (record s { accepted_transactions = n }))
    else if bytes_eq key (text "bootstrapped")
    then ok (record s { bootstrapped = bytes_eq value (text "1") })
    else ok s

unfoldable pub read_entries : List Bytes → ChainSnapshot → Outcome ChainSnapshot
unfolding read_entry parse_line
read_entries [] s = ok s
read_entries (line ∷ rest) s =
    read_entry s (parse_line line).0 (parse_line line).1 >>= λ t. read_entries rest t

-- Load, at a file with this text.
unfoldable pub read_snapshot : Bytes → Outcome ChainSnapshot
unfolding lines read_entries
read_snapshot s = read_entries (lines s) empty_snapshot

-- The types of the fields.
pub record IsStorableSnapshot (s : ChainSnapshot) : Type 0 where
  pub height : s.height < 2 ^ 64
  pub head_id : IsHash 32 s.head_id
  pub block_count : s.block_count < 2 ^ 64
  pub accepted_transactions : s.accepted_transactions < 2 ^ 64

entry_of : ChainSnapshot → Bytes → Outcome ChainSnapshot
unfolding read_entry parse_line
entry_of s line = read_entry s (parse_line line).0 (parse_line line).1

read_entries-put_line :
    (prefix : String) (value rest : Bytes) (s t : ChainSnapshot)
    → IsLine (text prefix)
    → IsLine value
    → entry_of s (text prefix ++ value) ≡ ok t
    → read_entries (lines (put_line prefix value rest)) s ≡ read_entries (lines rest) t
unfolding read_entries entry_of
read_entries-put_line prefix value rest s t clean plain read =
    ap (λ u. read_entries (lines u) s) (sym (append_assoc (text prefix) value (b'\n' ∷ rest)))
    ∙ ap (λ ls. read_entries ls s)
        (lines-append (text prefix ++ value) rest
          (All-append (λ d. d ≢ b'\n') (text prefix) value clean plain))
    ∙ ap (λ m. m >>= read_entries (lines rest)) read

module _ (s : ChainSnapshot) where
  read_height :
      (n : ℕ)
      → n < 2 ^ 64
      → entry_of s (text "height=" ++ to_string n) ≡ ok (record s { height = n })
  unfolding entry_of
  read_height n h = ap (λ m. m >>= λ i. ok (record s { height = i })) (stoull-to_string n h)

  read_head :
      (id : Bytes)
      → IsHash 32 id
      → entry_of s (text "head=" ++ to_hex id) ≡ ok (record s { head_id = id })
  unfolding entry_of
  read_head id h =
      ap (λ m. m >>= λ i. ok (record s { head_id = i })) (from_hex-to_hex 32 id (omega arith) h)

  read_count :
      (n : ℕ)
      → n < 2 ^ 64
      → entry_of s (text "block_count=" ++ to_string n) ≡ ok (record s { block_count = n })
  unfolding entry_of
  read_count n h = ap (λ m. m >>= λ i. ok (record s { block_count = i })) (stoull-to_string n h)

  read_accepted :
      (n : ℕ)
      → n < 2 ^ 64
      → entry_of s (text "accepted_transactions=" ++ to_string n)
        ≡ ok (record s { accepted_transactions = n })
  unfolding entry_of
  read_accepted n h =
      ap (λ m. m >>= λ i. ok (record s { accepted_transactions = i })) (stoull-to_string n h)

  read_flag :
      (b : Bool)
      → entry_of s (text "bootstrapped=" ++ flag_text b) ≡ ok (record s { bootstrapped = b })
  unfolding entry_of flag_text
  read_flag true = refl
  read_flag false = refl

flag-IsLine : (b : Bool) → IsLine (flag_text b)
unfolding flag_text
flag-IsLine true = omega arith
flag-IsLine false = omega arith

-- Load gives back the snapshot whose text Save wrote, where its head has 32 bytes and its numbers
-- have 64 bits.
pub read_snapshot-snapshot_text :
    (s : ChainSnapshot) → IsStorableSnapshot s → read_snapshot (snapshot_text s) ≡ ok s
unfolding read_snapshot snapshot_text
read_snapshot-snapshot_text s h =
    let x : ChainSnapshot = record empty_snapshot { height = s.height } in
    let y : ChainSnapshot = record x { head_id = s.head_id } in
    let z : ChainSnapshot = record y { block_count = s.block_count } in
    let w : ChainSnapshot = record z { accepted_transactions = s.accepted_transactions } in
    read_entries-put_line "height=" (to_string s.height) _ empty_snapshot x
      (unfold text in omega arith) (plain-IsLine _ (to_string-IsPlain s.height))
      (read_height empty_snapshot s.height h.height)
    ∙ read_entries-put_line "head=" (to_hex s.head_id) _ x y (unfold text in omega arith)
        (plain-IsLine _ (to_hex-IsPlain s.head_id h.head_id)) (read_head x s.head_id h.head_id)
    ∙ read_entries-put_line "block_count=" (to_string s.block_count) _ y z
        (unfold text in omega arith) (plain-IsLine _ (to_string-IsPlain s.block_count))
        (read_count y s.block_count h.block_count)
    ∙ read_entries-put_line "accepted_transactions=" (to_string s.accepted_transactions) _ z w
        (unfold text in omega arith) (plain-IsLine _ (to_string-IsPlain s.accepted_transactions))
        (read_accepted z s.accepted_transactions h.accepted_transactions)
    ∙ read_entries-put_line "bootstrapped=" (flag_text s.bootstrapped) [] w s
        (unfold text in omega arith) (flag-IsLine s.bootstrapped) (read_flag w s.bootstrapped)
    ∙ (unfold lines read_entries in refl)
