-- ===== src/Codec/Bencode/Decode.antt =====
-- src/Blocxxi/Codec/bencode.cpp: the decoder, over the whole text and an offset into it, as in the
-- source. Each call of a loop or of `DecodeValue` takes a unit of fuel. Sums of offsets and lengths
-- are taken modulo 2^64, as std::size_t does.
pub mod Cursor
pub mod Scalars
pub mod Steps
pub mod RoundTrip
pub mod Overflow
use mathlib.Core.Option
use blocxxi.Base.{
  ℕ, zero, suc, ◌+◌, ◌-◌, ◌*◌, ◌%◌, ◌^◌, [], ◌∷◌, Bytes, Bool, true, false, ◌||◌, Option, none,
  some, length, take, drop, get_elem?, ltb, ◌==◌, if◌then◌else◌, index_of, parse_unsigned,
  parse_int64, Outcome, ok, err, out_of_fuel, invalid_argument, ◌>>=◌,
}
use blocxxi.Codec.Bencode.{
  Value, Items, Entries, integer, string, list, dictionary, no_items, item, no_entries, entry,
  emplace,
}

abbrev pub size_mod : ℕ
size_mod = 2 ^ 64

-- encoded.find(c, offset)
unfoldable pub find_from : Bytes → ℕ → ℕ → Option ℕ
unfolding index_of
find_from encoded c offset = Option.map (λ i. offset + i) (index_of c (drop offset encoded))

-- encoded.substr(offset, count)
unfoldable pub substr : Bytes → ℕ → ℕ → Bytes
substr encoded offset count = take count (drop offset encoded)

-- The branch for 'i', after the token.
unfoldable pub decode_integer : Bytes → ℕ → Outcome (Value × ℕ)
unfolding find_from substr parse_int64
decode_integer encoded offset = elim (find_from encoded b'e' offset) [
  | none ↦ err (invalid_argument "unterminated bencode integer")
  | some end ↦ elim (parse_int64 (substr encoded offset (end - offset))) [
    | none ↦ err (invalid_argument "invalid bencode integer")
    | some i ↦ ok (integer i, end + 1)
  ]
]

-- The branch for a string, from its first digit.
unfoldable pub decode_string : Bytes → ℕ → Outcome (Value × ℕ)
unfolding find_from substr parse_unsigned
decode_string encoded offset = elim (find_from encoded b':' offset) [
  | none ↦ err (invalid_argument "unterminated bencode string length")
  | some colon ↦ elim (parse_unsigned (size_mod - 1) (substr encoded offset (colon - offset))) [
    | none ↦ err (invalid_argument "invalid bencode string length")
    | some count ↦
        if ltb (length encoded) ((colon + 1 + count) % size_mod)
        then err (invalid_argument "bencode string exceeds input size")
        else ok (string (substr encoded (colon + 1) count), (colon + 1 + count) % size_mod)
  ]
]

-- The key of an entry.
unfoldable pub as_key : Value → Outcome Bytes
as_key (string s) = ok s
as_key _ = err (invalid_argument "bencode dictionary key must be a string")

unfoldable mutual
  unfolding decode_integer decode_string emplace as_key

  pub decode_value : ℕ → Bytes → ℕ → Outcome (Value × ℕ)
  decode_value zero encoded offset = out_of_fuel
  decode_value (suc fuel) encoded offset = elim (get_elem? encoded offset) [
    | none ↦ err (invalid_argument "unexpected end of bencode input")
    | some token ↦
        let a_list = do (xs, next) ← decode_items fuel encoded (offset + 1); ok (list xs, next)
        in let a_dictionary = do
          (es, next) ← decode_entries fuel no_entries encoded (offset + 1)
          ok (dictionary es, next)
          in if token == b'i'
            then decode_integer encoded (offset + 1)
            else if token == b'l'
            then a_list
            else if token == b'd'
            then a_dictionary
            else if ltb token b'0' || ltb b'9' token
            then err (invalid_argument "invalid bencode token")
            else decode_string encoded offset
  ]

  -- The loop of a list, and the 'e' behind it.
  pub decode_items : ℕ → Bytes → ℕ → Outcome (Items × ℕ)
  decode_items zero encoded offset = out_of_fuel
  decode_items (suc fuel) encoded offset = elim (get_elem? encoded offset) [
    | none ↦ err (invalid_argument "unterminated bencode list")
    | some token ↦
        let more = do
          (v, next) ← decode_value fuel encoded offset
          (xs, after) ← decode_items fuel encoded next
          ok (item v xs, after)
        in if token == b'e' then ok (no_items, offset + 1) else more
  ]

  -- The loop of a dictionary, with the entries that it has put so far.
  pub decode_entries : ℕ → Entries → Bytes → ℕ → Outcome (Entries × ℕ)
  decode_entries zero found encoded offset = out_of_fuel
  decode_entries (suc fuel) found encoded offset = elim (get_elem? encoded offset) [
    | none ↦ err (invalid_argument "unterminated bencode dictionary")
    | some token ↦
        let more = do
          (key_value, next) ← decode_value fuel encoded offset
          key ← as_key key_value
          (v, after) ← decode_value fuel encoded next
          decode_entries fuel (emplace key v found) encoded after
        in if token == b'e' then ok (found, offset + 1) else more
  ]

-- Decode: one value, and nothing behind it.
unfoldable pub decode : ℕ → Bytes → Outcome Value
unfolding decode_value
decode fuel encoded = do
  (v, offset) ← decode_value fuel encoded 0
  if offset == length encoded then ok v else err (invalid_argument "trailing bencode data")
