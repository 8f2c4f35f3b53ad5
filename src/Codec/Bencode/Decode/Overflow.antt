-- ===== src/Codec/Bencode/Decode/Overflow.antt =====
-- A string length near 2^64: the check `offset + length > encoded.size()` adds in std::size_t.
use blocxxi.Base.{
  ℕ, zero, suc, ◌+◌, ◌-◌, ◌%◌, ◌≤◌, ◌≡◌, refl, ◌∙◌, ◌++◌, Bytes, some, length, length-append, arith,
  parse_unsigned, ok, out_of_fuel, text, get_elem?, false, ◌==◌, ◌⊎◌, inl, inr,
}
use blocxxi.Codec.Bencode.{string, Value}
use blocxxi.Codec.Bencode.Decode.Steps.{decode_value_string}
use blocxxi.Codec.Bencode.Decode.{
  decode, decode_value, decode_items, decode_string, find_from, substr, size_mod,
}

-- A list whose first item is a string of 2^64 - 21 bytes.
abbrev pub long_string_list : Bytes
unfolding text
long_string_list = text "l18446744073709551595:"

-- A string whose length wraps the offset around is taken.
decode_string_wraps :
    (encoded : Bytes) (offset colon count next : ℕ)
    → find_from encoded b':' offset ≡ some colon
    → parse_unsigned (size_mod - 1) (substr encoded offset (colon - offset)) ≡ some count
    → (colon + 1 + count) % size_mod ≡ next
    → next ≤ length encoded
    → decode_string encoded offset ≡ ok (string (substr encoded (colon + 1) count), next)
unfolding decode_string
decode_string_wraps encoded offset colon count next found number wraps inside =
    ground (arith, found, number, wraps, inside)

-- A list whose item leads back to the same offset is read again and again.
decode_items_loops :
    (encoded : Bytes) (offset c : ℕ) (v : Value)
    → get_elem? encoded offset ≡ some c
    → (c == b'e') ≡ false
    → ((f : ℕ)
        → (decode_value f encoded offset ≡ out_of_fuel)
          ⊎ (decode_value f encoded offset ≡ ok (v, offset)))
    → (f : ℕ) → decode_items f encoded offset ≡ out_of_fuel
unfolding decode_value
decode_items_loops encoded offset c v token other item zero = refl
decode_items_loops encoded offset c v token other item (suc f) =
    ground (arith, token, other, item f, decode_items_loops encoded offset c v token other item f)

decode_value_list_stuck :
    (f : ℕ) (encoded : Bytes) (offset : ℕ)
    → get_elem? encoded offset ≡ some b'l'
    → decode_items f encoded (offset + 1) ≡ out_of_fuel
    → decode_value (suc f) encoded offset ≡ out_of_fuel
unfolding decode_value
decode_value_list_stuck f encoded offset token h = ground (arith, token, h)

module _ (rest : Bytes) where
  -- The text, with anything behind the length.
  abbrev pub encoded : Bytes
  encoded = long_string_list ++ rest

  find_colon : find_from encoded b':' 1 ≡ some 21
  unfolding find_from long_string_list
  find_colon = refl

  length_read :
      parse_unsigned (size_mod - 1) (substr encoded 1 (21 - 1)) ≡ some 18446744073709551595
  unfolding substr parse_unsigned long_string_list
  length_read = refl

  length-encoded_pos : 1 ≤ length encoded
  unfolding long_string_list
  length-encoded_pos = omega (arith, length-append long_string_list rest)

  first_digit : get_elem? encoded 1 ≡ some b'1'
  unfolding long_string_list
  first_digit = refl

  -- The sum 22 + (2^64 - 21) is 1, the offset at which the string itself begins.
  string_again : decode_string encoded 1 ≡ ok (string (substr encoded 22 18446744073709551595), 1)
  string_again =
      decode_string_wraps encoded 1 21 18446744073709551595 1 find_colon length_read refl
        length-encoded_pos

  value_again :
      (f : ℕ)
      → (decode_value f encoded 1 ≡ out_of_fuel)
        ⊎ (decode_value f encoded 1 ≡ ok (string (substr encoded 22 18446744073709551595), 1))
  unfolding decode_value
  value_again zero = inl refl
  value_again (suc f) =
      inr
        (decode_value_string f encoded 1 b'1' first_digit (omega arith, omega arith) ∙ string_again)

  list_mark : get_elem? encoded 0 ≡ some b'l'
  unfolding long_string_list
  list_mark = refl

-- For the list of one string of 2^64 - 21 bytes, with anything behind its length, no fuel is
-- enough: the check of the string's end wraps around in std::size_t, the string is read as ending
-- where it begins, and the loop of the list never leaves that offset.
pub decode_diverges :
    (rest : Bytes) (fuel : ℕ) → decode fuel (long_string_list ++ rest) ≡ out_of_fuel
unfolding decode
decode_diverges rest zero = refl
decode_diverges rest (suc f) =
    ground (arith, decode_value_list_stuck f (encoded rest) 0 (list_mark rest) again)
  where
    again : decode_items f (encoded rest) (0 + 1) ≡ out_of_fuel
    again =
        decode_items_loops (encoded rest) 1 b'1'
          (string (substr (encoded rest) 22 18446744073709551595)) (first_digit rest) refl
          (value_again rest) f
