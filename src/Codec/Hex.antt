-- ===== src/Codec/Hex.antt =====
-- src/Blocxxi/Codec/base16.cpp and base16.h: hexadecimal text, in both directions, upper and lower
-- case, from the front or from the back of the buffer.
pub mod RoundTrip
pub mod Digits
use mathlib.Core.List.{reverse}
use blocxxi.Base.{
  ℕ, ◌+◌, ◌-◌, ◌*◌, ◌/◌, ◌%◌, Bytes, text, Bool, List, [], ◌∷◌, ◌&&◌, length, is_empty, replicate,
  leb, ltb, ◌==◌, if◌then◌else◌, bit_and, bit_or, Error, domain_error, check_failed, Outcome, ok,
  err, ◌>>=◌, get_elem?, Option, none, some,
}

unfoldable pub alphabet_uc : Bytes
unfolding text
alphabet_uc = text "0123456789ABCDEF"

unfoldable pub alphabet_lc : Bytes
unfolding text
alphabet_lc = text "0123456789abcdef"

-- std::array::at at an index that is in range. (The mask of the callers keeps it below 16.)
unfoldable pub char_at : Bytes → ℕ → ℕ
char_at bytes i = elim (get_elem? bytes i) [ none ↦ 0 | some c ↦ c ]

unfoldable pub make_lo : Bytes → ℕ → ℕ
unfolding char_at
make_lo alphabet i = char_at alphabet (bit_and i 0x0f)

unfoldable pub make_hi : Bytes → ℕ → ℕ
unfolding char_at
make_hi alphabet i = char_at alphabet (bit_and i 0xf0 / 16)

-- The table that `Encode` chooses. Its columns are functions of the byte, not arrays.
unfoldable pub alphabet : Bool → Bytes
unfolding alphabet_uc alphabet_lc
alphabet lower_case = if lower_case then alphabet_lc else alphabet_uc

-- The loop of `Encode` from the front.
unfoldable pub encode_forward : Bytes → Bytes → Bytes
unfolding make_lo make_hi
encode_forward table [] = []
encode_forward table (bin ∷ src) = make_hi table bin ∷ make_lo table bin ∷ encode_forward table src

-- The loop from the back, over the bytes in the order in which it meets them.
unfoldable pub encode_backward : Bytes → Bytes → Bytes
unfolding make_lo make_hi
encode_backward table [] = []
encode_backward table (bin ∷ src) =
    make_lo table bin ∷ make_hi table bin ∷ encode_backward table src

unfoldable pub encode : Bytes → Bool → Bool → Bytes
unfolding encode_forward encode_backward alphabet
encode src reversed lower_case =
    if reversed
    then encode_backward (alphabet lower_case) (reverse src)
    else encode_forward (alphabet lower_case) src

unfoldable pub dec_for_index : ℕ → ℕ
dec_for_index i =
    if leb b'0' i && leb i b'9'
    then i - b'0'
    else if leb b'A' i && leb i b'F'
    then i + 10 - b'A'
    else if leb b'a' i && leb i b'f'
    then i + 10 - b'a'
    else 0xff

unfoldable pub lookup_digit : ℕ → Outcome ℕ
unfolding dec_for_index
lookup_digit c =
    let digit = dec_for_index c in
    if digit == 0xff then err (domain_error "not a valid hex digit") else ok digit

-- static_cast<uint8_t>(lookup << 4), and the second digit or-ed in.
unfoldable pub join_digits : ℕ → ℕ → ℕ
join_digits hi lo = bit_or (hi * 16 % 256) lo

-- The loop of `Decode` over the digits in reading order, with the part of the destination that is
-- still to be written. The rest of the destination is wiped at the end. A single last digit, which
-- the even length rules out, would be read together with what lies behind the text.
unfoldable pub decode_loop : Bytes → Bytes → Outcome Bytes
unfolding lookup_digit join_digits
decode_loop [] dest = ok (replicate (length dest) 0)
decode_loop (a ∷ []) dest = err (check_failed "odd number of digits")
decode_loop (a ∷ b ∷ src) [] = ok []
decode_loop (a ∷ b ∷ src) (_ ∷ dest) = do
  hi ← lookup_digit a
  lo ← lookup_digit b
  rest ← decode_loop src dest
  ok (join_digits hi lo ∷ rest)

-- What `Decode` leaves in the destination `dest`, or the exception or the abort.
unfoldable pub decode : Bytes → Bytes → Bool → Outcome Bytes
unfolding decode_loop
decode src dest reversed =
    if length src % 2 == 0
    then if ltb (length dest) (length src / 2)
      then err (check_failed "buffer to receive the decoded data is too small")
      else if is_empty src
      then ok dest
      else decode_loop (if reversed then reverse src else src) dest
    else err (check_failed "the encoded data must contain an even number of hex digits")
