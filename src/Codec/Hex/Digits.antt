-- ===== src/Codec/Hex/Digits.antt =====
-- What the encoder writes are digits.
use blocxxi.Base.{
  ℕ, ◌≤◌, ◌<◌, ◌≡◌, refl, Bytes, IsByte, Bool, true, false, [], ◌∷◌, All, passes_below,
  passes_below-at, leb, ◌&&◌, arith,
}
use blocxxi.Codec.Hex.{alphabet, make_lo, make_hi, encode_forward, encode}

-- A byte from '0' to 'f': no separator of a file is among them.
abbrev pub IsHexDigit : ℕ → Type 0
IsHexDigit c = (b'0' ≤ c) × (c ≤ b'f')

in_range : Bool → ℕ → Bool
in_range lower b =
    leb b'0' (make_hi (alphabet lower) b)
    && leb (make_hi (alphabet lower) b) b'f'
    && leb b'0' (make_lo (alphabet lower) b)
    && leb (make_lo (alphabet lower) b) b'f'

in_range_table : (lower : Bool) → passes_below (in_range lower) 256 ≡ true
unfolding passes_below in_range make_hi make_lo alphabet
in_range_table true = refl
in_range_table false = refl

digits_in_range :
    (lower : Bool) (b : ℕ)
    → b < 256
    → IsHexDigit (make_hi (alphabet lower) b) × IsHexDigit (make_lo (alphabet lower) b)
digits_in_range lower b h =
    unfold in_range in
    ground (arith, passes_below-at (in_range lower) 256 b h (in_range_table lower))

encode_forward-IsHexDigit :
    (lower : Bool) (src : Bytes)
    → All IsByte src
    → All IsHexDigit (encode_forward (alphabet lower) src)
unfolding encode_forward
encode_forward-IsHexDigit lower [] h = tt
encode_forward-IsHexDigit lower (b ∷ src) h =
    let (hi, lo) = digits_in_range lower b h.0 in
    (hi, (lo, encode_forward-IsHexDigit lower src h.1))

pub encode-IsHexDigit :
    (lower : Bool) (src : Bytes) → All IsByte src → All IsHexDigit (encode src false lower)
unfolding encode
encode-IsHexDigit lower src h = encode_forward-IsHexDigit lower src h
