-- ===== src/Codec/Hex/RoundTrip.antt =====
-- What was encoded decodes to itself, and what decodes is hexadecimal.
use mathlib.Core.List.{reverse, reverse-append, reverse-reverse}
use native.Mathlib.Nat.{sub-zero, suc-sub-suc}
use blocxxi.Base.{
  ℕ, ◌-◌, ◌*◌, ◌/◌, ◌%◌, ◌<◌, ◌≤◌, ◌≡◌, refl, sym, ◌∙◌, Bytes, IsByte, Bool, true, false, [], ◌∷◌,
  ◌++◌, length, length-reverse, replicate, All, passes_below, passes_below-at, ◌==◌, ◌&&◌,
  if◌then◌else◌, ok, arith,
}
use blocxxi.Codec.Hex.{
  alphabet, make_lo, make_hi, encode_forward, encode_backward, encode, dec_for_index, lookup_digit,
  join_digits, decode_loop, decode,
}

-- Both digits of every byte, read back by the table of the other direction.
digit_tests : Bool → ℕ → Bool
digit_tests lower b =
    dec_for_index (make_hi (alphabet lower) b) == b / 16
    && dec_for_index (make_lo (alphabet lower) b) == b % 16
    && join_digits (b / 16) (b % 16) == b

digit_table : (lower : Bool) → passes_below (digit_tests lower) 256 ≡ true
unfolding passes_below digit_tests dec_for_index make_hi make_lo alphabet join_digits
digit_table true = refl
digit_table false = refl

digit_laws :
    (lower : Bool) (b : ℕ)
    → b < 256
    → (dec_for_index (make_hi (alphabet lower) b) ≡ b / 16)
      × (dec_for_index (make_lo (alphabet lower) b) ≡ b % 16)
      × (join_digits (b / 16) (b % 16) ≡ b)
digit_laws lower b h =
    unfold digit_tests in
    ground (arith, passes_below-at (digit_tests lower) 256 b h (digit_table lower))

lookup_hi :
    (lower : Bool) (b : ℕ) → b < 256 → lookup_digit (make_hi (alphabet lower) b) ≡ ok (b / 16)
unfolding lookup_digit
lookup_hi lower b h = ground (arith, digit_laws lower b h)

lookup_lo :
    (lower : Bool) (b : ℕ) → b < 256 → lookup_digit (make_lo (alphabet lower) b) ≡ ok (b % 16)
unfolding lookup_digit
lookup_lo lower b h = ground (arith, digit_laws lower b h)

decode_loop-encode_forward :
    (lower : Bool) (src dest : Bytes)
    → All IsByte src
    → length src ≤ length dest
    → decode_loop (encode_forward (alphabet lower) src) dest
      ≡ ok (src ++ replicate (length dest - length src) 0)
unfolding decode_loop encode_forward
decode_loop-encode_forward lower [] dest h fits = rw sub-zero
decode_loop-encode_forward lower (b ∷ src) [] h fits = absurd (omega arith)
decode_loop-encode_forward lower (b ∷ src) (d ∷ dest) h fits = simp (
  lookup_hi lower b h.0,
  lookup_lo lower b h.0,
  decode_loop-encode_forward lower src dest h.1 (omega arith),
  (digit_laws lower b h.0).2,
  suc-sub-suc,
)

encode_backward-append :
    (table xs ys : Bytes)
    → encode_backward table (xs ++ ys) ≡ encode_backward table xs ++ encode_backward table ys
unfolding encode_backward
encode_backward-append table [] ys = refl
encode_backward-append table (x ∷ xs) ys = rw (encode_backward-append table xs ys)

-- Encoding from the back gives the text of the front, read backwards.
encode_backward-reverse :
    (table src : Bytes) → encode_backward table (reverse src) ≡ reverse (encode_forward table src)
unfolding encode_backward encode_forward
encode_backward-reverse table [] = refl
encode_backward-reverse table (b ∷ src) = rw (reverse-append (b ∷ []) src) (
    rw (encode_backward-append table (reverse src) (b ∷ [])) (
      rw (encode_backward-reverse table src)
        (sym (reverse-append (make_hi table b ∷ make_lo table b ∷ []) (encode_forward table src)))))

length-encode_forward : (table src : Bytes) → length (encode_forward table src) ≡ 2 * length src
unfolding encode_forward
length-encode_forward table [] = omega arith
length-encode_forward table (b ∷ src) = omega (arith, length-encode_forward table src)

-- The text of `encode` in the order in which `decode` reads it.
encode-eq :
    (src : Bytes) (reversed lower : Bool)
    → encode src reversed lower ≡ (
        if reversed
        then reverse (encode_forward (alphabet lower) src)
        else encode_forward (alphabet lower) src)
unfolding encode
encode-eq src true lower = encode_backward-reverse (alphabet lower) src
encode-eq src false lower = refl

-- Encoding doubles the length, in every mode.
pub length-encode :
    (src : Bytes) (reversed lower : Bool) → length (encode src reversed lower) ≡ 2 * length src
length-encode src true lower = rw encode-eq (
    omega (
      arith,
      length-reverse (encode_forward (alphabet lower) src),
      length-encode_forward (alphabet lower) src,
    ))
length-encode src false lower = rw encode-eq (length-encode_forward (alphabet lower) src)

-- The checks of `decode` pass, and the loop reads the text in order.
pub decode-eq-loop :
    (digits dest : Bytes) (reversed : Bool)
    → length digits % 2 ≡ 0
    → length digits / 2 ≤ length dest
    → 0 < length digits
    → decode digits dest reversed ≡ decode_loop (if reversed then reverse digits else digits) dest
unfolding decode
decode-eq-loop [] dest reversed even fits some_digit = absurd (omega arith)
decode-eq-loop (c ∷ digits) dest reversed even fits some_digit = ground arith

-- Encoding bytes and decoding the text in the same mode gives the bytes back, followed by zeros in
-- what is left of the destination. The source is not empty, and fits the destination.
pub decode-encode :
    (src dest : Bytes) (reversed lower : Bool)
    → All IsByte src
    → 0 < length src
    → length src ≤ length dest
    → decode (encode src reversed lower) dest reversed
      ≡ ok (src ++ replicate (length dest - length src) 0)
decode-encode src dest reversed lower h some_byte fits =
    decode-eq-loop (encode src reversed lower) dest reversed
      (omega (arith, length-encode src reversed lower))
      (omega (arith, length-encode src reversed lower))
      (omega (arith, length-encode src reversed lower))
    ∙ read reversed
  where
    read :
        (back : Bool)
        → decode_loop (if back then reverse (encode src back lower) else encode src back lower) dest
          ≡ ok (src ++ replicate (length dest - length src) 0)
    read true =
        rw (encode-eq src true lower)
          (rw reverse-reverse (decode_loop-encode_forward lower src dest h fits))
    read false = rw (encode-eq src false lower) (decode_loop-encode_forward lower src dest h fits)
