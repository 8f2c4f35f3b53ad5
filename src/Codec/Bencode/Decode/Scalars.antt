-- ===== src/Codec/Bencode/Decode/Scalars.antt =====
-- The branches of the decoder for integers and strings read what the encoder printed.
use blocxxi.Base.{
  ℕ, suc, ◌+◌, ◌-◌, ◌<◌, ◌≡◌, ◌≢◌, ap, ◌∙◌, [], ◌∷◌, ◌++◌, Bytes, All, length, length-append,
  append_assoc, arith, ℤ, pos, negsuc, to_string, to_string_ℤ, ok, ◌⊎◌, inr, parse_int64,
  parse_unsigned, subst,
}
use blocxxi.Base.Decimal.{IsDigit}
use blocxxi.Base.Decimal.RoundTrip.{
  to_string-IsDigit, parse_unsigned-to_string, parse_int64-to_string_ℤ, IsInt64,
}
use blocxxi.Codec.Bencode.{integer, string, append_encoded_string}
use blocxxi.Codec.Bencode.Decode.{decode_integer, decode_string, size_mod}
use blocxxi.Codec.Bencode.Decode.Cursor.{At, At-suc, At-advance, substr-At, find_from-At}

digits_absent : (c : ℕ) (s : Bytes) → (c < b'0') ⊎ (b'9' < c) → All IsDigit s → All (λ x. x ≢ c) s
digits_absent c [] h digits = tt
digits_absent c (d ∷ s) h digits = ((λ p. omega arith), digits_absent c s h digits.1)

to_string_ℤ_absent : (i : ℤ) → All (λ x. x ≢ b'e') (to_string_ℤ i)
unfolding to_string_ℤ
to_string_ℤ_absent (pos n) =
    digits_absent b'e' (to_string n) (inr (omega arith)) (to_string-IsDigit n)
to_string_ℤ_absent (negsuc n) = (
  omega arith,
  digits_absent b'e' (to_string (suc n)) (inr (omega arith)) (to_string-IsDigit (suc n)),
)

module _ (encoded : Bytes) (offset : ℕ) where
  pub decode_integer-At :
      (i : ℤ) (rest : Bytes)
      → IsInt64 i
      → At encoded offset (to_string_ℤ i ++ b'e' ∷ rest)
      → decode_integer encoded offset ≡ ok (integer i, offset + length (to_string_ℤ i) + 1)
  unfolding decode_integer
  decode_integer-At i rest h at_i =
      let (found, digits) =
        find_from-At encoded offset b'e' (to_string_ℤ i) rest (to_string_ℤ_absent i) at_i in
      let number = ap parse_int64 digits ∙ parse_int64-to_string_ℤ i h in
      ground (arith, found, number)

  pub decode_string-At :
      (s rest : Bytes)
      → length encoded < size_mod
      → At encoded offset (append_encoded_string s ++ rest)
      → decode_string encoded offset ≡ ok (string s, offset + length (append_encoded_string s))
  unfolding decode_string append_encoded_string
  decode_string-At s rest small at_s =
      let prefix = to_string (length s) in
      let at_prefix : At encoded offset (prefix ++ b':' ∷ (s ++ rest)) =
        subst (At encoded offset) (append_assoc prefix (b':' ∷ s) rest) at_s in
      let (found, digits) =
        find_from-At encoded offset b':' prefix (s ++ rest)
          (digits_absent b':' prefix (inr (omega arith)) (to_string-IsDigit (length s)))
          at_prefix in
      let at_text : At encoded (offset + length prefix + 1) (s ++ rest) =
        At-suc encoded (offset + length prefix) b':' (s ++ rest)
          (At-advance encoded offset prefix (b':' ∷ (s ++ rest)) at_prefix) in
      let number =
        ap (parse_unsigned (size_mod - 1)) digits
        ∙ parse_unsigned-to_string (size_mod - 1) (length s)
            (omega (arith, at_text.size, length-append s rest)) in
      ground (
        arith,
        found,
        number,
        at_text.size,
        length-append s rest,
        length-append prefix (b':' ∷ s),
        substr-At encoded (offset + length prefix + 1) s rest at_text,
      )
