-- ===== src/Codec/Tests.antt =====
-- The codecs at concrete inputs.
use blocxxi.Base.{
  ◌-◌, ◌*◌, ◌≡◌, refl, arith, [], bytes_lt, ◌∷◌, ◌++◌, Bytes, text, true, ok, negsuc, length,
  replicate, out_of_fuel,
}
use blocxxi.Codec.Hex.{encode, decode}
use blocxxi.Codec.Hex.RoundTrip.{decode-encode, length-encode}
use blocxxi.Codec.Bencode.{
  Value, Entries, integer, string, list, dictionary, no_items, item, no_entries, entry,
}
use blocxxi.Codec.Bencode.Order.{IsWellFormed}
use blocxxi.Codec.Bencode.Decode.{size_mod}
use blocxxi.Codec.Bencode.Decode.RoundTrip.{decode-encode_value}
use blocxxi.Codec.Bencode.Decode.Overflow.{decode_diverges, long_string_list}

abbrev two_bytes : Bytes
two_bytes = 0x0f ∷ 0xa5 ∷ []

abbrev three_zeros : Bytes
three_zeros = 0 ∷ 0 ∷ 0 ∷ []

hex_text : encode two_bytes true true ≡ text "5af0"
unfolding encode text
hex_text = refl

decode-encode_example :
    decode (encode two_bytes true true) three_zeros true ≡ ok (two_bytes ++ replicate (3 - 2) 0)
decode-encode_example =
    decode-encode two_bytes three_zeros true true (omega arith) (omega arith) (omega arith)

length-encode_example : length (encode two_bytes true true) ≡ 2 * length two_bytes
length-encode_example = length-encode two_bytes true true

-- The ping query of the DHT's specification, with a list and a negative number in it.
abbrev ping : Value
ping = dictionary (
    entry (b'a' ∷ []) (list (item (integer (negsuc 2)) (item (string (b'x' ∷ b'y' ∷ [])) no_items)))
      (entry (b'q' ∷ []) (string (b'p' ∷ b'i' ∷ b'n' ∷ b'g' ∷ []))
        (entry (b't' ∷ []) (string (b'a' ∷ b'a' ∷ [])) no_entries)))

ping-text : blocxxi.Codec.Bencode.encode ping ≡ text "d1:ali-3e2:xye1:q4:ping1:t2:aae"
unfolding blocxxi.Codec.Bencode.encode text
ping-text = refl

ping-IsWellFormed : IsWellFormed ping
unfolding bytes_lt
ping-IsWellFormed = ((refl, (refl, tt)), ((omega arith), (tt, tt)), ((refl, tt), tt, (tt, tt, tt)))

ping_size : length (blocxxi.Codec.Bencode.encode ping) ≡ 31
unfolding blocxxi.Codec.Bencode.encode
ping_size = refl

decode-encode_value_example :
    blocxxi.Codec.Bencode.Decode.decode 63 (blocxxi.Codec.Bencode.encode ping) ≡ ok ping
decode-encode_value_example =
    decode-encode_value ping 63 ping-IsWellFormed (omega (arith, ping_size))
      (omega (arith, ping_size))

decode_diverges_example :
    blocxxi.Codec.Bencode.Decode.decode 1000 (long_string_list ++ b'x' ∷ []) ≡ out_of_fuel
decode_diverges_example = decode_diverges (b'x' ∷ []) 1000
