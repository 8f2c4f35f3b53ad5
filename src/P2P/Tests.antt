-- ===== src/P2P/Tests.antt =====
-- KRPC and the compact forms at concrete inputs.
use blocxxi.Base.{◌≡◌, refl, arith, [], ◌∷◌, Bytes, none, length, text, replicate, ok, ◌==◌, ==_iff}
use blocxxi.Codec.Bencode.{string, no_entries, entry}
use blocxxi.P2P.Krpc.{KrpcMessage, query, encode, decode_krpc}
use blocxxi.P2P.Krpc.RoundTrip.{decode_krpc-encode}
use blocxxi.P2P.Compact.{AddressOps, IsAddressOps, IpEndpoint, Node}

abbrev ping : KrpcMessage
ping = record {
  transaction_id = b'a' ∷ b'a' ∷ [];
  version = none;
  payload =
      query (b'p' ∷ b'i' ∷ b'n' ∷ b'g' ∷ [])
        (entry (b'i' ∷ b'd' ∷ []) (string (b'x' ∷ b'y' ∷ [])) no_entries);
}

ping-text : encode ping ≡ text "d1:ad2:id2:xye1:q4:ping1:t2:aa1:y1:qe"
unfolding encode text
ping-text = refl

ping_size : length (encode ping) ≡ 37
unfolding encode
ping_size = refl

decode_krpc-encode_example : decode_krpc 75 (encode ping) ≡ ok ping
decode_krpc-encode_example =
    decode_krpc-encode ping 75 (tt, tt, tt) (omega (arith, ping_size)) (omega (arith, ping_size))

-- IPv4 addresses as lists of bytes; a list of another length is an address of another kind.
abbrev pub byte_addresses : AddressOps Bytes
byte_addresses = record { is_v4 = λ a. length a == 4; to_bytes = λ a. a; from_bytes = λ s. s }

abbrev pub peer : IpEndpoint Bytes
peer = record { address = 127 ∷ 0 ∷ 0 ∷ 1 ∷ []; port = 6881 }

abbrev node : Node Bytes
node = record { id = replicate 20 7; endpoint = peer }

byte_addresses-IsAddressOps : IsAddressOps byte_addresses
byte_addresses-IsAddressOps = record {
  length-to_bytes = λ a h. ground (arith, ==_iff (length a) 4);
  from_bytes-to_bytes = λ a h. refl;
  is_v4-from_bytes = λ s h. ground (arith, h.size);
  to_bytes-from_bytes = λ s h. refl;
}
