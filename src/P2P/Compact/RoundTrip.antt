-- ===== src/P2P/Compact/RoundTrip.antt =====
-- Compact peers and nodes: what is encoded is decoded to itself, and what is decoded came from the
-- text that encodes it.
use blocxxi.Base.{
  ℕ, ◌+◌, ◌*◌, ◌/◌, ◌%◌, ◌^◌, ◌<◌, ◌≡◌, refl, ap, ◌∙◌, sym, [], ◌∷◌, ◌++◌, Bytes, Bool, true,
  length, length-append, take, drop, ◌==◌, bit_or, passes_below, passes_below-at, arith, ok, IsByte,
  All,
}
use blocxxi.Crypto.Hash.{IsHash}
use blocxxi.Codec.Hex.{char_at}
use blocxxi.Codec.Bencode.Decode.Cursor.{take-append, drop-append}
use blocxxi.P2P.Compact.{
  AddressOps, IsAddressOps, IpEndpoint, Node, port_bytes, join_port, encode_compact_peer,
  decode_compact_peer, encode_compact_node, decode_compact_node,
}

join_test : ℕ → ℕ → Bool
join_test hi lo = bit_or (hi * 256) lo == hi * 256 + lo

join_tests : ℕ → Bool
join_tests hi = passes_below (join_test hi) 256

join_table : passes_below join_tests 256 ≡ true
unfolding passes_below join_test join_tests
join_table = refl

join_port_lem : (hi lo : ℕ) → hi < 256 → lo < 256 → join_port hi lo ≡ hi * 256 + lo
unfolding join_port join_tests join_test
join_port_lem hi lo hi_byte lo_byte =
    let row = passes_below-at join_tests 256 hi hi_byte join_table in
    ground (arith, passes_below-at (join_test hi) 256 lo lo_byte row)

take_known : (n : ℕ) (xs ys : Bytes) → length xs ≡ n → take n (xs ++ ys) ≡ xs
take_known n xs ys e = rw (sym e) (take-append xs ys)

drop_known : (n : ℕ) (xs ys : Bytes) → length xs ≡ n → drop n (xs ++ ys) ≡ ys
drop_known n xs ys e = rw (sym e) (drop-append xs ys)

-- The last two of six bytes.
char_at_tail :
    (xs : Bytes) (hi lo : ℕ)
    → length xs ≡ 4
    → (char_at (xs ++ hi ∷ lo ∷ []) 4 ≡ hi) × (char_at (xs ++ hi ∷ lo ∷ []) 5 ≡ lo)
unfolding char_at
char_at_tail (a ∷ b ∷ c ∷ d ∷ []) hi lo e = (refl, refl)
char_at_tail [] hi lo e = absurd (omega arith)
char_at_tail (a ∷ []) hi lo e = absurd (omega arith)
char_at_tail (a ∷ b ∷ []) hi lo e = absurd (omega arith)
char_at_tail (a ∷ b ∷ c ∷ []) hi lo e = absurd (omega arith)
char_at_tail (a ∷ b ∷ c ∷ d ∷ f ∷ rest) hi lo e = absurd (omega arith)

-- Six bytes as an address and a port.
six_bytes :
    (s : Bytes)
    → length s ≡ 6
    → All IsByte s
    → (xs : Bytes) × (hi : ℕ) × (lo : ℕ) × (s ≡ xs ++ hi ∷ lo ∷ [])
      × IsHash 4 xs
      × (hi < 256)
      × (lo < 256)
six_bytes (a ∷ b ∷ c ∷ d ∷ hi ∷ lo ∷ []) e h = (
  a ∷ b ∷ c ∷ d ∷ [],
  hi,
  lo,
  refl,
  record { size = refl; in_range = omega (arith, h) },
  omega (arith, h),
  omega (arith, h),
)
six_bytes [] e h = absurd (omega arith)
six_bytes (a ∷ []) e h = absurd (omega arith)
six_bytes (a ∷ b ∷ []) e h = absurd (omega arith)
six_bytes (a ∷ b ∷ c ∷ []) e h = absurd (omega arith)
six_bytes (a ∷ b ∷ c ∷ d ∷ []) e h = absurd (omega arith)
six_bytes (a ∷ b ∷ c ∷ d ∷ x ∷ []) e h = absurd (omega arith)
six_bytes (a ∷ b ∷ c ∷ d ∷ x ∷ y ∷ z ∷ rest) e h = absurd (omega arith)

port_bytes-join : (hi lo : ℕ) → hi < 256 → lo < 256 → port_bytes (hi * 256 + lo) ≡ hi ∷ lo ∷ []
unfolding port_bytes
port_bytes-join hi lo hi_byte lo_byte = ground arith

module _ {A : Type 0} {ops : AddressOps A} (law : IsAddressOps ops) where
  -- An IPv4 endpoint, encoded as six bytes, is decoded to that endpoint.
  pub decode_compact_peer-encode :
      (e : IpEndpoint A)
      → ops.is_v4 e.address ≡ true
      → e.port < 2 ^ 16
      → (s : Bytes) × (encode_compact_peer ops e ≡ ok s)
        × (length s ≡ 6)
        × (decode_compact_peer ops s ≡ ok e)
  unfolding encode_compact_peer decode_compact_peer port_bytes
  decode_compact_peer-encode e v4 range =
      let is = law.length-to_bytes e.address v4 in
      let hi = e.port / 256 % 256 in
      let lo = e.port % 256 in
      let s = ops.to_bytes e.address ++ (hi ∷ lo ∷ []) in
      let size : length s ≡ 6 =
        omega (arith, length-append (ops.to_bytes e.address) (hi ∷ lo ∷ []), is) in
      let (first, second) = char_at_tail (ops.to_bytes e.address) hi lo is in
      let address =
        ap ops.from_bytes (take_known 4 (ops.to_bytes e.address) (hi ∷ lo ∷ []) is)
        ∙ law.from_bytes-to_bytes e.address v4 in
      let port : join_port (char_at s 4) (char_at s 5) ≡ e.port =
        ap (λ c. join_port c (char_at s 5)) first
        ∙ ap (join_port hi) second
        ∙ join_port_lem hi lo (omega arith) (omega arith)
        ∙ omega arith in
      (s, ground (arith, v4), size, ground (arith, size, address, port))

  -- A node with an IPv4 endpoint, encoded as 26 bytes, is decoded to that node.
  pub decode_compact_node-encode :
      (n : Node A)
      → IsHash 20 n.id
      → ops.is_v4 n.endpoint.address ≡ true
      → n.endpoint.port < 2 ^ 16
      → (s : Bytes) × (encode_compact_node ops n ≡ ok s)
        × (length s ≡ 26)
        × (decode_compact_node ops s ≡ ok n)
  unfolding encode_compact_node decode_compact_node
  decode_compact_node-encode n id_is v4 range =
      let (peer, encoded, size, decoded) = decode_compact_peer-encode n.endpoint v4 range in
      let s = n.id ++ peer in
      let total : length s ≡ 26 = omega (arith, length-append n.id peer, id_is.size, size) in
      let read : decode_compact_peer ops (drop 20 s) ≡ ok n.endpoint =
        ap (decode_compact_peer ops) (drop_known 20 n.id peer id_is.size) ∙ decoded in
      (
        s,
        ground (arith, v4, encoded),
        total,
        ground (arith, total, read, take_known 20 n.id peer id_is.size),
      )

  parts_decode :
      (xs : Bytes) (hi lo : ℕ)
      → IsHash 4 xs
      → hi < 256
      → lo < 256
      → (e : IpEndpoint A) × (decode_compact_peer ops (xs ++ hi ∷ lo ∷ []) ≡ ok e)
        × (ops.is_v4 e.address ≡ true)
        × (encode_compact_peer ops e ≡ ok (xs ++ hi ∷ lo ∷ []))
  unfolding encode_compact_peer decode_compact_peer
  parts_decode xs hi lo is hi_byte lo_byte =
      let s = xs ++ (hi ∷ lo ∷ []) in
      let e : IpEndpoint A = record { address = ops.from_bytes xs; port = hi * 256 + lo } in
      let size : length s ≡ 6 = omega (arith, length-append xs (hi ∷ lo ∷ []), is.size) in
      let (first, second) = char_at_tail xs hi lo is.size in
      let address = ap ops.from_bytes (take_known 4 xs (hi ∷ lo ∷ []) is.size) in
      let port : join_port (char_at s 4) (char_at s 5) ≡ hi * 256 + lo =
        ap (λ c. join_port c (char_at s 5)) first
        ∙ ap (join_port hi) second
        ∙ join_port_lem hi lo hi_byte lo_byte in
      let v4 = law.is_v4-from_bytes xs is in
      let ports : port_bytes (hi * 256 + lo) ≡ hi ∷ lo ∷ [] =
        port_bytes-join hi lo hi_byte lo_byte in
      (
        e,
        ground (arith, size, address, port),
        v4,
        ground (arith, v4, ports, law.to_bytes-from_bytes xs is),
      )

  -- Six bytes are the encoding of the IPv4 endpoint that is decoded from them.
  pub encode_compact_peer-decode :
      (s : Bytes)
      → length s ≡ 6
      → All IsByte s
      → (e : IpEndpoint A) × (decode_compact_peer ops s ≡ ok e)
        × (ops.is_v4 e.address ≡ true)
        × (encode_compact_peer ops e ≡ ok s)
  encode_compact_peer-decode s size bytes =
      let (xs, hi, lo, parts, is, hi_byte, lo_byte) = six_bytes s size bytes in
      rw parts (parts_decode xs hi lo is hi_byte lo_byte)
