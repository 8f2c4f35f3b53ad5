-- ===== src/P2P/Compact.antt =====
-- The compact forms of peers and nodes in src/Blocxxi/P2P/kademlia/krpc.cpp, with the endpoints of
-- endpoint.h and the id and endpoint of a node of node.h. An asio::ip::address is a parameter: a
-- record of the operations that the code calls, and the laws that hold of IPv4 addresses.
pub mod RoundTrip
use blocxxi.Base.{
  ℕ, ◌*◌, ◌/◌, ◌%◌, ◌^◌, ◌≡◌, [], ◌∷◌, ◌++◌, Bytes, Bool, true, not, length, take, drop, ◌==◌,
  if◌then◌else◌, bit_or, Outcome, ok, err, ◌>>=◌, invalid_argument,
}
use blocxxi.Codec.Hex.{char_at}
use blocxxi.Crypto.Hash.{Hash, IsHash}

-- `to_bytes` is to_v4().to_bytes(), `from_bytes` the constructor of an asio::ip::address_v4.
pub record AddressOps (A : Type 0) : Type 0 where
  pub is_v4 : A → Bool
  pub to_bytes : A → Bytes
  pub from_bytes : Bytes → A

-- An IPv4 address is its four bytes.
pub record IsAddressOps {A : Type 0} (ops : AddressOps A) : Type 0 where
  pub length-to_bytes : (a : A) → ops.is_v4 a ≡ true → length (ops.to_bytes a) ≡ 4
  pub from_bytes-to_bytes : (a : A) → ops.is_v4 a ≡ true → ops.from_bytes (ops.to_bytes a) ≡ a
  pub is_v4-from_bytes : (s : Bytes) → IsHash 4 s → ops.is_v4 (ops.from_bytes s) ≡ true
  pub to_bytes-from_bytes : (s : Bytes) → IsHash 4 s → ops.to_bytes (ops.from_bytes s) ≡ s

pub record IpEndpoint (A : Type 0) : Type 0 where
  pub address : A
  pub port : ℕ

-- The parts of a Node that the compact form carries.
pub record Node (A : Type 0) : Type 0 where
  pub id : Hash
  pub endpoint : IpEndpoint A

-- (port >> 8) & 0xff and port & 0xff
unfoldable pub port_bytes : ℕ → Bytes
port_bytes port = (port / 256 % 256) ∷ (port % 256) ∷ []

-- static_cast<uint16_t>((hi << 8) | lo)
unfoldable pub join_port : ℕ → ℕ → ℕ
join_port hi lo = bit_or (hi * 256) lo % 2 ^ 16

module _ {A : Type 0} (ops : AddressOps A) where
  unfoldable pub encode_compact_peer : IpEndpoint A → Outcome Bytes
  unfolding port_bytes
  encode_compact_peer endpoint =
      if not (ops.is_v4 endpoint.address)
      then err (invalid_argument "compact peer encoding currently requires IPv4")
      else ok (ops.to_bytes endpoint.address ++ port_bytes endpoint.port)

  unfoldable pub decode_compact_peer : Bytes → Outcome (IpEndpoint A)
  unfolding join_port char_at
  decode_compact_peer encoded =
      if not (length encoded == 6)
      then err (invalid_argument "compact peer encoding must be 6 bytes")
      else ok (record {
        address = ops.from_bytes (take 4 encoded);
        port = join_port (char_at encoded 4) (char_at encoded 5);
      })

  unfoldable pub encode_compact_node : Node A → Outcome Bytes
  unfolding encode_compact_peer
  encode_compact_node node =
      let with_peer = do peer ← encode_compact_peer node.endpoint; ok (node.id ++ peer)
      in if not (ops.is_v4 node.endpoint.address)
        then err (invalid_argument "compact node encoding currently requires IPv4")
        else with_peer

  unfoldable pub decode_compact_node : Bytes → Outcome (Node A)
  unfolding decode_compact_peer
  decode_compact_node encoded =
      let decoded = do
        endpoint ← decode_compact_peer (drop 20 encoded)
        ok (record { id = take 20 encoded; endpoint = endpoint })
      in if not (length encoded == 26)
        then err (invalid_argument "compact node encoding must be 26 bytes")
        else decoded
