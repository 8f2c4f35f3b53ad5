-- ===== src/P2P/Krpc/RoundTrip.antt =====
-- A message that was encoded is decoded to itself.
use blocxxi.Base.{ℕ, ◌*◌, ◌<◌, ◌≡◌, refl, Bytes, bytes_lt, Option, none, some, ok, length}
use blocxxi.Base.Decimal.RoundTrip.{IsInt64}
use blocxxi.Codec.Bencode.{Entries, dictionary}
use blocxxi.Codec.Bencode.Order.{IsWellFormed, AreOrdered}
use blocxxi.Codec.Bencode.Decode.{size_mod}
use blocxxi.Codec.Bencode.Decode.RoundTrip.{decode-encode_value}
use blocxxi.P2P.Krpc.{
  Payload, KrpcMessage, query, response, error, key, encode, decode_krpc, put_header, put_payload,
  require_string, decode_version, decode_payload,
}

-- What the C++ types of the fields can hold.
abbrev pub IsTyped : Payload → Type 0
IsTyped (query method arguments) = AreOrdered arguments
IsTyped (response values) = AreOrdered values
IsTyped (error code message) = IsInt64 code

abbrev root_of : KrpcMessage → Entries
root_of m = put_payload m.payload (put_header m)

root_of-IsWellFormed :
    (t : Bytes) (v : Option Bytes) (p : Payload)
    → IsTyped p
    → IsWellFormed (dictionary (root_of (record { transaction_id = t; version = v; payload = p })))
unfolding put_header put_payload bytes_lt
root_of-IsWellFormed t none (query method arguments) typed =
    ((refl, (refl, (refl, tt))), typed, ((refl, (refl, tt)), tt, ((refl, tt), tt, (tt, tt, tt))))
root_of-IsWellFormed t (some v) (query method arguments) typed = (
  (refl, (refl, (refl, (refl, tt)))),
  typed,
  ((refl, (refl, (refl, tt))), tt, ((refl, (refl, tt)), tt, ((refl, tt), tt, (tt, tt, tt)))),
)
root_of-IsWellFormed t none (response values) typed =
    ((refl, (refl, tt)), typed, ((refl, tt), tt, (tt, tt, tt)))
root_of-IsWellFormed t (some v) (response values) typed =
    ((refl, (refl, (refl, tt))), typed, ((refl, (refl, tt)), tt, ((refl, tt), tt, (tt, tt, tt))))
root_of-IsWellFormed t none (error code message) typed =
    ((refl, (refl, tt)), (typed, (tt, tt)), ((refl, tt), tt, (tt, tt, tt)))
root_of-IsWellFormed t (some v) (error code message) typed = (
  (refl, (refl, (refl, tt))),
  (typed, (tt, tt)),
  ((refl, (refl, tt)), tt, ((refl, tt), tt, (tt, tt, tt))),
)

-- The fields that `DecodeKrpc` reads are those that `Encode` put.
read_root :
    (t : Bytes) (v : Option Bytes) (p : Payload)
    → (type : Bytes) × (require_string
          (root_of (record { transaction_id = t; version = v; payload = p }))
          (key b'y')
        ≡ ok type)
      × (require_string
            (root_of (record { transaction_id = t; version = v; payload = p }))
            (key b't')
          ≡ ok t)
      × (decode_version (root_of (record { transaction_id = t; version = v; payload = p })) ≡ ok v)
      × (decode_payload type (root_of (record { transaction_id = t; version = v; payload = p }))
          ≡ ok p)
unfolding put_header put_payload decode_payload decode_version bytes_lt
read_root t none (query method arguments) = (_, refl, refl, refl, refl)
read_root t (some v) (query method arguments) = (_, refl, refl, refl, refl)
read_root t none (response values) = (_, refl, refl, refl, refl)
read_root t (some v) (response values) = (_, refl, refl, refl, refl)
read_root t none (error code message) = (_, refl, refl, refl, refl)
read_root t (some v) (error code message) = (_, refl, refl, refl, refl)

-- A message, encoded, is decoded to that message: its integers have 64 bits, its dictionaries are in
-- key order, its encoding is shorter than 2^64 bytes, and twice the length is fuel enough.
pub decode_krpc-encode :
    (m : KrpcMessage) (fuel : ℕ)
    → IsTyped m.payload
    → length (encode m) < size_mod
    → 2 * length (encode m) < fuel
    → decode_krpc fuel (encode m) ≡ ok m
unfolding encode decode_krpc
decode_krpc-encode m fuel typed small enough =
    let (type, type_read, id_read, version_read, payload_read) =
      read_root m.transaction_id m.version m.payload in
    let read =
      decode-encode_value (dictionary (root_of m)) fuel
        (root_of-IsWellFormed m.transaction_id m.version m.payload typed) small enough in
    rw read (rw type_read (rw id_read (rw version_read (rw payload_read refl))))
