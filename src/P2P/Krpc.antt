-- ===== src/P2P/Krpc.antt =====
-- src/Blocxxi/P2P/kademlia/krpc.h and krpc.cpp: the messages of KRPC, on top of bencode.
pub mod RoundTrip
use blocxxi.Base.{
  ℕ, [], ◌∷◌, Bytes, bytes_eq, ℤ, Option, none, some, if◌then◌else◌, Outcome, ok, err, ◌>>=◌,
  invalid_argument,
}
use blocxxi.Codec.Bencode.{
  Value, Items, Entries, integer, string, list, dictionary, no_items, item, no_entries, entry,
  emplace, as_integer, as_string, as_list, as_dictionary,
}
use blocxxi.Codec.Bencode.Decode.{decode}

-- KrpcQuery, KrpcResponse and KrpcError, as the alternatives of the variant.
pub data Payload : Type 0 where
  query : Bytes → Entries → Payload
  response : Entries → Payload
  error : ℤ → Bytes → Payload

pub record KrpcMessage : Type 0 where
  pub transaction_id : Bytes
  pub version : Option Bytes
  pub payload : Payload

-- KrpcMessage::Type, and GetType.
pub data MessageType : Type 0 where
  query_type response_type error_type : MessageType

abbrev pub get_type : KrpcMessage → MessageType
get_type m = elim m.payload [
  | query _ _ ↦ query_type
  | response _ ↦ response_type
  | error _ _ ↦ error_type
]

-- A key of one character.
abbrev pub key : ℕ → Bytes
key c = c ∷ []

-- std::map::find
unfoldable pub find_entry : Bytes → Entries → Option Value
unfolding bytes_eq
find_entry k no_entries = none
find_entry k (entry j v es) = if bytes_eq j k then some v else find_entry k es

unfoldable pub require_string : Entries → Bytes → Outcome Bytes
unfolding find_entry
require_string fields k = elim (find_entry k fields) [
  | none ↦ err (invalid_argument "missing KRPC string field")
  | some v ↦ as_string v
]

unfoldable pub require_dictionary_field : Entries → Bytes → Outcome Entries
unfolding find_entry
require_dictionary_field fields k = elim (find_entry k fields) [
  | none ↦ err (invalid_argument "missing KRPC dictionary field")
  | some v ↦ as_dictionary v
]

-- The entries of `Encode` up to the switch.
unfoldable pub put_header : KrpcMessage → Entries
unfolding emplace
put_header m =
    let root = emplace (key b't') (string m.transaction_id) no_entries in
    elim m.version [ none ↦ root | some v ↦ emplace (key b'v') (string v) root ]

-- The switch of `Encode`.
unfoldable pub put_payload : Payload → Entries → Entries
unfolding emplace
put_payload (query method arguments) root =
    emplace (key b'a') (dictionary arguments)
      (emplace (key b'q') (string method) (emplace (key b'y') (string (key b'q')) root))
put_payload (response values) root =
    emplace (key b'r') (dictionary values) (emplace (key b'y') (string (key b'r')) root)
put_payload (error code message) root =
    emplace (key b'e') (list (item (integer code) (item (string message) no_items)))
      (emplace (key b'y') (string (key b'e')) root)

unfoldable pub encode : KrpcMessage → Bytes
unfolding put_header put_payload blocxxi.Codec.Bencode.encode
encode m = blocxxi.Codec.Bencode.encode (dictionary (put_payload m.payload (put_header m)))

-- The optional field "v".
unfoldable pub decode_version : Entries → Outcome (Option Bytes)
unfolding find_entry
decode_version root = elim (find_entry (key b'v') root) [
  | none ↦ ok none
  | some v ↦ do s ← as_string v; ok (some s)
]

-- The list of an error message: its size is checked before its items.
unfoldable pub decode_error : Items → Outcome Payload
decode_error (item c (item m no_items)) = do
  code ← as_integer c
  message ← as_string m
  ok (error code message)
decode_error _ = err (invalid_argument "KRPC error must contain code and message")

-- The branches of `DecodeKrpc` on the type of the message.
unfoldable pub decode_query : Entries → Outcome Payload
unfolding require_string require_dictionary_field
decode_query root = do
  method ← require_string root (key b'q')
  arguments ← require_dictionary_field root (key b'a')
  ok (query method arguments)

unfoldable pub decode_response : Entries → Outcome Payload
unfolding require_dictionary_field
decode_response root = do values ← require_dictionary_field root (key b'r'); ok (response values)

unfoldable pub decode_error_field : Entries → Outcome Payload
unfolding find_entry decode_error
decode_error_field root = elim (find_entry (key b'e') root) [
  | none ↦ err (invalid_argument "missing KRPC error field")
  | some v ↦ do items ← as_list v; decode_error items
]

unfoldable pub decode_payload : Bytes → Entries → Outcome Payload
unfolding bytes_eq decode_query decode_response decode_error_field
decode_payload type root =
    if bytes_eq type (key b'q')
    then decode_query root
    else if bytes_eq type (key b'r')
    then decode_response root
    else if bytes_eq type (key b'e')
    then decode_error_field root
    else err (invalid_argument "unknown KRPC message type")

-- DecodeKrpc, with the fuel of the bencode decoder.
unfoldable pub decode_krpc : ℕ → Bytes → Outcome KrpcMessage
unfolding decode require_string decode_version decode_payload
decode_krpc fuel encoded = do
  root_value ← decode fuel encoded
  root ← as_dictionary root_value
  type ← require_string root (key b'y')
  transaction_id ← require_string root (key b't')
  version ← decode_version root
  payload ← decode_payload type root
  ok (record { transaction_id = transaction_id; version = version; payload = payload })
