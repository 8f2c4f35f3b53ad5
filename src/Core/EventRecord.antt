-- ===== src/Core/EventRecord.antt =====
-- src/Blocxxi/Core/event_record.h and event_record.cpp: events, the text that is hashed and signed,
-- and signed records.
pub mod Canonical
pub mod Signed
use blocxxi.Base.{
  ℕ, zero, suc, ◌/◌, ◌++◌, [], ◌∷◌, List, Bytes, text, Bool, ℤ, pos, negsuc, to_string_ℤ, bytes_eq,
  bytes_lt, sort, if◌then◌else◌, bit_and, Option, none, some, false,
}
use blocxxi.Codec.Hex.{char_at}
use blocxxi.Crypto.Hash.{Hash, to_hex}
use blocxxi.Crypto.Signature.{
  Ecdsa, KeyPair, public_key_to_hex, public_key_from_hex, sign_message_hex, verify_message_hex,
}
use blocxxi.Core.Primitives.{make_id}

pub record EventAttribute : Type 0 where
  pub key : Bytes
  pub value : Bytes

pub record EventWindow : Type 0 where
  pub start_utc : ℤ
  pub end_utc : ℤ

pub record EventEnvelope : Type 0 where
  pub schema : Bytes
  pub event_type : Bytes
  pub taxonomy : Bytes
  pub source : Bytes
  pub producer : Bytes
  pub window : EventWindow
  pub observed_at_utc : ℤ
  pub published_at_utc : ℤ
  pub identifiers : List Bytes
  pub attributes : List EventAttribute
  pub summary : Bytes
  pub payload : Bytes

pub record SignedEventRecord : Type 0 where
  pub envelope : EventEnvelope
  pub signer_name : Bytes
  pub signer_public_key_hex : Bytes
  pub signature_hex : Bytes

-- kHexDigits
unfoldable pub hex_digits : Bytes
unfolding text
hex_digits = text "0123456789abcdef"

-- EncodeHex
unfoldable pub encode_hex : Bytes → Bytes
unfolding hex_digits char_at
encode_hex [] = []
encode_hex (byte ∷ payload) =
    char_at hex_digits (bit_and (byte / 16) 0x0f)
    ∷ char_at hex_digits (bit_and byte 0x0f)
    ∷ encode_hex payload

unfoldable pub sorted_identifiers : List Bytes → List Bytes
unfolding sort bytes_lt
sorted_identifiers values = sort bytes_lt values

-- The comparison that SortedAttributes hands to the sort.
unfoldable pub attribute_less : EventAttribute → EventAttribute → Bool
unfolding bytes_eq bytes_lt
attribute_less lhs rhs =
    if bytes_eq lhs.key rhs.key then bytes_lt lhs.value rhs.value else bytes_lt lhs.key rhs.key

unfoldable pub sorted_attributes : List EventAttribute → List EventAttribute
unfolding sort attribute_less
sorted_attributes values = sort attribute_less values

-- The loops over identifiers and attributes: a separator in front of each but the first.
unfoldable pub append_rest : ℕ → List Bytes → Bytes
append_rest separator [] = []
append_rest separator (x ∷ xs) = separator ∷ x ++ append_rest separator xs

unfoldable pub append_all : ℕ → List Bytes → Bytes
unfolding append_rest
append_all separator [] = []
append_all separator (x ∷ xs) = x ++ append_rest separator xs

unfoldable pub attribute_items : List EventAttribute → List Bytes
attribute_items [] = []
attribute_items (a ∷ attributes) = (a.key ++ (b'=' ∷ a.value)) ∷ attribute_items attributes

abbrev newline : ℕ
newline = 10

-- name + value + '\n'
unfoldable pub line : Bytes → Bytes → Bytes
line name value = name ++ (value ++ (newline ∷ []))

-- CanonicalSeed, which CanonicalText returns and CanonicalBytes copies.
unfoldable pub canonical_text : EventEnvelope → Bytes
unfolding text line append_all sorted_identifiers sorted_attributes attribute_items to_string_ℤ
    encode_hex
canonical_text e =
    line (text "schema=") e.schema
    ++ line (text "event_type=") e.event_type
    ++ line (text "taxonomy=") e.taxonomy
    ++ line (text "source=") e.source
    ++ line (text "producer=") e.producer
    ++ line (text "window_start=") (to_string_ℤ e.window.start_utc)
    ++ line (text "window_end=") (to_string_ℤ e.window.end_utc)
    ++ line (text "observed_at=") (to_string_ℤ e.observed_at_utc)
    ++ line (text "published_at=") (to_string_ℤ e.published_at_utc)
    ++ line (text "identifiers=") (append_all b',' (sorted_identifiers e.identifiers))
    ++ line (text "attributes=")
        (append_all b'|' (attribute_items (sorted_attributes e.attributes)))
    ++ line (text "summary=") e.summary
    ++ line (text "payload_hex=") (encode_hex e.payload)

unfoldable pub content_id : EventEnvelope → Hash
unfolding make_id canonical_text
content_id e = make_id (canonical_text e)

-- The seed of the key, from the sorted identifiers and the content id.
unfoldable pub key_seed : EventEnvelope → List Bytes → Hash → Bytes
unfolding append_rest to_string_ℤ to_hex
key_seed e identifiers id =
    e.schema
    ++ (b'|' ∷ e.event_type)
    ++ (b'|' ∷ e.taxonomy)
    ++ (b'|' ∷ to_string_ℤ e.window.start_utc)
    ++ (b'|' ∷ to_string_ℤ e.window.end_utc)
    ++ append_rest b'|' identifiers
    ++ (b'|' ∷ to_hex id)

-- DeriveDeterministicEventKey
unfoldable pub derive_deterministic_event_key : EventEnvelope → Bytes
unfolding key_seed sorted_identifiers content_id make_id to_hex
derive_deterministic_event_key e =
    to_hex (make_id (key_seed e (sorted_identifiers e.identifiers) (content_id e)))

-- SignedEventRecord::DeterministicKey
abbrev pub deterministic_key : SignedEventRecord → Bytes
deterministic_key r = derive_deterministic_event_key r.envelope

-- time == 0 ? otherwise : time
unfoldable pub default_time : ℤ → ℤ → ℤ
default_time otherwise (pos zero) = otherwise
default_time otherwise (pos (suc n)) = pos (suc n)
default_time otherwise (negsuc n) = negsuc n

-- The two tests at the start of SignEventRecord, at the time `now`.
unfoldable pub stamp : ℤ → EventEnvelope → EventEnvelope
unfolding default_time
stamp now e =
    let observed = default_time now e.observed_at_utc in
    record e {
      observed_at_utc = observed;
      published_at_utc = default_time observed e.published_at_utc;
    }

module _ {Point : Type 0} (ecdsa : Ecdsa Point) where
  unfoldable pub sign_event_record : ℤ → ℕ → EventEnvelope → KeyPair → Bytes → SignedEventRecord
  unfolding stamp canonical_text public_key_to_hex sign_message_hex
  sign_event_record now nonce e key_pair signer_name =
      let stamped = stamp now e in
      record {
        envelope = stamped;
        signer_name = signer_name;
        signer_public_key_hex = public_key_to_hex key_pair.public;
        signature_hex = sign_message_hex ecdsa nonce key_pair (canonical_text stamped);
      }

  -- The key from its text, and the signature of the canonical bytes under it.
  unfoldable pub verify_text : Bytes → Bytes → Bytes → Bool
  unfolding public_key_from_hex verify_message_hex
  verify_text public_key_hex canonical signature_hex = elim (public_key_from_hex public_key_hex) [
    | none ↦ false
    | some key ↦ verify_message_hex ecdsa key canonical signature_hex
  ]

  unfoldable pub verify_event_record : SignedEventRecord → Bool
  unfolding verify_text canonical_text
  verify_event_record r =
      verify_text r.signer_public_key_hex (canonical_text r.envelope) r.signature_hex
