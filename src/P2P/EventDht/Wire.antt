-- ===== src/P2P/EventDht/Wire.antt =====
-- The bencode form of events in src/Blocxxi/P2P/event_dht.cpp: ToValue, the parsers, and the answer
-- to a bx_get_event query.
pub mod RoundTrip
pub mod Encoded
use blocxxi.Base.{
  ℕ, [], ◌∷◌, List, Bytes, text, ℤ, Option, none, some, Outcome, ok, ◌>>=◌, bytes_eq, not,
  if◌then◌else◌,
}
use mathlib.Core.Option
use blocxxi.Codec.Bencode.{
  Value, Items, Entries, integer, string, list, dictionary, no_items, item, no_entries, emplace,
  as_integer, as_string, as_list, as_dictionary,
}
use blocxxi.Core.Primitives.{to_bytes, to_characters}
use blocxxi.Core.EventRecord.{EventAttribute, EventEnvelope, SignedEventRecord}
use blocxxi.P2P.Krpc.{find_entry}
use blocxxi.P2P.EventDht.{EventQuery, PublishedEvent, MemoryEventDht, Arrange, query}

-- ToValue of identifiers
unfoldable pub strings_value : List Bytes → Items
strings_value [] = no_items
strings_value (x ∷ xs) = item (string x) (strings_value xs)

-- A DictionaryType of pairs, which std::map sorts by their keys.
unfoldable pub make_dictionary : List (Bytes × Value) → Entries
unfolding emplace
make_dictionary [] = no_entries
make_dictionary (p ∷ pairs) = emplace p.0 p.1 (make_dictionary pairs)

-- ToValue of attributes: the pairs of one, and the list.
unfoldable pub attribute_pairs : EventAttribute → List (Bytes × Value)
unfolding text
attribute_pairs a = (text "key", string a.key) ∷ (text "value", string a.value) ∷ []

unfoldable pub attributes_value : List EventAttribute → Items
unfolding make_dictionary attribute_pairs
attributes_value [] = no_items
attributes_value (a ∷ attributes) =
    item (dictionary (make_dictionary (attribute_pairs a))) (attributes_value attributes)

-- ToValue of an envelope
unfoldable pub envelope_pairs : EventEnvelope → List (Bytes × Value)
unfolding text strings_value attributes_value
envelope_pairs e =
    (text "schema", string e.schema)
    ∷ (text "event_type", string e.event_type)
    ∷ (text "taxonomy", string e.taxonomy)
    ∷ (text "source", string e.source)
    ∷ (text "producer", string e.producer)
    ∷ (text "window_start", integer e.window.start_utc)
    ∷ (text "window_end", integer e.window.end_utc)
    ∷ (text "observed_at", integer e.observed_at_utc)
    ∷ (text "published_at", integer e.published_at_utc)
    ∷ (text "identifiers", list (strings_value e.identifiers))
    ∷ (text "attributes", list (attributes_value e.attributes))
    ∷ (text "summary", string e.summary)
    ∷ (text "payload", string (to_characters e.payload))
    ∷ []

unfoldable pub envelope_value : EventEnvelope → Entries
unfolding make_dictionary envelope_pairs
envelope_value e = make_dictionary (envelope_pairs e)

-- ToValue of a signed record
unfoldable pub record_pairs : SignedEventRecord → List (Bytes × Value)
unfolding text envelope_value
record_pairs r =
    (text "envelope", dictionary (envelope_value r.envelope))
    ∷ (text "signer_name", string r.signer_name)
    ∷ (text "signer_public_key_hex", string r.signer_public_key_hex)
    ∷ (text "signature_hex", string r.signature_hex)
    ∷ []

unfoldable pub record_value : SignedEventRecord → Value
unfolding make_dictionary record_pairs
record_value r = dictionary (make_dictionary (record_pairs r))

-- RequireString and RequireInteger: nothing where the key is missing, an exception where the value
-- has another type.
unfoldable pub optional_string : Entries → Bytes → Outcome (Option Bytes)
unfolding find_entry
optional_string values key = elim (find_entry key values) [
  | none ↦ ok none
  | some v ↦ (do s ← as_string v; ok (some s))
]

unfoldable pub optional_integer : Entries → Bytes → Outcome (Option ℤ)
unfolding find_entry
optional_integer values key = elim (find_entry key values) [
  | none ↦ ok none
  | some v ↦ (do i ← as_integer v; ok (some i))
]

-- One round of ParseAttributes, and the loop.
unfoldable pub make_attribute : Option Bytes → Option Bytes → Option EventAttribute
make_attribute (some key) (some value) = some (record { key = key; value = value })
make_attribute _ _ = none

unfoldable pub parse_attribute : Value → Outcome (Option EventAttribute)
unfolding optional_string text make_attribute
parse_attribute v = do
  dict ← as_dictionary v
  key ← optional_string dict (text "key")
  value ← optional_string dict (text "value")
  ok (make_attribute key value)

unfoldable pub cons_attribute :
    EventAttribute → Outcome (Option (List EventAttribute)) → Outcome (Option (List EventAttribute))
cons_attribute a parsed = do rest ← parsed; ok (Option.map (λ attributes. a ∷ attributes) rest)

unfoldable pub parse_attributes : Items → Outcome (Option (List EventAttribute))
unfolding parse_attribute cons_attribute
parse_attributes no_items = ok (some [])
parse_attributes (item v items) = do
  parsed ← parse_attribute v
  elim parsed [ none ↦ ok none | some a ↦ cons_attribute a (parse_attributes items) ]

-- The loop of ParseEnvelope over identifiers.
unfoldable pub parse_strings : Items → Outcome (List Bytes)
parse_strings no_items = ok []
parse_strings (item v items) = do s ← as_string v; rest ← parse_strings items; ok (s ∷ rest)

-- The envelope without its lists, if no field is missing.
unfoldable pub make_envelope :
    Option Bytes
    → Option Bytes
    → Option Bytes
    → Option Bytes
    → Option Bytes
    → Option ℤ
    → Option ℤ
    → Option ℤ
    → Option ℤ
    → Option Bytes
    → Option Bytes
    → Option EventEnvelope
make_envelope (some schema) (some event_type) (some taxonomy) (some source) (some producer)
      (some window_start) (some window_end) (some observed_at) (some published_at) (some summary)
      (some payload) =
    some (record {
      schema = schema;
      event_type = event_type;
      taxonomy = taxonomy;
      source = source;
      producer = producer;
      window = record { start_utc = window_start; end_utc = window_end };
      observed_at_utc = observed_at;
      published_at_utc = published_at;
      identifiers = [];
      attributes = [];
      summary = summary;
      payload = to_bytes payload;
    })
make_envelope _ _ _ _ _ _ _ _ _ _ _ = none

-- ParseEnvelope up to its first return.
unfoldable pub parse_fields : Entries → Outcome (Option EventEnvelope)
unfolding optional_string optional_integer make_envelope text
parse_fields dict = do
  schema ← optional_string dict (text "schema")
  event_type ← optional_string dict (text "event_type")
  taxonomy ← optional_string dict (text "taxonomy")
  source ← optional_string dict (text "source")
  producer ← optional_string dict (text "producer")
  window_start ← optional_integer dict (text "window_start")
  window_end ← optional_integer dict (text "window_end")
  observed_at ← optional_integer dict (text "observed_at")
  published_at ← optional_integer dict (text "published_at")
  summary ← optional_string dict (text "summary")
  payload ← optional_string dict (text "payload")
  ok (
      make_envelope schema event_type taxonomy source producer window_start window_end observed_at
        published_at summary payload)

-- The lists of the envelope: empty where they are missing.
unfoldable pub parse_identifiers : Entries → Outcome (List Bytes)
unfolding find_entry text parse_strings
parse_identifiers dict = elim (find_entry (text "identifiers") dict) [
  | none ↦ ok []
  | some v ↦ (do items ← as_list v; parse_strings items)
]

unfoldable pub parse_attribute_list : Entries → Outcome (Option (List EventAttribute))
unfolding find_entry text parse_attributes
parse_attribute_list dict = elim (find_entry (text "attributes") dict) [
  | none ↦ ok (some [])
  | some v ↦ (do items ← as_list v; parse_attributes items)
]

-- ParseEnvelope from the lists on.
unfoldable pub parse_lists : Entries → EventEnvelope → Outcome (Option EventEnvelope)
unfolding parse_identifiers parse_attribute_list
parse_lists dict e = do
  identifiers ← parse_identifiers dict
  attributes ← parse_attribute_list dict
  ok (Option.map (λ items. record e { identifiers = identifiers; attributes = items }) attributes)

unfoldable pub parse_envelope : Value → Outcome (Option EventEnvelope)
unfolding parse_fields parse_lists
parse_envelope v = do
  dict ← as_dictionary v
  fields ← parse_fields dict
  elim fields [ none ↦ ok none | some e ↦ parse_lists dict e ]

-- The fields of a signed record, if none is missing.
unfoldable pub parse_signed :
    Option Value → Option Bytes → Option Bytes → Option Bytes → Outcome (Option SignedEventRecord)
unfolding parse_envelope
parse_signed (some envelope) (some name) (some public_key) (some signature) = do
  parsed ← parse_envelope envelope
  ok (
      Option.map
        (λ e. record {
          envelope = e;
          signer_name = name;
          signer_public_key_hex = public_key;
          signature_hex = signature;
        })
        parsed)
parse_signed _ _ _ _ = ok none

unfoldable pub parse_signed_event_record : Value → Outcome (Option SignedEventRecord)
unfolding find_entry optional_string text parse_signed
parse_signed_event_record v = do
  dict ← as_dictionary v
  name ← optional_string dict (text "signer_name")
  public_key ← optional_string dict (text "signer_public_key_hex")
  signature ← optional_string dict (text "signature_hex")
  parse_signed (find_entry (text "envelope") dict) name public_key signature

-- The records of the answer.
unfoldable pub records_value : List PublishedEvent → Items
unfolding record_value
records_value [] = no_items
records_value (p ∷ events) = item (record_value p.record_) (records_value events)

-- The query of the handler: by the key alone, with the limit 64.
abbrev pub key_query : Bytes → EventQuery
key_query key = record {
  deterministic_key = some key;
  event_type = none;
  taxonomy = none;
  window_start_utc = none;
  window_end_utc = none;
  identifiers = [];
  limit = 64;
}

-- The handler that MainlineEventDht registers: the values of the response, or nothing.
unfoldable pub on_custom_query :
    Arrange → MemoryEventDht → Bytes → Entries → Outcome (Option Entries)
unfolding bytes_eq text find_entry query records_value make_dictionary
on_custom_query arrange dht method arguments =
    let answer : Outcome (Option Entries) = elim (find_entry (text "key") arguments) [
      | none ↦ ok none
      | some v ↦ (do
        key ← as_string v
        let matches = query arrange dht (record {
          deterministic_key = some key;
          event_type = none;
          taxonomy = none;
          window_start_utc = none;
          window_end_utc = none;
          identifiers = [];
          limit = 64;
        })
        ok (some (make_dictionary ((text "records", list (records_value matches)) ∷ []))))
    ] in
    if not (bytes_eq method (text "bx_get_event")) then ok none else answer
