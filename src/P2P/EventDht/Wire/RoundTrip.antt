-- ===== src/P2P/EventDht/Wire/RoundTrip.antt =====
-- The bencode form of an event, read back.
use blocxxi.Base.{◌≡◌, refl, ◌∙◌, ap, [], ◌∷◌, List, Bytes, some, ok}
use blocxxi.Core.EventRecord.{EventAttribute, EventEnvelope, SignedEventRecord}
use blocxxi.Codec.Bencode.{dictionary}
use blocxxi.P2P.EventDht.Wire.{
  strings_value, attributes_value, envelope_value, record_value, parse_attributes, cons_attribute,
  parse_strings, parse_fields, parse_identifiers, parse_attribute_list, parse_lists, parse_envelope,
  parse_signed_event_record,
}

parse_strings-strings_value : (xs : List Bytes) → parse_strings (strings_value xs) ≡ ok xs
unfolding parse_strings strings_value
parse_strings-strings_value [] = refl
parse_strings-strings_value (x ∷ xs) = rw (parse_strings-strings_value xs) refl

parse_attributes-attributes_value :
    (attributes : List EventAttribute)
    → parse_attributes (attributes_value attributes) ≡ ok (some attributes)
unfolding parse_attributes attributes_value
parse_attributes-attributes_value [] = refl
parse_attributes-attributes_value (a ∷ attributes) =
    ap (cons_attribute a) (parse_attributes-attributes_value attributes)

parse_fields-envelope_value :
    (e : EventEnvelope)
    → parse_fields (envelope_value e) ≡ ok (some (record e { identifiers = []; attributes = [] }))
unfolding parse_fields envelope_value
parse_fields-envelope_value e = refl

parse_identifiers-envelope_value :
    (e : EventEnvelope)
    → parse_identifiers (envelope_value e) ≡ parse_strings (strings_value e.identifiers)
unfolding parse_identifiers envelope_value
parse_identifiers-envelope_value e = refl

parse_attribute_list-envelope_value :
    (e : EventEnvelope)
    → parse_attribute_list (envelope_value e) ≡ parse_attributes (attributes_value e.attributes)
unfolding parse_attribute_list envelope_value
parse_attribute_list-envelope_value e = refl

parse_envelope-envelope_value :
    (e : EventEnvelope) → parse_envelope (dictionary (envelope_value e)) ≡ ok (some e)
unfolding parse_envelope parse_lists
parse_envelope-envelope_value e = rw (parse_fields-envelope_value e) (
    rw (parse_identifiers-envelope_value e ∙ parse_strings-strings_value e.identifiers) (
      rw (parse_attribute_list-envelope_value e ∙ parse_attributes-attributes_value e.attributes)
        refl))

-- A signed record, as the bencode value that ToValue makes of it, is parsed to that record.
pub parse_signed_event_record-record_value :
    (r : SignedEventRecord) → parse_signed_event_record (record_value r) ≡ ok (some r)
unfolding parse_signed_event_record record_value
parse_signed_event_record-record_value r = rw (parse_envelope-envelope_value r.envelope) refl
