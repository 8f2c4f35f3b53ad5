-- ===== src/P2P/EventDht/Wire/Encoded.antt =====
-- Signed records through the encoded text.
use blocxxi.Base.{ℕ, ◌*◌, ◌<◌, ◌≡◌, ◌∙◌, ap, [], ◌∷◌, List, Bytes, All, some, ok, ◌>>=◌, length}
use blocxxi.Base.Decimal.RoundTrip.{IsInt64}
use blocxxi.Core.EventRecord.{EventAttribute, EventEnvelope, SignedEventRecord}
use blocxxi.Codec.Bencode.{Value, encode}
use blocxxi.Codec.Bencode.Order.{IsWellFormed, AreWellFormed, AreOrdered}
use blocxxi.Codec.Bencode.Emplace.{emplace-AreOrdered}
use blocxxi.Codec.Bencode.Decode.{decode, size_mod}
use blocxxi.Codec.Bencode.Decode.RoundTrip.{decode-encode_value}
use blocxxi.P2P.EventDht.Wire.{
  strings_value, make_dictionary, attributes_value, attribute_pairs, envelope_pairs, record_pairs,
  envelope_value, record_value, parse_signed_event_record,
}
use blocxxi.P2P.EventDht.Wire.RoundTrip.{parse_signed_event_record-record_value}

make_dictionary-AreOrdered :
    (pairs : List (Bytes × Value))
    → All (λ p. IsWellFormed p.1) pairs
    → AreOrdered (make_dictionary pairs)
unfolding make_dictionary
make_dictionary-AreOrdered [] h = tt
make_dictionary-AreOrdered (p ∷ pairs) h =
    emplace-AreOrdered p.0 p.1 (make_dictionary pairs) h.0 (make_dictionary-AreOrdered pairs h.1)

strings_value-AreWellFormed : (xs : List Bytes) → AreWellFormed (strings_value xs)
unfolding strings_value
strings_value-AreWellFormed [] = tt
strings_value-AreWellFormed (x ∷ xs) = (tt, strings_value-AreWellFormed xs)

attributes_value-AreWellFormed :
    (attributes : List EventAttribute) → AreWellFormed (attributes_value attributes)
unfolding attributes_value attribute_pairs
attributes_value-AreWellFormed [] = tt
attributes_value-AreWellFormed (a ∷ attributes) = (
  make_dictionary-AreOrdered (attribute_pairs a) (tt, (tt, tt)),
  attributes_value-AreWellFormed attributes,
)

-- The four times are std::int64_t values.
pub record IsTimed (e : EventEnvelope) : Type 0 where
  pub start_utc : IsInt64 e.window.start_utc
  pub end_utc : IsInt64 e.window.end_utc
  pub observed_at_utc : IsInt64 e.observed_at_utc
  pub published_at_utc : IsInt64 e.published_at_utc

envelope_value-AreOrdered : (e : EventEnvelope) → IsTimed e → AreOrdered (envelope_value e)
unfolding envelope_value envelope_pairs
envelope_value-AreOrdered e h = make_dictionary-AreOrdered (envelope_pairs e) (
  tt,
  (
    tt,
    (
      tt,
      (
        tt,
        (
          tt,
          (
            h.start_utc,
            (
              h.end_utc,
              (
                h.observed_at_utc,
                (
                  h.published_at_utc,
                  (
                    strings_value-AreWellFormed e.identifiers,
                    (attributes_value-AreWellFormed e.attributes, (tt, (tt, tt))),
                  ),
                ),
              ),
            ),
          ),
        ),
      ),
    ),
  ),
)

record_value-IsWellFormed :
    (r : SignedEventRecord) → IsTimed r.envelope → IsWellFormed (record_value r)
unfolding record_value record_pairs
record_value-IsWellFormed r h =
    make_dictionary-AreOrdered (record_pairs r)
      (envelope_value-AreOrdered r.envelope h, (tt, (tt, (tt, tt))))

-- A signed record with std::int64_t times, as the text that the encoder makes of its value, is
-- decoded and parsed to that record, where the text is shorter than 2^64 bytes, with twice its
-- length as fuel.
pub parse_signed_event_record-decode :
    (r : SignedEventRecord) (fuel : ℕ)
    → IsTimed r.envelope
    → length (encode (record_value r)) < size_mod
    → 2 * length (encode (record_value r)) < fuel
    → (decode fuel (encode (record_value r)) >>= parse_signed_event_record) ≡ ok (some r)
parse_signed_event_record-decode r fuel h small enough =
    ap (λ decoded. decoded >>= parse_signed_event_record)
      (decode-encode_value (record_value r) fuel (record_value-IsWellFormed r h) small enough)
    ∙ parse_signed_event_record-record_value r
