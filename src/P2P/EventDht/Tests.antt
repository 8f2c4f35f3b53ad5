-- ===== src/P2P/EventDht/Tests.antt =====
-- The event stores at concrete inputs.
use mathlib.Core.List.{Perm}
use blocxxi.Base.{
  Option, Outcome, ◌++◌, ◌⊎◌, pos, ◌≤◌, ◌≡◌, refl, [], ◌∷◌, List, Bytes, text, false, true, some,
  none, ok, ◌>>=◌, All, length, arith, replicate,
}
use blocxxi.Crypto.Signature.{of_secret}
use blocxxi.Core.Status.{success}
use blocxxi.Core.EventRecord.{
  SignedEventRecord, sign_event_record, verify_event_record, deterministic_key,
}
use blocxxi.Core.EventRecord.Signed.{verify_event_record-sign}
use blocxxi.Core.Tests.{toy, toy-IsSecret, price, signed}
use blocxxi.Codec.Bencode.{Entries, encode, no_items, item}
use blocxxi.Codec.Bencode.Decode.{decode}
use blocxxi.P2P.EventDht.{
  EventQuery, MemoryEventDht, PublishedEvent, derive_info_hash, publish, query, find_bucket,
}
use blocxxi.P2P.EventDht.Valid.{IsValid, contents}
use blocxxi.P2P.EventDht.Publish.{publish-IsValid}
use blocxxi.P2P.EventDht.Twice.{publish_twice}
use blocxxi.P2P.EventDht.Matches.{IsSelection, stored}
use blocxxi.P2P.EventDht.Query.{IsOwn, IsDescending, AreBehind, query_outcome}
use blocxxi.P2P.EventDht.Arranged.{arranged, arranged-IsArrange}
use blocxxi.P2P.EventDht.Wire.{record_value, key_query, on_custom_query, parse_signed_event_record}
use blocxxi.P2P.EventDht.Wire.Encoded.{parse_signed_event_record-decode}
use blocxxi.P2P.EventDht.Mainline.{Reply, Session, replied, timed_out}
use blocxxi.P2P.EventDht.Mainline.Remote.{with_records, responded}
use blocxxi.P2P.EventDht.Mainline.Unverified.{with_peer}

abbrev empty : MemoryEventDht
empty = record { entries = []; last_publish = none }

abbrev signed_price : SignedEventRecord
signed_price = sign_event_record toy (pos 15) 3 price (of_secret toy (replicate 32 1)) (b'n' ∷ [])

signed_price_verifies : verify_event_record toy signed_price ≡ true
signed_price_verifies =
    verify_event_record-sign toy (replicate 32 1) (pos 15) 3 price (b'n' ∷ []) toy-IsSecret

abbrev one_event : MemoryEventDht
one_event = (publish toy (pos 16) signed_price empty).1

publish-IsValid_example : IsValid toy one_event.entries
publish-IsValid_example = publish-IsValid toy (pos 16) signed_price empty tt

publish_twice_example :
    let key = deterministic_key signed_price in
    let twice = publish toy (pos 17) signed_price one_event in
    (twice.0 ≡ success (text "duplicate publish collapsed"))
    × (twice.1.last_publish
        ≡ some (record {
          dht_key = key;
          info_hash = derive_info_hash key;
          inserted = false;
          duplicate = true;
        }))
    × (contents (find_bucket key twice.1.entries) ≡ contents (find_bucket key one_event.entries))
publish_twice_example = publish_twice (pos 16) (pos 17) signed_price toy empty signed_price_verifies

one_valid : IsValid toy one_event.entries
one_valid = publish-IsValid toy (pos 16) signed_price empty tt

abbrev prices : EventQuery
prices = record (key_query []) { deterministic_key = none; event_type = some (b'p' ∷ []) }

query_outcome_example :
    (found : List PublishedEvent) × (rest : List PublishedEvent) × IsSelection prices
      (stored one_event.entries)
      found
    × Perm found (query arranged one_event prices ++ rest)
    × IsDescending (query arranged one_event prices)
    × AreBehind (query arranged one_event prices) rest
    × (length (query arranged one_event prices) ≤ 64)
    × ((rest ≡ []) ⊎ (length (query arranged one_event prices) ≡ 64))
    × All (IsOwn toy prices) (query arranged one_event prices)
query_outcome_example = query_outcome toy prices arranged one_event arranged-IsArrange one_valid

price_size : length (encode (record_value signed)) ≡ 288
unfolding encode record_value
price_size = refl

parse_signed_event_record-decode_example :
    (decode 1000 (encode (record_value signed)) >>= parse_signed_event_record) ≡ ok (some signed)
parse_signed_event_record-decode_example =
    parse_signed_event_record-decode signed 1000
      (record {
        start_utc = omega arith;
        end_utc = omega arith;
        observed_at_utc = omega arith;
        published_at_utc = omega arith;
      })
      (omega (arith, price_size)) (omega (arith, price_size))

abbrev answered : Outcome (Option Entries) → Reply
answered (ok (some values)) = replied (responded (b'1' ∷ []) values)
answered _ = timed_out

-- A session whose peers have the handler over one store.
abbrev served : Session Bytes
served = record {
  self_id = [];
  self_port = 1;
  get_peers = λ info router. timed_out;
  announce_peer = λ info token port implied router. timed_out;
  ask = λ method asked other. answered (on_custom_query arranged one_event method asked);
}

-- A router that names one peer, which returns an event without a signature.
abbrev lone_peer : Session Bytes
lone_peer = record {
  self_id = [];
  self_port = 1;
  get_peers = λ info router. replied (responded [] (with_peer (127 ∷ 0 ∷ 0 ∷ 1 ∷ 26 ∷ 225 ∷ [])));
  announce_peer = λ info token port implied router. timed_out;
  ask = λ method values other.
      replied (responded [] (with_records (item (record_value signed) no_items)));
}

signed_refused : verify_event_record toy signed ≡ false
unfolding verify_event_record
signed_refused = refl
