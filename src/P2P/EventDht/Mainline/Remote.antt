-- ===== src/P2P/EventDht/Mainline/Remote.antt =====
-- What Query takes over from the network.
use mathlib.Core.List.{map}
use blocxxi.Base.{◌≡◌, refl, [], ◌∷◌, List, Bytes, text, some, none, ok}
use blocxxi.Codec.Bencode.{Items, Entries, string, list}
use blocxxi.P2P.Krpc.{KrpcMessage, response}
use blocxxi.Core.EventRecord.{SignedEventRecord, deterministic_key}
use blocxxi.P2P.Compact.{AddressOps, IpEndpoint}
use blocxxi.P2P.EventDht.{EventQuery, PublishedEvent, MemoryEventDht, Arrange}
use blocxxi.P2P.EventDht.Wire.{make_dictionary, on_custom_query}
use blocxxi.P2P.EventDht.Mainline.{Session, replied, remote_event, parse_records, peer_records}

-- The events without the time and the count of the peer's store.
pub remote_events : List PublishedEvent → List PublishedEvent
remote_events [] = []
remote_events (p ∷ events) = remote_event p.record_ ∷ remote_events events

-- A response without a version.
abbrev pub responded : Bytes → Entries → KrpcMessage
responded id values = record { transaction_id = id; version = none; payload = response values }

-- The values of a response with records.
abbrev pub with_records : Items → Entries
with_records items = make_dictionary ((text "records", list items) ∷ [])

-- The arguments that QueryPeerRecords sends.
abbrev pub arguments : Bytes → Bytes → Entries
arguments id key = make_dictionary ((text "id", string id) ∷ (text "key", string key) ∷ [])

pub peer_records-with_records :
    (id : Bytes) (items : Items)
    → peer_records (replied (responded id (with_records items))) ≡ parse_records items
unfolding peer_records make_dictionary text
peer_records-with_records id items = refl

-- A query by a key alone, with the limit 64.
abbrev pub by_key : Bytes → EventQuery
by_key key = record {
  deterministic_key = some key;
  event_type = none;
  taxonomy = none;
  window_start_utc = none;
  window_end_utc = none;
  identifiers = [];
  limit = 64;
}

-- The records of some events.
abbrev pub records_of : List PublishedEvent → List SignedEventRecord
records_of events = map (λ (p : PublishedEvent). p.record_) events

-- The event stands under the key of its record.
abbrev pub IsKeyed : PublishedEvent → Type 0
IsKeyed p = p.dht_key ≡ deterministic_key p.record_

module _ {A : Type 0} (ops : AddressOps A) (to_text : A → Bytes) (session : Session A)
    (peer : IpEndpoint A) (arrange : Arrange) (dht : MemoryEventDht) (transaction : Bytes) where
  -- The session delivers a request to the peer's handler, and the values of its response back.
  abbrev pub Delivers : Type 0
  Delivers =
      (method : Bytes) (asked values : Entries)
      → on_custom_query arrange dht method asked ≡ ok (some values)
      → session.ask method asked peer ≡ replied (responded transaction values)
