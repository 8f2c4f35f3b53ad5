-- ===== src/P2P/EventDht/Mainline.antt =====
-- MainlineEventDht in src/Blocxxi/P2P/event_dht.cpp: the local store, and the routers and peers that
-- are asked over the network. A session is a parameter: what the other side replies to a request
-- before the call stops waiting.
pub mod Calls
pub mod Remote
pub mod Unverified
use blocxxi.Base.{
  ℕ, ◌++◌, [], ◌∷◌, List, Bytes, text, to_string, Bool, true, false, ◌&&◌, not, ℤ, pos, Option,
  none, some, Outcome, ok, ◌>>=◌, is_empty, if◌then◌else◌, ltb, length, take, bytes_eq, ◌==◌,
}
use blocxxi.Crypto.Hash.{Hash}
use blocxxi.Crypto.Signature.{Ecdsa}
use blocxxi.Core.Status.{Status, StatusCode, io_error, success, failure, status_ok}
use blocxxi.Core.EventRecord.{SignedEventRecord, deterministic_key}
use blocxxi.Codec.Bencode.{Value, Items, Entries, string, no_items, item, as_string, as_list}
use blocxxi.P2P.Krpc.{KrpcMessage, response, find_entry}
use blocxxi.P2P.Compact.{AddressOps, IpEndpoint, decode_compact_peer}
use blocxxi.P2P.EventDht.{
  EventQuery, PublishedEvent, MemoryEventDht, Arrange, derive_info_hash, query, publish,
  has_identifier,
}
use blocxxi.P2P.EventDht.Wire.{make_dictionary, parse_signed_event_record}

-- MainlineEventDhtOptions, but for the time to wait.
pub record MainlineEventDhtOptions (A : Type 0) : Type 0 where
  pub routers : List (IpEndpoint A)
  pub announce_port : ℕ
  pub implied_port : Bool

pub record EventQueryResult (A : Type 0) : Type 0 where
  pub records : List PublishedEvent
  pub peers : List (IpEndpoint A)

-- What a callback of the session hands over, if it is called in time.
pub data Reply : Type 0 where
  timed_out : Reply
  failed : Bytes → Reply
  replied : KrpcMessage → Reply

-- AsyncGetPeers, AsyncAnnouncePeer and AsyncQuery, and the session's own id and port.
pub record Session (A : Type 0) : Type 0 where
  pub self_id : Hash
  pub self_port : ℕ
  pub get_peers : Hash → IpEndpoint A → Reply
  pub announce_peer : Hash → Bytes → ℕ → Bool → IpEndpoint A → Reply
  pub ask : Bytes → Entries → IpEndpoint A → Reply

-- std::get_if<KrpcResponse>
abbrev pub response_values : KrpcMessage → Option Entries
response_values m = elim m.payload [ response values ↦ some values | _ ↦ none ]

-- SamePublishedRecord
unfoldable pub same_published_record : PublishedEvent → PublishedEvent → Bool
unfolding bytes_eq
same_published_record lhs rhs =
    bytes_eq lhs.dht_key rhs.dht_key
    && bytes_eq lhs.record_.signature_hex rhs.record_.signature_hex
    && bytes_eq lhs.record_.signer_public_key_hex rhs.record_.signer_public_key_hex

-- MergePublishedRecord: what it leaves in `records`.
unfoldable pub merge_published_record : List PublishedEvent → PublishedEvent → List PublishedEvent
unfolding same_published_record
merge_published_record [] published = published ∷ []
merge_published_record (p ∷ records) published =
    let rest = merge_published_record records published in
    if same_published_record p published then published ∷ records else p ∷ rest

unfoldable pub merge_all : List PublishedEvent → List PublishedEvent → List PublishedEvent
unfolding merge_published_record
merge_all records [] = records
merge_all records (p ∷ found) = merge_all (merge_published_record records p) found

-- The event that QueryPeerRecords makes of a record. The record is not verified.
unfoldable pub remote_event : SignedEventRecord → PublishedEvent
unfolding derive_info_hash
remote_event r = record {
  dht_key = deterministic_key r;
  info_hash = derive_info_hash (deterministic_key r);
  record_ = r;
  published_at_utc = pos 0;
  publish_count = 0;
}

-- The loop of QueryPeerRecords over the records of a response, with what it pushed.
unfoldable pub parse_records : Items → Outcome (Status × List PublishedEvent)
unfolding parse_signed_event_record remote_event text
parse_records no_items = ok (success [], [])
parse_records (item v items) = do
  parsed ← parse_signed_event_record v
  elim parsed [
    | none ↦
        ok (failure StatusCode.rejected (text "peer query returned an invalid event record"), [])
    | some r ↦ (do rest ← parse_records items; ok (rest.0, remote_event r ∷ rest.1))
  ]

-- The callback of QueryPeerRecords, and its return.
unfoldable pub peer_records : Reply → Outcome (Status × List PublishedEvent)
unfolding text find_entry parse_records
peer_records timed_out = ok (failure io_error (text "peer record query timed out"), [])
peer_records (failed message) = ok (failure io_error message, [])
peer_records (replied m) = elim (response_values m) [
  | none ↦
      ok (failure StatusCode.rejected (text "peer query did not return a response payload"), [])
  | some values ↦ elim (find_entry (text "records") values) [
    | none ↦ ok (success [], [])
    | some v ↦ (do items ← as_list v; parse_records items)
  ]
]
