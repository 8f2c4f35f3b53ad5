-- ===== src/P2P/EventDht.antt =====
-- src/Blocxxi/P2P/event_dht.h and event_dht.cpp: the store of signed events in memory. The bencode
-- form of events is in Wire, the lookups over the network in Mainline.
pub mod Valid
pub mod Publish
pub mod Wire
pub mod Mainline
pub mod Matches
pub mod Query
pub mod Twice
mod Tests
pub mod Arranged
use blocxxi.Base.{
  ℕ, ◌+◌, ◌^◌, ◌%◌, ◌++◌, [], ◌∷◌, List, Bytes, text, Bool, true, false, ◌&&◌, not, ℤ, pos, ltb_ℤ,
  ◌-ℤ◌, bytes_eq, bytes_lt, Option, none, some, if◌then◌else◌, take, is_empty,
}
use mathlib.Core.Option
use blocxxi.Crypto.Hash.{Hash}
use blocxxi.Crypto.Signature.{Ecdsa}
use blocxxi.Core.Status.{Status, StatusCode, success, failure}
use blocxxi.Core.Primitives.{make_id}
use blocxxi.Core.EventRecord.{
  EventEnvelope, SignedEventRecord, derive_deterministic_event_key, deterministic_key,
  verify_event_record,
}

pub record EventQuery : Type 0 where
  pub deterministic_key : Option Bytes
  pub event_type : Option Bytes
  pub taxonomy : Option Bytes
  pub window_start_utc : Option ℤ
  pub window_end_utc : Option ℤ
  pub identifiers : List Bytes
  pub limit : ℕ

pub record PublishedEvent : Type 0 where
  pub dht_key : Bytes
  pub info_hash : Hash
  pub record_ : SignedEventRecord
  pub published_at_utc : ℤ
  pub publish_count : ℕ

pub record PublishResult : Type 0 where
  pub dht_key : Bytes
  pub info_hash : Hash
  pub inserted : Bool
  pub duplicate : Bool

-- An entry of the map of MemoryEventDht.
pub record Bucket : Type 0 where
  pub key : Bytes
  pub events : List PublishedEvent

pub record MemoryEventDht : Type 0 where
  pub entries : List Bucket
  pub last_publish : Option PublishResult

-- DeriveInfoHash: the first 20 bytes of the id.
unfoldable pub derive_info_hash : Bytes → Hash
unfolding make_id
derive_info_hash key = take 20 (make_id key)

-- std::find over identifiers
unfoldable pub has_identifier : Bytes → List Bytes → Bool
unfolding bytes_eq
has_identifier expected [] = false
has_identifier expected (x ∷ xs) = if bytes_eq x expected then true else has_identifier expected xs

-- MatchesIdentifiers: an empty list asks for nothing.
unfoldable pub matches_identifiers : SignedEventRecord → List Bytes → Bool
unfolding has_identifier
matches_identifiers r [] = true
matches_identifiers r (x ∷ xs) = has_identifier x r.envelope.identifiers && matches_identifiers r xs

-- A field of the query that is absent, or passes the test.
unfoldable pub absent_or {ℓ} : {A : Type ℓ} → Option A → (A → Bool) → Bool
absent_or none test = true
absent_or (some a) test = test a

unfoldable pub matches_query : PublishedEvent → EventQuery → Bool
unfolding absent_or bytes_eq matches_identifiers
matches_query published q =
    let e : EventEnvelope = published.record_.envelope in
    if not (absent_or q.deterministic_key (λ key. bytes_eq published.dht_key key))
    then false
    else if not (absent_or q.event_type (λ type. bytes_eq e.event_type type))
    then false
    else if not (absent_or q.taxonomy (λ taxonomy. bytes_eq e.taxonomy taxonomy))
    then false
    else if not (absent_or q.window_start_utc (λ start. not (ltb_ℤ e.window.end_utc start)))
    then false
    else if not (absent_or q.window_end_utc (λ end. not (ltb_ℤ end e.window.start_utc)))
    then false
    else matches_identifiers published.record_ q.identifiers

-- The test of Publish for a record that is there already.
unfoldable pub same_signature : SignedEventRecord → SignedEventRecord → Bool
unfolding bytes_eq
same_signature existing r =
    bytes_eq existing.signature_hex r.signature_hex
    && bytes_eq existing.signer_public_key_hex r.signer_public_key_hex

-- Publish and RepublishRecent count a std::uint32_t up and set the time.
unfoldable pub refreshed : ℤ → PublishedEvent → PublishedEvent
refreshed now p = record p {
  published_at_utc = now;
  publish_count = (p.publish_count + 1) % 2 ^ 32;
}

-- The bucket with its first duplicate of the record refreshed, if there is one.
unfoldable pub refresh_duplicate :
    ℤ → SignedEventRecord → List PublishedEvent → Option (List PublishedEvent)
unfolding same_signature refreshed
refresh_duplicate now r [] = none
refresh_duplicate now r (p ∷ events) =
    let rest = Option.map (λ after. p ∷ after) (refresh_duplicate now r events) in
    if same_signature p.record_ r then some (refreshed now p ∷ events) else rest

-- entries_[key], as read and as written.
unfoldable pub find_bucket : Bytes → List Bucket → List PublishedEvent
unfolding bytes_eq
find_bucket key [] = []
find_bucket key (b ∷ entries) = if bytes_eq b.key key then b.events else find_bucket key entries

unfoldable pub put_bucket : Bytes → List PublishedEvent → List Bucket → List Bucket
unfolding bytes_eq
put_bucket key events [] = record { key = key; events = events } ∷ []
put_bucket key events (b ∷ entries) =
    let rest = put_bucket key events entries in
    if bytes_eq b.key key then record b { events = events } ∷ entries else b ∷ rest

-- The records of the map, bucket by bucket.
unfoldable pub all_events : List Bucket → List PublishedEvent
all_events [] = []
all_events (b ∷ entries) = b.events ++ all_events entries

-- The loop of Query.
unfoldable pub matching : EventQuery → List PublishedEvent → List PublishedEvent
unfolding matches_query
matching q [] = []
matching q (p ∷ events) =
    let rest = matching q events in if matches_query p q then p ∷ rest else rest

-- The comparator of Query: lhs.published_at_utc > rhs.published_at_utc.
unfoldable pub later_first : PublishedEvent → PublishedEvent → Bool
later_first lhs rhs = ltb_ℤ rhs.published_at_utc lhs.published_at_utc

-- std::sort with a comparator. It is not stable, and the order in which the map is walked is not
-- specified.
abbrev pub Arrange : Type 0
Arrange = (PublishedEvent → PublishedEvent → Bool) → List PublishedEvent → List PublishedEvent

unfoldable pub query : Arrange → MemoryEventDht → EventQuery → List PublishedEvent
unfolding matching all_events later_first
query arrange dht q = take q.limit (arrange later_first (matching q (all_events dht.entries)))

-- The inner loop of RepublishRecent, and the number of the events that it refreshed.
unfoldable pub republish_events : ℤ → ℤ → List PublishedEvent → List PublishedEvent × ℕ
unfolding refreshed
republish_events now window [] = ([], 0)
republish_events now window (p ∷ events) =
    let (after, count) = republish_events now window events in
    if ltb_ℤ window (now -ℤ p.published_at_utc)
    then (p ∷ after, count)
    else (refreshed now p ∷ after, count + 1)

unfoldable pub republish_entries : ℤ → ℤ → List Bucket → List Bucket × ℕ
unfolding republish_events
republish_entries now window [] = ([], 0)
republish_entries now window (b ∷ entries) =
    let (events, count) = republish_events now window b.events in
    let (after, rest) = republish_entries now window entries in
    (record b { events = events } ∷ after, count + rest)

-- RepublishRecent
unfoldable pub republish_recent : ℤ → ℤ → MemoryEventDht → ℕ × MemoryEventDht
unfolding republish_entries
republish_recent now window dht =
    let (entries, count) = republish_entries now window dht.entries in
    (count, record dht { entries = entries })

-- The branch of Publish for a duplicate, with the bucket `after` it was refreshed.
unfoldable pub store_duplicate :
    Bytes → Hash → List PublishedEvent → MemoryEventDht → Status × MemoryEventDht
unfolding put_bucket text
store_duplicate key info after dht = (
  success (text "duplicate publish collapsed"),
  record {
    entries = put_bucket key after dht.entries;
    last_publish =
        some (record { dht_key = key; info_hash = info; inserted = false; duplicate = true });
  },
)

-- The end of Publish, which appends the record to the bucket.
unfoldable pub store_new :
    ℤ
    → SignedEventRecord
    → Bytes
    → Hash
    → List PublishedEvent
    → MemoryEventDht
    → Status × MemoryEventDht
unfolding put_bucket
store_new now r key info bucket dht =
    let published : PublishedEvent = record {
      dht_key = key;
      info_hash = info;
      record_ = r;
      published_at_utc = now;
      publish_count = 1;
    } in
    (
      success [],
      record {
        entries = put_bucket key (bucket ++ published ∷ []) dht.entries;
        last_publish =
            some (record { dht_key = key; info_hash = info; inserted = true; duplicate = false });
      },
    )

-- What Publish does with the bucket, from its refreshed duplicate on.
unfoldable pub store_bucket :
    ℤ
    → SignedEventRecord
    → Bytes
    → Hash
    → List PublishedEvent
    → MemoryEventDht
    → Option (List PublishedEvent)
    → Status × MemoryEventDht
unfolding store_duplicate store_new
store_bucket now r key info bucket dht (some after) = store_duplicate key info after dht
store_bucket now r key info bucket dht none = store_new now r key info bucket dht

-- Publish from the lookup of the bucket on.
unfoldable pub store_record :
    ℤ → SignedEventRecord → Bytes → Hash → MemoryEventDht → Status × MemoryEventDht
unfolding find_bucket refresh_duplicate store_bucket
store_record now r key info dht =
    let bucket = find_bucket key dht.entries in
    store_bucket now r key info bucket dht (refresh_duplicate now r bucket)

module _ {Point : Type 0} (ecdsa : Ecdsa Point) where
  -- Publish at the time `now`.
  unfoldable pub publish : ℤ → SignedEventRecord → MemoryEventDht → Status × MemoryEventDht
  unfolding verify_event_record derive_deterministic_event_key derive_info_hash store_record text
  publish now r dht =
      let key = deterministic_key r in
      if not (verify_event_record ecdsa r)
      then (failure StatusCode.rejected (text "signed event record failed verification"), dht)
      else store_record now r key (derive_info_hash key) dht
