-- ===== src/P2P/EventDht/Mainline/Calls.antt =====
-- The calls of MainlineEventDht in src/Blocxxi/P2P/event_dht.cpp: QueryRouter, QueryPeerRecords,
-- AnnounceToRouter, Publish and Query, over a session.
use blocxxi.Base.{
  ℕ, ◌++◌, [], ◌∷◌, List, Bytes, text, to_string, Bool, true, false, not, ℤ, Option, none, some,
  Outcome, ok, ◌>>=◌, is_empty, if◌then◌else◌, take, ◌==◌,
}
use blocxxi.Crypto.Signature.{Ecdsa}
use blocxxi.Core.Status.{Status, StatusCode, io_error, success, failure, status_ok}
use blocxxi.Core.EventRecord.{SignedEventRecord, deterministic_key}
use blocxxi.Codec.Bencode.{Items, Entries, string, no_items, item, as_string, as_list}
use blocxxi.P2P.Krpc.{find_entry}
use blocxxi.P2P.Compact.{AddressOps, IpEndpoint, decode_compact_peer}
use blocxxi.P2P.EventDht.{
  EventQuery, PublishedEvent, MemoryEventDht, Arrange, derive_info_hash, query, publish,
  has_identifier,
}
use blocxxi.P2P.EventDht.Wire.{make_dictionary}
use blocxxi.P2P.EventDht.Mainline.{
  MainlineEventDhtOptions, EventQueryResult, Reply, timed_out, failed, replied, Session,
  response_values, merge_all, peer_records,
}

module _ {A : Type 0} (ops : AddressOps A) (to_text : A → Bytes) (session : Session A) where
  -- IpEndpoint::ToString, over the text of the address.
  unfoldable pub endpoint_text : IpEndpoint A → Bytes
  unfolding to_string
  endpoint_text e = to_text e.address ++ (b':' ∷ to_string e.port)

  unfoldable pub decode_peers : Items → Outcome (List (IpEndpoint A))
  unfolding decode_compact_peer
  decode_peers no_items = ok []
  decode_peers (item v items) = do
    s ← as_string v
    peer ← decode_compact_peer ops s
    rest ← decode_peers items
    ok (peer ∷ rest)

  -- The token that the caller of QueryRouter asks for, or the empty one.
  unfoldable pub read_token : Bool → Entries → Outcome Bytes
  unfolding find_entry text
  read_token wanted values =
      let token : Outcome Bytes = elim (find_entry (text "token") values) [
        | none ↦ ok []
        | some v ↦ as_string v
      ] in
      if wanted then token else ok []

  -- The callback of QueryRouter, and its return.
  unfoldable pub router_answer : Bool → Reply → Outcome (Status × List (IpEndpoint A) × Bytes)
  unfolding text find_entry read_token decode_peers
  router_answer wanted timed_out = ok (failure io_error (text "DHT query timed out"), [], [])
  router_answer wanted (failed message) = ok (failure io_error message, [], [])
  router_answer wanted (replied m) = elim (response_values m) [
    | none ↦
        ok
          (failure StatusCode.rejected (text "DHT query did not return a response payload"), [], [])
    | some values ↦ (do
      token ← read_token wanted values
      peers ← elim (find_entry (text "values") values) [
        | none ↦ ok []
        | some v ↦ (do items ← as_list v; decode_peers items)
      ]
      ok (success [], peers, token))
  ]

  unfoldable pub query_router :
      Bool → Bytes → IpEndpoint A → Outcome (Status × List (IpEndpoint A) × Bytes)
  unfolding derive_info_hash router_answer
  query_router wanted key router =
      router_answer wanted (session.get_peers (derive_info_hash key) router)

  unfoldable pub query_peer_records : Bytes → IpEndpoint A → Outcome (Status × List PublishedEvent)
  unfolding peer_records make_dictionary text
  query_peer_records key peer = peer_records (
      session.ask (text "bx_get_event")
        (make_dictionary ((text "id", string session.self_id) ∷ (text "key", string key) ∷ []))
        peer)

  -- AnnounceToRouter
  unfoldable pub announce_answer : Reply → Status
  unfolding text
  announce_answer timed_out = failure io_error (text "DHT announce timed out")
  announce_answer (failed message) = failure io_error message
  announce_answer (replied m) = elim (response_values m) [
    | none ↦ failure StatusCode.rejected (text "DHT announce did not return a response payload")
    | some values ↦ success []
  ]

  unfoldable pub announce_to_router :
      MainlineEventDhtOptions A → Bytes → IpEndpoint A → Bytes → Status
  unfolding derive_info_hash announce_answer
  announce_to_router options key router token = announce_answer (
      session.announce_peer (derive_info_hash key) token
        (if options.announce_port == 0 then session.self_port else options.announce_port)
        options.implied_port router)

  -- A round of the loop of Publish, from the answer of the router on: the error with which the loop
  -- goes on, or nothing when the announcement was accepted.
  unfoldable pub announce_error :
      MainlineEventDhtOptions A → Bytes → IpEndpoint A → Status → Bytes → Option Status
  unfolding announce_to_router text
  announce_error options key router status token =
      let announced = announce_to_router options key router token in
      if not (status_ok status)
      then some status
      else if is_empty token
      then some (failure StatusCode.rejected (text "DHT router did not return announce token"))
      else if status_ok announced
      then none
      else some announced

  unfoldable pub announce_loop :
      MainlineEventDhtOptions A → Bytes → Status → List (IpEndpoint A) → Outcome Status
  unfolding query_router announce_error
  announce_loop options key last_error [] = ok last_error
  announce_loop options key last_error (router ∷ routers) = do
    asked ← query_router true key router
    elim (announce_error options key router asked.0 asked.2) [
      | none ↦ ok (success [])
      | some error ↦ announce_loop options key error routers
    ]

  -- The loop of Query over the peers of a router: the peers that were not seen before, by their
  -- text, and the records that they return.
  unfoldable pub query_peer_loop :
      Bytes
      → List (IpEndpoint A)
      → List Bytes
      → EventQueryResult A
      → Outcome (List Bytes × EventQueryResult A)
  unfolding endpoint_text has_identifier query_peer_records merge_all
  query_peer_loop key [] seen result = ok (seen, result)
  query_peer_loop key (peer ∷ peers) seen result = do
    found ← query_peer_records key peer
    let name = endpoint_text peer
    let known = has_identifier name seen
    query_peer_loop key peers (if known then seen else name ∷ seen) (record {
      records = if status_ok found.0 then merge_all result.records found.1 else result.records;
      peers = if known then result.peers else result.peers ++ peer ∷ [];
    })

  -- The loop of Query over the routers. `answered` is any_success.
  unfoldable pub query_loop :
      Bytes
      → List (IpEndpoint A)
      → List Bytes
      → EventQueryResult A
      → Bool
      → Status
      → Outcome (EventQueryResult A × Bool × Status)
  unfolding query_router query_peer_loop
  query_loop key [] seen result answered last_error = ok (result, answered, last_error)
  query_loop key (router ∷ routers) seen result answered last_error = do
    asked ← query_router false key router
    elim (status_ok asked.0) [
      | false ↦ query_loop key routers seen result answered asked.0
      | true ↦ (do
        found ← query_peer_loop key asked.1 seen result
        query_loop key routers found.0 found.1 true last_error)
    ]

  -- The end of Query: the limit, and the status.
  unfoldable pub query_result : ℕ → EventQueryResult A × Bool × Status → Status × EventQueryResult A
  query_result limit (result, answered, last_error) = (
    if answered then success [] else last_error,
    record result { records = take limit result.records },
  )

  -- Query from the test of the routers on.
  unfoldable pub query_network :
      List (IpEndpoint A) → ℕ → EventQueryResult A → Bytes → Outcome (Status × EventQueryResult A)
  unfolding query_loop query_result text
  query_network [] limit result key =
      ok (failure StatusCode.invalid_argument (text "at least one DHT router is required"), result)
  query_network (router ∷ routers) limit result key = do
    found ←
        query_loop key (router ∷ routers) [] result false
          (failure io_error (text "failed to query deterministic DHT key"))
    ok (query_result limit found)

  -- Query from the test of the key on.
  unfoldable pub query_by_key :
      List (IpEndpoint A)
      → ℕ
      → EventQueryResult A
      → Option Bytes
      → Outcome (Status × EventQueryResult A)
  unfolding query_network
  query_by_key routers limit result none = ok (success [], result)
  query_by_key routers limit result (some key) = query_network routers limit result key

  unfoldable pub mainline_query :
      Arrange
      → MainlineEventDhtOptions A
      → MemoryEventDht
      → EventQuery
      → Outcome (Status × EventQueryResult A)
  unfolding query query_by_key
  mainline_query arrange options store q =
      query_by_key options.routers q.limit (record { records = query arrange store q; peers = [] })
        q.deterministic_key

  module _ {Point : Type 0} (ecdsa : Ecdsa Point) where
    -- MainlineEventDht::Publish
    unfoldable pub mainline_publish :
        ℤ
        → MainlineEventDhtOptions A
        → SignedEventRecord
        → MemoryEventDht
        → Outcome (Status × MemoryEventDht)
    unfolding publish announce_loop text
    mainline_publish now options r store =
        let local = publish ecdsa now r store in
        let announced : Outcome (Status × MemoryEventDht) = (do
          status ←
              announce_loop options (deterministic_key r)
                (failure io_error (text "failed to announce deterministic DHT key")) options.routers
          ok (status, local.1)) in
        if is_empty options.routers
        then ok (
          failure StatusCode.invalid_argument (text "at least one DHT router is required"),
          store,
        )
        else if not (status_ok local.0)
        then ok local
        else announced
