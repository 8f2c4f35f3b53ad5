-- ===== src/Bitcoin/Ingestion/Poll.antt =====
-- BitcoinCoreRpcAdapter in src/Blocxxi/Bitcoin/ingestion.h and ingestion.cpp. The transport is a
-- parameter.
pub mod Whole
use mathlib.Core.Option
use blocxxi.Base.{
  ℕ, zero, suc, ◌+◌, [], ◌∷◌, ◌++◌, List, Bytes, text, to_string, ℤ, Bool, true, false, not, Option,
  none, some, length, drop, if◌then◌else◌, Outcome, ok, out_of_fuel, ◌>>=◌,
}
use blocxxi.Core.Status.{Status, StatusCode, status_ok, success, failure, rejected}
use blocxxi.Bitcoin.Headers.{Network}
use blocxxi.Bitcoin.Ingestion.Json.{
  trim, encloses, Member, malformed, finished, member, next_member, parse_string, parse_integer,
  parse_bool, find_object_value, extract_result_value,
}
use blocxxi.Bitcoin.Ingestion.Observations.{
  BitcoinCoreRpcConfig, Doubles, TransactionObservation, NetworkHealthObservation, ObservationBatch,
  RpcTransport, value_or, field_or, integer_field, double_field, to_satoshis,
  parse_mempool_transactions,
}

module _ {D : Type 0} (doubles : Doubles D) {T : Type 0} (call : RpcTransport T)
    (config : BitcoinCoreRpcConfig) where
  abbrev pub Polled : Type 0
  Polled = Outcome (Status × ObservationBatch D × T)

  -- A call that fails ends the poll; `next` takes the response.
  unfoldable pub ask : ObservationBatch D → T → Bytes → Bytes → (Bytes → T → Polled) → Polled
  ask batch t method params next =
      let answer = call t method params in
      let continued = next answer.1 answer.2 in
      if not (status_ok answer.0) then ok (answer.0, batch, answer.2) else continued

  -- A value that is missing ends it, too.
  unfoldable pub require :
      {A : Type 0} → ObservationBatch D → T → Bytes → Option A → (A → Polled) → Polled
  require batch t message none next = ok (failure rejected message, batch, t)
  require batch t message (some a) next = next a

  -- ParseResult, from the value on.
  unfoldable pub parse_result : {A : Type 0} → (Bytes → Option A) → Option Bytes → Option A
  parse_result parser none = none
  parse_result parser (some raw) = parser raw

  -- The end of Poll.
  unfoldable pub whole_batch :
      ObservationBatch D
      → ℕ
      → Bytes
      → NetworkHealthObservation D
      → List (TransactionObservation D)
      → ℕ
      → D
      → ObservationBatch D
  unfolding to_satoshis
  whole_batch batch height hash network entries count fee = record batch {
    latest_block = some (record {
      height = height;
      block_hash_hex = hash;
      transaction_count = count;
      total_fee_satoshis = to_satoshis doubles fee;
    });
    network_health = some network;
    mempool_transactions = entries;
  }

  -- From the statistics of the block on.
  unfoldable pub poll_stats :
      ObservationBatch D
      → ℕ
      → Bytes
      → NetworkHealthObservation D
      → List (TransactionObservation D)
      → T
      → Polled
  unfolding text to_string ask require extract_result_value integer_field double_field whole_batch
  poll_stats batch height hash network entries t =
      ask batch t (text "getblockstats")
        (text "[" ++ (to_string height ++ text ", [\"txs\", \"totalfee\"]]"))
        (λ response u. extract_result_value response >>= λ found.
          require batch u (text "failed to parse getblockstats result") found (λ stats.
            integer_field stats (text "txs") >>= λ count.
            double_field doubles stats (text "totalfee") >>= λ fee.
            ok (success [], whole_batch batch height hash network entries count fee, u)))

  -- From the mempool on.
  unfoldable pub poll_mempool :
      ObservationBatch D → ℕ → Bytes → NetworkHealthObservation D → T → Polled
  unfolding text ask require extract_result_value parse_mempool_transactions poll_stats
  poll_mempool batch height hash network t =
      ask batch t (text "getrawmempool") (text "[true]") (λ response u.
        extract_result_value response >>= λ found.
        require batch u (text "failed to parse getrawmempool result") found (λ raw.
          parse_mempool_transactions doubles raw config.max_mempool_transactions >>= λ parsed.
          require batch u (text "failed to parse verbose mempool entries") parsed
            (λ entries. poll_stats batch height hash network entries u)))

  -- From the state of the chain on; the sizes of the mempool and the connections are known.
  unfoldable pub poll_chain :
      ObservationBatch D → ℕ → Bytes → NetworkHealthObservation D → T → Polled
  unfolding text ask require extract_result_value field_or parse_bool poll_mempool
  poll_chain batch height hash network t =
      ask batch t (text "getblockchaininfo") (text "[]") (λ response u.
        extract_result_value response >>= λ found.
        require batch u (text "failed to parse getblockchaininfo result") found (λ info.
          field_or info (text "initialblockdownload") (text "false") >>= λ raw.
          poll_mempool batch height hash
            (record network { initial_block_download = value_or (parse_bool raw) false }) u))

  unfoldable pub poll_network : ObservationBatch D → ℕ → Bytes → ℕ → ℕ → T → Polled
  unfolding text ask require extract_result_value field_or integer_field double_field parse_string
      poll_chain
  poll_network batch height hash size bytes t =
      ask batch t (text "getnetworkinfo") (text "[]") (λ response u.
        extract_result_value response >>= λ found.
        require batch u (text "failed to parse getnetworkinfo result") found (λ info.
          integer_field info (text "connections") >>= λ connections.
          double_field doubles info (text "relayfee") >>= λ fee.
          field_or info (text "warnings") (text "\"\"") >>= λ raw.
          poll_chain batch height hash
            (record {
              connection_count = connections;
              mempool_transaction_count = size;
              mempool_bytes = bytes;
              relay_fee_btc = fee;
              initial_block_download = false;
              warning = value_or (parse_string raw) [];
            })
            u))

  unfoldable pub poll_sizes : ObservationBatch D → ℕ → Bytes → T → Polled
  unfolding text ask require extract_result_value integer_field poll_network
  poll_sizes batch height hash t = ask batch t (text "getmempoolinfo") (text "[]") (λ response u.
      extract_result_value response >>= λ found.
      require batch u (text "failed to parse getmempoolinfo result") found (λ info.
        integer_field info (text "size") >>= λ size.
        integer_field info (text "bytes") >>= λ bytes. poll_network batch height hash size bytes u))

  unfoldable pub poll_hash : ObservationBatch D → ℕ → T → Polled
  unfolding text ask require parse_result extract_result_value parse_string poll_sizes
  poll_hash batch height t = ask batch t (text "getbestblockhash") (text "[]") (λ response u.
      extract_result_value response >>= λ found.
      require batch u (text "failed to parse getbestblockhash result")
        (parse_result parse_string found) (λ hash. poll_sizes batch height hash u))

  -- The batch before the first observation, at the time `now`.
  unfoldable pub new_batch : ℤ → ObservationBatch D
  unfolding text
  new_batch now = record {
    source_name = text "bitcoin.core-rpc";
    network = config.network;
    observed_at_utc = now;
    mempool_transactions = [];
    latest_block = none;
    network_health = none;
  }

  -- Poll
  unfoldable pub poll : ℤ → T → Polled
  unfolding text ask require parse_result extract_result_value parse_integer poll_hash new_batch
  poll now t =
      let batch = new_batch now in
      ask batch t (text "getblockcount") (text "[]") (λ response u.
        extract_result_value response >>= λ found.
        require batch u (text "failed to parse getblockcount result")
          (parse_result parse_integer found) (λ height. poll_hash batch height u))
