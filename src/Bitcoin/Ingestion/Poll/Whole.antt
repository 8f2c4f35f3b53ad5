-- ===== src/Bitcoin/Ingestion/Poll/Whole.antt =====
-- A poll ends, and observes everything or nothing.

use blocxxi.Base.{
  ℕ, ◌≡◌, refl, ◌≤◌, ◌⊎◌, inl, inr, [], List, Bytes, text, ℤ, true, false, Option, none, some,
  length, ok, Returns, Returns_bind, after_any, ◌>>=◌, Bool-cases,
}
use blocxxi.Core.Status.{Status, status_ok, success}
use blocxxi.Bitcoin.Ingestion.Json.{
  find_object_value, extract_result_value, parse_bool, parse_string,
}
use blocxxi.Bitcoin.Ingestion.Observations.{
  RpcTransport, BitcoinCoreRpcConfig, Doubles, ObservationBatch, TransactionObservation,
  NetworkHealthObservation, BlockObservation, field_or, integer_field, double_field,
  parse_mempool_transactions, value_or,
}
use blocxxi.Bitcoin.Ingestion.Observations.Fits.{
  found, field_or-Any, integer_field-Any, double_field-Any, Fits, parse_mempool-Fits,
}
use blocxxi.Bitcoin.Ingestion.Poll.{
  Polled, ask, require, whole_batch, poll_stats, poll_mempool, poll_chain, poll_network, poll_sizes,
  poll_hash, new_batch, poll,
}

module _ {D : Type 0} (doubles : Doubles D) where
  -- Nothing was observed, or a block, the health of the network and at most `limit` transactions.
  pub record IsBlank (b : ObservationBatch D) : Type 0 where
    pub no_transactions : b.mempool_transactions ≡ []
    pub no_block : b.latest_block ≡ none
    pub no_health : b.network_health ≡ none

  pub record IsWhole (limit : ℕ) (b : ObservationBatch D) : Type 0 where
    pub transactions : length b.mempool_transactions ≤ limit
    pub block : (x : BlockObservation) × (b.latest_block ≡ some x)
    pub health : (y : NetworkHealthObservation D) × (b.network_health ≡ some y)

  module _ {T : Type 0} (call : RpcTransport T) (config : BitcoinCoreRpcConfig) where
    abbrev pub Observed : Status × ObservationBatch D × T → Type 0
    Observed (status, batch, t) =
        ((status_ok status ≡ true) × IsWhole config.max_mempool_transactions batch)
        ⊎ ((status_ok status ≡ false) × IsBlank batch)

    module _ (batch : ObservationBatch D) (blank : IsBlank batch) where
      ask-Observed :
          (t : T) (method params : Bytes) (next : Bytes → T → Polled doubles call config)
          → ((response : Bytes) (u : T) → Returns Observed (next response u))
          → Returns Observed (ask doubles call config batch t method params next)
      unfolding ask
      ask-Observed t method params next h = elim (Bool-cases (status_ok (call t method params).0)) [
        | inl e ↦ rw e (h (call t method params).1 (call t method params).2)
        | inr e ↦ rw e (inr (e, blank))
      ]

      require-Observed :
          {A : Type 0} (t : T) (message : Bytes) (o : Option A)
          (next : A → Polled doubles call config)
          → ((a : A) → o ≡ some a → Returns Observed (next a))
          → Returns Observed (require doubles call config batch t message o next)
      unfolding require
      require-Observed t message none next h = inr (refl, blank)
      require-Observed t message (some a) next h = h a refl

      -- A call, and the value that its response must have.
      stage-Observed :
          {A : Type 0} (t : T) (method params message : Bytes) (g : Option Bytes → Option A)
          (next : A → T → Polled doubles call config)
          → ((a : A) (u : T) → Returns Observed (next a u))
          → Returns Observed (
              ask doubles call config batch t method params (λ response u.
                extract_result_value response >>= λ raw.
                require doubles call config batch u message (g raw) (λ a. next a u)))
      unfolding extract_result_value
      stage-Observed t method params message g next h =
          ask-Observed t method params _ (λ response u.
            after_any Observed (find_object_value response (text "result")) _
              (found response (text "result"))
              (λ raw. require-Observed u message (g raw) (λ a. next a u) (λ a _. h a u)))

      whole_batch-IsWhole :
          (height : ℕ) (hash : Bytes) (network : NetworkHealthObservation D)
          (entries : List (TransactionObservation D)) (count : ℕ) (fee : D)
          → length entries ≤ config.max_mempool_transactions
          → IsWhole config.max_mempool_transactions
              (whole_batch doubles call config batch height hash network entries count fee)
      unfolding whole_batch
      whole_batch-IsWhole height hash network entries count fee fits = record {
        transactions = fits;
        block = (_, refl);
        health = (_, refl);
      }

      poll_stats-Observed :
          (height : ℕ) (hash : Bytes) (network : NetworkHealthObservation D)
          (entries : List (TransactionObservation D)) (t : T)
          → length entries ≤ config.max_mempool_transactions
          → Returns Observed (poll_stats doubles call config batch height hash network entries t)
      unfolding poll_stats
      poll_stats-Observed height hash network entries t fits =
          stage-Observed t _ _ _ (λ raw. raw) _
            (λ stats u.
              after_any Observed (integer_field stats (text "txs")) _
                (integer_field-Any stats (text "txs"))
                (λ count.
                  after_any Observed (double_field doubles stats (text "totalfee"))
                    (λ fee. ok (
                      success [],
                      whole_batch doubles call config batch height hash network entries count fee,
                      u,
                    ))
                    (double_field-Any doubles stats (text "totalfee"))
                    (λ fee.
                      inl (refl, whole_batch-IsWhole height hash network entries count fee fits))))

      poll_mempool-Observed :
          (height : ℕ) (hash : Bytes) (network : NetworkHealthObservation D) (t : T)
          → Returns Observed (poll_mempool doubles call config batch height hash network t)
      unfolding poll_mempool
      poll_mempool-Observed height hash network t =
          stage-Observed t _ _ _ (λ raw. raw) _
            (λ raw u.
              Returns_bind Observed (Fits doubles config.max_mempool_transactions)
                (parse_mempool_transactions doubles raw config.max_mempool_transactions)
                (λ parsed.
                  require doubles call config batch u
                    (text "failed to parse verbose mempool entries") parsed
                    (λ entries. poll_stats doubles call config batch height hash network entries u))
                (parse_mempool-Fits doubles raw config.max_mempool_transactions)
                (λ parsed fits. require-Observed u _ parsed _ (λ entries e.
                  poll_stats-Observed height hash network entries u
                    (of_some parsed entries fits e))))
        where
          of_some :
              (parsed : Option (List (TransactionObservation D)))
              (entries : List (TransactionObservation D))
              → Fits doubles config.max_mempool_transactions parsed
              → parsed ≡ some entries
              → length entries ≤ config.max_mempool_transactions
          of_some parsed entries fits e = rw e at fits

      poll_chain-Observed :
          (height : ℕ) (hash : Bytes) (network : NetworkHealthObservation D) (t : T)
          → Returns Observed (poll_chain doubles call config batch height hash network t)
      unfolding poll_chain
      poll_chain-Observed height hash network t =
          stage-Observed t _ _ _ (λ raw. raw) _
            (λ info u.
              after_any Observed (field_or info (text "initialblockdownload") (text "false")) _
                (field_or-Any info (text "initialblockdownload") (text "false"))
                (λ raw.
                  poll_mempool-Observed height hash
                    (record network { initial_block_download = value_or (parse_bool raw) false })
                    u))

      poll_network-Observed :
          (height : ℕ) (hash : Bytes) (size bytes : ℕ) (t : T)
          → Returns Observed (poll_network doubles call config batch height hash size bytes t)
      unfolding poll_network
      poll_network-Observed height hash size bytes t =
          stage-Observed t _ _ _ (λ raw. raw) _
            (λ info u.
              after_any Observed (integer_field info (text "connections")) _
                (integer_field-Any info (text "connections"))
                (λ connections.
                  after_any Observed (double_field doubles info (text "relayfee")) _
                    (double_field-Any doubles info (text "relayfee"))
                    (λ fee.
                      after_any Observed (field_or info (text "warnings") (text "\"\"")) _
                        (field_or-Any info (text "warnings") (text "\"\""))
                        (λ raw.
                          poll_chain-Observed height hash
                            (record {
                              connection_count = connections;
                              mempool_transaction_count = size;
                              mempool_bytes = bytes;
                              relay_fee_btc = fee;
                              initial_block_download = false;
                              warning = value_or (parse_string raw) [];
                            })
                            u))))

      poll_sizes-Observed :
          (height : ℕ) (hash : Bytes) (t : T)
          → Returns Observed (poll_sizes doubles call config batch height hash t)
      unfolding poll_sizes
      poll_sizes-Observed height hash t =
          stage-Observed t _ _ _ (λ raw. raw) _
            (λ info u.
              after_any Observed (integer_field info (text "size")) _
                (integer_field-Any info (text "size"))
                (λ size.
                  after_any Observed (integer_field info (text "bytes")) _
                    (integer_field-Any info (text "bytes"))
                    (λ bytes. poll_network-Observed height hash size bytes u)))

      poll_hash-Observed :
          (height : ℕ) (t : T) → Returns Observed (poll_hash doubles call config batch height t)
      unfolding poll_hash
      poll_hash-Observed height t =
          stage-Observed t _ _ _ _ _ (λ hash u. poll_sizes-Observed height hash u)

    new_batch-IsBlank : (now : ℤ) → IsBlank (new_batch doubles call config now)
    unfolding new_batch
    new_batch-IsBlank now = record { no_transactions = refl; no_block = refl; no_health = refl }

    -- Poll returns, whatever the transport answers, and is all or nothing: it succeeds with a block,
    -- the health of the network and at most as many transactions as configured, or it fails with an
    -- empty batch.
    pub poll-Observed : (now : ℤ) (t : T) → Returns Observed (poll doubles call config now t)
    unfolding poll
    poll-Observed now t =
        stage-Observed (new_batch doubles call config now) (new_batch-IsBlank now) t _ _ _ _ _
          (λ height u.
            poll_hash-Observed (new_batch doubles call config now) (new_batch-IsBlank now) height u)
