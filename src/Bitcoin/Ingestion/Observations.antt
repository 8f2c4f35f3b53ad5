-- ===== src/Bitcoin/Ingestion/Observations.antt =====
-- What src/Blocxxi/Bitcoin/ingestion.h observes of a Bitcoin node, and ParseMempoolTransactions of
-- ingestion.cpp. The floating point numbers are a parameter.
pub mod Fits
use mathlib.Core.Option
use blocxxi.Base.{
  ℕ, zero, suc, ◌+◌, [], ◌∷◌, ◌++◌, List, Bytes, text, to_string, ℤ, Bool, true, false, not, Option,
  none, some, length, drop, if◌then◌else◌, Outcome, ok, out_of_fuel, ◌>>=◌,
}
use blocxxi.Core.Status.{Status, StatusCode, status_ok, success, failure, rejected}
use blocxxi.Bitcoin.Headers.{Network}
use blocxxi.Bitcoin.Ingestion.Json.{
  trim, encloses, Member, malformed, finished, member, next_member, parse_string, parse_integer,
  parse_bool, find_object_value, extract_result_value,
}

pub record RpcConnectionConfig : Type 0 where
  pub host : Bytes
  pub port : ℕ
  pub username : Bytes
  pub password : Bytes
  pub path : Bytes

pub record BitcoinCoreRpcConfig : Type 0 where
  pub network : Network
  pub connection : RpcConnectionConfig
  pub max_mempool_transactions : ℕ

-- The type double: what a std::stringstream reads, 0.0 and 100000000.0, the product, and the cast to
-- std::uint64_t.
pub record Doubles (D : Type 0) : Type 0 where
  pub read_double : Bytes → Option D
  pub zero_double : D
  pub hundred_million : D
  pub multiply : D → D → D
  pub to_uint64 : D → ℕ

pub record TransactionObservation (D : Type 0) : Type 0 where
  pub txid : Bytes
  pub base_fee_btc : D
  pub vsize : ℕ
  pub weight : ℕ

pub record BlockObservation : Type 0 where
  pub height : ℕ
  pub block_hash_hex : Bytes
  pub transaction_count : ℕ
  pub total_fee_satoshis : ℕ

pub record NetworkHealthObservation (D : Type 0) : Type 0 where
  pub connection_count : ℕ
  pub mempool_transaction_count : ℕ
  pub mempool_bytes : ℕ
  pub relay_fee_btc : D
  pub initial_block_download : Bool
  pub warning : Bytes

pub record ObservationBatch (D : Type 0) : Type 0 where
  pub source_name : Bytes
  pub network : Network
  pub observed_at_utc : ℤ
  pub mempool_transactions : List (TransactionObservation D)
  pub latest_block : Option BlockObservation
  pub network_health : Option (NetworkHealthObservation D)

-- RpcTransport::Call, which returns its status and the response.
abbrev pub RpcTransport : Type 0 → Type 0
RpcTransport T = T → Bytes → Bytes → Status × Bytes × T

abbrev pub value_or {ℓ} : {A : Type ℓ} → Option A → A → A
value_or none a = a
value_or (some b) a = b

-- FindObjectValue(...).value_or(...)
unfoldable pub field_or : Bytes → Bytes → Bytes → Outcome Bytes
unfolding find_object_value
field_or object key default = find_object_value object key >>= λ found. ok (value_or found default)

unfoldable pub integer_field : Bytes → Bytes → Outcome ℕ
unfolding field_or parse_integer
integer_field object key =
    field_or object key (b'0' ∷ []) >>= λ raw. ok (value_or (parse_integer raw) 0)

module _ {D : Type 0} (doubles : Doubles D) where
  unfoldable pub to_satoshis : D → ℕ
  to_satoshis btc_value = doubles.to_uint64 (doubles.multiply btc_value doubles.hundred_million)

  -- ParseDouble(...).value_or(0.0)
  unfoldable pub double_or : Bytes → D
  unfolding trim
  double_or raw = value_or (doubles.read_double (trim raw)) doubles.zero_double

  unfoldable pub double_field : Bytes → Bytes → Outcome D
  unfolding field_or double_or
  double_field object key = field_or object key (b'0' ∷ []) >>= λ raw. ok (double_or raw)

  -- The fees of a mempool entry.
  unfoldable pub base_fee : Option Bytes → Outcome D
  unfolding find_object_value text double_or
  base_fee none = ok doubles.zero_double
  base_fee (some fees) = find_object_value fees (text "base") >>= λ base.
      ok (value_or (Option.map double_or base) doubles.zero_double)

  -- The body of the loop of ParseMempoolTransactions.
  unfoldable pub observation : Bytes → Bytes → Outcome (TransactionObservation D)
  unfolding integer_field base_fee find_object_value text parse_string
  observation key entry = do
    vsize ← integer_field entry (text "vsize")
    weight ← integer_field entry (text "weight")
    fees ← find_object_value entry (text "fees")
    fee ← base_fee fees
    ok (record {
      txid = value_or (parse_string key) [];
      base_fee_btc = fee;
      vsize = vsize;
      weight = weight;
    })

  -- A round of the loop, with the rest of it.
  unfoldable pub observe :
      (Bytes → Outcome (Option (List (TransactionObservation D))))
      → Member
      → Outcome (Option (List (TransactionObservation D)))
  unfolding observation trim
  observe rest malformed = ok none
  observe rest finished = ok (some [])
  observe rest (member key value s) = observation key (trim value) >>= λ found.
      rest s >>= λ others. ok (Option.map (λ observations. found ∷ observations) others)

  -- The loop, on fuel for its rounds, and for `limit` more observations.
  unfoldable pub mempool_loop : ℕ → ℕ → Bytes → Outcome (Option (List (TransactionObservation D)))
  unfolding observe next_member
  mempool_loop zero limit s = out_of_fuel
  mempool_loop (suc fuel) zero s = ok (some [])
  mempool_loop (suc fuel) (suc limit) s = observe (λ t. mempool_loop fuel limit t) (next_member s)

  unfoldable pub parse_mempool_transactions :
      Bytes → ℕ → Outcome (Option (List (TransactionObservation D)))
  unfolding trim mempool_loop
  parse_mempool_transactions raw limit =
      let object = trim raw in
      let found = mempool_loop (suc (length object)) limit (drop 1 object) in
      if encloses b'{' b'}' object then found else ok none
