-- ===== src/Bitcoin/Ingestion/Tests.antt =====
-- The ingestion at concrete inputs.
use blocxxi.Base.{
  ℕ, ◌*◌, ◌≡◌, refl, [], ◌∷◌, ◌++◌, List, Bytes, text, true, none, some, ok, pos, Returns, bytes_eq,
  if◌then◌else◌, arith,
}
use blocxxi.Core.Status.{success, failure, io_error}
use blocxxi.Bitcoin.Headers.{signet}
use blocxxi.Bitcoin.Ingestion.Base64.{base64_encode}
use blocxxi.Bitcoin.Ingestion.Base64.RoundTrip.{base64, base64_encode-eq-base64}
use blocxxi.Bitcoin.Ingestion.Json.{find_object_value}
use blocxxi.Bitcoin.Ingestion.Json.Ends.{Ends, find_object_value-Ends}
use blocxxi.Bitcoin.Ingestion.Observations.{RpcTransport, Doubles, BitcoinCoreRpcConfig}
use blocxxi.Bitcoin.Ingestion.Poll.{poll}
use blocxxi.Bitcoin.Ingestion.Poll.Whole.{Observed, poll-Observed}
use blocxxi.Bitcoin.Ingestion.Config.{
  Surroundings, Loading, ResolvedBitcoinCoreRpcConfig, load_file, unresolved, chosen_path,
  resolve_bitcoin_core_rpc_config_details,
}
use blocxxi.Bitcoin.Ingestion.Config.Precedence.{
  FilledBy, places, env_over, texts_of, resolve_precedence,
}

base64_encode-eq-base64_example :
    base64_encode (255 ∷ 0 ∷ 77 ∷ 200 ∷ 1 ∷ []) ≡ base64 (255 ∷ 0 ∷ 77 ∷ 200 ∷ 1 ∷ [])
base64_encode-eq-base64_example =
    base64_encode-eq-base64 (255 ∷ 0 ∷ 77 ∷ 200 ∷ 1 ∷ [])
      (omega arith, (omega arith, (omega arith, (omega arith, (omega arith, tt)))))

credentials : base64_encode (text "user:pass") ≡ text "dXNlcjpwYXNz"
unfolding base64_encode text
credentials = refl

found_second :
    find_object_value (text "{\"a\": [1, 2], \"result\": 7}") (text "result") ≡ ok (some (text "7"))
unfolding find_object_value text
found_second = refl

find_object_value-Ends_example : Ends (find_object_value (text "{\"a\": [1, 2") (text "result"))
find_object_value-Ends_example = find_object_value-Ends (text "{\"a\": [1, 2") (text "result")

-- Numbers in place of floating point numbers.
abbrev whole_numbers : Doubles ℕ
whole_numbers = record {
  read_double = λ s. none;
  zero_double = 0;
  hundred_million = 100000000;
  multiply = λ a b. a * b;
  to_uint64 = λ a. a;
}

-- A transport that has its responses ready.
abbrev canned : RpcTransport (List Bytes)
canned [] method params = (failure io_error (text "closed"), [], [])
canned (response ∷ responses) method params = (success [], response, responses)

abbrev local_node : BitcoinCoreRpcConfig
local_node = record {
  network = signet;
  connection = record {
    host = text "127.0.0.1";
    port = 8332;
    username = [];
    password = [];
    path = text "/";
  };
  max_mempool_transactions = 1;
}

abbrev responses : List Bytes
responses =
    text "{\"result\":5}"
    ∷ text "{\"result\":\"ab\"}"
    ∷ text "{\"result\":{\"size\":2,\"bytes\":9}}"
    ∷ text "{\"result\":{\"connections\":3,\"relayfee\":0}}"
    ∷ text "{\"result\":{\"initialblockdownload\":true}}"
    ∷ text "{\"result\":{\"t1\":{\"vsize\":1},\"t2\":{\"vsize\":2}}}"
    ∷ text "{\"result\":{\"txs\":4,\"totalfee\":6}}"
    ∷ []

poll-Observed_example :
    Returns
      (Observed whole_numbers canned local_node)
      (poll whole_numbers canned local_node (pos 9) responses)
poll-Observed_example = poll-Observed whole_numbers canned local_node (pos 9) responses

poll_succeeds :
    poll whole_numbers canned local_node (pos 9) responses
    ≡ ok (
      success [],
      record {
        source_name = text "bitcoin.core-rpc";
        network = signet;
        observed_at_utc = pos 9;
        mempool_transactions =
            record { txid = text "t1"; base_fee_btc = 0; vsize = 1; weight = 0 } ∷ [];
        latest_block = some (record {
          height = 5;
          block_hash_hex = text "ab";
          transaction_count = 4;
          total_fee_satoshis = 0;
        });
        network_health = some (record {
          connection_count = 3;
          mempool_transaction_count = 2;
          mempool_bytes = 9;
          relay_fee_btc = 0;
          initial_block_download = true;
          warning = [];
        });
      },
      [],
    )
unfolding poll text
poll_succeeds = refl

-- The user and the host are in the environment, the password in the file.
abbrev surroundings : Surroundings
surroundings = record {
  getenv = λ name.
      if bytes_eq name (text "BLOCXXI_RPC_USER")
      then some (text "a")
      else if bytes_eq name (text "BITCOIN_RPC_HOST")
      then some (text "h")
      else none;
  read_file = λ path. if bytes_eq path (text "/c") then some (text "rpcpassword = p # q") else none;
  join = λ a b. a ++ b'/' ∷ b;
  parent_path = λ path. [];
}

abbrev resolved_node : ResolvedBitcoinCoreRpcConfig
resolved_node = record {
  config = record local_node {
    connection = record {
      host = text "h";
      port = 8332;
      username = text "a";
      password = text "p";
      path = text "/";
    };
  };
  config_path = text "/c";
  config_file_loaded = true;
  host_source = text "env:BITCOIN_RPC_HOST";
  port_source = text "default";
  username_source = text "env:BLOCXXI_RPC_USER";
  password_source = text "bitcoin.conf:/c";
  path_source = text "default";
}

resolved_node_found :
    resolve_bitcoin_core_rpc_config_details surroundings local_node (some (text "/c"))
    ≡ ok resolved_node
unfolding resolve_bitcoin_core_rpc_config_details text bytes_eq
resolved_node_found = refl

resolve_precedence_example :
    (l : Loading) × (load_file
        (chosen_path surroundings local_node (some (text "/c")))
        (surroundings.read_file (chosen_path surroundings local_node (some (text "/c"))))
        (unresolved local_node (chosen_path surroundings local_node (some (text "/c"))))
      ≡ ok l)
    × FilledBy surroundings
        (places surroundings (chosen_path surroundings local_node (some (text "/c"))) l)
        (env_over surroundings
          (text "BLOCXXI")
          (env_over surroundings (text "BITCOIN") (texts_of l.resolved)))
        (texts_of resolved_node)
resolve_precedence_example =
    resolve_precedence surroundings local_node (some (text "/c")) resolved_node resolved_node_found
