-- ===== src/Bitcoin/Import/Tests.antt =====
-- The import at concrete inputs.
use blocxxi.Base.{
  ℕ, ◌+◌, ◌++◌, ◌%◌, ◌≡◌, ◌<◌, refl, subst, [], ◌∷◌, List, Bytes, text, true, false, Option, none,
  some, ok, Returns, All, length, replicate, arith,
}
use blocxxi.Core.Status.{success}
use blocxxi.Core.Primitives.{ChainConfig}
use blocxxi.Storage.Tests.{disk}
use blocxxi.Node.Lifecycle.{NodeOptions, file_system}
use blocxxi.Bitcoin.Wire.{Outside}
use blocxxi.Bitcoin.Peer.{Socket, HostAddress}
use blocxxi.Bitcoin.Headers.{Header, HeaderSyncAdapter, NodeCalls, signet}
use blocxxi.Bitcoin.Fetch.{SignetLiveOptions, Endpoint}
use blocxxi.Bitcoin.Fetch.Outcomes.{IsBounded}
use blocxxi.Bitcoin.Import.{
  resolve_import_options, persist_import_progress, import_live_signet_headers,
}
use blocxxi.Bitcoin.Import.Resume.{IsResumed, resolve_import_options-persist}
use blocxxi.Bitcoin.Import.Outcomes.{Settled, import_live_signet_headers_outcome}

-- A hash that counts.
abbrev counting : Outside
counting = record { sha256 = λ b. replicate 32 (length b % 256); read_hex = λ digits. some 7 }

abbrev localhost : HostAddress
localhost = record { is_v4 = true; bytes = 127 ∷ 0 ∷ 0 ∷ 1 ∷ [] }

abbrev options : SignetLiveOptions
options = record {
  host = text "seed";
  port = 38333;
  locator_hash_hex = replicate 64 b'0';
  locator_height = 7;
  state_root = [];
}

abbrev rooted : SignetLiveOptions
rooted = record options { state_root = text "/n" }

abbrev node_options : NodeOptions
node_options = record {
  storage_mode = file_system;
  storage_root = text "/n";
  start_discovery = false;
  discovery_name = [];
}

abbrev config : ChainConfig
config = record {
  chain_id = [];
  display_name = [];
  data_directory = [];
  create_genesis = true;
  genesis_payload = [];
}

abbrev header : Header
header = record {
  height = 12;
  hash_hex = replicate 64 b'a';
  previous_hash_hex = [];
  merkle_root_hex = [];
  version = 1;
  timestamp = 0;
  bits = 0;
  nonce = 0;
}

-- A node that takes everything, and counts the calls.
abbrev counter : NodeCalls ℕ
counter = record {
  attach_discovery = λ s name. (success [], s + 1);
  attach_adapter = λ s name. (success [], s + 1);
  submit_transaction = λ s transaction. (success [], s + 1);
  commit_pending = λ s source. (success [], s + 1);
}

abbrev adapter : HeaderSyncAdapter
adapter = record {
  options = record { network = signet; peer_hint = []; header_sync_only = true };
  bound = true;
  imported_heights = [];
  last_header = none;
}

resolve_import_options-persist_example :
    (path : Bytes) × (saved : Bytes) × IsResumed disk [] rooted header path saved
    × (persist_import_progress disk [] rooted.state_root ([] ++ header ∷ [])
        ≡ (disk.write_file (disk.create_directories [] rooted.state_root).1 path saved).1)
resolve_import_options-persist_example =
    resolve_import_options-persist disk [] rooted [] header (unfold text in refl) refl (omega arith)
      (omega arith)

abbrev three_bytes : Socket
three_bytes = record { incoming = 1 ∷ 2 ∷ 3 ∷ []; writable = 5; written = [] }

-- One endpoint does not connect, the other sends three bytes.
abbrev endpoints : List Endpoint
endpoints =
    record { remote_address = text "a"; address = localhost; socket = none }
    ∷ record { remote_address = text "b"; address = localhost; socket = some three_bytes }
    ∷ []

abbrev incoming_of : Option Socket → Bytes
incoming_of none = []
incoming_of (some s) = s.incoming

endpoints-IsBounded : All (IsBounded 4) endpoints
endpoints-IsBounded = (
  λ s e. subst (λ o. length (incoming_of o) < 4) e (omega arith),
  (λ s e. subst (λ o. length (incoming_of o) < 4) e (omega arith), tt),
)

-- The root is that of the node, where nothing is saved yet.
root_found : resolve_import_options disk [] node_options config options ≡ ok rooted
unfolding resolve_import_options text
root_found = refl

import_live_signet_headers_outcome_example :
    Returns (Settled disk counter counting 4 0 localhost adapter 0 [] rooted) (
      import_live_signet_headers disk counter counting 4 0 localhost adapter 0 [] node_options
        config options
        (some endpoints))
import_live_signet_headers_outcome_example =
    import_live_signet_headers_outcome disk counter counting 4 0 localhost adapter 0 [] rooted
      node_options config options endpoints refl root_found endpoints-IsBounded
