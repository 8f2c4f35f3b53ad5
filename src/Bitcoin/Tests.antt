-- ===== src/Bitcoin/Tests.antt =====
-- The Bitcoin adapter at concrete inputs.
use blocxxi.Base.{
  pos, ℤ, ℕ, ◌+◌, ◌*◌, ◌/◌, ◌%◌, ◌^◌, bytes_lt, ◌≡◌, ◌<◌, refl, [], ◌∷◌, ◌++◌, List, Bytes, text,
  true, false, none, some, ◌⊎◌, length, length-replicate, All-replicate, IsByte, replicate, arith,
}
use blocxxi.Codec.Hex.{dec_for_index}
use blocxxi.Core.Status.{success, status_ok}
use blocxxi.Bitcoin.Wire.{Outside, IsOutside, hash_bytes_from_hex}
use blocxxi.Bitcoin.Message.{encode_message, read_message}
use blocxxi.Bitcoin.Message.RoundTrip.{IsCommand, read_message-encode_message}
use blocxxi.Bitcoin.Merkle.{compute_merkle_root_hex}
use blocxxi.Bitcoin.Merkle.Twin.{compute_merkle_root_hex_twin}
use blocxxi.Bitcoin.Target.{target_from_compact}
use blocxxi.Bitcoin.Target.Value.{big_endian, compact_value, target_from_compact_value}
use blocxxi.Bitcoin.Headers.{Header, HeaderSyncAdapter, NodeCalls, signet, submit_headers}
use blocxxi.Bitcoin.Headers.OnNode.{calls_of}
use blocxxi.Bitcoin.Headers.Chained.{HasFailed, HasImported, submit_headers_outcome}
use blocxxi.Node.Tests.{Core, core, no_files}
use blocxxi.Storage.Memory.{memory_blocks, memory_snapshots}
use blocxxi.Bitcoin.Block.{read_outputs}
use blocxxi.Bitcoin.Block.Overflow.{looping_output, looping_payload, read_outputs_loops}

-- A hash that counts, and a reader of two digits.
abbrev counting : Outside
counting = record {
  sha256 = λ b. replicate 32 (length b % 256);
  read_hex = λ digits. elim digits [
    | a ∷ b ∷ [] ↦ some (16 * dec_for_index a + dec_for_index b)
    | _ ↦ none
  ];
}

counting-IsOutside : IsOutside counting
counting-IsOutside = record {
  sha256-IsHash = λ b. record {
    size = length-replicate {A = ℕ} 32 (length b % 256);
    in_range = All-replicate IsByte 32 (length b % 256) (omega arith);
  };
}

ping-IsCommand : IsCommand (b'p' ∷ b'i' ∷ b'n' ∷ b'g' ∷ [])
ping-IsCommand = record {
  size = omega arith;
  nonzero = (λ e. omega arith, (λ e. omega arith, (λ e. omega arith, (λ e. omega arith, tt))));
}

read_message-encode_message_example :
    read_message counting
      (encode_message counting (b'p' ∷ b'i' ∷ b'n' ∷ b'g' ∷ []) (1 ∷ 2 ∷ []) ++ 5 ∷ [])
    ≡ some (record { command = b'p' ∷ b'i' ∷ b'n' ∷ b'g' ∷ []; payload = 1 ∷ 2 ∷ [] }, 5 ∷ [])
read_message-encode_message_example =
    read_message-encode_message counting counting-IsOutside (b'p' ∷ b'i' ∷ b'n' ∷ b'g' ∷ [])
      (1 ∷ 2 ∷ []) ping-IsCommand (omega arith) (5 ∷ [])

abbrev txid : Bytes
txid = replicate 64 b'a'

compute_merkle_root_hex_twin_example :
    compute_merkle_root_hex counting 5 (txid ∷ txid ∷ txid ∷ txid ∷ [])
    ≡ compute_merkle_root_hex counting 5 (txid ∷ txid ∷ txid ∷ [])
compute_merkle_root_hex_twin_example =
    compute_merkle_root_hex_twin counting 5 (txid ∷ txid ∷ []) txid (omega arith) (omega arith)

abbrev limit : Bytes
limit = 0 ∷ 0 ∷ 3 ∷ 0x77 ∷ 0xae ∷ replicate 27 0

limit_hex : Bytes
unfolding text
limit_hex = text "00000377ae000000000000000000000000000000000000000000000000000000"

target_from_compact_value_example :
    (big_endian 0 limit ≡ compact_value (0x1e0377ae / 2 ^ 24 % 256) (0x1e0377ae % 2 ^ 23))
    × (length limit ≡ 32)
    × (bytes_lt limit limit ≡ false)
    × (0x1e0377ae / 2 ^ 23 % 2 ≡ 0)
    × (0 < 0x1e0377ae % 2 ^ 23)
unfolding limit_hex hash_bytes_from_hex target_from_compact dec_for_index
target_from_compact_value_example =
    target_from_compact_value counting 0x1e0377ae limit_hex limit limit refl refl

-- A node that takes everything, and counts the calls.
abbrev counter : NodeCalls ℕ
counter = record {
  attach_discovery = λ s name. (success [], s + 1);
  attach_adapter = λ s name. (success [], s + 1);
  submit_transaction = λ s transaction. (success [], s + 1);
  commit_pending = λ s source. (success [], s + 1);
}

abbrev header_at : ℕ → Bytes → Bytes → Header
header_at height hash previous = record {
  height = height;
  hash_hex = hash;
  previous_hash_hex = previous;
  merkle_root_hex = [];
  version = 1;
  timestamp = 0;
  bits = 0;
  nonce = 0;
}

abbrev adapter : HeaderSyncAdapter
adapter = record {
  options = record { network = signet; peer_hint = []; header_sync_only = true };
  bound = true;
  imported_heights = [];
  last_header = none;
}

abbrev two_headers : List Header
two_headers = header_at 5 (b'a' ∷ []) (b'z' ∷ []) ∷ header_at 6 (b'b' ∷ []) (b'a' ∷ []) ∷ []

two_headers_pass : status_ok (submit_headers counter counting adapter 0 two_headers).0 ≡ true
unfolding submit_headers
two_headers_pass = refl

abbrev running_core : Core
running_core = record core { running = true }

abbrev clock : Core → ℤ
clock c = pos 7

abbrev node_calls : NodeCalls Core
node_calls = calls_of no_files memory_blocks memory_snapshots clock

submit_headers_outcome_example :
    HasFailed node_calls counting adapter running_core
      (submit_headers node_calls counting adapter running_core two_headers)
    ⊎ HasImported node_calls counting adapter running_core two_headers
        (submit_headers node_calls counting adapter running_core two_headers)
submit_headers_outcome_example =
    submit_headers_outcome node_calls counting adapter running_core two_headers

looping_size : length (looping_payload [] 5 []) ≡ 17
unfolding looping_output
looping_size = refl

read_outputs_loops_example :
    read_outputs (looping_payload [] 5 []) 1000 0 0 ≡ some ((0 + 1000 * 5) % 2 ^ 64, 0)
read_outputs_loops_example =
    read_outputs_loops [] [] 5 (omega arith) (omega (arith, looping_size)) 1000 0 (omega arith)
