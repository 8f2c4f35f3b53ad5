-- ===== src/Node/Tests.antt =====
-- A node over the in-memory stores with one service, and the theorems at its runs.
use blocxxi.Base.{
  ◌&&◌, not, is_empty, replicate, arith, ℕ, ◌≡◌, refl, List, [], ◌∷◌, ◌++◌, Bytes, Bool, text, true,
  false, pos, Option, none, some, arith, All,
}
use blocxxi.Core.Status.{status_ok, success, failure, unsupported}
use blocxxi.Core.Primitives.{Block, ChainConfig, ChainSnapshot}
use blocxxi.Chain.Kernel.{make_kernel, validate, bootstrap}
use blocxxi.Chain.Kernel.Invariant.{Inv}
use blocxxi.Chain.Kernel.Bootstrap.{Boots}
use blocxxi.Storage.Memory.{
  MemoryBlocks, load, put_block, empty_blocks, memory_blocks, memory_snapshots,
}
use blocxxi.Storage.Memory.Contract.{memory_blocks-IsBlockStore, memory_snapshots-IsSnapshotStore}
use blocxxi.Node.Service.{
  Service, ServicePolicy, ServiceState, ManagedService, run_managed_service_once,
}
use blocxxi.Node.Service.Retry.{AreDue, run_at, run_at-tolerated}
use blocxxi.Node.Lifecycle.{FileOps, in_memory, NodeCore, Node, node_port, start, submit_block}
use blocxxi.Node.Lifecycle.Services.{stop}
use blocxxi.Node.Lifecycle.Blocks.{Submits, submit_block_outcome}
use blocxxi.Node.Lifecycle.Outcomes.{IsStopped, start_outcome, start-Inv, stop_outcome}

abbrev pub Core : Type 0
Core = NodeCore MemoryBlocks (Option ChainSnapshot) (List Bytes) ℕ

-- A file system without files.
abbrev pub no_files : FileOps (List Bytes)
no_files = record {
  join = λ root name. root ++ (b'/' ∷ name);
  write_file = λ files path contents. files;
  read_file = λ files path. none;
}

abbrev policy : ServicePolicy
policy = record { interval = 1000; retry_backoff = 250; max_retries = 3 }

-- The service is a Boolean: whether its Poll succeeds.
abbrev pub toggle : Service Bool Core
toggle = record {
  get_name = λ v. text "toggle";
  policy = λ v. policy;
  start = λ v c. (success [], v, c);
  poll = λ v c. (elim v [ true ↦ success [] | false ↦ failure unsupported (text "off") ], v, c);
  stop = λ v c. (success [], v, c);
  get_checkpoint = λ v. [];
  restore_checkpoint = λ v s. (success [], v);
}

-- A service that never succeeds.
abbrev broken : Service Bool Core
broken = record {
  get_name = λ v. text "broken";
  policy = λ v. policy;
  start = λ v c. (success [], v, c);
  poll = λ v c. (failure unsupported (text "off"), v, c);
  stop = λ v c. (success [], v, c);
  get_checkpoint = λ v. [];
  restore_checkpoint = λ v s. (success [], v);
}

abbrev state : ServiceState
state = record {
  name = text "toggle";
  started = true;
  run_count = 0;
  failure_count = 0;
  last_success_utc = 0;
  last_error = [];
  checkpoint = [];
  next_run_utc = 0;
}

abbrev entry : ManagedService Bool
entry = record { service = some true; state = state; next_due = 0 }

abbrev config : ChainConfig
config = record {
  chain_id = [];
  display_name = [];
  data_directory = [];
  create_genesis = true;
  genesis_payload = b'g' ∷ [];
}

abbrev pub core : Core
core = record {
  options = record {
    storage_mode = in_memory;
    storage_root = [];
    start_discovery = true;
    discovery_name = [];
  };
  running = false;
  kernel = make_kernel config empty_blocks none;
  handlers = some 1 ∷ [];
  plugins = [];
  attached_services = [];
  delivered = [];
  files = [];
}

abbrev node : Node MemoryBlocks (Option ChainSnapshot) (List Bytes) ℕ Bool
node = record { core = record core { running = true }; services = entry ∷ entry ∷ [] }

abbrev due_times : List ℕ
due_times = 10 ∷ 300 ∷ 900 ∷ 2000 ∷ []

due_times_late : AreDue broken (node_port no_files) due_times entry core
unfolding AreDue run_managed_service_once text
due_times_late = (omega arith, (omega arith, (omega arith, (omega arith, tt))))

run_at-tolerated_example :
    (run_at broken (node_port no_files) due_times entry core).0 ≡ true ∷ true ∷ true ∷ false ∷ []
run_at-tolerated_example =
    run_at-tolerated broken (node_port no_files) policy due_times true state 0 core
      (record { fails = λ v c. refl; same_policy = λ v. refl }) refl (omega arith) due_times_late

pub core-IsSound : Inv memory_blocks-IsBlockStore memory_snapshots-IsSnapshotStore core.kernel
unfolding load
core-IsSound = record {
  valid = (tt, refl);
  hashed = tt;
  unique = tt;
  linked = tt;
  summary = refl;
  saved = refl;
  distinct = tt;
}

boots : status_ok (bootstrap memory_blocks memory_snapshots validate (pos 7) core.kernel).0 ≡ true
unfolding bootstrap load put_block text validate blocxxi.Storage.Memory.save
boots = refl

start_outcome_example :
    let boot = bootstrap memory_blocks memory_snapshots validate (pos 7) core.kernel in
    let result = start no_files memory_blocks memory_snapshots (pos 7) core in
    (result.1.running ≡ status_ok boot.0)
    × (result.1.kernel ≡ boot.1)
    × (status_ok result.0 ≡ (
        status_ok boot.0
        && not (core.options.start_discovery && is_empty core.options.discovery_name)))
start_outcome_example = start_outcome no_files memory_blocks memory_snapshots (pos 7) core refl

start-Inv_example :
    let result = start no_files memory_blocks memory_snapshots (pos 7) core in
    (result.1.running ≡ true)
    × Inv memory_blocks-IsBlockStore memory_snapshots-IsSnapshotStore result.1.kernel
    × Boots memory_blocks-IsBlockStore memory_snapshots-IsSnapshotStore core.kernel core-IsSound
        (pos 7)
        result.1.kernel
    × (status_ok result.0
        ≡ not (core.options.start_discovery && is_empty core.options.discovery_name))
start-Inv_example =
    start-Inv no_files memory_blocks-IsBlockStore memory_snapshots-IsSnapshotStore (pos 7) core
      core-IsSound refl

-- The node runs, and its discovery could not be attached.
running_undiscovered :
    (status_ok (start no_files memory_blocks memory_snapshots (pos 7) core).0 ≡ false)
    × ((start no_files memory_blocks memory_snapshots (pos 7) core).1.running ≡ true)
unfolding start bootstrap load validate put_block blocxxi.Storage.Memory.save
running_undiscovered = (refl, refl)

abbrev running_core : Core
running_core = record core { running = true }

abbrev some_block : Block
some_block = record {
  header = record {
    id = replicate 32 7;
    previous_id = replicate 32 0;
    height = 0;
    timestamp_utc = pos 5;
    source = b'a' ∷ [];
  };
  transactions = [];
}

submit_block_outcome_example :
    Submits memory_blocks-IsBlockStore memory_snapshots-IsSnapshotStore running_core some_block
      (submit_block no_files memory_blocks memory_snapshots running_core some_block)
submit_block_outcome_example =
    submit_block_outcome memory_blocks-IsBlockStore memory_snapshots-IsSnapshotStore no_files
      running_core some_block core-IsSound (record { size = refl; in_range = omega arith })

stop_outcome_example :
    (status_ok (stop no_files toggle node).0 ≡ true)
    × ((stop no_files toggle node).1.core.running ≡ false)
    × All IsStopped (stop no_files toggle node).1.services
stop_outcome_example = stop_outcome no_files toggle node refl
