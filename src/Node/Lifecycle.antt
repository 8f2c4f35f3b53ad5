-- ===== src/Node/Lifecycle.antt =====
-- src/Blocxxi/Node/node.h and node.cpp: the calls of a node. The plugins and handlers are values that
-- are passed events and do nothing to the node. The file system is a parameter, and so are the
-- services, which change what is in `Impl` but the list of the services. Writing a checkpoint does not
-- fail.
pub mod Services
pub mod Outcomes
pub mod Blocks
use blocxxi.Base.{
  ℕ, ◌+◌, ◌++◌, [], ◌∷◌, List, Bytes, text, Bool, true, false, not, ◌&&◌, ◌||◌, ℤ, Option, none,
  some, is_empty, length, leb, ◌==◌, map, if◌then◌else◌,
}
use blocxxi.Core.Status.{
  Status, StatusCode, status_ok, success, failure, rejected, invalid_argument,
}
use blocxxi.Core.Primitives.{Block, Transaction, ChainSnapshot, ChainConfig}
use blocxxi.Chain.Ports.{BlockStore, SnapshotStore}
use blocxxi.Chain.Kernel.{Kernel, validate, head, bootstrap, commit_block}
use blocxxi.Node.Service.{
  EventType, node_starting, node_started, node_stopped, transaction_accepted, block_committed,
  discovery_attached, adapter_attached, service_registered, service_failed, Service, NodePort,
  ManagedService, ServiceState, failure_message, run_services,
}

pub data StorageMode : Type 0 where
  in_memory file_system : StorageMode

pub record NodeOptions : Type 0 where
  pub storage_mode : StorageMode
  pub storage_root : Bytes
  pub start_discovery : Bool
  pub discovery_name : Bytes

pub record ChainEvent : Type 0 where
  pub type : EventType
  pub message : Bytes
  pub snapshot : ChainSnapshot
  pub transaction : Option Transaction
  pub block : Option Block

-- What the code calls of the file system; `join` is operator/ of paths.
pub record FileOps (F : Type 0) : Type 0 where
  pub join : Bytes → Bytes → Bytes
  pub write_file : F → Bytes → Bytes → F
  pub read_file : F → Bytes → Option Bytes

-- Node::Impl without the services. `delivered` is what the plugins and the handlers were passed.
pub record NodeCore (S T F H : Type 0) : Type 0 where
  pub options : NodeOptions
  pub running : Bool
  pub kernel : Kernel S T
  pub handlers : List (Option H)
  pub plugins : List (Option H)
  pub attached_services : List Bytes
  pub delivered : List (H × ChainEvent)
  pub files : F

pub record Node (S T F H V : Type 0) : Type 0 where
  pub core : NodeCore S T F H
  pub services : List (ManagedService V)

-- IsRunning, Options, Snapshot
abbrev pub is_running : {S T F H : Type 0} → NodeCore S T F H → Bool
is_running c = c.running

abbrev pub get_options : {S T F H : Type 0} → NodeCore S T F H → NodeOptions
get_options c = c.options

abbrev pub get_snapshot : {S T F H : Type 0} → NodeCore S T F H → ChainSnapshot
get_snapshot c = c.kernel.snapshot

-- The loops of Emit.
unfoldable pub deliver : {H : Type 0} → ChainEvent → List (Option H) → List (H × ChainEvent)
deliver event [] = []
deliver event (none ∷ hs) = deliver event hs
deliver event (some h ∷ hs) = (h, event) ∷ deliver event hs

unfoldable pub resolve_service_root : {F : Type 0} → FileOps F → NodeOptions → ChainConfig → Bytes
resolve_service_root ops options chain =
    ops.join
      (if is_empty options.storage_root
        then if is_empty chain.data_directory then text ".blocxxi" else chain.data_directory
        else options.storage_root)
      (text "services")

abbrev pub is_safe : ℕ → Bool
is_safe ch =
    (leb b'a' ch && leb ch b'z')
    || (leb b'A' ch && leb ch b'Z')
    || (leb b'0' ch && leb ch b'9')
    || ch == b'-'
    || ch == b'_'

unfoldable pub sanitize_service_name : Bytes → Bytes
sanitize_service_name [] = []
sanitize_service_name (ch ∷ name) = (if is_safe ch then ch else b'-') ∷ sanitize_service_name name

unfoldable pub checkpoint_path :
    {F : Type 0} → FileOps F → NodeOptions → ChainConfig → Bytes → Bytes
unfolding resolve_service_root sanitize_service_name
checkpoint_path ops options chain name =
    ops.join (resolve_service_root ops options chain)
      (sanitize_service_name name ++ text ".checkpoint")

module _ {S T F H : Type 0} (ops : FileOps F) where
  -- Emit, with the snapshot that every event carries.
  unfoldable pub emit_event :
      NodeCore S T F H → EventType → Bytes → Option Transaction → Option Block → NodeCore S T F H
  unfolding deliver
  emit_event c type message transaction block =
      let event : ChainEvent = record {
        type = type;
        message = message;
        snapshot = c.kernel.snapshot;
        transaction = transaction;
        block = block;
      } in
      record c { delivered = c.delivered ++ (deliver event c.plugins ++ deliver event c.handlers) }

  abbrev pub emit : NodeCore S T F H → EventType → Bytes → NodeCore S T F H
  emit c type message = emit_event c type message none none

  unfoldable pub persist_checkpoint : NodeCore S T F H → Bytes → Bytes → NodeCore S T F H
  unfolding checkpoint_path
  persist_checkpoint c name checkpoint = record c {
    files = elim c.options.storage_mode [
      | in_memory ↦ c.files
      | file_system ↦
          ops.write_file c.files (checkpoint_path ops c.options c.kernel.config name) checkpoint
    ];
  }

  -- What the run of a service calls.
  abbrev pub node_port : NodePort (NodeCore S T F H)
  node_port = record { emit = emit; persist_checkpoint = persist_checkpoint }

  unfoldable pub attach_discovery : NodeCore S T F H → Bytes → Status × NodeCore S T F H
  unfolding emit_event
  attach_discovery c name =
      if is_empty name
      then (failure invalid_argument (text "discovery service name is required"), c)
      else (
        success [],
        emit (record c { attached_services = c.attached_services ++ name ∷ [] }) discovery_attached
            name,
      )

  unfoldable pub attach_adapter : NodeCore S T F H → Bytes → Status × NodeCore S T F H
  unfolding emit_event
  attach_adapter c name =
      if is_empty name
      then (failure invalid_argument (text "adapter name is required"), c)
      else (success [], emit c adapter_attached name)

  unfoldable pub subscribe : NodeCore S T F H → Option H → ℕ × NodeCore S T F H
  subscribe c handler =
      let handlers = c.handlers ++ handler ∷ [] in
      (length handlers, record c { handlers = handlers })

  unfoldable pub register_plugin : NodeCore S T F H → Option H → ℕ × NodeCore S T F H
  register_plugin c plugin =
      let plugins = c.plugins ++ plugin ∷ [] in (length plugins, record c { plugins = plugins })

  module _ (block_store : BlockStore S) (snapshot_store : SnapshotStore T) where
    -- Blocks
    abbrev pub get_blocks : NodeCore S T F H → Option (List Block)
    get_blocks c = blocxxi.Chain.Kernel.get_chain block_store snapshot_store validate c.kernel

    -- Start, at the time `now` of the clock that Bootstrap reads.
    unfoldable pub start : ℤ → NodeCore S T F H → Status × NodeCore S T F H
    unfolding emit_event attach_discovery
    start now c =
        let starting = emit c node_starting (text "starting node") in
        let (status, kernel) = bootstrap block_store snapshot_store validate now c.kernel in
        let booted = record starting { kernel = kernel } in
        let active = record booted { running = true } in
        let (attached, discovering) = attach_discovery active c.options.discovery_name in
        if c.running
        then (success (text "node already running"), c)
        else if not (status_ok status)
        then (status, booted)
        else if c.options.start_discovery
        then if not (status_ok attached)
          then (attached, discovering)
          else (success [], emit discovering node_started (text "node running"))
        else (success [], emit active node_started (text "node running"))

    unfoldable pub submit_transaction : NodeCore S T F H → Transaction → Status × NodeCore S T F H
    unfolding emit_event blocxxi.Chain.Kernel.submit_transaction
    submit_transaction c t =
        let (status, kernel) = blocxxi.Chain.Kernel.submit_transaction c.kernel t in
        let after = record c { kernel = kernel } in
        if not c.running
        then (failure rejected (text "node must be started before submitting transactions"), c)
        else if status_ok status
        then (
          status,
          emit_event after transaction_accepted (text "transaction accepted") (some t) none,
        )
        else (status, after)

    unfoldable pub commit_pending : ℤ → NodeCore S T F H → Bytes → Status × NodeCore S T F H
    unfolding emit_event blocxxi.Chain.Kernel.commit_pending head
    commit_pending now c source =
        let (status, kernel) =
          blocxxi.Chain.Kernel.commit_pending block_store snapshot_store validate now c.kernel
            source in
        let after = record c { kernel = kernel } in
        if not c.running
        then (failure rejected (text "node must be started before committing blocks"), c)
        else if status_ok status
        then (
          status,
          emit_event after block_committed (text "pending transactions committed") none
              (head block_store snapshot_store validate kernel),
        )
        else (status, after)

    unfoldable pub submit_block : NodeCore S T F H → Block → Status × NodeCore S T F H
    unfolding emit_event commit_block
    submit_block c b =
        let (status, kernel) = commit_block block_store snapshot_store validate c.kernel b in
        let after = record c { kernel = kernel } in
        if not c.running
        then (failure rejected (text "node must be started before submitting blocks"), c)
        else if status_ok status
        then (status, emit_event after block_committed (text "block committed") none (some b))
        else (status, after)
