-- ===== src/Bitcoin/Headers/OnNode.antt =====
-- HeaderSyncAdapter over the node of src/Blocxxi/Node/node.cpp.
use blocxxi.Base.{ℤ}
use blocxxi.Chain.Ports.{BlockStore, SnapshotStore}
use blocxxi.Node.Lifecycle.{
  FileOps, NodeCore, attach_discovery, attach_adapter, submit_transaction, commit_pending,
}
use blocxxi.Bitcoin.Headers.{NodeCalls}

-- The calls of the adapter on its node, where `clock` is the time at which a block is made.
abbrev pub calls_of :
    {S T F H : Type 0}
    → FileOps F
    → BlockStore S
    → SnapshotStore T
    → (NodeCore S T F H → ℤ)
    → NodeCalls (NodeCore S T F H)
calls_of ops block_store snapshot_store clock = record {
  attach_discovery = attach_discovery ops;
  attach_adapter = attach_adapter ops;
  submit_transaction = submit_transaction ops block_store snapshot_store;
  commit_pending = λ c. commit_pending ops block_store snapshot_store (clock c) c;
}
