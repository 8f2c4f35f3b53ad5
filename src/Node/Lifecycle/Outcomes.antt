-- ===== src/Node/Lifecycle/Outcomes.antt =====
-- What Start and Stop leave behind, and the names of the checkpoint files.
use blocxxi.Base.{
  ◌&&◌, not, ℕ, suc, ◌≡◌, ◌∙◌, ◌⊎◌, refl, ap, List, [], ◌∷◌, Bytes, true, false, ℤ, none, All,
  length, is_empty, if◌then◌else◌, Bool-cases, Option-cases, inl, inr,
}
use blocxxi.Core.Status.{status_ok}
use blocxxi.Core.Primitives.{Block}
use blocxxi.Chain.Ports.{BlockStore, SnapshotStore, IsBlockStore, IsSnapshotStore}
use blocxxi.Chain.Kernel.{validate, bootstrap}
use blocxxi.Chain.Kernel.Invariant.{Inv}
use blocxxi.Chain.Kernel.Bootstrap.{Boots, bootstrap_outcome}
use blocxxi.Node.Service.{Service, ManagedService}
use blocxxi.Node.Lifecycle.{FileOps, NodeCore, Node, start, is_safe, sanitize_service_name}
use blocxxi.Node.Lifecycle.Services.{stop, stop_services}

-- The service is not there, or is not started.
abbrev pub IsStopped : {V : Type 0} → ManagedService V → Type 0
IsStopped entry = (entry.service ≡ none) ⊎ (entry.state.started ≡ false)

module _ {S T F H : Type 0} (ops : FileOps F) where
  -- After Start of a node that does not run, the node runs exactly when Bootstrap succeeded, and has
  -- the kernel that Bootstrap left; but Start reports a success only where, besides, discovery is not
  -- asked for or has a name. So a node whose discovery has no name is left running by a failure.
  pub start_outcome :
      (block_store : BlockStore S) (snapshot_store : SnapshotStore T) (now : ℤ)
      (c : NodeCore S T F H)
      → c.running ≡ false
      → let boot = bootstrap block_store snapshot_store validate now c.kernel in
        let result = start ops block_store snapshot_store now c in
        (result.1.running ≡ status_ok boot.0)
        × (result.1.kernel ≡ boot.1)
        × (status_ok result.0 ≡ (
            status_ok boot.0
            && not (c.options.start_discovery && is_empty c.options.discovery_name)))
  unfolding start
  start_outcome block_store snapshot_store now c e =
      let booted = status_ok (bootstrap block_store snapshot_store validate now c.kernel).0 in
      elim (Bool-cases booted) [
        | inr f ↦ (simp (e, f), simp (e, f), simp (e, f))
        | inl f ↦ elim (Bool-cases c.options.start_discovery) [
          | inr g ↦ (simp (e, f, g), simp (e, f, g), simp (e, f, g))
          | inl g ↦ elim (Bool-cases (is_empty c.options.discovery_name)) [
            | inl h ↦ (simp (e, f, g, h), simp (e, f, g, h), simp (e, f, g, h))
            | inr h ↦ (simp (e, f, g, h), simp (e, f, g, h), simp (e, f, g, h))
          ]
        ]
      ]

  module _ {IsValid : S → Type 0} {blocks_in : S → List Block} {block_store : BlockStore S}
      {snapshot_store : SnapshotStore T} (blocks_law : IsBlockStore IsValid blocks_in block_store)
      (snapshots_law : IsSnapshotStore snapshot_store) where
    -- Start of a node that does not run, whose kernel is in its invariant, over stores that keep their
    -- contracts, leaves the node running and its kernel in its invariant. A kernel that has a chain, or
    -- is not configured to create one, stays as it was; any other gets the chain of the genesis block.
    -- Start reports a failure exactly where discovery is asked for and has no name.
    pub start-Inv :
        (now : ℤ) (c : NodeCore S T F H) (inv : Inv blocks_law snapshots_law c.kernel)
        → c.running ≡ false
        → let result = start ops block_store snapshot_store now c in
          (result.1.running ≡ true)
          × Inv blocks_law snapshots_law result.1.kernel
          × Boots blocks_law snapshots_law c.kernel inv now result.1.kernel
          × (status_ok result.0
              ≡ not (c.options.start_discovery && is_empty c.options.discovery_name))
    start-Inv now c inv e =
        let (fine, inv', boots) = bootstrap_outcome blocks_law snapshots_law c.kernel inv now in
        let (runs, same, reported) = start_outcome block_store snapshot_store now c e in
        (runs ∙ fine, rw same inv', rw same boots, reported ∙ rw fine refl)

  module _ {V : Type 0} (service : Service V (NodeCore S T F H)) where
    stop_services-All :
        (entries : List (ManagedService V)) (c : NodeCore S T F H)
        → All IsStopped (stop_services ops service entries c).0
    unfolding stop_services
    stop_services-All [] c = tt
    stop_services-All (entry ∷ entries) c = (
      elim (Option-cases entry.service) [
        | inl e ↦ inl (simp e refl)
        | inr (v, e) ↦ elim (Bool-cases entry.state.started) [
          | inr f ↦ inr (simp (e, f) refl)
          | inl f ↦ inr (simp (e, f) refl)
        ]
      ],
      stop_services-All entries _,
    )

    -- Stop of a running node succeeds, whatever the services return: then the node does not run, and
    -- no service is started.
    pub stop_outcome :
        (n : Node S T F H V)
        → n.core.running ≡ true
        → (status_ok (stop ops service n).0 ≡ true)
          × ((stop ops service n).1.core.running ≡ false)
          × All IsStopped (stop ops service n).1.services
    unfolding stop
    stop_outcome n e = (simp e refl, simp e refl, simp e (stop_services-All n.services n.core))

-- The name of a checkpoint file has the length of the service's name, and consists of letters, digits,
-- '-' and '_'.
pub sanitize_service_name_safe :
    (name : Bytes)
    → All (λ ch. is_safe ch ≡ true) (sanitize_service_name name)
      × (length (sanitize_service_name name) ≡ length name)
unfolding sanitize_service_name
sanitize_service_name_safe [] = (tt, refl)
sanitize_service_name_safe (ch ∷ name) =
    let (safe, size) = sanitize_service_name_safe name in ((safe_char ch, safe), ap suc size)
  where
    safe_char : (c : ℕ) → is_safe (if is_safe c then c else b'-') ≡ true
    safe_char c = elim (Bool-cases (is_safe c)) [ inl e ↦ simp e refl | inr e ↦ simp e refl ]
