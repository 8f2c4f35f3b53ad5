-- ===== src/Node/Lifecycle/Services.antt =====
-- The calls of src/Blocxxi/Node/node.cpp that run, stop and register services.
use blocxxi.Base.{
  ℕ, ◌++◌, [], ◌∷◌, List, text, false, not, Option, none, some, length, if◌then◌else◌,
}
use blocxxi.Core.Status.{Status, status_ok, success, failure, rejected}
use blocxxi.Node.Service.{
  node_stopped, service_registered, service_failed, Service, ManagedService, ServiceState,
  failure_message, run_services,
}
use blocxxi.Node.Lifecycle.{
  FileOps, in_memory, file_system, NodeCore, Node, emit_event, emit, checkpoint_path, node_port,
}

-- ServiceStates
abbrev pub service_states : {V : Type 0} → List (ManagedService V) → List ServiceState
service_states [] = []
service_states (entry ∷ entries) = entry.state ∷ service_states entries

module _ {S T F H : Type 0} (ops : FileOps F) where
  module _ {V : Type 0} (service : Service V (NodeCore S T F H)) where
    -- The loop of Stop.
    unfoldable pub stop_services :
        List (ManagedService V) → NodeCore S T F H → List (ManagedService V) × NodeCore S T F H
    unfolding emit_event
    stop_services [] c = ([], c)
    stop_services (entry ∷ entries) c =
        let stopped : ManagedService V × NodeCore S T F H = elim entry.service [
          | none ↦ (entry, c)
          | some v ↦
              let (status, v', c') = service.stop v c in
              if entry.state.started
              then (
                record {
                  service = some v';
                  state = record entry.state { started = false };
                  next_due = entry.next_due;
                },
                if status_ok status
                    then c'
                    else emit ops c' service_failed (failure_message entry.state.name status),
              )
              else (entry, c)
        ] in
        let (entries', c'') = stop_services entries stopped.1 in (stopped.0 ∷ entries', c'')

    unfoldable pub stop : Node S T F H V → Status × Node S T F H V
    unfolding stop_services emit_event
    stop n =
        let (services, c) = stop_services n.services n.core in
        if not n.core.running then (success (text "node already stopped"), n) else (
          success [],
          record {
            core = emit ops (record c { running = false }) node_stopped (text "node stopped");
            services = services;
          },
        )

    -- RunServicesOnce
    unfoldable pub run_services_once : ℕ → (ℕ → ℕ) → Node S T F H V → Status × Node S T F H V
    unfolding run_services
    run_services_once now clock n =
        let (status, services, c) =
          run_services service (node_port ops) now clock 0 (success []) n.services n.core in
        if not n.core.running
        then (failure rejected (text "node must be started before running services"), n)
        else (status, record { core = c; services = services })

    -- RestoreCheckpoint
    unfoldable pub restore_checkpoint : NodeCore S T F H → V → ServiceState → V × ServiceState
    unfolding checkpoint_path
    restore_checkpoint c v s = elim c.options.storage_mode [
      | in_memory ↦ (v, s)
      | file_system ↦
          elim (ops.read_file c.files (checkpoint_path ops c.options c.kernel.config s.name)) [
            | none ↦ (v, s)
            | some text_read ↦
                let (status, v') = service.restore_checkpoint v text_read in
                (
                  v',
                  record s {
                    checkpoint = text_read;
                    last_error = if status_ok status then s.last_error else status.message;
                  },
                )
          ]
    ]

    -- RegisterService, at the times `due` of the steady clock and `utc` of the system clock.
    unfoldable pub register_service : ℕ → ℕ → Node S T F H V → Option V → ℕ × Node S T F H V
    unfolding emit_event restore_checkpoint
    register_service due utc n pointer = elim pointer [
      | none ↦ (length n.services, n)
      | some v ↦
          let s : ServiceState = record {
            name = service.get_name v;
            started = false;
            run_count = 0;
            failure_count = 0;
            last_success_utc = 0;
            last_error = [];
            checkpoint = [];
            next_run_utc = utc;
          } in
          let (v', s') = restore_checkpoint n.core v s in
          let entry : ManagedService V = record { service = some v'; state = s'; next_due = due } in
          let services = n.services ++ entry ∷ [] in
          (
            length services,
            record { core = emit ops n.core service_registered s.name; services = services },
          )
    ]

    -- RunServiceLoop, of RunServicesFor and RunServicesUntil: one turn for each time that the loop's
    -- condition holds, with the clocks that the turn reads. The sleep between two turns does nothing.
    unfoldable pub run_service_loop :
        List (ℕ × (ℕ → ℕ)) → Status → Node S T F H V → Status × Node S T F H V
    unfolding run_services_once
    run_service_loop [] overall n = (overall, n)
    run_service_loop ((now, clock) ∷ turns) overall n =
        let (status, n') = run_services_once now clock n in
        run_service_loop turns (if status_ok status then overall else status) n'

    -- RunServicesFor and RunServicesUntil, at the turns that the deadline or the predicate allows.
    unfoldable pub run_services_turns :
        List (ℕ × (ℕ → ℕ)) → Node S T F H V → Status × Node S T F H V
    unfolding run_service_loop
    run_services_turns turns n = run_service_loop turns (success []) n
