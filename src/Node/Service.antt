-- ===== src/Node/Service.antt =====
-- src/Blocxxi/Node/service.h, and RunManagedServiceOnce and the loop of RunServicesOnce in
-- src/Blocxxi/Node/node.cpp. Times are milliseconds of the steady clock and seconds of the system
-- clock, and are not negative.
pub mod Retry
pub mod Schedule
use blocxxi.Base.{
  ℕ, ◌+◌, ◌*◌, ◌/◌, ◌%◌, ◌++◌, [], ◌∷◌, List, Bytes, text, Bool, true, false, not, Option, none,
  some, ltb, if◌then◌else◌,
}
use blocxxi.Core.Status.{Status, status_ok, success}
use blocxxi.Core.Primitives.{word}

pub data EventType : Type 0 where
  node_starting node_started node_stopped transaction_accepted block_committed discovery_attached
        adapter_attached service_registered service_started service_completed service_failed :
      EventType

pub record ServicePolicy : Type 0 where
  pub interval : ℕ
  pub retry_backoff : ℕ
  pub max_retries : ℕ

pub record ServiceState : Type 0 where
  pub name : Bytes
  pub started : Bool
  pub run_count : ℕ
  pub failure_count : ℕ
  pub last_success_utc : ℕ
  pub last_error : Bytes
  pub checkpoint : Bytes
  pub next_run_utc : ℕ

-- A Service whose object is a `V`. `C` is what a service can change of the node that is passed to it.
pub record Service (V C : Type 0) : Type 0 where
  pub get_name : V → Bytes
  pub policy : V → ServicePolicy
  pub start : V → C → Status × V × C
  pub poll : V → C → Status × V × C
  pub stop : V → C → Status × V × C
  pub get_checkpoint : V → Bytes
  pub restore_checkpoint : V → Bytes → Status × V

-- What the run of a service calls of the node: `emit` with the type and the message of an event,
-- and PersistCheckpoint with the name and the checkpoint of the service.
pub record NodePort (C : Type 0) : Type 0 where
  pub emit : C → EventType → Bytes → C
  pub persist_checkpoint : C → Bytes → Bytes → C

pub record ManagedService (V : Type 0) : Type 0 where
  pub service : Option V
  pub state : ServiceState
  pub next_due : ℕ

-- The message of an event about a failure.
abbrev pub failure_message : Bytes → Status → Bytes
failure_message name status = name ++ (b':' ∷ b' ' ∷ status.message)

module _ {V C : Type 0} (service : Service V C) (node : NodePort C) where
  -- The part of RunManagedServiceOnce that starts the service.
  unfoldable pub start_service : V → ServiceState → C → Status × V × ServiceState × C
  start_service v s c =
      let (status, v', c') = service.start v c in
      if s.started
      then (success [], v, s, c)
      else if not (status_ok status)
      then (
        status,
        v',
        record s { last_error = status.message },
        node.emit c' service_failed (failure_message s.name status),
      )
      else (success [], v', record s { started = true }, node.emit c' service_started s.name)

  -- What it does after a Poll that succeeded, and after one that failed.
  unfoldable pub complete_run : ℕ → ℕ → V → ServiceState → C → Status × ManagedService V × C
  complete_run now utc v s c =
      let s' : ServiceState = record s {
        run_count = (s.run_count + 1) % word;
        failure_count = 0;
        last_success_utc = utc;
        last_error = [];
        checkpoint = service.get_checkpoint v;
        next_run_utc = utc + (service.policy v).interval / 1000;
      } in
      (
        success [],
        record { service = some v; state = s'; next_due = now + (service.policy v).interval },
        node.emit (node.persist_checkpoint c s.name s'.checkpoint) service_completed s.name,
      )

  unfoldable pub fail_run : ℕ → ℕ → Status → V → ServiceState → C → Status × ManagedService V × C
  fail_run now utc status v s c =
      let failures = (s.failure_count + 1) % word in
      let backoff = (service.policy v).retry_backoff * failures % word in
      let s' : ServiceState = record s {
        failure_count = failures;
        last_error = status.message;
        next_run_utc = utc + backoff / 1000;
      } in
      (
        if ltb (service.policy v).max_retries failures then status else success [],
        record { service = some v; state = s'; next_due = now + backoff },
        node.emit c service_failed (failure_message s.name status),
      )

  unfoldable pub poll_service : ℕ → ℕ → V → ServiceState → C → Status × ManagedService V × C
  unfolding complete_run fail_run
  poll_service now utc v s c =
      let (status, v', c') = service.poll v c in
      if status_ok status then complete_run now utc v' s c' else fail_run now utc status v' s c'

  -- RunManagedServiceOnce
  unfoldable pub run_managed_service_once :
      ℕ → ℕ → ManagedService V → C → Status × ManagedService V × C
  unfolding start_service poll_service
  run_managed_service_once now utc entry c = elim entry.service [
    | none ↦ (success [], entry, c)
    | some v ↦
        let (status, v', s, c') = start_service v entry.state c in
        let entry' : ManagedService V = record {
          service = some v';
          state = s;
          next_due = entry.next_due;
        } in
        if not (status_ok status)
        then (status, entry', c')
        else if ltb now entry.next_due
        then (success [], entry', c')
        else poll_service now utc v' s c'
  ]

  -- The loop of RunServicesOnce: all services are run, and the last failure is returned. `clock` is
  -- the system clock when the service of that index is run.
  unfoldable pub run_services :
      ℕ → (ℕ → ℕ) → ℕ → Status → List (ManagedService V) → C → Status × List (ManagedService V) × C
  unfolding run_managed_service_once
  run_services now clock i overall [] c = (overall, [], c)
  run_services now clock i overall (entry ∷ entries) c =
      let (status, entry', c') = run_managed_service_once now (clock i) entry c in
      let (overall', entries', c'') =
        run_services now clock (i + 1) (if status_ok status then overall else status) entries c' in
      (overall', entry' ∷ entries', c'')
