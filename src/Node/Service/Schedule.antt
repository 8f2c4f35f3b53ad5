-- ===== src/Node/Service/Schedule.antt =====
-- When services are run: not before they are due, and each of them whatever the others do.
use blocxxi.Base.{
  ℕ, suc, ◌+◌, ◌≤◌, ◌<◌, ◌≡◌, refl, ap, ◌∙◌, arith, List, [], ◌∷◌, Bool, true, some, length,
  if◌then◌else◌, Bool-cases, inl, inr, ◌&&◌,
}
use blocxxi.Core.Status.{Status, status_ok, success}
use blocxxi.Node.Service.{
  Service, NodePort, ManagedService, ServiceState, run_managed_service_once, complete_run,
  run_services,
}

module _ {V C : Type 0} (service : Service V C) (node : NodePort C) where
  run_completes :
      (now utc : ℕ) (v : V) (s : ServiceState) (due : ℕ) (c : C)
      → s.started ≡ true
      → due ≤ now
      → status_ok (service.poll v c).0 ≡ true
      → run_managed_service_once service node now utc
          (record { service = some v; state = s; next_due = due })
          c
        ≡ complete_run service node now utc (service.poll v c).1 s (service.poll v c).2
  unfolding run_managed_service_once
  run_completes now utc v s due c started late done = ground (arith, started, late, done)

  run_idle :
      (now utc : ℕ) (v : V) (s : ServiceState) (due : ℕ) (c : C)
      → s.started ≡ true
      → now < due
      → run_managed_service_once service node now utc
          (record { service = some v; state = s; next_due = due })
          c
        ≡ (success [], record { service = some v; state = s; next_due = due }, c)
  unfolding run_managed_service_once
  run_idle now utc v s due c started early = ground (arith, started, early)

  -- After a Poll that succeeded, a run before the interval of the policy is over does nothing: it
  -- succeeds, and neither the service nor the node changes.
  pub run_managed_service_once_waits :
      (now later utc utc' : ℕ) (v : V) (s : ServiceState) (due : ℕ) (c : C)
      → s.started ≡ true
      → due ≤ now
      → status_ok (service.poll v c).0 ≡ true
      → later < now + (service.policy (service.poll v c).1).interval
      → run_managed_service_once service node later utc'
          (run_managed_service_once service node now utc
            (record { service = some v; state = s; next_due = due })
            c).1
          (run_managed_service_once service node now utc
            (record { service = some v; state = s; next_due = due })
            c).2
        ≡ (
          success [],
          (run_managed_service_once service node now utc
              (record { service = some v; state = s; next_due = due })
              c).1,
          (run_managed_service_once service node now utc
              (record { service = some v; state = s; next_due = due })
              c).2,
        )
  unfolding complete_run
  run_managed_service_once_waits now later utc utc' v s due c started late done early =
      rw (run_completes now utc v s due c started late done)
        (run_idle later utc' (service.poll v c).1 _ _ _ started early)

  -- The statuses of the runs of all the services, each run on what the ones before it left.
  unfoldable pub statuses : ℕ → (ℕ → ℕ) → ℕ → List (ManagedService V) → C → List Status
  statuses now clock i [] c = []
  statuses now clock i (entry ∷ entries) c =
      let (status, entry', c') = run_managed_service_once service node now (clock i) entry c in
      status ∷ statuses now clock (i + 1) entries c'

  abbrev pub are_ok : List Status → Bool
  are_ok [] = true
  are_ok (status ∷ more) = status_ok status && are_ok more

  next_ok :
      (overall status : Status) (more : Bool)
      → (status_ok (if status_ok status then overall else status) && more)
        ≡ (status_ok overall && (status_ok status && more))
  next_ok overall status more = elim (Bool-cases (status_ok status)) [
    | inl e ↦ ground (arith, e)
    | inr e ↦ ground (arith, e)
  ]

  -- RunServicesOnce runs every service, whatever the runs before return, and succeeds exactly when
  -- each of the runs does and the status that it starts from is a success.
  pub run_services_all :
      (now : ℕ) (clock : ℕ → ℕ) (i : ℕ) (overall : Status) (entries : List (ManagedService V))
      (c : C)
      → (status_ok (run_services service node now clock i overall entries c).0
          ≡ (status_ok overall && are_ok (statuses now clock i entries c)))
        × (length (statuses now clock i entries c) ≡ length entries)
        × (length (run_services service node now clock i overall entries c).1 ≡ length entries)
  unfolding run_services statuses
  run_services_all now clock i overall [] c = (ground arith, refl, refl)
  run_services_all now clock i overall (entry ∷ entries) c =
      let (status, entry', c') = run_managed_service_once service node now (clock i) entry c in
      let next = if status_ok status then overall else status in
      let (same, ran, kept) = run_services_all now clock (i + 1) next entries c' in
      (
        same ∙ next_ok overall status (are_ok (statuses now clock (i + 1) entries c')),
        ap suc ran,
        ap suc kept,
      )
