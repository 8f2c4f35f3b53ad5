-- ===== src/Node/Service/Retry.antt =====
-- A service that fails again and again: how its failures are counted, and when they are reported.
use blocxxi.Base.{
  ℕ, zero, suc, ◌+◌, ◌%◌, ◌≤◌, ◌<◌, ◌≡◌, refl, ap, ◌∙◌, arith, List, [], ◌∷◌, Bool, true, false,
  some, length, Bool-cases, subst, inl, inr, ltb, leb,
}
use blocxxi.Core.Status.{Status, status_ok}
use blocxxi.Core.Primitives.{word}
use blocxxi.Node.Service.{
  Service, NodePort, ManagedService, ServiceState, ServicePolicy, run_managed_service_once,
  fail_run,
}

-- A service that is started and whose Poll always fails, under a policy that does not change.
pub record AlwaysFails {V C : Type 0} (service : Service V C) (policy : ServicePolicy)
    : Type 0 where
  pub fails : (v : V) (c : C) → status_ok (service.poll v c).0 ≡ false
  pub same_policy : (v : V) → service.policy v ≡ policy

-- What a service with `failures` failures so far reports of `n` further ones: success as long as the
-- count does not exceed `max_retries`.
abbrev pub tolerated : ℕ → ℕ → ℕ → List Bool
tolerated failures zero max_retries = []
tolerated failures (suc n) max_retries =
    leb (failures + 1) max_retries ∷ tolerated (failures + 1) n max_retries

module _ {V C : Type 0} (service : Service V C) (node : NodePort C) where
  abbrev entry_of : V → ServiceState → ℕ → ManagedService V
  entry_of v s due = record { service = some v; state = s; next_due = due }

  -- The service is run at each of the times. What the runs report, and the entry behind them.
  unfoldable pub run_at : List ℕ → ManagedService V → C → List Bool × ManagedService V
  run_at [] entry c = ([], entry)
  run_at (now ∷ times) entry c =
      let (status, entry', c') = run_managed_service_once service node now 0 entry c in
      let (reports, last) = run_at times entry' c' in (status_ok status ∷ reports, last)

  -- Each run comes when the service is due.
  unfoldable pub AreDue : List ℕ → ManagedService V → C → Type 0
  AreDue [] entry c = Unit
  AreDue (now ∷ times) entry c =
      (entry.next_due ≤ now)
      × AreDue times (run_managed_service_once service node now 0 entry c).1
          (run_managed_service_once service node now 0 entry c).2

  run_fails :
      (now utc due : ℕ) (v : V) (s : ServiceState) (c : C)
      → status_ok (service.poll v c).0 ≡ false
      → s.started ≡ true
      → due ≤ now
      → run_managed_service_once service node now utc (entry_of v s due) c
        ≡ fail_run service node now utc
            (service.poll v c).0
            (service.poll v c).1
            s
            (service.poll v c).2
  unfolding run_managed_service_once
  run_fails now utc due v s c fails started late = ground (arith, fails, started, late)

  reports_fail :
      (policy : ServicePolicy) (now utc : ℕ) (status : Status) (v : V) (s : ServiceState) (c : C)
      → status_ok status ≡ false
      → service.policy v ≡ policy
      → s.failure_count + 1 < word
      → status_ok (fail_run service node now utc status v s c).0
        ≡ leb (s.failure_count + 1) policy.max_retries
  unfolding fail_run
  reports_fail policy now utc status v s c fails same small =
      rw same (elim (Bool-cases (ltb policy.max_retries (s.failure_count + 1))) [
        | inl over ↦ ground (arith, over, fails, small)
        | inr within ↦ ground (arith, within, small)
      ])

  -- A started service whose Poll always fails, run whenever it is due: the runs report success as
  -- long as the number of consecutive failures is at most `max_retries`, and the failure from then on.
  -- The number stays below 2^64.
  pub run_at-tolerated :
      (policy : ServicePolicy) (times : List ℕ) (v : V) (s : ServiceState) (due : ℕ) (c : C)
      → AlwaysFails service policy
      → s.started ≡ true
      → s.failure_count + length times < word
      → AreDue times (entry_of v s due) c
      → (run_at times (entry_of v s due) c).0
        ≡ tolerated s.failure_count (length times) policy.max_retries
  unfolding run_at AreDue fail_run
  run_at-tolerated policy [] v s due c always started small are_due = refl
  run_at-tolerated policy (now ∷ times) v s due c always started small are_due =
      let fails = always.fails v c in
      let (status, v', c') = service.poll v c in
      let failed = fail_run service node now 0 status v' s c' in
      let e = run_fails now 0 due v s c fails started are_due.0 in
      let next : s.failure_count + 1 < word = omega (arith, small) in
      let report = reports_fail policy now 0 status v' s c' fails (always.same_policy v') next in
      let others =
        run_at-tolerated policy times v' failed.1.state failed.1.next_due failed.2 always started
          (omega (arith, small)) (subst (λ run. AreDue times run.1 run.2) e are_due.1) in
      let counted : (s.failure_count + 1) % word ≡ s.failure_count + 1 = omega (arith, small) in
      ap (λ run. status_ok run.0 ∷ (run_at times run.1 run.2).0) e
      ∙ ap (λ r. r ∷ (run_at times failed.1 failed.2).0) report
      ∙ ap (λ rest. leb (s.failure_count + 1) policy.max_retries ∷ rest) others
      ∙ ap
          (λ n.
            leb (s.failure_count + 1) policy.max_retries
            ∷ tolerated n (length times) policy.max_retries)
          counted
