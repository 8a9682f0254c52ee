-- ===== src/App/Scheduler/Round.antt =====
-- A whole round of the scheduler, app/scheduler.go.
use zackup.Base.{
  ℕ, ◌+◌, false, Option, none, some, List, [], ◌∷◌, ◌++◌, Str, str_eq, str_eq_iff, contains,
  Distinct, ◌≡◌, refl, ◌∙◌, ap, arith, Option-cases, inl, inr,
}
use zackup.Base.Dict.{lookup}
use zackup.Config.Service.{ServiceConfig}
use zackup.App.Metrics.{Metrics}
use zackup.App.State.{State}
use zackup.App.State.Lifecycle.{Updates}
use zackup.App.Scheduler.{Readings, Call, visit, run}
use zackup.App.Scheduler.Visit.{is_due, call_if, IsReading, IsAlone, visit_lem}

module _ (svc : ServiceConfig) (env : Readings) where
  abbrev pub call_of : ℕ → Str → Option Metrics → List Call
  call_of k host none = []
  call_of k host (some m) = call_if (is_due m (env.now k)) host m

  -- The calls of the hosts, as they are in the state, that are due at their own turn.
  abbrev pub due_calls : ℕ → List Str → State → List Call
  due_calls k [] s = []
  due_calls k (host ∷ hosts) s = call_of k host (lookup host s.hosts) ++ due_calls (k + 1) hosts s

  due_calls-Updates :
      (k : ℕ) (hosts : List Str) (host : Str) (m : Metrics) (s s' : State)
      → contains hosts host ≡ false
      → Updates host m s s'
      → due_calls k hosts s' ≡ due_calls k hosts s
  unfolding contains
  due_calls-Updates k [] host m s s' n up = refl
  due_calls-Updates k (h ∷ hs) host m s s' n up =
      let other : str_eq host h ≡ false = ground (arith, str_eq_iff host h, str_eq_iff h host) in
      let same : lookup h s'.hosts ≡ lookup h s.hosts = up h ∙ rw other in
      rw (same, due_calls-Updates (k + 1) hs host m s s' (ground arith) up)

  -- Where `Stop` is not called and no other goroutine changes the state during the round, a round
  -- calls `Enqueue` for exactly the hosts that, as they were when it began, are due at the reading of
  -- the clock of their own turn: those that do not run, have a schedule, and whose time has come by
  -- then. Each is enqueued once, with the job of the host, in the order in which the round meets them.
  -- No host is met twice; the schedule of the service is valid, the readings of the clock are not in
  -- the first day of all, and the random numbers lie below a jitter that is positive.
  pub run-due_calls :
      (k : ℕ) (hosts : List Str) (s : State)
      → ((i : ℕ) → IsReading svc env i)
      → ((i : ℕ) → IsAlone svc env i)
      → ((i : ℕ) → env.stop i ≡ false)
      → Distinct hosts
      → (run svc env k hosts s).1 ≡ due_calls k hosts s
  unfolding run
  run-due_calls k [] s c alone on d = refl
  run-due_calls k (host ∷ hosts) s c alone on (n, d) = elim (Option-cases (lookup host s.hosts)) [
    | inl missing ↦
        let skip : visit svc env k host s ≡ (s, []) = unfold visit in rw (missing, visit) in
        rw (on k, run, (alone k s).0)
          (rw (skip, missing) (run-due_calls (k + 1) hosts s c alone on d))
    | inr (m, found) ↦
        let v = visit_lem svc env k host m s (c k) (alone k) found in
        rw (on k, run, (alone k s).0)
          (rw (v.calls, found, run-due_calls (k + 1) hosts (visit svc env k host s).0 c alone on d)
            (ap (λ r. call_if (is_due m (env.now k)) host m ++ r)
              (due_calls-Updates (k + 1) hosts host v.after_visit s _ n v.updates)))
  ]
