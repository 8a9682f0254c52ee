-- ===== src/App/Scheduler/Jobs.antt =====
-- The jobs that the scheduler enqueues, app/scheduler.go.
use zackup.Base.{
  ℕ, ◌+◌, Bool, true, ◌||◌, Option, List, [], ◌∷◌, Str, ◌≡◌, sym, ◌∙◌, ap, All, All-append,
  Bool-cases, Option-cases, inl, inr,
}
use zackup.Base.Dict.{lookup, is_some}
use zackup.Base.Time.{is_zero, after}
use zackup.Config.Job.{JobConfig}
use zackup.Config.Service.{ServiceConfig}
use zackup.App.Metrics.{status}
use zackup.App.State.{State}
use zackup.App.State.Jobs.{HasJobs, reschedule-HasJobs}
use zackup.App.Scheduler.Stuck.{rounds}
use zackup.App.Scheduler.{Readings, Call, is_running, ensure_schedule, enqueue_due, visit, run}

module _ (tree_host : Str → Option JobConfig) (known : Str → Bool) (svc : ServiceConfig) where
  -- The call is for a host that is known, with the job that the tree has.
  abbrev pub IsOfTree : Call → Type 0
  IsOfTree c = (c.1 ≡ tree_host c.0) × (known c.0 ≡ true)

  abbrev Good : State × List Call → Type 0
  Good r = HasJobs tree_host known r.0 × All IsOfTree r.1

  -- What other goroutines do leaves the metrics of the same hosts, with the same jobs.
  abbrev pub KeepsJobs : Readings → Type 0
  KeepsJobs env =
      (k : ℕ) (s : State)
      → HasJobs tree_host known s
      → HasJobs tree_host known (env.before k s) × HasJobs tree_host known (env.blocked k s)

  enqueue_due-Good :
      (env : Readings) (k : ℕ) (host : Str) (s : State)
      → KeepsJobs env
      → HasJobs tree_host known s
      → Good (enqueue_due svc env k host s (lookup host s.hosts))
  unfolding enqueue_due
  enqueue_due-Good env k host s keeps v = elim (Option-cases (lookup host s.hosts)) [
    | inl missing ↦ rw (missing, enqueue_due) (v, tt)
    | inr (m, found) ↦
        elim (Bool-cases (is_running (status m) || after m.scheduled_at (env.now k))) [
          | inl idle ↦ rw (found, enqueue_due, idle) (v, tt)
          | inr due ↦
              rw (found, enqueue_due, due)
                (
                  reschedule-HasJobs tree_host known host _ (env.blocked k s) (keeps k s v).1,
                  ((v.jobs host m found, sym (v.hosts host) ∙ ap is_some found), tt),
                )
        ]
  ]

  visit-Good :
      (env : Readings) (k : ℕ) (host : Str) (s : State)
      → KeepsJobs env
      → HasJobs tree_host known s
      → Good (visit svc env k host s)
  unfolding visit ensure_schedule
  visit-Good env k host s keeps v = elim (Option-cases (lookup host s.hosts)) [
    | inl missing ↦ rw (missing, visit) (v, tt)
    | inr (m, found) ↦ elim (Bool-cases (is_zero m.scheduled_at)) [
      | inl unset ↦
          rw (found, visit, unset)
            (enqueue_due-Good env k host _ keeps (reschedule-HasJobs tree_host known host _ s v))
      | inr set ↦ rw (found, visit, set) (enqueue_due-Good env k host s keeps v)
    ]
  ]

  -- Where the metrics of each host have the job that the tree has, as after the start of the program,
  -- a round of the scheduler enqueues nothing but the jobs of hosts that are known, in whichever
  -- order it visits whichever hosts; and the metrics have the same jobs and hosts after it, where
  -- the other goroutines keep these during the round.
  pub run-IsOfTree :
      (env : Readings) (k : ℕ) (hosts : List Str) (s : State)
      → KeepsJobs env
      → HasJobs tree_host known s
      → HasJobs tree_host known (run svc env k hosts s).0 × All IsOfTree (run svc env k hosts s).1
  unfolding run
  run-IsOfTree env k [] s keeps v = (v, tt)
  run-IsOfTree env k (host ∷ hosts) s keeps v = elim (Bool-cases (env.stop k)) [
    | inl stopped ↦ rw (stopped, run) ((keeps k s v).0, tt)
    | inr on ↦
        let (one, good) = visit-Good env k host (env.before k s) keeps (keeps k s v).0 in
        let (all, later) =
          run-IsOfTree env (k + 1) hosts (visit svc env k host (env.before k s)).0 keeps one in
        rw (on, run) (all, All-append IsOfTree _ _ good later)
  ]

  pub rounds-IsOfTree :
      (rs : List (Readings × List Str)) (s : State)
      → All (λ r. KeepsJobs r.0) rs
      → HasJobs tree_host known s
      → All IsOfTree (rounds svc rs s).1
  unfolding rounds
  rounds-IsOfTree [] s keeps v = tt
  rounds-IsOfTree ((env, hosts) ∷ rs) s (keep, keeps) v =
      let (one, good) = run-IsOfTree env 0 hosts s keep v in
      All-append IsOfTree _ _ good (rounds-IsOfTree rs (run svc env 0 hosts s).0 keeps one)
