-- ===== src/App/Scheduler.antt =====
-- app/scheduler.go: one round of the scheduler over the hosts of the state.
pub mod Visit
pub mod Round
pub mod Stuck
pub mod Jobs
pub mod Loop
use zackup.Base.{
  ℕ, ◌+◌, Bool, true, false, ◌||◌, Option, none, some, List, [], ◌∷◌, ◌++◌, Str, if◌then◌else◌,
}
use zackup.Base.Dict.{lookup}
use zackup.Base.Time.{Time, is_zero, after}
use zackup.Config.Job.{JobConfig}
use zackup.Config.Service.{ServiceConfig, next_schedule}
use zackup.App.Metrics.{Metrics, MetricStatus, unknown, primed, success, failed, running, status}
use zackup.App.State.{State, reschedule}

-- What the round reads at its `k`-th host: whether `Stop` was called, the two times, and what
-- `rand.Int63n` gives at each of the two calls of `reschedule`; and what other goroutines make of the
-- state before it comes to this host, and while `Enqueue` blocks.
pub record Readings : Type 0 where
  pub stop : ℕ → Bool
  pub now : ℕ → Time
  pub later : ℕ → Time
  pub rnd : ℕ → ℕ
  pub rnd_later : ℕ → ℕ
  pub before : ℕ → State → State
  pub blocked : ℕ → State → State

-- A call of `Enqueue`, with the host that it is made for; a nil job is `none`.
abbrev pub Call : Type 0
Call = Str × Option JobConfig

abbrev pub is_running : MetricStatus → Bool
is_running running = true
is_running _ = false

module _ (svc : ServiceConfig) (env : Readings) where
  -- `if job.ScheduledAt.IsZero() { state.reschedule(host, now) }`
  unfoldable pub ensure_schedule : ℕ → Str → Metrics → State → State
  ensure_schedule k host m s =
      if is_zero m.scheduled_at
      then reschedule host (next_schedule svc (env.rnd k) (env.now k)) s
      else s

  -- From the status on. The metrics are those after `ensure_schedule`.
  unfoldable pub enqueue_due : ℕ → Str → State → Option Metrics → State × List Call
  enqueue_due k host s none = (s, [])
  enqueue_due k host s (some m) =
      if is_running (status m) || after m.scheduled_at (env.now k) then (s, []) else (
        reschedule host (next_schedule svc (env.rnd_later k) (env.later k)) (env.blocked k s),
        (host, m.job) ∷ [],
      )

  -- One turn of the loop; a host without metrics is not met.
  unfoldable pub visit : ℕ → Str → State → State × List Call
  visit k host s = elim (lookup host s.hosts) [
    | none ↦ (s, [])
    | some m ↦ let s' = ensure_schedule k host m s in enqueue_due k host s' (lookup host s'.hosts)
  ]

  -- `run`, over the hosts in the order in which the map is walked, where each call of `Enqueue`
  -- returns. What other goroutines do comes in before each turn and during `Enqueue`; the steps in
  -- which they interleave with the parts of a turn, and a call that blocks, are in Loop.
  unfoldable pub run : ℕ → List Str → State → State × List Call
  run k [] s = (s, [])
  run k (host ∷ hosts) s =
      let s₀ = env.before k s in
      let (s₁, calls) = visit k host s₀ in
      let (s₂, rest) = run (k + 1) hosts s₁ in if env.stop k then (s₀, []) else (s₂, calls ++ rest)
