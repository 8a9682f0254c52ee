-- ===== src/App/Scheduler/Loop/Turn.antt =====
-- The decision of a turn, app/scheduler.go.
use zackup.Base.{◌||◌, Option, none, some, List, Str, ◌≡◌, ◌⊎◌, refl, Bool-cases, inl, inr}
use zackup.Base.Time.{after}
use zackup.Config.Job.{JobConfig}
use zackup.Config.Service.{ServiceConfig}
use zackup.App.Metrics.{Metrics, status}
use zackup.App.State.{State}
use zackup.App.Scheduler.{Readings, is_running, ensure_schedule}
use zackup.App.Scheduler.Loop.{Phase, turning, blocked, Scheduler, by_status, with_metrics}

-- The turn goes on to the next host, or calls `Enqueue`; it changes the phase and the state only.
pub record Considered (host : Str) (hosts : List Str) (sch r : Scheduler) : Type 0 where
  pub phase : Phase
  pub state : State
  pub rest : r ≡ record sch { phase = phase; state = state }
  pub at_next :
      (phase ≡ turning hosts) ⊎ ((job : Option JobConfig) × (phase ≡ blocked host job hosts))

by_status_lem :
    (env : Readings) (host : Str) (hosts : List Str) (sch : Scheduler) (state : State)
    (o : Option Metrics)
    → Considered host hosts sch (by_status env host hosts (record sch { state = state }) o)
unfolding by_status
by_status_lem env host hosts sch state none = record {
  phase = turning hosts;
  state = state;
  rest = refl;
  at_next = inl refl;
}
by_status_lem env host hosts sch state (some m) =
    elim (Bool-cases (is_running (status m) || after m.scheduled_at (env.now 0))) [
      | inl e ↦
          rw (e, by_status)
            (record { phase = turning hosts; state = state; rest = refl; at_next = inl refl })
      | inr e ↦
          rw (e, by_status)
            (record {
              phase = blocked host m.job hosts;
              state = state;
              rest = refl;
              at_next = inr (m.job, refl);
            })
    ]

pub with_metrics_lem :
    (svc : ServiceConfig) (env : Readings) (host : Str) (hosts : List Str) (sch : Scheduler)
    (o : Option Metrics)
    → Considered host hosts sch (with_metrics svc env host hosts sch o)
unfolding with_metrics
with_metrics_lem svc env host hosts sch none = record {
  phase = turning hosts;
  state = sch.state;
  rest = refl;
  at_next = inl refl;
}
with_metrics_lem svc env host hosts sch (some m) =
    by_status_lem env host hosts sch (ensure_schedule svc env 0 host m sch.state) _
