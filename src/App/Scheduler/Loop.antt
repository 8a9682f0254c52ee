-- ===== src/App/Scheduler/Loop.antt =====
-- app/scheduler.go: `Start`, `Stop` and the rounds between them, as steps that interleave. In a turn
-- of the loop over the hosts, the test of `stop`, the decision, and the return of `Enqueue`, which
-- blocks while the channel of the queue is full, are three steps; what other goroutines make of the
-- state is another.
pub mod Turn
pub mod Stop
pub mod Silent
pub mod Ends
use zackup.Base.{
  ℕ, ◌-◌, Bool, true, false, ◌||◌, Option, none, some, List, [], ◌∷◌, ◌++◌, Str, if◌then◌else◌, ◌≡◌,
}
use zackup.Base.Dict.{lookup}
use zackup.Base.Time.{after}
use zackup.Config.Job.{JobConfig}
use zackup.Config.Service.{ServiceConfig, next_schedule}
use zackup.App.Metrics.{Metrics, status}
use zackup.App.State.{State, reschedule}
use zackup.App.Scheduler.{Readings, Call, is_running, ensure_schedule}

-- Where the goroutine of `Start` is: `turning` has the hosts that the round has still to visit,
-- `checked` is past the test of `stop` for a host, and `blocked` is in the call of `Enqueue`.
pub data Phase : Type 0 where
  fresh waiting returned : Phase
  turning : List Str → Phase
  checked : Str → List Str → Phase
  blocked : Str → Option JobConfig → List Str → Phase

-- `quit` is `none` where the channel is nil, and else says whether it is closed. `calls` keeps the
-- calls of `Enqueue` that have returned.
pub record Scheduler : Type 0 where
  pub phase : Phase
  pub quit : Option Bool
  pub stop : Bool
  pub wg : ℕ
  pub state : State
  pub calls : List Call
  pub panicked : Bool

-- `NewScheduler`, with the state that the rounds read
abbrev pub new_scheduler : State → Scheduler
new_scheduler s = record {
  phase = fresh;
  quit = none;
  stop = false;
  wg = 1;
  state = s;
  calls = [];
  panicked = false;
}

pub data Event : Type 0 where
  start : Event
  fire : List Str → Event  -- the timer fires, and a round begins, with this order of the hosts
  check : Event
  consider : Readings → Event
  accept : Readings → Event  -- the queue takes the job, and `Enqueue` returns
  see_quit : Event
  stop' : Event  -- the call of `Stop`, up to its `Wait`
  elsewhere : State → Event

abbrev pub started : Phase → Scheduler → Option Scheduler
started fresh sch = some (record sch { phase = waiting; quit = some false; stop = false })
started waiting sch = none
started returned sch = none
started (turning hosts) sch = none
started (checked host hosts) sch = none
started (blocked host job hosts) sch = none

abbrev pub fired : Phase → List Str → Scheduler → Option Scheduler
fired waiting hosts sch = some (record sch { phase = turning hosts })
fired fresh hosts sch = none
fired returned hosts sch = none
fired (turning _) hosts sch = none
fired (checked host _) hosts sch = none
fired (blocked host job _) hosts sch = none

-- `for host, job := range state.hosts { if sch.stop { return } … }`
abbrev pub tested : Phase → Scheduler → Option Scheduler
tested fresh sch = none
tested waiting sch = none
tested returned sch = none
tested (turning []) sch = some (record sch { phase = waiting })
tested (turning (host ∷ hosts)) sch =
    some (record sch { phase = if sch.stop then waiting else checked host hosts })
tested (checked host hosts) sch = none
tested (blocked host job hosts) sch = none

-- From the status on. The metrics are those after `ensure_schedule`.
unfoldable pub by_status : Readings → Str → List Str → Scheduler → Option Metrics → Scheduler
by_status env host hosts sch none = record sch { phase = turning hosts }
by_status env host hosts sch (some m) = record sch {
  phase =
      if is_running (status m) || after m.scheduled_at (env.now 0)
      then turning hosts
      else blocked host m.job hosts;
}

-- A host without metrics is not met.
unfoldable pub with_metrics :
    ServiceConfig → Readings → Str → List Str → Scheduler → Option Metrics → Scheduler
with_metrics svc env host hosts sch none = record sch { phase = turning hosts }
with_metrics svc env host hosts sch (some m) =
    let s = ensure_schedule svc env 0 host m sch.state in
    by_status env host hosts (record sch { state = s }) (lookup host s.hosts)

abbrev pub considered : ServiceConfig → Readings → Phase → Scheduler → Option Scheduler
considered svc env fresh sch = none
considered svc env waiting sch = none
considered svc env returned sch = none
considered svc env (turning hosts) sch = none
considered svc env (checked host hosts) sch =
    some (with_metrics svc env host hosts sch (lookup host sch.state.hosts))
considered svc env (blocked host job hosts) sch = none

-- `Enqueue` returns, and the host is rescheduled.
abbrev pub accepted : ServiceConfig → Readings → Phase → Scheduler → Option Scheduler
accepted svc env fresh sch = none
accepted svc env waiting sch = none
accepted svc env returned sch = none
accepted svc env (turning hosts) sch = none
accepted svc env (checked host hosts) sch = none
accepted svc env (blocked host job hosts) sch = some (record sch {
  phase = turning hosts;
  state = reschedule host (next_schedule svc (env.rnd_later 0) (env.later 0)) sch.state;
  calls = sch.calls ++ ((host, job) ∷ []);
})

abbrev pub saw_quit : Phase → Option Bool → Scheduler → Option Scheduler
saw_quit waiting (some true) sch =
    some (record sch { phase = returned; quit = none; wg = sch.wg - 1 })
saw_quit waiting (some false) sch = none
saw_quit waiting none sch = none
saw_quit fresh quit sch = none
saw_quit returned quit sch = none
saw_quit (turning hosts) quit sch = none
saw_quit (checked host hosts) quit sch = none
saw_quit (blocked host job hosts) quit sch = none

-- `sch.stop = true; close(sch.quit)`: closing a nil channel, or one that is closed, panics.
abbrev pub stopped : Option Bool → Scheduler → Scheduler
stopped none sch = record sch { stop = true; panicked = true }
stopped (some true) sch = record sch { stop = true; panicked = true }
stopped (some false) sch = record sch { stop = true; quit = some true }

module _ (svc : ServiceConfig) where
  abbrev pub step_on : Event → Scheduler → Option Scheduler
  step_on start sch = started sch.phase sch
  step_on (fire hosts) sch = fired sch.phase hosts sch
  step_on check sch = tested sch.phase sch
  step_on (consider env) sch = considered svc env sch.phase sch
  step_on (accept env) sch = accepted svc env sch.phase sch
  step_on see_quit sch = saw_quit sch.phase sch.quit sch
  step_on stop' sch = some (stopped sch.quit sch)
  step_on (elsewhere s) sch = some (record sch { state = s })

  -- A panic ends the program.
  unfoldable pub step : Event → Scheduler → Option Scheduler
  step e sch = if sch.panicked then none else step_on e sch

  -- The steps of one interleaving.
  pub data Reach (sch : Scheduler) : Scheduler → Type 0 where
    here : Reach sch sch
    next : {r s : Scheduler} → Reach sch r → (e : Event) → step e r ≡ some s → Reach sch s

-- The `Wait` of `Stop` returns when the group is empty.
abbrev pub StopReturns : Scheduler → Type 0
StopReturns sch = sch.wg ≡ 0
