-- ===== src/Tests/Stops.antt =====
-- `Stop` of app/scheduler.go at concrete interleavings.
use zackup.Base.{true, false, none, some, [], ◌∷◌, codes, str_eq, ◌≡◌, ◌↔◌, ◌⊎◌, refl}
use zackup.Base.Dict.{lookup}
use zackup.Config.Service.{zero_service, next_schedule}
use zackup.App.Metrics.{zero_metrics, status}
use zackup.App.State.{State, reschedule}
use zackup.App.Scheduler.{Readings, Call, ensure_schedule}
use zackup.App.Scheduler.Loop.{
  turning, blocked, Scheduler, new_scheduler, start, fire, check, consider, accept, stop', step,
  by_status, with_metrics, Reach, here, next, StopReturns,
}
use zackup.App.Scheduler.Loop.Stop.{is_fresh, stop_panics}
use zackup.App.Scheduler.Loop.Silent.{stopped_silent}
use zackup.App.Scheduler.Loop.Ends.{no_readings, Returns, stop_can_return}

abbrev no_hosts : State
no_hosts = record { hosts = [] }

-- `Stop` before the goroutine of `Start` has run.
stop_panics_example :
    (true ≡ true)
    ↔ ((is_fresh (new_scheduler no_hosts).phase ≡ true) ⊎ ((new_scheduler no_hosts).stop ≡ true))
unfolding step
stop_panics_example =
    stop_panics zero_service no_hosts (new_scheduler no_hosts)
      (record (new_scheduler no_hosts) { stop = true; panicked = true }) here refl

-- `Stop` while `Enqueue` blocks.
abbrev due_host : State
due_host = record {
  hosts = (codes "web", record zero_metrics { scheduled_at = 246_607_000_000_000 }) ∷ [];
}

abbrev at_five : Readings
at_five = record no_readings { now = λ k. 246_608_000_000_000 }

abbrev stopped_in_round : Scheduler
stopped_in_round = record (new_scheduler due_host) {
  phase = blocked (codes "web") none [];
  quit = some true;
  stop = true;
}

abbrev enqueued_late : Scheduler
enqueued_late = record stopped_in_round {
  phase = turning [];
  state = reschedule (codes "web") (next_schedule zero_service 0 0) due_host;
  calls = (codes "web", none) ∷ [];
}

stopped_in_round-Reach : Reach zero_service (new_scheduler due_host) stopped_in_round
unfolding step with_metrics by_status ensure_schedule lookup str_eq status
stopped_in_round-Reach =
    next
      (next (next (next (next here start refl) (fire (codes "web" ∷ [])) refl) check refl)
        (consider at_five) refl)
      stop' refl

stopped_silent_example :
    (enqueued_late.calls ≡ [])
    ⊎ ((c : Call) × (some (codes "web") ≡ some c.0) × (enqueued_late.calls ≡ c ∷ []))
unfolding step
stopped_silent_example =
    stopped_silent zero_service stopped_in_round enqueued_late refl refl
      (next here (accept no_readings) refl)

stop_can_return_example :
    (StopReturns stopped_in_round ↔ (false ≡ true)) × Returns zero_service stopped_in_round
stop_can_return_example =
    stop_can_return zero_service due_host stopped_in_round stopped_in_round-Reach refl refl
