-- ===== src/Tests/States.antt =====
-- app/metric_status.go, app/state.go and app/zprops.go at concrete inputs, as in
-- app/metric_status_test.go.
use zackup.Base.{
  ℕ, true, false, Option, none, some, [], ◌∷◌, ◌++◌, Str, codes, str_eq, ◌≡◌, ◌≢◌, ◌↔◌, refl, arith,
}
use zackup.Base.Dict.{lookup}
use zackup.Base.Int.{pos}
use zackup.Base.Time.{zero_time, millisecond, truncate}
use zackup.App.Metrics.{
  Metrics, zero_metrics, MetricStatus, unknown, primed, success, failed, running, status,
}
use zackup.App.Metrics
use zackup.App.Metrics.Status.{IsBefore, IsLast, IsTie, status_lem}
use zackup.App.Zprops.{
  prop_name, last_start, last_success_date, last_success_duration, last_failure_date,
  last_failure_duration, convert, decode,
}
use zackup.App.State.{State, dataset_name, store_start, store_result, start, elapsed}
use zackup.App.State
use zackup.App.State.Lifecycle.{Updates, run_lem}
use zackup.App.State.Persist.{store_result-decode, decode_error}

abbrev no_float : Str → Option ℕ
no_float s = none

abbrev web : Str
web = codes "web"

abbrev root_dataset : Str
root_dataset = codes "tank/zackup"

-- Started at 20, after a success at 10.
abbrev started : Metrics
started = record zero_metrics { started_at = 20; succeeded_at = some 10 }

abbrev running_state : State
running_state = record { hosts = (web, started) ∷ [] }

abbrev empty_state : State
empty_state = record { hosts = [] }

status-started : status started ≡ running
unfolding status
status-started = refl

status-tie : status (record started { succeeded_at = some 30; failed_at = some 30 }) ≡ unknown
unfolding status
status-tie = refl

status_lem_example :
    ((status started ≡ primed) ↔ (started.started_at ≡ zero_time))
    × ((status started ≡ running) ↔ (
        (started.started_at ≢ zero_time)
        × IsBefore started.succeeded_at started.started_at
        × IsBefore started.failed_at started.started_at))
    × ((status started ≡ Metrics.success) ↔ (
        (started.started_at ≢ zero_time)
        × IsLast started.succeeded_at started.failed_at started.started_at))
    × ((status started ≡ failed) ↔ (
        (started.started_at ≢ zero_time)
        × IsLast started.failed_at started.succeeded_at started.started_at))
    × ((status started ≡ unknown) ↔ (
        (started.started_at ≢ zero_time)
        × IsTie started.succeeded_at started.failed_at started.started_at))
status_lem_example = status_lem started

abbrev succeeded : Metrics
succeeded = record started { succeeded_at = some 30; success_duration = elapsed 30 started }

abbrev broken : Metrics
broken = record started { failed_at = some 30; failure_duration = elapsed 30 started }

run_lem_example :
    let s' = (start root_dataset web 40 running_state).0 in
    ((m : Metrics) × Updates web m running_state (State.success root_dataset web 50 s').0
      × (status m ≡ Metrics.success)
      × (m.started_at ≡ 40)
      × (m.succeeded_at ≡ some 50))
    × ((m : Metrics) × Updates web m running_state (State.failure root_dataset web 50 s').0
        × (status m ≡ failed)
        × (m.started_at ≡ 40)
        × (m.failed_at ≡ some 50))
unfolding lookup str_eq
run_lem_example =
    run_lem root_dataset web 40 50 running_state (omega arith) (omega arith) (omega arith, tt)

store_result-decode_example :
    let dur = truncate (pos 1_234_567) millisecond in
    (date time : Str) × (store_result root_dataset web true 5_000_000_007 dur
      ≡ codes "set"
        ∷ (prop_name last_success_date ++ (codes "=" ++ date))
        ∷ (prop_name last_success_duration ++ (codes "=" ++ time))
        ∷ dataset_name root_dataset web
        ∷ [])
    × (store_result root_dataset web false 5_000_000_007 dur
        ≡ codes "set"
          ∷ (prop_name last_failure_date ++ (codes "=" ++ date))
          ∷ (prop_name last_failure_duration ++ (codes "=" ++ time))
          ∷ dataset_name root_dataset web
          ∷ [])
    × ((decode no_float last_success_duration
          (decode no_float last_success_date started date).0
          time).0
        ≡ record started { succeeded_at = some 5_000_000_000; success_duration = dur })
    × ((decode no_float last_failure_duration
          (decode no_float last_failure_date started date).0
          time).0
        ≡ record started { failed_at = some 5_000_000_000; failure_duration = dur })
store_result-decode_example =
    store_result-decode no_float root_dataset web 5_000_000_007 (pos 1_234_567) started
      (omega arith) (omega arith)

decode_error_example :
    (value : Str) × (store_start root_dataset web 5_000_000_007
      ≡ codes "set"
        ∷ (prop_name last_start ++ (codes "=" ++ value))
        ∷ dataset_name root_dataset web
        ∷ [])
    × ((convert no_float last_start started value).1 ≡ none)
    × ((decode no_float last_start started value).1
        ≡ some (record { prop = last_start; cause = none }))
decode_error_example = decode_error no_float root_dataset web 5_000_000_007 started
