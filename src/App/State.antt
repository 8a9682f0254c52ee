-- ===== src/App/State.antt =====
-- app/state.go: the metrics of all hosts, and how they are kept in ZFS properties.
pub mod Jobs
pub mod Load
pub mod Lifecycle
pub mod Persist
pub mod Stored
pub mod Restart
pub mod Export
use zackup.Base.{
  ℕ, suc, Bool, true, false, ◌&&◌, not, Option, none, some, List, [], ◌∷◌, ◌++◌, map, Str, codes,
  str_eq, split, ltb, if◌then◌else◌,
}
use zackup.Base.Decimal.{show_int}
use zackup.Base.Dict.{Dict, lookup, insert}
use zackup.Base.FilePath.{join_path}
use zackup.Base.Int.{ℤ, quot}
use zackup.Base.Result.{Result, ok, err}
use zackup.Base.Sort.{sort_by, str_le}
use zackup.Base.Time.{Time, Duration, millisecond, unix, sub_time, truncate}
use zackup.Config.Job.{JobConfig}
use zackup.Config.Script.{byte_len, max_scan_token_size, drop_last_empty, drop_cr}
use zackup.App.Metrics.{Metrics, zero_metrics}
use zackup.App.Zprops.{
  ZfsProp, last_start, last_success_date, last_success_duration, last_failure_date,
  last_failure_duration, prop_name, zackup_props, find_prop, decode,
}

-- The metrics by host; the tree and the lock are left out.
pub record State : Type 0 where
  pub hosts : Dict Metrics

-- The arguments of a call of `zfs`.
abbrev pub Command : Type 0
Command = List Str

-- `fmt.Sprintf("%s=%d", prop, value)`
unfoldable pub assignment : ZfsProp → ℤ → Str
assignment p value = prop_name p ++ (codes "=" ++ show_int value)

abbrev pub start_metrics : Time → Option Metrics → Metrics
start_metrics t none = record zero_metrics { started_at = t }
start_metrics t (some m) = record m { started_at = t }

-- `t.Sub(m.StartedAt).Truncate(time.Millisecond)`
unfoldable pub elapsed : Time → Metrics → Duration
elapsed t m = truncate (sub_time t m.started_at) millisecond

module _ (root_dataset : Str) where
  -- `filepath.Join(RootDataset, host)`
  unfoldable pub dataset_name : Str → Str
  unfolding join_path
  dataset_name host = join_path (root_dataset ∷ host ∷ [])

  -- `storeStart`. Its error is logged and ignored.
  unfoldable pub store_start : Str → Time → Command
  store_start host t = codes "set" ∷ assignment last_start (unix t) ∷ dataset_name host ∷ []

  -- `storeResult`. Its error is logged and ignored.
  unfoldable pub store_result : Str → Bool → Time → Duration → Command
  store_result host succeeded t dur =
      codes "set"
      ∷ assignment (if succeeded then last_success_date else last_failure_date) (unix t)
      ∷ assignment (if succeeded then last_success_duration else last_failure_duration)
          (quot dur millisecond)
      ∷ dataset_name host
      ∷ []

  -- `(*State).start`; `t` is what `time.Now` gives. The second part is the calls of `zfs`.
  unfoldable pub start : Str → Time → State → State × List Command
  start host t s = (
    record s { hosts = insert host (start_metrics t (lookup host s.hosts)) s.hosts },
    store_start host t ∷ [],
  )

  -- `(*State).success`
  unfoldable pub success : Str → Time → State → State × List Command
  success host t s = elim (lookup host s.hosts) [
    | none ↦ (s, [])
    | some m ↦ (
      record s {
        hosts =
            insert host (record m { succeeded_at = some t; success_duration = elapsed t m })
              s.hosts;
      },
      store_result host true t (elapsed t m) ∷ [],
    )
  ]

  -- `(*State).failure`
  unfoldable pub failure : Str → Time → State → State × List Command
  failure host t s = elim (lookup host s.hosts) [
    | none ↦ (s, [])
    | some m ↦ (
      record s {
        hosts =
            insert host (record m { failed_at = some t; failure_duration = elapsed t m }) s.hosts;
      },
      store_result host false t (elapsed t m) ∷ [],
    )
  ]

-- `(*State).reschedule`; `next` is what `Service().NextSchedule(t)` gives.
unfoldable pub reschedule : Str → Time → State → State
reschedule host next s = elim (lookup host s.hosts) [
  | none ↦ s
  | some m ↦ record s { hosts = insert host (record m { scheduled_at = next }) s.hosts }
]

pub record HostMetrics : Type 0 where
  pub host : Str
  pub metrics : Metrics

abbrev pub entry_host : HostMetrics → Str
entry_host e = e.host

-- The copy that `export` makes has no job.
abbrev pub exported : Str × Metrics → HostMetrics
exported (host, m) = record { host = host; metrics = record m { job = none } }

-- `(*State).export`
unfoldable pub export : State → List HostMetrics
export s = sort_by entry_host (map exported s.hosts)
