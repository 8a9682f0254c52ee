-- ===== src/App/Metrics.antt =====
-- The metrics of a host (app/state.go) and their status (app/metric_status.go).
pub mod Status
use zackup.Base.{
  ℕ, ◌+◌, ◌%◌, Bool, true, false, ◌&&◌, ◌||◌, not, Option, none, some, Str, codes, if◌then◌else◌,
}
use zackup.Base.Decimal.{two_64}
use zackup.Base.Int.{pos}
use zackup.Base.Time.{Time, Duration, zero_time, is_zero, after, before}
use zackup.Config.Job.{JobConfig}

-- A nil pointer is `none`. A `float64` is the number that its 64 bits make.
pub record Metrics : Type 0 where
  pub job : Option JobConfig
  pub scheduled_at : Time
  pub started_at : Time
  pub succeeded_at : Option Time
  pub success_duration : Duration
  pub failed_at : Option Time
  pub failure_duration : Duration
  pub space_used_by_snapshots : ℕ
  pub space_used_by_dataset : ℕ
  pub space_used_by_children : ℕ
  pub space_used_by_ref_reservation : ℕ
  pub compression_factor : ℕ

-- `&metrics{}`
abbrev pub zero_metrics : Metrics
zero_metrics = record {
  job = none;
  scheduled_at = zero_time;
  started_at = zero_time;
  succeeded_at = none;
  success_duration = pos 0;
  failed_at = none;
  failure_duration = pos 0;
  space_used_by_snapshots = 0;
  space_used_by_dataset = 0;
  space_used_by_children = 0;
  space_used_by_ref_reservation = 0;
  compression_factor = 0;
}

-- `(*metrics).SpaceUsedTotal`, in 64-bit arithmetic
unfoldable pub space_used_total : Metrics → ℕ
space_used_total m =
    (m.space_used_by_snapshots + m.space_used_by_dataset + m.space_used_by_children
      + m.space_used_by_ref_reservation)
    % two_64

pub data MetricStatus : Type 0 where
  unknown primed success failed running : MetricStatus

-- `MetricStatus.String`
unfoldable pub status_string : MetricStatus → Str
status_string unknown = codes "unknown"
status_string primed = codes "primed"
status_string success = codes "success"
status_string failed = codes "failed"
status_string running = codes "running"

-- `p == nil || t0.After(*p)`
abbrev pub nil_or_after : Time → Option Time → Bool
nil_or_after t0 none = true
nil_or_after t0 (some t) = after t0 t

-- `p != nil && (q == nil || p.After(*q)) && !p.Before(t0)`
abbrev pub is_latest : Time → Option Time → Option Time → Bool
is_latest t0 none q = false
is_latest t0 (some p) q = nil_or_after p q && not (before p t0)

-- `(*metrics).Status`
unfoldable pub status : Metrics → MetricStatus
status m =
    if is_zero m.started_at
    then primed
    else if nil_or_after m.started_at m.succeeded_at && nil_or_after m.started_at m.failed_at
    then running
    else if is_latest m.started_at m.succeeded_at m.failed_at
    then success
    else if is_latest m.started_at m.failed_at m.succeeded_at
    then failed
    else unknown
