-- ===== src/App/Metrics/Status.antt =====
-- What the status of a host says of the times of its last runs.
use zackup.Base.{◌≤◌, ◌<◌, Option, none, some, ◌≡◌, ◌≢◌, ◌↔◌, arith}
use zackup.Base.Time.{Time, zero_time}
use zackup.App.Metrics.{Metrics, unknown, primed, success, failed, running, status}

-- A result, if there is one, is older than the time.
abbrev pub IsBefore : Option Time → Time → Type 0
IsBefore none t = Unit
IsBefore (some r) t = r < t

-- There is a result, not older than the start, and the other result, if any, is older than it.
abbrev pub IsLast : Option Time → Option Time → Time → Type 0
IsLast none q t = ⊥
IsLast (some p) q t = (t ≤ p) × IsBefore q p

-- There are both results, at the same time, which is not before the start.
abbrev pub IsTie : Option Time → Option Time → Time → Type 0
IsTie (some p) (some q) t = (p ≡ q) × (t ≤ p)
IsTie _ _ t = ⊥

-- A host is primed exactly when it was never started. Of a host that was started, it is running
-- exactly when both its last results are older than its start; a success exactly when its last
-- success is not older than its start and newer than its last failure; failed in the same way with
-- the two exchanged; and unknown exactly when both results are of the same time, not older than
-- the start.
pub status_lem :
    (m : Metrics)
    → ((status m ≡ primed) ↔ (m.started_at ≡ zero_time))
      × ((status m ≡ running) ↔ (
          (m.started_at ≢ zero_time)
          × IsBefore m.succeeded_at m.started_at
          × IsBefore m.failed_at m.started_at))
      × ((status m ≡ success)
          ↔ ((m.started_at ≢ zero_time) × IsLast m.succeeded_at m.failed_at m.started_at))
      × ((status m ≡ failed)
          ↔ ((m.started_at ≢ zero_time) × IsLast m.failed_at m.succeeded_at m.started_at))
      × ((status m ≡ unknown)
          ↔ ((m.started_at ≢ zero_time) × IsTie m.succeeded_at m.failed_at m.started_at))
unfolding status
status_lem m = ground arith
