-- ===== src/App/State/Export.antt =====
-- The list of metrics that `export` gives, app/state.go.
use mathlib.Core.List.{Perm}
use zackup.Base.{map}
use zackup.Base.Sort.{IsSorted, sort_by-IsSorted, sort_by-perm}
use zackup.App.State.{State, entry_host, exported, export}

-- The export is sorted by host, and it has each host once for each time that the state has it, with
-- its metrics but without its job.
pub export_lem :
    (s : State) → IsSorted entry_host (export s) × Perm (export s) (map exported s.hosts)
unfolding export
export_lem s = (
  sort_by-IsSorted entry_host (map exported s.hosts),
  sort_by-perm entry_host (map exported s.hosts),
)
