-- ===== src/Tests/Pages.antt =====
-- app/server.go and app/prometheus.go at a concrete state.
use zackup.Base.{◌≤◌, true, some, [], ◌∷◌, ◌++◌, Str, codes, length, All, ◌≡◌, ◌↔◌, arith}
use zackup.Base.Dict.{lookup}
use zackup.App.Metrics.{Metrics, zero_metrics, status}
use zackup.App.Metrics
use zackup.App.State.{State, export, start, failure}
use zackup.App.Scheduler.Stuck.{IsStuck}
use zackup.App.Server.{Texts, handle_index}
use zackup.App.Server.Page.{IsWholeEntry, of_some, whole_if_started, handle_index_lem}
use zackup.App.Server.Stuck.{failure-IsStuck}
use zackup.App.Prometheus.{exporter, version_sample, collect}
use zackup.App.Prometheus.Collect.{samples_of, IsDescribed, collect_lem}

abbrev texts : Texts
texts = record {
  format = λ layout t. codes "then";
  humanize = λ t. codes "ago";
  duration_string = λ d. codes "short";
  bytes = λ n. codes "some";
}

abbrev web : Str
web = codes "web"

abbrev no_hosts : State
no_hosts = record { hosts = [] }

abbrev one_host : State
one_host = record {
  hosts = (web, record zero_metrics { started_at = 20; succeeded_at = some 30 }) ∷ [];
}

handle_index_lem_example :
    ((host : Str)
      → lookup host (handle_index texts one_host).1.hosts
        ≡ of_some whole_if_started (lookup host one_host.hosts))
    × (All IsWholeEntry one_host.hosts → (handle_index texts one_host).1 ≡ one_host)
handle_index_lem_example = handle_index_lem texts one_host

-- A backup that fails at once, a tenth of a second after it started.
failure-IsStuck_example :
    let s =
      (failure
        (codes "tank")
        web
        3_600_000_000
        (start (codes "tank") web 3_500_000_000 no_hosts).0).0 in
    ((m : Metrics) × (lookup web s.hosts ≡ some m) × (status m ≡ Metrics.failed))
    × IsStuck web (handle_index texts s).1
unfolding lookup
failure-IsStuck_example =
    failure-IsStuck texts (codes "tank") web 3_500_000_000 3_600_000_000 no_hosts (ground arith)
      (omega arith) (omega arith) tt

-- The names as they are made.
abbrev name : Str → Str
name s = codes "zackup_" ++ s

collect_lem_example :
    ((s : State)
      → collect name exporter s s
        ≡ (samples_of name exporter (export s) ++ (version_sample name ∷ []), true))
    × ((s s' : State)
        → ((collect name exporter s s').1 ≡ true) ↔ (length (export s') ≤ length (export s)))
    × ((s s' : State) → All (IsDescribed name exporter) (collect name exporter s s').0)
collect_lem_example = collect_lem name exporter
