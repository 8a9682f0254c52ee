-- ===== src/App/Server/Stuck.antt =====
-- A run that ended within the second in which it started, and the overview page, app/server.go.
use zackup.Base.{
  ◌≤◌, ◌<◌, false, Option, none, some, Str, str_eq_refl, ◌≡◌, ◌≢◌, refl, ◌∙◌, ap, arith,
}
use zackup.Base.Dict.{lookup}
use zackup.Base.Time.{Time, zero_time, is_zero}
use zackup.App.Metrics.{Metrics, MetricStatus, status}
use zackup.App.Metrics
use zackup.App.Metrics.Status.{IsBefore, status_lem}
use zackup.App.State.{State, start, failure, start_metrics, elapsed}
use zackup.App.State.Lifecycle.{
  PastBefore, lookup-start, failure-failed, start_metrics-IsStarted, IsBefore-le,
}
use zackup.App.Scheduler.Stuck.{IsStuck}
use zackup.App.Server.{Texts, handle_index, truncate_time}
use zackup.App.Server.Page.{handle_index_lem, whole_if_started, whole, truncated, of_some}

earlier_result : (o : Option Time) (t : Time) → IsBefore o t → IsBefore (truncated o) t
earlier_result none t _ = tt
earlier_result (some u) t h = ground arith

whole-running :
    (m : Metrics) (u : Time)
    → m.started_at ≢ zero_time
    → IsBefore m.succeeded_at m.started_at
    → m.failed_at ≡ some u
    → truncate_time u < m.started_at
    → status (whole_if_started m) ≡ Metrics.running
whole-running m u n past ended early =
    let started : is_zero m.started_at ≡ false = ground arith in
    let failed_before : IsBefore (truncated m.failed_at) m.started_at = rw ended early in
    rw started (
      (status_lem (whole m)).1.1
        (n, earlier_result m.succeeded_at m.started_at past, failed_before))

-- A run that starts after the earlier results, and that fails within the second in which it
-- started, though not before the start, which is not a whole second: the host is failed; but once
-- the overview page was made, it counts as running.
pub failure-IsStuck :
    (texts : Texts) (root_dataset host : Str) (t u : Time) (s : State)
    → t ≢ zero_time
    → t ≤ u
    → truncate_time u < t
    → PastBefore (lookup host s.hosts) t
    → let s' = (failure root_dataset host u (start root_dataset host t s).0).0 in
      ((m : Metrics) × (lookup host s'.hosts ≡ some m) × (status m ≡ Metrics.failed))
      × IsStuck host (handle_index texts s').1
failure-IsStuck texts root_dataset host t u s n le early past =
    let s₁ = (start root_dataset host t s).0 in
    let m₀ = start_metrics t (lookup host s.hosts) in
    let m₁ = record m₀ { failed_at = some u; failure_duration = elapsed u m₀ } in
    let (started, succ_past, fail_past) = start_metrics-IsStarted t (lookup host s.hosts) past in
    let n' : m₀.started_at ≢ zero_time = rw started n in
    let le' : m₀.started_at ≤ u = rw started le in
    let (updates, is_failed) =
      failure-failed root_dataset host u s₁ (lookup-start root_dataset host t s) n' le'
        (IsBefore-le m₀.succeeded_at t u le succ_past) in
    let found : lookup host (failure root_dataset host u s₁).0.hosts ≡ some m₁ =
      updates host ∙ rw (str_eq_refl host) in
    (
      (m₁, found, is_failed),
      record {
        metrics = whole_if_started m₁;
        found =
            (handle_index_lem texts (failure root_dataset host u s₁).0).0 host
            ∙ ap (of_some whole_if_started) found;
        runs = whole-running m₁ u n' (rw started succ_past) refl (rw started early);
      },
    )
