-- ===== src/App/State/Lifecycle.antt =====
-- A run of a host, as the state records it: its start, and its success or failure.
use zackup.Base.{
  ◌≤◌, Option, none, some, Str, str_eq, str_eq_refl, ◌≡◌, ◌≢◌, refl, arith, if◌then◌else◌,
}
use zackup.Base.Dict.{lookup, lookup-insert}
use zackup.Base.Time.{Time, zero_time}
use zackup.App.Metrics.{Metrics, MetricStatus, running, status}
use zackup.App.Metrics
use zackup.App.Metrics.Status.{IsBefore}
use zackup.App.State.{State, start_metrics, start, success, failure, elapsed}

-- The results of the earlier runs of a host, if there is one, are older than the time.
abbrev pub PastBefore : Option Metrics → Time → Type 0
PastBefore none t = Unit
PastBefore (some m) t = IsBefore m.succeeded_at t × IsBefore m.failed_at t

-- The state holds these metrics of the host, and of the others what it held before.
abbrev pub Updates : Str → Metrics → State → State → Type 0
Updates host m s s' =
    (other : Str)
    → lookup other s'.hosts ≡ (if str_eq host other then some m else lookup other s.hosts)

start_metrics-running :
    (t : Time) (o : Option Metrics)
    → t ≢ zero_time
    → PastBefore o t
    → status (start_metrics t o) ≡ running
unfolding status
start_metrics-running t none n _ = ground arith
start_metrics-running t (some m) n h = ground arith

-- After `start` at a time after the earlier results the host is running since then, also if it was
-- unknown, and the other hosts are as before.
pub start-running :
    (root_dataset host : Str) (t : Time) (s : State)
    → t ≢ zero_time
    → PastBefore (lookup host s.hosts) t
    → (m : Metrics) × Updates host m s (start root_dataset host t s).0
      × (status m ≡ running)
      × (m.started_at ≡ t)
unfolding start
start-running root_dataset host t s n past = (
  start_metrics t (lookup host s.hosts),
  λ other. lookup-insert host other _ s.hosts,
  start_metrics-running t (lookup host s.hosts) n past,
  since (lookup host s.hosts),
)
  where
    since : (o : Option Metrics) → (start_metrics t o).started_at ≡ t
    since none = refl
    since (some m) = refl

-- A success that is recorded after the start, and after the last failure if there is one, makes the
-- host a success since then; nothing else of the host changes but the duration, and the other hosts
-- are as before.
pub success-success :
    (root_dataset host : Str) (t : Time) (s : State) {m : Metrics}
    → lookup host s.hosts ≡ some m
    → m.started_at ≢ zero_time
    → m.started_at ≤ t
    → IsBefore m.failed_at t
    → let m' = record m { succeeded_at = some t; success_duration = elapsed t m } in
      Updates host m' s (success root_dataset host t s).0 × (status m' ≡ Metrics.success)
unfolding success status
success-success root_dataset host t s {m} e n le past =
    (λ other. rw (e, success) (lookup-insert host other _ s.hosts), ground arith)

-- A failure that is recorded after the start, and after the last success if there is one, makes the
-- host failed since then; nothing else of the host changes but the duration, and the other hosts
-- are as before.
pub failure-failed :
    (root_dataset host : Str) (t : Time) (s : State) {m : Metrics}
    → lookup host s.hosts ≡ some m
    → m.started_at ≢ zero_time
    → m.started_at ≤ t
    → IsBefore m.succeeded_at t
    → let m' = record m { failed_at = some t; failure_duration = elapsed t m } in
      Updates host m' s (failure root_dataset host t s).0 × (status m' ≡ Metrics.failed)
unfolding failure status
failure-failed root_dataset host t s {m} e n le past =
    (λ other. rw (e, failure) (lookup-insert host other _ s.hosts), ground arith)

abbrev pub IsStarted : Metrics → Time → Type 0
IsStarted m t = (m.started_at ≡ t) × IsBefore m.succeeded_at t × IsBefore m.failed_at t

pub start_metrics-IsStarted :
    (t : Time) (o : Option Metrics) → PastBefore o t → IsStarted (start_metrics t o) t
start_metrics-IsStarted t none _ = (refl, tt, tt)
start_metrics-IsStarted t (some m) h = (refl, h.0, h.1)

pub IsBefore-le : (o : Option Time) (t u : Time) → t ≤ u → IsBefore o t → IsBefore o u
IsBefore-le none t u le _ = tt
IsBefore-le (some r) t u le h = omega arith

pub lookup-start :
    (root_dataset host : Str) (t : Time) (s : State)
    → lookup host (start root_dataset host t s).0.hosts
      ≡ some (start_metrics t (lookup host s.hosts))
unfolding start
lookup-start root_dataset host t s = rw lookup-insert (rw (str_eq_refl host))

Updates-trans :
    (host : Str) (m₁ m₂ : Metrics) (s s₁ s₂ : State)
    → Updates host m₁ s s₁
    → Updates host m₂ s₁ s₂
    → Updates host m₂ s s₂
Updates-trans host m₁ m₂ s s₁ s₂ h k other = ground (arith, h other, k other)

-- A whole run that starts after the earlier results and ends no earlier than it starts: if it
-- succeeds, the host is a success of that start and that end, and if it fails, it is failed; the
-- other hosts are as before.
pub run_lem :
    (root_dataset host : Str) (t u : Time) (s : State)
    → t ≢ zero_time
    → t ≤ u
    → PastBefore (lookup host s.hosts) t
    → let s' = (start root_dataset host t s).0 in
      ((m : Metrics) × Updates host m s (success root_dataset host u s').0
        × (status m ≡ Metrics.success)
        × (m.started_at ≡ t)
        × (m.succeeded_at ≡ some u))
      × ((m : Metrics) × Updates host m s (failure root_dataset host u s').0
          × (status m ≡ Metrics.failed)
          × (m.started_at ≡ t)
          × (m.failed_at ≡ some u))
run_lem root_dataset host t u s n le past =
    let s' = (start root_dataset host t s).0 in
    let m₀ = start_metrics t (lookup host s.hosts) in
    let (started, succ_past, fail_past) = start_metrics-IsStarted t (lookup host s.hosts) past in
    let found = lookup-start root_dataset host t s in
    let n' : m₀.started_at ≢ zero_time = rw started n in
    let le' : m₀.started_at ≤ u = rw started le in
    let opened : Updates host m₀ s s' =
      unfold start in λ other. lookup-insert host other _ s.hosts in
    let (up₁, ok₁) =
      success-success root_dataset host u s' found n' le'
        (IsBefore-le m₀.failed_at t u le fail_past) in
    let (up₂, ok₂) =
      failure-failed root_dataset host u s' found n' le'
        (IsBefore-le m₀.succeeded_at t u le succ_past) in
    (
      (_, Updates-trans host m₀ _ s s' _ opened up₁, ok₁, started, refl),
      (_, Updates-trans host m₀ _ s s' _ opened up₂, ok₂, started, refl),
    )
