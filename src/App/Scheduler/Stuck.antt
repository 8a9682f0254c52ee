-- ===== src/App/Scheduler/Stuck.antt =====
-- A host that counts as running, as the scheduler meets it, app/scheduler.go.
use mathlib.Core.Option.{some-injective}
use zackup.Base.{
  ℕ, ◌+◌, Bool, true, false, ◌||◌, some, List, [], ◌∷◌, ◌++◌, Str, str_eq, str_eq_iff, ◌≡◌, sym,
  ◌∙◌, ap, Bool-cases, Option-cases, inl, inr, All, All-append,
}
use zackup.Base.Dict.{lookup, lookup-insert}
use zackup.Base.Time.{Time, is_zero, after}
use zackup.Config.Service.{ServiceConfig}
use zackup.App.Metrics.{Metrics, MetricStatus, running, status}
use zackup.App.State.{State, reschedule}
use zackup.App.Scheduler.{Readings, Call, is_running, ensure_schedule, enqueue_due, visit, run}

-- The host counts as running.
pub record IsStuck (host : Str) (s : State) : Type 0 where
  pub metrics : Metrics
  pub found : lookup host s.hosts ≡ some metrics
  pub runs : status metrics ≡ running

-- No call is for the host.
abbrev pub Absent : Str → List Call → Type 0
Absent host = All (λ c. str_eq c.0 host ≡ false)

not_due :
    (m : Metrics) (t : Time)
    → status m ≡ running
    → is_running (status m) || after m.scheduled_at t ≡ false
    → ⊥
not_due m t h due = absurd (running_due (status m) (after m.scheduled_at t) h due)
  where
    running_due : (r : MetricStatus) (b : Bool) → r ≡ running → is_running r || b ≡ false → ⊥
    running_due r b e = rw e (λ p. absurd (cc))

running_at :
    (h host : Str) (m : Metrics) (s : State)
    → IsStuck host s
    → str_eq h host ≡ true
    → lookup h s.hosts ≡ some m
    → status m ≡ running
running_at h host m s i same found =
    let here : lookup h s.hosts ≡ some i.metrics =
      ap (λ (n : Str). lookup n s.hosts) ((str_eq_iff h host).0 same) ∙ i.found in
    ap (λ (n : Metrics). status n) (some-injective _ _ (sym found ∙ here)) ∙ i.runs

reschedule-IsStuck :
    (h host : Str) (next : Time) (s : State) → IsStuck host s → IsStuck host (reschedule h next s)
unfolding reschedule
reschedule-IsStuck h host next s i = elim (Option-cases (lookup h s.hosts)) [
  | inl missing ↦ rw (missing, reschedule) i
  | inr (m, found) ↦ elim (Bool-cases (str_eq h host)) [
    | inr other ↦
        rw (found, reschedule)
          (record {
            metrics = i.metrics;
            found = lookup-insert h host _ s.hosts ∙ rw other i.found;
            runs = i.runs;
          })
    | inl same ↦
        let m_runs : status m ≡ running = running_at h host m s i same found in
        rw (found, reschedule)
          (record {
            metrics = record m { scheduled_at = next };
            found = lookup-insert h host _ s.hosts ∙ rw same;
            runs = unfold status in m_runs;
          })
  ]
]

module _ (svc : ServiceConfig) where
  -- The other goroutines do not end the run of the host: it counts as running after what they do.
  abbrev pub LeavesRunning : Readings → Str → Type 0
  LeavesRunning env host =
      (k : ℕ) (s : State)
      → IsStuck host s
      → IsStuck host (env.before k s) × IsStuck host (env.blocked k s)

  abbrev Stays : Str → State × List Call → Type 0
  Stays host r = IsStuck host r.0 × Absent host r.1

  enqueue_due-IsStuck :
      (env : Readings) (k : ℕ) (h host : Str) (s : State) (m : Metrics)
      → LeavesRunning env host
      → lookup h s.hosts ≡ some m
      → IsStuck host s
      → Stays host (enqueue_due svc env k h s (some m))
  unfolding enqueue_due
  enqueue_due-IsStuck env k h host s m leaves found i =
      elim (Bool-cases (is_running (status m) || after m.scheduled_at (env.now k))) [
        | inl idle ↦ rw (idle, enqueue_due) (i, tt)
        | inr due ↦ elim (Bool-cases (str_eq h host)) [
          | inr other ↦
              rw (due, enqueue_due)
                (reschedule-IsStuck h host _ (env.blocked k s) (leaves k s i).1, (other, tt))
          | inl same ↦ absurd (not_due m (env.now k) (running_at h host m s i same found) due)
        ]
      ]

  visit-IsStuck :
      (env : Readings) (k : ℕ) (h host : Str) (s : State)
      → LeavesRunning env host
      → IsStuck host s
      → Stays host (visit svc env k h s)
  unfolding visit ensure_schedule
  visit-IsStuck env k h host s leaves i = elim (Option-cases (lookup h s.hosts)) [
    | inl missing ↦ rw (missing, visit) (i, tt)
    | inr (m, found) ↦
        rw (found, visit)
          (at_metrics (ensure_schedule svc env k h m s)
            (elim (Bool-cases (is_zero m.scheduled_at)) [
              | inl unset ↦ rw (unset, ensure_schedule) (reschedule-IsStuck h host _ s i)
              | inr set ↦ rw (set, ensure_schedule) i
            ]))
  ]
    where
      at_metrics :
          (s' : State)
          → IsStuck host s'
          → Stays host (enqueue_due svc env k h s' (lookup h s'.hosts))
      at_metrics s' i' = elim (Option-cases (lookup h s'.hosts)) [
        | inl missing ↦ rw missing (unfold enqueue_due in (i', tt))
        | inr (m, found) ↦ rw found (enqueue_due-IsStuck env k h host s' m leaves found i')
      ]

  run-IsStuck :
      (env : Readings) (k : ℕ) (hosts : List Str) (host : Str) (s : State)
      → LeavesRunning env host
      → IsStuck host s
      → Stays host (run svc env k hosts s)
  unfolding run
  run-IsStuck env k [] host s leaves i = (i, tt)
  run-IsStuck env k (h ∷ hs) host s leaves i = elim (Bool-cases (env.stop k)) [
    | inl stopped ↦ rw (stopped, run) ((leaves k s i).0, tt)
    | inr on ↦
        let (one, none_called) =
          visit-IsStuck env k h host (env.before k s) leaves (leaves k s i).0 in
        let (all, none_later) =
          run-IsStuck env (k + 1) hs host (visit svc env k h (env.before k s)).0 leaves one in
        rw (on, run) (all, All-append (λ c. str_eq c.0 host ≡ false) _ _ none_called none_later)
  ]

  -- One round after the other, each with what it reads and the hosts in the order of that round.
  unfoldable pub rounds : List (Readings × List Str) → State → State × List Call
  rounds [] s = (s, [])
  rounds ((env, hosts) ∷ rs) s =
      let (s₁, calls) = run svc env 0 hosts s in
      let (s₂, rest) = rounds rs s₁ in (s₂, calls ++ rest)

  -- A host that counts as running, as one whose backup was interrupted does, is never enqueued, in
  -- any number of rounds of the scheduler, and it counts as running after them, whatever the other
  -- goroutines do during the rounds as long as they do not end its run. Between the rounds nothing
  -- changes the state.
  pub rounds-IsStuck :
      (rs : List (Readings × List Str)) (host : Str) (s : State)
      → All (λ r. LeavesRunning r.0 host) rs
      → IsStuck host s
      → IsStuck host (rounds rs s).0 × Absent host (rounds rs s).1
  unfolding rounds
  rounds-IsStuck [] host s c i = (i, tt)
  rounds-IsStuck ((env, hosts) ∷ rs) host s (c, cs) i =
      let (one, none_called) = run-IsStuck env 0 hosts host s c i in
      let (all, none_later) = rounds-IsStuck rs host (run svc env 0 hosts s).0 cs one in
      (all, All-append (λ c. str_eq c.0 host ≡ false) _ _ none_called none_later)
