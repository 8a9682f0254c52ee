-- ===== src/App/Scheduler/Visit.antt =====
-- One turn of the loop of the scheduler, app/scheduler.go.
use zackup.Base.{
  ℕ, ◌≤◌, ◌<◌, Bool, true, false, ◌||◌, ◌&&◌, not, some, List, [], ◌∷◌, Str, str_eq, str_eq_iff,
  str_eq_refl, ◌≡◌, refl, sym, ◌∙◌, ap, arith, ◌⊎◌, inl, inr, Bool-cases,
}
use zackup.Base.Dict.{lookup, lookup-insert}
use zackup.Base.Int.{pos_part, is_positive}
use zackup.Base.Time.{Time, is_zero, after}
use zackup.Config.Service.{ServiceConfig, next_schedule}
use zackup.Config.Service.Format.{IsValid}
use zackup.Config.Service.Next.{one_day, next_schedule_bounds}
use zackup.App.Metrics.{Metrics, status}
use zackup.App.State.{State, reschedule}
use zackup.App.State.Lifecycle.{Updates}
use zackup.App.Scheduler.{Readings, Call, is_running, ensure_schedule, enqueue_due, visit}

-- The host does not run, it has a schedule, and its time has come.
unfoldable pub is_due : Metrics → Time → Bool
is_due m t =
    not (is_running (status m)) && (not (is_zero m.scheduled_at) && not (after m.scheduled_at t))

is_due-false :
    (m : Metrics) (t : Time)
    → is_running (status m) || after m.scheduled_at t ≡ true
    → is_due m t ≡ false
unfolding is_due
is_due-false m t h = ground arith

is_due-true :
    (m : Metrics) (t : Time)
    → is_zero m.scheduled_at ≡ false
    → is_running (status m) || after m.scheduled_at t ≡ false
    → is_due m t ≡ true
unfolding is_due
is_due-true m t set h = ground arith

abbrev pub call_if : Bool → Str → Metrics → List Call
call_if true host m = (host, m.job) ∷ []
call_if false host m = []

Updates-same :
    (host : Str) (m : Metrics) (s : State) → lookup host s.hosts ≡ some m → Updates host m s s
Updates-same host m s found other = elim (Bool-cases (str_eq host other)) [
  | inl e ↦ rw e (ap (λ (h : Str). lookup h s.hosts) (sym ((str_eq_iff host other).0 e)) ∙ found)
  | inr e ↦ rw e
]

reschedule-Updates :
    (host : Str) (t : Time) (m : Metrics) (s : State)
    → lookup host s.hosts ≡ some m
    → Updates host (record m { scheduled_at = t }) s (reschedule host t s)
unfolding reschedule
reschedule-Updates host t m s found other =
    rw (found, reschedule) (lookup-insert host other _ s.hosts)

lookup-Updates :
    (host : Str) (m : Metrics) (s s' : State) → Updates host m s s' → lookup host s'.hosts ≡ some m
lookup-Updates host m s s' up = up host ∙ rw (str_eq_refl host)

module _ (svc : ServiceConfig) (env : Readings) where
  -- The schedule and the readings at the `k`-th host are what the program can meet.
  pub record IsReading (k : ℕ) : Type 0 where
    pub schedule : IsValid svc.schedule
    pub now_day : one_day ≤ env.now k
    pub later_day : one_day ≤ env.later k
    pub draw : (is_positive svc.jitter ≡ false) ⊎ (env.rnd k < pos_part svc.jitter)
    pub draw_later : (is_positive svc.jitter ≡ false) ⊎ (env.rnd_later k < pos_part svc.jitter)

  -- No other goroutine changes the state at the `k`-th host.
  abbrev pub IsAlone : ℕ → Type 0
  IsAlone k = (s : State) → (env.before k s ≡ s) × (env.blocked k s ≡ s)

  -- What a turn does.
  pub record Visits (k : ℕ) (host : Str) (m : Metrics) (s : State) (r : State × List Call)
      : Type 0 where
    pub calls : r.1 ≡ call_if (is_due m (env.now k)) host m
    pub after_visit : Metrics
    pub updates : Updates host after_visit s r.0
    pub same_status : status after_visit ≡ status m
    pub moved : (is_due m (env.now k) ≡ false) ⊎ (env.later k < after_visit.scheduled_at)

  enqueue_due-Visits :
      (k : ℕ) (host : Str) (m : Metrics) (s : State)
      → IsReading k
      → IsAlone k
      → lookup host s.hosts ≡ some m
      → is_zero m.scheduled_at ≡ false
      → Visits k host m s (enqueue_due svc env k host s (some m))
  unfolding enqueue_due
  enqueue_due-Visits k host m s c alone found set =
      elim (Bool-cases (is_running (status m) || after m.scheduled_at (env.now k))) [
        | inl e ↦
            rw (e, enqueue_due)
              (record {
                calls = ap (λ (b : Bool). call_if b host m) (sym (is_due-false m (env.now k) e));
                after_visit = m;
                updates = Updates-same host m s found;
                same_status = refl;
                moved = inl (is_due-false m (env.now k) e);
              })
        | inr e ↦
            rw (e, enqueue_due, (alone s).1)
              (record {
                calls = ap (λ (b : Bool). call_if b host m) (sym (is_due-true m (env.now k) set e));
                after_visit = _;
                updates = reschedule-Updates host _ m s found;
                same_status = unfold status in refl;
                moved =
                    inr
                      (next_schedule_bounds svc (env.rnd_later k) (env.later k) c.schedule
                        c.later_day c.draw_later).0;
              })
      ]

  -- A host without a schedule gets one, and is not due yet.
  first_schedule-Visits :
      (k : ℕ) (host : Str) (m : Metrics) (s : State)
      → IsReading k
      → lookup host s.hosts ≡ some m
      → is_zero m.scheduled_at ≡ true
      → let t = next_schedule svc (env.rnd k) (env.now k) in
        Visits k host m s
          (enqueue_due svc env k host (reschedule host t s) (some (record m { scheduled_at = t })))
  unfolding enqueue_due
  first_schedule-Visits k host m s c found unset =
      let t = next_schedule svc (env.rnd k) (env.now k) in
      let up = reschedule-Updates host t m s found in
      let (later, _) =
        next_schedule_bounds svc (env.rnd k) (env.now k) c.schedule c.now_day c.draw in
      let ahead : after t (env.now k) ≡ true = ground arith in
      let not_yet : is_due m (env.now k) ≡ false = unfold is_due in ground arith in
      let stays : is_running (status (record m { scheduled_at = t })) || after t (env.now k)
          ≡ true =
        ground (arith, ahead) in
      rw (stays, enqueue_due)
        (record {
          calls = ap (λ (b : Bool). call_if b host m) (sym not_yet);
          after_visit = record m { scheduled_at = t };
          updates = up;
          same_status = unfold status in refl;
          moved = inl not_yet;
        })

  -- At a host that the state has: `Enqueue` is called, with the job of the host, exactly when the
  -- host does not run, has a schedule, and its time has come; then its next schedule is later than
  -- the second reading of the clock. Its status stays as it was, and the other hosts are as before.
  -- No other goroutine changes the state meanwhile.
  -- The schedule of the service is valid, both readings of the clock are not in the first day of
  -- all, and the random numbers lie below a jitter that is positive.
  pub visit_lem :
      (k : ℕ) (host : Str) (m : Metrics) (s : State)
      → IsReading k
      → IsAlone k
      → lookup host s.hosts ≡ some m
      → Visits k host m s (visit svc env k host s)
  unfolding visit ensure_schedule
  visit_lem k host m s c alone found = elim (Bool-cases (is_zero m.scheduled_at)) [
    | inl unset ↦
        let t = next_schedule svc (env.rnd k) (env.now k) in
        rw (found, visit)
          (rw (unset, ensure_schedule)
            (rw
              (lookup-Updates host (record m { scheduled_at = t }) s _
                (reschedule-Updates host t m s found))
              (first_schedule-Visits k host m s c found unset)))
    | inr set ↦
        rw (found, visit)
          (rw (set, ensure_schedule) (rw found (enqueue_due-Visits k host m s c alone found set)))
  ]
