-- ===== src/Tests/Rounds.antt =====
-- app/scheduler.go at concrete rounds.
use zackup.Base.{ℕ, false, none, List, [], ◌∷◌, Str, codes, str_eq, contains, ◌≡◌, refl, arith, inl}
use zackup.Base.Dict.{lookup}
use zackup.Config.Service.{ServiceConfig, zero_service}
use zackup.App.Metrics.{Metrics, zero_metrics, status}
use zackup.App.State.{State}
use zackup.App.Scheduler.{Readings, run}
use zackup.App.Scheduler.Visit.{is_due, IsReading}
use zackup.App.Scheduler.Round.{run-due_calls}
use zackup.App.Scheduler.Stuck.{IsStuck, Absent, rounds, rounds-IsStuck}

abbrev service : ServiceConfig
service = record zero_service { schedule = record { h = 4; m = 5; s = 6 } }

-- The third day at five o'clock, and one second later.
abbrev readings : Readings
readings = record {
  stop = λ i. false;
  now = λ i. 246_608_000_000_000;
  later = λ i. 246_609_000_000_000;
  rnd = λ i. 0;
  rnd_later = λ i. 0;
  before = λ i s. s;
  blocked = λ i s. s;
}

readings-IsReading : (i : ℕ) → IsReading service readings i
readings-IsReading i = record {
  schedule = record { hour = omega arith; minute = omega arith; second = omega arith };
  now_day = omega arith;
  later_day = omega arith;
  draw = inl refl;
  draw_later = inl refl;
}

-- Due, running, and planned for later.
abbrev due_metrics : Metrics
due_metrics = record zero_metrics { scheduled_at = 246_607_000_000_000 }

abbrev running_metrics : Metrics
running_metrics = record due_metrics { started_at = 20 }

abbrev planned_metrics : Metrics
planned_metrics = record zero_metrics { scheduled_at = 246_610_000_000_000 }

abbrev three_hosts : State
three_hosts = record {
  hosts =
      (codes "a", due_metrics) ∷ (codes "b", running_metrics) ∷ (codes "c", planned_metrics) ∷ [];
}

abbrev host_names : List Str
host_names = codes "c" ∷ codes "a" ∷ codes "b" ∷ []

run-due_calls_example : (run service readings 0 host_names three_hosts).1 ≡ (codes "a", none) ∷ []
unfolding lookup str_eq contains is_due status
run-due_calls_example =
    run-due_calls service readings 0 host_names three_hosts readings-IsReading (λ i s. (refl, refl))
      (λ i. refl) (refl, (refl, (refl, tt)))

rounds-IsStuck_example :
    IsStuck
      (codes "b")
      (rounds service ((readings, host_names) ∷ (readings, host_names) ∷ []) three_hosts).0
    × Absent
        (codes "b")
        (rounds service ((readings, host_names) ∷ (readings, host_names) ∷ []) three_hosts).1
unfolding lookup str_eq status
rounds-IsStuck_example =
    rounds-IsStuck service ((readings, host_names) ∷ (readings, host_names) ∷ []) (codes "b")
      three_hosts ((λ k s i. (i, i)), ((λ k s i. (i, i)), tt))
      (record { metrics = running_metrics; found = refl; runs = refl })
