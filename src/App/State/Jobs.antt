-- ===== src/App/State/Jobs.antt =====
-- The jobs of the hosts in the state, app/state.go.
use mathlib.Core.Option.{some-injective}
use zackup.Base.{
  Bool, true, Option, some, Str, str_eq, str_eq_iff, ◌≡◌, refl, sym, ◌∙◌, ap, arith, Bool-cases,
  Option-cases, inl, inr,
}
use zackup.Base.Dict.{lookup, insert, lookup-insert, is_some}
use zackup.Base.Time.{Time}
use zackup.Config.Job.{JobConfig}
use zackup.App.Metrics.{Metrics}
use zackup.App.State.{State, start_metrics, start, success, failure, reschedule}

-- The metrics of each host have the job that the tree has, and these are the hosts.
pub record HasJobs (tree_host : Str → Option JobConfig) (known : Str → Bool) (s : State)
    : Type 0 where
  pub jobs : (host : Str) (m : Metrics) → lookup host s.hosts ≡ some m → m.job ≡ tree_host host
  pub hosts : (host : Str) → is_some (lookup host s.hosts) ≡ known host

module _ (tree_host : Str → Option JobConfig) where
  -- The metrics of a host that is known are replaced, and the job stays.
  pub replaced-HasJobs :
      (known : Str → Bool) (host : Str) (m m' : Metrics) (s : State)
      → HasJobs tree_host known s
      → lookup host s.hosts ≡ some m
      → m'.job ≡ m.job
      → HasJobs tree_host known (record s { hosts = insert host m' s.hosts })
  replaced-HasJobs known host m m' s v found same = record {
    jobs = λ other n p. elim (Bool-cases (str_eq host other)) [
      | inl e ↦
          let here : some m' ≡ some n = sym (rw e at (lookup-insert host other m' s.hosts)) ∙ p in
          ap (λ (k : Metrics). k.job) (sym (some-injective _ _ here))
          ∙ same
          ∙ v.jobs host m found
          ∙ ap tree_host ((str_eq_iff host other).0 e)
      | inr e ↦ v.jobs other n (sym (rw e at (lookup-insert host other m' s.hosts)) ∙ p)
    ];
    hosts = λ other. elim (Bool-cases (str_eq host other)) [
      | inl e ↦
          ap is_some (lookup-insert host other m' s.hosts)
          ∙ rw e (
              ap is_some (sym found)
              ∙ ap (λ k. is_some (lookup k s.hosts)) ((str_eq_iff host other).0 e)
              ∙ v.hosts other)
      | inr e ↦ ap is_some (lookup-insert host other m' s.hosts) ∙ rw e (v.hosts other)
    ];
  }

  pub reschedule-HasJobs :
      (known : Str → Bool) (host : Str) (next : Time) (s : State)
      → HasJobs tree_host known s
      → HasJobs tree_host known (reschedule host next s)
  unfolding reschedule
  reschedule-HasJobs known host next s v = elim (Option-cases (lookup host s.hosts)) [
    | inl missing ↦ rw (missing, reschedule) v
    | inr (m, found) ↦ rw (found, reschedule) (replaced-HasJobs known host m _ s v found refl)
  ]

  pub start-HasJobs :
      (root_dataset : Str) (known : Str → Bool) (host : Str) (t : Time) (s : State)
      → known host ≡ true
      → HasJobs tree_host known s
      → HasJobs tree_host known (start root_dataset host t s).0
  unfolding start
  start-HasJobs root_dataset known host t s k v = elim (Option-cases (lookup host s.hosts)) [
    | inl missing ↦ absurd (ground (arith, v.hosts host, missing, k))
    | inr (m, found) ↦
        replaced-HasJobs known host m _ s v found
          (ap (λ (o : Option Metrics). (start_metrics t o).job) found)
  ]

  pub success-HasJobs :
      (root_dataset : Str) (known : Str → Bool) (host : Str) (t : Time) (s : State)
      → HasJobs tree_host known s
      → HasJobs tree_host known (success root_dataset host t s).0
  unfolding success
  success-HasJobs root_dataset known host t s v = elim (Option-cases (lookup host s.hosts)) [
    | inl missing ↦ rw (missing, success) v
    | inr (m, found) ↦ rw (found, success) (replaced-HasJobs known host m _ s v found refl)
  ]

  pub failure-HasJobs :
      (root_dataset : Str) (known : Str → Bool) (host : Str) (t : Time) (s : State)
      → HasJobs tree_host known s
      → HasJobs tree_host known (failure root_dataset host t s).0
  unfolding failure
  failure-HasJobs root_dataset known host t s v = elim (Option-cases (lookup host s.hosts)) [
    | inl missing ↦ rw (missing, failure) v
    | inr (m, found) ↦ rw (found, failure) (replaced-HasJobs known host m _ s v found refl)
  ]
