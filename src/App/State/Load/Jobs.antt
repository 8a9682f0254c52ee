-- ===== src/App/State/Load/Jobs.antt =====
-- The jobs of the hosts after `load`, app/state.go.
use mathlib.Core.Option.{some-injective}
use zackup.Base.{
  ℕ, Bool, true, false, ◌||◌, ltb, Option, none, some, List, [], ◌∷◌, ◌++◌, Str, codes, str_eq,
  str_eq_iff, str_eq_refl, contains, trim_prefix, split, ◌≡◌, refl, sym, ◌∙◌, ap, arith, All,
  Bool-cases, Option-cases, inl, inr,
}
use zackup.Base.Int.{ℤ}
use zackup.Base.Dict.{lookup, insert, lookup-insert, is_some}
use zackup.Base.Time.{Time}
use zackup.Config.Job.{JobConfig}
use zackup.Config.Script.{byte_len, max_scan_token_size, drop_last_empty, drop_cr}
use zackup.App.Metrics.{Metrics}
use zackup.App.Zprops.{
  ZfsProp, used_by_snapshots, used_by_dataset, used_by_children, used_by_ref_reservation,
  compress_ratio, last_start, last_success_date, last_success_duration, last_failure_date,
  last_failure_duration, find_prop, with_uint, with_int, convert, decode,
}
use zackup.App.State.{State, Command, dataset_name}
use zackup.App.State.Jobs.{HasJobs, replaced-HasJobs}
use zackup.App.State.Load.{
  LoadError, columns, metrics_or_zero, store_value, with_decoder, load_columns, load_lines,
  get_args, load_host, ensure_host, set_job, load,
}

with_uint-job :
    (set : ℕ → Metrics) (m : Metrics)
    → ((n : ℕ) → (set n).job ≡ m.job)
    → (o : Option ℕ) → (with_uint set m o).0.job ≡ m.job
with_uint-job set m h none = refl
with_uint-job set m h (some n) = h n

with_int-job :
    (set : ℤ → Metrics) (m : Metrics)
    → ((i : ℤ) → (set i).job ≡ m.job)
    → (o : Option ℤ) → (with_int set m o).0.job ≡ m.job
with_int-job set m h none = refl
with_int-job set m h (some i) = h i

module _ (parse_float : Str → Option ℕ) (root_dataset : Str)
    (tree_host : Str → Option JobConfig) where
  decode-job :
      (p : ZfsProp) (m : Metrics) (value : Str) → (decode parse_float p m value).0.job ≡ m.job
  unfolding decode convert
  decode-job used_by_snapshots m value = with_uint-job _ m (λ n. refl) _
  decode-job used_by_dataset m value = with_uint-job _ m (λ n. refl) _
  decode-job used_by_children m value = with_uint-job _ m (λ n. refl) _
  decode-job used_by_ref_reservation m value = with_uint-job _ m (λ n. refl) _
  decode-job compress_ratio m value = with_uint-job _ m (λ n. refl) _
  decode-job last_start m value = with_int-job _ m (λ n. refl) _
  decode-job last_success_date m value = with_int-job _ m (λ n. refl) _
  decode-job last_success_duration m value = with_int-job _ m (λ n. refl) _
  decode-job last_failure_date m value = with_int-job _ m (λ n. refl) _
  decode-job last_failure_duration m value = with_int-job _ m (λ n. refl) _

  -- The name of the host can be read back from that of its dataset.
  abbrev pub IsNamed : Str → Type 0
  IsNamed host = trim_prefix (dataset_name root_dataset host) (root_dataset ++ codes "/") ≡ host

  with_decoder-HasJobs :
      (known : Str → Bool) (host : Str) (o : Option ZfsProp) (value : Str) (s : State)
      → IsNamed host
      → known host ≡ true
      → HasJobs tree_host known s
      → HasJobs tree_host known
          (with_decoder parse_float root_dataset o (dataset_name root_dataset host) value s)
  unfolding store_value
  with_decoder-HasJobs known host none value s named k v = v
  with_decoder-HasJobs known host (some p) value s named k v =
      elim (Option-cases (lookup host s.hosts)) [
        | inl missing ↦ absurd (ground (arith, v.hosts host, missing, k))
        | inr (m, found) ↦ rw named (
            rw found (
              replaced-HasJobs tree_host known host m (decode parse_float p m value).0 s v found
                (decode-job p m value)))
      ]

  load_columns-HasJobs :
      (known : Str → Bool) (host : Str) (columns : List Str) (s : State)
      → IsNamed host
      → known host ≡ true
      → HasJobs tree_host known s
      → HasJobs tree_host known
          (load_columns parse_float root_dataset (dataset_name root_dataset host) columns s)
  unfolding load_columns
  load_columns-HasJobs known host [] s named k v = v
  load_columns-HasJobs known host (a ∷ []) s named k v = v
  load_columns-HasJobs known host (a ∷ b ∷ []) s named k v = v
  load_columns-HasJobs known host (a ∷ b ∷ c ∷ d ∷ e) s named k v = v
  load_columns-HasJobs known host (name ∷ prop ∷ value ∷ []) s named k v =
      elim (Bool-cases (str_eq name (dataset_name root_dataset host))) [
        | inr other ↦ rw other v
        | inl same ↦ elim (Bool-cases (str_eq value (codes "-"))) [
          | inl no_value ↦ rw (same, no_value) v
          | inr given ↦
              rw (same, given)
                (rw ((str_eq_iff name (dataset_name root_dataset host)).0 same)
                  (with_decoder-HasJobs known host (find_prop prop) value s named k v))
        ]
      ]

  load_lines-HasJobs :
      (known : Str → Bool) (host : Str) (ls : List Str) (s : State)
      → IsNamed host
      → known host ≡ true
      → HasJobs tree_host known s
      → HasJobs tree_host known
          (load_lines parse_float root_dataset (dataset_name root_dataset host) ls s).0
  unfolding load_lines
  load_lines-HasJobs known host [] s named k v = v
  load_lines-HasJobs known host (l ∷ ls) s named k v =
      elim (Bool-cases (ltb (byte_len l) max_scan_token_size)) [
        | inl short ↦ rw short (
            load_lines-HasJobs known host ls
              (load_columns parse_float root_dataset (dataset_name root_dataset host)
                (columns (drop_cr l)) s)
              named k (load_columns-HasJobs known host (columns (drop_cr l)) s named k v))
        | inr long ↦ rw long v
      ]

  load_host-HasJobs :
      (known : Str → Bool) (exec_zfs : Command → Option Str) (host : Str) (s : State)
      → IsNamed host
      → known host ≡ true
      → HasJobs tree_host known s
      → HasJobs tree_host known (load_host parse_float root_dataset exec_zfs host s).0
  unfolding load_host
  load_host-HasJobs known exec_zfs host s named k v =
      elim (Option-cases
        (exec_zfs (get_args parse_float root_dataset (dataset_name root_dataset host)))) [
          | inl failed ↦ rw (failed, load_host) v
          | inr (output, printed) ↦
              rw (printed, load_host)
                (load_lines-HasJobs known host (drop_last_empty (split 10 output)) s named k v)
        ]

  -- Metrics with the job of the host are put in, and the other hosts stay.
  inserted-HasJobs :
      (known : Str → Bool) (host : Str) (m : Metrics) (s s₁ : State)
      → ((other : Str) → str_eq host other ≡ false → lookup other s₁.hosts ≡ lookup other s.hosts)
      → m.job ≡ tree_host host
      → HasJobs tree_host known s
      → HasJobs tree_host
          (λ other. str_eq host other || known other)
          (record s₁ { hosts = insert host m s₁.hosts })
  inserted-HasJobs known host m s s₁ kept job v = record {
    jobs = λ other n p. elim (Bool-cases (str_eq host other)) [
      | inl e ↦
          let here : some m ≡ some n = sym (rw e at (lookup-insert host other m s₁.hosts)) ∙ p in
          ap (λ (k : Metrics). k.job) (sym (some-injective _ _ here))
          ∙ job
          ∙ ap tree_host ((str_eq_iff host other).0 e)
      | inr e ↦
          v.jobs other n
            (sym (kept other e) ∙ sym (rw e at (lookup-insert host other m s₁.hosts)) ∙ p)
    ];
    hosts = λ other. elim (Bool-cases (str_eq host other)) [
      | inl e ↦ ap is_some (lookup-insert host other m s₁.hosts) ∙ rw e
      | inr e ↦
          ap is_some (lookup-insert host other m s₁.hosts)
          ∙ rw e (ap is_some (kept other e) ∙ v.hosts other)
    ];
  }

  ensured :
      (host : Str) (next : Time) (o : Option Metrics) (s : State) (other : Str)
      → str_eq host other ≡ false
      → lookup other (ensure_host parse_float root_dataset host next o s).hosts
        ≡ lookup other s.hosts
  ensured host next none s other e = lookup-insert host other _ s.hosts ∙ rw e
  ensured host next (some m) s other e = refl

  set_job-HasJobs :
      (known : Str → Bool) (host : Str) (next : Time) (s : State) {job : JobConfig}
      → tree_host host ≡ some job
      → HasJobs tree_host known s
      → HasJobs tree_host
          (λ other. str_eq host other || known other)
          (set_job parse_float root_dataset host
            (tree_host host)
            (ensure_host parse_float root_dataset host next (lookup host s.hosts) s))
  set_job-HasJobs known host next s {job} given v = rw given (
      inserted-HasJobs known host
        (record (metrics_or_zero (
          lookup host
            (ensure_host parse_float root_dataset host next (lookup host s.hosts) s).hosts)) {
              job = some job;
            })
        s (ensure_host parse_float root_dataset host next (lookup host s.hosts) s)
        (λ other e. ensured host next (lookup host s.hosts) s other e) (sym given) v)

  no_error : {e : LoadError} → some e ≡ none → ⊥
  no_error h = absurd (cc)

  pub load-HasJobs :
      (next_schedule : Str → Time) (exec_zfs : Command → Option Str) (hosts : List Str)
      (known : Str → Bool) (s : State)
      → All IsNamed hosts
      → All (λ host. is_some (tree_host host) ≡ true) hosts
      → HasJobs tree_host known s
      → (load parse_float root_dataset next_schedule tree_host exec_zfs hosts s).1 ≡ none
      → HasJobs tree_host
          (λ host. contains hosts host || known host)
          (load parse_float root_dataset next_schedule tree_host exec_zfs hosts s).0
  unfolding load contains
  load-HasJobs next_schedule exec_zfs [] known s named given v p = v
  load-HasJobs next_schedule exec_zfs (host ∷ hosts) known s (n, named) (g, given) v p =
      elim (Option-cases (tree_host host)) [
        | inl missing ↦ absurd (ground (arith, g, missing))
        | inr (job, found) ↦
            let s₁ = set_job parse_float root_dataset host (tree_host host) (
              ensure_host parse_float root_dataset host (next_schedule host) (lookup host s.hosts)
                s) in
            let with_job = set_job-HasJobs known host (next_schedule host) s found v in
            let loaded =
              load_host-HasJobs (λ other. str_eq host other || known other) exec_zfs host s₁ n
                (ground (arith, str_eq_refl host)) with_job in
            elim (Option-cases (load_host parse_float root_dataset exec_zfs host s₁).1) [
              | inr (e, failed) ↦ absurd (no_error (rw (failed, load) at p))
              | inl fine ↦
                  let rest =
                    load-HasJobs next_schedule exec_zfs hosts
                      (λ other. str_eq host other || known other)
                      (load_host parse_float root_dataset exec_zfs host s₁).0 named given loaded
                      (rw (fine, load) at p) in
                  rw (fine, load)
                    (record { jobs = rest.jobs; hosts = λ other. rest.hosts other ∙ ground arith })
            ]
      ]
