-- ===== src/App/State/Restart.antt =====
-- What a run leaves after the program was started again, app/state.go.
use mathlib.Core.Path.{subst}
use zackup.Base.{
  ℕ, ◌*◌, ◌≤◌, ◌<◌, Bool, true, false, Option, none, some, ◌++◌, Str, codes, trim_prefix,
  if◌then◌else◌, ◌≡◌, ◌≢◌, ◌∙◌, arith, All,
}
use zackup.Base.Decimal.{two_64, IsInt64}
use zackup.Base.Dict.{lookup}
use zackup.Base.Time.{Time, Duration, second, millisecond, zero_time, truncate}
use zackup.App.Metrics.{Metrics, MetricStatus, status}
use zackup.App.Metrics
use zackup.App.Metrics.Status.{IsBefore, status_lem}
use zackup.App.State.{State, Command, dataset_name}
use zackup.App.State.Persist.{whole}
use zackup.App.State.Load.{get_args, load_host}
use zackup.App.State.Load.Words.{is_word}
use zackup.App.State.Stored.{
  Used, used_entries, printed_entries, recorded, decode_all-stored, used-SameResults,
}
use zackup.App.State.Load.Output.{zfs_output, IsPrinted, decode_all, Replaces, load_host-zfs_output}

module _ (parse_float : Str → Option ℕ) (root_dataset : Str) where
  whole-le : (t u : Time) → t ≤ u → whole t ≤ whole u
  whole-le t u h = ground arith

  recorded-status :
      (b : Bool) (t u : Time) (dur : Duration) (m : Metrics)
      → t ≤ u
      → whole t ≢ zero_time
      → m.succeeded_at ≡ none
      → m.failed_at ≡ none
      → status (recorded b t u dur m) ≡ (if b then Metrics.success else Metrics.failed)
  recorded-status true t u dur m le n s f =
      let past : IsBefore m.failed_at (whole u) = rw f tt in
      (status_lem (recorded true t u dur m)).2.1 (n, (whole-le t u le, past))
  recorded-status false t u dur m le n s f =
      let past : IsBefore m.succeeded_at (whole u) = rw s tt in
      (status_lem (recorded false t u dur m)).3.1 (n, (whole-le t u le, past))

  -- The first run of a host, from `t` to `u`, after which the program is started again and zfs prints
  -- what the run stored, and in front of it the values that zfs has of the space and of the
  -- compression, a line for each property that is asked for, with `-` for those that are not set:
  -- `loadHost` ends without an error, and the host has what the decoders make of the values of zfs, the
  -- start and the result of the run, in whole seconds, its duration as it was recorded, and the status
  -- of the result; the other hosts are as before. The host has metrics without a result, its name can
  -- be read back from that of its dataset, which is a word, the values are printed as words in lines
  -- within the bounds of the scanner, and the times are within the range of 64-bit seconds.
  pub load_host-stored :
      (exec_zfs : Command → Option Str) (host : Str) (v : Used) (b : Bool) (t u : Time)
      (d : Duration) (s : State) (m : Metrics)
      → trim_prefix (dataset_name root_dataset host) (root_dataset ++ codes "/") ≡ host
      → is_word (dataset_name root_dataset host) ≡ true
      → All
          (IsPrinted parse_float root_dataset (dataset_name root_dataset host))
          (printed_entries v b t u (truncate d millisecond))
      → lookup host s.hosts ≡ some m
      → (m.succeeded_at ≡ none) × (m.failed_at ≡ none)
      → exec_zfs (get_args parse_float root_dataset (dataset_name root_dataset host))
        ≡ some (
            zfs_output
              (dataset_name root_dataset host)
              (printed_entries v b t u (truncate d millisecond)))
      → t ≤ u
      → u < two_64 * second
      → whole t ≢ zero_time
      → IsInt64 d
      → let r = load_host parse_float root_dataset exec_zfs host s in
        let used = decode_all parse_float root_dataset (used_entries v) m in
        let m' = recorded b t u (truncate d millisecond) used in
        (r.1 ≡ none)
        × Replaces parse_float root_dataset host m' s r.0
        × (status m' ≡ (if b then Metrics.success else Metrics.failed))
  load_host-stored exec_zfs host v b t u d s m named w printed found (no_s, no_f) output le hu n k =
      let entries = printed_entries v b t u (truncate d millisecond) in
      let used = decode_all parse_float root_dataset (used_entries v) m in
      let (same_s, same_f) = used-SameResults parse_float root_dataset v m in
      let (fine, replaces) =
        load_host-zfs_output parse_float root_dataset exec_zfs host entries s m named w printed
          found output in
      (
        fine,
        subst
            (λ (x : Metrics).
              Replaces parse_float root_dataset host x s
                (load_host parse_float root_dataset exec_zfs host s).0)
            (decode_all-stored parse_float root_dataset b t u d used (omega arith) hu k) replaces,
        recorded-status b t u (truncate d millisecond) used le n (same_s ∙ no_s) (same_f ∙ no_f),
      )
