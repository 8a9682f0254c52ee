-- ===== src/App/State/Load.antt =====
-- app/state.go: `load`, which restores the state from the tree and from ZFS.
pub mod Jobs
pub mod Words
pub mod Output
use zackup.Base.{
  ℕ, not, Option, none, some, List, [], ◌∷◌, ◌++◌, Str, codes, str_eq, split, ltb, if◌then◌else◌,
  trim_prefix,
}
use zackup.Base.Dict.{lookup, insert}
use zackup.Base.Time.{Time}
use zackup.Config.Job.{JobConfig}
use zackup.Config.Script.{byte_len, max_scan_token_size, drop_last_empty, drop_cr}
use zackup.App.Metrics.{Metrics, zero_metrics}
use zackup.App.Zprops.{ZfsProp, zackup_props, find_prop, decode}
use zackup.App.State.{State, Command, dataset_name}

-- `scan.Err()`: a line that is too long.
pub data LoadError : Type 0 where
  token_too_long : LoadError

-- `strings.FieldsFunc(line, isTab)`: the pieces between tabs that are not empty.
unfoldable pub non_empty : List Str → List Str
non_empty [] = []
non_empty ([] ∷ ws) = non_empty ws
non_empty ((c ∷ w) ∷ ws) = (c ∷ w) ∷ non_empty ws

unfoldable pub columns : Str → List Str
unfolding non_empty split
columns line = non_empty (split 9 line)

abbrev metrics_or_zero : Option Metrics → Metrics
metrics_or_zero none = zero_metrics
metrics_or_zero (some m) = m

module _ (parse_float : Str → Option ℕ) (root_dataset : Str) where
  -- `decoder(met, value)` on the metrics of the host that the line is about. The error is logged.
  store_value : ZfsProp → Str → Str → State → State
  unfolding decode trim_prefix
  store_value p dataset value s =
      let host = trim_prefix dataset (root_dataset ++ codes "/") in
      record s {
        hosts =
            insert host (decode parse_float p (metrics_or_zero (lookup host s.hosts)) value).0
              s.hosts;
      }

  -- One line with its columns, after the three `continue`s of the loop.
  abbrev with_decoder : Option ZfsProp → Str → Str → State → State
  with_decoder none dataset value s = s
  with_decoder (some p) dataset value s =
      unfold store_value decode trim_prefix in store_value p dataset value s

  load_columns : Str → List Str → State → State
  unfolding str_eq find_prop store_value
  load_columns dataset (name ∷ prop ∷ value ∷ []) s =
      if not (str_eq name dataset)
      then s
      else if str_eq value (codes "-")
      then s
      else with_decoder (find_prop prop) name value s
  load_columns dataset _ s = s

  -- The loop over the output of `zfs get`, up to a line that is too long for the scanner.
  load_lines : Str → List Str → State → State × Option LoadError
  unfolding load_columns columns byte_len drop_cr
  load_lines dataset [] s = (s, none)
  load_lines dataset (l ∷ ls) s =
      let rest = load_lines dataset ls (load_columns dataset (columns (drop_cr l)) s) in
      if ltb (byte_len l) max_scan_token_size then rest else (s, some token_too_long)

  -- The arguments of the call of `zfs`.
  unfoldable pub get_args : Str → Command
  unfolding zackup_props
  get_args dataset =
      codes "get"
      ∷ codes "-H"
      ∷ codes "-p"
      ∷ codes "-t"
      ∷ codes "filesystem"
      ∷ codes "-s"
      ∷ codes "local,none"
      ∷ codes "-o"
      ∷ codes "name,property,value"
      ∷ zackup_props
      ∷ dataset
      ∷ []

  -- `(*State).loadHost`. `exec_zfs` is the standard output of a call of `zfs` that succeeds.
  unfoldable pub load_host : (Command → Option Str) → Str → State → State × Option LoadError
  unfolding load_lines get_args dataset_name drop_last_empty split
  load_host exec_zfs host s =
      let dataset = dataset_name root_dataset host in
      elim (exec_zfs (get_args dataset)) [
        | none ↦ (s, none)
        | some output ↦ load_lines dataset (drop_last_empty (split 10 output)) s
      ]

  -- `if _, ok := s.hosts[host]; !ok { … }`; `next` is what `NextSchedule(now)` gives.
  abbrev ensure_host : Str → Time → Option Metrics → State → State
  ensure_host host next none s = record s {
    hosts = insert host (record zero_metrics { scheduled_at = next }) s.hosts;
  }
  ensure_host host next (some m) s = s

  abbrev set_job : Str → Option JobConfig → State → State
  set_job host none s = s
  set_job host (some job) s = record s {
    hosts = insert host (record (metrics_or_zero (lookup host s.hosts)) { job = some job }) s.hosts;
  }

  -- `(*State).load`, over `tree.Hosts()`. `next_schedule` gives the next schedule of each host.
  unfoldable pub load :
      (Str → Time)
      → (Str → Option JobConfig)
      → (Command → Option Str)
      → List Str
      → State
      → State × Option LoadError
  unfolding load_host
  load next_schedule tree_host exec_zfs [] s = (s, none)
  load next_schedule tree_host exec_zfs (host ∷ hosts) s =
      let s₁ = ensure_host host (next_schedule host) (lookup host s.hosts) s in
      let (s₂, error) = load_host exec_zfs host (set_job host (tree_host host) s₁) in
      let rest = load next_schedule tree_host exec_zfs hosts s₂ in
      elim error [ none ↦ rest | some e ↦ (s₂, some e) ]
