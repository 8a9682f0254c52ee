-- ===== src/Tests/Restarts.antt =====
-- `loadHost` of app/state.go at a concrete output of zfs.
use zackup.Base.{
  ℕ, false, Option, none, some, [], ◌∷◌, Str, codes, str_eq, split, trim_prefix, has_prefix, All,
  ◌≡◌, refl, arith,
}
use zackup.Base.Decimal.{show, show_int, show_onto}
use zackup.Base.Dict.{lookup}
use zackup.Base.FilePath.{join_path, non_empty, clean, clean_onto, push_elem, clean_elems}
use zackup.Base.Int.{pos, quot}
use zackup.Base.Time.{Time, Duration, unix, millisecond, truncate}
use zackup.Config.Script.{byte_len}
use zackup.App.Metrics.{zero_metrics, failed, status}
use zackup.App.State.{State, Command, dataset_name}
use zackup.App.State.Load.{load_host}
use zackup.App.State.Load.Output.{zfs_output, IsPrinted, decode_all, Replaces}
use zackup.App.State.Restart.{load_host-stored}
use zackup.App.State.Stored.{Used, used_entries, printed_entries, recorded}

abbrev no_float : Str → Option ℕ
no_float s = none

abbrev tank : Str
tank = codes "tank"

abbrev web : Str
web = codes "web"

-- A thousand seconds after January 1, 1970, and five seconds later.
abbrev begun : Time
begun = 9_223_372_098_990_373_608_250_000_000

abbrev ended : Time
ended = 9_223_372_098_990_373_613_500_000_000

abbrev took : Duration
took = pos 5_250_000_000

abbrev no_results : State
no_results = record { hosts = (web, zero_metrics) ∷ [] }

abbrev used : Used
used = record {
  by_snapshots = codes "0";
  by_dataset = codes "98304";
  by_children = codes "0";
  by_ref_reservation = codes "0";
  ratio = codes "1.00";
}

abbrev zfs : Command → Option Str
zfs command = some (
    zfs_output (dataset_name tank web)
      (printed_entries used false begun ended (truncate took millisecond)))

printed :
    All
      (IsPrinted no_float tank (dataset_name tank web))
      (printed_entries used false begun ended (truncate took millisecond))
unfolding show_int show show_onto unix quot truncate str_eq byte_len dataset_name join_path
    non_empty clean clean_onto push_elem clean_elems split
printed = (
  (refl, refl),
  (
    (refl, refl),
    (
      (refl, refl),
      (
        (refl, refl),
        (
          (refl, refl),
          ((refl, refl), ((refl, refl), ((refl, refl), ((refl, refl), ((refl, refl), tt))))),
        ),
      ),
    ),
  ),
)

load_host-stored_example :
    let r = load_host no_float tank zfs web no_results in
    let m =
      recorded false begun ended
        (truncate took millisecond)
        (decode_all no_float tank (used_entries used) zero_metrics) in
    (r.1 ≡ none) × Replaces no_float tank web m no_results r.0 × (status m ≡ failed)
unfolding lookup str_eq dataset_name join_path non_empty clean clean_onto push_elem clean_elems
    split trim_prefix has_prefix
load_host-stored_example =
    load_host-stored no_float tank zfs web used false begun ended took no_results zero_metrics refl
      refl printed refl (refl, refl) refl (omega arith) (omega arith) (ground arith) (omega arith)
