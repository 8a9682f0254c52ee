-- ===== src/App/State/Persist.antt =====
-- What the ZFS properties keep of a run: the values that `storeStart` and `storeResult` set, read
-- back by the decoders of app/zprops.go.
use zackup.Base.{
  ℕ, ◌*◌, ◌/◌, ◌<◌, true, false, Option, none, some, [], ◌∷◌, ◌++◌, Str, codes, ◌≡◌, refl, arith,
}
use zackup.Base.Decimal.{two_64, IsInt64, show_int, parse_int, parse_int-show_int}
use zackup.Base.Int.{pos, negsuc, quot}
use zackup.Base.Time.{
  Time, Duration, second, millisecond, unix, from_unix-unix, truncate, wrap_int64,
}
use zackup.App.Metrics.{Metrics}
use zackup.App.Zprops.{
  ZfsProp, used_by_snapshots, last_start, last_success_date, last_success_duration,
  last_failure_date, last_failure_duration, prop_name, find_prop, convert, decode, milliseconds,
}
use zackup.App.State.{assignment, dataset_name, store_start, store_result}

unix-IsInt64 : (t : Time) → IsInt64 (unix t)
unfolding unix
unix-IsInt64 t = ground arith

-- Each property is found under its own name.
pub find_prop-prop_name : (p : ZfsProp) → find_prop (prop_name p) ≡ some p
unfolding find_prop
find_prop-prop_name used_by_snapshots = refl
find_prop-prop_name _ = refl

pub quot-IsInt64 : (d : Duration) → IsInt64 d → IsInt64 (quot (truncate d millisecond) millisecond)
unfolding quot truncate
quot-IsInt64 (pos n) h = omega arith
quot-IsInt64 (negsuc n) h = ground arith

pub milliseconds-quot :
    (d : Duration)
    → IsInt64 d
    → milliseconds (quot (truncate d millisecond) millisecond) ≡ truncate d millisecond
unfolding quot truncate wrap_int64
milliseconds-quot (pos n) h = ground arith
milliseconds-quot (negsuc n) h = ground arith

-- The time, without its fraction of a second.
abbrev pub whole : Time → Time
whole t = t / second * second

pub unix-read : (t : Time) → parse_int (show_int (unix t)) ≡ some (unix t)
unix-read t = parse_int-show_int (unix t) (unix-IsInt64 t)

module _ (parse_float : Str → Option ℕ) (root_dataset host : Str) where
  -- The value that `storeStart` sets is read back as the start, without its fraction of a second.
  pub store_start-decode :
      (t : Time) (m : Metrics)
      → t < two_64 * second
      → (value : Str) × (store_start root_dataset host t
          ≡ codes "set"
            ∷ (prop_name last_start ++ (codes "=" ++ value))
            ∷ dataset_name root_dataset host
            ∷ [])
        × ((decode parse_float last_start m value).0 ≡ record m { started_at = whole t })
  unfolding store_start assignment decode convert
  store_start-decode t m h = (show_int (unix t), refl, rw (unix-read t) (rw (from_unix-unix t h)))

  -- The two values that `storeResult` sets are read back as the time of the result, without its
  -- fraction of a second, and as the duration that was measured, exactly.
  pub store_result-decode :
      (t : Time) (d : Duration) (m : Metrics)
      → t < two_64 * second
      → IsInt64 d
      → let dur = truncate d millisecond in
        (date time : Str) × (store_result root_dataset host true t dur
          ≡ codes "set"
            ∷ (prop_name last_success_date ++ (codes "=" ++ date))
            ∷ (prop_name last_success_duration ++ (codes "=" ++ time))
            ∷ dataset_name root_dataset host
            ∷ [])
        × (store_result root_dataset host false t dur
            ≡ codes "set"
              ∷ (prop_name last_failure_date ++ (codes "=" ++ date))
              ∷ (prop_name last_failure_duration ++ (codes "=" ++ time))
              ∷ dataset_name root_dataset host
              ∷ [])
        × ((decode parse_float last_success_duration
              (decode parse_float last_success_date m date).0
              time).0
            ≡ record m { succeeded_at = some (whole t); success_duration = dur })
        × ((decode parse_float last_failure_duration
              (decode parse_float last_failure_date m date).0
              time).0
            ≡ record m { failed_at = some (whole t); failure_duration = dur })
  unfolding store_result assignment decode convert
  store_result-decode t d m h k =
      let read = unix-read t in
      let time_read = parse_int-show_int _ (quot-IsInt64 d k) in
      let same = milliseconds-quot d k in
      let floor = from_unix-unix t h in
      (
        show_int (unix t),
        show_int (quot (truncate d millisecond) millisecond),
        refl,
        refl,
        rw (read, time_read) (rw (floor, same)),
        rw (read, time_read) (rw (floor, same)),
      )

  -- The value that `storeStart` sets decodes without an error of the conversion, and still the
  -- decoder returns an error that is not nil.
  pub decode_error :
      (t : Time) (m : Metrics)
      → (value : Str) × (store_start root_dataset host t
          ≡ codes "set"
            ∷ (prop_name last_start ++ (codes "=" ++ value))
            ∷ dataset_name root_dataset host
            ∷ [])
        × ((convert parse_float last_start m value).1 ≡ none)
        × ((decode parse_float last_start m value).1
            ≡ some (record { prop = last_start; cause = none }))
  unfolding store_start assignment decode convert
  decode_error t m = (show_int (unix t), refl, rw (unix-read t), rw (unix-read t))
