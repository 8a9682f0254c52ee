-- ===== src/App/Zprops.antt =====
-- app/zprops.go: the ZFS properties that hold the metrics, and their decoders. `strconv.ParseFloat`
-- at 64 bits is the parameter `parse_float`, which gives the bits of the number.
use zackup.Base.{
  ℕ, Option, none, some, List, [], ◌∷◌, ◌++◌, Str, codes, str_eq, trim_suffix, join, if◌then◌else◌,
}
use zackup.Base.Decimal.{parse_uint, parse_int}
use zackup.Base.Int.{ℤ, pos, negsuc, neg}
use zackup.Base.Time.{Duration, from_unix, wrap_int64, millisecond}
use zackup.App.Metrics.{Metrics}
use Prim.Native.Nat.{◌*◌, suc}

pub data ZfsProp : Type 0 where
  used_by_snapshots used_by_dataset used_by_children used_by_ref_reservation compress_ratio :
      ZfsProp
  last_start last_success_date last_success_duration : ZfsProp
  last_failure_date last_failure_duration : ZfsProp

abbrev pub namespace : Str
namespace = codes "de.digineo.zackup:"

-- The constants `propUsedBySnapshots` and so on.
abbrev pub prop_name : ZfsProp → Str
prop_name used_by_snapshots = codes "usedbysnapshots"
prop_name used_by_dataset = codes "usedbydataset"
prop_name used_by_children = codes "usedbychildren"
prop_name used_by_ref_reservation = codes "usedbyrefreservation"
prop_name compress_ratio = codes "compressratio"
prop_name last_start = namespace ++ codes "last_start"
prop_name last_success_date = namespace ++ codes "s_date"
prop_name last_success_duration = namespace ++ codes "s_duration"
prop_name last_failure_date = namespace ++ codes "f_date"
prop_name last_failure_duration = namespace ++ codes "f_duration"

-- The keys of `propDecoder`, in the order of `zackupProps`.
abbrev pub all_props : List ZfsProp
all_props =
    used_by_snapshots ∷ used_by_dataset ∷ used_by_children ∷ used_by_ref_reservation
    ∷ compress_ratio ∷ last_start ∷ last_success_date ∷ last_success_duration ∷ last_failure_date
    ∷ last_failure_duration ∷ []

abbrev names : List ZfsProp → List Str
names [] = []
names (p ∷ ps) = prop_name p ∷ names ps

-- `zackupProps`
unfoldable pub zackup_props : Str
unfolding join
zackup_props = join (codes ",") (names all_props)

-- An error of the package strconv.
pub data ParseError : Type 0 where
  num_error : ParseError

-- `decodeError`; a nil cause is `none`.
pub record DecodeError : Type 0 where
  pub prop : ZfsProp
  pub cause : Option ParseError

find_in : List ZfsProp → Str → Option ZfsProp
find_in [] name = none
find_in (p ∷ ps) name =
    let rest = find_in ps name in if str_eq (prop_name p) name then some p else rest

-- `propDecoder[name]`
unfoldable pub find_prop : Str → Option ZfsProp
unfolding find_in str_eq
find_prop name = find_in all_props name

-- `time.Duration(ival) * time.Millisecond`, in 64-bit arithmetic
abbrev pub scale : ℤ → ℕ → ℤ
scale (pos n) k = pos (n * k)
scale (negsuc n) k = neg (suc n * k)

abbrev pub milliseconds : ℤ → Duration
milliseconds i = wrap_int64 (scale i millisecond)

abbrev pub with_uint : (ℕ → Metrics) → Metrics → Option ℕ → Metrics × Option ParseError
with_uint set m none = (m, some num_error)
with_uint set m (some n) = (set n, none)

abbrev pub with_int : (ℤ → Metrics) → Metrics → Option ℤ → Metrics × Option ParseError
with_int set m none = (m, some num_error)
with_int set m (some i) = (set i, none)

module _ (parse_float : Str → Option ℕ) where
  -- What a decoder stores, and the error of the conversion.
  unfoldable pub convert : ZfsProp → Metrics → Str → Metrics × Option ParseError
  convert used_by_snapshots m value =
      with_uint (λ n. record m { space_used_by_snapshots = n }) m (parse_uint value)
  convert used_by_dataset m value =
      with_uint (λ n. record m { space_used_by_dataset = n }) m (parse_uint value)
  convert used_by_children m value =
      with_uint (λ n. record m { space_used_by_children = n }) m (parse_uint value)
  convert used_by_ref_reservation m value =
      with_uint (λ n. record m { space_used_by_ref_reservation = n }) m (parse_uint value)
  convert compress_ratio m value =
      with_uint (λ n. record m { compression_factor = n }) m
        (parse_float (trim_suffix value (codes "x")))
  convert last_start m value =
      with_int (λ i. record m { started_at = from_unix i }) m (parse_int value)
  convert last_success_date m value =
      with_int (λ i. record m { succeeded_at = some (from_unix i) }) m (parse_int value)
  convert last_success_duration m value =
      with_int (λ i. record m { success_duration = milliseconds i }) m (parse_int value)
  convert last_failure_date m value =
      with_int (λ i. record m { failed_at = some (from_unix i) }) m (parse_int value)
  convert last_failure_duration m value =
      with_int (λ i. record m { failure_duration = milliseconds i }) m (parse_int value)

  -- The functions of `propDecoder`. Each ends in `return &decodeError{prop, err}`, also where `err`
  -- is nil; the error that is returned is `none` where it is nil.
  unfoldable pub decode : ZfsProp → Metrics → Str → Metrics × Option DecodeError
  unfolding convert
  decode p m value =
      let (m', cause) = convert p m value in (m', some (record { prop = p; cause = cause }))
