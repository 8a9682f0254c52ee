-- ===== src/Config/Service.antt =====
-- config/service.go: the service configuration and the schedule.
pub mod Format
pub mod Next
use zackup.Base.{
  ℕ, ◌+◌, ◌-◌, ◌*◌, ◌/◌, ◌%◌, Bool, true, false, ◌&&◌, ◌||◌, Option, none, some, List, [], ◌∷◌,
  ◌++◌, Str, codes, ltb, leb, ◌==◌, split, if◌then◌else◌,
}
use zackup.Base.Decimal.{parse_int, show_two}
use zackup.Base.Int.{ℤ, pos, negsuc, quot, pos_part, is_positive}
use zackup.Base.Result.{Result, ok, err, ◌>>=◌}
use zackup.Base.Time.{Time, Duration, second}

-- The hour, minute and second: `int`s, which `UnmarshalYAML` keeps from being negative.
pub record Schedule : Type 0 where
  pub h : ℕ
  pub m : ℕ
  pub s : ℕ

pub record ServiceConfig : Type 0 where
  pub parallel : ℕ
  pub root_dataset : Str
  pub mount_base : Str
  pub log_level : Str
  pub rsync_path : Str
  pub ssh_path : Str
  pub schedule : Schedule
  pub jitter : Duration

-- `&ServiceConfig{}`
abbrev pub zero_service : ServiceConfig
zero_service = record {
  parallel = 0;
  root_dataset = [];
  mount_base = [];
  log_level = [];
  rsync_path = [];
  ssh_path = [];
  schedule = record { h = 0; m = 0; s = 0 };
  jitter = pos 0;
}

pub data ScheduleError : Type 0 where
  unmarshal_failed invalid_format invalid_number out_of_range : ScheduleError

-- The rounds of the loop: a number at each position, with its bounds.
unfoldable pub parse_field : ℕ → Str → Result ScheduleError ℕ
parse_field max text = elim (parse_int text) [
  | none ↦ err invalid_number
  | some (negsuc n) ↦ err out_of_range
  | some (pos n) ↦ if ltb max n then err out_of_range else ok n
]

-- `strings.SplitN(s, ":", 4)` has three parts exactly when `strings.Split(s, ":")` has.
unfoldable pub parse_fields : List Str → Result ScheduleError Schedule
parse_fields (h ∷ m ∷ s ∷ []) = parse_field 23 h >>= λ h'.
    parse_field 59 m >>= λ m'. parse_field 59 s >>= λ s'. ok (record { h = h'; m = m'; s = s' })
parse_fields _ = err invalid_format

-- `(*schedule).UnmarshalYAML`, with what `unmarshal(&s)` gives
unfoldable pub unmarshal_schedule : Result ScheduleError Str → Result ScheduleError Schedule
unmarshal_schedule text = text >>= λ s. parse_fields (split b':' s)

-- `(*schedule).String`
unfoldable pub schedule_string : Schedule → Str
schedule_string sc = show_two sc.h ++ (codes ":" ++ (show_two sc.m ++ (codes ":" ++ show_two sc.s)))

-- `t.Date()` in UTC, as the number of the day, and `t.Clock()`. The zero time is the midnight that
-- begins day 106751991167301, and the days have 86400 seconds.
abbrev pub midnight_offset : ℕ
midnight_offset = 30_592

abbrev pub day : Time → ℕ
day t = (t / second + midnight_offset) / 86_400

abbrev pub clock : Time → ℕ
clock t = (t / second + midnight_offset) % 86_400

-- `time.Date(y, mon, d, h, m, s, 0, time.UTC)`, with the number of the day for the date
abbrev pub date : ℕ → Schedule → Time
date d sc = (d * 86_400 + (sc.h * 3_600 + sc.m * 60 + sc.s) - midnight_offset) * second

-- `(*schedule).Next`. The test is the source's; `h`, `m` and `s` are the parts of the clock.
unfoldable pub next : Schedule → Time → Time
next sc t =
    let h = clock t / 3_600 in
    let m = clock t / 60 % 60 in
    let s = clock t % 60 in
    let later =
      ltb sc.h h || (h == sc.h && ltb sc.m m || (h == sc.h && (m == sc.m && leb sc.s s))) in
    date (if later then day t + 1 else day t) sc

-- `rand.Int63n(jit) - jit/2`, truncated to 100 ms, is added to the time. `rnd` is what
-- `rand.Int63n` gives.
abbrev pub tenth : ℕ
tenth = 100_000_000

abbrev pub shift : Time → ℕ → ℕ → Time
shift t jit rnd =
    if leb (jit / 2) rnd
    then t + (rnd - jit / 2) / tenth * tenth
    else t - (jit / 2 - rnd) / tenth * tenth

-- `(*ServiceConfig).NextSchedule`
unfoldable pub next_schedule : ServiceConfig → ℕ → Time → Time
next_schedule svc rnd ref =
    let utc = ref + pos_part svc.jitter / 2 in
    let at = next svc.schedule utc in
    if is_positive svc.jitter then shift at (pos_part svc.jitter) rnd else at
