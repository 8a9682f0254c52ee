-- ===== src/App/Server.antt =====
-- app/server.go: the overview page, app/static/index.html. The texts that `time`, html/template and
-- go-humanize make are parameters.
pub mod Page
pub mod Stuck
use zackup.Base.{
  ℕ, ◌*◌, ◌/◌, Bool, true, false, Option, none, some, List, [], ◌∷◌, ◌++◌, map, Str, codes, ltb,
  if◌then◌else◌,
}
use zackup.Base.Dict.{Dict}
use zackup.Base.Int.{ℤ, pos, pos_part}
use zackup.Base.Time.{Time, Duration, second, millisecond, is_zero, truncate}
use zackup.App.Metrics.{
  Metrics, MetricStatus, unknown, primed, success, failed, running, status, status_string,
  space_used_total,
}
use zackup.App.State.{State, HostMetrics, export}

-- `t.Truncate(time.Second)`, of an instant
abbrev pub truncate_time : Time → Time
truncate_time t = t / second * second

abbrev pub rfc3339 : Str
rfc3339 = codes "2006-01-02T15:04:05Z07:00"

abbrev pub short_layout : Str
short_layout = codes "2006-01-02, 15:04"

-- What an argument of type `interface{}` holds: a value, a pointer, which may be nil, or a value of
-- another type.
pub data Argument (A : Type 0) : Type 0 where
  value : A → Argument A
  pointer : Option A → Argument A
  other : Argument A

-- `tplUnavailable`
abbrev pub unavailable : Str
unavailable = codes "<abbr class=\"text-muted\" title=\"not available\">n/a</abbr>"

-- `tplStatusClass`
unfoldable pub status_class : MetricStatus → Str
status_class failed = codes "table-danger"
status_class success = codes "table-success"
status_class running = codes "table-warning"
status_class primed = []
status_class unknown = []

-- `tplStatusIcon`
unfoldable pub status_icon : MetricStatus → Str
status_icon failed = codes "fas fa-times"
status_icon success = codes "fas fa-check"
status_icon running = codes "fas fa-spinner fa-pulse"
status_icon primed = codes "far fa-clock"
status_icon unknown = codes "fas fa-question"

-- The texts of an instant in a layout, of an instant for people, of a duration, and of a number of
-- bytes.
pub record Texts : Type 0 where
  pub format : Str → Time → Str
  pub humanize : Time → Str
  pub duration_string : Duration → Str
  pub bytes : ℕ → Str

module _ (texts : Texts) where
  -- The element `time`.
  abbrev pub time_tag : Bool → Time → Str
  time_tag true t =
      codes "<time datetime=\""
      ++ (texts.format rfc3339 t
          ++ (codes "\" title=\""
              ++ (texts.format short_layout t
                  ++ (codes "\">" ++ (texts.humanize t ++ codes "</time>")))))
  time_tag false t =
      codes "<time datetime=\""
      ++ (texts.format rfc3339 t
          ++ (codes "\">" ++ (texts.format short_layout t ++ codes "</time>")))

  -- `tplFmtTime`, and what the argument holds after it: the assignment to `*val` goes to a copy of a
  -- value, and to what a pointer points at.
  unfoldable pub fmt_time : Argument Time → Bool → Str × Argument Time
  fmt_time (value t) human = (time_tag human (truncate_time t), value t)
  fmt_time (pointer none) human = (unavailable, pointer none)
  fmt_time (pointer (some t)) human =
      (time_tag human (truncate_time t), pointer (some (truncate_time t)))
  fmt_time other human = (codes "invalid date", other)

  -- `if *val > 10*time.Second { *val = val.Truncate(100 * time.Millisecond) }`
  unfoldable pub rounded : Duration → Duration
  rounded d = if ltb (10 * second) (pos_part d) then truncate d (100 * millisecond) else d

  -- `tplFmtDuration`
  unfoldable pub fmt_duration : Argument Duration → Str × Argument Duration
  unfolding rounded
  fmt_duration (value d) = (texts.duration_string (rounded d), value d)
  fmt_duration (pointer none) = (unavailable, pointer none)
  fmt_duration (pointer (some d)) = (texts.duration_string (rounded d), pointer (some (rounded d)))
  fmt_duration other = (codes "invalid duration", other)

  -- `tplUsageDetails`
  unfoldable pub usage_details : Metrics → Str
  usage_details m =
      codes "dataset: "
      ++ (texts.bytes m.space_used_by_dataset
          ++ (codes ", snapshots: "
              ++ (texts.bytes m.space_used_by_snapshots
                  ++ (codes ", children: "
                      ++ (texts.bytes m.space_used_by_children
                          ++ (codes ", reserved: "
                              ++ texts.bytes m.space_used_by_ref_reservation))))))

  -- A row of the table: what the functions of the template give for the host. A bar and the
  -- compression factor, which are floating-point numbers, are left out.
  pub record Row : Type 0 where
    pub host : Str
    pub class : Str
    pub icon : Str
    pub status_text : Str
    pub started : Str
    pub succeeded : Str
    pub success_duration : Str
    pub failed_text : Str
    pub failure_duration : Str
    pub scheduled : Str
    pub usage : Str
    pub total : Str

  -- The two cells of a result.
  abbrev time_cell : Option Time → Str
  time_cell t = unfold fmt_time in (fmt_time (pointer t) true).0

  abbrev duration_cell : Option Time → Duration → Str
  duration_cell none d = unavailable
  duration_cell (some t) d = unfold fmt_duration in (fmt_duration (value d)).0

  -- `{{ if .StartedAt.IsZero }}`
  unfoldable pub row : HostMetrics → Row
  unfolding status status_class status_icon status_string usage_details space_used_total fmt_time
      fmt_duration
  row e =
      let m = e.metrics in
      let known = λ (s : Str). if is_zero m.started_at then unavailable else s in
      record {
        host = e.host;
        class = status_class (status m);
        icon = status_icon (status m);
        status_text = status_string (status m);
        started = known (fmt_time (value m.started_at) true).0;
        succeeded = known (time_cell m.succeeded_at);
        success_duration = known (duration_cell m.succeeded_at m.success_duration);
        failed_text = known (time_cell m.failed_at);
        failure_duration = known (duration_cell m.failed_at m.failure_duration);
        scheduled = known (fmt_time (value m.scheduled_at) true).0;
        usage = known (usage_details m);
        total = known (texts.bytes (space_used_total m));
      }

  abbrev pub pointed : Argument Time → Option Time → Option Time
  pointed (pointer o) old = o
  pointed (value t) old = old
  pointed other old = old

  -- The metrics of a host after its row: `export` copies the pointers, so what they point at is that
  -- of the state.
  unfoldable pub rendered : Metrics → Metrics
  unfolding fmt_time
  rendered m = if is_zero m.started_at then m else record m {
    succeeded_at = pointed (fmt_time (pointer m.succeeded_at) true).1 m.succeeded_at;
    failed_at = pointed (fmt_time (pointer m.failed_at) true).1 m.failed_at;
  }

  abbrev pub render_all : Dict Metrics → Dict Metrics
  render_all [] = []
  render_all ((host, m) ∷ hosts) = (host, rendered m) ∷ render_all hosts

  -- `handleIndex`: the rows of the page, and the state after it
  unfoldable pub handle_index : State → List Row × State
  unfolding row rendered export
  handle_index s = (map row (export s), record s { hosts = render_all s.hosts })
