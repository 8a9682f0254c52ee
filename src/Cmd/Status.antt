-- ===== src/Cmd/Status.antt =====
-- cmd/status.go: the lines that the command status prints. The texts of instants, durations, numbers
-- of bytes and floating-point numbers, and the dumps of github.com/k0kubun/pp, are parameters.
pub mod Aligned
use zackup.Base.{
  ℕ, zero, suc, ◌-◌, Bool, true, false, ◌||◌, ltb, Option, none, some, List, [], ◌∷◌, ◌++◌, Str,
  codes, str_eq, contains, length, replicate, if◌then◌else◌,
}
use zackup.Base.Int.{is_positive}
use zackup.Base.Time.{Time, Duration, millisecond, truncate}
use zackup.Config.Job.{JobConfig}
use zackup.Config.Script.{byte_len}
use zackup.Config.Tree.{Tree, host}
use zackup.App.Metrics.{
  Metrics, MetricStatus, unknown, primed, success, failed, running, status, status_string,
  space_used_total,
}
use zackup.App.State.{State, HostMetrics, export}
use zackup.App.Server.{truncate_time, rfc3339}

pub record Printer : Type 0 where
  pub format : Str → Time → Str
  pub duration_string : Duration → Str
  pub bytes : ℕ → Str
  pub two_digits : ℕ → Str  -- `%0.2f`
  pub job : Option JobConfig → Str
  pub tree : Tree → Str

-- `fmt`'s verb `%-*s`: spaces on the right, up to a width in code points
unfoldable pub pad_right : ℕ → Str → Str
pad_right n s = s ++ replicate (n - length s) b' '

abbrev pub color_of : MetricStatus → Str
color_of unknown = codes "1;30"
color_of primed = codes "0;36"
color_of success = codes "1;32"
color_of failed = codes "1;31"
color_of running = codes "0;34"

-- `colorize`; 27 is the escape character.
unfoldable pub colorize : MetricStatus → Str
unfolding status_string
colorize s =
    (27 ∷ codes "[")
    ++ (color_of s ++ (codes "m" ++ (status_string s ++ ((27 ∷ []) ++ codes "[0m"))))

-- `statusTime`
unfoldable pub status_time : Printer → Option Time → Str
status_time printer none = codes "-"
status_time printer (some t) = printer.format rfc3339 (truncate_time t)

-- `statusDur`
unfoldable pub status_dur : Printer → Duration → Str
status_dur printer d =
    if is_positive d then printer.duration_string (truncate d millisecond) else codes "-"

-- A line with its first column, and what is printed if a test holds.
abbrev pub line : Str → Str → Str
line column text = column ++ (codes "  " ++ text)

abbrev pub when : Bool → Str → List Str
when true l = l ∷ []
when false l = []

abbrev pub is_one_of : MetricStatus → MetricStatus → Bool
is_one_of unknown s = true
is_one_of primed s = false
is_one_of success success = true
is_one_of success _ = false
is_one_of failed failed = true
is_one_of failed _ = false
is_one_of running running = true
is_one_of running _ = false

abbrev pub is_primed : MetricStatus → Bool
is_primed primed = true
is_primed _ = false

module _ (printer : Printer) where
  abbrev pub result_text : Str → Option Time → Duration → Str
  result_text label t d =
      label ++ (status_time printer t ++ (codes " (took " ++ (status_dur printer d ++ codes ")")))

  abbrev pub space_text : Metrics → Str
  space_text m =
      codes "space used        "
      ++ (printer.bytes (space_used_total m)
          ++ (codes " ("
              ++ (printer.bytes m.space_used_by_snapshots
                  ++ (codes " snapshots, "
                      ++ (printer.bytes m.space_used_by_dataset
                          ++ (codes " dataset, "
                              ++ (printer.bytes m.space_used_by_children
                                  ++ (codes " children, "
                                      ++ (printer.bytes m.space_used_by_ref_reservation
                                          ++ codes " refreservation)")))))))))

  -- The lines after the first, where the host is not primed; `is_one_of s` is the test of `s` for
  -- unknown or the status.
  abbrev pub known_lines : Str → Metrics → MetricStatus → List Str
  known_lines ws m s =
      when (is_one_of s running)
        (line ws (codes "started           " ++ status_time printer (some m.started_at)))
      ++ (when (is_one_of s success)
            (line ws (result_text (codes "succeeded at      ") m.succeeded_at m.success_duration))
          ++ (when (is_one_of s failed)
                (line ws (result_text (codes "failed at         ") m.failed_at m.failure_duration))
              ++ (line ws (space_text m)
                  ∷ line ws (
                      codes "compression       "
                      ++ (printer.two_digits m.compression_factor ++ codes "x"))
                  ∷ [])))

  -- What is printed of one host, before the dump of its job.
  unfoldable pub host_lines : ℕ → HostMetrics → List Str
  unfolding status status_time status_dur space_used_total colorize pad_right
  host_lines longest e =
      let s = status e.metrics in
      line (pad_right longest e.host) (codes "status            " ++ colorize s)
      ∷ (if is_primed s then [] else known_lines (replicate longest b' ') e.metrics s)

-- `wantAll || wantOnly[host.Host]`
abbrev pub is_wanted : List Str → HostMetrics → Bool
is_wanted [] e = true
is_wanted (a ∷ args) e = contains (a ∷ args) e.host

-- `continue` for the hosts that are not wanted
unfoldable pub wanted : List Str → List HostMetrics → List HostMetrics
wanted args [] = []
wanted args (e ∷ es) = let rest = wanted args es in if is_wanted args e then e ∷ rest else rest

abbrev pub max : ℕ → ℕ → ℕ
max a b = if ltb a b then b else a

-- The first loop: the length in bytes of the longest name
unfoldable pub longest_of : ℕ → List HostMetrics → ℕ
longest_of n [] = n
longest_of n (e ∷ es) = longest_of (max n (byte_len e.host)) es

unfoldable pub blocks : Printer → (Str → Str) → Bool → ℕ → List HostMetrics → List Str
unfolding host_lines
blocks printer dump verbose longest [] = []
blocks printer dump verbose longest (e ∷ es) =
    host_lines printer longest e
    ++ ((if verbose then dump e.host ∷ [] else []) ++ blocks printer dump verbose longest es)

-- `statusCmd`
unfoldable pub status_lines : Printer → ℕ → List Str → Tree → State → List Str
unfolding wanted longest_of blocks export
status_lines printer verbosity args t s =
    let es = wanted args (export s) in
    if ltb 2 verbosity
    then printer.tree t ∷ []
    else blocks printer (λ name. printer.job (host name t)) (ltb 0 verbosity) (longest_of 0 es) es
