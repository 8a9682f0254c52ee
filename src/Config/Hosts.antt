-- ===== src/Config/Hosts.antt =====
-- config/hosts.go: the jobs of all hosts, read from their files. `filepath.Glob`, and opening a file
-- and decoding it with gopkg.in/yaml.v2 into an empty job, are parameters.
pub mod Matches
use zackup.Base.{ℕ, Option, none, some, List, [], ◌∷◌, Str, codes, trim_suffix}
use zackup.Base.Dict.{Dict, lookup, insert}
use zackup.Base.FilePath.{base, dir}
use zackup.Base.Result.{Result, ok, err}
use zackup.Config.Job.{JobConfig}
use zackup.Config.Script.{ScriptError, FileSystem, read_files}

abbrev pub HostConfigs : Type 0
HostConfigs = Dict JobConfig

pub data HostError : Type 0 where
  bad_pattern open_failed decode_failed : HostError
  duplicate : Str → HostError

unfoldable pub path_to_host_variant_a : Str → Str
path_to_host_variant_a name = base (dir name)

unfoldable pub path_to_host_variant_b : Str → Str
path_to_host_variant_b name = trim_suffix (base name) (codes ".yml")

-- A method gives the map after it, also where it fails.
abbrev pub Outcome : Type 0
Outcome = HostConfigs × Option HostError

abbrev pub and_then : Outcome → (HostConfigs → Outcome) → Outcome
and_then (h, none) f = f h
and_then (h, some e) f = (h, some e)

module _ (decode_job : Str → Result HostError JobConfig) where
  abbrev store_job : Str → HostConfigs → Result HostError JobConfig → Outcome
  store_job host h (err e) = (h, some e)
  store_job host h (ok j) = (insert host (record j { host = host }) h, none)

  abbrev unless_found : Str → Str → HostConfigs → Option JobConfig → Outcome
  unless_found host file h (some j) = (h, some (duplicate host))
  unless_found host file h none = store_job host h (decode_job file)

  -- `(HostConfigs).readHostConfig`
  unfoldable pub read_host_config : Str → Str → HostConfigs → Outcome
  unfolding insert
  read_host_config host file h = unless_found host file h (lookup host h)

  -- The loop of `readGlob`.
  unfoldable pub read_matches : (Str → Str) → List Str → HostConfigs → Outcome
  unfolding read_host_config
  read_matches to_host [] h = (h, none)
  read_matches to_host (m ∷ ms) h =
      and_then (read_host_config (to_host m) m h) (read_matches to_host ms)

  -- `(HostConfigs).readGlob`
  unfoldable pub read_glob :
      (Str → Result HostError (List Str)) → Str → (Str → Str) → HostConfigs → Outcome
  unfolding read_matches
  read_glob glob pattern' to_host h = elim (glob pattern') [
    | err e ↦ (h, some e)
    | ok matches ↦ read_matches to_host matches h
  ]

-- The two calls of `readFiles` for one job, which is changed also where one of them fails.
unfoldable pub read_job_hooks : FileSystem → Str → Str → JobConfig → JobConfig × Option ScriptError
read_job_hooks fs root host job =
    let (pre, error) = read_files fs root host (codes "pre.*.sh") job.pre_script in
    let (post, post_error) = read_files fs root host (codes "post.*.sh") job.post_script in
    elim error [
      | some e ↦ (record job { pre_script = pre }, some e)
      | none ↦ (record job { pre_script = pre; post_script = post }, post_error)
    ]

-- `(HostConfigs).readHooks`, in the order in which the map is walked
unfoldable pub read_hooks : FileSystem → Str → HostConfigs → HostConfigs × Option ScriptError
read_hooks fs root [] = ([], none)
read_hooks fs root ((host, job) ∷ h) =
    let (job', error) = read_job_hooks fs root host job in
    let (h', later) = read_hooks fs root h in
    elim error [ some e ↦ ((host, job') ∷ h, some e) | none ↦ ((host, job') ∷ h', later) ]
