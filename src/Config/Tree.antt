-- ===== src/Config/Tree.antt =====
-- config/tree.go: the configuration tree. Opening a file and decoding it with gopkg.in/yaml.v2 is a
-- parameter, which also gives what the value is where decoding fails.
pub mod Hooks
pub mod Parts
pub mod Reload
pub mod Hosts
pub mod Root
pub mod Shared
use zackup.Base.{
  Bool, true, false, Option, none, some, List, [], ◌∷◌, Str, codes, str_eq, has_prefix, map,
  if◌then◌else◌,
}
use zackup.Base.Dict.{Dict, lookup, keys}
use zackup.Base.FilePath.{join_path}
use zackup.Base.Result.{Result, ok, err}
use zackup.Base.Sort.{sort_strings}
use zackup.Config.Job.{JobConfig, empty_job, merge_values, Arrays, merge_globals, read_job}
use zackup.Config.Service.{ServiceConfig, zero_service}
use zackup.Config.Script.{ScriptError, FileSystem}
use zackup.Config.Hosts.{
  HostConfigs, HostError, bad_pattern, open_failed, decode_failed, path_to_host_variant_a,
  path_to_host_variant_b, read_glob, read_hooks,
}

-- config/tree_linux.go and config/tree_freebsd.go: the file that is built for the system.
pub data Platform : Type 0 where
  linux freebsd : Platform

abbrev pub default_root : Platform → Str
default_root linux = codes "/etc/zackup"
default_root freebsd = codes "/usr/local/etc/zackup"

-- A nil pointer is `none`, and a nil map is empty. The lock is left out.
pub record Tree : Type 0 where
  pub root : Str
  pub service : Option ServiceConfig
  pub global : Option JobConfig
  pub hosts : HostConfigs

-- `os.Open` fails, or the decoder does.
pub data ReadFailure : Type 0 where
  not_opened not_decoded : ReadFailure

pub data TreeError : Type 0 where
  service_failed globals_failed : ReadFailure → TreeError
  hosts_failed : HostError → TreeError
  hooks_failed : ScriptError → TreeError

-- What is read from the disk. The second part of a decoded value says how this failed. `room` is
-- what the decoder leaves behind the script lines of the file, and `walk` the order in which Go walks
-- the map of the hosts.
pub record Disk : Type 0 where
  pub files : FileSystem
  pub decode_service : Str → ServiceConfig × Option ReadFailure
  pub decode_job : Str → JobConfig × Option ReadFailure
  pub room : Str → Arrays
  pub walk : HostConfigs → HostConfigs

-- A method gives the tree after it, also where it fails.
abbrev pub Outcome : Type 0
Outcome = Tree × Option TreeError

infixl 5 ◌then_read◌
abbrev pub ◌then_read◌ : Outcome → (Tree → Outcome) → Outcome
(t, none) then_read f = f t
(t, some e) then_read f = (t, some e)

-- `NewTree`
abbrev pub new_tree : Str → Tree
new_tree root = record { root = root; service = none; global = none; hosts = [] }

-- The path that `decodeYaml` opens.
unfoldable pub yaml_path : Str → Str → Str
yaml_path root name = if has_prefix name (codes "/") then name else join_path (root ∷ name ∷ [])

abbrev pub error_if : Option ReadFailure → (ReadFailure → TreeError) → Option TreeError
error_if (some e) wrap = some (wrap e)
error_if none wrap = none

abbrev pub decoded : JobConfig × Option ReadFailure → Result HostError JobConfig
decoded (j, some not_opened) = err open_failed
decoded (j, some not_decoded) = err decode_failed
decoded (j, none) = ok j

abbrev pub matched : Result ScriptError (List Str) → Result HostError (List Str)
matched (ok names) = ok names
matched (err e) = err bad_pattern

abbrev pub or_hosts_failed : Tree → HostConfigs × Option HostError → Outcome
or_hosts_failed t (h, none) = (record t { hosts = h }, none)
or_hosts_failed t (h, some e) = (record t { hosts = h }, some (hosts_failed e))

abbrev pub or_hooks_failed : Tree → HostConfigs × Option ScriptError → Outcome
or_hooks_failed t (h, none) = (record t { hosts = h }, none)
or_hooks_failed t (h, some e) = (record t { hosts = h }, some (hooks_failed e))

abbrev pub map_jobs : (JobConfig → JobConfig) → HostConfigs → HostConfigs
map_jobs f [] = []
map_jobs f ((host, j) ∷ h) = (host, f j) ∷ map_jobs f h

-- The loop of `reload` that merges the globals, as it changes the arrays of the globals.
unfoldable pub merge_each : Arrays → JobConfig → HostConfigs → Arrays
merge_each arrays g [] = arrays
merge_each arrays g ((host, j) ∷ h) = merge_each (merge_globals arrays j g).1 g h

-- The hosts after the loop, which walks them in an order of its own. The globals are there when it
-- runs.
abbrev pub merge_into :
    Arrays → (HostConfigs → HostConfigs) → Option JobConfig → HostConfigs → HostConfigs
merge_into arrays walk none h = h
merge_into arrays walk (some g) h = map_jobs (read_job (merge_each arrays g (walk h)) g) h

unfoldable pub ensure_root : Platform → Tree → Tree
ensure_root platform t = if str_eq t.root [] then record t { root = default_root platform } else t

module _ (disk : Disk) where
  unfoldable pub read_service : Tree → Outcome
  read_service t =
      let (svc, failed) = disk.decode_service (yaml_path t.root (codes "config.yml")) in
      (record t { service = some svc }, error_if failed service_failed)

  unfoldable pub read_globals : Tree → Outcome
  read_globals t =
      let (job, failed) = disk.decode_job (yaml_path t.root (codes "globals.yml")) in
      (record t { global = some job }, error_if failed globals_failed)

  unfoldable pub read_hosts : Str → (Str → Str) → Tree → Outcome
  read_hosts pattern' to_host t = or_hosts_failed t (
      read_glob (λ file. decoded (disk.decode_job file)) (λ p. matched (disk.files.glob p))
        (join_path (t.root ∷ pattern' ∷ [])) to_host t.hosts)

  unfoldable pub read_tree_hooks : Tree → Outcome
  read_tree_hooks t = or_hooks_failed t (read_hooks disk.files t.root t.hosts)

  -- `(*tree).reload`, from the last part to the first: each goes on where the error is nil.
  unfoldable pub merge_all : Tree → Outcome
  merge_all t =
      let room = disk.room (yaml_path t.root (codes "globals.yml")) in
      (record t { hosts = merge_into room disk.walk t.global t.hosts }, none)

  unfoldable pub reload_hooks : Tree → Outcome
  reload_hooks t = read_tree_hooks t then_read merge_all

  unfoldable pub reload_variant_b : Tree → Outcome
  reload_variant_b t =
      read_hosts (codes "hosts/*.yml") path_to_host_variant_b t then_read reload_hooks

  unfoldable pub reload_hosts : Tree → Outcome
  reload_hosts t =
      read_hosts (codes "hosts/*/config.yml") path_to_host_variant_a (record t { hosts = [] })
      then_read reload_variant_b

  unfoldable pub reload_globals : Tree → Outcome
  reload_globals t = read_globals t then_read reload_hosts

  unfoldable pub reload : Platform → Tree → Outcome
  reload platform t = read_service (ensure_root platform t) then_read reload_globals

  -- `(*tree).SetRoot`
  unfoldable pub set_root : Platform → Str → Tree → Outcome
  set_root platform new_root t =
      if str_eq t.root new_root then (t, none) else reload platform (record t { root = new_root })

-- `(*tree).Hosts`
unfoldable pub hosts : Tree → List Str
hosts t = sort_strings (keys t.hosts)

-- `(*tree).Host`: a copy, made by merging the job into an empty one, which appends nothing to the
-- slices of the job
unfoldable pub host : Str → Tree → Option JobConfig
host name t = elim (lookup name t.hosts) [
  | none ↦ none
  | some job ↦ some (merge_values (empty_job job.host) job)
]

-- `(*tree).Service`, a copy
abbrev pub service : Tree → Option ServiceConfig
service t = t.service
