-- ===== src/Cmd/Init.antt =====
-- cmd/root.go: what happens before each command, with `InitializeState` of app/state.go and the
-- global variables of app/app.go. The command line is parsed by a library.
pub mod Ready
pub mod Rounds
use zackup.Base.{
  ℕ, Bool, true, false, ◌==◌, Option, none, some, List, [], ◌∷◌, ◌++◌, Str, codes, str_eq,
  if◌then◌else◌,
}
use zackup.Base.Int.{ℤ, pos}
use zackup.Base.Time.{Time}
use zackup.Config.Service.{ServiceConfig, next_schedule}
use zackup.Config.Tree.{
  Platform, Tree, TreeError, Disk, default_root, new_tree, set_root, hosts, host,
}
use zackup.App.State.{State, Command}
use zackup.App.State.Load.{LoadError, load}
use zackup.Graylog.{Call, level, endpoint}

-- The flags that all commands have; `-v` is counted.
pub record Flags : Type 0 where
  pub root : Str
  pub verbosity : ℕ
  pub gelf : Str

abbrev pub default_flags : Platform → Flags
default_flags platform = record { root = default_root platform; verbosity = 0; gelf = [] }

-- The global variables of app/app.go.
pub record Globals : Type 0 where
  pub root_dataset : Str
  pub mount_base : Str
  pub rsync_path : Str
  pub ssh_path : Str

abbrev pub default_globals : Globals
default_globals = record {
  root_dataset = codes "zroot";
  mount_base = codes "/zpool/zackup";
  rsync_path = codes "rsync";
  ssh_path = codes "ssh";
}

abbrev pub unless_empty : Str → Str → Str
unless_empty s old = if str_eq s [] then old else s

-- What `InitializeState` assigns to them.
abbrev pub configured : ServiceConfig → Globals → Globals
configured svc g = record {
  root_dataset = svc.root_dataset;
  mount_base = svc.mount_base;
  rsync_path = unless_empty svc.rsync_path g.rsync_path;
  ssh_path = unless_empty svc.ssh_path g.ssh_path;
}

-- The root that is read: `ZACKUP_ROOT` counts where the flag is empty.
unfoldable pub root_of : Flags → Str → Str
root_of flags env = if str_eq flags.root [] then unless_empty env flags.root else flags.root

-- The calls of the log middleware before the tree is read, and after it.
unfoldable pub log_calls : Flags → List Call
log_calls flags =
    (if str_eq flags.gelf [] then [] else endpoint flags.gelf ∷ [])
    ++ (if flags.verbosity == 2
        then level (codes "trace") ∷ []
        else if flags.verbosity == 1
        then level (codes "debug") ∷ []
        else [])

unfoldable pub service_log_calls : Flags → ServiceConfig → List Call
service_log_calls flags svc = if flags.verbosity == 0 then level svc.log_level ∷ [] else []

-- `log.Fatalf` ends the program.
pub data Exit : Type 0 where
  ready : Exit
  tree_failed : TreeError → Exit
  state_failed : LoadError → Exit

-- `resize` is the argument of the call of `Resize`; `valid_args` are the hosts that the commands run
-- and status take.
pub record Program : Type 0 where
  pub tree : Tree
  pub calls : List Call
  pub valid_args : List Str
  pub resize : Option ℤ
  pub globals : Globals
  pub state : State
  pub exit : Exit

abbrev pub exit_of : Option LoadError → Exit
exit_of none = ready
exit_of (some e) = state_failed e

abbrev pub empty_state : State
empty_state = record { hosts = [] }

-- What the program reads: the files, the output of `zfs`, the clock, and a random number for each
-- host.
pub record Outside : Type 0 where
  pub disk : Disk
  pub exec_zfs : Command → Option Str
  pub now : Time
  pub rnd : Str → ℕ

module _ (parse_float : Str → Option ℕ) (platform : Platform) (outside : Outside) where
  -- `InitializeState`
  unfoldable pub initialize_state :
      ServiceConfig → Tree → Globals → Globals × (State × Option LoadError)
  unfolding load
  initialize_state svc t g = (
    configured svc g,
    load parse_float svc.root_dataset (λ name. next_schedule svc (outside.rnd name) outside.now)
        (λ name. host name t) outside.exec_zfs (hosts t) empty_state,
  )

  abbrev pub with_service : Flags → Option ServiceConfig → Program → Program
  with_service flags none p = p
  with_service flags (some svc) p =
      let (globals, loaded) = initialize_state svc p.tree p.globals in
      record p {
        calls = p.calls ++ service_log_calls flags svc;
        resize = some (pos svc.parallel);
        globals = globals;
        state = loaded.0;
        exit = exit_of loaded.1;
      }

  abbrev pub with_tree : Flags → Tree × Option TreeError → Program → Program
  with_tree flags (t, some e) p = record p { tree = t; exit = tree_failed e }
  with_tree flags (t, none) p =
      with_service flags t.service (record p { tree = t; valid_args = hosts t })

  abbrev pub at_start : Flags → Program
  at_start flags = record {
    tree = new_tree [];
    calls = log_calls flags;
    valid_args = [];
    resize = none;
    globals = default_globals;
    state = empty_state;
    exit = ready;
  }

  -- `initConfig`; `env` is `ZACKUP_ROOT`, or empty.
  unfoldable pub init_config : Flags → Str → Program
  init_config flags env =
      with_tree flags (set_root outside.disk platform (root_of flags env) (new_tree []))
        (at_start flags)
