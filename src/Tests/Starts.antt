-- ===== src/Tests/Starts.antt =====
-- cmd/root.go and cmd/status.go at concrete trees and states.
use mathlib.Core.Path.{subst}
use zackup.Base.{
  ℕ, false, Option, none, List, [], ◌∷◌, Str, codes, str_eq, split, trim_prefix, has_prefix, All,
  ◌≡◌, refl, sym, ◌∙◌, ap,
}
use zackup.Base.Dict.{keys}
use zackup.Base.FilePath.{join_path, non_empty, clean, clean_onto, push_elem, clean_elems}
use zackup.Base.Sort.{sort_by, insert_by, str_le}
use zackup.Config.Service.{zero_service}
use zackup.Config.Tree.{linux, Tree, TreeError, hosts}
use zackup.App.Metrics.{zero_metrics}
use zackup.App.State.{State, dataset_name}
use zackup.App.State.Load.{load, load_host}
use zackup.App.Scheduler.{Readings}
use zackup.App.Scheduler.Stuck.{rounds}
use zackup.Cmd.Init.{
  Flags, Outside, Program, ready, root_of, with_tree, at_start, init_config, initialize_state,
}
use zackup.Cmd.Init.Ready.{IsReady, AllNamed, set_root-new_tree, init_config-IsReady}
use zackup.Cmd.Init.Rounds.{HasTreeJob, init_config-rounds}
use zackup.Cmd.Status.{Printer}
use zackup.Tests.Trees.{disk, web_db, reload-empty_tree}

abbrev no_float : Str → Option ℕ
no_float s = none

-- `zackup --root /r -v`, where `zfs` fails.
abbrev flags : Flags
flags = record { root = codes "/r"; verbosity = 1; gelf = [] }

abbrev outside : Outside
outside = record { disk = disk; exec_zfs = λ command. none; now = 0; rnd = λ host. 0 }

abbrev started : Program
started = init_config no_float linux outside flags []

abbrev computed : Program
computed =
    with_tree no_float linux outside flags (web_db, none) (at_start no_float linux outside flags)

started-computed : computed ≡ started
unfolding init_config root_of str_eq
started-computed =
    ap
      (λ (o : Tree × Option TreeError).
        with_tree no_float linux outside flags o (at_start no_float linux outside flags))
      (sym (set_root-new_tree linux outside (codes "/r") refl ∙ reload-empty_tree))

computed-ready : computed.exit ≡ ready
unfolding initialize_state load load_host hosts sort_by insert_by str_le keys
computed-ready = refl

computed-AllNamed : AllNamed no_float linux outside computed
unfolding initialize_state hosts sort_by insert_by str_le keys dataset_name join_path non_empty
    clean clean_onto push_elem clean_elems split str_eq trim_prefix has_prefix
computed-AllNamed = (refl, (refl, tt))

started-ready : started.exit ≡ ready
started-ready = ap (λ (p : Program). p.exit) (sym started-computed) ∙ computed-ready

started-AllNamed : AllNamed no_float linux outside started
started-AllNamed = subst (AllNamed no_float linux outside) started-computed computed-AllNamed

init_config-IsReady_example : IsReady no_float linux outside (root_of flags []) started
unfolding root_of str_eq
init_config-IsReady_example =
    init_config-IsReady no_float linux outside flags [] refl started-ready started-AllNamed

abbrev at_once : Readings
at_once = record {
  stop = λ k. false;
  now = λ k. 246_608_000_000_000;
  later = λ k. 246_609_000_000_000;
  rnd = λ k. 0;
  rnd_later = λ k. 0;
  before = λ k s. s;
  blocked = λ k s. s;
}

abbrev one_round : List (Readings × List Str)
one_round = (at_once, codes "db" ∷ codes "web" ∷ codes "mail" ∷ []) ∷ []

init_config-rounds_example :
    All (HasTreeJob started.tree) (rounds zero_service one_round started.state).1
unfolding root_of str_eq
init_config-rounds_example =
    init_config-rounds no_float linux outside flags [] zero_service one_round refl started-ready
      started-AllNamed ((λ k s v. (v, v)), tt)

abbrev printer : Printer
printer = record {
  format = λ layout t. codes "then";
  duration_string = λ d. codes "short";
  bytes = λ n. codes "some";
  two_digits = λ n. codes "1.00";
  job = λ j. codes "job";
  tree = λ t. codes "tree";
}

abbrev two_hosts : State
two_hosts = record {
  hosts =
      (codes "web", record zero_metrics { started_at = 20 }) ∷ (codes "backup", zero_metrics) ∷ [];
}
