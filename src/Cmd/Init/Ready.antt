-- ===== src/Cmd/Init/Ready.antt =====
-- What the program has when it is ready for a command, cmd/root.go.
use mathlib.Core.Bool.{Bool-set}
use mathlib.Core.Path.{subst}
use mathlib.Core.Logic.{∥∥₁_elim}
use mathlib.Core.List.{Permᴰ}
use zackup.Base.{
  ℕ, true, false, Option, none, some, List, [], ◌∷◌, Str, str_eq, str_eq_refl, contains, All, ◌≡◌,
  refl, sym, ◌∙◌, arith,
}
use zackup.Base.Dict.{lookup, is_some}
use zackup.Base.Int.{pos}
use zackup.Config.Job.{JobConfig}
use zackup.Config.Service.{ServiceConfig, next_schedule}
use zackup.Config.Tree.{Platform, Tree, TreeError, new_tree, set_root, reload, hosts, host}
use zackup.Config.Tree.Hosts.{hosts_lem}
use zackup.Config.Tree.Reload.{Reloaded, reload-Reloaded}
use zackup.App.State.Load.{LoadError}
use zackup.App.State.Jobs.{HasJobs}
use zackup.App.State.Load.Jobs.{IsNamed, load-HasJobs}
use zackup.Cmd.Init.{
  Flags, root_of, ready, tree_failed, Program, exit_of, empty_state, Outside, initialize_state,
  with_service, with_tree, at_start, init_config,
}

-- Where the root is not empty, setting it is reading the tree.
pub set_root-new_tree :
    (platform : Platform) (outside : Outside) (root : Str)
    → str_eq root [] ≡ false
    → set_root outside.disk platform root (new_tree [])
      ≡ reload outside.disk platform (new_tree root)
unfolding set_root str_eq
set_root-new_tree platform outside [] given = absurd (cc)
set_root-new_tree platform outside (c ∷ root) given = refl

exit_of-ready : (e : Option LoadError) → exit_of e ≡ ready → e ≡ none
exit_of-ready none p = refl
exit_of-ready (some e) p = absurd (cc)

no_exit : {e : TreeError} → tree_failed e ≡ ready → ⊥
no_exit p = absurd (cc)

contains-Permᴰ : (name : Str) {xs ys : List Str} → Permᴰ xs ys → contains xs name ≡ contains ys name
unfolding contains
contains-Permᴰ name Permᴰ.nil = refl
contains-Permᴰ name (Permᴰ.cons {b = b} e p) = rw (e, contains-Permᴰ name p)
contains-Permᴰ name (Permᴰ.swap {a' = x} {b' = y} e f) = rw (e, f) (ground arith)
contains-Permᴰ name (Permᴰ.trans p q) = contains-Permᴰ name p ∙ contains-Permᴰ name q

pub contains-hosts : (name : Str) (t : Tree) → contains (hosts t) name ≡ is_some (host name t)
contains-hosts name t =
    ∥∥₁_elim (hosts_lem t).1 (Bool-set _ _) (contains-Permᴰ name) ∙ (hosts_lem t).3 name

hosts_known :
    (t : Tree) (names : List Str)
    → ((name : Str) → contains names name ≡ true → contains (hosts t) name ≡ true)
    → All (λ name. is_some (host name t) ≡ true) names
unfolding contains
hosts_known t [] h = tt
hosts_known t (name ∷ names) h = (
  sym (contains-hosts name t) ∙ h name (ground (arith, str_eq_refl name)),
  hosts_known t names (λ other k. h other (ground (arith, k))),
)

none-some : {A : Type 0} {a : A} → none ≡ some a → ⊥
none-some p = absurd (cc)

nothing_known : (tree_host : Str → Option JobConfig) → HasJobs tree_host (λ name. false) empty_state
unfolding lookup
nothing_known tree_host = record {
  jobs = λ name m found. absurd (none-some found);
  hosts = λ name. refl;
}

module _ (parse_float : Str → Option ℕ) (platform : Platform) (outside : Outside) where
  pub record IsReady (root : Str) (p : Program) : Type 0 where
    pub read : Reloaded outside.disk platform (new_tree root) p.tree
    pub asked_for : p.resize ≡ some (pos read.svc.parallel)
    pub datasets : p.globals.root_dataset ≡ read.svc.root_dataset
    pub mounts : p.globals.mount_base ≡ read.svc.mount_base
    pub arguments : p.valid_args ≡ hosts p.tree
    pub has_jobs : HasJobs (λ name. host name p.tree) (contains (hosts p.tree)) p.state

  -- The names of the hosts can be read back from those of their datasets.
  abbrev pub AllNamed : Program → Type 0
  AllNamed p =
      All (IsNamed parse_float p.globals.root_dataset (λ name. host name p.tree)) (hosts p.tree)

  service-IsReady :
      (flags : Flags) (root : Str) (p : Program)
      (read : Reloaded outside.disk platform (new_tree root) p.tree)
      → p.valid_args ≡ hosts p.tree
      → let q = with_service parse_float platform outside flags (some read.svc) p in
        q.exit ≡ ready → AllNamed q → IsReady root q
  unfolding initialize_state
  service-IsReady flags root p read args ended named =
      let loaded =
        load-HasJobs parse_float read.svc.root_dataset (λ name. host name p.tree)
          (λ name. next_schedule read.svc (outside.rnd name) outside.now) outside.exec_zfs
          (hosts p.tree) (λ name. false) empty_state named
          (hosts_known p.tree (hosts p.tree) (λ name k. k))
          (nothing_known (λ name. host name p.tree)) (exit_of-ready _ ended) in
      record {
        read = read;
        asked_for = refl;
        datasets = refl;
        mounts = refl;
        arguments = args;
        has_jobs = record { jobs = loaded.jobs; hosts = λ name. loaded.hosts name ∙ ground arith };
      }

  -- Where the program gets ready, with a root that is not empty, and the names of the hosts can be
  -- read back from those of their datasets: the tree is that of the root, read without an error; the
  -- queue is resized to the number of jobs that config.yml asks for, and the datasets and the mount
  -- points are those of config.yml, as it was decoded, where nothing takes the place of what it leaves
  -- out, though the README gives defaults; the commands take the hosts of the tree; and the state has
  -- metrics of exactly the hosts of the tree, each with the job that the tree has.
  pub init_config-IsReady :
      (flags : Flags) (env : Str)
      → str_eq (root_of flags env) [] ≡ false
      → (init_config parse_float platform outside flags env).exit ≡ ready
      → AllNamed (init_config parse_float platform outside flags env)
      → IsReady (root_of flags env) (init_config parse_float platform outside flags env)
  unfolding init_config
  init_config-IsReady flags env given =
      go (set_root outside.disk platform (root_of flags env) (new_tree []))
        (set_root-new_tree platform outside (root_of flags env) given)
    where
      go :
          (o : Tree × Option TreeError)
          → o ≡ reload outside.disk platform (new_tree (root_of flags env))
          → let p =
              with_tree parse_float platform outside flags o
                (at_start parse_float platform outside flags) in
            p.exit ≡ ready → AllNamed p → IsReady (root_of flags env) p
      go (t, some e) q ended named = absurd (no_exit ended)
      go (t, none) q ended named =
          let read =
            reload-Reloaded outside.disk platform (new_tree (root_of flags env)) t (sym q) in
          let p = record (at_start parse_float platform outside flags) {
            tree = t;
            valid_args = hosts t;
          } in
          subst
            (λ (svc : Option ServiceConfig).
              (with_service parse_float platform outside flags svc p).exit ≡ ready
              → AllNamed (with_service parse_float platform outside flags svc p)
              → IsReady (root_of flags env) (with_service parse_float platform outside flags svc p))
            (sym read.service) (service-IsReady flags (root_of flags env) p read refl) ended named
