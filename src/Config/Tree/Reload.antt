-- ===== src/Config/Tree/Reload.antt =====
-- What a tree has after `reload`, config/tree.go.
use zackup.Base.{none, some, List, [], ◌∷◌, ◌++◌, Str, codes, map, All, Distinct, ◌≡◌, sym, ◌∙◌, ap}
use zackup.Base.Dict.{lookup, keys}
use zackup.Base.FilePath.{join_path}
use zackup.Base.Result.{ok}
use mathlib.Core.Path.{subst}
use zackup.Config.Job.{JobConfig, Arrays, read_job}
use zackup.Config.Job.Merge.{IsMerge, SameRoom, same_room, read_job-IsMerge}
use zackup.Config.Service.{ServiceConfig}
use zackup.Config.Hosts.{
  HostConfigs, path_to_host_variant_a, path_to_host_variant_b, read_job_hooks, read_hooks,
}
use zackup.Config.Hosts.Matches.{IsRead, Keeps}
use zackup.Config.Tree.{
  Platform, Tree, Disk, Outcome, yaml_path, map_jobs, merge_each, merge_into, ensure_root,
  read_service, read_globals, read_hosts, read_tree_hooks, reload, reload_globals, reload_hosts,
  reload_variant_b, reload_hooks, merge_all,
}
use zackup.Config.Tree.Hooks.{
  merge_each-SameRoom, read_hooks-HasHooks, keys-read_hooks, lookup-map_jobs, keys-map_jobs,
}
use zackup.Config.Tree.Parts.{
  decode_file, ReadsHosts, then_read-none, read_hosts-ReadsHosts, read_service-none,
  read_globals-none, read_tree_hooks-none,
}

module _ (disk : Disk) where
  abbrev pub globals_room : Tree → Arrays
  globals_room t = disk.room (yaml_path t.root (codes "globals.yml"))

  -- The job of the file: it is decoded, it gets its hooks, and then the globals.
  pub record IsHost (to_host : Str → Str) (g : JobConfig) (t : Tree) (file : Str) : Type 0 where
    pub job : JobConfig
    pub decodes : decode_file disk file ≡ ok job
    pub hooked : JobConfig
    pub hooks :
        read_job_hooks disk.files t.root (to_host file) (record job { host = to_host file })
        ≡ (hooked, none)
    pub merged : JobConfig
    pub stored : lookup (to_host file) t.hosts ≡ some merged
    pub has_globals : IsMerge (globals_room t) g hooked merged

  -- The tree after it was read without an error.
  pub record Reloaded (platform : Platform) (t t' : Tree) : Type 0 where
    pub same_root : t'.root ≡ (ensure_root platform t).root
    pub svc : ServiceConfig
    pub decodes_service : disk.decode_service (yaml_path t'.root (codes "config.yml")) ≡ (svc, none)
    pub service : t'.service ≡ some svc
    pub g : JobConfig
    pub decodes_globals : disk.decode_job (yaml_path t'.root (codes "globals.yml")) ≡ (g, none)
    pub files_a : List Str
    pub glob_a :
        disk.files.glob (join_path (t'.root ∷ codes "hosts/*/config.yml" ∷ [])) ≡ ok files_a
    pub files_b : List Str
    pub glob_b : disk.files.glob (join_path (t'.root ∷ codes "hosts/*.yml" ∷ [])) ≡ ok files_b
    pub jobs_a : All (IsHost path_to_host_variant_a g t') files_a
    pub jobs_b : All (IsHost path_to_host_variant_b g t') files_b
    pub names :
        keys t'.hosts ≡ map path_to_host_variant_a files_a ++ map path_to_host_variant_b files_b
    pub distinct : Distinct (keys t'.hosts)

  -- From a job that was decoded to the job of the host, through the hooks and the globals.
  IsRead-IsHost :
      (to_host : Str → Str) (g : JobConfig) (t t' : Tree) (later : Arrays) (file : Str)
      → SameRoom (globals_room t) later
      → t'.root ≡ t.root
      → (h : HostConfigs) → (read_hooks disk.files t.root h).1 ≡ none
      → t'.hosts ≡ map_jobs (read_job later g) (read_hooks disk.files t.root h).0
      → IsRead (decode_file disk) to_host h file
      → IsHost to_host g t' file
  IsRead-IsHost to_host g t t' later file rooms root h fine merged r =
      let with_hooks =
        read_hooks-HasHooks disk.files t.root h (to_host file)
          (record r.job { host = to_host file }) fine r.stored in
      record {
        job = r.job;
        decodes = r.decoded;
        hooked = with_hooks.hooked;
        hooks = rw root with_hooks.read;
        merged = read_job later g with_hooks.hooked;
        stored = rw (merged, lookup-map_jobs) (rw with_hooks.stored);
        has_globals =
            subst
              (λ (r : Str).
                IsMerge (disk.room (yaml_path r (codes "globals.yml"))) g with_hooks.hooked
                  (read_job later g with_hooks.hooked))
              (sym root) (read_job-IsMerge (globals_room t) later g with_hooks.hooked rooms);
      }

  IsReads-IsHost :
      (to_host : Str → Str) (g : JobConfig) (t t' : Tree) (later : Arrays) (files : List Str)
      → SameRoom (globals_room t) later
      → t'.root ≡ t.root
      → (read_hooks disk.files t.root t.hosts).1 ≡ none
      → t'.hosts ≡ map_jobs (read_job later g) (read_hooks disk.files t.root t.hosts).0
      → All (IsRead (decode_file disk) to_host t.hosts) files
      → All (IsHost to_host g t') files
  IsReads-IsHost to_host g t t' later [] rooms root fine merged _ = tt
  IsReads-IsHost to_host g t t' later (file ∷ files) rooms root fine merged (r, rs) = (
    IsRead-IsHost to_host g t t' later file rooms root t.hosts fine merged r,
    IsReads-IsHost to_host g t t' later files rooms root fine merged rs,
  )

  -- What was read stays where more is read.
  reads_kept :
      (to_host : Str → Str) (h h' : HostConfigs) (files : List Str)
      → Keeps h h'
      → All (IsRead (decode_file disk) to_host h) files
      → All (IsRead (decode_file disk) to_host h') files
  reads_kept to_host h h' [] k _ = tt
  reads_kept to_host h h' (file ∷ files) k (r, rs) = (
    record { job = r.job; decoded = r.decoded; stored = k _ _ r.stored },
    reads_kept to_host h h' files k rs,
  )

  -- The parts after the globals, put together.
  reloaded :
      (platform : Platform) (t t₂ t₃ t₄ t' : Tree) (svc : ServiceConfig) (g : JobConfig)
      → disk.decode_service (yaml_path (ensure_root platform t).root (codes "config.yml"))
        ≡ (svc, none)
      → disk.decode_job (yaml_path (ensure_root platform t).root (codes "globals.yml")) ≡ (g, none)
      → t₂.root ≡ (ensure_root platform t).root
      → t₂.service ≡ some svc
      → t₂.global ≡ some g
      → ReadsHosts disk
          (codes "hosts/*/config.yml")
          path_to_host_variant_a
          (record t₂ { hosts = [] })
          t₃
      → ReadsHosts disk (codes "hosts/*.yml") path_to_host_variant_b t₃ t₄
      → (read_hooks disk.files t₄.root t₄.hosts).1 ≡ none
      → t' ≡ record t₄ {
        hosts =
            merge_into
              (globals_room t₄)
              disk.walk
              t₄.global
              (read_hooks disk.files t₄.root t₄.hosts).0;
      }
      → Reloaded platform t t'
  unfolding keys
  reloaded platform t t₂ t₃ t₄ t' svc g ds dg root₂ service₂ global₂ ra rb fine last =
      let root₃ : t₃.root ≡ t₂.root = ap (λ u. u.root) ra.rest_same in
      let root₄ : t₄.root ≡ t₃.root = ap (λ u. u.root) rb.rest_same in
      let root₅ : t'.root ≡ t₄.root = ap (λ u. u.root) last in
      let root : t'.root ≡ (ensure_root platform t).root = root₅ ∙ root₄ ∙ root₃ ∙ root₂ in
      let global₄ : t₄.global ≡ some g =
        ap (λ u. u.global) rb.rest_same ∙ ap (λ u. u.global) ra.rest_same ∙ global₂ in
      let service₄ : t₄.service ≡ some svc =
        ap (λ u. u.service) rb.rest_same ∙ ap (λ u. u.service) ra.rest_same ∙ service₂ in
      let hooked = (read_hooks disk.files t₄.root t₄.hosts).0 in
      let room = globals_room t₄ in
      let later = merge_each room g (disk.walk hooked) in
      let rooms : SameRoom room later =
        merge_each-SameRoom room room g (disk.walk hooked) (same_room room) in
      let merged : t'.hosts ≡ map_jobs (read_job later g) hooked =
        ap (λ u. u.hosts) last ∙ ap (λ o. merge_into room disk.walk o hooked) global₄ in
      let same_names : keys t'.hosts ≡ keys t₄.hosts =
        ap keys merged
        ∙ keys-map_jobs (read_job later g) hooked
        ∙ keys-read_hooks disk.files t₄.root t₄.hosts in
      record {
        same_root = root;
        svc = svc;
        decodes_service =
            ap (λ r. disk.decode_service (yaml_path r (codes "config.yml"))) root ∙ ds;
        service = ap (λ u. u.service) last ∙ service₄;
        g = g;
        decodes_globals = ap (λ r. disk.decode_job (yaml_path r (codes "globals.yml"))) root ∙ dg;
        files_a = ra.names;
        glob_a =
            ap (λ r. disk.files.glob (join_path (r ∷ codes "hosts/*/config.yml" ∷ [])))
              (root₅ ∙ root₄ ∙ root₃)
            ∙ ra.globbed;
        files_b = rb.names;
        glob_b =
            ap (λ r. disk.files.glob (join_path (r ∷ codes "hosts/*.yml" ∷ []))) (root₅ ∙ root₄)
            ∙ rb.globbed;
        jobs_a =
            IsReads-IsHost path_to_host_variant_a g t₄ t' later ra.names rooms root₅ fine merged (
              reads_kept path_to_host_variant_a t₃.hosts t₄.hosts ra.names rb.all_read.kept
                ra.all_read.read);
        jobs_b =
            IsReads-IsHost path_to_host_variant_b g t₄ t' later rb.names rooms root₅ fine merged
              rb.all_read.read;
        names =
            same_names
            ∙ rb.all_read.names
            ∙ ap (λ ks. ks ++ map path_to_host_variant_b rb.names) ra.all_read.names;
        distinct = rw same_names (rb.spread (ra.spread tt));
      }

  -- Where a reload ends without an error: the root is the one that was set, or else the default one;
  -- the service and the globals are those of the two files below it, which were decoded without an
  -- error; the hosts are those of the files that match the two patterns, one for each file and in
  -- this order, and no two files are of the same host; and the job of a host is that of its file,
  -- with its hooks, which were read without an error, and which are looked for in the directory of
  -- the host below the root, not below hosts/ as the README says, and with the globals merged into it:
  -- its settings for ssh and rsync are what `mergeGlobals` makes of its own and of those of the
  -- globals, and each list of lines of its scripts begins with the lines of the globals, after which
  -- come its own, unless there are some and they fit into the room behind the lines of the globals,
  -- in the array that all hosts share.
  pub reload-Reloaded :
      (platform : Platform) (t t' : Tree)
      → reload disk platform t ≡ (t', none)
      → Reloaded platform t t'
  unfolding reload reload_globals reload_hosts reload_variant_b reload_hooks merge_all
  reload-Reloaded platform t t' p =
      let t₀ = ensure_root platform t in
      let (t₁, e₁, p₁) = then_read-none (read_service disk t₀) (reload_globals disk) p in
      let (t₂, e₂, p₂) = then_read-none (read_globals disk t₁) (reload_hosts disk) p₁ in
      let (t₃, e₃, p₃) =
        then_read-none
          (read_hosts disk (codes "hosts/*/config.yml") path_to_host_variant_a
            (record t₂ { hosts = [] }))
          (reload_variant_b disk) p₂ in
      let (t₄, e₄, p₄) =
        then_read-none (read_hosts disk (codes "hosts/*.yml") path_to_host_variant_b t₃)
          (reload_hooks disk) p₃ in
      let (t₅, e₅, p₅) = then_read-none (read_tree_hooks disk t₄) (merge_all disk) p₄ in
      let (svc, ds, s₁) = read_service-none disk t₀ e₁ in
      let (g, dg, s₂) = read_globals-none disk t₁ e₂ in
      let ra =
        read_hosts-ReadsHosts disk (codes "hosts/*/config.yml") path_to_host_variant_a
          (record t₂ { hosts = [] }) e₃ in
      let rb = read_hosts-ReadsHosts disk (codes "hosts/*.yml") path_to_host_variant_b t₃ e₄ in
      let (fine, s₅) = read_tree_hooks-none disk t₄ e₅ in
      let same₁ : t₁.root ≡ t₀.root = ap (λ u. u.root) s₁ in
      let same₂ : t₂.root ≡ t₁.root = ap (λ u. u.root) s₂ in
      reloaded platform t t₂ t₃ t₄ t' svc g ds
        (ap (λ r. disk.decode_job (yaml_path r (codes "globals.yml"))) (sym same₁) ∙ dg)
        (same₂ ∙ same₁) (ap (λ u. u.service) s₂ ∙ ap (λ u. u.service) s₁) (ap (λ u. u.global) s₂) ra
        rb fine (sym (ap (λ (r : Outcome). r.0) p₅) ∙ ap (λ u. (merge_all disk u).0) s₅)
