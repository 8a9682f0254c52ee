-- ===== src/Config/Tree/Shared.antt =====
-- The script lines of two hosts in the array of the globals, config/tree.go and config/job.go.
use zackup.Base.{◌≤◌, some, [], ◌∷◌, ◌++◌, Str, codes, length, ◌≡◌, refl, ap, ◌∙◌, arith}
use zackup.Base.Dict.{lookup}
use zackup.Config.Job.{JobConfig, Arrays, merge_globals, read_job}
use zackup.Config.Job.Merge.{read_slice-append_room, same_room}
use zackup.Config.Hosts.{HostConfigs}
use zackup.Config.Tree.{Tree, Disk, yaml_path, merge_each, merge_all}
use zackup.Config.Tree.Hooks.{lookup-map_jobs, merge_each-SameRoom}

merge_each-append :
    (arrays : Arrays) (g : JobConfig) (hs : HostConfigs) (b : Str) (jb : JobConfig)
    → merge_each arrays g (hs ++ ((b, jb) ∷ [])) ≡ (merge_globals (merge_each arrays g hs) jb g).1
unfolding merge_each
merge_each-append arrays g [] b jb = refl
merge_each-append arrays g ((k, j) ∷ hs) b jb =
    merge_each-append (merge_globals arrays j g).1 g hs b jb

last_lines :
    (before : Arrays) (jb g ja : JobConfig)
    → length ja.pre_script.inline ≡ length jb.pre_script.inline
    → length ja.pre_script.inline ≤ before.pre_inline.free
    → (read_job (merge_globals before jb g).1 g ja).pre_script.inline
      ≡ g.pre_script.inline ++ jb.pre_script.inline
unfolding read_job merge_globals
last_lines before jb g ja same fits =
    read_slice-append_room before.pre_inline g.pre_script.inline ja.pre_script.inline
      jb.pre_script.inline same fits

-- Where the array of the globals' inline lines of the pre-script has room for the lines of a host, and
-- the host that is merged last has as many, the first one gets the lines of the last one in place of
-- its own, behind those of the globals.
pub overwritten :
    (disk : Disk) (t : Tree) (g : JobConfig) (a : Str) (ja : JobConfig) (hs : HostConfigs) (b : Str)
    (jb : JobConfig)
    → t.global ≡ some g
    → lookup a t.hosts ≡ some ja
    → disk.walk t.hosts ≡ hs ++ ((b, jb) ∷ [])
    → length ja.pre_script.inline ≡ length jb.pre_script.inline
    → length ja.pre_script.inline
      ≤ (disk.room (yaml_path t.root (codes "globals.yml"))).pre_inline.free
    → (m : JobConfig) × (lookup a (merge_all disk t).0.hosts ≡ some m)
      × (m.pre_script.inline ≡ g.pre_script.inline ++ jb.pre_script.inline)
unfolding merge_all
overwritten disk t g a ja hs b jb global found last same fits =
    let room = disk.room (yaml_path t.root (codes "globals.yml")) in
    let before = merge_each room g hs in
    let later = merge_each room g (disk.walk t.hosts) in
    let written : later ≡ (merge_globals before jb g).1 =
      ap (merge_each room g) last ∙ merge_each-append room g hs b jb in
    (
      read_job later g ja,
      rw global (rw lookup-map_jobs (rw found)),
      ap (λ (r : Arrays). (read_job r g ja).pre_script.inline) written
          ∙ last_lines before jb g ja same (
              omega
                (arith, fits, (merge_each-SameRoom room room g hs (same_room room)).pre_inline)),
    )
