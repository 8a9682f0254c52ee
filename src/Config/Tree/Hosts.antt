-- ===== src/Config/Tree/Hosts.antt =====
-- The hosts that a tree gives out, config/tree.go.
use mathlib.Core.List.{Perm}
use zackup.Base.{some, Str, contains, ◌≡◌, sym, ◌∙◌, ap, Option-cases, inl, inr}
use zackup.Base.Dict.{lookup, keys, contains-keys, is_some}
use zackup.Base.Sort.{IsSorted, sort_by-IsSorted, sort_by-perm}
use zackup.Config.Job.Merge.{merge_globals_neutral}
use zackup.Config.Tree.{Tree, hosts, host}

-- The list of hosts is sorted and has each host of the tree, once for each time that the tree has
-- it; and the copy of the job of a host is the job that the tree has, if it has one.
pub hosts_lem :
    (t : Tree)
    → IsSorted (λ name. name) (hosts t)
      × Perm (hosts t) (keys t.hosts)
      × ((name : Str) → host name t ≡ lookup name t.hosts)
      × ((name : Str) → contains (keys t.hosts) name ≡ is_some (host name t))
unfolding hosts
hosts_lem t = (
  sort_by-IsSorted (λ name. name) (keys t.hosts),
  sort_by-perm (λ name. name) (keys t.hosts),
  host-lookup,
  λ name. contains-keys name t.hosts ∙ ap is_some (sym (host-lookup name)),
)
  where
    host-lookup : (name : Str) → host name t ≡ lookup name t.hosts
    host-lookup name = elim (Option-cases (lookup name t.hosts)) [
      | inl missing ↦ unfold host in rw (missing, host)
      | inr (job, found) ↦
          unfold host in rw (found, host) (ap some (merge_globals_neutral job job.host).0)
    ]
