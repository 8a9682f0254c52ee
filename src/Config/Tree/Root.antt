-- ===== src/Config/Tree/Root.antt =====
-- The root of a tree after `reload` and `SetRoot`, config/tree.go.
use zackup.Base.{
  false, Option, none, some, [], Str, codes, str_eq, str_eq_iff, str_eq_refl, ◌≡◌, refl, sym, ◌∙◌,
  ap, Bool-cases, inl, inr,
}
use zackup.Config.Hosts.{
  HostConfigs, HostError, path_to_host_variant_a, path_to_host_variant_b, read_hooks,
}
use zackup.Config.Script.{ScriptError}
use zackup.Config.Tree.{
  Platform, Tree, TreeError, Disk, Outcome, ◌then_read◌, or_hosts_failed, or_hooks_failed,
  ensure_root, read_service, read_globals, read_hosts, read_tree_hooks, merge_all, reload_hooks,
  reload_variant_b, reload_hosts, reload_globals, reload, set_root,
}

-- What goes on from a tree keeps its root.
then_read-root :
    (o : Outcome) (f : Tree → Outcome) (root : Str)
    → o.0.root ≡ root
    → ((t : Tree) → (f t).0.root ≡ t.root)
    → (o then_read f).0.root ≡ root
then_read-root (t, none) f root p q = q t ∙ p
then_read-root (t, some e) f root p q = p

or_hosts_failed-root :
    (t : Tree) (o : HostConfigs × Option HostError) → (or_hosts_failed t o).0.root ≡ t.root
or_hosts_failed-root t (h, none) = refl
or_hosts_failed-root t (h, some e) = refl

or_hooks_failed-root :
    (t : Tree) (o : HostConfigs × Option ScriptError) → (or_hooks_failed t o).0.root ≡ t.root
or_hooks_failed-root t (h, none) = refl
or_hooks_failed-root t (h, some e) = refl

module _ (disk : Disk) where
  read_hosts-root :
      (pattern' : Str) (to_host : Str → Str) (t : Tree)
      → (read_hosts disk pattern' to_host t).0.root ≡ t.root
  unfolding read_hosts
  read_hosts-root pattern' to_host t = or_hosts_failed-root t _

  reload_hooks-root : (t : Tree) → (reload_hooks disk t).0.root ≡ t.root
  unfolding reload_hooks merge_all read_tree_hooks
  reload_hooks-root t =
      then_read-root (read_tree_hooks disk t) (merge_all disk) t.root
        (or_hooks_failed-root t (read_hooks disk.files t.root t.hosts)) (λ u. refl)

  reload_variant_b-root : (t : Tree) → (reload_variant_b disk t).0.root ≡ t.root
  unfolding reload_variant_b
  reload_variant_b-root t =
      then_read-root (read_hosts disk (codes "hosts/*.yml") path_to_host_variant_b t)
        (reload_hooks disk) t.root (read_hosts-root (codes "hosts/*.yml") path_to_host_variant_b t)
        reload_hooks-root

  reload_hosts-root : (t : Tree) → (reload_hosts disk t).0.root ≡ t.root
  unfolding reload_hosts
  reload_hosts-root t =
      then_read-root
        (read_hosts disk (codes "hosts/*/config.yml") path_to_host_variant_a
          (record t { hosts = [] }))
        (reload_variant_b disk) t.root
        (read_hosts-root (codes "hosts/*/config.yml") path_to_host_variant_a
          (record t { hosts = [] }))
        reload_variant_b-root

  reload_globals-root : (t : Tree) → (reload_globals disk t).0.root ≡ t.root
  unfolding reload_globals read_globals
  reload_globals-root t =
      then_read-root (read_globals disk t) (reload_hosts disk) t.root refl reload_hosts-root

  -- Also a reload that fails leaves the root that it was to read.
  pub reload-root :
      (platform : Platform) (t : Tree)
      → (reload disk platform t).0.root ≡ (ensure_root platform t).root
  unfolding reload read_service
  reload-root platform t =
      then_read-root (read_service disk (ensure_root platform t)) (reload_globals disk)
        (ensure_root platform t).root refl reload_globals-root

  set_root-root :
      (platform : Platform) (root : Str) (t : Tree)
      → str_eq root [] ≡ false
      → (set_root disk platform root t).0.root ≡ root
  unfolding set_root ensure_root
  set_root-root platform root t given = elim (Bool-cases (str_eq t.root root)) [
    | inl same ↦ rw same ((str_eq_iff t.root root).0 same)
    | inr other ↦ rw other (reload-root platform (record t { root = root }) ∙ rw given)
  ]

  -- Where a root that is not empty was set, also where this failed, the tree has this root, and
  -- setting it again changes nothing and is no error.
  pub set_root_twice :
      (platform : Platform) (root : Str) (t u : Tree) (e : Option TreeError)
      → str_eq root [] ≡ false
      → set_root disk platform root t ≡ (u, e)
      → (u.root ≡ root) × (set_root disk platform root u ≡ (u, none))
  unfolding set_root
  set_root_twice platform root t u e given p =
      let at_root : u.root ≡ root =
        ap (λ (o : Outcome). o.0.root) (sym p) ∙ set_root-root platform root t given in
      (at_root, rw (at_root, str_eq_refl root))
