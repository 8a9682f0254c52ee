-- ===== src/Config/Tree/Parts.antt =====
-- The parts of `reload` that end without an error, config/tree.go.
use mathlib.Core.Path.{subst}
use zackup.Base.{
  Option, none, some, List, [], ◌∷◌, Str, codes, Distinct, ◌≡◌, refl, sym, ap, inl, inr,
}
use zackup.Base.Dict.{keys}
use zackup.Base.FilePath.{join_path}
use zackup.Base.Result.{Result, ok, Result-cases}
use zackup.Config.Job.{JobConfig}
use zackup.Config.Service.{ServiceConfig}
use zackup.Config.Script.{ScriptError}
use zackup.Config.Hosts.{HostConfigs, HostError, bad_pattern, read_glob, read_hooks}
use zackup.Config.Hosts.Matches.{AllRead, read_matches-AllRead, read_matches-Distinct}
use zackup.Config.Tree.{
  Tree, TreeError, ReadFailure, Disk, Outcome, ◌then_read◌, yaml_path, decoded, read_service,
  read_globals, read_hosts, read_tree_hooks, error_if, service_failed, globals_failed,
  or_hosts_failed, or_hooks_failed,
}

pub some-none : {A : Type 0} {a : A} → some a ≡ none → ⊥
some-none h = absurd (cc)

no_failure :
    (u : Tree) (failed : Option ReadFailure) (e : ReadFailure → TreeError) {t' : Tree}
    → ◌≡◌ {A = Outcome} (u, error_if failed e) (t', none)
    → (failed ≡ none) × (t' ≡ u)
no_failure u none e p = (refl, sym (ap (λ (r : Outcome). r.0) p))
no_failure u (some f) e p = absurd (cc)

-- A part that was read without an error went on from a tree.
pub then_read-none :
    (o : Outcome) (f : Tree → Outcome) {t' : Tree}
    → (o then_read f) ≡ (t', none)
    → (t : Tree) × (o ≡ (t, none)) × (f t ≡ (t', none))
then_read-none (t, none) f p = (t, refl, p)
then_read-none (t, some e) f p = absurd (cc)

module _ (disk : Disk) where
  abbrev pub decode_file : Str → Result HostError JobConfig
  decode_file file = decoded (disk.decode_job file)

  -- A pattern that was read into the hosts.
  pub record ReadsHosts (pattern' : Str) (to_host : Str → Str) (t t' : Tree) : Type 0 where
    pub names : List Str
    pub globbed : disk.files.glob (join_path (t.root ∷ pattern' ∷ [])) ≡ ok names
    pub all_read : AllRead decode_file to_host t.hosts t'.hosts names
    pub rest_same : t' ≡ record t { hosts = t'.hosts }
    pub spread : Distinct (keys t.hosts) → Distinct (keys t'.hosts)

  merged_hosts :
      (t : Tree) (o : HostConfigs × Option HostError) {t' : Tree}
      → or_hosts_failed t o ≡ (t', none)
      → (o.1 ≡ none) × (record t { hosts = o.0 } ≡ t')
  merged_hosts t (h, none) p = (refl, ap (λ (r : Outcome). r.0) p)
  merged_hosts t (h, some e) p = absurd (cc)

  pub read_hosts-ReadsHosts :
      (pattern' : Str) (to_host : Str → Str) (t : Tree) {t' : Tree}
      → read_hosts disk pattern' to_host t ≡ (t', none)
      → ReadsHosts pattern' to_host t t'
  unfolding read_hosts read_glob
  read_hosts-ReadsHosts pattern' to_host t p =
      elim (Result-cases (disk.files.glob (join_path (t.root ∷ pattern' ∷ [])))) [
        | inr (e, failed) ↦
            absurd (
              some-none
                (merged_hosts t (t.hosts, some bad_pattern) (rw (failed, read_glob) at p)).0)
        | inl (names, found) ↦
            let (fine, same) = merged_hosts t _ (rw (found, read_glob) at p) in
            subst (ReadsHosts pattern' to_host t) same (record {
              names = names;
              globbed = found;
              all_read = read_matches-AllRead decode_file to_host names t.hosts fine;
              rest_same = refl;
              spread = read_matches-Distinct decode_file to_host names t.hosts fine;
            })
      ]

  pub read_service-none :
      (t : Tree) {t' : Tree}
      → read_service disk t ≡ (t', none)
      → (svc : ServiceConfig) × (disk.decode_service (yaml_path t.root (codes "config.yml"))
          ≡ (svc, none))
        × (t' ≡ record t { service = some svc })
  unfolding read_service
  read_service-none t p =
      let d = disk.decode_service (yaml_path t.root (codes "config.yml")) in
      let (fine, same) = no_failure (record t { service = some d.0 }) d.1 service_failed p in
      (d.0, (λ i. (d.0, fine i)), same)

  pub read_globals-none :
      (t : Tree) {t' : Tree}
      → read_globals disk t ≡ (t', none)
      → (g : JobConfig) × (disk.decode_job (yaml_path t.root (codes "globals.yml")) ≡ (g, none))
        × (t' ≡ record t { global = some g })
  unfolding read_globals
  read_globals-none t p =
      let d = disk.decode_job (yaml_path t.root (codes "globals.yml")) in
      let (fine, same) = no_failure (record t { global = some d.0 }) d.1 globals_failed p in
      (d.0, (λ i. (d.0, fine i)), same)

  pub read_tree_hooks-none :
      (t : Tree) {t' : Tree}
      → read_tree_hooks disk t ≡ (t', none)
      → ((read_hooks disk.files t.root t.hosts).1 ≡ none)
        × (t' ≡ record t { hosts = (read_hooks disk.files t.root t.hosts).0 })
  unfolding read_tree_hooks
  read_tree_hooks-none t {t'} p = hooked_hosts (read_hooks disk.files t.root t.hosts) p
    where
      hooked_hosts :
          (o : HostConfigs × Option ScriptError)
          → or_hooks_failed t o ≡ (t', none)
          → (o.1 ≡ none) × (t' ≡ record t { hosts = o.0 })
      hooked_hosts (h, none) q = (refl, sym (ap (λ (r : Outcome). r.0) q))
      hooked_hosts (h, some e) q = absurd (cc)
