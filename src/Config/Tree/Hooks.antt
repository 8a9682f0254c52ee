-- ===== src/Config/Tree/Hooks.antt =====
-- The jobs of the hosts after the hooks were read and after the globals were merged.
use mathlib.Core.Option.{some-injective}
use zackup.Base.{
  Option, none, some, [], ◌∷◌, Str, str_eq, str_eq_iff, ◌≡◌, refl, sym, ◌∙◌, ap, arith, Bool-cases,
  Option-cases, inl, inr,
}
use zackup.Base.Dict.{lookup, keys}
use zackup.Config.Job.{JobConfig, Arrays, merge_globals}
use zackup.Config.Job.Merge.{SameRoom, merge_globals-SameRoom}
use zackup.Config.Script.{ScriptError, FileSystem}
use zackup.Config.Hosts.{HostConfigs, read_job_hooks, read_hooks}
use zackup.Config.Tree.{map_jobs, merge_each}

no_error : {e : ScriptError} → some e ≡ none → ⊥
no_error h = absurd (cc)

abbrev pub map_option {ℓ κ} : {A : Type ℓ} {B : Type κ} → (A → B) → Option A → Option B
map_option f none = none
map_option f (some a) = some (f a)

pub lookup-map_jobs :
    (name : Str) (f : JobConfig → JobConfig) (h : HostConfigs)
    → lookup name (map_jobs f h) ≡ map_option f (lookup name h)
unfolding lookup
lookup-map_jobs name f [] = refl
lookup-map_jobs name f ((k, j) ∷ h) = ground (arith, lookup-map_jobs name f h)

pub keys-map_jobs : (f : JobConfig → JobConfig) (h : HostConfigs) → keys (map_jobs f h) ≡ keys h
unfolding keys
keys-map_jobs f [] = refl
keys-map_jobs f ((k, j) ∷ h) = ap (λ r. k ∷ r) (keys-map_jobs f h)

-- The room of the arrays stays as it was in the whole loop.
pub merge_each-SameRoom :
    (a b : Arrays) (g : JobConfig) (h : HostConfigs) → SameRoom a b → SameRoom a (merge_each b g h)
unfolding merge_each
merge_each-SameRoom a b g [] s = s
merge_each-SameRoom a b g ((k, j) ∷ h) s =
    merge_each-SameRoom a (merge_globals b j g).1 g h (merge_globals-SameRoom a b j g s)

module _ (files : FileSystem) (root : Str) where
  -- The job of the host with its hooks, where they are read without an error.
  pub record HasHooks (name : Str) (job : JobConfig) (h : HostConfigs) : Type 0 where
    pub hooked : JobConfig
    pub read : read_job_hooks files root name job ≡ (hooked, none)
    pub stored : lookup name h ≡ some hooked

  pub read_hooks-HasHooks :
      (h : HostConfigs) (name : Str) (job : JobConfig)
      → (read_hooks files root h).1 ≡ none
      → lookup name h ≡ some job
      → HasHooks name job (read_hooks files root h).0
  unfolding read_hooks lookup
  read_hooks-HasHooks [] name job p found = cc
  read_hooks-HasHooks ((k, j) ∷ h) name job p found =
      elim (Option-cases (read_job_hooks files root k j).1) [
        | inr (e, failed) ↦ absurd (no_error (rw (failed, read_hooks) at p))
        | inl fine ↦
            rw (fine, read_hooks)
              (elim (Bool-cases (str_eq k name)) [
                | inl same ↦
                    let same_job : j ≡ job = some-injective _ _ (rw same at found) in
                    let same_name = (str_eq_iff k name).0 same in
                    let call : read_job_hooks files root k j ≡ read_job_hooks files root name job =
                      λ i. read_job_hooks files root (same_name i) (same_job i) in
                    record {
                      hooked = (read_job_hooks files root k j).0;
                      read = sym call ∙ (λ i. ((read_job_hooks files root k j).0, fine i));
                      stored = rw same;
                    }
                | inr other ↦
                    let later =
                      read_hooks-HasHooks h name job (rw (fine, read_hooks) at p)
                        (rw other at found) in
                    record {
                      hooked = later.hooked;
                      read = later.read;
                      stored = rw other later.stored;
                    }
              ])
      ]

  pub keys-read_hooks : (h : HostConfigs) → keys (read_hooks files root h).0 ≡ keys h
  unfolding keys read_hooks
  keys-read_hooks [] = refl
  keys-read_hooks ((k, j) ∷ h) = elim (Option-cases (read_job_hooks files root k j).1) [
    | inr (e, failed) ↦ rw (failed, read_hooks)
    | inl fine ↦ rw (fine, read_hooks) (ap (λ r. k ∷ r) (keys-read_hooks h))
  ]
