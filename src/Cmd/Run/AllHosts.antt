-- ===== src/Cmd/Run/AllHosts.antt =====
-- What the command without arguments has done when it returns, cmd/run.go.
use mathlib.Core.Logic.{∥∥₁_elim, ∥∥₁_prop}
use mathlib.Core.List.{Perm, Permᴰ}
use mathlib.Core.List.Perm
use zackup.Base.{
  false, Option, none, some, List, [], ◌∷◌, map, Str, contains, Distinct, str_eq, str_eq_iff,
  str_eq_refl, ◌≡◌, refl, ◌∙◌, arith, Bool-cases, inl, inr, All,
}
use zackup.Base.Dict.{Dict, lookup, keys}
use zackup.Base.Int.{ℤ}
use zackup.Config.Job.{JobConfig}
use zackup.Config.Tree.{Tree, hosts, host}
use zackup.Config.Tree.Hosts.{hosts_lem}
use zackup.App.Queue.{Queue, Reach, new_queue}
use zackup.Cmd.Run.{run, Process, Runs}
use zackup.Cmd.Run.Complete.{onto_jobs, known_jobs, run_completes}

onto_jobs-cons :
    (o : Option JobConfig) (js ks : List JobConfig)
    → Perm js ks
    → Perm (onto_jobs o js) (onto_jobs o ks)
onto_jobs-cons none js ks p = p
onto_jobs-cons (some j) js ks p = Perm.cons j p

onto_jobs-swap :
    (o u : Option JobConfig) (js : List JobConfig)
    → Perm (onto_jobs o (onto_jobs u js)) (onto_jobs u (onto_jobs o js))
onto_jobs-swap none u js = Perm.refl _
onto_jobs-swap (some j) none js = Perm.refl _
onto_jobs-swap (some j) (some k) js = Perm.swap k j js

known_jobs-Permᴰ :
    (t : Tree) {xs ys : List Str} → Permᴰ xs ys → Perm (known_jobs t xs) (known_jobs t ys)
known_jobs-Permᴰ t Permᴰ.nil = Perm.refl _
known_jobs-Permᴰ t (Permᴰ.cons {a = a} {b = b} {l₁ = xs} {l₂ = ys} e p) =
    rw e (onto_jobs-cons (host b t) (known_jobs t xs) (known_jobs t ys) (known_jobs-Permᴰ t p))
known_jobs-Permᴰ t (Permᴰ.swap {a = a} {b = b} {a' = x} {b' = y} {l = l} e f) =
    rw (e, f) (onto_jobs-swap (host y t) (host x t) (known_jobs t l))
known_jobs-Permᴰ t (Permᴰ.trans p q) = Perm.trans (known_jobs-Permᴰ t p) (known_jobs-Permᴰ t q)

module _ {V : Type 0} where
  -- The entries are what is found.
  abbrev pub Found : Dict V → Str × V → Type 0
  Found m e = lookup e.0 m ≡ some e.1

  Found-behind :
      (k : Str) (v : V) (m rest : Dict V)
      → contains (keys rest) k ≡ false
      → All (Found m) rest
      → All (Found ((k, v) ∷ m)) rest
  unfolding keys contains lookup
  Found-behind k v m [] c _ = tt
  Found-behind k v m ((j, w) ∷ rest) c (f, fs) = elim (Bool-cases (str_eq j k)) [
    | inl e ↦ absurd (ground arith)
    | inr e ↦
        (ground (arith, str_eq_iff k j, str_eq_iff j k), Found-behind k v m rest (rw e at c) fs)
  ]

  pub keys-Found : (m : Dict V) → Distinct (keys m) → All (Found m) m
  unfolding keys lookup
  keys-Found [] d = tt
  keys-Found ((k, v) ∷ m) (fresh, d) =
      (rw (str_eq_refl k), Found-behind k v m m fresh (keys-Found m d))

known_jobs-keys :
    (t : Tree) (h : Dict JobConfig)
    → All (Found t.hosts) h
    → known_jobs t (keys h) ≡ map (λ e. e.1) h
unfolding keys
known_jobs-keys t [] _ = refl
known_jobs-keys t ((k, j) ∷ h) (f, fs) =
    let here : host k t ≡ some j = (hosts_lem t).2 k ∙ f in rw (here, known_jobs-keys t h fs)

-- In every interleaving of `zackup run` without hosts on the command line, from a queue that comes
-- from a new one and to which no job was given, and with a tree that has no host twice: when the
-- command has returned, the jobs that were performed to their end are the jobs of the tree, each
-- once.
pub run_all_hosts :
    (parallel : ℤ) (t : Tree) (q : Queue JobConfig) (s : Process)
    → Distinct (keys t.hosts)
    → Reach JobConfig (new_queue JobConfig) q
    → q.enqueued ≡ []
    → Runs (record { calls = run parallel [] t; queue = q }) s
    → s.calls ≡ []
    → Perm s.queue.finished (map (λ e. e.1) t.hosts)
run_all_hosts parallel t q s d r fresh rs returned =
    let same : Perm (known_jobs t (hosts t)) (known_jobs t (keys t.hosts)) =
      ∥∥₁_elim (hosts_lem t).1 ∥∥₁_prop (known_jobs-Permᴰ t) in
    rw (← known_jobs-keys t t.hosts (keys-Found t.hosts d))
      (Perm.trans (run_completes parallel [] t q s r fresh rs returned) same)
