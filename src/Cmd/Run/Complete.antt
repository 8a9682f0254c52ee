-- ===== src/Cmd/Run/Complete.antt =====
-- What the command has done when it returns, cmd/run.go.
use mathlib.Core.List.{Perm}
use zackup.Base.{
  Option, none, some, List, [], ◌∷◌, ◌++◌, Str, ◌≡◌, refl, sym, ◌∙◌, ap, arith, Bool-cases, inl,
  inr, append-nil,
}
use zackup.Base.Int.{ℤ}
use zackup.Config.Job.{JobConfig}
use zackup.Config.Tree.{Tree, host}
use zackup.App.Queue.{Queue, Reach, new_queue}
use zackup.App.Queue.Wait.{wait_complete}
use zackup.Cmd.Run.{
  Call, resize, wait, enqueue_if, enqueue_known, asked, run, Process, Runs, is_positive,
}
use zackup.Cmd.Run.Invariant.{jobs_in, Waits, Ends, Runs-RunInv, Runs-Reach}

-- The jobs of the hosts that are known.
abbrev pub onto_jobs : Option JobConfig → List JobConfig → List JobConfig
onto_jobs none js = js
onto_jobs (some j) js = j ∷ js

abbrev pub known_jobs : Tree → List Str → List JobConfig
known_jobs t [] = []
known_jobs t (name ∷ names) = onto_jobs (host name t) (known_jobs t names)

jobs_in-enqueue_if :
    (o : Option JobConfig) (calls : List Call)
    → jobs_in (enqueue_if o calls) ≡ onto_jobs o (jobs_in calls)
jobs_in-enqueue_if none calls = refl
jobs_in-enqueue_if (some j) calls = refl

jobs_in-enqueue_known :
    (t : Tree) (names : List Str)
    → jobs_in (enqueue_known t names ++ (wait ∷ [])) ≡ known_jobs t names
unfolding enqueue_known
jobs_in-enqueue_known t [] = refl
jobs_in-enqueue_known t (name ∷ names) = go (host name t) (jobs_in-enqueue_known t names)
  where
    go :
        (o : Option JobConfig)
        → jobs_in (enqueue_known t names ++ (wait ∷ [])) ≡ known_jobs t names
        → jobs_in (enqueue_if o (enqueue_known t names) ++ (wait ∷ []))
          ≡ onto_jobs o (known_jobs t names)
    go none p = p
    go (some j) p = ap (λ js. j ∷ js) p

jobs_in-run :
    (parallel : ℤ) (args : List Str) (t : Tree)
    → jobs_in (run parallel args t) ≡ known_jobs t (asked t args)
unfolding run
jobs_in-run parallel args t = elim (Bool-cases (is_positive parallel)) [
  | inl e ↦ rw e (jobs_in-enqueue_known t (asked t args))
  | inr e ↦ rw e (jobs_in-enqueue_known t (asked t args))
]

waits-last : (calls : List Call) (q : Queue JobConfig) → Ends (calls ++ (wait ∷ [])) q
waits-last [] q = tt
waits-last (c ∷ calls) q = go c calls
  where
    go : (c : Call) (calls : List Call) → Waits c (calls ++ (wait ∷ []))
    go c [] = tt
    go c (d ∷ calls) = go d calls

run-Ends :
    (parallel : ℤ) (args : List Str) (t : Tree) (q : Queue JobConfig) → Ends (run parallel args t) q
unfolding run
run-Ends parallel args t q =
    let names = enqueue_known t (asked t args) in
    elim (Bool-cases (is_positive parallel)) [
      | inl e ↦ rw e (waits-last (resize parallel ∷ names) q)
      | inr e ↦ rw e (waits-last names q)
    ]

-- In every interleaving of `zackup run` with the workers, from a queue that comes from a new one and
-- to which no job was given: when the command returns, the jobs that were performed to their end are
-- those of the hosts of the command line that the tree knows, or of all its hosts where the command
-- line has none, each once for each time that it was asked for.
pub run_completes :
    (parallel : ℤ) (args : List Str) (t : Tree) (q : Queue JobConfig) (s : Process)
    → Reach JobConfig (new_queue JobConfig) q
    → q.enqueued ≡ []
    → Runs (record { calls = run parallel args t; queue = q }) s
    → s.calls ≡ []
    → Perm s.queue.finished (known_jobs t (asked t args))
run_completes parallel args t q s r fresh rs returned =
    let v =
      Runs-RunInv (known_jobs t (asked t args))
        (record {
          jobs = rw fresh (jobs_in-run parallel args t);
          ends = run-Ends parallel args t q;
        })
        rs in
    let empty : s.queue.job_group ≡ 0 = rw returned at v.ends in
    let all : s.queue.enqueued ≡ known_jobs t (asked t args) =
      sym (append-nil s.queue.enqueued) ∙ rw returned at v.jobs in
    rw (← all) (wait_complete JobConfig s.queue (Runs-Reach r rs) (ground (arith, empty))).0
