-- ===== src/Cmd/Run/Ends.antt =====
-- The command can return, cmd/run.go.
use mathlib.Core.List.{Perm}
use mathlib.Core.Path.{subst}
use zackup.Base.{
  ℕ, ◌≤◌, ◌+◌, true, some, List, [], ◌∷◌, Str, length, ltb, ◌≡◌, refl, sym, ◌∙◌, arith, Bool-cases,
  inl, inr,
}
use zackup.Base.Int.{ℤ}
use zackup.Config.Job.{JobConfig}
use zackup.Config.Tree.{Tree, hosts}
use zackup.App.Queue.{Queue, step, Reach, new_queue, wait_returns, resized, capped}
use zackup.App.Queue
use zackup.App.Queue.Jobs.{new_queue-Inv, Reach-Inv}
use zackup.App.Queue.Drain.{OtherReach, stay, go_on, drain}
use zackup.Cmd.Run.{
  Call, resize, enqueue, wait, asked, run, Process, first_call, unless_sending, main_step, Runs,
  here, main, other,
}
use zackup.Cmd.Run.Invariant.{Runs-Reach}
use zackup.Cmd.Run.Complete.{known_jobs, run_completes}

Runs-then : {p r s : Process} → Runs p r → Runs r s → Runs p s
Runs-then a here = a
Runs-then a (main b h) = main (Runs-then a b) h
Runs-then a (other b e o h) = other (Runs-then a b) e o h

OtherReach-Runs :
    (calls : List Call) {q s : Queue JobConfig}
    → OtherReach JobConfig q s
    → Runs (record { calls = calls; queue = q }) (record { calls = calls; queue = s })
OtherReach-Runs calls stay = here
OtherReach-Runs calls (go_on e o h rest) = Runs-then (other here e o h) (OtherReach-Runs calls rest)

none_sending : (js : List JobConfig) (n : ℕ) → 0 ≡ n + length js → js ≡ []
none_sending [] n h = refl
none_sending (j ∷ js) n h = absurd (omega (arith, h))

live-resized : (n : ℤ) (q : Queue JobConfig) → (resized JobConfig (capped n) q).live ≡ q.live
unfolding resized
live-resized n q = elim (Bool-cases (ltb (capped n) (length q.workers))) [
  | inl e ↦ rw (e, resized)
  | inr e ↦ rw (e, resized)
]

-- The next call, where all jobs are finished.
record Called (c : Call) (calls : List Call) (q : Queue JobConfig) : Type 0 where
  after : Queue JobConfig
  takes : first_call (c ∷ calls) q ≡ some (record { calls = calls; queue = after })
  reach : Reach JobConfig (new_queue JobConfig) after
  alive : after.live ≡ q.live

called :
    (c : Call) (calls : List Call) (q : Queue JobConfig)
    → Reach JobConfig (new_queue JobConfig) q
    → wait_returns JobConfig q ≡ true
    → Called c calls q
unfolding step
called (resize n) calls q r e = record {
  after = resized JobConfig (capped n) q;
  takes = refl;
  reach = Queue.next r (Queue.resize n) refl;
  alive = live-resized n q;
}
called (enqueue j) calls q r e = record {
  after = _;
  takes = refl;
  reach = Queue.next r (Queue.enqueue j) refl;
  alive = refl;
}
called wait calls q r e = record { after = q; takes = rw e; reach = r; alive = refl }

pub record Returned (p : Process) : Type 0 where
  pub last : Process
  pub steps : Runs p last
  pub no_calls : last.calls ≡ []

can_return :
    (calls : List Call) (q : Queue JobConfig)
    → Reach JobConfig (new_queue JobConfig) q
    → 1 ≤ length q.live
    → Returned (record { calls = calls; queue = q })
unfolding main_step
can_return [] q r alive = record { last = _; steps = here; no_calls = refl }
can_return (c ∷ calls) q r alive =
    let d = drain JobConfig q r alive in
    let empty : d.last.job_group ≡ 0 = ground (arith, d.empty) in
    let v = Reach-Inv JobConfig (new_queue-Inv JobConfig) d.reach in
    let sent = none_sending d.last.sending _ (sym empty ∙ v.group) in
    let k = called c calls d.last d.reach d.empty in
    let rest = can_return calls k.after k.reach (rw (k.alive) (omega (arith, d.alive))) in
    record {
      last = rest.last;
      steps =
          Runs-then
            (main (OtherReach-Runs (c ∷ calls) d.steps)
              (rw (sent, main_step, unless_sending) k.takes))
            rest.steps;
      no_calls = rest.no_calls;
    }

-- The hosts of the command line, or else all hosts of the tree.
abbrev pub requested : Tree → List Str → List Str
requested t [] = hosts t
requested t (name ∷ names) = name ∷ names

asked-requested : (t : Tree) (args : List Str) → asked t args ≡ requested t args
asked-requested t [] = refl
asked-requested t (name ∷ names) = refl

-- From every state of an interleaving of `zackup run` in which a worker lives, from a queue that
-- comes from a new one and to which no job was given, the command and the workers can go on until
-- the command has returned; and then the jobs that were performed to their end are those of the
-- hosts of the command line that the tree knows, or of all its hosts where the command line has
-- none, each once for each time that it was asked for.
pub run_can_end :
    (parallel : ℤ) (args : List Str) (t : Tree) (q : Queue JobConfig) (p : Process)
    → Reach JobConfig (new_queue JobConfig) q
    → q.enqueued ≡ []
    → Runs (record { calls = run parallel args t; queue = q }) p
    → 1 ≤ length p.queue.live
    → (s : Process) × Runs p s
      × (s.calls ≡ [])
      × Perm s.queue.finished (known_jobs t (requested t args))
run_can_end parallel args t q p r fresh rs alive =
    let e = can_return p.calls p.queue (Runs-Reach r rs) alive in
    (
      e.last,
      e.steps,
      e.no_calls,
      subst (λ (names : List Str). Perm e.last.queue.finished (known_jobs t names))
          (asked-requested t args)
          (run_completes parallel args t q e.last r fresh (Runs-then rs e.steps) e.no_calls),
    )
