-- ===== src/Cmd/Run.antt =====
-- cmd/run.go: the calls of the queue that the command makes, one after the other, while the workers
-- go on. A call of `Enqueue` blocks until its job is in the channel.
pub mod Invariant
pub mod Complete
pub mod AllHosts
pub mod Ends
use zackup.Base.{
  ℕ, zero, suc, Bool, true, false, Option, none, some, List, [], ◌∷◌, ◌++◌, Str, if◌then◌else◌, ◌≡◌,
}
use zackup.Base.Int.{ℤ, pos, negsuc}
use zackup.Config.Job.{JobConfig}
use zackup.Config.Tree.{Tree, hosts, host}
use zackup.App.Queue.{Queue, Event, step, wait_returns}
use zackup.App.Queue
use zackup.App.Queue.Others.{IsOther}

pub data Call : Type 0 where
  resize : ℤ → Call
  enqueue : JobConfig → Call
  wait : Call

abbrev pub is_positive : ℤ → Bool
is_positive (pos (suc n)) = true
is_positive (pos zero) = false
is_positive (negsuc n) = false

abbrev pub enqueue_if : Option JobConfig → List Call → List Call
enqueue_if none calls = calls
enqueue_if (some j) calls = enqueue j ∷ calls

-- A host that is not known is ignored.
unfoldable pub enqueue_known : Tree → List Str → List Call
enqueue_known t [] = []
enqueue_known t (name ∷ names) = enqueue_if (host name t) (enqueue_known t names)

-- The hosts of the command line, or all.
abbrev pub asked : Tree → List Str → List Str
asked t [] = hosts t
asked t (name ∷ names) = name ∷ names

-- `runCmd`: the calls, for `--parallel` and the arguments.
unfoldable pub run : ℤ → List Str → Tree → List Call
run parallel args t =
    (if is_positive parallel then resize parallel ∷ [] else [])
    ++ (enqueue_known t (asked t args) ++ (wait ∷ []))

-- The command, with the calls that it has still to make, and the queue.
pub record Process : Type 0 where
  pub calls : List Call
  pub queue : Queue JobConfig

abbrev pub and_queue : List Call → Option (Queue JobConfig) → Option Process
and_queue calls none = none
and_queue calls (some q) = some (record { calls = calls; queue = q })

abbrev pub first_call : List Call → Queue JobConfig → Option Process
first_call [] q = none
first_call (resize n ∷ calls) q = and_queue calls (step JobConfig (Queue.resize n) q)
first_call (enqueue j ∷ calls) q = and_queue calls (step JobConfig (Queue.enqueue j) q)
first_call (wait ∷ calls) q = and_queue calls (if wait_returns JobConfig q then some q else none)

abbrev pub unless_sending : List JobConfig → Option Process → Option Process
unless_sending [] o = o
unless_sending (j ∷ js) o = none

-- The command makes its next call, or returns from `Wait`, once the one before has returned.
unfoldable pub main_step : Process → Option Process
main_step p = unless_sending p.queue.sending (first_call p.calls p.queue)

-- The steps of one interleaving of the command with the other goroutines.
pub data Runs (p : Process) : Process → Type 0 where
  here : Runs p p
  main : {r s : Process} → Runs p r → main_step r ≡ some s → Runs p s
  other :
      {r : Process}
      → {q : Queue JobConfig} → Runs p r
      → (e : Event JobConfig) → IsOther JobConfig e
      → step JobConfig e r.queue ≡ some q
      → Runs p (record r { queue = q })
