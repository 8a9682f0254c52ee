-- ===== src/Cmd/Run/Invariant.antt =====
-- What holds in each state of the command, cmd/run.go.
use mathlib.Core.Path.{subst}
use mathlib.Core.Option.{some-injective}
use zackup.Base.{
  Option, none, some, List, [], ◌∷◌, ◌++◌, ◌≡◌, refl, ◌∙◌, arith, Bool-cases, inl, inr,
  append_assoc, ltb, length,
}
use zackup.Base.Int.{ℤ}
use zackup.Config.Job.{JobConfig}
use zackup.App.Queue.{Queue, Event, step, wait_returns, Reach, new_queue, resized, capped}
use zackup.App.Queue
use zackup.App.Queue.Others.{Same, other-Same}
use zackup.Cmd.Run.{
  Call, resize, enqueue, wait, Process, first_call, unless_sending, main_step, Runs, here, main,
  other,
}

-- The jobs that the calls enqueue.
abbrev pub jobs_in : List Call → List JobConfig
jobs_in [] = []
jobs_in (resize n ∷ calls) = jobs_in calls
jobs_in (enqueue j ∷ calls) = j ∷ jobs_in calls
jobs_in (wait ∷ calls) = jobs_in calls

-- The last of the calls is `Wait`.
abbrev pub IsWait : Call → Type 0
IsWait wait = Unit
IsWait (resize n) = ⊥
IsWait (enqueue j) = ⊥

abbrev pub Waits : Call → List Call → Type 0
Waits c [] = IsWait c
Waits c (d ∷ calls) = Waits d calls

-- The command is before its `Wait`, or `Wait` has returned and may return.
abbrev pub Ends : List Call → Queue JobConfig → Type 0
Ends [] q = q.job_group ≡ 0
Ends (c ∷ calls) q = Waits c calls

no_process : {o : Option Process} {s : Process} → o ≡ none → o ≡ some s → ⊥
no_process p h = absurd (cc)

-- What holds in each state of the command: the jobs that were enqueued and those that will be are
-- the same all the time, and `Wait` comes last.
pub record RunInv (all : List JobConfig) (p : Process) : Type 0 where
  pub jobs : p.queue.enqueued ++ jobs_in p.calls ≡ all
  pub ends : Ends p.calls p.queue

resized-enqueued :
    (n : ℤ) (q : Queue JobConfig) → (resized JobConfig (capped n) q).enqueued ≡ q.enqueued
unfolding resized
resized-enqueued n q = elim (Bool-cases (ltb (capped n) (length q.workers))) [
  | inl e ↦ rw (e, resized)
  | inr e ↦ rw (e, resized)
]

Ends-next :
    (c : Call) (calls : List Call) (q : Queue JobConfig)
    → Waits c calls
    → (IsWait c → q.job_group ≡ 0)
    → Ends calls q
Ends-next c [] q w f = f w
Ends-next c (d ∷ calls) q w f = w

call-RunInv :
    (all : List JobConfig) (c : Call) (calls : List Call) (q : Queue JobConfig) (s : Process)
    → RunInv all (record { calls = c ∷ calls; queue = q })
    → first_call (c ∷ calls) q ≡ some s
    → RunInv all s
unfolding step
call-RunInv all (resize n) calls q s v h = subst (RunInv all) (some-injective _ _ h) (record {
  jobs = rw (resized-enqueued n q) v.jobs;
  ends = Ends-next (resize n) calls _ v.ends (λ w. absurd w);
})
call-RunInv all (enqueue j) calls q s v h = subst (RunInv all) (some-injective _ _ h) (record {
  jobs = append_assoc q.enqueued (j ∷ []) (jobs_in calls) ∙ v.jobs;
  ends = Ends-next (enqueue j) calls _ v.ends (λ w. absurd w);
})
call-RunInv all wait calls q s v h = elim (Bool-cases (wait_returns JobConfig q)) [
  | inr e ↦ absurd (no_process refl (rw (e, first_call) at h))
  | inl e ↦
      subst (RunInv all) (some-injective _ _ (rw (e, first_call) at h))
        (record { jobs = v.jobs; ends = Ends-next wait calls q v.ends (λ w. ground (arith, e)) })
]

main-RunInv :
    (all : List JobConfig) (p s : Process) → RunInv all p → main_step p ≡ some s → RunInv all s
unfolding main_step
main-RunInv all p s v h = go p.queue.sending h
  where
    calls_first :
        (calls : List Call)
        → RunInv all (record { calls = calls; queue = p.queue })
        → first_call calls p.queue ≡ some s
        → RunInv all s
    calls_first [] v h = absurd (no_process refl h)
    calls_first (c ∷ calls) v h = call-RunInv all c calls p.queue s v h

    go :
        (js : List JobConfig)
        → unless_sending js (first_call p.calls p.queue) ≡ some s
        → RunInv all s
    go (j ∷ js) h = absurd (no_process refl h)
    go [] h = calls_first p.calls v h

main-Reach :
    (p s : Process)
    → Reach JobConfig (new_queue JobConfig) p.queue
    → main_step p ≡ some s
    → Reach JobConfig (new_queue JobConfig) s.queue
unfolding main_step step
main-Reach p s r h = go p.queue.sending h
  where
    calls_first :
        (calls : List Call)
        → first_call calls p.queue ≡ some s
        → Reach JobConfig (new_queue JobConfig) s.queue
    calls_first [] h = absurd (no_process refl h)
    calls_first (resize n ∷ calls) h =
        subst (λ (u : Process). Reach JobConfig (new_queue JobConfig) u.queue)
          (some-injective _ _ h) (Queue.next r (Queue.resize n) refl)
    calls_first (enqueue j ∷ calls) h =
        subst (λ (u : Process). Reach JobConfig (new_queue JobConfig) u.queue)
          (some-injective _ _ h) (Queue.next r (Queue.enqueue j) refl)
    calls_first (wait ∷ calls) h = elim (Bool-cases (wait_returns JobConfig p.queue)) [
      | inr e ↦ absurd (no_process refl (rw (e, first_call) at h))
      | inl e ↦
          subst (λ (u : Process). Reach JobConfig (new_queue JobConfig) u.queue)
            (some-injective _ _ (rw (e, first_call) at h)) r
    ]

    go :
        (js : List JobConfig)
        → unless_sending js (first_call p.calls p.queue) ≡ some s
        → Reach JobConfig (new_queue JobConfig) s.queue
    go (j ∷ js) h = absurd (no_process refl h)
    go [] h = calls_first p.calls h

Ends-Same :
    (calls : List Call) (q s : Queue JobConfig) → Same JobConfig q s → Ends calls q → Ends calls s
Ends-Same [] q s same e = same.group e
Ends-Same (c ∷ calls) q s same e = e

pub Runs-RunInv : (all : List JobConfig) {p s : Process} → RunInv all p → Runs p s → RunInv all s
Runs-RunInv all v here = v
Runs-RunInv all v (main r h) = main-RunInv all _ _ (Runs-RunInv all v r) h
Runs-RunInv all v (other {r = r} {q = q} rs e o h) =
    let w = Runs-RunInv all v rs in
    let same = other-Same JobConfig e r.queue q o h in
    record { jobs = rw same.enqueued w.jobs; ends = Ends-Same r.calls r.queue q same w.ends }

-- The queue of the command comes from a new one.
pub Runs-Reach :
    {p s : Process}
    → Reach JobConfig (new_queue JobConfig) p.queue
    → Runs p s
    → Reach JobConfig (new_queue JobConfig) s.queue
Runs-Reach r here = r
Runs-Reach r (main {r = u} rs h) = main-Reach u _ (Runs-Reach r rs) h
Runs-Reach r (other rs e o h) = Queue.next (Runs-Reach r rs) e h
