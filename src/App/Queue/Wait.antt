-- ===== src/App/Queue/Wait.antt =====
-- What holds when `Wait` returns, in every interleaving.
use mathlib.Core.List.{Perm}
use zackup.Base.{◌≤◌, true, List, [], ◌∷◌, ◌++◌, length, ◌≡◌, refl, arith, append-nil, ◌∙◌, sym}
use zackup.App.Queue.{Queue, new_queue, Reach, wait_returns, job_queue_size}
use zackup.App.Queue.Busy.{busy_jobs}
use zackup.App.Queue.Jobs.{new_queue-Inv, Reach-Inv}

length-nil : {A : Type 0} (xs : List A) → length xs ≡ 0 → xs ≡ []
length-nil [] h = refl
length-nil (x ∷ xs) h = absurd (omega arith)

module _ (Job : Type 0) where
  -- In every interleaving from a new queue: the jobs that were taken, those in the channel and those
  -- that wait for it are the jobs that were enqueued, in the order in which they were; the jobs
  -- finished and performed are the jobs taken, each once; and the channel is within its capacity.
  pub reach_lem :
      (q : Queue Job)
      → Reach Job (new_queue Job) q
      → (q.taken ++ (q.jobs ++ q.sending) ≡ q.enqueued)
        × Perm (q.finished ++ busy_jobs Job q.live) q.taken
        × (length q.jobs ≤ job_queue_size)
  reach_lem q r = let v = Reach-Inv Job (new_queue-Inv Job) r in (v.fifo, v.once, v.room)

  -- Whenever `Wait` can return, in any interleaving from a new queue, every job that was enqueued has
  -- been performed to its end, and once for each time that it was enqueued, and the jobs were taken
  -- in the order in which they were enqueued.
  pub wait_complete :
      (q : Queue Job)
      → Reach Job (new_queue Job) q
      → wait_returns Job q ≡ true
      → Perm q.finished q.enqueued × (q.taken ≡ q.enqueued)
  wait_complete q r w =
      let v = Reach-Inv Job (new_queue-Inv Job) r in
      let idle = length-nil (busy_jobs Job q.live) (ground (arith, v.group)) in
      let no_jobs = length-nil q.jobs (ground (arith, v.group)) in
      let no_sending = length-nil q.sending (ground (arith, v.group)) in
      let all : q.taken ≡ q.enqueued =
        sym (append-nil q.taken) ∙ rw (no_jobs, no_sending) at v.fifo in
      let done : Perm q.finished q.taken = rw (idle, append-nil) at v.once in (rw (← all) done, all)
