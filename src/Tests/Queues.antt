-- ===== src/Tests/Queues.antt =====
-- app/queue.go at concrete interleavings.
use mathlib.Core.List.{Perm}
use zackup.Base.{ℕ, ◌≤◌, ◌<◌, false, none, some, List, [], ◌∷◌, ◌++◌, length, ◌≡◌, refl, arith}
use zackup.Base.Int.{pos}
use zackup.App.Queue.{
  Worker, Queue, Event, resize, register, enqueue, send, receive, done, leave, resized, capped,
  close_all, shrink, copy, clear_from, find_worker, set_worker, remove_worker, is_closed, step,
  new_queue, Reach, wait_returns, job_queue_size, Cell,
}
use zackup.App.Queue
use zackup.App.Queue.Busy.{busy_jobs}
use zackup.App.Queue.Wait.{reach_lem, wait_complete}
use zackup.App.Queue.Size.{QuietReach, IsAskedSize, resize_settles, resize_twice, starved_waits}
use zackup.App.Queue.Size

-- The notes' example: five workers are reduced to three.
abbrev five_cells : List Cell
five_cells = some 0 ∷ some 1 ∷ some 2 ∷ some 3 ∷ some 4 ∷ []

shrink-five_cells : shrink 2 3 five_cells ≡ some 2 ∷ some 3 ∷ some 4 ∷ none ∷ none ∷ []
unfolding shrink copy clear_from
shrink-five_cells = refl

abbrev idle : Worker ℕ
idle = record { quit = 0; busy = none }

-- One worker, which has performed the job 7 while the job 8 waits in the channel.
abbrev one_done : Queue ℕ
one_done = record {
  workers = some 0 ∷ [];
  next_quit = 1;
  closed = [];
  spawning = 0;
  live = idle ∷ [];
  jobs = 8 ∷ [];
  sending = [];
  job_group = 1;
  enqueued = 7 ∷ 8 ∷ [];
  taken = 7 ∷ [];
  finished = 7 ∷ [];
}

one_done-Reach : Reach ℕ (new_queue ℕ) one_done
unfolding step new_queue find_worker set_worker
one_done-Reach =
    Queue.next
      (Queue.next
        (Queue.next
          (Queue.next (Queue.next (Queue.next Queue.here (enqueue 7) refl) (enqueue 8) refl) send
            refl)
          (receive 0) refl)
        send refl)
      (done 0) refl

reach_lem_example :
    (one_done.taken ++ (one_done.jobs ++ one_done.sending) ≡ one_done.enqueued)
    × Perm (one_done.finished ++ busy_jobs ℕ one_done.live) one_done.taken
    × (length one_done.jobs ≤ job_queue_size)
reach_lem_example = reach_lem ℕ one_done one_done-Reach

abbrev all_done : Queue ℕ
all_done = record one_done { jobs = []; job_group = 0; taken = 7 ∷ 8 ∷ []; finished = 7 ∷ 8 ∷ [] }

all_done-Reach : Reach ℕ (new_queue ℕ) all_done
unfolding step find_worker set_worker
all_done-Reach = Queue.next (Queue.next one_done-Reach (receive 0) refl) (done 0) refl

wait_complete_example :
    Perm all_done.finished all_done.enqueued × (all_done.taken ≡ all_done.enqueued)
wait_complete_example = wait_complete ℕ all_done all_done-Reach refl

-- A new queue, and then with `n` workers that start, and with `k` workers.
abbrev starting : ℕ → Queue ℕ
starting n = record one_done { spawning = n }

abbrev two_workers : Queue ℕ
two_workers = record one_done {
  workers = some 0 ∷ some 1 ∷ [];
  next_quit = 2;
  live = idle ∷ record { quit = 1; busy = none } ∷ [];
}

resize_settles_example : IsAskedSize ℕ (pos 2) (length two_workers.workers)
unfolding step resized capped
resize_settles_example =
    resize_settles ℕ (pos 2) one_done (starting 1) two_workers refl refl
      (Size.next Size.here register tt refl) refl

-- Two calls of `Resize(2)`, one after the other, end with three workers.
abbrev three_workers : Queue ℕ
three_workers = record one_done {
  workers = some 0 ∷ some 1 ∷ some 2 ∷ [];
  next_quit = 3;
  live = idle ∷ record { quit = 1; busy = none } ∷ record { quit = 2; busy = none } ∷ [];
}

resize_twice_example : capped (pos 2) < length three_workers.workers
unfolding step resized capped
resize_twice_example =
    resize_twice ℕ (pos 2) (pos 2) one_done (starting 1) (starting 2) three_workers (omega arith)
      refl refl (Size.next (Size.next Size.here register tt refl) register tt refl) refl

-- `Resize(0)`, and the only worker leaves.
abbrev no_workers : Queue ℕ
no_workers = record one_done { workers = []; closed = 0 ∷ []; live = [] }

no_workers-Reach : Reach ℕ (new_queue ℕ) no_workers
unfolding step resized capped close_all shrink copy clear_from find_worker remove_worker is_closed
no_workers-Reach = Queue.next (Queue.next one_done-Reach (resize (pos 0)) refl) (leave 0) refl

abbrev more_waiting : Queue ℕ
more_waiting = record no_workers { sending = 9 ∷ []; job_group = 2; enqueued = 7 ∷ 8 ∷ 9 ∷ [] }

starved_waits_example : wait_returns ℕ more_waiting ≡ false
unfolding step resized capped close_all shrink copy clear_from find_worker remove_worker is_closed
starved_waits_example =
    starved_waits ℕ one_done (record one_done { workers = []; closed = 0 ∷ [] }) no_workers
      more_waiting more_waiting 9 refl refl (Size.next Size.here (leave 0) tt refl) refl refl
      Size.here
