-- ===== src/App/Queue.antt =====
-- app/queue.go: the queue of jobs and its workers. The goroutines interleave: an event is one step of
-- one of them, and `step` is `none` where that step cannot be taken.
pub mod Slices
pub mod Busy
pub mod Jobs
pub mod Wait
pub mod Size
pub mod Others
pub mod Quits
pub mod Drain
use zackup.Base.{
  ℕ, zero, suc, ◌+◌, ◌-◌, ◌<◌, Bool, true, false, ◌&&◌, not, Option, none, some, List, [], ◌∷◌,
  ◌++◌, ltb, ◌==◌, length, take, drop, if◌then◌else◌, ◌≡◌,
}
use zackup.Base.Int.{ℤ, pos, negsuc}

abbrev pub max_parallelity : ℕ
max_parallelity = 255

abbrev pub job_queue_size : ℕ
job_queue_size = 16

-- The bounds that `Resize` puts on the size.
unfoldable pub capped : ℤ → ℕ
capped (negsuc n) = 1
capped (pos n) = if ltb max_parallelity n then max_parallelity else n

-- A cell of the slice `workers` holds a channel, or nil.
abbrev pub Cell : Type 0
Cell = Option ℕ

module _ {A : Type 0} where
  -- `copy(dst, src)`
  unfoldable pub copy : List A → List A → List A
  copy [] src = []
  copy (d ∷ dst) [] = d ∷ dst
  copy (d ∷ dst) (s ∷ src) = s ∷ copy dst src

-- `for i := range q.workers[newSize:] { q.workers[newSize+i] = nil }`
unfoldable pub clear_from : ℕ → List Cell → List Cell
clear_from n [] = []
clear_from zero (c ∷ cs) = none ∷ clear_from zero cs
clear_from (suc n) (c ∷ cs) = c ∷ clear_from n cs

-- The array under the slice after a surplus of `diff` workers was removed; the slice is its first
-- `new_size` cells.
unfoldable pub shrink : ℕ → ℕ → List Cell → List Cell
shrink diff new_size cells = clear_from new_size (copy cells (drop diff cells))

module _ (Job : Type 0) where
  -- A worker goroutine: its quit channel, and the job that it performs.
  pub record Worker : Type 0 where
    pub quit : ℕ
    pub busy : Option Job

  -- `spawning` counts the goroutines of `go q.newWorker()` that do not have the lock yet. `sending`
  -- are the jobs of calls of `Enqueue` that wait at the channel, in their order. `enqueued`, `taken`
  -- and `finished` keep what was done; the program does not read them.
  pub record Queue : Type 0 where
    pub workers : List Cell
    pub next_quit : ℕ
    pub closed : List ℕ
    pub spawning : ℕ
    pub live : List Worker
    pub jobs : List Job
    pub sending : List Job
    pub job_group : ℕ
    pub enqueued : List Job
    pub taken : List Job
    pub finished : List Job

  pub data Event : Type 0 where
    resize : ℤ → Event
    register : Event  -- a new worker gets the lock, appends its channel and starts
    enqueue : Job → Event
    send : Event  -- the first waiting job goes into the channel
    receive : ℕ → Event  -- the worker takes a job
    done : ℕ → Event  -- the worker has performed its job
    leave : ℕ → Event  -- the worker sees its channel closed

  -- What was a channel when it was closed.
  unfoldable pub close_all : List Cell → List ℕ → List ℕ
  close_all [] closed = closed
  close_all (none ∷ cells) closed = close_all cells closed
  close_all (some c ∷ cells) closed = close_all cells (c ∷ closed)

  -- `Resize`
  unfoldable pub resized : ℕ → Queue → Queue
  unfolding close_all shrink
  resized new_size q =
      let diff = length q.workers - new_size in
      if ltb new_size (length q.workers)
      then record q {
        closed = close_all (take diff q.workers) q.closed;
        workers = take new_size (shrink diff new_size q.workers);
      }
      else record q { spawning = q.spawning + (new_size - length q.workers) }

  -- The worker with the channel, in the state that is asked for, and the others.
  unfoldable pub find_worker : ℕ → List Worker → Option Worker
  find_worker c [] = none
  find_worker c (w ∷ ws) = let rest = find_worker c ws in if w.quit == c then some w else rest

  unfoldable pub set_worker : ℕ → Option Job → List Worker → List Worker
  set_worker c job [] = []
  set_worker c job (w ∷ ws) =
      let rest = w ∷ set_worker c job ws in
      if w.quit == c then record w { busy = job } ∷ ws else rest

  unfoldable pub remove_worker : ℕ → List Worker → List Worker
  remove_worker c [] = []
  remove_worker c (w ∷ ws) = let rest = w ∷ remove_worker c ws in if w.quit == c then ws else rest

  unfoldable pub is_closed : ℕ → List ℕ → Bool
  is_closed c [] = false
  is_closed c (d ∷ ds) = let rest = is_closed c ds in if d == c then true else rest

  -- `q.jobs <- job`: into the channel if it has room and nobody waits, as `send` does then.
  abbrev send_first : List Job → Queue → Option Queue
  send_first [] q = none
  send_first (j ∷ js) q =
      if ltb (length q.jobs) job_queue_size
      then some (record q { jobs = q.jobs ++ (j ∷ []); sending = js })
      else none

  abbrev receive_first : ℕ → Option Worker → List Job → Queue → Option Queue
  receive_first c none js q = none
  receive_first c (some w) [] q = none
  receive_first c (some w) (j ∷ js) q = elim w.busy [
    | some _ ↦ none
    | none ↦
        unfold set_worker in
        some
          (record q { jobs = js; live = set_worker c (some j) q.live; taken = q.taken ++ (j ∷ []) })
  ]

  abbrev done_with : ℕ → Option Worker → Queue → Option Queue
  done_with c none q = none
  done_with c (some w) q = elim w.busy [
    | none ↦ none
    | some j ↦
        unfold set_worker in
        some (record q {
          live = set_worker c none q.live;
          finished = q.finished ++ (j ∷ []);
          job_group = q.job_group - 1;
        })
  ]

  abbrev leave_if : ℕ → Option Worker → Queue → Option Queue
  leave_if c none q = none
  leave_if c (some w) q = elim w.busy [
    | some _ ↦ none
    | none ↦
        unfold is_closed remove_worker in
        if is_closed c q.closed then some (record q { live = remove_worker c q.live }) else none
  ]

  abbrev register_one : ℕ → Queue → Option Queue
  register_one zero q = none
  register_one (suc n) q = some (record q {
    spawning = n;
    workers = q.workers ++ (some q.next_quit ∷ []);
    live = q.live ++ (record { quit = q.next_quit; busy = none } ∷ []);
    next_quit = q.next_quit + 1;
  })

  unfoldable pub step : Event → Queue → Option Queue
  unfolding resized capped find_worker set_worker remove_worker is_closed
  step (resize n) q = some (resized (capped n) q)
  step register q = register_one q.spawning q
  step (enqueue job) q = some (record q {
    sending = q.sending ++ (job ∷ []);
    job_group = q.job_group + 1;
    enqueued = q.enqueued ++ (job ∷ []);
  })
  step send q = send_first q.sending q
  step (receive c) q = receive_first c (find_worker c q.live) q.jobs q
  step (done c) q = done_with c (find_worker c q.live) q
  step (leave c) q = leave_if c (find_worker c q.live) q

  -- `NewQueue`: one worker, which is there when the function returns.
  unfoldable pub new_queue : Queue
  new_queue = record {
    workers = some 0 ∷ [];
    next_quit = 1;
    closed = [];
    spawning = 0;
    live = record { quit = 0; busy = none } ∷ [];
    jobs = [];
    sending = [];
    job_group = 0;
    enqueued = [];
    taken = [];
    finished = [];
  }

  -- The steps of one interleaving.
  pub data Reach (q : Queue) : Queue → Type 0 where
    here : Reach q q
    next : {r s : Queue} → Reach q r → (e : Event) → step e r ≡ some s → Reach q s

  -- `Wait` returns when the group of the jobs is empty.
  abbrev pub wait_returns : Queue → Bool
  wait_returns q = q.job_group == 0
