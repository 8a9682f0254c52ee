-- ===== src/App/Queue/Drain.antt =====
-- The workers can finish all jobs.
use zackup.Base.{
  ℕ, zero, suc, ◌+◌, ◌*◌, ◌-◌, ◌≤◌, ◌<◌, ◌==◌, true, false, Option, none, some, List, [], ◌∷◌, ◌++◌,
  ltb, length, ◌≡◌, refl, sym, ◌∙◌, arith, ap, Bool-cases, Option-cases, inl, inr, ◌⊎◌, All,
}
use zackup.App.Queue.{
  Worker, Queue, Event, send, receive, done, find_worker, set_worker, step, new_queue, Reach, next,
  job_queue_size, send_first, receive_first, done_with, wait_returns,
}
use zackup.App.Queue.Busy.{busy_jobs, onto, set_worker-busy, set_worker-idle, perm-length}
use zackup.App.Queue.Jobs.{new_queue-Inv, Reach-Inv}
use zackup.App.Queue.Others.{IsOther}
use zackup.App.Queue.Quits.{DistinctNats, quits, Reach-Quits}

module _ (Job : Type 0) where
  length-set_worker :
      (c : ℕ) (o : Option Job) (ws : List (Worker Job)) → length (set_worker Job c o ws) ≡ length ws
  unfolding set_worker
  length-set_worker c o [] = refl
  length-set_worker c o (w ∷ ws) = elim (Bool-cases (w.quit == c)) [
    | inl e ↦ rw e
    | inr e ↦ rw e (ap suc (length-set_worker c o ws))
  ]

  record IsBusy (ws : List (Worker Job)) : Type 0 where
    channel : ℕ
    worker : Worker Job
    job : Job
    found : find_worker Job channel ws ≡ some worker
    performs : worker.busy ≡ some job

  find_worker-fresh :
      (c : ℕ) (ws : List (Worker Job))
      → All (λ d. (d == c) ≡ false) (quits Job ws)
      → find_worker Job c ws ≡ none
  unfolding find_worker
  find_worker-fresh c [] _ = refl
  find_worker-fresh c (w ∷ ws) (f, fs) = rw f (find_worker-fresh c ws fs)

  none_found : {w : Worker Job} {o : Option (Worker Job)} → o ≡ none → o ≡ some w → ⊥
  none_found p h = absurd (cc)

  -- No worker performs a job, or one that is found does.
  find-IsBusy :
      (ws : List (Worker Job)) → DistinctNats (quits Job ws) → (busy_jobs Job ws ≡ []) ⊎ IsBusy ws
  unfolding find_worker
  find-IsBusy [] _ = inl refl
  find-IsBusy (w ∷ ws) (f, d) = elim (Option-cases w.busy) [
    | inr (j, b) ↦
        inr (record { channel = w.quit; worker = w; job = j; found = ground arith; performs = b })
    | inl idle ↦ elim (find-IsBusy ws d) [
      | inl none_busy ↦ inl (rw idle none_busy)
      | inr r ↦ elim (Bool-cases (w.quit == r.channel)) [
        | inl same ↦
            let same_channel : w.quit ≡ r.channel = ground arith in
            absurd (
              none_found
                (ap (λ c. find_worker Job c ws) (sym same_channel) ∙ find_worker-fresh w.quit ws f)
                r.found)
        | inr other ↦ inr (record {
          channel = r.channel;
          worker = r.worker;
          job = r.job;
          found = rw other r.found;
          performs = r.performs;
        })
      ]
    ]
  ]

  -- What the workers have still to do.
  cost : Queue Job → ℕ
  cost q = length (busy_jobs Job q.live) + 2 * length q.jobs + 3 * length q.sending

  record Progress (q : Queue Job) : Type 0 where
    event : Event Job
    other : IsOther Job event
    after : Queue Job
    takes : step Job event q ≡ some after
    less : cost after < cost q
    alive : length after.live ≡ length q.live

  done-Progress : (q : Queue Job) → IsBusy q.live → Progress q
  unfolding cost step
  done-Progress q r =
      let moved = set_worker-idle Job r.channel r.job q.live r.found r.performs in
      record {
        event = done r.channel;
        other = tt;
        after = record q {
          live = set_worker Job r.channel none q.live;
          finished = q.finished ++ (r.job ∷ []);
          job_group = q.job_group - 1;
        };
        takes = rw (r.found, r.performs, done_with);
        less = ground (arith, perm-length Job moved);
        alive = length-set_worker r.channel none q.live;
      }

  receive-Progress :
      (q : Queue Job) (w : Worker Job) (j : Job) (js : List Job)
      → find_worker Job w.quit q.live ≡ some w
      → w.busy ≡ none
      → q.jobs ≡ j ∷ js
      → Progress q
  unfolding cost step
  receive-Progress q w j js found idle jobs =
      let moved = set_worker-busy Job w.quit j q.live found idle in
      record {
        event = receive w.quit;
        other = tt;
        after = record q {
          jobs = js;
          live = set_worker Job w.quit (some j) q.live;
          taken = q.taken ++ (j ∷ []);
        };
        takes = rw (found, jobs, receive_first, idle);
        less = ground (arith, perm-length Job moved, ap (length {A = Job}) jobs);
        alive = length-set_worker w.quit (some j) q.live;
      }

  send-Progress :
      (q : Queue Job) (j : Job) (js : List Job) → q.jobs ≡ [] → q.sending ≡ j ∷ js → Progress q
  unfolding cost step
  send-Progress q j js jobs sending =
      let room : ltb (length q.jobs) job_queue_size ≡ true = rw jobs in
      record {
        event = send;
        other = tt;
        after = record q { jobs = q.jobs ++ (j ∷ []); sending = js };
        takes = rw (sending, send_first, room);
        less = rw (jobs, sending) (omega arith);
        alive = refl;
      }

  idle_first : (o : Option Job) (js : List Job) → onto Job o js ≡ [] → o ≡ none
  idle_first none js p = refl
  idle_first (some j) js p = absurd (cc)

  -- Where a worker lives and a job is unfinished, a worker or a call that waits can go on.
  progress :
      (q : Queue Job)
      → Reach Job (new_queue Job) q
      → 1 ≤ length q.live
      → 1 ≤ q.job_group
      → Progress q
  unfolding find_worker
  progress q r alive unfinished =
      let v = Reach-Inv Job (new_queue-Inv Job) r in
      elim (find-IsBusy q.live (Reach-Quits Job r).distinct) [
        | inr b ↦ done-Progress q b
        | inl idle ↦
            with_live q.live refl idle q.jobs refl q.sending refl (ap (length {A = Job}) idle)
              v.group
      ]
    where
      with_live :
          (ws : List (Worker Job))
          → q.live ≡ ws
          → busy_jobs Job q.live ≡ []
          → (js : List Job) → q.jobs ≡ js
          → (ss : List Job) → q.sending ≡ ss
          → length (busy_jobs Job q.live) ≡ 0
          → q.job_group ≡ length (busy_jobs Job q.live) + length q.jobs + length q.sending
          → Progress q
      with_live [] p idle js jobs ss sending n g =
          absurd (ground (arith, ap (length {A = Worker Job}) p))
      with_live (w ∷ ws) p idle (j ∷ js) jobs ss sending n g =
          receive-Progress q w j js (rw p (ground arith))
            (idle_first w.busy (busy_jobs Job ws) (rw p at idle)) jobs
      with_live (w ∷ ws) p idle [] jobs (s ∷ ss) sending n g = send-Progress q s ss jobs sending
      with_live (w ∷ ws) p idle [] jobs [] sending n g =
          absurd (ground (arith, ap (length {A = Job}) jobs, ap (length {A = Job}) sending))

  -- Steps of the goroutines other than those that call the queue.
  pub data OtherReach : Queue Job → Queue Job → Type 0 where
    stay : {q : Queue Job} → OtherReach q q
    go_on :
        {q r s : Queue Job}
        → (e : Event Job) → IsOther Job e
        → step Job e q ≡ some r
        → OtherReach r s
        → OtherReach q s

  -- All jobs are finished, and the workers live.
  pub record Drained (q : Queue Job) : Type 0 where
    pub last : Queue Job
    pub steps : OtherReach q last
    pub reach : Reach Job (new_queue Job) last
    pub empty : wait_returns Job last ≡ true
    pub alive : length last.live ≡ length q.live

  drain_in :
      (n : ℕ) (q : Queue Job)
      → cost q ≤ n
      → Reach Job (new_queue Job) q
      → 1 ≤ length q.live
      → Drained q
  drain_in zero q fuel r alive = elim (Bool-cases (q.job_group == 0)) [
    | inl e ↦ record { last = q; steps = stay; reach = r; empty = e; alive = refl }
    | inr e ↦ let p = progress q r alive (ground arith) in absurd (omega (arith, p.less))
  ]
  drain_in (suc n) q fuel r alive = elim (Bool-cases (q.job_group == 0)) [
    | inl e ↦ record { last = q; steps = stay; reach = r; empty = e; alive = refl }
    | inr e ↦
        let p = progress q r alive (ground arith) in
        let d =
          drain_in n p.after (omega (arith, p.less)) (next r p.event p.takes)
            (omega (arith, p.alive)) in
        record {
          last = d.last;
          steps = go_on p.event p.other p.takes d.steps;
          reach = d.reach;
          empty = d.empty;
          alive = d.alive ∙ p.alive;
        }
  ]

  -- From every state of an interleaving from a new queue in which a worker lives, the workers and the
  -- calls that wait at the channel can go on until `Wait` can return, and the workers still live.
  pub drain : (q : Queue Job) → Reach Job (new_queue Job) q → 1 ≤ length q.live → Drained q
  drain q r alive = drain_in (cost q) q (omega arith) r alive
