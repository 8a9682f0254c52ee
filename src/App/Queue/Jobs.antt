-- ===== src/App/Queue/Jobs.antt =====
-- What becomes of the jobs of the queue, in every interleaving.
use mathlib.Core.Path.{subst}
use mathlib.Core.Option.{some-injective}
use mathlib.Core.List.{Perm, perm_middle, perm_append_singleton}
use mathlib.Core.List.Perm
use zackup.Base.{
  ℕ, zero, suc, ◌+◌, ◌≤◌, Option, none, some, List, [], ◌∷◌, ◌++◌, length, ltb, ◌≡◌, refl, arith,
  append_assoc, length-append, ap, Bool-cases, Option-cases, inl, inr,
}
use zackup.App.Queue.Busy.{
  busy_jobs, set_worker-busy, set_worker-idle, remove_worker-busy, busy_jobs-append_idle,
  perm-length,
}
use zackup.App.Queue.{
  Worker, Queue, Event, resize, register, enqueue, send, receive, done, leave, resized, find_worker,
  set_worker, is_closed, step, new_queue, Reach, here, next, job_queue_size, capped, send_first,
  receive_first, done_with, leave_if, register_one,
}

module _ (Job : Type 0) where
  -- Every job that was enqueued is waiting, or was taken, in the order of `Enqueue`; the jobs that
  -- were taken are finished or performed, each once; the group counts those that are not finished;
  -- and the channel holds no more than its size.
  pub record Inv (q : Queue Job) : Type 0 where
    pub fifo : q.taken ++ (q.jobs ++ q.sending) ≡ q.enqueued
    pub once : Perm (q.finished ++ busy_jobs Job q.live) q.taken
    pub group : q.job_group ≡ length (busy_jobs Job q.live) + length q.jobs + length q.sending
    pub room : length q.jobs ≤ job_queue_size

  pub new_queue-Inv : Inv (new_queue Job)
  unfolding new_queue
  new_queue-Inv = record { fifo = refl; once = Perm.refl _; group = refl; room = omega arith }

  send-Inv : (q s : Queue Job) → Inv q → step Job send q ≡ some s → Inv s
  unfolding step
  send-Inv q s v e = go q.sending refl e
    where
      go : (js : List Job) → q.sending ≡ js → send_first Job js q ≡ some s → Inv s
      go [] p h = absurd (cc)
      go (j ∷ js) p h = elim (Bool-cases (ltb (length q.jobs) job_queue_size)) [
        | inr full ↦ absurd (ground arith)
        | inl room ↦ subst Inv (some-injective _ _ (rw room at h)) (record {
          fifo = rw (append_assoc q.jobs (j ∷ []) js) (rw p at v.fifo);
          once = v.once;
          group = ground (arith, v.group, ap (length {A = Job}) p, length-append q.jobs (j ∷ []));
          room = ground (arith, length-append q.jobs (j ∷ []));
        })
      ]

  enqueue-Inv : (j : Job) (q s : Queue Job) → Inv q → step Job (enqueue j) q ≡ some s → Inv s
  unfolding step
  enqueue-Inv j q s v e = subst Inv (some-injective _ _ e) (record {
    fifo =
        rw
          (
            ← append_assoc q.jobs q.sending (j ∷ []),
            ← append_assoc q.taken (q.jobs ++ q.sending) (j ∷ []),
          )
          (ap (λ js. js ++ (j ∷ [])) v.fifo);
    once = v.once;
    group = ground (arith, v.group, length-append q.sending (j ∷ []));
    room = v.room;
  })

  receive-Inv : (c : ℕ) (q s : Queue Job) → Inv q → step Job (receive c) q ≡ some s → Inv s
  unfolding step
  receive-Inv c q s v e = go (find_worker Job c q.live) refl q.jobs refl e
    where
      go :
          (o : Option (Worker Job))
          → find_worker Job c q.live ≡ o
          → (js : List Job) → q.jobs ≡ js
          → receive_first Job c o js q ≡ some s
          → Inv s
      go none found js p h = absurd (cc)
      go (some w) found [] p h = absurd (cc)
      go (some w) found (j ∷ js) p h = elim (Option-cases w.busy) [
        | inr (k, busy) ↦ absurd (ground arith)
        | inl idle ↦
            let moved = set_worker-busy Job c j q.live found idle in
            subst Inv (some-injective _ _ (rw (idle, receive_first) at h)) (record {
              fifo = rw (append_assoc q.taken (j ∷ []) (js ++ q.sending)) (rw p at v.fifo);
              once = Perm.trans (Perm.append_left q.finished moved) (
                  Perm.trans (perm_middle q.finished (busy_jobs Job q.live)) (
                    Perm.trans (Perm.cons j v.once) (Perm.symm (perm_append_singleton j q.taken))));
              group = ground (arith, v.group, perm-length Job moved, ap (length {A = Job}) p);
              room = ground (arith, v.room, ap (length {A = Job}) p);
            })
      ]

  done-Inv : (c : ℕ) (q s : Queue Job) → Inv q → step Job (done c) q ≡ some s → Inv s
  unfolding step
  done-Inv c q s v e = go (find_worker Job c q.live) refl e
    where
      go :
          (o : Option (Worker Job))
          → find_worker Job c q.live ≡ o
          → done_with Job c o q ≡ some s
          → Inv s
      go none found h = absurd (cc)
      go (some w) found h = elim (Option-cases w.busy) [
        | inl idle ↦ absurd (ground arith)
        | inr (j, busy) ↦
            let moved = set_worker-idle Job c j q.live found busy in
            subst Inv (some-injective _ _ (rw (busy, done_with) at h)) (record {
              fifo = v.fifo;
              once =
                  rw
                    (append_assoc q.finished (j ∷ [])
                      (busy_jobs Job (set_worker Job c none q.live)))
                    (Perm.trans (Perm.append_left q.finished (Perm.symm moved)) v.once);
              group = ground (arith, v.group, perm-length Job moved);
              room = v.room;
            })
      ]

  leave-Inv : (c : ℕ) (q s : Queue Job) → Inv q → step Job (leave c) q ≡ some s → Inv s
  unfolding step
  leave-Inv c q s v e = go (find_worker Job c q.live) refl e
    where
      go :
          (o : Option (Worker Job))
          → find_worker Job c q.live ≡ o
          → leave_if Job c o q ≡ some s
          → Inv s
      go none found h = absurd (cc)
      go (some w) found h = elim (Option-cases w.busy) [
        | inr (j, busy) ↦ absurd (ground arith)
        | inl idle ↦ elim (Bool-cases (is_closed Job c q.closed)) [
          | inr open' ↦ absurd (ground arith)
          | inl closed ↦
              let same = remove_worker-busy Job c q.live found idle in
              subst Inv (some-injective _ _ (rw (idle, leave_if, closed) at h)) (record {
                fifo = v.fifo;
                once = rw same v.once;
                group = rw same v.group;
                room = v.room;
              })
        ]
      ]

  register-Inv : (q s : Queue Job) → Inv q → step Job register q ≡ some s → Inv s
  unfolding step
  register-Inv q s v e = go q.spawning e
    where
      go : (n : ℕ) → register_one Job n q ≡ some s → Inv s
      go zero h = absurd (cc)
      go (suc n) h =
          let same = busy_jobs-append_idle Job q.live q.next_quit in
          subst Inv (some-injective _ _ h) (record {
            fifo = v.fifo;
            once = rw same v.once;
            group = rw same v.group;
            room = v.room;
          })

  resized-Inv : (n : ℕ) (q : Queue Job) → Inv q → Inv (resized Job n q)
  unfolding resized
  resized-Inv n q v = elim (Bool-cases (ltb n (length q.workers))) [
    | inl e ↦
        rw (e, resized) (record { fifo = v.fifo; once = v.once; group = v.group; room = v.room })
    | inr e ↦
        rw (e, resized) (record { fifo = v.fifo; once = v.once; group = v.group; room = v.room })
  ]

  pub step-Inv : (e : Event Job) (q s : Queue Job) → Inv q → step Job e q ≡ some s → Inv s
  step-Inv (resize n) q s v h =
      unfold step in subst Inv (some-injective _ _ h) (resized-Inv (capped n) q v)
  step-Inv register q s v h = register-Inv q s v h
  step-Inv (enqueue j) q s v h = enqueue-Inv j q s v h
  step-Inv send q s v h = send-Inv q s v h
  step-Inv (receive c) q s v h = receive-Inv c q s v h
  step-Inv (done c) q s v h = done-Inv c q s v h
  step-Inv (leave c) q s v h = leave-Inv c q s v h

  pub Reach-Inv : {q s : Queue Job} → Inv q → Reach Job q s → Inv s
  Reach-Inv v here = v
  Reach-Inv v (next r e h) = step-Inv e _ _ (Reach-Inv v r) h
