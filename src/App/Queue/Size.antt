-- ===== src/App/Queue/Size.antt =====
-- The number of workers of the queue.
use mathlib.Core.Option.{some-injective}
use mathlib.Core.Path.{subst}
use zackup.Base.{
  ℕ, zero, suc, ◌+◌, ◌-◌, ◌≤◌, ◌<◌, false, Option, none, some, List, [], ◌∷◌, length, ltb, ◌≡◌,
  refl, arith, length-append, length-drop, ◌∙◌, ap, Bool-cases, ◌⊎◌, inl, inr,
}
use zackup.Base.Int.{ℤ, pos, negsuc}
use zackup.App.Queue.{
  Worker, Queue, Event, resize, register, enqueue, send, receive, done, leave, resized, find_worker,
  step, send_first, receive_first, done_with, leave_if, register_one, wait_returns, capped,
  job_queue_size,
}
use zackup.App.Queue.Slices.{shrink_lem}

module _ (Job : Type 0) where
  -- The workers that are listed, and those that are still to be.
  unfoldable pub total : Queue Job → ℕ
  total q = length q.workers + q.spawning

  -- `Resize` accounts for the workers that are listed, but not for those that are still starting.
  pub total-resized : (n : ℕ) (q : Queue Job) → total (resized Job n q) ≡ n + q.spawning
  unfolding total resized
  total-resized n q = elim (Bool-cases (ltb n (length q.workers))) [
    | inl e ↦
        let kept = (shrink_lem (length q.workers - n) n q.workers (ground arith)).1 in
        rw (e, resized)
          (ground
            (arith, ap (length {A = Option ℕ}) kept, length-drop (length q.workers - n) q.workers))
    | inr e ↦ rw (e, resized) (ground arith)
  ]

  -- An event other than a call of `Resize`.
  abbrev pub IsQuiet : Event Job → Type 0
  IsQuiet (resize n) = ⊥
  IsQuiet _ = Unit

  total-step :
      (e : Event Job) (q s : Queue Job) → IsQuiet e → step Job e q ≡ some s → total s ≡ total q
  unfolding total step
  total-step (resize n) q s k h = absurd k
  total-step register q s k h = go q.spawning refl h
    where
      go :
          (n : ℕ)
          → q.spawning ≡ n
          → register_one Job n q ≡ some s
          → length s.workers + s.spawning ≡ length q.workers + q.spawning
      go zero p h = absurd (cc)
      go (suc n) p h =
          subst (λ (r : Queue Job). length r.workers + r.spawning ≡ length q.workers + q.spawning)
            (some-injective _ _ h) (omega (arith, length-append q.workers (some q.next_quit ∷ [])))
  total-step (enqueue j) q s k h = ground arith
  total-step send q s k h = ground arith
  total-step (receive c) q s k h = ground arith
  total-step (done c) q s k h = ground arith
  total-step (leave c) q s k h = ground arith

  -- An interleaving in which `Resize` is not called.
  pub data QuietReach (q : Queue Job) : Queue Job → Type 0 where
    here : QuietReach q q
    next :
        {r s : Queue Job}
        → QuietReach q r
        → (e : Event Job) → IsQuiet e
        → step Job e r ≡ some s
        → QuietReach q s

  total-QuietReach : {q s : Queue Job} → QuietReach q s → total s ≡ total q
  total-QuietReach here = refl
  total-QuietReach (next r e k h) = total-step e _ _ k h ∙ total-QuietReach r

  -- The size that a request leaves: a negative number counts as 1, and 255 is the most. The request 0
  -- stays 0.
  abbrev pub IsAskedSize : ℤ → ℕ → Type 0
  IsAskedSize (pos n) size = ((n ≤ 255) × (size ≡ n)) ⊎ ((255 < n) × (size ≡ 255))
  IsAskedSize (negsuc n) size = size ≡ 1

  -- After a call of `Resize` that finds no worker still starting, and until the next call, whenever no
  -- worker is still starting, the queue has as many workers as were asked for where that is from 0 to
  -- 255, 255 where more were asked for, and 1 where the number is negative. So it has none after
  -- `Resize(0)`, where the comment of the interface says that 1 is assumed for values less than 1.
  pub resize_settles :
      (n : ℤ) (q q' s : Queue Job)
      → q.spawning ≡ 0
      → step Job (resize n) q ≡ some q'
      → QuietReach q' s
      → s.spawning ≡ 0
      → IsAskedSize n (length s.workers)
  unfolding total step capped
  resize_settles n q q' s idle h r settled = go n (
      omega (
        arith,
        total-QuietReach r,
        total-resized (capped n) q,
        ap (λ (p : Queue Job). total p) (some-injective _ _ h),
      ))
    where
      go : (k : ℤ) → length s.workers ≡ capped k → IsAskedSize k (length s.workers)
      go (pos k) e = ground (arith, e)
      go (negsuc k) e = e

  resized-spawning : (n : ℕ) (q : Queue Job) → length q.workers < n → 1 ≤ (resized Job n q).spawning
  unfolding resized
  resized-spawning n q h = elim (Bool-cases (ltb n (length q.workers))) [
    | inl e ↦ absurd (ground arith)
    | inr e ↦ rw (e, resized) (ground arith)
  ]

  -- A call of `Resize` that follows one that enlarges the queue, before a worker has started, leaves
  -- too many workers: those that the first call starts are not counted by the second. The queue has
  -- more workers than the second size whenever no worker is still starting.
  pub resize_twice :
      (a b : ℤ) (q q₁ q₂ s : Queue Job)
      → length q.workers < capped a
      → step Job (resize a) q ≡ some q₁
      → step Job (resize b) q₁ ≡ some q₂
      → QuietReach q₂ s
      → s.spawning ≡ 0
      → capped b < length s.workers
  unfolding total step
  resize_twice a b q q₁ q₂ s grows h k r settled =
      let starting =
        subst (λ (p : Queue Job). 1 ≤ p.spawning) (some-injective _ _ h)
          (resized-spawning (capped a) q grows) in
      omega (
        arith,
        total-QuietReach r,
        total-resized (capped b) q₁,
        starting,
        ap (λ (p : Queue Job). total p) (some-injective _ _ k),
      )

  -- No worker runs, none starts, and a job is unfinished.
  pub record IsStarved (q : Queue Job) : Type 0 where
    pub no_worker : q.live ≡ []
    pub none_starts : q.spawning ≡ 0
    pub unfinished : 1 ≤ q.job_group

  no_step : {o : Option (Queue Job)} {s : Queue Job} → o ≡ none → o ≡ some s → ⊥
  no_step p h = absurd (cc)

  step-IsStarved :
      (e : Event Job) (q s : Queue Job)
      → IsQuiet e
      → IsStarved q
      → step Job e q ≡ some s
      → IsStarved s
  unfolding step find_worker
  step-IsStarved (resize n) q s k i h = absurd k
  step-IsStarved register q s k i h =
      absurd (no_step (ap (λ (n : ℕ). register_one Job n q) i.none_starts) h)
  step-IsStarved (enqueue j) q s k i h =
      subst IsStarved (some-injective _ _ h)
        (record { no_worker = i.no_worker; none_starts = i.none_starts; unfinished = ground arith })
  step-IsStarved send q s k i h = go q.sending h
    where
      go : (js : List Job) → send_first Job js q ≡ some s → IsStarved s
      go [] h = absurd (no_step refl h)
      go (j ∷ js) h = elim (Bool-cases (ltb (length q.jobs) job_queue_size)) [
        | inl e ↦ subst IsStarved (some-injective _ _ (rw (e, send_first) at h)) (record {
          no_worker = i.no_worker;
          none_starts = i.none_starts;
          unfinished = i.unfinished;
        })
        | inr e ↦ absurd (no_step refl (rw (e, send_first) at h))
      ]
  step-IsStarved (receive c) q s k i h = absurd (
      no_step
        (ap (λ (ws : List (Worker Job)). receive_first Job c (find_worker Job c ws) q.jobs q)
          i.no_worker)
        h)
  step-IsStarved (done c) q s k i h = absurd (
      no_step
        (ap (λ (ws : List (Worker Job)). done_with Job c (find_worker Job c ws) q) i.no_worker) h)
  step-IsStarved (leave c) q s k i h = absurd (
      no_step (ap (λ (ws : List (Worker Job)). leave_if Job c (find_worker Job c ws) q) i.no_worker)
        h)

  QuietReach-IsStarved : {q s : Queue Job} → IsStarved q → QuietReach q s → IsStarved s
  QuietReach-IsStarved i here = i
  QuietReach-IsStarved i (next r e k h) = step-IsStarved e _ _ k (QuietReach-IsStarved i r) h

  enqueue-IsStarved :
      (j : Job) (q s : Queue Job)
      → q.live ≡ []
      → q.spawning ≡ 0
      → step Job (enqueue j) q ≡ some s
      → IsStarved s
  unfolding step
  enqueue-IsStarved j q s gone idle h =
      subst IsStarved (some-injective _ _ h)
        (record { no_worker = gone; none_starts = idle; unfinished = omega arith })

  -- After a call of `Resize(0)` that finds no worker still starting, once the workers have left, a job
  -- that is enqueued keeps `Wait` from returning, for as long as `Resize` is not called again.
  pub starved_waits :
      (q q₀ q₁ q₂ s : Queue Job) (j : Job)
      → q.spawning ≡ 0
      → step Job (resize (pos 0)) q ≡ some q₀
      → QuietReach q₀ q₁
      → q₁.live ≡ []
      → step Job (enqueue j) q₁ ≡ some q₂
      → QuietReach q₂ s
      → wait_returns Job s ≡ false
  unfolding total step capped
  starved_waits q q₀ q₁ q₂ s j idle h r gone k t =
      let none_starts : q₁.spawning ≡ 0 = omega (
        arith,
        total-QuietReach r,
        total-resized 0 q,
        ap (λ (p : Queue Job). total p) (some-injective _ _ h),
      ) in
      let starved = QuietReach-IsStarved (enqueue-IsStarved j q₁ q₂ gone none_starts k) t in
      ground (arith, starved.unfinished)
