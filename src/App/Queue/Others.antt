-- ===== src/App/Queue/Others.antt =====
-- The steps of the goroutines other than those that call the queue.
use mathlib.Core.Path.{subst}
use mathlib.Core.Option.{some-injective}
use zackup.Base.{
  ℕ, zero, suc, Option, none, some, List, [], ◌∷◌, ltb, length, ◌≡◌, refl, arith, Bool-cases,
  Option-cases, inl, inr,
}
use zackup.App.Queue.{
  Worker, Queue, Event, resize, register, enqueue, send, receive, done, leave, find_worker,
  is_closed, step, job_queue_size, send_first, receive_first, done_with, leave_if, register_one,
}

module _ (Job : Type 0) where
  abbrev pub IsOther : Event Job → Type 0
  IsOther register = Unit
  IsOther send = Unit
  IsOther (receive c) = Unit
  IsOther (done c) = Unit
  IsOther (leave c) = Unit
  IsOther (resize n) = ⊥
  IsOther (enqueue j) = ⊥

  no_queue : {o : Option (Queue Job)} {s : Queue Job} → o ≡ none → o ≡ some s → ⊥
  no_queue p h = absurd (cc)

  -- The steps of the others neither enqueue jobs nor add to the group.
  pub record Same (q s : Queue Job) : Type 0 where
    pub enqueued : s.enqueued ≡ q.enqueued
    pub group : q.job_group ≡ 0 → s.job_group ≡ 0

  pub other-Same : (e : Event Job) (q s : Queue Job) → IsOther e → step Job e q ≡ some s → Same q s
  unfolding step
  other-Same register q s o h = go q.spawning h
    where
      go : (n : ℕ) → register_one Job n q ≡ some s → Same q s
      go zero h = absurd (no_queue refl h)
      go (suc n) h =
          subst (Same q) (some-injective _ _ h) (record { enqueued = refl; group = λ p. p })
  other-Same send q s o h = go q.sending h
    where
      go : (js : List Job) → send_first Job js q ≡ some s → Same q s
      go [] h = absurd (no_queue refl h)
      go (j ∷ js) h = elim (Bool-cases (ltb (length q.jobs) job_queue_size)) [
        | inl e ↦
            subst (Same q) (some-injective _ _ (rw (e, send_first) at h))
              (record { enqueued = refl; group = λ p. p })
        | inr e ↦ absurd (no_queue refl (rw (e, send_first) at h))
      ]
  other-Same (receive c) q s o h = go (find_worker Job c q.live) q.jobs h
    where
      go :
          (w : Option (Worker Job)) (js : List Job) → receive_first Job c w js q ≡ some s → Same q s
      go none js h = absurd (no_queue refl h)
      go (some w) [] h = absurd (no_queue refl h)
      go (some w) (j ∷ js) h = elim (Option-cases w.busy) [
        | inl e ↦
            subst (Same q) (some-injective _ _ (rw (e, receive_first) at h))
              (record { enqueued = refl; group = λ p. p })
        | inr (k, e) ↦ absurd (no_queue refl (rw (e, receive_first) at h))
      ]
  other-Same (done c) q s o h = go (find_worker Job c q.live) h
    where
      go : (w : Option (Worker Job)) → done_with Job c w q ≡ some s → Same q s
      go none h = absurd (no_queue refl h)
      go (some w) h = elim (Option-cases w.busy) [
        | inl e ↦ absurd (no_queue refl (rw (e, done_with) at h))
        | inr (k, e) ↦
            subst (Same q) (some-injective _ _ (rw (e, done_with) at h))
              (record { enqueued = refl; group = λ p. omega (arith, p) })
      ]
  other-Same (leave c) q s o h = go (find_worker Job c q.live) h
    where
      go : (w : Option (Worker Job)) → leave_if Job c w q ≡ some s → Same q s
      go none h = absurd (no_queue refl h)
      go (some w) h = elim (Option-cases w.busy) [
        | inr (k, e) ↦ absurd (no_queue refl (rw (e, leave_if) at h))
        | inl e ↦ elim (Bool-cases (is_closed Job c q.closed)) [
          | inl b ↦
              subst (Same q) (some-injective _ _ (rw (e, leave_if, b) at h))
                (record { enqueued = refl; group = λ p. p })
          | inr b ↦ absurd (no_queue refl (rw (e, leave_if, b) at h))
        ]
      ]
  other-Same (resize n) q s o h = absurd o
  other-Same (enqueue j) q s o h = absurd o
