-- ===== src/App/Queue/Quits.antt =====
-- The channels of the workers are different, in every interleaving.
use mathlib.Core.Path.{subst}
use mathlib.Core.Option.{some-injective}
use zackup.Base.{
  ℕ, zero, suc, ◌+◌, ◌<◌, ◌==◌, false, Option, none, some, List, [], ◌∷◌, ◌++◌, ltb, length, ◌≡◌,
  refl, arith, ap, Bool-cases, Option-cases, inl, inr, All,
}
use zackup.App.Queue.{
  Worker, Queue, Event, resize, register, enqueue, send, receive, done, leave, resized, find_worker,
  set_worker, remove_worker, is_closed, step, new_queue, Reach, here, next, job_queue_size, capped,
  send_first, receive_first, done_with, leave_if, register_one,
}

abbrev pub DistinctNats : List ℕ → Type 0
DistinctNats [] = Unit
DistinctNats (c ∷ cs) = All (λ d. (d == c) ≡ false) cs × DistinctNats cs

fresh-snoc :
    (c n : ℕ) (cs : List ℕ)
    → c < n
    → All (λ d. (d == c) ≡ false) cs
    → All (λ d. (d == c) ≡ false) (cs ++ (n ∷ []))
fresh-snoc c n [] h _ = (ground arith, tt)
fresh-snoc c n (d ∷ cs) h (f, fs) = (f, fresh-snoc c n cs h fs)

distinct-snoc :
    (n : ℕ) (cs : List ℕ)
    → All (λ c. c < n) cs
    → DistinctNats cs
    → DistinctNats (cs ++ (n ∷ [])) × All (λ c. c < n + 1) (cs ++ (n ∷ []))
distinct-snoc n [] _ _ = ((tt, tt), (omega arith, tt))
distinct-snoc n (c ∷ cs) (l, ls) (f, d) =
    let (later, below) = distinct-snoc n cs ls d in
    ((fresh-snoc c n cs l f, later), (omega (arith, l), below))

module _ (Job : Type 0) where
  abbrev pub quits : List (Worker Job) → List ℕ
  quits [] = []
  quits (w ∷ ws) = w.quit ∷ quits ws

  -- No two workers have the same channel, and the next channel is a new one.
  pub record Quits (q : Queue Job) : Type 0 where
    pub below : All (λ c. c < q.next_quit) (quits q.live)
    pub distinct : DistinctNats (quits q.live)

  quits-append :
      (ws : List (Worker Job)) (n : ℕ)
      → quits (ws ++ (record { quit = n; busy = none } ∷ [])) ≡ quits ws ++ (n ∷ [])
  quits-append [] n = refl
  quits-append (w ∷ ws) n = ap (λ cs. w.quit ∷ cs) (quits-append ws n)

  pub quits-set_worker :
      (c : ℕ) (o : Option Job) (ws : List (Worker Job)) → quits (set_worker Job c o ws) ≡ quits ws
  unfolding set_worker
  quits-set_worker c o [] = refl
  quits-set_worker c o (w ∷ ws) = elim (Bool-cases (w.quit == c)) [
    | inl e ↦ rw e
    | inr e ↦ rw e (ap (λ cs. w.quit ∷ cs) (quits-set_worker c o ws))
  ]

  remove_worker-All :
      (P : ℕ → Type 0) (c : ℕ) (ws : List (Worker Job))
      → All P (quits ws)
      → All P (quits (remove_worker Job c ws))
  unfolding remove_worker
  remove_worker-All P c [] _ = tt
  remove_worker-All P c (w ∷ ws) (p, ps) = elim (Bool-cases (w.quit == c)) [
    | inl e ↦ rw e ps
    | inr e ↦ rw e (p, remove_worker-All P c ws ps)
  ]

  remove_worker-DistinctNats :
      (c : ℕ) (ws : List (Worker Job))
      → DistinctNats (quits ws)
      → DistinctNats (quits (remove_worker Job c ws))
  unfolding remove_worker
  remove_worker-DistinctNats c [] _ = tt
  remove_worker-DistinctNats c (w ∷ ws) (f, d) = elim (Bool-cases (w.quit == c)) [
    | inl e ↦ rw e d
    | inr e ↦
        rw e
          (remove_worker-All (λ b. (b == w.quit) ≡ false) c ws f, remove_worker-DistinctNats c ws d)
  ]

  no_queue : {o : Option (Queue Job)} {s : Queue Job} → o ≡ none → o ≡ some s → ⊥
  no_queue p h = absurd (cc)

  kept :
      (q s : Queue Job)
      → s.next_quit ≡ q.next_quit
      → quits s.live ≡ quits q.live
      → Quits q
      → Quits s
  kept q s n same v = record { below = rw (n, same) v.below; distinct = rw same v.distinct }

  step-Quits : (e : Event Job) (q s : Queue Job) → Quits q → step Job e q ≡ some s → Quits s
  unfolding step resized
  step-Quits (resize n) q s v h = elim (Bool-cases (ltb (capped n) (length q.workers))) [
    | inl e ↦ subst Quits (some-injective _ _ h) (rw (e, resized) (kept q _ refl refl v))
    | inr e ↦ subst Quits (some-injective _ _ h) (rw (e, resized) (kept q _ refl refl v))
  ]
  step-Quits register q s v h = go q.spawning h
    where
      go : (n : ℕ) → register_one Job n q ≡ some s → Quits s
      go zero h = absurd (no_queue refl h)
      go (suc n) h =
          let (distinct, below) = distinct-snoc q.next_quit (quits q.live) v.below v.distinct in
          subst Quits (some-injective _ _ h) (record {
            below = rw (quits-append q.live q.next_quit) below;
            distinct = rw (quits-append q.live q.next_quit) distinct;
          })
  step-Quits (enqueue j) q s v h = subst Quits (some-injective _ _ h) (kept q _ refl refl v)
  step-Quits send q s v h = go q.sending h
    where
      go : (js : List Job) → send_first Job js q ≡ some s → Quits s
      go [] h = absurd (no_queue refl h)
      go (j ∷ js) h = elim (Bool-cases (ltb (length q.jobs) job_queue_size)) [
        | inl e ↦ subst Quits (some-injective _ _ (rw (e, send_first) at h)) (kept q _ refl refl v)
        | inr e ↦ absurd (no_queue refl (rw (e, send_first) at h))
      ]
  step-Quits (receive c) q s v h = go (find_worker Job c q.live) q.jobs h
    where
      go : (w : Option (Worker Job)) (js : List Job) → receive_first Job c w js q ≡ some s → Quits s
      go none js h = absurd (no_queue refl h)
      go (some w) [] h = absurd (no_queue refl h)
      go (some w) (j ∷ js) h = elim (Option-cases w.busy) [
        | inr (k, e) ↦ absurd (no_queue refl (rw (e, receive_first) at h))
        | inl e ↦
            subst Quits (some-injective _ _ (rw (e, receive_first) at h))
              (kept q _ refl (quits-set_worker c (some j) q.live) v)
      ]
  step-Quits (done c) q s v h = go (find_worker Job c q.live) h
    where
      go : (w : Option (Worker Job)) → done_with Job c w q ≡ some s → Quits s
      go none h = absurd (no_queue refl h)
      go (some w) h = elim (Option-cases w.busy) [
        | inl e ↦ absurd (no_queue refl (rw (e, done_with) at h))
        | inr (k, e) ↦
            subst Quits (some-injective _ _ (rw (e, done_with) at h))
              (kept q _ refl (quits-set_worker c none q.live) v)
      ]
  step-Quits (leave c) q s v h = go (find_worker Job c q.live) h
    where
      go : (w : Option (Worker Job)) → leave_if Job c w q ≡ some s → Quits s
      go none h = absurd (no_queue refl h)
      go (some w) h = elim (Option-cases w.busy) [
        | inr (k, e) ↦ absurd (no_queue refl (rw (e, leave_if) at h))
        | inl e ↦ elim (Bool-cases (is_closed Job c q.closed)) [
          | inr b ↦ absurd (no_queue refl (rw (e, leave_if, b) at h))
          | inl b ↦ subst Quits (some-injective _ _ (rw (e, leave_if, b) at h)) (record {
            below = remove_worker-All (λ d. d < q.next_quit) c q.live v.below;
            distinct = remove_worker-DistinctNats c q.live v.distinct;
          })
        ]
      ]

  pub Reach-Quits : {q : Queue Job} → Reach Job (new_queue Job) q → Quits q
  unfolding new_queue
  Reach-Quits here = record { below = (omega arith, tt); distinct = (tt, tt) }
  Reach-Quits (next r e h) = step-Quits e _ _ (Reach-Quits r) h
