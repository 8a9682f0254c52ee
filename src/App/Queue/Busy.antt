-- ===== src/App/Queue/Busy.antt =====
-- The jobs that the workers of the queue perform.
use mathlib.Core.Logic.{∥∥₁_elim}
use native.Mathlib.Nat.{ℕ_set}
use mathlib.Core.List.{Perm, Permᴰ}
use mathlib.Core.List.Perm
use zackup.Base.{
  ℕ, suc, Option, none, some, List, [], ◌∷◌, ◌++◌, length, ◌==◌, ◌≡◌, refl, arith, ◌∙◌, ap,
  Bool-cases, inl, inr,
}
use zackup.App.Queue.{Worker, find_worker, set_worker, remove_worker}

module _ (Job : Type 0) where
  abbrev pub onto : Option Job → List Job → List Job
  onto none js = js
  onto (some j) js = j ∷ js

  -- The jobs that are performed.
  abbrev pub busy_jobs : List (Worker Job) → List Job
  busy_jobs [] = []
  busy_jobs (w ∷ ws) = onto w.busy (busy_jobs ws)

  onto-swap :
      (o : Option Job) (j : Job) (js ks : List Job)
      → Perm js (j ∷ ks)
      → Perm (onto o js) (j ∷ onto o ks)
  onto-swap none j js ks h = h
  onto-swap (some x) j js ks h = Perm.trans (Perm.cons x h) (Perm.swap j x ks)

  pub set_worker-busy :
      (c : ℕ) (j : Job) (ws : List (Worker Job)) {w : Worker Job}
      → find_worker Job c ws ≡ some w
      → w.busy ≡ none
      → Perm (busy_jobs (set_worker Job c (some j) ws)) (j ∷ busy_jobs ws)
  unfolding find_worker set_worker
  set_worker-busy c j [] h e = absurd (cc)
  set_worker-busy c j (v ∷ ws) {w} h e = elim (Bool-cases (v.quit == c)) [
    | inl same ↦ let idle : v.busy ≡ none = ground arith in rw (same, idle) (Perm.refl _)
    | inr other ↦
        rw other (onto-swap v.busy j _ _ (set_worker-busy c j ws {w = w} (ground arith) e))
  ]

  pub set_worker-idle :
      (c : ℕ) (j : Job) (ws : List (Worker Job)) {w : Worker Job}
      → find_worker Job c ws ≡ some w
      → w.busy ≡ some j
      → Perm (busy_jobs ws) (j ∷ busy_jobs (set_worker Job c none ws))
  unfolding find_worker set_worker
  set_worker-idle c j [] h e = absurd (cc)
  set_worker-idle c j (v ∷ ws) {w} h e = elim (Bool-cases (v.quit == c)) [
    | inl same ↦ let performs : v.busy ≡ some j = ground arith in rw (same, performs) (Perm.refl _)
    | inr other ↦
        rw other (onto-swap v.busy j _ _ (set_worker-idle c j ws {w = w} (ground arith) e))
  ]

  pub remove_worker-busy :
      (c : ℕ) (ws : List (Worker Job)) {w : Worker Job}
      → find_worker Job c ws ≡ some w
      → w.busy ≡ none
      → busy_jobs (remove_worker Job c ws) ≡ busy_jobs ws
  unfolding find_worker remove_worker
  remove_worker-busy c [] h e = absurd (cc)
  remove_worker-busy c (v ∷ ws) {w} h e = ground (arith, remove_worker-busy c ws {w = w})

  pub busy_jobs-append_idle :
      (ws : List (Worker Job)) (n : ℕ)
      → busy_jobs (ws ++ (record { quit = n; busy = none } ∷ [])) ≡ busy_jobs ws
  busy_jobs-append_idle [] n = refl
  busy_jobs-append_idle (w ∷ ws) n = rw (busy_jobs-append_idle ws n)

  permᴰ-length : {xs ys : List Job} → Permᴰ xs ys → length xs ≡ length ys
  permᴰ-length Permᴰ.nil = refl
  permᴰ-length (Permᴰ.cons e p) = ap suc (permᴰ-length p)
  permᴰ-length (Permᴰ.swap a b) = refl
  permᴰ-length (Permᴰ.trans p q) = permᴰ-length p ∙ permᴰ-length q

  pub perm-length : {xs ys : List Job} → Perm xs ys → length xs ≡ length ys
  perm-length p = ∥∥₁_elim p (ℕ_set _ _) permᴰ-length
