-- ===== src/App/Runner/Plan.antt =====
-- The order of the actions of a backup job, app/runner.go.
use zackup.Base.{
  Bool, true, false, some, List, [], ◌∷◌, ◌++◌, Str, ◌≡◌, refl, ◌⊎◌, inl, inr, Bool-cases, sym, ◌∙◌,
}
use zackup.Config.Script.{lines}
use zackup.Config.Job.{JobConfig}
use zackup.Config.Rsync.{RsyncConfig}
use zackup.App.Ssh.{SshMaster, execute_args, rsync_args}
use zackup.App.Runner.{
  Action, ssh_execute, rsync_run, Trace, Environment, World, Flow, fine, errs, panics, ◌then_do◌,
  act, snapshot_action, execute, rsync, snapshot, transfer,
}

-- An action that may depend on what was done so far (the snapshot's name has the time in it).
abbrev pub Step : Type 0
Step = Trace → Action

abbrev pub is_fine : Flow → Bool
is_fine fine = true
is_fine errs = false
is_fine panics = false

module _ (env : Environment) where
  -- The steps are done in order, each after the last one succeeded; the result is whether all of
  -- them succeeded.
  abbrev pub Ran : List Step → Trace → Trace → Bool → Type 0
  Ran [] before after all = (after ≡ before) × (all ≡ true)
  Ran (step ∷ steps) before after all =
      ((env.succeeds before (step before) ≡ true)
        × Ran steps ((step before, true) ∷ before) after all)
      ⊎ ((env.succeeds before (step before) ≡ false)
          × (after ≡ (step before, false) ∷ before)
          × (all ≡ false))

  unfoldable pub run_steps : List Step → World → World × Flow
  run_steps [] w = (w, fine)
  run_steps (step ∷ steps) w = act env (step w.done) w then_do run_steps steps

  pub run_steps-state : (steps : List Step) (w : World) → (run_steps steps w).0.state ≡ w.state
  unfolding run_steps act
  run_steps-state [] w = refl
  run_steps-state (step ∷ steps) w = elim (Bool-cases (env.succeeds w.done (step w.done))) [
    | inl e ↦ rw (e, run_steps) (run_steps-state steps _)
    | inr e ↦ rw (e, run_steps)
  ]

  pub run_steps-flow :
      (steps : List Step) (w : World)
      → ((run_steps steps w).1 ≡ fine) ⊎ ((run_steps steps w).1 ≡ errs)
  unfolding run_steps act
  run_steps-flow [] w = inl refl
  run_steps-flow (step ∷ steps) w = elim (Bool-cases (env.succeeds w.done (step w.done))) [
    | inl e ↦ rw (e, run_steps) (run_steps-flow steps _)
    | inr e ↦ rw (e, run_steps) (inr refl)
  ]

  pub run_steps-Ran :
      (steps : List Step) (w : World)
      → Ran steps w.done (run_steps steps w).0.done (is_fine (run_steps steps w).1)
  unfolding run_steps act
  run_steps-Ran [] w = (refl, refl)
  run_steps-Ran (step ∷ steps) w = elim (Bool-cases (env.succeeds w.done (step w.done))) [
    | inl e ↦ inl (e, rw (e, run_steps) (run_steps-Ran steps _))
    | inr e ↦ inr (e, rw (e, run_steps), rw (e, run_steps))
  ]

  -- Nothing is sent for a script without lines.
  abbrev pub script_steps : SshMaster → List Str → List Step
  script_steps m [] = []
  script_steps m (l ∷ ls) = (λ _. ssh_execute (execute_args m) (l ∷ ls)) ∷ []

  -- What is planned once the master runs.
  abbrev pub plan : JobConfig → SshMaster → RsyncConfig → List Step
  plan job m r =
      script_steps m (lines job.pre_script)
      ++ ((λ _. rsync_run (rsync_args env.glob_match m r))
          ∷ (script_steps m (lines job.post_script)
              ++ ((λ done. snapshot_action env job.host (env.now done)) ∷ [])))

  run_steps-append :
      (xs ys : List Step) (w : World)
      → run_steps (xs ++ ys) w ≡ (run_steps xs w then_do run_steps ys)
  unfolding run_steps
  run_steps-append [] ys w = refl
  run_steps-append (x ∷ xs) ys w = go (act env (x w.done) w) (run_steps-append xs ys)
    where
      go :
          (r : World × Flow)
          → ((w' : World) → run_steps (xs ++ ys) w' ≡ (run_steps xs w' then_do run_steps ys))
          → (r then_do run_steps (xs ++ ys)) ≡ ((r then_do run_steps xs) then_do run_steps ys)
      go (w', fine) ih = ih w'
      go (w', errs) ih = refl
      go (w', panics) ih = refl

  then_do-congr :
      (r : World × Flow) (f g : World → World × Flow)
      → ((w : World) → f w ≡ g w)
      → (r then_do f) ≡ (r then_do g)
  then_do-congr (w, fine) f g h = h w
  then_do-congr (w, errs) f g h = refl
  then_do-congr (w, panics) f g h = refl

  execute-run_steps :
      (m : SshMaster) (ls : List Str) (w : World)
      → execute env m ls w ≡ run_steps (script_steps m ls) w
  unfolding execute run_steps
  execute-run_steps m [] w = refl
  execute-run_steps m (l ∷ ls) w = last (act env _ w)
    where
      last : (r : World × Flow) → r ≡ (r then_do λ w'. (w', fine))
      last (w', fine) = refl
      last (w', errs) = refl
      last (w', panics) = refl

  then_do-fine : (r : World × Flow) → (r then_do λ w. (w, fine)) ≡ r
  then_do-fine (w, fine) = refl
  then_do-fine (w, errs) = refl
  then_do-fine (w, panics) = refl

  abbrev pub run_step : SshMaster → RsyncConfig → Step
  run_step m r = λ _. rsync_run (rsync_args env.glob_match m r)

  abbrev pub snap_step : Str → Step
  snap_step host = λ done. snapshot_action env host (env.now done)

  snapshot-run_steps :
      (host : Str) (w : World) → snapshot env host w ≡ run_steps (snap_step host ∷ []) w
  unfolding snapshot run_steps
  snapshot-run_steps host w = sym (then_do-fine (act env _ w))

  post-run_steps :
      (job : JobConfig) (m : SshMaster) (w : World)
      → (execute env m (lines job.post_script) w then_do snapshot env job.host)
        ≡ run_steps (script_steps m (lines job.post_script) ++ (snap_step job.host ∷ [])) w
  post-run_steps job m w = rw (execute-run_steps m (lines job.post_script) w) (
      then_do-congr (run_steps (script_steps m (lines job.post_script)) w) (snapshot env job.host)
        (run_steps (snap_step job.host ∷ [])) (snapshot-run_steps job.host)
      ∙ sym (run_steps-append (script_steps m (lines job.post_script)) _ w))

  then_do_assoc :
      (r : World × Flow) (f g : World → World × Flow)
      → (r then_do f then_do g) ≡ (r then_do λ w. f w then_do g)
  then_do_assoc (w, fine) f g = refl
  then_do_assoc (w, errs) f g = refl
  then_do_assoc (w, panics) f g = refl

  rsync-run_steps :
      (job : JobConfig) (m : SshMaster) (r : RsyncConfig) (w : World)
      → job.rsync ≡ some r
      → (rsync env m job.rsync w
          then_do execute env m (lines job.post_script)
          then_do snapshot env job.host)
        ≡ run_steps
            (run_step m r ∷ (script_steps m (lines job.post_script) ++ (snap_step job.host ∷ [])))
            w
  unfolding rsync run_steps
  rsync-run_steps job m r w e = rw e (
      then_do_assoc (act env (run_step m r w.done) w) (execute env m (lines job.post_script))
        (snapshot env job.host)
      ∙ then_do-congr (act env (run_step m r w.done) w)
          (λ w'. execute env m (lines job.post_script) w' then_do snapshot env job.host)
          (run_steps (script_steps m (lines job.post_script) ++ (snap_step job.host ∷ [])))
          (post-run_steps job m))

  -- With a configuration of rsync the steps of the plan are run.
  pub transfer-run_steps :
      (job : JobConfig) (m : SshMaster) (r : RsyncConfig) (w : World)
      → job.rsync ≡ some r
      → transfer env job m w ≡ run_steps (plan job m r) w
  unfolding transfer
  transfer-run_steps job m r w e =
      let pre = run_steps (script_steps m (lines job.pre_script)) w in
      let sync = rsync env m job.rsync in
      let post = execute env m (lines job.post_script) in
      let last = snapshot env job.host in
      let rest : World → World × Flow = λ w'. sync w' then_do post then_do last in
      rw (execute-run_steps m (lines job.pre_script) w) (
        then_do_assoc (pre then_do sync) post last
        ∙ then_do_assoc pre sync (λ w'. post w' then_do last)
        ∙ then_do-congr pre (λ w'. sync w' then_do λ w''. post w'' then_do last) rest
            (λ w'. sym (then_do_assoc (sync w') post last))
        ∙ then_do-congr pre rest _ (λ w'. rsync-run_steps job m r w' e)
        ∙ sym (run_steps-append (script_steps m (lines job.pre_script)) _ w))
