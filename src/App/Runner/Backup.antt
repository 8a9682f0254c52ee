-- ===== src/App/Runner/Backup.antt =====
-- A whole backup, app/runner.go: what is done and what is recorded of it.
use zackup.Base.{
  if◌then◌else◌, Bool, true, false, some, ◌∷◌, Str, ◌≡◌, ◌⊎◌, inl, inr, Bool-cases, ◌∙◌, ap,
}
use zackup.Config.Job.{JobConfig, SshConfig}
use zackup.Config.Rsync.{RsyncConfig}
use zackup.App.State.{start, success, failure}
use zackup.App.Ssh.{new_ssh_master, connect_args}
use zackup.App.Runner.{
  Action, ssh_start, ssh_terminate, ssh_kill, Trace, Environment, World, Flow, fine, errs, panics,
  act, update, create_action, close, and_close, finish, connected, perform_backup,
}
use zackup.App.Runner.Plan.{
  is_fine, Ran, run_steps, run_steps-Ran, run_steps-state, run_steps-flow, plan, transfer-run_steps,
}

module _ (env : Environment) where
  abbrev pub did : World → Action → Bool → World
  did w a done = record w { done = (a, done) ∷ w.done }

  -- `state.success` where all went well, and else `state.failure`
  abbrev pub record_result : Bool → Str → World → World
  record_result true host w = update env (success env.root_dataset host) w
  record_result false host w = update env (failure env.root_dataset host) w

  -- The master is told to exit, and is killed where this fails.
  abbrev pub terminated : World → World
  terminated w =
      let told = did w ssh_terminate false in
      if env.succeeds w.done ssh_terminate
      then did w ssh_terminate true
      else did told ssh_kill (env.succeeds told.done ssh_kill)

  close-terminated : (w : World) → close env w ≡ terminated w
  unfolding close act
  close-terminated w = elim (Bool-cases (env.succeeds w.done ssh_terminate)) [
    | inl e ↦ rw (e, close) (λ i. did w ssh_terminate (e i))
    | inr e ↦
        rw (e, close)
          (λ i.
            let told = did w ssh_terminate (e i) in
            did told ssh_kill (env.succeeds told.done ssh_kill))
  ]

  abbrev flow_of : Bool → Flow
  flow_of true = fine
  flow_of false = errs

  finish-and_close :
      (host : Str) (w : World) (r : World × Flow)
      → r.0.state ≡ w.state
      → (r.1 ≡ fine) ⊎ (r.1 ≡ errs)
      → finish env host (and_close env r) ≡ (
        record_result (is_fine r.1) host (close env (record w { done = r.0.done })),
        flow_of (is_fine r.1),
      )
  unfolding finish and_close
  finish-and_close host w (v, fine) e h = λ i. (
    update env (success env.root_dataset host) (close env (record { done = v.done; state = e i })),
    fine,
  )
  finish-and_close host w (v, errs) e h = λ i. (
    update env (failure env.root_dataset host) (close env (record { done = v.done; state = e i })),
    errs,
  )
  finish-and_close host w (v, panics) e (inl h) = cc
  finish-and_close host w (v, panics) e (inr h) = cc

  -- What follows the start.
  connected-plan :
      (job : JobConfig) (cfg : SshConfig) (r : RsyncConfig) (w : World)
      → job.rsync ≡ some r
      → let m = new_ssh_master env.mount_base job.host cfg in
        let connect = ssh_start (connect_args m) in
        ((env.succeeds w.done connect ≡ false)
          × (finish env job.host (connected env job (some cfg) w)
              ≡ (record_result false job.host (did w connect false), errs)))
        ⊎ ((after : Trace) × (all : Bool) × (env.succeeds w.done connect ≡ true)
            × Ran env (plan env job m r) ((connect, true) ∷ w.done) after all
            × (finish env job.host (connected env job (some cfg) w) ≡ (
              record_result all job.host (close env (record w { done = after })),
              flow_of all,
            )))
  unfolding connected act finish
  connected-plan job cfg r w hr =
      let m = new_ssh_master env.mount_base job.host cfg in
      let connect = ssh_start (connect_args m) in
      let w₂ = did w connect true in
      let t = run_steps env (plan env job m r) w₂ in
      elim (Bool-cases (env.succeeds w.done connect)) [
        | inr e ↦ inl (e, rw (e, connected))
        | inl e ↦ inr (
          t.0.done,
          is_fine t.1,
          e,
          run_steps-Ran env (plan env job m r) w₂,
          rw (e, connected)
              (rw (transfer-run_steps env job m r w₂ hr) (
                finish-and_close job.host w t (run_steps-state env (plan env job m r) w₂)
                  (run_steps-flow env (plan env job m r) w₂))),
        )
      ]

  -- The backup of a job ends in one of three ways. If the dataset cannot be created, nothing else
  -- happens and nothing is recorded. Otherwise the start is recorded, and if the master cannot be
  -- started, a failure is recorded and nothing else happens. Otherwise the steps of the plan, the
  -- scripts before, rsync, the scripts after and the snapshot, are done in order as far as each one
  -- succeeds; then the master is told to exit, and killed where this fails, and only then a
  -- success is recorded if all steps succeeded, and else a failure. The job has settings for ssh and for rsync.
  pub perform_backup-plan :
      (job : JobConfig) (cfg : SshConfig) (r : RsyncConfig) (w : World)
      → job.ssh ≡ some cfg
      → job.rsync ≡ some r
      → let create = create_action env job.host in
        let m = new_ssh_master env.mount_base job.host cfg in
        let connect = ssh_start (connect_args m) in
        let w₁ = update env (start env.root_dataset job.host) (did w create true) in
        ((env.succeeds w.done create ≡ false)
          × (perform_backup env job w ≡ (did w create false, errs)))
        ⊎ ((env.succeeds w.done create ≡ true)
            × (env.succeeds w₁.done connect ≡ false)
            × (perform_backup env job w
                ≡ (record_result false job.host (did w₁ connect false), errs)))
        ⊎ ((after : Trace) × (all : Bool) × (env.succeeds w.done create ≡ true)
            × (env.succeeds w₁.done connect ≡ true)
            × Ran env (plan env job m r) ((connect, true) ∷ w₁.done) after all
            × (perform_backup env job w ≡ (
              record_result all job.host (terminated (record w₁ { done = after })),
              flow_of all,
            )))
  unfolding perform_backup act
  perform_backup-plan job cfg r w hs hr =
      let create = create_action env job.host in
      let w₁ = update env (start env.root_dataset job.host) (did w create true) in
      let given = ap (λ o. finish env job.host (connected env job o w₁)) hs in
      elim (Bool-cases (env.succeeds w.done create)) [
        | inr e ↦ inl (e, rw (e, perform_backup))
        | inl e ↦ inr (elim (connected-plan job cfg r w₁ hr) [
          | inl (f, p) ↦ inl (e, f, rw (e, perform_backup) (given ∙ p))
          | inr (after, all, f, ran, p) ↦
              let end =
                ap (λ v. (record_result all job.host v, flow_of all))
                  (close-terminated (record w₁ { done = after })) in
              inr (after, all, e, f, ran, rw (e, perform_backup) (given ∙ p ∙ end))
        ])
      ]
