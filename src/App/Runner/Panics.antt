-- ===== src/App/Runner/Panics.antt =====
-- A backup of a job that lacks its settings, app/runner.go: neither the host's file nor globals.yml
-- need to have a section `ssh` or `rsync`.
use zackup.Base.{true, none, some, List, [], ◌∷◌, Str, str_eq_refl, ◌≡◌, refl, ◌∙◌, ap}
use zackup.Base.Dict.{lookup, lookup-insert}
use zackup.Base.Time.{Time}
use zackup.Config.Job.{JobConfig}
use zackup.App.Metrics.{Metrics}
use zackup.App.State.{State, Command, start, success, elapsed}
use zackup.App.State.Lifecycle.{lookup-start}
use zackup.App.Runner.Backup.{did, record_result}
use zackup.App.Runner.{
  Environment, World, Flow, panics, act, act_all, update, create_action, connected, finish,
  perform_backup,
}

module _ (env : Environment) where
  act_all-state : (cs : List Command) (w : World) → (act_all env cs w).state ≡ w.state
  unfolding act_all act
  act_all-state [] w = refl
  act_all-state (c ∷ cs) w = act_all-state cs _

  update-state :
      (f : Time → State → State × List Command) (w : World)
      → (update env f w).state ≡ (f (env.now w.done) w.state).0
  unfolding update
  update-state f w = act_all-state _ _

  lookup-success :
      (host : Str) (t : Time) (s : State) {m : Metrics}
      → lookup host s.hosts ≡ some m
      → lookup host (success env.root_dataset host t s).0.hosts
        ≡ some (record m { succeeded_at = some t; success_duration = elapsed t m })
  unfolding success
  lookup-success host t s found = rw (found, success) (rw lookup-insert (rw (str_eq_refl host)))

  -- Where a job has no settings for ssh, and its dataset can be created, the backup is this: the
  -- dataset is created, the start is recorded, a success is recorded, and the function panics. No
  -- master is started and no file is copied, but the host has a time of success afterwards.
  pub perform_backup_panics :
      (job : JobConfig) (w : World)
      → job.ssh ≡ none
      → env.succeeds w.done (create_action env job.host) ≡ true
      → let w₁ =
          update env
            (start env.root_dataset job.host)
            (did env w (create_action env job.host) true) in
        (perform_backup env job w ≡ (record_result env true job.host w₁, panics))
        × (m : Metrics) × (t : Time) × (lookup job.host (perform_backup env job w).0.state.hosts
            ≡ some m)
        × (m.succeeded_at ≡ some t)
  unfolding perform_backup act connected finish
  perform_backup_panics job w hs e =
      let create = create_action env job.host in
      let w₁ = update env (start env.root_dataset job.host) (did env w create true) in
      let whole : perform_backup env job w ≡ (record_result env true job.host w₁, panics) =
        rw (e, perform_backup) (ap (λ o. finish env job.host (connected env job o w₁)) hs) in
      let opened =
        ap (λ (s : State). lookup job.host s.hosts)
          (update-state (start env.root_dataset job.host) (did env w create true))
        ∙ lookup-start env.root_dataset job.host (env.now ((create, true) ∷ w.done)) w.state in
      let closed =
        ap (λ (s : State). lookup job.host s.hosts)
          (update-state (success env.root_dataset job.host) w₁)
        ∙ lookup-success job.host (env.now w₁.done) w₁.state opened in
      (whole, _, _, ap (λ (r : World × Flow). lookup job.host r.0.state.hosts) whole ∙ closed, refl)
