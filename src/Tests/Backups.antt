-- ===== src/Tests/Backups.antt =====
-- app/runner.go at a concrete job and in concrete environments.
use zackup.Base.{ℕ, Bool, true, false, none, some, [], ◌∷◌, codes, length, ltb, ◌≡◌, refl, ◌⊎◌}
use zackup.Base.Dict.{lookup}
use zackup.Base.Time.{Time}
use zackup.Config.Blacklist.Swallows.{prefix_match}
use zackup.Config.Job.{JobConfig, SshConfig}
use zackup.Config.Rsync.{RsyncConfig}
use zackup.Config.Script.{empty_script}
use zackup.App.Metrics.{Metrics}
use zackup.App.State.{start}
use zackup.App.Ssh.{new_ssh_master, connect_args}
use zackup.App.Runner.{
  ssh_start, Trace, Environment, World, fine, errs, panics, update, create_action, perform_backup,
}
use zackup.App.Runner.Plan.{Ran, plan}
use zackup.App.Runner.Backup.{did, terminated, record_result, perform_backup-plan}
use zackup.App.Runner.Panics.{perform_backup_panics}

-- An environment in which the first `n` actions succeed, and each takes a nanosecond.
abbrev environment : ℕ → Environment
environment n = record {
  root_dataset = codes "tank/zackup";
  mount_base = codes "/zackup";
  glob_match = prefix_match;
  succeeds = λ t a. ltb (length t) n;
  now = λ t. length t;
  format_time = λ t. codes "now";
}

abbrev ssh_config : SshConfig
ssh_config = record { user = codes "root"; port = 22; timeout = some 15 }

abbrev rsync_config : RsyncConfig
rsync_config = record {
  included = codes "/etc" ∷ [];
  excluded = [];
  arguments = codes "--perms" ∷ [];
  override_global_include = false;
  override_global_exclude = false;
  override_global_arguments = false;
}

abbrev job : JobConfig
job = record {
  host = codes "web";
  ssh = some ssh_config;
  rsync = some rsync_config;
  pre_script = record { inline = codes "sync" ∷ []; scripts = [] };
  post_script = empty_script;
}

abbrev first_world : World
first_world = record { done = []; state = record { hosts = [] } }

perform_backup-plan_example :
    let env = environment 4 in
    let create = create_action env job.host in
    let m = new_ssh_master env.mount_base job.host ssh_config in
    let connect = ssh_start (connect_args m) in
    let w₁ = update env (start env.root_dataset job.host) (did env first_world create true) in
    ((env.succeeds first_world.done create ≡ false)
      × (perform_backup env job first_world ≡ (did env first_world create false, errs)))
    ⊎ ((env.succeeds first_world.done create ≡ true)
        × (env.succeeds w₁.done connect ≡ false)
        × (perform_backup env job first_world
            ≡ (record_result env false job.host (did env w₁ connect false), errs)))
    ⊎ ((after : Trace) × (all : Bool) × (env.succeeds first_world.done create ≡ true)
        × (env.succeeds w₁.done connect ≡ true)
        × Ran env (plan env job m rsync_config) ((connect, true) ∷ w₁.done) after all
        × (perform_backup env job first_world ≡ (
          record_result env all job.host (terminated env (record w₁ { done = after })),
          elim all [ true ↦ fine | false ↦ errs ],
        )))
perform_backup-plan_example =
    perform_backup-plan (environment 4) job ssh_config rsync_config first_world refl refl

abbrev without_ssh : JobConfig
without_ssh = record job { ssh = none }

perform_backup_panics_example :
    let env = environment 4 in
    let w₁ =
      update env
        (start env.root_dataset job.host)
        (did env first_world (create_action env job.host) true) in
    (perform_backup env without_ssh first_world ≡ (record_result env true job.host w₁, panics))
    × (m : Metrics) × (t : Time) × (lookup job.host
          (perform_backup env without_ssh first_world).0.state.hosts
        ≡ some m)
    × (m.succeeded_at ≡ some t)
perform_backup_panics_example =
    perform_backup_panics (environment 4) without_ssh first_world refl refl
