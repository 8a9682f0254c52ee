-- ===== src/App/Runner.antt =====
-- app/runner.go: one backup job. The processes that it starts (zfs, ssh, rsync) are actions of a
-- world: the world holds what was done so far, and the environment decides from that whether the
-- next action succeeds, and what `time.Now` gives.
pub mod Plan
pub mod Backup
pub mod Panics
use zackup.Base.{
  ℕ, Bool, true, false, Option, none, some, List, [], ◌∷◌, ◌++◌, Str, codes, if◌then◌else◌,
}
use zackup.Base.Time.{Time}
use zackup.Base.FilePath.{join_path}
use zackup.Config.Script.{Script, lines}
use zackup.Config.Job.{JobConfig, SshConfig}
use zackup.Config.Rsync.{RsyncConfig}
use zackup.App.State.{State, Command, dataset_name, start, success, failure}
use zackup.App.Ssh.{SshMaster, new_ssh_master, connect_args, execute_args, rsync_args}

pub data Action : Type 0 where
  zfs : Command → Action
  ssh_start : List Str → Action  -- the master of `connect`
  ssh_execute : List Str → List Str → Action  -- the arguments, and the lines sent to the shell
  rsync_run : List Str → Action
  ssh_terminate : Action  -- SIGTERM to the master
  ssh_kill : Action

-- An action with whether it succeeded.
abbrev pub Trace : Type 0
Trace = List (Action × Bool)

pub record Environment : Type 0 where
  pub root_dataset : Str
  pub mount_base : Str
  pub glob_match : Str → Str → Bool
  pub succeeds : Trace → Action → Bool
  pub now : Trace → Time
  pub format_time : Time → Str  -- `now.Format(time.RFC3339)`

-- What was done, the last action first, and the state of the program.
pub record World : Type 0 where
  pub done : Trace
  pub state : State

-- How a function returns: a nil error, an error, or a panic.
pub data Flow : Type 0 where
  fine errs panics : Flow

-- The next part runs if the error is nil.
infixl 5 ◌then_do◌
abbrev pub ◌then_do◌ : World × Flow → (World → World × Flow) → World × Flow
(w, fine) then_do f = f w
(w, errs) then_do f = (w, errs)
(w, panics) then_do f = (w, panics)

module _ (env : Environment) where
  unfoldable pub act : Action → World → World × Flow
  act a w =
      let done = env.succeeds w.done a in
      (record w { done = (a, done) ∷ w.done }, if done then fine else errs)

  -- Calls of `zfs` whose errors are ignored.
  unfoldable pub act_all : List Command → World → World
  act_all [] w = w
  act_all (c ∷ cs) w = act_all cs (act (zfs c) w).0

  -- `state.start(host)` and so on
  unfoldable pub update : (Time → State → State × List Command) → World → World
  update f w =
      let (s, commands) = f (env.now w.done) w.state in act_all commands (record w { state = s })

  -- `(*dataset).create` and `(*dataset).snapshot`
  unfoldable pub create_action : Str → Action
  create_action host = zfs (codes "create" ∷ codes "-p" ∷ dataset_name env.root_dataset host ∷ [])

  unfoldable pub snapshot_action : Str → Time → Action
  snapshot_action host t = zfs (
      codes "snapshot"
      ∷ (dataset_name env.root_dataset host ++ (codes "@" ++ env.format_time t))
      ∷ [])

  -- `if script := …; len(script) > 0 { … }`
  unfoldable pub execute : SshMaster → List Str → World → World × Flow
  execute m [] w = (w, fine)
  execute m (l ∷ ls) w = act (ssh_execute (execute_args m) (l ∷ ls)) w

  -- `m.rsync(job.RSync)`, which reads the fields of a nil pointer where there is no configuration
  unfoldable pub rsync : SshMaster → Option RsyncConfig → World → World × Flow
  rsync m none w = (w, panics)
  rsync m (some r) w = act (rsync_run (rsync_args env.glob_match m r)) w

  unfoldable pub snapshot : Str → World → World × Flow
  snapshot host w = act (snapshot_action host (env.now w.done)) w

  -- `(*sshMaster).close`
  unfoldable pub close : World → World
  close w =
      let (w', flow) = act ssh_terminate w in elim flow [ fine ↦ w' | _ ↦ (act ssh_kill w').0 ]

  -- What follows `connect`, up to the end of the function.
  unfoldable pub transfer : JobConfig → SshMaster → World → World × Flow
  transfer job m w =
      execute m (lines job.pre_script) w
      then_do rsync m job.rsync
      then_do execute m (lines job.post_script)
      then_do snapshot job.host

  -- The deferred `m.close()`
  unfoldable pub and_close : World × Flow → World × Flow
  and_close (w, flow) = (close w, flow)

  -- The first deferred function: it runs after `close`, and also while the function panics, when
  -- `err` is still nil.
  unfoldable pub finish : Str → World × Flow → World × Flow
  finish host (w, fine) = (update (success env.root_dataset host) w, fine)
  finish host (w, panics) = (update (success env.root_dataset host) w, panics)
  finish host (w, errs) = (update (failure env.root_dataset host) w, errs)

  -- `newSSHMaster(host, job.SSH)`, which reads the fields of a nil pointer where there is no
  -- configuration, and `connect` of the new master
  unfoldable pub connected : JobConfig → Option SshConfig → World → World × Flow
  connected job none w = (w, panics)
  connected job (some cfg) w =
      let m = new_ssh_master env.mount_base job.host cfg in
      act (ssh_start (connect_args m)) w then_do λ w'. and_close (transfer job m w')

  -- `PerformBackup`
  unfoldable pub perform_backup : JobConfig → World → World × Flow
  perform_backup job w = act (create_action job.host) w then_do λ w'.
      finish job.host (connected job job.ssh (update (start env.root_dataset job.host) w'))
