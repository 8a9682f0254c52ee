-- ===== src/App/Ssh.antt =====
-- app/ssh.go: the SSH master of a job, and the arguments of the processes that it starts. A process
-- that is started is an action of the world, `App/Runner.antt`.
pub mod Settings
pub mod Processes
use zackup.Base.{
  ℕ, Bool, false, Option, none, some, List, [], ◌∷◌, ◌++◌, Str, codes, if◌then◌else◌, ◌==◌, ltb,
}
use zackup.Base.Decimal.{show}
use zackup.Base.FilePath.{join_path}
use zackup.Config.Job.{SshConfig}
use zackup.Config.Rsync.{RsyncConfig}
use zackup.Config.Argv.{build_arg_vector}

-- The mutex and the wait group are left out. `tunnel` says whether the process is there.
pub record SshMaster : Type 0 where
  pub host : Str
  pub user : Str
  pub port : ℕ
  pub connect_timeout : ℕ
  pub control_path : Str
  pub mount_path : Str
  pub tunnel : Bool

abbrev pub root_or : Str → Str
root_or [] = codes "root"
root_or (c ∷ user) = c ∷ user

abbrev pub or_zero : Option ℕ → ℕ
or_zero none = 0
or_zero (some t) = t

-- `newSSHMaster`; `mount_base` is the global variable.
unfoldable pub new_ssh_master : Str → Str → SshConfig → SshMaster
new_ssh_master mount_base host cfg = record {
  host = host;
  user = root_or cfg.user;
  port = if cfg.port == 0 then 22 else cfg.port;
  connect_timeout = or_zero cfg.timeout;
  control_path = join_path (mount_base ∷ codes ".zackup_%C" ∷ []);
  mount_path = join_path (mount_base ∷ host ∷ []);
  tunnel = false;
}

-- The arguments that `connect` and `execute` begin with.
unfoldable pub master_args : SshMaster → List Str
master_args c =
    codes "-S"
    ∷ c.control_path
    ∷ codes "-o"
    ∷ codes "ControlMaster=yes"
    ∷ codes "-o"
    ∷ codes "StrictHostKeyChecking=yes"
    ∷ (if ltb 0 c.connect_timeout
        then codes "-o" ∷ (codes "ConnectTimeout=" ++ show c.connect_timeout) ∷ []
        else [])

-- The arguments of `connect`.
unfoldable pub connect_args : SshMaster → List Str
connect_args c =
    master_args c
    ++ (codes "-n"
        ∷ codes "-N"
        ∷ codes "-T"
        ∷ codes "-x"
        ∷ codes "-p"
        ∷ show c.port
        ∷ codes "-l"
        ∷ c.user
        ∷ c.host
        ∷ [])

-- The arguments of `execute`.
unfoldable pub execute_args : SshMaster → List Str
execute_args c =
    master_args c
    ++ (codes "-p"
        ∷ show c.port
        ∷ codes "-x"
        ∷ codes "-l"
        ∷ c.user
        ∷ c.host
        ∷ codes "/bin/sh"
        ∷ codes "-esx"
        ∷ [])

-- `sshArg` and `srcArg` of `rsync`.
unfoldable pub ssh_arg : SshMaster → Str
ssh_arg c =
    (codes "ssh -S "
      ++ (c.control_path
          ++ (codes " -p " ++ (show c.port ++ codes " -x -oStrictHostKeyChecking=yes"))))
    ++ (if ltb 0 c.connect_timeout
        then codes " -oConnectTimeout=" ++ show c.connect_timeout
        else [])

unfoldable pub src_arg : SshMaster → Str
src_arg c = c.user ++ (codes "@" ++ (c.host ++ codes ":"))

-- The arguments of `rsync`.
unfoldable pub rsync_args : (Str → Str → Bool) → SshMaster → RsyncConfig → List Str
rsync_args glob_match c r = build_arg_vector glob_match r (ssh_arg c) (src_arg c) c.mount_path
