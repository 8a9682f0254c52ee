-- ===== src/App/Ssh/Settings.antt =====
-- The settings of an SSH master, from those of the job, the globals and the defaults: app/ssh.go and
-- config/job.go.
use mathlib.Core.Option.{some-injective}
use mathlib.Core.Path.{subst}
use zackup.Base.{ℕ, zero, suc, Option, none, some, List, [], ◌∷◌, Str, codes, ◌≡◌, arith}
use zackup.Config.Job.{SshConfig, JobConfig, merge_ssh, Arrays, merge_values, merge_globals}
use zackup.App.Ssh.{SshMaster, new_ssh_master}

-- The first text that is not empty, the first number that is not zero, and the first number that is
-- given, or zero.
abbrev pub first_text : List Str → Str
first_text [] = []
first_text ([] ∷ ts) = first_text ts
first_text ((c ∷ t) ∷ ts) = c ∷ t

abbrev pub first_number : List ℕ → ℕ
first_number [] = 0
first_number (zero ∷ ns) = first_number ns
first_number (suc n ∷ ns) = suc n

abbrev pub first_given : List (Option ℕ) → ℕ
first_given [] = 0
first_given (none ∷ os) = first_given os
first_given (some n ∷ os) = n

abbrev pub user_of : Option SshConfig → Str
user_of none = []
user_of (some c) = c.user

abbrev pub port_of : Option SshConfig → ℕ
port_of none = 0
port_of (some c) = c.port

abbrev pub timeout_of : Option SshConfig → Option ℕ
timeout_of none = none
timeout_of (some c) = c.timeout

abbrev IsMerged : Option SshConfig → Option SshConfig → SshMaster → Type 0
IsMerged j g m =
    (m.user ≡ first_text (user_of j ∷ user_of g ∷ codes "root" ∷ []))
    × (m.port ≡ first_number (port_of j ∷ port_of g ∷ 22 ∷ []))
    × (m.connect_timeout ≡ first_given (timeout_of j ∷ timeout_of g ∷ []))

new_ssh_master-IsMerged :
    (mount_base host : Str) (j g : Option SshConfig) {cfg : SshConfig}
    → merge_ssh j g ≡ some cfg
    → IsMerged j g (new_ssh_master mount_base host cfg)
unfolding merge_ssh new_ssh_master
new_ssh_master-IsMerged mount_base host none none h = cc
new_ssh_master-IsMerged mount_base host (some j) none h =
    subst (λ c. IsMerged (some j) none (new_ssh_master mount_base host c)) (some-injective _ _ h)
      (ground arith, ground arith, ground arith)
new_ssh_master-IsMerged mount_base host none (some g) h =
    subst (λ c. IsMerged none (some g) (new_ssh_master mount_base host c)) (some-injective _ _ h)
      (ground arith, ground arith, ground arith)
new_ssh_master-IsMerged mount_base host (some j) (some g) h =
    subst (λ c. IsMerged (some j) (some g) (new_ssh_master mount_base host c))
      (some-injective _ _ h) (ground arith, ground arith, ground arith)

-- The master of a job whose globals are merged in logs in as the user that the job gives, or else
-- the globals, or else as root; at the port that the job gives, or else the globals, or else at 22,
-- where 0 counts as not given; and with the timeout that the job gives, or else the globals. Where
-- neither gives one, the timeout is 0, for which no option is given, and not the 15 seconds of which
-- the comment of the field speaks. The job has settings for ssh after the merge.
pub new_ssh_master-merge_globals :
    (mount_base : Str) (arrays : Arrays) (j g : JobConfig) {cfg : SshConfig}
    → (merge_globals arrays j g).0.ssh ≡ some cfg
    → let m = new_ssh_master mount_base j.host cfg in
      (m.user ≡ first_text (user_of j.ssh ∷ user_of g.ssh ∷ codes "root" ∷ []))
      × (m.port ≡ first_number (port_of j.ssh ∷ port_of g.ssh ∷ 22 ∷ []))
      × (m.connect_timeout ≡ first_given (timeout_of j.ssh ∷ timeout_of g.ssh ∷ []))
unfolding merge_values merge_globals
new_ssh_master-merge_globals mount_base arrays j g h =
    new_ssh_master-IsMerged mount_base j.host j.ssh g.ssh h
