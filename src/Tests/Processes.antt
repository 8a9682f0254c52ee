-- ===== src/Tests/Processes.antt =====
-- app/ssh.go at a concrete script.
use zackup.Base.{true, not, ◌&&◌, ◌==◌, List, [], ◌∷◌, Str, codes, if◌then◌else◌, ◌≡◌}
use zackup.Base.Dict.{is_some}
use zackup.App.Ssh.{SshMaster}
use zackup.App.Ssh.Processes.{Outcomes, execute_run}
use zackup.App.Ssh.Processes.Sent.{sent, waited, sendable, all_sent, is_started, execute_run_lem}

abbrev master : SshMaster
master = record {
  host = codes "web";
  user = codes "root";
  port = 22;
  connect_timeout = 0;
  control_path = codes "/c";
  mount_path = codes "/m";
  tunnel = true;
}

-- The second line cannot be sent.
abbrev outcomes : Outcomes
outcomes = record { captures = true; pipes = true; starts = true; sends = λ k. k == 0; ends = true }

abbrev script : List Str
script = codes "sync" ∷ codes "false" ∷ codes "true" ∷ []

execute_run_lem_example :
    let r = execute_run outcomes master script in
    (is_some r.1 ≡ not (is_started outcomes && all_sent outcomes.sends 0 script && outcomes.ends))
    × (sent r.0 ≡ (if is_started outcomes then sendable outcomes.sends 0 script else []))
    × (waited r.0 ≡ (is_started outcomes && all_sent outcomes.sends 0 script))
execute_run_lem_example = execute_run_lem outcomes master script
