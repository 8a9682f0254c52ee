-- ===== src/Tests/Settings.antt =====
-- config/script.go, config/job.go, app/ssh.go and the export of app/state.go at concrete inputs, as
-- in config/job_test.go.
use zackup.Base.{true, none, some, [], ◌∷◌, Str, codes, split, ◌≡◌, refl}
use zackup.Base.Result.{ok}
use zackup.Config.Script.{
  clean_script, clean_lines, is_ignored, trim_space, drop_last_empty, drop_cr, byte_len, is_space,
}
use zackup.Config.Script.Cleaned.{pieces, IsCleaned, clean_script_lem}
use zackup.Config.Job.{SshConfig, JobConfig, empty_job}
use zackup.App.Metrics.{zero_metrics}
use zackup.App.State.{State}

abbrev script_text : Str
script_text = codes "  sync  \n# a comment\n\nexit 0"

clean_script_lem_example : IsCleaned true (pieces script_text) (clean_script script_text)
unfolding byte_len split drop_last_empty
clean_script_lem_example = clean_script_lem script_text

clean_script-script_text : clean_script script_text ≡ ok (codes "sync" ∷ codes "exit 0" ∷ [])
unfolding clean_script clean_lines split drop_last_empty drop_cr trim_space is_ignored byte_len
    is_space
clean_script-script_text = refl

abbrev global_job : JobConfig
global_job = record (empty_job []) {
  ssh = some (record { user = codes "root"; port = 22; timeout = some 5 });
}

abbrev port_job : JobConfig
port_job = record (empty_job (codes "web")) {
  ssh = some (record { user = []; port = 2222; timeout = none });
}

abbrev merged : SshConfig
merged = record { user = codes "root"; port = 2222; timeout = some 5 }

abbrev two_hosts : State
two_hosts = record { hosts = (codes "web", zero_metrics) ∷ (codes "db", zero_metrics) ∷ [] }
