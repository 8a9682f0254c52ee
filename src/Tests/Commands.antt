-- ===== src/Tests/Commands.antt =====
-- cmd/run.go at concrete interleavings.
use mathlib.Core.List.{Perm}
use zackup.Base.{none, some, List, [], ◌∷◌, map, Str, codes, str_eq, contains, ◌≡◌, refl, arith}
use zackup.Base.Dict.{lookup, keys}
use zackup.Base.Int.{pos}
use zackup.Base.Sort.{sort_by, insert_by, str_le}
use zackup.Config.Job.{JobConfig, empty_job, merge_values}
use zackup.Config.Tree.{Tree, new_tree, hosts, host}
use zackup.App.Queue.{Queue, new_queue, Reach, step, send, receive, done, find_worker, set_worker}
use zackup.App.Queue
use zackup.Cmd.Run.{Process, Runs, run, enqueue_known, main_step, here, main, other}
use zackup.Cmd.Run.Complete.{known_jobs}
use zackup.Cmd.Run.AllHosts.{run_all_hosts}
use zackup.Cmd.Run.Ends.{requested, run_can_end}

abbrev web_job : JobConfig
web_job = empty_job (codes "web")

abbrev one_host : Tree
one_host = record (new_tree (codes "/zackup")) { hosts = (codes "web", web_job) ∷ [] }

abbrev fresh : Queue JobConfig
fresh = record {
  workers = some 0 ∷ [];
  next_quit = 1;
  closed = [];
  spawning = 0;
  live = record { quit = 0; busy = none } ∷ [];
  jobs = [];
  sending = [];
  job_group = 0;
  enqueued = [];
  taken = [];
  finished = [];
}

fresh-Reach : Reach JobConfig (new_queue JobConfig) fresh
unfolding new_queue
fresh-Reach = Queue.here

abbrev one_backup : Process
one_backup = record {
  calls = [];
  queue = record fresh { enqueued = web_job ∷ []; taken = web_job ∷ []; finished = web_job ∷ [] };
}

-- The job is enqueued, sent, taken and done, and `Wait` returns.
one_backup-Runs : Runs (record { calls = run (pos 0) [] one_host; queue = fresh }) one_backup
unfolding run enqueue_known hosts host sort_by insert_by str_le keys lookup str_eq merge_values
    main_step step find_worker set_worker empty_job
one_backup-Runs =
    main (other (other (other (main here refl) send tt refl) (receive 0) tt refl) (done 0) tt refl)
      refl

run_all_hosts_example : Perm one_backup.queue.finished (map (λ e. e.1) one_host.hosts)
unfolding keys contains
run_all_hosts_example =
    run_all_hosts (pos 0) one_host fresh one_backup (refl, tt) fresh-Reach refl one_backup-Runs refl

abbrev two_names : List Str
two_names = codes "web" ∷ codes "mail" ∷ []

abbrev at_start : Process
at_start = record { calls = run (pos 4) two_names one_host; queue = fresh }

run_can_end_example :
    (s : Process) × Runs at_start s
    × (s.calls ≡ [])
    × Perm s.queue.finished (known_jobs one_host (requested one_host two_names))
run_can_end_example =
    run_can_end (pos 4) two_names one_host fresh at_start fresh-Reach refl here (omega arith)
