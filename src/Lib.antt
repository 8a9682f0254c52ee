-- ===== src/Lib.antt =====
-- A model of zackup, a program that backs up hosts by rsync into ZFS datasets, with theorems on
-- it.
--
-- The program reads a tree of YAML files: the service (when to back up, and how many hosts at
-- once), the globals, and one job for each host, into which the globals are merged. A scheduler
-- puts the jobs that are due into a queue, whose workers perform them: a job creates the dataset
-- of its host, opens an SSH master, runs scripts, rsync and scripts again, and takes a snapshot.
-- The state keeps the times and the results of each host, writes them into properties of its
-- dataset, and reads them back when the program starts.
--
-- Which file models which part:
-- config/script.go: Config/Script.antt. `Lines`, `UnmarshalYAML`, `readFiles`, `readScriptFile`
--   and `cleanScript` are `lines`, `unmarshal_script`, `read_files`, `read_script_file` and
--   `clean_script`.
-- config/rsync.go: Config/Rsync.antt (`filter`, whose local variables are the record FilterState
--   and whose loops are `included_loop` and `elem_loop`) and Config/Argv.antt (`BuildArgVector`).
-- config/rsync_blacklist.go: Config/Blacklist.antt (`Matches` and `args`; `i += n` is a count of
--   tokens that are still to be skipped).
-- config/job.go: Config/Job.antt (`mergeGlobals`; a nil pointer is `none`). A slice is its list of
--   values, but `merge_globals` also gives what its calls of append leave in the arrays of the
--   globals' script lines, and `read_job` is a merged job as it is read later.
-- config/hosts.go: Config/Hosts.antt (`readGlob`, `readHostConfig` and `readHooks`, over a
--   parameter that opens and decodes a file; a method gives the map after it also where it fails).
-- config/service.go: Config/Service.antt (`UnmarshalYAML`, `String` and `Next` of the schedule,
--   and `NextSchedule`).
-- app/metric_status.go: App/Metrics.antt, with the metrics of app/state.go.
-- app/zprops.go: App/Zprops.antt. A decoder is split into `convert`, what it stores, and `decode`,
--   what it returns.
-- app/state.go: App/State.antt (`start`, `success`, `failure`, `reschedule`, `export`,
--   `storeStart`, `storeResult`) and App/State/Load.antt (`load`, `loadHost`). An operation gives
--   the new state and the calls of zfs that it makes.
-- app/ssh.go: App/Ssh.antt (`newSSHMaster` and the argument vectors of `connect`, `execute` and
--   `rsync`) and App/Ssh/Processes.antt (what these three do, as the list of the calls that they
--   make, over the outcomes of these calls).
-- app/runner.go: App/Runner.antt (`PerformBackup`). What runs outside the program is an action;
--   the world holds the actions done and the state; the environment decides which action succeeds
--   and what time it is. A function returns a nil error, an error, or panics.
-- app/scheduler.go: App/Scheduler.antt. One round of `run` goes over the hosts in the order in
--   which the map is walked; what it reads at each host (the clock twice, the random numbers,
--   whether `Stop` was called), and what other goroutines make of the state before it and while
--   `Enqueue` blocks, is the record Readings.
-- config/tree.go: Config/Tree.antt. The tree is a record, a method that may fail gives the tree
--   after it also where it fails, and `reload` goes from part to part while no error is met. The
--   record Disk holds what is read, the room that the decoder leaves behind the script lines of
--   globals.yml, and the order in which the map of the hosts is walked.
-- app/scheduler.go, `Start` and `Stop`: App/Scheduler/Loop.antt, as a step relation. A turn of the
--   loop is three steps (the test of `stop`, the decision, and the return of `Enqueue`, which may
--   block), and other goroutines may change the state between any two.
-- app/server.go and app/static/index.html: App/Server.antt. The functions of the template, the
--   rows that they make, and what `handleIndex` leaves of the state.
-- app/prometheus.go: App/Prometheus.antt (`Describe` and `Collect`, as what they send).
-- graylog/graylog.go: Graylog.antt (`Fire`, `Flush`, `SetLevel` and `SetEndpoint`, with the
--   effects that they have on hooks and on logrus). graylog/mux.go: Graylog/Requests.antt.
-- cmd/root.go and app/app.go, with `InitializeState` of app/state.go: Cmd/Init.antt (`initConfig`,
--   up to the two calls of `Fatalf`). The calls of the log middleware and of `Resize` that it
--   makes are fields of the result.
-- cmd/status.go: Cmd/Status.antt (the lines that are printed).
-- cmd/run.go: Cmd/Run.antt. The calls of the queue that the command makes, and the steps in which
--   they interleave with the goroutines of the queue.
-- app/queue.go: App/Queue.antt. The goroutines interleave: an event is one step of one of them,
--   `step` is what it does, and Reach is the reachability by steps.
--
-- Conventions. A string is the list of its code points, and where the program counts bytes, as the
-- line scanner does, the length in UTF-8 is taken. A time is the number of nanoseconds since the
-- instant 2^63 seconds before the zero time; monotonic readings are left out, and dates are
-- numbers of days in UTC. A duration is an integer, and the arithmetic on 64 bits wraps where it
-- is stored or multiplied. A map is an association list, and what ranges over a map is sorted by
-- the program, but for the round of the scheduler, which takes any order. A float64 is the number
-- that its bits make, and strconv.ParseFloat is the parameter `parse_float`. match.Match of
-- github.com/tidwall/match is the parameter `glob_match`; where a theorem needs it, the hypothesis
-- IsGlob states that a pattern that ends in its only star matches what begins with the text before
-- it. The decimal text of a number is made with n + 1 steps for the number n, which is more than
-- it has digits. No other definition has fuel: all loops run over lists.
--
-- Not modelled: the command serve, which starts and stops the scheduler and the server, the
-- parsing of the command line and the signals (cmd, main.go); the lengths of the timer of the
-- scheduler; the routes, the headers and the bars of the overview page; all logging but its
-- middleware; the mutexes (an operation under the lock is one step); and what goes through the
-- pipes of processes but the lines of scripts.
pub mod Base
pub mod Config
pub mod App
pub mod Graylog
pub mod Cmd
pub mod Tests
