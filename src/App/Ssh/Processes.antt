-- ===== src/App/Ssh/Processes.antt =====
-- app/ssh.go: the processes that `connect`, `execute` and `rsync` start, with the pipes to them. Which
-- call of the system succeeds is a parameter; the wait group of the master is left out.
pub mod Sent
use zackup.Base.{
  ℕ, zero, suc, ◌+◌, Bool, true, false, Option, none, some, List, [], ◌∷◌, ◌++◌, Str, if◌then◌else◌,
}
use zackup.Config.Rsync.{RsyncConfig}
use zackup.App.Ssh.{SshMaster, connect_args, execute_args}

pub data SshError : Type 0 where
  already_connected no_tunnel : SshError
  no_output no_stdin start_failed send_failed terminated : SshError

-- What a function does: the pipes of the output, the pipe of the input, the process, one line, the
-- end of the input, the wait for the end of the output and for that of the process, and what closes
-- the pipes of the output.
pub data Op : Type 0 where
  capture_output stdin_pipe : Op
  start : List Str → Op
  send : Str → Op
  close_stdin wait_output wait close_output : Op

pub record Outcomes : Type 0 where
  pub captures : Bool
  pub pipes : Bool
  pub starts : Bool
  pub sends : ℕ → Bool  -- the write and the flush of the line with the number
  pub ends : Bool

abbrev pub Run : Type 0
Run = List Op × Option SshError

-- A call, after which the rest runs where it succeeds.
abbrev pub then_or : Op → Bool → SshError → Run → Run
then_or op true e (ops, error) = (op ∷ ops, error)
then_or op false e rest = (op ∷ [], some e)

-- A deferred call.
abbrev pub deferred : Op → Run → Run
deferred op (ops, error) = (ops ++ (op ∷ []), error)

-- `(*sshMaster).connect`, under its lock. The master has a tunnel where the process was started.
unfoldable pub connect : Bool → SshMaster → SshMaster × Run
unfolding connect_args
connect starts c =
    if c.tunnel
    then (c, ([], some already_connected))
    else if starts
    then (record c { tunnel = true }, (start (connect_args c) ∷ [], none))
    else (c, (start (connect_args c) ∷ [], some no_tunnel))

module _ (o : Outcomes) where
  -- From `wg.Wait()` on.
  abbrev pub finish : Run
  finish =
      if o.ends then (wait_output ∷ wait ∷ [], none) else (wait_output ∷ wait ∷ [], some terminated)

  abbrev pub sent_all : Run
  sent_all = then_or close_stdin true terminated finish

  -- The loop over the script, from the line with the number `k` on.
  unfoldable pub send_lines : ℕ → List Str → Run
  send_lines k [] = sent_all
  send_lines k (l ∷ ls) = then_or (send l) (o.sends k) send_failed (send_lines (k + 1) ls)

  -- `(*sshMaster).execute`. What was deferred runs from the last to the first.
  unfoldable pub execute_run : SshMaster → List Str → Run
  unfolding send_lines execute_args
  execute_run c script = then_or capture_output o.captures no_output (
      deferred close_output (
        then_or stdin_pipe o.pipes no_stdin (
          deferred close_stdin
            (then_or (start (execute_args c)) o.starts start_failed (send_lines 0 script)))))

  -- `(*sshMaster).rsync`, with the arguments of the process
  unfoldable pub rsync_run : List Str → Run
  rsync_run args =
      then_or capture_output o.captures no_output
        (deferred close_output (then_or (start args) o.starts start_failed finish))
