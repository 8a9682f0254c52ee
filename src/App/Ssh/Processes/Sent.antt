-- ===== src/App/Ssh/Processes/Sent.antt =====
-- What `execute` has done when it returns, app/ssh.go.
use zackup.Base.{
  ℕ, ◌+◌, Bool, true, false, not, ◌&&◌, ◌||◌, none, some, List, [], ◌∷◌, ◌++◌, Str, if◌then◌else◌,
  ◌≡◌, refl, ◌∙◌, ap, Bool-cases, inl, inr, append_assoc, append-nil,
}
use zackup.Base.Dict.{is_some}
use zackup.App.Ssh.{SshMaster, execute_args}
use zackup.App.Ssh.Processes.{
  no_output, no_stdin, start_failed, send_failed, terminated, Op, capture_output, stdin_pipe, start,
  send, close_stdin, wait_output, wait, close_output, Outcomes, Run, then_or, deferred, send_lines,
  execute_run,
}

-- The lines that were sent, and whether something was done.
abbrev pub sent : List Op → List Str
sent [] = []
sent (send l ∷ ops) = l ∷ sent ops
sent (capture_output ∷ ops) = sent ops
sent (stdin_pipe ∷ ops) = sent ops
sent (start args ∷ ops) = sent ops
sent (close_stdin ∷ ops) = sent ops
sent (wait_output ∷ ops) = sent ops
sent (wait ∷ ops) = sent ops
sent (close_output ∷ ops) = sent ops

abbrev pub waited : List Op → Bool
waited [] = false
waited (wait ∷ ops) = true
waited (send l ∷ ops) = waited ops
waited (capture_output ∷ ops) = waited ops
waited (stdin_pipe ∷ ops) = waited ops
waited (start args ∷ ops) = waited ops
waited (close_stdin ∷ ops) = waited ops
waited (wait_output ∷ ops) = waited ops
waited (close_output ∷ ops) = waited ops

-- The lines up to the first that cannot be sent, and whether all can.
abbrev pub sendable : (ℕ → Bool) → ℕ → List Str → List Str
sendable sends k [] = []
sendable sends k (l ∷ ls) = l ∷ (if sends k then sendable sends (k + 1) ls else [])

abbrev pub all_sent : (ℕ → Bool) → ℕ → List Str → Bool
all_sent sends k [] = true
all_sent sends k (l ∷ ls) = sends k && all_sent sends (k + 1) ls

sent-append : (xs ys : List Op) → sent (xs ++ ys) ≡ sent xs ++ sent ys
sent-append [] ys = refl
sent-append (send l ∷ xs) ys = ap (λ r. l ∷ r) (sent-append xs ys)
sent-append (capture_output ∷ xs) ys = sent-append xs ys
sent-append (stdin_pipe ∷ xs) ys = sent-append xs ys
sent-append (start args ∷ xs) ys = sent-append xs ys
sent-append (close_stdin ∷ xs) ys = sent-append xs ys
sent-append (wait_output ∷ xs) ys = sent-append xs ys
sent-append (wait ∷ xs) ys = sent-append xs ys
sent-append (close_output ∷ xs) ys = sent-append xs ys

-- What is around the loop.
around :
    (captures pipes starts : Bool) (args : List Str) (body : Run)
    → let r = then_or capture_output captures no_output (
        deferred close_output (
          then_or stdin_pipe pipes no_stdin
            (deferred close_stdin (then_or (start args) starts start_failed body)))) in
      let tail = close_stdin ∷ close_output ∷ [] in
      (is_some r.1 ≡ (if captures && pipes && starts then is_some body.1 else true))
      × (sent r.0 ≡ (if captures && pipes && starts then sent (body.0 ++ tail) else []))
      × (waited r.0 ≡ (if captures && pipes && starts then waited (body.0 ++ tail) else false))
around false pipes starts args body = (refl, refl, refl)
around true false starts args body = (refl, refl, refl)
around true true false args body = (refl, refl, refl)
around true true true args (ops, e) =
    let same = append_assoc ops (close_stdin ∷ []) (close_output ∷ []) in
    (refl, ap sent same, ap waited same)

no_error_if :
    (started all ends : Bool)
    → (if started
        then is_some (if all then (if ends then none else some terminated) else some send_failed)
        else true)
      ≡ not (started && all && ends)
no_error_if false all ends = refl
no_error_if true false ends = refl
no_error_if true true false = refl
no_error_if true true true = refl

waited_if : (started all : Bool) → (if started then all || false else false) ≡ (started && all)
waited_if false all = refl
waited_if true false = refl
waited_if true true = refl

module _ (o : Outcomes) where
  -- What the loop does, with what was deferred after it.
  send_lines_lem :
      (k : ℕ) (script : List Str) (rest : List Op)
      → (sent ((send_lines o k script).0 ++ rest) ≡ sendable o.sends k script ++ sent rest)
        × (waited ((send_lines o k script).0 ++ rest) ≡ all_sent o.sends k script || waited rest)
        × ((send_lines o k script).1 ≡ (
            if all_sent o.sends k script
            then (if o.ends then none else some terminated)
            else some send_failed))
  unfolding send_lines
  send_lines_lem k [] rest = elim (Bool-cases o.ends) [
    | inl e ↦ rw e (refl, refl, refl)
    | inr e ↦ rw e (refl, refl, refl)
  ]
  send_lines_lem k (l ∷ ls) rest =
      let (s, w, e) = send_lines_lem (k + 1) ls rest in
      elim (Bool-cases (o.sends k)) [
        | inl fine ↦ rw fine (ap (λ r. l ∷ r) s, w, e)
        | inr failed ↦ rw failed (refl, refl, refl)
      ]

  -- The process was started with its pipes.
  abbrev pub is_started : Bool
  is_started = o.captures && o.pipes && o.starts

  -- A script is run without an error exactly when its pipes and its process could be made, each
  -- line was sent, and the process ended without one. The lines that were tried to send, in their
  -- order, are those up to the first that could not be sent, where the process was started, and
  -- else none. The process is waited for exactly where it was started and all lines were sent.
  pub execute_run_lem :
      (c : SshMaster) (script : List Str)
      → let r = execute_run o c script in
        (is_some r.1 ≡ not (is_started && all_sent o.sends 0 script && o.ends))
        × (sent r.0 ≡ (if is_started then sendable o.sends 0 script else []))
        × (waited r.0 ≡ (is_started && all_sent o.sends 0 script))
  unfolding execute_run
  execute_run_lem c script =
      let (all, w, e) = send_lines_lem 0 script (close_stdin ∷ close_output ∷ []) in
      let (error, lines, ended) =
        around o.captures o.pipes o.starts (execute_args c) (send_lines o 0 script) in
      (
        error ∙ rw e (no_error_if is_started (all_sent o.sends 0 script) o.ends),
        lines ∙ rw all (rw (append-nil (sendable o.sends 0 script))),
        ended ∙ rw w (waited_if is_started (all_sent o.sends 0 script)),
      )
