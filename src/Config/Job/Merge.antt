-- ===== src/Config/Job/Merge.antt =====
-- What a job has after the globals are merged into it, config/job.go.
use zackup.Base.{
  ◌≤◌, true, Option, none, some, List, [], ◌∷◌, ◌++◌, Str, length, take, drop, leb, ◌≡◌, ◌⊎◌, inl,
  inr, refl, ap, ◌∙◌, arith, append-nil, Bool-cases,
}
use zackup.Config.Script.{Script, empty_script}
use zackup.Config.Rsync.{RsyncConfig}
use zackup.Config.Job.{
  SshConfig, JobConfig, empty_job, merge_ssh, merge_rsync, merge_script, merge_values, Room, Arrays,
  append_room, read_slice, merge_globals, read_job,
}

merge_ssh-none : (s : Option SshConfig) → merge_ssh none s ≡ s
unfolding merge_ssh
merge_ssh-none none = refl
merge_ssh-none (some s) = refl

merge_rsync-none : (r : Option RsyncConfig) → merge_rsync none r ≡ r
unfolding merge_rsync
merge_rsync-none none = refl
merge_rsync-none (some r) = refl

merge_script-empty : (s : Script) → merge_script empty_script s ≡ s
unfolding merge_script
merge_script-empty s =
    λ i. record { inline = append-nil s.inline i; scripts = append-nil s.scripts i }

-- An empty job is neutral: merging a job into an empty job of its host gives the job, so that the
-- copy that a caller gets is what is stored, and merging empty globals into a job changes nothing.
pub merge_globals_neutral :
    (job : JobConfig) (host : Str)
    → (merge_values (empty_job job.host) job ≡ job) × (merge_values job (empty_job host) ≡ job)
unfolding merge_values empty_job
merge_globals_neutral job host = (
  rw (
    merge_ssh-none job.ssh,
    merge_rsync-none job.rsync,
    merge_script-empty job.pre_script,
    merge_script-empty job.post_script,
  ),
  unfold merge_ssh merge_rsync merge_script in refl,
)

-- The slice that a job got by an append onto that of the globals: the elements of the globals, and
-- then its own, unless there are some and they fit into the room of the array.
pub record IsAppended (room : Room) (globals own merged : List Str) : Type 0 where
  pub tail : List Str
  pub after_globals : merged ≡ globals ++ tail
  pub own_lines : (tail ≡ own) ⊎ ((1 ≤ length own) × (length own ≤ room.free))

read_slice-IsAppended :
    (room later : Room) (globals own : List Str)
    → later.free ≡ room.free
    → IsAppended room globals own (read_slice later globals own)
unfolding read_slice
read_slice-IsAppended room later globals [] same = record {
  tail = [];
  after_globals = ground arith;
  own_lines = inl refl;
}
read_slice-IsAppended room later globals (x ∷ own) same =
    elim (Bool-cases (leb (length (x ∷ own)) later.free)) [
      | inl e ↦
          rw (e, read_slice)
            (record {
              tail = take (length (x ∷ own)) later.written;
              after_globals = refl;
              own_lines = inr (omega arith, ground (arith, e, same));
            })
      | inr e ↦
          rw (e, read_slice) (record { tail = x ∷ own; after_globals = refl; own_lines = inl refl })
    ]

-- The room of the arrays stays as it was.
pub record SameRoom (a b : Arrays) : Type 0 where
  pub pre_inline : b.pre_inline.free ≡ a.pre_inline.free
  pub pre_scripts : b.pre_scripts.free ≡ a.pre_scripts.free
  pub post_inline : b.post_inline.free ≡ a.post_inline.free
  pub post_scripts : b.post_scripts.free ≡ a.post_scripts.free

pub same_room : (a : Arrays) → SameRoom a a
same_room a = record {
  pre_inline = refl;
  pre_scripts = refl;
  post_inline = refl;
  post_scripts = refl;
}

append_room-free : (room : Room) (own : List Str) → (append_room room own).free ≡ room.free
unfolding append_room
append_room-free room own = ground arith

pub merge_globals-SameRoom :
    (a b : Arrays) (j g : JobConfig) → SameRoom a b → SameRoom a (merge_globals b j g).1
unfolding merge_globals
merge_globals-SameRoom a b j g s = record {
  pre_inline = append_room-free b.pre_inline j.pre_script.inline ∙ s.pre_inline;
  pre_scripts = append_room-free b.pre_scripts j.pre_script.scripts ∙ s.pre_scripts;
  post_inline = append_room-free b.post_inline j.post_script.inline ∙ s.post_inline;
  post_scripts = append_room-free b.post_scripts j.post_script.scripts ∙ s.post_scripts;
}

-- A job into which the globals were merged: the settings, and the four slices of the scripts.
pub record IsMerge (room : Arrays) (g own job : JobConfig) : Type 0 where
  pub settings :
      (job.host ≡ own.host)
      × (job.ssh ≡ merge_ssh own.ssh g.ssh)
      × (job.rsync ≡ merge_rsync own.rsync g.rsync)
  pub pre_inline :
      IsAppended room.pre_inline g.pre_script.inline own.pre_script.inline job.pre_script.inline
  pub pre_scripts :
      IsAppended room.pre_scripts g.pre_script.scripts own.pre_script.scripts job.pre_script.scripts
  pub post_inline :
      IsAppended room.post_inline g.post_script.inline own.post_script.inline job.post_script.inline
  pub post_scripts :
      IsAppended room.post_scripts g.post_script.scripts own.post_script.scripts
        job.post_script.scripts

pub read_job-IsMerge :
    (room later : Arrays) (g own : JobConfig)
    → SameRoom room later
    → IsMerge room g own (read_job later g own)
unfolding read_job merge_values
read_job-IsMerge room later g own s = record {
  settings = (refl, refl, refl);
  pre_inline = read_slice-IsAppended _ _ _ _ s.pre_inline;
  pre_scripts = read_slice-IsAppended _ _ _ _ s.pre_scripts;
  post_inline = read_slice-IsAppended _ _ _ _ s.post_inline;
  post_scripts = read_slice-IsAppended _ _ _ _ s.post_scripts;
}

take-append : (xs ys : List Str) → take (length xs) (xs ++ ys) ≡ xs
take-append [] ys = refl
take-append (x ∷ xs) ys = ap (λ r. x ∷ r) (take-append xs ys)

-- Where another slice of as many elements was appended to the same array last, its elements are read.
pub read_slice-append_room :
    (room : Room) (globals own other : List Str)
    → length own ≡ length other
    → length own ≤ room.free
    → read_slice (append_room room other) globals own ≡ globals ++ other
unfolding read_slice append_room
read_slice-append_room room globals own other same fits =
    let fit : leb (length other) room.free ≡ true = ground (arith, same, fits) in
    rw (fit, append_room)
      (rw (same, fit, read_slice)
        (ap (λ r. globals ++ r) (take-append other (drop (length other) room.written))))
