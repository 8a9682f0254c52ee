-- ===== src/Config/Job.antt =====
-- config/job.go: the settings of one backup job.
pub mod Merge
use zackup.Base.{
  ℕ, Option, none, some, List, [], ◌∷◌, ◌++◌, Str, length, take, drop, leb, if◌then◌else◌, ◌==◌,
}
use zackup.Config.Script.{Script, empty_script}
use zackup.Config.Rsync.{RsyncConfig}

pub record SshConfig : Type 0 where
  pub user : Str
  pub port : ℕ
  pub timeout : Option ℕ

-- A nil pointer is `none`.
pub record JobConfig : Type 0 where
  pub host : Str
  pub ssh : Option SshConfig
  pub rsync : Option RsyncConfig
  pub pre_script : Script
  pub post_script : Script

-- `&JobConfig{host: host}`
unfoldable pub empty_job : Str → JobConfig
empty_job host = record {
  host = host;
  ssh = none;
  rsync = none;
  pre_script = empty_script;
  post_script = empty_script;
}

-- `if x == "" { x = y }` and the like
abbrev pub user_or : Str → Str → Str
user_or [] d = d
user_or (c ∷ s) d = c ∷ s

abbrev pub timeout_or : Option ℕ → Option ℕ → Option ℕ
timeout_or none d = d
timeout_or (some t) d = some t

unfoldable pub merge_ssh : Option SshConfig → Option SshConfig → Option SshConfig
merge_ssh j none = j
merge_ssh none (some g) = some g
merge_ssh (some j) (some g) = some (record {
  user = user_or j.user g.user;
  port = if j.port == 0 then g.port else j.port;
  timeout = timeout_or j.timeout g.timeout;
})

unfoldable pub merge_rsync : Option RsyncConfig → Option RsyncConfig → Option RsyncConfig
merge_rsync j none = j
merge_rsync none (some g) = some g
merge_rsync (some j) (some g) = some (record j {
  included = if j.override_global_include then j.included else j.included ++ g.included;
  excluded = if j.override_global_exclude then j.excluded else j.excluded ++ g.excluded;
  arguments = if j.override_global_arguments then j.arguments else j.arguments ++ g.arguments;
})

merge_script : Script → Script → Script
merge_script j g = record { inline = g.inline ++ j.inline; scripts = g.scripts ++ j.scripts }

-- What the job has when `mergeGlobals` returns.
unfoldable pub merge_values : JobConfig → JobConfig → JobConfig
unfolding merge_ssh merge_rsync merge_script
merge_values j globals = record j {
  ssh = merge_ssh j.ssh globals.ssh;
  rsync = merge_rsync j.rsync globals.rsync;
  pre_script = merge_script j.pre_script globals.pre_script;
  post_script = merge_script j.post_script globals.post_script;
}

-- The array of one slice of the globals, behind the last element of the slice: how many places there
-- are up to its capacity, and what was written to them. All hosts share the array.
pub record Room : Type 0 where
  pub free : ℕ
  pub written : List Str

-- The arrays of the four slices of the scripts of the globals.
pub record Arrays : Type 0 where
  pub pre_inline : Room
  pub pre_scripts : Room
  pub post_inline : Room
  pub post_scripts : Room

-- `append(globals…, own...)` writes the elements behind those of the globals where there is room for
-- all of them, and copies the slice to a new array else.
unfoldable pub append_room : Room → List Str → Room
append_room room own =
    if leb (length own) room.free
    then record room { written = own ++ drop (length own) room.written }
    else room

-- What a slice made by such an `append` has when it is read later.
unfoldable pub read_slice : Room → List Str → List Str → List Str
read_slice room globals own =
    globals ++ (if leb (length own) room.free then take (length own) room.written else own)

-- `(*JobConfig).mergeGlobals`: the job when it returns, and what it leaves in the arrays.
unfoldable pub merge_globals : Arrays → JobConfig → JobConfig → JobConfig × Arrays
unfolding merge_values append_room
merge_globals arrays j globals = (
  merge_values j globals,
  record {
    pre_inline = append_room arrays.pre_inline j.pre_script.inline;
    pre_scripts = append_room arrays.pre_scripts j.pre_script.scripts;
    post_inline = append_room arrays.post_inline j.post_script.inline;
    post_scripts = append_room arrays.post_scripts j.post_script.scripts;
  },
)

-- The job that `mergeGlobals` made of another, as it is read when the arrays have changed.
unfoldable pub read_job : Arrays → JobConfig → JobConfig → JobConfig
unfolding read_slice
read_job arrays globals j = record (merge_values j globals) {
  pre_script = record {
    inline = read_slice arrays.pre_inline globals.pre_script.inline j.pre_script.inline;
    scripts = read_slice arrays.pre_scripts globals.pre_script.scripts j.pre_script.scripts;
  };
  post_script = record {
    inline = read_slice arrays.post_inline globals.post_script.inline j.post_script.inline;
    scripts = read_slice arrays.post_scripts globals.post_script.scripts j.post_script.scripts;
  };
}
