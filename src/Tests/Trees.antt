-- ===== src/Tests/Trees.antt =====
-- config/tree.go at a concrete tree.
use zackup.Base.{
  none, some, List, [], ◌∷◌, Str, codes, str_eq, has_prefix, split, join, trim_suffix,
  if◌then◌else◌, ◌≡◌, refl, arith,
}
use zackup.Base.Dict.{lookup, insert}
use zackup.Base.FilePath.{
  base, dir, join_path, non_empty, clean, clean_onto, push_elem, pop_elem, clean_elems,
  strip_slashes,
}
use zackup.Base.Result.{ok}
use zackup.Base.Sort.{sort_by, insert_by, str_le}
use zackup.Config.Job.{
  JobConfig, Room, Arrays, empty_job, merge_values, merge_globals, append_room, read_slice,
  read_job,
}
use zackup.Config.Service.{zero_service}
use zackup.Config.Script.{
  read_files, read_all, read_script_file, clean_script, clean_lines, drop_last_empty, drop_cr,
  trim_space, is_ignored, byte_len,
}
use zackup.Config.Tree.{
  linux, Tree, globals_failed, not_opened, Disk, new_tree, ensure_root, read_service, read_globals,
  read_hosts, read_tree_hooks, reload_globals, reload_hosts, reload_variant_b, reload_hooks,
  merge_all, merge_each, yaml_path, reload, set_root,
}
use zackup.Config.Hosts.{
  path_to_host_variant_a, path_to_host_variant_b, read_host_config, read_matches, read_glob,
  read_job_hooks, read_hooks,
}
use zackup.Config.Tree.Reload.{Reloaded, reload-Reloaded}
use zackup.Config.Tree.Root.{set_root_twice}
use zackup.Config.Tree.Shared.{overwritten}

-- One host in a directory of its own, one in a file, and no hooks.
abbrev glob : Str → Str → Str → List Str
glob pattern' a b =
    if str_eq pattern' a
    then codes "/r/hosts/web/config.yml" ∷ []
    else if str_eq pattern' b
    then codes "/r/hosts/db.yml" ∷ []
    else []

abbrev pub full_room : Room
full_room = record { free = 0; written = [] }

-- The arrays of scripts without lines.
abbrev pub full_arrays : Arrays
full_arrays = record {
  pre_inline = full_room;
  pre_scripts = full_room;
  post_inline = full_room;
  post_scripts = full_room;
}

abbrev pub disk : Disk
disk = record {
  files = record {
    glob = λ p. ok (glob p (codes "/r/hosts/*/config.yml") (codes "/r/hosts/*.yml"));
    open_file = λ name. ok [];
  };
  decode_service = λ file. (zero_service, none);
  decode_job = λ file. (empty_job [], none);
  room = λ file. full_arrays;
  walk = λ h. h;
}

abbrev pub empty_tree : Tree
empty_tree = new_tree (codes "/r")

-- The tree that was read.
abbrev pub web_db : Tree
web_db = record {
  root = codes "/r";
  service = some zero_service;
  global = some (empty_job []);
  hosts = (codes "web", empty_job (codes "web")) ∷ (codes "db", empty_job (codes "db")) ∷ [];
}

pub reload-empty_tree : reload disk linux empty_tree ≡ (web_db, none)
unfolding reload ensure_root read_service read_globals reload_globals read_hosts reload_hosts
    reload_variant_b reload_hooks read_tree_hooks merge_all yaml_path read_glob read_matches
    read_host_config read_hooks read_job_hooks read_files read_all read_script_file clean_script
    clean_lines drop_last_empty drop_cr trim_space is_ignored byte_len sort_by insert_by str_le
    join_path non_empty clean clean_onto push_elem pop_elem clean_elems lookup insert str_eq
    has_prefix path_to_host_variant_a path_to_host_variant_b base dir strip_slashes split join
    trim_suffix merge_values empty_job merge_globals append_room read_slice read_job merge_each
reload-empty_tree = refl

reload-Reloaded_example : Reloaded disk linux empty_tree web_db
reload-Reloaded_example = reload-Reloaded disk linux empty_tree web_db reload-empty_tree

-- No globals.yml: the first call fails, and the second does not.
abbrev no_globals : Disk
no_globals = record disk { decode_job = λ file. (empty_job [], some not_opened) }

abbrev half_read : Tree
half_read = record empty_tree { service = some zero_service; global = some (empty_job []) }

set_root_twice_example :
    (half_read.root ≡ codes "/r")
    × (set_root no_globals linux (codes "/r") half_read ≡ (half_read, none))
unfolding set_root reload ensure_root read_service reload_globals read_globals yaml_path str_eq
set_root_twice_example =
    set_root_twice no_globals linux (codes "/r") (new_tree []) half_read
      (some (globals_failed not_opened)) refl refl

-- Three lines of the globals in an array of four places, and two hosts with a line each.
abbrev script_job : Str → List Str → JobConfig
script_job name ls = record (empty_job name) { pre_script = record { inline = ls; scripts = [] } }

abbrev three_lines : JobConfig
three_lines = script_job [] (codes "x" ∷ codes "y" ∷ codes "z" ∷ [])

abbrev one_free : Disk
one_free = record disk {
  room = λ file. record full_arrays { pre_inline = record { free = 1; written = [] } };
}

abbrev two_scripts : Tree
two_scripts = record web_db {
  global = some three_lines;
  hosts =
      (codes "web", script_job (codes "web") (codes "stop web" ∷ []))
      ∷ (codes "db", script_job (codes "db") (codes "stop db" ∷ []))
      ∷ [];
}

overwritten_example :
    (m : JobConfig) × (lookup (codes "web") (merge_all one_free two_scripts).0.hosts ≡ some m)
    × (m.pre_script.inline ≡ codes "x" ∷ codes "y" ∷ codes "z" ∷ codes "stop db" ∷ [])
unfolding lookup str_eq empty_job
overwritten_example =
    overwritten one_free two_scripts three_lines (codes "web")
      (script_job (codes "web") (codes "stop web" ∷ []))
      ((codes "web", script_job (codes "web") (codes "stop web" ∷ [])) ∷ []) (codes "db")
      (script_job (codes "db") (codes "stop db" ∷ [])) refl refl refl refl (omega arith)
