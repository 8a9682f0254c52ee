-- ===== src/Tests/Files.antt =====
-- config/hosts.go and the files of config/script.go at concrete files.
use zackup.Base.{none, some, List, [], ◌∷◌, Str, codes, str_eq, split, join, trim_suffix, ◌≡◌, refl}
use zackup.Base.Dict.{lookup, insert}
use zackup.Base.FilePath.{base, dir}
use zackup.Base.Sort.{sort_by, insert_by, str_le}
use zackup.Config.Script.{
  is_space, Script, FileSystem, read_files, read_all, read_script_file, clean_script, clean_lines,
  is_ignored, trim_space, drop_last_empty, drop_cr, byte_len,
}
use zackup.Base.Result.{Result, ok}
use zackup.Config.Job.{JobConfig, empty_job}
use zackup.Config.Hosts.{
  HostError, duplicate, path_to_host_variant_a, path_to_host_variant_b, read_host_config,
  read_matches,
}

abbrev decode : Str → Result HostError JobConfig
decode file = ok (empty_job [])

abbrev files : List Str
files = codes "/zackup/hosts/web.yml" ∷ codes "/zackup/hosts/db.yml" ∷ []

path_to_host_variant_a-example_com :
    path_to_host_variant_a (codes "/zackup/hosts/example.com/config.yml") ≡ codes "example.com"
unfolding path_to_host_variant_a base dir split str_eq join
path_to_host_variant_a-example_com = refl

path_to_host_variant_b-web : path_to_host_variant_b (codes "/zackup/hosts/web.yml") ≡ codes "web"
unfolding path_to_host_variant_b base trim_suffix str_eq split
path_to_host_variant_b-web = refl

read_matches-twice :
    (read_matches decode path_to_host_variant_b (codes "a/web.yml" ∷ codes "b/web.yml" ∷ []) []).1
    ≡ some (duplicate (codes "web"))
unfolding read_matches read_host_config lookup insert str_eq path_to_host_variant_b base trim_suffix
    split
read_matches-twice = refl

-- Two script files, which the glob gives in the wrong order.
abbrev hook_files : FileSystem
hook_files = record {
  glob = λ pattern'. ok (codes "/zackup/web/pre.b.sh" ∷ codes "/zackup/web/pre.a.sh" ∷ []);
  open_file = λ name. ok (codes "sync\n# done");
}

abbrev own_script : Script
own_script = record { inline = []; scripts = codes "true" ∷ [] }

read_files-own_script :
    read_files hook_files (codes "/zackup") (codes "web") (codes "pre.*.sh") own_script
    ≡ (record own_script { scripts = codes "true" ∷ codes "sync" ∷ codes "sync" ∷ [] }, none)
unfolding read_files read_all read_script_file clean_script clean_lines split drop_last_empty
    drop_cr trim_space is_ignored byte_len sort_by insert_by str_le is_space
read_files-own_script = refl
