-- ===== src/Config/Argv.antt =====
-- config/rsync.go: the argument vector of rsync.
use zackup.Base.{Bool, List, [], ◌∷◌, ◌++◌, Str, codes, has_suffix, if◌then◌else◌}
use zackup.Config.Rsync.{RsyncConfig, filter}
use zackup.Config.Blacklist.{args}

-- `if !strings.HasSuffix(s, "/") { s += "/" }`
unfoldable pub ensure_slash : Str → Str
ensure_slash s = if has_suffix s (codes "/") then s else s ++ codes "/"

-- `(*RsyncConfig).BuildArgVector`
unfoldable pub build_arg_vector : (Str → Str → Bool) → RsyncConfig → Str → Str → Str → List Str
build_arg_vector glob_match r ssh src dst =
    filter r
    ++ (codes "-e"
        ∷ ssh
        ∷ (args glob_match r
            ++ (codes "--delete"
                ∷ codes "--delete-excluded"
                ∷ codes "--delete-delay"
                ∷ codes "--itemize-changes"
                ∷ ensure_slash src
                ∷ ensure_slash dst
                ∷ [])))
