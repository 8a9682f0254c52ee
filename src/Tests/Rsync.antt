-- ===== src/Tests/Rsync.antt =====
-- config/rsync.go and config/rsync_blacklist.go at concrete inputs, as in
-- config/rsync_blacklist_test.go.
use mathlib.Core.List.{Sublistᴰ}
use zackup.Base.{
  true, false, List, [], ◌∷◌, ◌++◌, map, Str, codes, str_eq, contains, has_prefix, split, Distinct,
  All, ◌≡◌, refl, ◌⊎◌,
}
use zackup.Base.FilePath.{clean, slashed}
use zackup.Config.Rsync.{
  included_loop, add_included, elem_loop, add_inc, add_exc, RsyncConfig, include_arg, exclude_arg,
  filter,
}
use zackup.Config.Rsync.Filter.{is_root, wanted, fenced, flat, filter_lem}
use zackup.Config.Rsync.Entries.{filter_reaches}
use zackup.Config.Rsync.Repeats.{filter-Distinct}
use zackup.Config.Blacklist.{args, blacklist_args}
use zackup.Config.Blacklist.Survivors.{is_form, args_survivors}
use zackup.Config.Blacklist.Swallows.{prefix_match, prefix_match-IsGlob}

abbrev config : List Str → List Str → List Str → RsyncConfig
config included excluded arguments = record {
  included = included;
  excluded = excluded;
  arguments = arguments;
  override_global_include = false;
  override_global_exclude = false;
  override_global_arguments = false;
}

abbrev homes : RsyncConfig
homes = config (codes "/etc" ∷ codes "home/user/" ∷ []) (codes "*.log" ∷ []) []

filter-homes :
    filter homes
    ≡ codes "--include=/etc"
      ∷ codes "--include=/home"
      ∷ codes "--include=/home/user"
      ∷ codes "--exclude=/*"
      ∷ codes "--exclude=/home/*"
      ∷ codes "--exclude=*.log"
      ∷ []
unfolding filter clean contains split str_eq included_loop add_included elem_loop add_inc add_exc
filter-homes = refl

-- The arguments of `TestRsyncArgs`.
abbrev user_args : RsyncConfig
user_args = config [] [] (
    codes "--perms"
    ∷ codes "--daemon"
    ∷ codes "--recursive"
    ∷ codes "-e"
    ∷ codes "ssh -oSomething=yes"
    ∷ codes "--include"
    ∷ codes "a"
    ∷ codes "--bwrate"
    ∷ codes "5000"
    ∷ codes "--include=b"
    ∷ codes "--rsh=ssh -oThird=turd"
    ∷ codes "--rsh"
    ∷ codes "ssh -oOther=no"
    ∷ codes "--numeric-ids"
    ∷ [])

abbrev kept_args : List Str
kept_args =
    codes "--perms"
    ∷ codes "--recursive"
    ∷ codes "--bwrate"
    ∷ codes "5000"
    ∷ codes "--numeric-ids"
    ∷ []

args-user_args : args prefix_match user_args ≡ kept_args
unfolding args prefix_match has_prefix str_eq
args-user_args = refl

filter_lem_example :
    (incs excs : List Str) × (filter homes
      ≡ map include_arg incs ++ (map exclude_arg excs ++ map exclude_arg homes.excluded))
    × ((x : Str) → contains incs x ≡ contains (flat wanted homes.included) x)
    × ((x : Str) → contains excs x ≡ contains (flat fenced homes.included) x)
    × Distinct excs
filter_lem_example = filter_lem homes

filter_reaches_example :
    (incs excs : List Str) × (filter homes
      ≡ map include_arg incs ++ (map exclude_arg excs ++ map exclude_arg homes.excluded))
    × (contains incs (clean (slashed (codes "home/user/"))) ≡ true)
    × ((is_root (codes "home/user/") ≡ true) ⊎ (contains excs (codes "/*") ≡ true))
unfolding contains str_eq
filter_reaches_example = filter_reaches homes (codes "home/user/") refl

filter-Distinct_example :
    (incs excs : List Str) × (filter homes
      ≡ map include_arg incs ++ (map exclude_arg excs ++ map exclude_arg homes.excluded))
    × Distinct incs
    × Distinct excs
unfolding is_root clean str_eq
filter-Distinct_example = filter-Distinct homes (refl, (refl, tt))

abbrev roots : RsyncConfig
roots = config (codes "/" ∷ codes "" ∷ []) (codes "/proc" ∷ []) []

args_survivors_example :
    Sublistᴰ (args prefix_match user_args) user_args.arguments
    × All
        (λ arg. All (λ flag. is_form flag arg ≡ false) blacklist_args)
        (args prefix_match user_args)
args_survivors_example = args_survivors prefix_match prefix_match-IsGlob user_args
