-- ===== src/Config/Blacklist.antt =====
-- config/rsync_blacklist.go: the rsync arguments that a job may not set itself. Pattern matching,
-- `match.Match` of github.com/tidwall/match, is the parameter `glob_match`.
pub mod Survivors
pub mod Swallows
use zackup.Config.Rsync.{RsyncConfig}
use zackup.Base.{
  ℕ, zero, suc, Bool, true, false, List, [], ◌∷◌, ◌++◌, Str, codes, str_eq, has_prefix,
  contains_rune, if◌then◌else◌, Option, none, some, not, ◌&&◌,
}

-- An empty `short` is an argument without a short form.
pub record BlacklistArg : Type 0 where
  pub long : Str
  pub short : Str
  pub opt : Bool

abbrev entry : Str → Str → Bool → BlacklistArg
entry long short opt = record { long = long; short = short; opt = opt }

abbrev pub blacklist_args : List BlacklistArg
blacklist_args =
    entry (codes "--debug") [] true
    ∷ entry (codes "--info") [] true
    ∷ entry (codes "--verbose") (codes "-v") false
    ∷ entry (codes "--delete*") [] false
    ∷ entry (codes "--del") [] false
    ∷ entry (codes "--rsh") (codes "-e") true
    ∷ entry (codes "--quiet") (codes "-q") false
    ∷ entry (codes "--force") [] false
    ∷ entry (codes "--include") [] true
    ∷ entry (codes "--exclude") [] true
    ∷ entry (codes "--filter") (codes "-f") true
    ∷ entry (codes "--itemize-changes") (codes "-i") false
    ∷ entry (codes "--out-format") [] true
    ∷ entry (codes "--partial") [] false
    ∷ entry (codes "--progress") (codes "-P") false
    ∷ entry (codes "--daemon") [] false
    ∷ []

-- `(*blacklistArg).n`: how many tokens the argument swallows
unfoldable pub swallowed : BlacklistArg → ℕ
swallowed bla = if bla.opt then 1 else 0

abbrev pub is_empty : Str → Bool
is_empty [] = true
is_empty (c ∷ s) = false

module _ (glob_match : Str → Str → Bool) where
  matches_long : BlacklistArg → Str → Bool × ℕ
  unfolding swallowed str_eq
  matches_long bla arg =
      if is_empty bla.long
      then (false, 0)
      else if str_eq arg bla.long
      then (true, swallowed bla)
      else if contains_rune bla.long b'*'
      then (glob_match arg bla.long, swallowed bla)
      else if bla.opt
      then (glob_match arg (bla.long ++ codes "=*"), 0)
      else (false, 0)

  -- `(*blacklistArg).Matches`
  unfoldable pub matches : BlacklistArg → Str → Bool × ℕ
  unfolding matches_long swallowed str_eq has_prefix
  matches bla arg =
      if not (is_empty bla.short) && str_eq arg bla.short
      then (true, swallowed bla)
      else if not (is_empty bla.short) && (bla.opt && has_prefix arg bla.short)
      then (true, 0)
      else matches_long bla arg

  -- The inner loop of `args`: the tokens that the first flag which matches swallows.
  unfoldable pub blacklisted : List BlacklistArg → Str → Option ℕ
  unfolding matches
  blacklisted [] arg = none
  blacklisted (flag ∷ flags) arg =
      let rest = blacklisted flags arg in
      if (matches flag arg).0 then some (matches flag arg).1 else rest

  -- The outer loop. The number counts the tokens that `i += n` still skips.
  unfoldable pub args_loop : ℕ → List Str → List Str
  unfolding blacklisted
  args_loop skip [] = []
  args_loop (suc skip) (arg ∷ rest) = args_loop skip rest
  args_loop zero (arg ∷ rest) = elim (blacklisted blacklist_args arg) [
    | none ↦ arg ∷ args_loop zero rest
    | some n ↦ args_loop n rest
  ]

  -- `(*RsyncConfig).args`
  unfoldable pub args : RsyncConfig → List Str
  unfolding args_loop
  args r = args_loop 0 r.arguments
