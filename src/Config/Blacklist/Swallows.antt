-- ===== src/Config/Blacklist/Swallows.antt =====
-- Which tokens a blacklisted flag takes away with it.
use zackup.Base.{
  ℕ, Bool, true, List, [], ◌∷◌, ◌++◌, Str, codes, str_eq, has_prefix, some, ◌≡◌, refl, All, arith,
}
use zackup.Config.Rsync.{RsyncConfig}
use zackup.Config.Blacklist.{
  BlacklistArg, blacklist_args, swallowed, matches, blacklisted, args_loop, args,
}
use zackup.Config.Blacklist.Survivors.{
  IsGlob, is_literal, without_star, Agrees, blacklist_args-Agrees,
}

-- The matcher for patterns that end in their only star.
unfoldable pub prefix_match : Str → Str → Bool
unfolding has_prefix
prefix_match arg pattern' = has_prefix arg (without_star pattern')

without_star_lem : (p : Str) → is_literal p ≡ true → without_star (p ++ codes "*") ≡ p
without_star_lem [] h = refl
without_star_lem (c ∷ p) h = ground (arith, without_star_lem p)

pub prefix_match-IsGlob : IsGlob prefix_match
unfolding prefix_match
prefix_match-IsGlob arg p h = rw (without_star_lem p h)

-- The flags that swallow the next token, when they are given without a value attached.
abbrev pub swallowing : List Str
swallowing =
    codes "--debug"
    ∷ codes "--info"
    ∷ codes "--rsh"
    ∷ codes "-e"
    ∷ codes "--include"
    ∷ codes "--exclude"
    ∷ codes "--filter"
    ∷ codes "-f"
    ∷ codes "--out-format"
    ∷ []

-- What a value is attached to.
abbrev pub attaching : List Str
attaching =
    codes "--debug="
    ∷ codes "--info="
    ∷ codes "--rsh="
    ∷ codes "-e"
    ∷ codes "--include="
    ∷ codes "--exclude="
    ∷ codes "--filter="
    ∷ codes "-f"
    ∷ codes "--out-format="
    ∷ []

module _ (glob_match : Str → Str → Bool) (globs : IsGlob glob_match) where
  blacklisted-prefix_match :
      (arg : Str) (flags : List BlacklistArg)
      → All (Agrees glob_match arg) flags
      → All (Agrees prefix_match arg) flags
      → blacklisted glob_match flags arg ≡ blacklisted prefix_match flags arg
  unfolding blacklisted matches Agrees
  blacklisted-prefix_match arg [] _ _ = refl
  blacklisted-prefix_match arg (flag ∷ flags) (p, ps) (q, qs) =
      ground (arith, blacklisted-prefix_match arg flags ps qs)

  blacklisted_lem :
      (arg : Str)
      → blacklisted glob_match blacklist_args arg ≡ blacklisted prefix_match blacklist_args arg
  blacklisted_lem arg =
      blacklisted-prefix_match arg blacklist_args (blacklist_args-Agrees glob_match globs arg)
        (blacklist_args-Agrees prefix_match prefix_match-IsGlob arg)

  Takes : ℕ → Str → Type 0
  Takes n flag = blacklisted glob_match blacklist_args flag ≡ some n

  args_loop-Takes :
      (n : ℕ) (flag : Str) (rest : List Str)
      → Takes n flag
      → args_loop glob_match 0 (flag ∷ rest) ≡ args_loop glob_match n rest
  unfolding Takes args_loop
  args_loop-Takes n flag rest e = rw (e, args_loop)

  abbrev pub Swallows : Str → Type 0
  Swallows flag =
      (r : RsyncConfig) (value : Str) (rest : List Str)
      → args glob_match (record r { arguments = flag ∷ value ∷ rest })
        ≡ args glob_match (record r { arguments = rest })

  swallows : (flag : Str) → Takes 1 flag → Swallows flag
  unfolding args args_loop
  swallows flag e r value rest = args_loop-Takes 1 flag (value ∷ rest) e

  -- A flag that wants a value and is given by its exact name takes the next argument with it,
  -- whatever that is. Here a pattern that ends in its only star is taken to match what begins with
  -- the text before the star.
  pub args_swallowing : All Swallows swallowing
  unfolding Takes blacklisted matches str_eq has_prefix swallowed prefix_match
  args_swallowing = (
    swallows (codes "--debug") (blacklisted_lem (codes "--debug")),
    (
      swallows (codes "--info") (blacklisted_lem (codes "--info")),
      (
        swallows (codes "--rsh") (blacklisted_lem (codes "--rsh")),
        (
          swallows (codes "-e") (blacklisted_lem (codes "-e")),
          (
            swallows (codes "--include") (blacklisted_lem (codes "--include")),
            (
              swallows (codes "--exclude") (blacklisted_lem (codes "--exclude")),
              (
                swallows (codes "--filter") (blacklisted_lem (codes "--filter")),
                (
                  swallows (codes "-f") (blacklisted_lem (codes "-f")),
                  (swallows (codes "--out-format") (blacklisted_lem (codes "--out-format")), tt),
                ),
              ),
            ),
          ),
        ),
      ),
    ),
  )

  abbrev pub Attaches : Str → Type 0
  Attaches flag =
      (r : RsyncConfig) (c : ℕ) (value : Str) (rest : List Str)
      → args glob_match (record r { arguments = (flag ++ c ∷ value) ∷ rest })
        ≡ args glob_match (record r { arguments = rest })

  attaches : (flag : Str) → ((c : ℕ) (value : Str) → Takes 0 (flag ++ c ∷ value)) → Attaches flag
  unfolding args
  attaches flag e r c value rest = args_loop-Takes 0 (flag ++ c ∷ value) rest (e c value)

  -- A flag with its value attached is dropped alone: the next argument is judged by itself.
  pub args_attaching : All Attaches attaching
  unfolding Takes blacklisted matches str_eq has_prefix swallowed prefix_match
  args_attaching = (
    attaches (codes "--debug=") (λ c v. blacklisted_lem (codes "--debug=" ++ c ∷ v)),
    (
      attaches (codes "--info=") (λ c v. blacklisted_lem (codes "--info=" ++ c ∷ v)),
      (
        attaches (codes "--rsh=") (λ c v. blacklisted_lem (codes "--rsh=" ++ c ∷ v)),
        (
          attaches (codes "-e") (λ c v. blacklisted_lem (codes "-e" ++ c ∷ v)),
          (
            attaches (codes "--include=") (λ c v. blacklisted_lem (codes "--include=" ++ c ∷ v)),
            (
              attaches (codes "--exclude=") (λ c v. blacklisted_lem (codes "--exclude=" ++ c ∷ v)),
              (
                attaches (codes "--filter=") (λ c v. blacklisted_lem (codes "--filter=" ++ c ∷ v)),
                (
                  attaches (codes "-f") (λ c v. blacklisted_lem (codes "-f" ++ c ∷ v)),
                  (
                    attaches (codes "--out-format=")
                        (λ c v. blacklisted_lem (codes "--out-format=" ++ c ∷ v)),
                    tt,
                  ),
                ),
              ),
            ),
          ),
        ),
      ),
    ),
  )
