-- ===== src/Config/Blacklist/Survivors.antt =====
-- Which of the user's arguments survive the blacklist of config/rsync_blacklist.go.
use zackup.Base.{
  ℕ, zero, suc, Bool, true, false, List, [], ◌∷◌, ◌++◌, Str, codes, str_eq, has_prefix,
  contains_rune, if◌then◌else◌, none, not, ◌&&◌, ◌||◌, ◌≡◌, refl, All, arith, Option-cases, inl,
  inr,
}
use mathlib.Core.List.{Sublistᴰ}
use zackup.Config.Rsync.{RsyncConfig}
use zackup.Config.Blacklist.{
  BlacklistArg, blacklist_args, is_empty, swallowed, matches, blacklisted, args_loop, args,
}

-- A pattern that ends in its only star matches the texts that begin with what stands before it.
abbrev pub is_literal : Str → Bool
is_literal [] = true
is_literal (c ∷ s) = not (contains_rune (codes "*?\\") c) && is_literal s

abbrev pub IsGlob : (Str → Str → Bool) → Type 0
IsGlob glob_match =
    (arg p : Str) → is_literal p ≡ true → glob_match arg (p ++ codes "*") ≡ has_prefix arg p

abbrev pub without_star : Str → Str
without_star [] = []
without_star (c ∷ s) = if contains_rune (codes "*") c then [] else c ∷ without_star s

-- What stands before the star: of a long name that is a pattern, or of `--long=*`.
abbrev pub stem : BlacklistArg → Str
stem flag = if contains_rune flag.long b'*' then without_star flag.long else flag.long ++ codes "="

-- The argument is a form of the flag: its short or long name, the short name with a value attached,
-- `--long=value`, or a text that its pattern describes.
abbrev pub is_form : BlacklistArg → Str → Bool
is_form flag arg =
    (not (is_empty flag.short)
      && (str_eq arg flag.short || (flag.opt && has_prefix arg flag.short)))
    || (str_eq arg flag.long
        || ((flag.opt || contains_rune flag.long b'*') && has_prefix arg (stem flag)))

abbrev pub pattern_of : BlacklistArg → Str
pattern_of flag = if contains_rune flag.long b'*' then flag.long else flag.long ++ codes "=*"

unfoldable pub Agrees : (Str → Str → Bool) → Str → BlacklistArg → Type 0
Agrees glob_match arg flag = glob_match arg (pattern_of flag) ≡ has_prefix arg (stem flag)

module _ (glob_match : Str → Str → Bool) (globs : IsGlob glob_match) where
  pub blacklist_args-Agrees : (arg : Str) → All (Agrees glob_match arg) blacklist_args
  unfolding Agrees
  blacklist_args-Agrees arg = (
    globs arg (codes "--debug=") refl,
    (
      globs arg (codes "--info=") refl,
      (
        globs arg (codes "--verbose=") refl,
        (
          globs arg (codes "--delete") refl,
          (
            globs arg (codes "--del=") refl,
            (
              globs arg (codes "--rsh=") refl,
              (
                globs arg (codes "--quiet=") refl,
                (
                  globs arg (codes "--force=") refl,
                  (
                    globs arg (codes "--include=") refl,
                    (
                      globs arg (codes "--exclude=") refl,
                      (
                        globs arg (codes "--filter=") refl,
                        (
                          globs arg (codes "--itemize-changes=") refl,
                          (
                            globs arg (codes "--out-format=") refl,
                            (
                              globs arg (codes "--partial=") refl,
                              (
                                globs arg (codes "--progress=") refl,
                                (globs arg (codes "--daemon=") refl, tt),
                              ),
                            ),
                          ),
                        ),
                      ),
                    ),
                  ),
                ),
              ),
            ),
          ),
        ),
      ),
    ),
  )

  matches-form :
      (arg : Str) (flag : BlacklistArg)
      → is_empty flag.long ≡ false
      → Agrees glob_match arg flag
      → (matches glob_match flag arg).0 ≡ is_form flag arg
  unfolding Agrees matches swallowed
  matches-form arg flag long agree = ground arith

  -- No form of any listed flag survives, and what is no form of any flag is kept.
  blacklisted-form :
      (arg : Str) (flags : List BlacklistArg)
      → All (λ flag. is_empty flag.long ≡ false) flags
      → All (Agrees glob_match arg) flags
      → blacklisted glob_match flags arg ≡ none
      → All (λ flag. is_form flag arg ≡ false) flags
  unfolding blacklisted
  blacklisted-form arg [] _ _ h = tt
  blacklisted-form arg (flag ∷ flags) (long, longs) (agree, agrees) h =
      ground (arith, matches-form arg flag long agree, blacklisted-form arg flags longs agrees)

  form-blacklisted :
      (arg : Str) (flags : List BlacklistArg)
      → All (λ flag. is_empty flag.long ≡ false) flags
      → All (Agrees glob_match arg) flags
      → All (λ flag. is_form flag arg ≡ false) flags
      → blacklisted glob_match flags arg ≡ none
  unfolding blacklisted
  form-blacklisted arg [] _ _ _ = refl
  form-blacklisted arg (flag ∷ flags) (long, longs) (agree, agrees) (f, fs) =
      ground (arith, matches-form arg flag long agree, form-blacklisted arg flags longs agrees fs)

  All-long : All (λ flag. is_empty flag.long ≡ false) blacklist_args
  All-long = ground arith

  args_loop-survivors :
      (skip : ℕ) (arguments : List Str)
      → All
          (λ arg. All (λ flag. is_form flag arg ≡ false) blacklist_args)
          (args_loop glob_match skip arguments)
  unfolding args_loop
  args_loop-survivors skip [] = tt
  args_loop-survivors (suc skip) (arg ∷ rest) = args_loop-survivors skip rest
  args_loop-survivors zero (arg ∷ rest) =
      elim (Option-cases (blacklisted glob_match blacklist_args arg)) [
        | inl e ↦
            rw (e, args_loop)
              (
                blacklisted-form arg blacklist_args All-long (blacklist_args-Agrees arg) e,
                args_loop-survivors zero rest,
              )
        | inr (n, e) ↦ rw (e, args_loop) (args_loop-survivors n rest)
      ]

  args_loop-sublist :
      (skip : ℕ) (arguments : List Str) → Sublistᴰ (args_loop glob_match skip arguments) arguments
  unfolding args_loop
  args_loop-sublist skip [] = Sublistᴰ.slnil
  args_loop-sublist (suc skip) (arg ∷ rest) = Sublistᴰ.cons (args_loop-sublist skip rest)
  args_loop-sublist zero (arg ∷ rest) =
      elim (Option-cases (blacklisted glob_match blacklist_args arg)) [
        | inl e ↦ rw (e, args_loop) (Sublistᴰ.cons-cons refl (args_loop-sublist zero rest))
        | inr (n, e) ↦ rw (e, args_loop) (Sublistᴰ.cons (args_loop-sublist n rest))
      ]

  args_loop-keeps :
      (arguments : List Str)
      → All (λ arg. All (λ flag. is_form flag arg ≡ false) blacklist_args) arguments
      → args_loop glob_match zero arguments ≡ arguments
  unfolding args_loop
  args_loop-keeps [] _ = refl
  args_loop-keeps (arg ∷ rest) (h, hs) =
      rw (form-blacklisted arg blacklist_args All-long (blacklist_args-Agrees arg) h, args_loop)
        (rw (args_loop-keeps rest hs))

  -- What is left of the user's arguments is a sublist of them, in their order, in which no argument
  -- is a form of a blacklisted flag. Here a pattern that ends in its only star is taken to match
  -- what begins with the text before the star.
  pub args_survivors :
      (r : RsyncConfig)
      → Sublistᴰ (args glob_match r) r.arguments
        × All (λ arg. All (λ flag. is_form flag arg ≡ false) blacklist_args) (args glob_match r)
  unfolding args
  args_survivors r = (args_loop-sublist 0 r.arguments, args_loop-survivors 0 r.arguments)

  -- Arguments of which none is a form of a blacklisted flag are all kept, as they are. Here a
  -- pattern that ends in its only star is taken to match what begins with the text before the star.
  pub args_keeps :
      (r : RsyncConfig)
      → All (λ arg. All (λ flag. is_form flag arg ≡ false) blacklist_args) r.arguments
      → args glob_match r ≡ r.arguments
  unfolding args
  args_keeps r h = args_loop-keeps r.arguments h
