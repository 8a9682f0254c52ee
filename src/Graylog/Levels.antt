-- ===== src/Graylog/Levels.antt =====
-- The level of logrus itself, graylog/graylog.go.
use zackup.Base.{
  true, ◌==◌, Option, none, some, List, [], ◌∷◌, ◌++◌, Str, str_eq, ◌≡◌, refl, ◌∙◌, arith, All,
  Bool-cases, inl, inr, ◌⊎◌,
}
use zackup.Graylog.{
  Level, Hook, Middleware, Effect, make_hook, flush_hook, set_log_level, new_middleware, flush_if,
  change_level, set_level, set_endpoint, Call, level, endpoint, call, calls,
}

-- The level that logrus has after the effects.
abbrev pub log_level : List Effect → Level → Level
log_level [] l = l
log_level (set_log_level k ∷ es) l = log_level es k
log_level (make_hook h ∷ es) l = log_level es l
log_level (flush_hook h ∷ es) l = log_level es l

log_level-append :
    (xs ys : List Effect) (l : Level) → log_level (xs ++ ys) l ≡ log_level ys (log_level xs l)
log_level-append [] ys l = refl
log_level-append (set_log_level k ∷ xs) ys l = log_level-append xs ys k
log_level-append (make_hook h ∷ xs) ys l = log_level-append xs ys l
log_level-append (flush_hook h ∷ xs) ys l = log_level-append xs ys l

-- The level that is set is that of panic, or none.
abbrev pub IsPanic : (Str → Option Level) → Call → Type 0
IsPanic parse_level (endpoint s) = Unit
IsPanic parse_level (level s) = (parse_level s ≡ none) ⊎ (parse_level s ≡ some 0)

-- The level of the two.
record Levels (l k : Level) (o : Middleware × List Effect) : Type 0 where
  hooks : o.0.level ≡ l
  logs : log_level o.1 k ≡ k

module _ (parse_level : Str → Option Level) where
  level_kept : (h : Option Hook) (k : Level) → log_level (flush_if h) k ≡ k
  level_kept none k = refl
  level_kept (some h) k = refl

  call-Levels :
      (c : Call) (gl : Middleware) (k : Level)
      → gl.level ≡ 0
      → IsPanic parse_level c
      → Levels 0 k (call parse_level c gl)
  unfolding call set_level set_endpoint
  call-Levels (level s) gl k e (inl failed) =
      rw (failed, change_level) (record { hooks = e; logs = refl })
  call-Levels (level s) gl k e (inr parsed) =
      let same : (0 == gl.level) ≡ true = ground arith in
      rw (parsed, change_level, same) (record { hooks = e; logs = refl })
  call-Levels (endpoint s) gl k e _ = elim (Bool-cases (str_eq gl.endpoint s)) [
    | inl same ↦ rw same (record { hooks = e; logs = refl })
    | inr new_one ↦ elim (Bool-cases (str_eq s [])) [
      | inl empty ↦ rw (new_one, empty) (record { hooks = e; logs = refl })
      | inr given ↦ rw (new_one, given) (record { hooks = e; logs = level_kept gl.hook k })
    ]
  ]

  calls-Levels :
      (cs : List Call) (gl : Middleware) (k : Level)
      → gl.level ≡ 0
      → All (IsPanic parse_level) cs
      → Levels 0 k (calls parse_level cs gl)
  unfolding calls
  calls-Levels [] gl k e _ = record { hooks = e; logs = refl }
  calls-Levels (c ∷ cs) gl k e (p, ps) =
      let one = call-Levels c gl k e p in
      let later = calls-Levels cs (call parse_level c gl).0 k one.hooks ps in
      record {
        hooks = later.hooks;
        logs = log_level-append (call parse_level c gl).1 _ k ∙ rw one.logs later.logs;
      }

  -- A new middleware has the level panic, so a call of `SetLevel` with this level is no change: where
  -- it is the only level that is set, logrus keeps the level that it has, whichever this is.
  pub calls_panic :
      (cs : List Call) (name : Str) (k : Level)
      → All (IsPanic parse_level) cs
      → log_level (calls parse_level cs (new_middleware name)).1 k ≡ k
  calls_panic cs name k ps = (calls-Levels cs (new_middleware name) k refl ps).logs
