-- ===== src/Graylog.antt =====
-- graylog/graylog.go: the middleware between logrus and the Graylog hook, both third-party. A level
-- is a number, as in logrus, where 0 is the level panic and larger numbers are less severe.
pub mod Calls
pub mod Levels
pub mod Requests
use zackup.Base.{
  ℕ, Bool, true, false, ◌&&◌, ◌||◌, not, ltb, ◌==◌, Option, none, some, List, [], ◌∷◌, ◌++◌, Str,
  str_eq, if◌then◌else◌,
}

abbrev pub Level : Type 0
Level = ℕ

-- A hook that `NewAsyncGraylogHook` made, by the address of its server.
abbrev pub Hook : Type 0
Hook = Str

-- The lock is left out.
pub record Middleware : Type 0 where
  pub name : Str
  pub endpoint : Str
  pub level : Level
  pub hook : Option Hook

-- What a method calls: `NewAsyncGraylogHook`, `Flush` of a hook, and `logrus.SetLevel`.
pub data Effect : Type 0 where
  make_hook : Hook → Effect
  flush_hook : Hook → Effect
  set_log_level : Level → Effect

-- `NewMiddleware`, which also adds the middleware to logrus
abbrev pub new_middleware : Str → Middleware
new_middleware name = record { name = name; endpoint = []; level = 0; hook = none }

-- `Fire`: the hook that gets the entry, if one does
unfoldable pub fire : Level → Middleware → Option Hook
fire entry_level gl = elim gl.hook [
  | none ↦ none
  | some h ↦ if ltb gl.level entry_level then none else some h
]

abbrev pub flush_if : Option Hook → List Effect
flush_if none = []
flush_if (some h) = flush_hook h ∷ []

-- `Flush`
unfoldable pub flush : Middleware → List Effect
flush gl = flush_if gl.hook

abbrev pub change_level : Option Level → Middleware → Middleware × List Effect
change_level none gl = (gl, [])
change_level (some lvl) gl =
    if lvl == gl.level then (gl, []) else (record gl { level = lvl }, set_log_level lvl ∷ [])

-- `SetLevel`; `parse_level` is `logrus.ParseLevel`.
unfoldable pub set_level : (Str → Option Level) → Str → Middleware → Middleware × List Effect
set_level parse_level s gl = change_level (parse_level s) gl

-- `if s == "" { gl.hook = nil }`
abbrev pub disabled : Str → Middleware → Middleware
disabled s gl = if str_eq s [] then record gl { hook = none } else gl

-- `SetEndpoint`
unfoldable pub set_endpoint : Str → Middleware → Middleware × List Effect
set_endpoint s gl =
    if str_eq gl.endpoint s
    then (gl, [])
    else (record (disabled s gl) { hook = some s }, make_hook s ∷ flush_if (disabled s gl).hook)

-- The calls that change the middleware.
pub data Call : Type 0 where
  level endpoint : Str → Call

module _ (parse_level : Str → Option Level) where
  unfoldable pub call : Call → Middleware → Middleware × List Effect
  call (level s) gl = set_level parse_level s gl
  call (endpoint s) gl = set_endpoint s gl

  -- One call after the other.
  unfoldable pub calls : List Call → Middleware → Middleware × List Effect
  calls [] gl = (gl, [])
  calls (c ∷ cs) gl =
      let (gl₁, effects) = call c gl in let (gl₂, rest) = calls cs gl₁ in (gl₂, effects ++ rest)
