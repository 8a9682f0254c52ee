-- ===== src/Graylog/Calls.antt =====
-- What any sequence of calls of the middleware leaves, graylog/graylog.go.
use zackup.Base.{
  true, false, ◌==◌, Option, none, some, List, [], ◌∷◌, ◌++◌, Str, str_eq, str_eq_iff,
  if◌then◌else◌, ◌≡◌, refl, sym, ◌∙◌, ap, arith, Bool-cases, Option-cases, inl, inr, append_assoc,
}
use zackup.Graylog.{
  Level, Hook, Middleware, Effect, make_hook, flush_hook, set_log_level, new_middleware, flush_if,
  change_level, set_level, set_endpoint, Call, level, endpoint, call, calls,
}

-- The last address that is not empty, and the last level that was parsed.
abbrev pub last_address : List Call → Option Hook → Option Hook
last_address [] h = h
last_address (level s ∷ cs) h = last_address cs h
last_address (endpoint s ∷ cs) h = last_address cs (if str_eq s [] then h else some s)

abbrev pub or_level : Option Level → Level → Level
or_level none l = l
or_level (some l) _ = l

abbrev pub last_level : (Str → Option Level) → List Call → Level → Level
last_level parse_level [] l = l
last_level parse_level (level s ∷ cs) l = last_level parse_level cs (or_level (parse_level s) l)
last_level parse_level (endpoint s ∷ cs) l = last_level parse_level cs l

-- The hooks that were made, and those that were flushed, in their order.
abbrev pub made : List Effect → List Hook
made [] = []
made (make_hook h ∷ es) = h ∷ made es
made (flush_hook h ∷ es) = made es
made (set_log_level l ∷ es) = made es

abbrev pub flushed : List Effect → List Hook
flushed [] = []
flushed (make_hook h ∷ es) = flushed es
flushed (flush_hook h ∷ es) = h ∷ flushed es
flushed (set_log_level l ∷ es) = flushed es

abbrev pub present : Option Hook → List Hook
present none = []
present (some h) = h ∷ []

made-append : (xs ys : List Effect) → made (xs ++ ys) ≡ made xs ++ made ys
made-append [] ys = refl
made-append (make_hook h ∷ xs) ys = ap (λ r. h ∷ r) (made-append xs ys)
made-append (flush_hook h ∷ xs) ys = made-append xs ys
made-append (set_log_level l ∷ xs) ys = made-append xs ys

flushed-append : (xs ys : List Effect) → flushed (xs ++ ys) ≡ flushed xs ++ flushed ys
flushed-append [] ys = refl
flushed-append (make_hook h ∷ xs) ys = flushed-append xs ys
flushed-append (flush_hook h ∷ xs) ys = ap (λ r. h ∷ r) (flushed-append xs ys)
flushed-append (set_log_level l ∷ xs) ys = flushed-append xs ys

-- What calls make of a middleware whose endpoint is empty.
pub record Called (hook : Option Hook) (lvl : Level) (gl : Middleware)
    (o : Middleware × List Effect) : Type 0 where
  pub no_endpoint : o.0.endpoint ≡ []
  pub same_name : o.0.name ≡ gl.name
  pub has_hook : o.0.hook ≡ hook
  pub has_level : o.0.level ≡ lvl
  pub each_flushed : present gl.hook ++ made o.1 ≡ flushed o.1 ++ present o.0.hook

no_change : (h : Option Hook) → present h ++ [] ≡ present h
no_change none = refl
no_change (some h) = refl

replaced :
    (h : Option Hook) (s : Str)
    → present h ++ (s ∷ made (flush_if h)) ≡ flushed (flush_if h) ++ (s ∷ [])
replaced none s = refl
replaced (some h) s = refl

changes : (e s : Str) → e ≡ [] → str_eq s [] ≡ false → str_eq e s ≡ false
unfolding str_eq
changes e [] p h = absurd (cc)
changes e (c ∷ s) p h = rw p

-- Calls after calls.
Called-then :
    {h₁ h₂ : Option Hook} {l₁ l₂ : Level} (gl gl₁ gl₂ : Middleware) (es fs : List Effect)
    → Called h₁ l₁ gl (gl₁, es)
    → Called h₂ l₂ gl₁ (gl₂, fs)
    → Called h₂ l₂ gl (gl₂, es ++ fs)
Called-then gl gl₁ gl₂ es fs a b = record {
  no_endpoint = b.no_endpoint;
  same_name = b.same_name ∙ a.same_name;
  has_hook = b.has_hook;
  has_level = b.has_level;
  each_flushed = rw (
    made-append es fs,
    flushed-append es fs,
    ← append_assoc (present gl.hook) (made es) (made fs),
    a.each_flushed,
    append_assoc (flushed es) (present gl₁.hook) (made fs),
    b.each_flushed,
    append_assoc (flushed es) (flushed fs) (present gl₂.hook),
  );
}

module _ (parse_level : Str → Option Level) where
  -- One call.
  one_call :
      (c : Call) (gl : Middleware)
      → gl.endpoint ≡ []
      → Called
          (last_address (c ∷ []) gl.hook)
          (last_level parse_level (c ∷ []) gl.level)
          gl
          (call parse_level c gl)
  unfolding call set_level set_endpoint
  one_call (level s) gl e = elim (Option-cases (parse_level s)) [
    | inl failed ↦
        rw (failed, change_level)
          (record {
            no_endpoint = e;
            same_name = refl;
            has_hook = refl;
            has_level = refl;
            each_flushed = no_change gl.hook;
          })
    | inr (l, parsed) ↦ elim (Bool-cases (l == gl.level)) [
      | inl same ↦
          rw (parsed, change_level, same)
            (record {
              no_endpoint = e;
              same_name = refl;
              has_hook = refl;
              has_level = ground arith;
              each_flushed = no_change gl.hook;
            })
      | inr other ↦
          rw (parsed, change_level, other)
            (record {
              no_endpoint = e;
              same_name = refl;
              has_hook = refl;
              has_level = refl;
              each_flushed = no_change gl.hook;
            })
    ]
  ]
  one_call (endpoint s) gl e = elim (Bool-cases (str_eq s [])) [
    | inl empty ↦
        let same : str_eq gl.endpoint s ≡ true =
          (str_eq_iff gl.endpoint s).1 (e ∙ sym ((str_eq_iff s []).0 empty)) in
        rw (empty, same)
          (record {
            no_endpoint = e;
            same_name = refl;
            has_hook = refl;
            has_level = refl;
            each_flushed = no_change gl.hook;
          })
    | inr given ↦
        let new_one : str_eq gl.endpoint s ≡ false = changes gl.endpoint s e given in
        rw (given, new_one)
          (record {
            no_endpoint = e;
            same_name = refl;
            has_hook = refl;
            has_level = refl;
            each_flushed = replaced gl.hook s;
          })
  ]

  last_address-cons :
      (c : Call) (cs : List Call) (h : Option Hook)
      → last_address cs (last_address (c ∷ []) h) ≡ last_address (c ∷ cs) h
  last_address-cons (level s) cs h = refl
  last_address-cons (endpoint s) cs h = refl

  last_level-cons :
      (c : Call) (cs : List Call) (l : Level)
      → last_level parse_level cs (last_level parse_level (c ∷ []) l)
        ≡ last_level parse_level (c ∷ cs) l
  last_level-cons (level s) cs l = refl
  last_level-cons (endpoint s) cs l = refl

  calls-Called :
      (cs : List Call) (gl : Middleware)
      → gl.endpoint ≡ []
      → Called
          (last_address cs gl.hook)
          (last_level parse_level cs gl.level)
          gl
          (calls parse_level cs gl)
  unfolding calls
  calls-Called [] gl e = record {
    no_endpoint = e;
    same_name = refl;
    has_hook = refl;
    has_level = refl;
    each_flushed = no_change gl.hook;
  }
  calls-Called (c ∷ cs) gl e =
      let one = one_call c gl e in
      let later = calls-Called cs (call parse_level c gl).0 one.no_endpoint in
      Called-then gl (call parse_level c gl).0 _ (call parse_level c gl).1 _ one (
        rw
          (
            ← last_address-cons c cs gl.hook,
            ← last_level-cons c cs gl.level,
            ← one.has_hook,
            ← one.has_level,
          )
          later)

  -- After any sequence of calls of `SetLevel` and `SetEndpoint` of a new middleware: the hook is the
  -- one of the last address that is not empty, so that an empty address never disables it; the level
  -- is the last one that was parsed; the endpoint, with which a new address is compared, is empty;
  -- and of the hooks that were made, all but the one that the middleware has were flushed, in order.
  pub calls_lem :
      (cs : List Call) (name : Str)
      → Called
          (last_address cs none)
          (last_level parse_level cs 0)
          (new_middleware name)
          (calls parse_level cs (new_middleware name))
  calls_lem cs name = calls-Called cs (new_middleware name) refl
