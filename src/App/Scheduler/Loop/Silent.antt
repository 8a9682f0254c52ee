-- ===== src/App/Scheduler/Loop/Silent.antt =====
-- What is enqueued after `Stop`, app/scheduler.go.
use mathlib.Core.Path.{subst}
use mathlib.Core.Option.{some-injective}
use zackup.Base.{
  Bool, true, false, Option, none, some, List, [], ◌∷◌, ◌++◌, Str, ◌≡◌, ◌⊎◌, refl, sym, ◌∙◌, ap,
  Bool-cases, inl, inr,
}
use zackup.Base.Dict.{lookup}
use zackup.Config.Job.{JobConfig}
use zackup.Config.Service.{ServiceConfig}
use zackup.App.State.{State}
use zackup.App.Scheduler.{Readings, Call}
use zackup.App.Scheduler.Loop.{
  Phase, fresh, waiting, returned, turning, checked, blocked, Scheduler, Event, start, fire, check,
  consider, accept, see_quit, stop', elsewhere, started, fired, tested, considered, accepted,
  saw_quit, stopped, step_on, Reach, here, next,
}
use zackup.App.Scheduler.Loop.Turn.{with_metrics_lem}
use zackup.App.Scheduler.Loop.Stop.{is_fresh, no_step, step-step_on, step-panicked}

-- The host of a turn that is past the test of `stop`.
abbrev pub in_turn : Phase → Option Str
in_turn fresh = none
in_turn waiting = none
in_turn returned = none
in_turn (turning hosts) = none
in_turn (checked host hosts) = some host
in_turn (blocked host job hosts) = some host

-- The calls since `sch` are none, and the turn that was under way may still be; or there is one, of
-- that turn.
abbrev Late : Scheduler → List Call → Phase → Type 0
Late sch calls p =
    ((calls ≡ sch.calls) × ((in_turn p ≡ none) ⊎ (in_turn p ≡ in_turn sch.phase)))
    ⊎ ((c : Call) × (in_turn sch.phase ≡ some c.0)
        × (calls ≡ sch.calls ++ (c ∷ []))
        × (in_turn p ≡ none))

record IsStopped (sch u : Scheduler) : Type 0 where
  not_fresh : is_fresh u.phase ≡ false
  stops : u.stop ≡ true
  late : Late sch u.calls u.phase

some-none : {A : Type 0} {a : A} → some a ≡ none → ⊥
some-none h = absurd (cc)

Late-turning :
    (sch : Scheduler) (calls : List Call) (p : Phase) (hosts : List Str)
    → Late sch calls p
    → Late sch calls (turning hosts)
Late-turning sch calls p hosts (inl (e, q)) = inl (e, inl refl)
Late-turning sch calls p hosts (inr (c, e, g, q)) = inr (c, e, g, refl)

Late-accepted :
    (sch : Scheduler) (calls : List Call) (host : Str) (job : Option JobConfig) (hosts : List Str)
    → Late sch calls (blocked host job hosts)
    → Late sch (calls ++ ((host, job) ∷ [])) (turning hosts)
Late-accepted sch calls host job hosts (inl (e, inl q)) = absurd (some-none q)
Late-accepted sch calls host job hosts (inl (e, inr q)) =
    inr ((host, job), sym q, ap (λ cs. cs ++ ((host, job) ∷ [])) e, refl)
Late-accepted sch calls host job hosts (inr (c, e, g, q)) = absurd (some-none q)

module _ (svc : ServiceConfig) where
  considered-IsStopped :
      (before : Scheduler) (env : Readings) (host : Str) (hosts : List Str) (sch s : Scheduler)
      → sch.stop ≡ true
      → Late before sch.calls (checked host hosts)
      → considered svc env (checked host hosts) sch ≡ some s
      → IsStopped before s
  considered-IsStopped before env host hosts sch s stops late h =
      let c = with_metrics_lem svc env host hosts sch (lookup host sch.state.hosts) in
      subst (IsStopped before) (sym c.rest ∙ some-injective _ _ h) (go c.state c.at_next)
    where
      go :
          (st : State) {p : Phase}
          → (p ≡ turning hosts) ⊎ ((job : Option JobConfig) × (p ≡ blocked host job hosts))
          → IsStopped before (record sch { phase = p; state = st })
      go st (inl e) = record {
        not_fresh = rw e refl;
        stops = stops;
        late = rw e (Late-turning before sch.calls (checked host hosts) hosts late);
      }
      go st (inr (job, e)) = record { not_fresh = rw e refl; stops = stops; late = rw e late }

  step-IsStopped :
      (before : Scheduler) (e : Event) (sch s : Scheduler)
      → IsStopped before sch
      → step_on svc e sch ≡ some s
      → IsStopped before s
  step-IsStopped before start sch s i h = go sch.phase i.not_fresh h
    where
      go : (p : Phase) → is_fresh p ≡ false → started p sch ≡ some s → IsStopped before s
      go fresh n h = absurd (cc)
      go waiting n h = absurd (no_step refl h)
      go returned n h = absurd (no_step refl h)
      go (turning hosts) n h = absurd (no_step refl h)
      go (checked host hosts) n h = absurd (no_step refl h)
      go (blocked host job hosts) n h = absurd (no_step refl h)
  step-IsStopped before (fire order) sch s i h = go sch.phase i.late h
    where
      go : (p : Phase) → Late before sch.calls p → fired p order sch ≡ some s → IsStopped before s
      go waiting late h =
          subst (IsStopped before) (some-injective _ _ h)
            (record { not_fresh = refl; stops = i.stops; late = late })
      go fresh late h = absurd (no_step refl h)
      go returned late h = absurd (no_step refl h)
      go (turning hosts) late h = absurd (no_step refl h)
      go (checked host hosts) late h = absurd (no_step refl h)
      go (blocked host job hosts) late h = absurd (no_step refl h)
  step-IsStopped before check sch s i h = go sch.phase i.late h
    where
      go : (p : Phase) → Late before sch.calls p → tested p sch ≡ some s → IsStopped before s
      go fresh late h = absurd (no_step refl h)
      go waiting late h = absurd (no_step refl h)
      go returned late h = absurd (no_step refl h)
      go (turning []) late h =
          subst (IsStopped before) (some-injective _ _ h)
            (record { not_fresh = refl; stops = i.stops; late = late })
      go (turning (host ∷ hosts)) late h =
          subst (IsStopped before) (some-injective _ _ (rw (i.stops, tested) at h))
            (record { not_fresh = refl; stops = refl; late = late })
      go (checked host hosts) late h = absurd (no_step refl h)
      go (blocked host job hosts) late h = absurd (no_step refl h)
  step-IsStopped before (consider env) sch s i h = go sch.phase i.late h
    where
      go :
          (p : Phase)
          → Late before sch.calls p
          → considered svc env p sch ≡ some s
          → IsStopped before s
      go fresh late h = absurd (no_step refl h)
      go waiting late h = absurd (no_step refl h)
      go returned late h = absurd (no_step refl h)
      go (turning hosts) late h = absurd (no_step refl h)
      go (checked host hosts) late h =
          considered-IsStopped before env host hosts sch s i.stops late h
      go (blocked host job hosts) late h = absurd (no_step refl h)
  step-IsStopped before (accept env) sch s i h = go sch.phase i.late h
    where
      go :
          (p : Phase)
          → Late before sch.calls p
          → accepted svc env p sch ≡ some s
          → IsStopped before s
      go fresh late h = absurd (no_step refl h)
      go waiting late h = absurd (no_step refl h)
      go returned late h = absurd (no_step refl h)
      go (turning hosts) late h = absurd (no_step refl h)
      go (checked host hosts) late h = absurd (no_step refl h)
      go (blocked host job hosts) late h = subst (IsStopped before) (some-injective _ _ h) (record {
        not_fresh = refl;
        stops = i.stops;
        late = Late-accepted before sch.calls host job hosts late;
      })
  step-IsStopped before see_quit sch s i h = go sch.phase sch.quit i.late h
    where
      go :
          (p : Phase) (q : Option Bool)
          → Late before sch.calls p
          → saw_quit p q sch ≡ some s
          → IsStopped before s
      go waiting (some true) late h =
          subst (IsStopped before) (some-injective _ _ h)
            (record { not_fresh = refl; stops = i.stops; late = late })
      go waiting (some false) late h = absurd (no_step refl h)
      go waiting none late h = absurd (no_step refl h)
      go fresh q late h = absurd (no_step refl h)
      go returned q late h = absurd (no_step refl h)
      go (turning hosts) q late h = absurd (no_step refl h)
      go (checked host hosts) q late h = absurd (no_step refl h)
      go (blocked host job hosts) q late h = absurd (no_step refl h)
  step-IsStopped before stop' sch s i h =
      subst (IsStopped before) (some-injective _ _ h) (go sch.quit)
    where
      go : (q : Option Bool) → IsStopped before (stopped q sch)
      go none = record { not_fresh = i.not_fresh; stops = refl; late = i.late }
      go (some true) = record { not_fresh = i.not_fresh; stops = refl; late = i.late }
      go (some false) = record { not_fresh = i.not_fresh; stops = refl; late = i.late }
  step-IsStopped before (elsewhere t) sch s i h =
      subst (IsStopped before) (some-injective _ _ h)
        (record { not_fresh = i.not_fresh; stops = i.stops; late = i.late })

  -- Once `Stop` was called on a scheduler whose `Start` had begun, whatever happens in between, also
  -- where the timer fires once more: either no host is enqueued any more, or one is, once, and it is
  -- the host of a turn that was past the test of `stop` when `Stop` was called.
  pub stopped_silent :
      (sch s : Scheduler)
      → is_fresh sch.phase ≡ false
      → sch.stop ≡ true
      → Reach svc sch s
      → (s.calls ≡ sch.calls)
        ⊎ ((c : Call) × (in_turn sch.phase ≡ some c.0) × (s.calls ≡ sch.calls ++ (c ∷ [])))
  stopped_silent sch s n t r = conclude (go r).late
    where
      go : {u : Scheduler} → Reach svc sch u → IsStopped sch u
      go here = record { not_fresh = n; stops = t; late = inl (refl, inr refl) }
      go (next {r = v} r e h) = elim (Bool-cases v.panicked) [
        | inl panicked ↦ absurd (no_step (step-panicked svc e v panicked) h)
        | inr fine ↦ step-IsStopped sch e v _ (go r) (sym (step-step_on svc e v fine) ∙ h)
      ]

      conclude :
          Late sch s.calls s.phase
          → (s.calls ≡ sch.calls)
            ⊎ ((c : Call) × (in_turn sch.phase ≡ some c.0) × (s.calls ≡ sch.calls ++ (c ∷ [])))
      conclude (inl (e, q)) = inl e
      conclude (inr (c, e, g, q)) = inr (c, e, g)
