-- ===== src/App/Scheduler/Loop/Stop.antt =====
-- What `Stop` does to the scheduler, app/scheduler.go.
use mathlib.Core.Path.{subst}
use mathlib.Core.Option.{some-injective}
use zackup.Base.{
  Bool, true, false, Option, none, some, List, [], ◌∷◌, Str, if◌then◌else◌, ◌≡◌, ◌↔◌, ◌⊎◌, refl,
  sym, ◌∙◌, ap, arith, Bool-cases, inl, inr,
}
use zackup.Base.Dict.{lookup}
use zackup.Config.Job.{JobConfig}
use zackup.Config.Service.{ServiceConfig}
use zackup.App.State.{State}
use zackup.App.Scheduler.{Readings}
use zackup.App.Scheduler.Loop.Turn.{with_metrics_lem}
use zackup.App.Scheduler.Loop.{
  Phase, fresh, waiting, returned, turning, checked, blocked, Scheduler, new_scheduler, Event,
  start, fire, check, consider, accept, see_quit, stop', elsewhere, started, fired, tested,
  considered, accepted, saw_quit, stopped, step, step_on, Reach, here, next,
}

abbrev pub is_fresh : Phase → Bool
is_fresh fresh = true
is_fresh waiting = false
is_fresh returned = false
is_fresh (turning hosts) = false
is_fresh (checked host hosts) = false
is_fresh (blocked host job hosts) = false

-- The channel and the group at each phase.
abbrev pub Fits : Phase → Scheduler → Type 0
Fits fresh sch = (sch.quit ≡ none) × (sch.stop ≡ false) × (sch.wg ≡ 1)
Fits waiting sch = (sch.quit ≡ some sch.stop) × (sch.wg ≡ 1)
Fits (turning hosts) sch = (sch.quit ≡ some sch.stop) × (sch.wg ≡ 1)
Fits (checked host hosts) sch = (sch.quit ≡ some sch.stop) × (sch.wg ≡ 1)
Fits (blocked host job hosts) sch = (sch.quit ≡ some sch.stop) × (sch.wg ≡ 1)
Fits returned sch = (sch.quit ≡ none) × (sch.stop ≡ true) × (sch.wg ≡ 0)

abbrev pub Inv : Scheduler → Type 0
Inv sch = (sch.panicked ≡ true) ⊎ ((sch.panicked ≡ false) × Fits sch.phase sch)

pub no_step : {o : Option Scheduler} {s : Scheduler} → o ≡ none → o ≡ some s → ⊥
no_step p h = absurd (cc)

module _ (svc : ServiceConfig) where
  stopped-Inv :
      (p : Phase) (sch : Scheduler)
      → sch.phase ≡ p
      → sch.panicked ≡ false
      → Fits p sch
      → Inv (stopped sch.quit sch)
  stopped-Inv fresh sch e n (q, s, w) = rw (q, stopped) (inl refl)
  stopped-Inv returned sch e n (q, s, w) = rw (q, stopped) (inl refl)
  stopped-Inv waiting sch e n (q, w) = elim (Bool-cases sch.stop) [
    | inl on ↦ rw (q, on, stopped) (inl refl)
    | inr off ↦ rw (q, off, stopped) (inr (n, rw e (refl, w)))
  ]
  stopped-Inv (turning hosts) sch e n (q, w) = elim (Bool-cases sch.stop) [
    | inl on ↦ rw (q, on, stopped) (inl refl)
    | inr off ↦ rw (q, off, stopped) (inr (n, rw e (refl, w)))
  ]
  stopped-Inv (checked host hosts) sch e n (q, w) = elim (Bool-cases sch.stop) [
    | inl on ↦ rw (q, on, stopped) (inl refl)
    | inr off ↦ rw (q, off, stopped) (inr (n, rw e (refl, w)))
  ]
  stopped-Inv (blocked host job hosts) sch e n (q, w) = elim (Bool-cases sch.stop) [
    | inl on ↦ rw (q, on, stopped) (inl refl)
    | inr off ↦ rw (q, off, stopped) (inr (n, rw e (refl, w)))
  ]

  same_state :
      (p : Phase) (sch : Scheduler) (s : State) → Fits p sch → Fits p (record sch { state = s })
  same_state fresh sch s f = f
  same_state waiting sch s f = f
  same_state returned sch s f = f
  same_state (turning hosts) sch s f = f
  same_state (checked host hosts) sch s f = f
  same_state (blocked host job hosts) sch s f = f

  tested-Inv :
      (p : Phase) (sch s : Scheduler)
      → sch.panicked ≡ false
      → Fits p sch
      → tested p sch ≡ some s
      → Inv s
  tested-Inv fresh sch s n f h = absurd (no_step refl h)
  tested-Inv waiting sch s n f h = absurd (no_step refl h)
  tested-Inv returned sch s n f h = absurd (no_step refl h)
  tested-Inv (checked host hosts) sch s n f h = absurd (no_step refl h)
  tested-Inv (blocked host job hosts) sch s n f h = absurd (no_step refl h)
  tested-Inv (turning []) sch s n f h = subst Inv (some-injective _ _ h) (inr (n, f))
  tested-Inv (turning (host ∷ hosts)) sch s n f h = elim (Bool-cases sch.stop) [
    | inl on ↦ subst Inv (some-injective _ _ (rw (on, tested) at h)) (inr (n, (rw on at f.0, f.1)))
    | inr off ↦
        subst Inv (some-injective _ _ (rw (off, tested) at h)) (inr (n, (rw off at f.0, f.1)))
  ]

  considered-Inv :
      (env : Readings) (p : Phase) (sch s : Scheduler)
      → sch.panicked ≡ false
      → Fits p sch
      → considered svc env p sch ≡ some s
      → Inv s
  considered-Inv env fresh sch s n f h = absurd (no_step refl h)
  considered-Inv env waiting sch s n f h = absurd (no_step refl h)
  considered-Inv env returned sch s n f h = absurd (no_step refl h)
  considered-Inv env (turning hosts) sch s n f h = absurd (no_step refl h)
  considered-Inv env (blocked host job hosts) sch s n f h = absurd (no_step refl h)
  considered-Inv env (checked host hosts) sch s n (q, w) h =
      let c = with_metrics_lem svc env host hosts sch (lookup host sch.state.hosts) in
      subst Inv (sym c.rest ∙ some-injective _ _ h) (go c.state (c.at_next))
    where
      go :
          (st : State) {p : Phase}
          → (p ≡ turning hosts) ⊎ ((job : Option JobConfig) × (p ≡ blocked host job hosts))
          → Inv (record sch { phase = p; state = st })
      go st (inl e) = inr (n, rw e (q, w))
      go st (inr (job, e)) = inr (n, rw e (q, w))

  accepted-Inv :
      (env : Readings) (p : Phase) (sch s : Scheduler)
      → sch.panicked ≡ false
      → Fits p sch
      → accepted svc env p sch ≡ some s
      → Inv s
  accepted-Inv env fresh sch s n f h = absurd (no_step refl h)
  accepted-Inv env waiting sch s n f h = absurd (no_step refl h)
  accepted-Inv env returned sch s n f h = absurd (no_step refl h)
  accepted-Inv env (turning hosts) sch s n f h = absurd (no_step refl h)
  accepted-Inv env (checked host hosts) sch s n f h = absurd (no_step refl h)
  accepted-Inv env (blocked host job hosts) sch s n f h =
      subst Inv (some-injective _ _ h) (inr (n, f))

  fired-Inv :
      (hosts : List Str) (p : Phase) (sch s : Scheduler)
      → sch.panicked ≡ false
      → Fits p sch
      → fired p hosts sch ≡ some s
      → Inv s
  fired-Inv hosts fresh sch s n f h = absurd (no_step refl h)
  fired-Inv hosts waiting sch s n f h = subst Inv (some-injective _ _ h) (inr (n, f))
  fired-Inv hosts returned sch s n f h = absurd (no_step refl h)
  fired-Inv hosts (turning _) sch s n f h = absurd (no_step refl h)
  fired-Inv hosts (checked _ _) sch s n f h = absurd (no_step refl h)
  fired-Inv hosts (blocked _ _ _) sch s n f h = absurd (no_step refl h)

  started-Inv :
      (p : Phase) (sch s : Scheduler)
      → sch.panicked ≡ false
      → Fits p sch
      → started p sch ≡ some s
      → Inv s
  started-Inv fresh sch s n (q, t, w) h = subst Inv (some-injective _ _ h) (inr (n, (refl, w)))
  started-Inv waiting sch s n f h = absurd (no_step refl h)
  started-Inv returned sch s n f h = absurd (no_step refl h)
  started-Inv (turning _) sch s n f h = absurd (no_step refl h)
  started-Inv (checked _ _) sch s n f h = absurd (no_step refl h)
  started-Inv (blocked _ _ _) sch s n f h = absurd (no_step refl h)

  saw_quit-Inv :
      (p : Phase) (sch s : Scheduler)
      → sch.panicked ≡ false
      → Fits p sch
      → saw_quit p sch.quit sch ≡ some s
      → Inv s
  saw_quit-Inv fresh sch s n f h = absurd (no_step refl h)
  saw_quit-Inv waiting sch s n (q, w) h = elim (Bool-cases sch.stop) [
    | inl on ↦
        subst Inv (some-injective _ _ (rw (q, saw_quit, on) at h))
          (inr (n, (refl, refl, omega (arith, w))))
    | inr off ↦ absurd (no_step refl (rw (q, saw_quit, off) at h))
  ]
  saw_quit-Inv returned sch s n f h = absurd (no_step refl h)
  saw_quit-Inv (turning _) sch s n f h = absurd (no_step refl h)
  saw_quit-Inv (checked _ _) sch s n f h = absurd (no_step refl h)
  saw_quit-Inv (blocked _ _ _) sch s n f h = absurd (no_step refl h)

  pub step-step_on :
      (e : Event) (sch : Scheduler) → sch.panicked ≡ false → step svc e sch ≡ step_on svc e sch
  unfolding step
  step-step_on e sch n = ap (λ b. if b then none else step_on svc e sch) n

  pub step-panicked : (e : Event) (sch : Scheduler) → sch.panicked ≡ true → step svc e sch ≡ none
  unfolding step
  step-panicked e sch p = ap (λ b. if b then none else step_on svc e sch) p

  step-Inv : (e : Event) (sch s : Scheduler) → Inv sch → step svc e sch ≡ some s → Inv s
  unfolding step
  step-Inv e sch s (inl panicked) h = absurd (no_step refl (rw panicked at h))
  step-Inv start sch s (inr (n, f)) h =
      started-Inv sch.phase sch s n f (sym (step-step_on start sch n) ∙ h)
  step-Inv (fire hosts) sch s (inr (n, f)) h =
      fired-Inv hosts sch.phase sch s n f (sym (step-step_on (fire hosts) sch n) ∙ h)
  step-Inv check sch s (inr (n, f)) h =
      tested-Inv sch.phase sch s n f (sym (step-step_on check sch n) ∙ h)
  step-Inv (consider env) sch s (inr (n, f)) h =
      considered-Inv env sch.phase sch s n f (sym (step-step_on (consider env) sch n) ∙ h)
  step-Inv (accept env) sch s (inr (n, f)) h =
      accepted-Inv env sch.phase sch s n f (sym (step-step_on (accept env) sch n) ∙ h)
  step-Inv see_quit sch s (inr (n, f)) h =
      saw_quit-Inv sch.phase sch s n f (sym (step-step_on see_quit sch n) ∙ h)
  step-Inv stop' sch s (inr (n, f)) h =
      subst Inv (some-injective _ _ (sym (step-step_on stop' sch n) ∙ h))
        (stopped-Inv sch.phase sch refl n f)
  step-Inv (elsewhere t) sch s (inr (n, f)) h =
      subst Inv (some-injective _ _ (sym (step-step_on (elsewhere t) sch n) ∙ h))
        (inr (n, same_state sch.phase sch t f))

  pub Reach-Inv : {sch s : Scheduler} → Inv sch → Reach svc sch s → Inv s
  Reach-Inv v here = v
  Reach-Inv v (next r e h) = step-Inv e _ _ (Reach-Inv v r) h

  stopped-panics :
      (p : Phase) (sch : Scheduler)
      → sch.phase ≡ p
      → sch.panicked ≡ false
      → Fits p sch
      → ((stopped sch.quit sch).panicked ≡ true) ↔ ((is_fresh p ≡ true) ⊎ (sch.stop ≡ true))
  stopped-panics fresh sch e n (q, s, w) = rw (q, stopped) (ground arith)
  stopped-panics returned sch e n (q, s, w) = rw (q, stopped) (ground arith)
  stopped-panics waiting sch e n (q, w) = rw q (ground arith)
  stopped-panics (turning hosts) sch e n (q, w) = rw q (ground arith)
  stopped-panics (checked host hosts) sch e n (q, w) = rw q (ground arith)
  stopped-panics (blocked host job hosts) sch e n (q, w) = rw q (ground arith)

  pub new_scheduler-Inv :
      {state : State} {sch : Scheduler} → Reach svc (new_scheduler state) sch → Inv sch
  new_scheduler-Inv r = Reach-Inv (inr (refl, (refl, refl, refl))) r

  -- In every interleaving from a new scheduler, calling `Stop` panics exactly where `Start` has
  -- not begun yet, and where `Stop` was called before.
  pub stop_panics :
      (state : State) (sch s : Scheduler)
      → Reach svc (new_scheduler state) sch
      → step svc stop' sch ≡ some s
      → (s.panicked ≡ true) ↔ ((is_fresh sch.phase ≡ true) ⊎ (sch.stop ≡ true))
  unfolding step
  stop_panics state sch s r h = go (new_scheduler-Inv r)
    where
      go : Inv sch → (s.panicked ≡ true) ↔ ((is_fresh sch.phase ≡ true) ⊎ (sch.stop ≡ true))
      go (inl panicked) = absurd (no_step refl (rw panicked at h))
      go (inr (n, f)) =
          subst
            (λ (u : Scheduler).
              (u.panicked ≡ true) ↔ ((is_fresh sch.phase ≡ true) ⊎ (sch.stop ≡ true)))
            (some-injective _ _ (sym (step-step_on stop' sch n) ∙ h))
            (stopped-panics sch.phase sch refl n f)
