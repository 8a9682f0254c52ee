-- ===== src/App/Scheduler/Loop/Ends.antt =====
-- How `Stop` comes to its end, app/scheduler.go.
use zackup.Base.{
  ◌-◌, Bool, true, false, Option, none, some, List, [], ◌∷◌, ◌++◌, Str, if◌then◌else◌, ◌≡◌, ◌⊎◌,
  ◌↔◌, refl, ◌∙◌, ap, arith, inl, inr,
}
use zackup.Base.Dict.{lookup}
use zackup.Config.Job.{JobConfig}
use zackup.Config.Service.{ServiceConfig, next_schedule}
use zackup.App.State.{State, reschedule}
use zackup.App.Scheduler.{Readings}
use zackup.App.Scheduler.Loop.{
  Phase, fresh, waiting, returned, turning, checked, blocked, Scheduler, new_scheduler, check,
  consider, accept, see_quit, tested, considered, accepted, saw_quit, Reach, here, next,
  StopReturns,
}
use zackup.App.Scheduler.Loop.Turn.{with_metrics_lem}
use zackup.App.Scheduler.Loop.Stop.{Fits, Inv, step-step_on, new_scheduler-Inv}

-- Some readings of the clock and of the random numbers.
abbrev pub no_readings : Readings
no_readings = record {
  stop = λ k. true;
  now = λ k. 0;
  later = λ k. 0;
  rnd = λ k. 0;
  rnd_later = λ k. 0;
  before = λ k s. s;
  blocked = λ k s. s;
}

abbrev pub has_returned : Phase → Bool
has_returned fresh = false
has_returned waiting = false
has_returned returned = true
has_returned (turning hosts) = false
has_returned (checked host hosts) = false
has_returned (blocked host job hosts) = false

module _ (svc : ServiceConfig) where
  Reach-then : {a b c : Scheduler} → Reach svc a b → Reach svc b c → Reach svc a c
  Reach-then r here = r
  Reach-then r (next t e h) = next (Reach-then r t) e h

  -- The `Wait` of `Stop` can return.
  abbrev pub Returns : Scheduler → Type 0
  Returns sch = (s : Scheduler) × Reach svc sch s × StopReturns s

  Returns-after : (sch u : Scheduler) → Reach svc sch u → Returns u → Returns sch
  Returns-after sch u r (s, t, w) = (s, Reach-then r t, w)

  -- `Stop` was called, and did not panic.
  record IsStopping (sch : Scheduler) : Type 0 where
    fine : sch.panicked ≡ false
    closed : sch.quit ≡ some true
    stops : sch.stop ≡ true
    one : sch.wg ≡ 1

  waiting-Returns : (sch : Scheduler) → IsStopping sch → sch.phase ≡ waiting → Returns sch
  waiting-Returns sch i p = (
    record sch { phase = returned; quit = none; wg = sch.wg - 1 },
    next here see_quit
        (step-step_on svc see_quit sch i.fine ∙ (λ k. saw_quit (p k) (i.closed k) sch)),
    omega (arith, i.one),
  )

  turning-Returns :
      (sch : Scheduler) (hosts : List Str)
      → IsStopping sch
      → sch.phase ≡ turning hosts
      → Returns sch
  turning-Returns sch hosts i p =
      Returns-after sch (record sch { phase = waiting })
        (next here check
          (step-step_on svc check sch i.fine ∙ ap (λ ph. tested ph sch) p ∙ ends_round hosts))
        (waiting-Returns (record sch { phase = waiting })
          (record { fine = i.fine; closed = i.closed; stops = i.stops; one = i.one }) refl)
    where
      ends_round :
          (hosts : List Str) → tested (turning hosts) sch ≡ some (record sch { phase = waiting })
      ends_round [] = refl
      ends_round (host ∷ hosts) =
          ap (λ b. some (record sch { phase = if b then waiting else checked host hosts })) i.stops

  blocked-Returns :
      (sch : Scheduler) (host : Str) (job : Option JobConfig) (hosts : List Str)
      → IsStopping sch
      → sch.phase ≡ blocked host job hosts
      → Returns sch
  blocked-Returns sch host job hosts i p =
      let u = record sch {
        phase = turning hosts;
        state = reschedule host (next_schedule svc 0 0) sch.state;
        calls = sch.calls ++ ((host, job) ∷ []);
      } in
      Returns-after sch u
        (next here (accept no_readings) (
          step-step_on svc (accept no_readings) sch i.fine
          ∙ ap (λ ph. accepted svc no_readings ph sch) p))
        (turning-Returns u hosts
          (record { fine = i.fine; closed = i.closed; stops = i.stops; one = i.one }) refl)

  checked-Returns :
      (sch : Scheduler) (host : Str) (hosts : List Str)
      → IsStopping sch
      → sch.phase ≡ checked host hosts
      → Returns sch
  checked-Returns sch host hosts i p =
      let c = with_metrics_lem svc no_readings host hosts sch (lookup host sch.state.hosts) in
      Returns-after sch (record sch { phase = c.phase; state = c.state })
        (next here (consider no_readings) (
          step-step_on svc (consider no_readings) sch i.fine
          ∙ ap (λ ph. considered svc no_readings ph sch) p
          ∙ ap some c.rest))
        (go (record sch { phase = c.phase; state = c.state })
          (record { fine = i.fine; closed = i.closed; stops = i.stops; one = i.one }) c.at_next)
    where
      go :
          (u : Scheduler)
          → IsStopping u
          → (u.phase ≡ turning hosts)
            ⊎ ((job : Option JobConfig) × (u.phase ≡ blocked host job hosts))
          → Returns u
      go u k (inl e) = turning-Returns u hosts k e
      go u k (inr (job, e)) = blocked-Returns u host job hosts k e

  -- In every state that a new scheduler comes to, and in which `Stop` was called and did not panic,
  -- the `Wait` of `Stop` returns exactly when the goroutine of `Start` has returned, so not while
  -- `Enqueue` blocks; and this goroutine can always come to its end, where the queue takes the job of
  -- a call of `Enqueue` that is under way.
  pub stop_can_return :
      (state : State) (sch : Scheduler)
      → Reach svc (new_scheduler state) sch
      → sch.panicked ≡ false
      → sch.stop ≡ true
      → (StopReturns sch ↔ (has_returned sch.phase ≡ true)) × Returns sch
  stop_can_return state sch r n t = go (new_scheduler-Inv svc r)
    where
      stopping : sch.quit ≡ some sch.stop → sch.wg ≡ 1 → IsStopping sch
      stopping q w = record { fine = n; closed = q ∙ ap some t; stops = t; one = w }

      not_yet :
          sch.wg ≡ 1
          → has_returned sch.phase ≡ false
          → StopReturns sch ↔ (has_returned sch.phase ≡ true)
      not_yet w e = ((λ z. absurd (omega (arith, w, z))), (λ z. absurd (cc)))

      at_phase :
          (p : Phase)
          → sch.phase ≡ p
          → Fits p sch
          → (StopReturns sch ↔ (has_returned sch.phase ≡ true)) × Returns sch
      at_phase fresh e (q, off, w) = absurd (ground (arith, off, t))
      at_phase waiting e (q, w) = (not_yet w (rw e refl), waiting-Returns sch (stopping q w) e)
      at_phase (turning hosts) e (q, w) =
          (not_yet w (rw e refl), turning-Returns sch hosts (stopping q w) e)
      at_phase (checked host hosts) e (q, w) =
          (not_yet w (rw e refl), checked-Returns sch host hosts (stopping q w) e)
      at_phase (blocked host job hosts) e (q, w) =
          (not_yet w (rw e refl), blocked-Returns sch host job hosts (stopping q w) e)
      at_phase returned e (q, on, w) = (((λ z. rw e refl), (λ z. w)), (sch, here, w))

      go : Inv sch → (StopReturns sch ↔ (has_returned sch.phase ≡ true)) × Returns sch
      go (inl panicked) = absurd (ground (arith, panicked, n))
      go (inr (_, f)) = at_phase sch.phase refl f
