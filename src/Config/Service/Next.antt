-- ===== src/Config/Service/Next.antt =====
-- When the next backup is due.
use zackup.Base.{
  ℕ, ◌+◌, ◌-◌, ◌*◌, ◌/◌, ◌%◌, ◌≤◌, ◌<◌, ◌≡◌, arith, ◌⊎◌, inl, inr, Bool-cases, leb, true, false,
  if◌then◌else◌,
}
use zackup.Base.Int.{pos_part, is_positive}
use zackup.Base.Time.{Time, second}
use zackup.Config.Service.{Schedule, ServiceConfig, day, clock, date, next, shift, next_schedule}
use zackup.Config.Service.Format.{IsValid}

-- The seconds after midnight.
abbrev pub of_day : Schedule → ℕ
of_day sc = sc.h * 3_600 + sc.m * 60 + sc.s

-- The test of `next` compares seconds after midnight.
next-eq :
    (sc : Schedule) (t : Time)
    → IsValid sc
    → next sc t ≡ date (if leb (of_day sc) (clock t) then day t + 1 else day t) sc
unfolding next
next-eq sc t v = ground arith

abbrev pub one_day : ℕ
one_day = 86_400_000_000_000

-- Whole seconds, with the time of day of the schedule.
abbrev pub IsDue : Schedule → Time → Type 0
IsDue sc t = (clock t ≡ of_day sc) × (t % second ≡ 0)

-- For a valid schedule, and a time that is not in the first day of all, the next time is due, it
-- is later than the time, and by a day at most.
pub next_lem :
    (sc : Schedule) (t : Time)
    → IsValid sc
    → one_day ≤ t
    → IsDue sc (next sc t) × (t < next sc t) × (next sc t ≤ t + one_day)
next_lem sc t v h = rw (next-eq sc t v) (go (Bool-cases (leb (of_day sc) (clock t))))
  where
    go :
        ((leb (of_day sc) (clock t) ≡ true) ⊎ (leb (of_day sc) (clock t) ≡ false))
        → let n = date (if leb (of_day sc) (clock t) then day t + 1 else day t) sc in
          IsDue sc n × (t < n) × (n ≤ t + one_day)
    go (inl e) = rw e (ground arith)
    go (inr e) = rw e (ground arith)

-- For a valid schedule, and a time that is not in the first day of all, no later time that is due, in
-- whole seconds with the time of day of the schedule, comes before the next time.
pub next-least :
    (sc : Schedule) (t u : Time) → IsValid sc → one_day ≤ t → t < u → IsDue sc u → next sc t ≤ u
next-least sc t u v h lt due = rw (next-eq sc t v) (go (Bool-cases (leb (of_day sc) (clock t))))
  where
    go :
        ((leb (of_day sc) (clock t) ≡ true) ⊎ (leb (of_day sc) (clock t) ≡ false))
        → date (if leb (of_day sc) (clock t) then day t + 1 else day t) sc ≤ u
    go (inl e) = rw e (ground arith)
    go (inr e) = rw e (ground arith)

-- With a jitter the random part moves the time by less than half of it, down, and at most half, up.
shift_bounds :
    (t jit rnd : ℕ)
    → rnd < jit
    → (t ≤ shift t jit rnd + jit / 2) × (shift t jit rnd ≤ t + (jit - jit / 2))
shift_bounds t jit rnd lt = ground arith

-- The next schedule is later than the reference time, whatever the random number is, and by at most
-- a day and the jitter. The schedule is valid, the reference is not in the first day of all, and the
-- random number lies below a jitter that is positive.
pub next_schedule_bounds :
    (svc : ServiceConfig) (rnd : ℕ) (ref : Time)
    → IsValid svc.schedule
    → one_day ≤ ref
    → (is_positive svc.jitter ≡ false) ⊎ (rnd < pos_part svc.jitter)
    → (ref < next_schedule svc rnd ref)
      × (next_schedule svc rnd ref ≤ ref + one_day + pos_part svc.jitter)
unfolding next_schedule
next_schedule_bounds svc rnd ref v h r =
    let utc = ref + pos_part svc.jitter / 2 in
    let (_, later, within) = next_lem svc.schedule utc v (omega arith) in
    ground (arith, shift_bounds (next svc.schedule utc) (pos_part svc.jitter) rnd)
