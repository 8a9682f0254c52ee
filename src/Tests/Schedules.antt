-- ===== src/Tests/Schedules.antt =====
-- config/service.go at concrete inputs, as in config/service_test.go.
use zackup.Base.{◌+◌, ◌≤◌, ◌<◌, codes, split, ◌≡◌, refl, arith, inr}
use zackup.Base.Decimal.{parse_int}
use zackup.Base.Int.{pos}
use zackup.Base.Result.{ok, err}
use zackup.Base.Time.{Time}
use zackup.Config.Service.{
  Schedule, ServiceConfig, zero_service, out_of_range, invalid_format, parse_fields, parse_field,
  unmarshal_schedule, schedule_string, next, next_schedule,
}
use zackup.Config.Service.Format.{IsValid, unmarshal_schedule-schedule_string}
use zackup.Config.Service.Next.{IsDue, one_day, next_lem, next-least, next_schedule_bounds}

abbrev at_four : Schedule
at_four = record { h = 4; m = 5; s = 6 }

unmarshal_schedule-out_of_range : unmarshal_schedule (ok (codes "24:00:00")) ≡ err out_of_range
unfolding unmarshal_schedule split parse_fields parse_field parse_int
unmarshal_schedule-out_of_range = refl

unmarshal_schedule-invalid_format : unmarshal_schedule (ok (codes "04:00")) ≡ err invalid_format
unfolding unmarshal_schedule split parse_fields
unmarshal_schedule-invalid_format = refl

at_four-IsValid : IsValid at_four
at_four-IsValid = record { hour = omega arith; minute = omega arith; second = omega arith }

unmarshal_schedule-schedule_string_example :
    unmarshal_schedule (ok (schedule_string at_four)) ≡ ok at_four
unmarshal_schedule-schedule_string_example =
    unmarshal_schedule-schedule_string at_four at_four-IsValid

-- Five nanoseconds after five o'clock in the morning of the third day.
abbrev five : Time
five = 246_608_000_000_005

-- The schedule of the day after.
abbrev due : Time
due = 329_714_000_000_000

next-five : next at_four five ≡ due
unfolding next
next-five = refl

next_lem_example :
    IsDue at_four (next at_four five)
    × (five < next at_four five)
    × (next at_four five ≤ five + one_day)
next_lem_example = next_lem at_four five at_four-IsValid (omega arith)

next-least_example : next at_four five ≤ due
next-least_example =
    next-least at_four five due at_four-IsValid (omega arith) (omega arith) (refl, refl)

abbrev with_jitter : ServiceConfig
with_jitter = record zero_service { schedule = at_four; jitter = pos 1_000_000_000 }

next_schedule_bounds_example :
    (five < next_schedule with_jitter 700_000_000 five)
    × (next_schedule with_jitter 700_000_000 five ≤ five + one_day + 1_000_000_000)
next_schedule_bounds_example =
    next_schedule_bounds with_jitter 700_000_000 five at_four-IsValid (omega arith)
      (inr (omega arith))
