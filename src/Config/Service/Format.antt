-- ===== src/Config/Service/Format.antt =====
-- The text of a schedule.
use zackup.Base.{
  ℕ, ◌≤◌, ◌<◌, ◌≡◌, refl, arith, Str, List, [], ◌∷◌, split, Option, none, some, true, false, Bool,
  zero, suc, inl, inr, Bool-cases, ◌+◌, ◌/◌, ◌%◌, ◌&&◌, ◌==◌, codes, str_eq, str_eq_iff, ◌++◌,
}
use zackup.Base.Decimal.{show_two, parse_int}
use zackup.Base.Int.{ℤ, pos, negsuc}
use zackup.Base.Result.{Result, ok, err, ok_chain}
use zackup.Config.Service.{
  Schedule, ScheduleError, parse_field, parse_fields, unmarshal_schedule, schedule_string,
}

-- Between 00:00:00 and 23:59:59.
pub record IsValid (sc : Schedule) : Type 0 where
  pub hour : sc.h ≤ 23
  pub minute : sc.m ≤ 59
  pub second : sc.s ≤ 59

parse_field-le : (max : ℕ) (text : Str) {n : ℕ} → parse_field max text ≡ ok n → n ≤ max
unfolding parse_field
parse_field-le max text h = ground arith

parse_fields-IsValid :
    (fields : List Str) {sc : Schedule} → parse_fields fields ≡ ok sc → IsValid sc
unfolding parse_fields
parse_fields-IsValid (h ∷ m ∷ s ∷ []) e =
    let (h', p, e₁) = ok_chain (parse_field 23 h) _ e in
    let (m', q, e₂) = ok_chain (parse_field 59 m) _ e₁ in
    let (s', r, e₃) = ok_chain (parse_field 59 s) _ e₂ in
    ground (arith, parse_field-le 23 h p, parse_field-le 59 m q, parse_field-le 59 s r)
parse_fields-IsValid _ e = cc

-- A schedule that is read, whatever the text, is valid.
pub unmarshal_schedule-IsValid :
    (text : Result ScheduleError Str) {sc : Schedule} → unmarshal_schedule text ≡ ok sc → IsValid sc
unfolding unmarshal_schedule
unmarshal_schedule-IsValid (ok s) h = parse_fields-IsValid _ h
unmarshal_schedule-IsValid (err e) h = cc

-- The test holds of zero and of all numbers up to the bound.
holds_up_to : (ℕ → Bool) → ℕ → Bool
holds_up_to test zero = test 0
holds_up_to test (suc bound) = test (suc bound) && holds_up_to test bound

holds_up_to-le :
    (test : ℕ → Bool) (bound n : ℕ) → n ≤ bound → holds_up_to test bound ≡ true → test n ≡ true
unfolding holds_up_to
holds_up_to-le test zero n le all = let e : n ≡ 0 = omega arith in rw e all
holds_up_to-le test (suc bound) n le all = elim (Bool-cases (n == suc bound)) [
  | inl e ↦ ground arith
  | inr e ↦ holds_up_to-le test bound n (ground arith) (ground arith)
]

two_digits : ℕ → Str
two_digits n = (48 + n / 10) ∷ (48 + n % 10) ∷ []

show_two-table : holds_up_to (λ n. str_eq (show_two n) (two_digits n)) 59 ≡ true
unfolding holds_up_to str_eq show_two two_digits
show_two-table = refl

show_two-two_digits : (n : ℕ) → n < 60 → show_two n ≡ two_digits n
show_two-two_digits n h =
    (str_eq_iff (show_two n) (two_digits n)).0 (holds_up_to-le _ 59 n (omega arith) show_two-table)

abbrev is_pos : ℕ → Option ℤ → Bool
is_pos n none = false
is_pos n (some (negsuc k)) = false
is_pos n (some (pos k)) = k == n

is_pos_lem : (n : ℕ) (o : Option ℤ) → is_pos n o ≡ true → o ≡ some (pos n)
is_pos_lem n none h = cc
is_pos_lem n (some (negsuc k)) h = cc
is_pos_lem n (some (pos k)) h = ground arith

parse_int-table : holds_up_to (λ n. is_pos n (parse_int (two_digits n))) 59 ≡ true
unfolding holds_up_to two_digits parse_int
parse_int-table = refl

parse_field-two_digits : (max n : ℕ) → n < 60 → n ≤ max → parse_field max (two_digits n) ≡ ok n
unfolding parse_field
parse_field-two_digits max n h k =
    rw
      (
        is_pos_lem n (parse_int (two_digits n))
            (holds_up_to-le _ 59 n (omega arith) parse_int-table),
        parse_field,
      )
      (ground arith)

split-digits :
    (a b c : ℕ)
    → a < 60
    → b < 60
    → c < 60
    → split b':' (two_digits a ++ (codes ":" ++ (two_digits b ++ (codes ":" ++ two_digits c))))
      ≡ two_digits a ∷ two_digits b ∷ two_digits c ∷ []
unfolding split two_digits
split-digits a b c h k l = ground arith

-- A valid schedule is read back from its text.
pub unmarshal_schedule-schedule_string :
    (sc : Schedule) → IsValid sc → unmarshal_schedule (ok (schedule_string sc)) ≡ ok sc
unfolding unmarshal_schedule schedule_string parse_fields
unmarshal_schedule-schedule_string sc v = rw (
  show_two-two_digits sc.h (omega arith),
  show_two-two_digits sc.m (omega arith),
  show_two-two_digits sc.s (omega arith),
  split-digits sc.h sc.m sc.s (omega arith) (omega arith) (omega arith),
  parse_field-two_digits 23 sc.h (omega arith) (omega arith),
  parse_field-two_digits 59 sc.m (omega arith) (omega arith),
  parse_field-two_digits 59 sc.s (omega arith) (omega arith),
)
