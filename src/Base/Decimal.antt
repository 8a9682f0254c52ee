-- ===== src/Base/Decimal.antt =====
-- Decimal numerals: the verb `%d` of the package fmt, and `ParseUint`, `ParseInt` and `Atoi` of the
-- package strconv, at 64 bits.
use Prim.Native.Nat.{ℕ, zero, suc, ◌+◌, ◌-◌, ◌*◌, ◌/◌, ◌%◌, ◌<◌, ◌≤◌}
use mathlib.Core.Path.{◌≡◌, refl, ◌∙◌}
use mathlib.Core.Bool.{◌&&◌}
use mathlib.Core.List.{[], ◌∷◌}
use mathlib.Core.Option.{Option, none, some}
use native.Mathlib.Omega.{arith}
use mathlib.Core.Logic.{inl, inr}
use zackup.Base.Tests.{◌==◌, ltb, leb, if◌then◌else◌, Bool-cases}
use zackup.Base.Text.{Str}
use zackup.Base.Int.{ℤ, pos, negsuc, neg}

-- The digits of `n` before the text, on fuel.
unfoldable pub show_onto : ℕ → ℕ → Str → Str
show_onto zero n acc = acc
show_onto (suc fuel) n acc =
    let rest = show_onto fuel (n / 10) ((48 + n % 10) ∷ acc) in
    if ltb n 10 then (48 + n) ∷ acc else rest

-- Each digit takes one unit of fuel, so `n + 1` is enough.
unfoldable pub show : ℕ → Str
unfolding show_onto
show n = show_onto (suc n) n []

unfoldable pub show_int : ℤ → Str
unfolding show
show_int (pos n) = show n
show_int (negsuc n) = b'-' ∷ show (suc n)

-- `%02d`, at a number that is not negative
unfoldable pub show_two : ℕ → Str
unfolding show
show_two n = if ltb n 10 then b'0' ∷ show n else show n

unfoldable pub parse_digits : ℕ → Str → Option ℕ
parse_digits acc [] = some acc
parse_digits acc (c ∷ s) =
    let rest = parse_digits (acc * 10 + (c - 48)) s in if leb 48 c && leb c 57 then rest else none

-- A numeral without a sign has a digit.
unfoldable pub parse_nat : Str → Option ℕ
unfolding parse_digits
parse_nat [] = none
parse_nat (c ∷ s) = parse_digits 0 (c ∷ s)

below : ℕ → Option ℕ → Option ℕ
below bound none = none
below bound (some n) = if ltb n bound then some n else none

abbrev pub two_63 : ℕ
two_63 = 9_223_372_036_854_775_808

abbrev pub two_64 : ℕ
two_64 = 18_446_744_073_709_551_616

-- `strconv.ParseUint(s, 10, 64)`, where `none` is an error
unfoldable pub parse_uint : Str → Option ℕ
unfolding parse_nat below
parse_uint s = below two_64 (parse_nat s)

abbrev as_pos : Option ℕ → Option ℤ
as_pos none = none
as_pos (some n) = some (pos n)

abbrev as_neg : Option ℕ → Option ℤ
as_neg none = none
as_neg (some n) = some (neg n)

-- `strconv.ParseInt(s, 10, 64)`, which is `strconv.Atoi(s)` on a machine of 64 bits
unfoldable pub parse_int : Str → Option ℤ
unfolding parse_nat below
parse_int [] = none
parse_int (c ∷ s) =
    if c == b'-'
    then as_neg (below (two_63 + 1) (parse_nat s))
    else if c == b'+'
    then as_pos (below two_63 (parse_nat s))
    else as_pos (below two_63 (parse_nat (c ∷ s)))

parse_digits-cons :
    (acc d : ℕ) (s : Str) → d < 10 → parse_digits acc ((48 + d) ∷ s) ≡ parse_digits (acc * 10 + d) s
unfolding parse_digits
parse_digits-cons acc d s h =
    let e : acc * 10 + (48 + d - 48) ≡ acc * 10 + d = omega arith in rw e (ground arith)

parse_digits-show_onto :
    (fuel n : ℕ) (acc : Str) → n < fuel → parse_digits 0 (show_onto fuel n acc) ≡ parse_digits n acc
unfolding show_onto
parse_digits-show_onto zero n acc h = absurd (omega arith)
parse_digits-show_onto (suc fuel) n acc h = elim (Bool-cases (ltb n 10)) [
  | inl e ↦
      let z : 0 * 10 + n ≡ n = omega arith in rw e (parse_digits-cons 0 n acc (ground arith) ∙ rw z)
  | inr e ↦
      let z : n / 10 * 10 + n % 10 ≡ n = omega arith in
      rw e (
        parse_digits-show_onto fuel (n / 10) ((48 + n % 10) ∷ acc) (ground arith)
        ∙ parse_digits-cons (n / 10) (n % 10) acc (omega arith)
        ∙ rw z)
]

-- The first code point of a numeral is a digit.
abbrev HasDigit : Str → Type 0
HasDigit [] = ⊥
HasDigit (c ∷ s) = (48 ≤ c) × (c ≤ 57)

show_onto-HasDigit : (fuel n : ℕ) (acc : Str) → n < fuel → HasDigit (show_onto fuel n acc)
unfolding show_onto
show_onto-HasDigit zero n acc h = absurd (omega arith)
show_onto-HasDigit (suc fuel) n acc h = elim (Bool-cases (ltb n 10)) [
  | inl e ↦ rw e (omega arith, ground arith)
  | inr e ↦ rw e (show_onto-HasDigit fuel (n / 10) _ (ground arith))
]

digits_of : (s : Str) → HasDigit s → parse_nat s ≡ parse_digits 0 s
unfolding parse_nat
digits_of [] h = absurd h
digits_of (c ∷ s) h = refl

-- What `%d` prints is read back.
pub parse_nat-show : (n : ℕ) → parse_nat (show n) ≡ some n
unfolding show parse_digits
parse_nat-show n =
    digits_of (show n) (show_onto-HasDigit (suc n) n [] (omega arith))
    ∙ parse_digits-show_onto (suc n) n [] (omega arith)

pub parse_uint-show : (n : ℕ) → n < two_64 → parse_uint (show n) ≡ some n
unfolding parse_uint
parse_uint-show n h = rw (parse_nat-show n) (ground arith)

parse_int-digits : (s : Str) → HasDigit s → parse_int s ≡ as_pos (below two_63 (parse_nat s))
unfolding parse_int
parse_int-digits [] h = absurd h
parse_int-digits (c ∷ s) h = ground arith

pub parse_int-show : (n : ℕ) → n < two_63 → parse_int (show n) ≡ some (pos n)
unfolding show below
parse_int-show n h =
    parse_int-digits (show n) (show_onto-HasDigit (suc n) n [] (omega arith))
    ∙ rw (parse_nat-show n) (ground arith)

-- Every 64-bit integer is read back from its numeral.
abbrev pub IsInt64 : ℤ → Type 0
IsInt64 (pos n) = n < two_63
IsInt64 (negsuc n) = n < two_63

pub parse_int-show_int : (a : ℤ) → IsInt64 a → parse_int (show_int a) ≡ some a
unfolding show_int
parse_int-show_int (pos n) h = parse_int-show n h
parse_int-show_int (negsuc n) h =
    unfold parse_int below in rw (parse_nat-show (suc n)) (ground arith)
