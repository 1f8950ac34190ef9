-- ===== src/Domain/Money/Rounding.antt =====
-- Rounding of a quotient.
use native.Mathlib.Nat.{div-add-mod', mod-lt}
use aytrackerv.Prelude.{
  ℕ, ◌+◌, ◌*◌, ◌/◌, ◌%◌, ◌≤◌, ◌<◌, ◌≡◌, Bool, true, false, arith, inl, inr, Bool-cases, leb→le, leb,
  if◌then◌else◌,
}
use aytrackerv.Prelude.Int.{ℤ, abs, is_negative, signed}
use aytrackerv.Domain.Errors.{ok}
use aytrackerv.Domain.Money.{divide_half_up}

abs-signed : (negative : Bool) (n : ℕ) → abs (signed negative n) ≡ n
abs-signed true n = ground arith
abs-signed false n = omega arith

-- `a` is `q` times `d`, and `r` more.
rounded_bounds :
    (a d q r : ℕ)
    → q * d + r ≡ a
    → r < d
    → (2 * ((if leb d (r * 2) then q + 1 else q) * d) ≤ 2 * a + d)
      × (2 * a < 2 * ((if leb d (r * 2) then q + 1 else q) * d) + d)
rounded_bounds a d q r e l = elim (Bool-cases (leb d (r * 2))) [
  | inl up ↦ let h = leb→le d (r * 2) up in rw up (grind arith, grind arith)
  | inr down ↦ let h : r * 2 < d = ground arith in rw down (omega arith, omega arith)
]

-- The quotient of a number by a positive number is rounded to the nearest integer, and a half away
-- from zero: twice the rounded quotient times the divisor differs from twice the number by at most
-- the divisor, and from below by less. Its sign is that of the number.
pub divide_half_up_nearest :
    (n : ℤ) (d : ℕ)
    → 0 < d
    → (q : ℤ) × (divide_half_up n d ≡ ok q)
      × (2 * (abs q * d) ≤ 2 * abs n + d)
      × (2 * abs n < 2 * (abs q * d) + d)
      × (signed (is_negative n) (abs q) ≡ q)
unfolding divide_half_up
divide_half_up_nearest n d h =
    let quotient = abs n / d in
    let rounded = if leb d (abs n % d * 2) then quotient + 1 else quotient in
    let q = signed (is_negative n) rounded in
    let size = abs-signed (is_negative n) rounded in
    let (above, below) =
      rounded_bounds (abs n) d quotient (abs n % d) (div-add-mod' (abs n) d) (mod-lt (abs n) h) in
    (q, ground arith, rw size above, rw size below, rw size)
