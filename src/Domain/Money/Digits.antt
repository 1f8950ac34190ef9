-- ===== src/Domain/Money/Digits.antt =====
-- The digits of a number, and reading them back.
use aytrackerv.Prelude.{
  ℕ, zero, suc, ◌+◌, ◌-◌, ◌*◌, ◌/◌, ◌%◌, ◌≤◌, ◌<◌, ◌≡◌, refl, true, false, [], ◌∷◌, ◌++◌, arith,
  ltb, length, take, drop, All, inl, inr, Bool-cases,
}
use aytrackerv.Domain.Money.{Text, is_digit, span_digits, digits_value, zeros, decimal_digits}

abbrev pub AreDigits : Text → Type 0
AreDigits text = All (λ c. is_digit c ≡ true) text

pub span_digits-append :
    (digits : Text) (c : ℕ) (s : Text)
    → AreDigits digits
    → is_digit c ≡ false
    → span_digits (digits ++ (c ∷ s)) ≡ (digits, c ∷ s)
unfolding span_digits
span_digits-append [] c s a h = rw h
span_digits-append (d ∷ digits) c s a h = rw (a.0, span_digits-append digits c s a.1 h)

pub span_digits_all : (digits : Text) → AreDigits digits → span_digits digits ≡ (digits, [])
unfolding span_digits
span_digits_all [] a = refl
span_digits_all (d ∷ digits) a = rw (a.0, span_digits_all digits a.1)

pub AreDigits-append : (s t : Text) → AreDigits s → AreDigits t → AreDigits (s ++ t)
AreDigits-append [] t a b = b
AreDigits-append (c ∷ s) t a b = (a.0, AreDigits-append s t a.1 b)

pub AreDigits-zeros : (n : ℕ) → AreDigits (zeros n)
AreDigits-zeros zero = tt
AreDigits-zeros (suc n) = (refl, AreDigits-zeros n)

pub AreDigits-take : (n : ℕ) (s : Text) → AreDigits s → AreDigits (take n s)
AreDigits-take zero s a = tt
AreDigits-take (suc n) [] a = tt
AreDigits-take (suc n) (c ∷ s) a = (a.0, AreDigits-take n s a.1)

pub AreDigits-drop : (n : ℕ) (s : Text) → AreDigits s → AreDigits (drop n s)
AreDigits-drop zero s a = a
AreDigits-drop (suc n) [] a = tt
AreDigits-drop (suc n) (c ∷ s) a = AreDigits-drop n s a.1

pub digits_value-zeros : (n : ℕ) (s : Text) → digits_value 0 (zeros n ++ s) ≡ digits_value 0 s
unfolding digits_value
digits_value-zeros zero s = refl
digits_value-zeros (suc n) s = digits_value-zeros n s

pub length-zeros : (n : ℕ) → length (zeros n) ≡ n
length-zeros zero = refl
length-zeros (suc n) = omega (arith, length-zeros n)

pub AreDigits-decimal_digits :
    (fuel n : ℕ) (later : Text) → AreDigits later → AreDigits (decimal_digits fuel n later)
unfolding decimal_digits
AreDigits-decimal_digits zero n later a = a
AreDigits-decimal_digits (suc fuel) n later a = elim (Bool-cases (ltb n 10)) [
  | inl small ↦ rw small (ground arith, a)
  | inr large ↦
      rw large (AreDigits-decimal_digits fuel (n / 10) ((b'0' + n % 10) ∷ later) (ground arith, a))
]

-- Reading the digits of a number gives it back.
pub digits_value-decimal_digits :
    (fuel n : ℕ) (later : Text)
    → n < fuel
    → digits_value 0 (decimal_digits fuel n later) ≡ digits_value n later
unfolding decimal_digits digits_value
digits_value-decimal_digits zero n later h = elim h [ ]
digits_value-decimal_digits (suc fuel) n later h = elim (Bool-cases (ltb n 10)) [
  | inl small ↦ rw small (ground arith)
  | inr large ↦
      let digit : n / 10 * 10 + (b'0' + n % 10 - b'0') ≡ n = omega arith in
      rw large (
        rw (digits_value-decimal_digits fuel (n / 10) ((b'0' + n % 10) ∷ later) (ground arith))
          (rw digit))
]

pub decimal_digits_longer :
    (fuel n : ℕ) (later : Text) → length later ≤ length (decimal_digits fuel n later)
unfolding decimal_digits
decimal_digits_longer zero n later = omega arith
decimal_digits_longer (suc fuel) n later =
    ground (arith, decimal_digits_longer fuel (n / 10) ((b'0' + n % 10) ∷ later))
