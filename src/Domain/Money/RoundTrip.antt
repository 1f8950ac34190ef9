-- ===== src/Domain/Money/RoundTrip.antt =====
-- An amount that was printed is read back.
use mathlib.Core.List.{append-nil}
use aytrackerv.Prelude.{
  ℕ, zero, suc, ◌+◌, ◌-◌, ◌≤◌, ◌<◌, ◌≡◌, refl, ap, ◌∙◌, Bool, true, false, some, [], ◌∷◌, ◌++◌,
  arith, ltb, length, length-append, take, drop, length-drop, take-drop,
}
use aytrackerv.Prelude.Int.{ℤ, abs, is_negative, signed-abs}
use aytrackerv.Domain.Errors.{ok, then_ran}
use aytrackerv.Domain.Money.{
  Text, Money, is_digit, span_digits, before_sign, after_whole, match_decimal, digits_value, zeros,
  pad_end, pad_start, decimal_digits, sign_text, fraction_text, amount_text, assert_currency,
  minor_unit_exponent, to_minor_units, from_minor_units,
}
use aytrackerv.Domain.Money.Digits.{
  AreDigits, AreDigits-append, AreDigits-zeros, AreDigits-take, AreDigits-drop,
  AreDigits-decimal_digits, span_digits-append, span_digits_all, digits_value-zeros,
  digits_value-decimal_digits, length-zeros,
}

-- The groups of a text of digits, a point and digits.
after_whole-fraction :
    (negative : Bool) (d : ℕ) (whole fraction : Text) (exponent : ℕ)
    → AreDigits (d ∷ whole)
    → AreDigits fraction
    → length fraction ≡ exponent
    → after_whole negative (span_digits ((d ∷ whole) ++ fraction_text exponent fraction))
      ≡ some (record { negative = negative; whole = d ∷ whole; fraction = fraction })
after_whole-fraction negative d whole [] zero a b e =
    rw (append-nil whole) (rw (span_digits_all (d ∷ whole) a))
after_whole-fraction negative d whole (f ∷ fraction) zero a b e = ground arith
after_whole-fraction negative d whole [] (suc n) a b e = ground arith
after_whole-fraction negative d whole (f ∷ fraction) (suc n) a b e =
    rw (span_digits-append (d ∷ whole) b'.' (f ∷ fraction) a refl)
      (rw (span_digits_all (f ∷ fraction) b))

before_sign-sign_text :
    (negative : Bool) (d : ℕ) (s : Text)
    → is_digit d ≡ true
    → before_sign (sign_text negative ++ (d ∷ s)) ≡ (negative, d ∷ s)
before_sign-sign_text true d s h = refl
before_sign-sign_text false d s h = ground arith

match_decimal-print :
    (negative : Bool) (whole fraction : Text) (exponent : ℕ)
    → 0 < length whole
    → AreDigits whole
    → AreDigits fraction
    → length fraction ≡ exponent
    → match_decimal (sign_text negative ++ (whole ++ fraction_text exponent fraction))
      ≡ some (record { negative = negative; whole = whole; fraction = fraction })
unfolding match_decimal
match_decimal-print negative [] fraction exponent l a b e = absurd (omega arith)
match_decimal-print negative (d ∷ whole) fraction exponent l a b e =
    rw (before_sign-sign_text negative d (whole ++ fraction_text exponent fraction) a.0)
      (after_whole-fraction negative d whole fraction exponent a b e)

-- The digits of a number, at least one more than the exponent.
abbrev absolute : ℕ → ℕ → Text
absolute exponent n = pad_start (exponent + 1) (decimal_digits (suc n) n [])

AreDigits-absolute : (exponent n : ℕ) → AreDigits (absolute exponent n)
AreDigits-absolute exponent n =
    AreDigits-append (zeros (exponent + 1 - length (decimal_digits (suc n) n [])))
      (decimal_digits (suc n) n []) (AreDigits-zeros _) (AreDigits-decimal_digits (suc n) n [] tt)

length-absolute : (exponent n : ℕ) → exponent < length (absolute exponent n)
length-absolute exponent n = omega (
  arith,
  length-append (zeros (exponent + 1 - length (decimal_digits (suc n) n [])))
      (decimal_digits (suc n) n []),
  length-zeros (exponent + 1 - length (decimal_digits (suc n) n [])),
)

digits_value-absolute : (exponent n : ℕ) → digits_value 0 (absolute exponent n) ≡ n
unfolding digits_value
digits_value-absolute exponent n =
    digits_value-zeros (exponent + 1 - length (decimal_digits (suc n) n []))
      (decimal_digits (suc n) n [])
    ∙ digits_value-decimal_digits (suc n) n [] (omega arith)

length-take : (n : ℕ) (s : Text) → n ≤ length s → length (take n s) ≡ n
length-take zero s h = refl
length-take (suc n) [] h = absurd (omega arith)
length-take (suc n) (c ∷ s) h = omega (arith, length-take n s)

pad_end_full : (n : ℕ) (s : Text) → length s ≡ n → pad_end n s ≡ s
pad_end_full n s h =
    let none_missing : n - length s ≡ 0 = omega arith in
    ap (λ k. s ++ zeros k) none_missing ∙ append-nil s

-- An amount printed with the exponent of a currency is read as the number of minor units.
pub to_minor_units-amount_text :
    (minor : ℤ) (currency : Text)
    → assert_currency currency ≡ ok tt
    → to_minor_units (amount_text (minor_unit_exponent currency) minor) currency ≡ ok minor
unfolding to_minor_units amount_text
to_minor_units-amount_text minor currency valid =
    let e = minor_unit_exponent currency in
    let digits = absolute e (abs minor) in
    let point = length digits - e in
    let longer = length-absolute e (abs minor) in
    let are = AreDigits-absolute e (abs minor) in
    let read =
      match_decimal-print (is_negative minor) (take point digits) (drop point digits) e
        (omega (arith, length-take point digits)) (AreDigits-take point digits are)
        (AreDigits-drop point digits are) (omega (arith, length-drop point digits)) in
    let exact : length (drop point digits) ≡ e = omega (arith, length-drop point digits) in
    let fits : ltb e (length (drop point digits)) ≡ false = ground arith in
    let all_digits : take point digits ++ pad_end e (drop point digits) ≡ digits =
      ap (λ t. take point digits ++ t) (pad_end_full e (drop point digits) exact)
      ∙ take-drop point digits in
    rw (valid, read)
      (rw fits (rw all_digits (rw (digits_value-absolute e (abs minor)) (rw (signed-abs minor)))))

-- Money that was made of a number of minor units is read as that number, whatever currency has
-- accepted it.
pub to_minor_units-from_minor_units :
    (minor : ℤ) (currency : Text) (printed : Money)
    → from_minor_units minor currency ≡ ok printed
    → (printed.currency ≡ currency) × (to_minor_units printed.amount printed.currency ≡ ok minor)
unfolding from_minor_units
to_minor_units-from_minor_units minor currency printed h =
    let (valid, made) = then_ran (assert_currency currency) _ h in
    let e : record {
      amount = amount_text (minor_unit_exponent currency) minor;
      currency = currency;
    }
        ≡ printed =
      ground arith in
    rw (← e) (refl, to_minor_units-amount_text minor currency valid)
