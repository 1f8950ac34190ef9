-- ===== src/Domain/MoneyExamples.antt =====
-- Amounts in euros.
use aytrackerv.Prelude.{◌≡◌, ◌+◌, ◌*◌, ◌≤◌, ◌<◌, refl, [], ◌∷◌, arith}
use aytrackerv.Prelude.Int.{ℤ, pos, negsuc, abs, is_negative, signed}
use aytrackerv.Domain.Errors.{ok}
use aytrackerv.Domain.Money.{
  Text, Money, minor_unit_exponent, assert_currency, to_minor_units, from_minor_units, sum_money,
  divide_half_up,
}
use aytrackerv.Domain.Money.RoundTrip.{to_minor_units-from_minor_units}
use aytrackerv.Domain.Money.Sums.{sum_ℤ, sum_money-sum_ℤ}
use aytrackerv.Domain.Money.Rounding.{divide_half_up_nearest}

abbrev eur : Text
eur = b'E' ∷ b'U' ∷ b'R' ∷ []

-- -0.05 EUR and 12.30 EUR
abbrev debt : Money
debt = record { amount = b'-' ∷ b'0' ∷ b'.' ∷ b'0' ∷ b'5' ∷ []; currency = eur }

abbrev price : Money
price = record { amount = b'1' ∷ b'2' ∷ b'.' ∷ b'3' ∷ b'0' ∷ []; currency = eur }

debt_printed : from_minor_units (negsuc 4) eur ≡ ok debt
unfolding from_minor_units minor_unit_exponent
debt_printed = refl

price_printed : from_minor_units (pos 1_230) eur ≡ ok price
unfolding from_minor_units minor_unit_exponent
price_printed = refl

eur_valid : assert_currency eur ≡ ok tt
unfolding assert_currency
eur_valid = refl

to_minor_units-from_minor_units_example :
    (debt.currency ≡ eur) × (to_minor_units debt.amount debt.currency ≡ ok (negsuc 4))
to_minor_units-from_minor_units_example =
    to_minor_units-from_minor_units (negsuc 4) eur debt debt_printed

sum_money-sum_ℤ_example :
    sum_money (price ∷ debt ∷ []) eur
    ≡ from_minor_units (sum_ℤ (pos 0) (pos 1_230 ∷ negsuc 4 ∷ [])) eur
sum_money-sum_ℤ_example =
    sum_money-sum_ℤ eur (pos 1_230 ∷ negsuc 4 ∷ []) (price ∷ debt ∷ []) eur_valid
      (price_printed, (debt_printed, tt))

divide_half_up_nearest_example :
    (q : ℤ) × (divide_half_up (negsuc 4) 2 ≡ ok q)
    × (2 * (abs q * 2) ≤ 12)
    × (10 < 2 * (abs q * 2) + 2)
    × (signed (is_negative (negsuc 4)) (abs q) ≡ q)
divide_half_up_nearest_example = divide_half_up_nearest (negsuc 4) 2 (omega arith)
